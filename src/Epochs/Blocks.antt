-- ===== src/Epochs/Blocks.antt =====
-- The hooks over the blocks of a chain, with the work that the calls of each block do in between.
use mathlib.Core.Path.{subst₂}
use interplanetary_asynchron.Prelude.{
  ℕ, ◌+◌, ◌<◌, min, ◌≡◌, refl, sym, ap, subst, ◌∙◌, ◌⊎◌, inl, inr, true, false, none, some, [],
  arith, ltb, nat_beq, nat_eq, pair_eq,
}
use interplanetary_asynchron.Epochs.Hooks.{
  reserve_slot, apply_observation, on_initialize, store_pending_block_observation, on_finalize,
}
use interplanetary_asynchron.Epochs.Invariant.{prev_hash, IsOpen, IsSound}
use interplanetary_asynchron.Epochs.Invariant.Opening.{applied-IsOpen, applied-keeps}
use interplanetary_asynchron.Epochs.Invariant.Staging.{staged-eq}
use interplanetary_asynchron.Epochs.State.{
  PendingBlockObservation, Storage, genesis, Context, Providers,
}
use interplanetary_asynchron.Prelude.Map.{get, get-insert_self}
use interplanetary_asynchron.Types.Scale.{DomainId, domain_eq, EpochId, Hasher, u32_max}
use interplanetary_asynchron.Types.Summary.{EpochSummaryHeader}

pub record State (P : Type 0) : Type 0 where
  pub epochs : Storage
  pub pallets : P

module _ {P : Type 0} (providers : Providers P) ⦃h : Hasher⦄ where
  abbrev pub opening : Context → ℕ → State P → Storage × P
  opening context number st = on_initialize providers context number st.epochs st.pallets

  -- `Work epoch number p q`: in block `number`, while `epoch` is open, the calls may take the other
  -- pallets from `p` to `q`. Block numbers are those that a `u32` holds.
  pub data Blocks (Work : EpochId → ℕ → P → P → Type 0) (domain_id : DomainId) (m : ℕ) (a : State P)
      : ℕ → State P → Type 0 where
    start : Blocks Work domain_id m a m a
    block :
        {n : ℕ} {b : State P}
        → Blocks Work domain_id m a n b
        → (context : Context) (q : P) → context.domain_id ≡ domain_id
        → n < u32_max
        → Work (opening context (n + 1) b).0.current_epoch (n + 1) (opening context (n + 1) b).1 q
        → Blocks Work domain_id m a (n + 1) (record {
          epochs = on_finalize context (n + 1) (opening context (n + 1) b).0;
          pallets = q;
        })

  -- After a first block the hook goes straight to the pending observation.
  pub opening-eq :
      (context : Context) (n : ℕ) (b : State P) (observation : PendingBlockObservation)
      → 0 < n
      → n < u32_max
      → b.epochs.is_initialized ≡ true
      → b.epochs.pending_block_observation ≡ some observation
      → opening context (n + 1) b
        ≡ apply_observation providers context
            (n + 1)
            (some observation)
            (record b.epochs { pending_block_observation = none })
            b.pallets
  unfolding on_initialize
  opening-eq context n b observation positive room ready found =
      let not_zero : nat_beq (n + 1) 0 ≡ false = ground arith in
      let number : min (n + 1) u32_max ≡ n + 1 = omega arith in
      let later : ltb 1 (n + 1) ≡ true = ground arith in
      rw (not_zero, number, ready, later, found) refl

  module _ (domain_id : DomainId) (len : ℕ) (positive : 0 < len) where
    opening-IsOpen :
        (context : Context) (n : ℕ) (b : State P)
        → context.domain_id ≡ domain_id
        → n < u32_max
        → IsSound domain_id len n b.epochs
        → IsOpen domain_id len (n + 1) (opening context (n + 1) b).0
    opening-IsOpen context n b same room sound =
        let (observation, found, _) = sound.pending in
        let (slot, at, is_reserved, so_far) = sound.as_open.slot in
        let schedule = sound.as_open.schedule in
        subst (λ x. IsOpen domain_id len (n + 1) x.0)
          (sym (
            opening-eq context n b observation (omega (arith, schedule.after_start)) room
              schedule.ready found))
          (applied-IsOpen domain_id len n b.epochs context observation slot room schedule at
            is_reserved so_far providers b.pallets positive same)

    opening-keeps :
        (context : Context) (n : ℕ) (b : State P)
        → n < u32_max
        → IsSound domain_id len n b.epochs
        → (e : EpochId) (x : EpochSummaryHeader) → get b.epochs.summary_headers e ≡ some x
        → get (opening context (n + 1) b).0.summary_headers e ≡ some x
    opening-keeps context n b room sound e x stored =
        let (observation, found, _) = sound.pending in
        let (slot, at, is_reserved, so_far) = sound.as_open.slot in
        let schedule = sound.as_open.schedule in
        subst (λ y. get y.0.summary_headers e ≡ some x)
          (sym (
            opening-eq context n b observation (omega (arith, schedule.after_start)) room
              schedule.ready found))
          (applied-keeps domain_id len n b.epochs context observation slot room schedule at
            is_reserved so_far providers b.pallets positive e x stored)

    on_finalize-IsSound :
        (context : Context) (n : ℕ) (s : Storage)
        → n < u32_max
        → IsOpen domain_id len (n + 1) s
        → IsSound domain_id len (n + 1) (on_finalize context (n + 1) s)
    unfolding on_finalize
    on_finalize-IsSound context n s room opened =
        let not_zero : nat_beq (n + 1) 0 ≡ false = ground arith in
        let schedule = opened.schedule in
        rw not_zero (record {
          as_open = record {
            schedule = record {
              length = schedule.length;
              ready = schedule.ready;
              opened = schedule.opened;
              after_start = schedule.after_start;
              upto = schedule.upto;
              count = schedule.count;
              latest = schedule.latest;
              closed = λ e lt.
                  let (x, at, i, record_) = schedule.closed e lt in
                  (
                    x,
                    at,
                    i,
                    staged-eq (store_pending_block_observation context (min (n + 1) u32_max) s) s e
                          refl
                        ∙ record_,
                  );
              future = schedule.future;
            };
            slot = opened.slot;
          };
          pending = (_, refl, omega arith);
        })

    first-IsOpen :
        (context : Context) (p : P)
        → IsOpen domain_id len 1
            (opening context 1 (record { epochs = genesis len; pallets = p })).0
    unfolding on_initialize reserve_slot prev_hash get
    first-IsOpen context p = record {
      schedule = record {
        length = omega arith;
        ready = refl;
        opened = omega arith;
        after_start = omega arith;
        upto = omega arith;
        count = refl;
        latest = refl;
        closed = λ e lt. absurd (omega arith);
        future = λ e le. refl;
      };
      slot = (_, get-insert_self [] 0 _, refl, omega arith);
    }

    -- The genesis storage, or a storage that `n` blocks left.
    abbrev pub IsGenesisOr : ℕ → State P → Type 0
    IsGenesisOr n b = ((n ≡ 0) × (b.epochs ≡ genesis len)) ⊎ IsSound domain_id len n b.epochs

    block-IsSound :
        (context : Context) (n : ℕ) (b : State P)
        → context.domain_id ≡ domain_id
        → n < u32_max
        → IsSound domain_id len n b.epochs
        → IsSound domain_id len (n + 1) (on_finalize context (n + 1) (opening context (n + 1) b).0)
    block-IsSound context n b same room sound =
        on_finalize-IsSound context n (opening context (n + 1) b).0 room
          (opening-IsOpen context n b same room sound)

    first-IsSound :
        (context : Context) (n : ℕ) (b : State P)
        → n ≡ 0
        → b.epochs ≡ genesis len
        → IsSound domain_id len (n + 1) (on_finalize context (n + 1) (opening context (n + 1) b).0)
    first-IsSound context n b none_yet fresh =
        subst₂
          (λ k s.
            IsSound domain_id len (k + 1)
              (on_finalize context (k + 1) (on_initialize providers context (k + 1) s b.pallets).0))
          (sym none_yet) (sym fresh)
          (on_finalize-IsSound context 0
            (on_initialize providers context 1 (genesis len) b.pallets).0 (omega arith)
            (first-IsOpen context b.pallets))

    pub finalized-summary_headers :
        (context : Context) (n : ℕ) (s : Storage)
        → (on_finalize context (n + 1) s).summary_headers ≡ s.summary_headers
    unfolding on_finalize
    finalized-summary_headers context n s =
        let not_zero : nat_beq (n + 1) 0 ≡ false = ground arith in rw not_zero refl

    pub finalized-current_epoch :
        (context : Context) (n : ℕ) (s : Storage)
        → (on_finalize context (n + 1) s).current_epoch ≡ s.current_epoch
    unfolding on_finalize
    finalized-current_epoch context n s =
        let not_zero : nat_beq (n + 1) 0 ≡ false = ground arith in rw not_zero refl

    module _ (Work : EpochId → ℕ → P → P → Type 0) where
      pub Blocks-IsGenesisOr :
          {m : ℕ} {a : State P} {n : ℕ} {b : State P}
          → IsGenesisOr m a
          → Blocks Work domain_id m a n b
          → IsGenesisOr n b
      Blocks-IsGenesisOr from start = from
      Blocks-IsGenesisOr from (block {n} {b} r context q same room work) =
          inr (elim (Blocks-IsGenesisOr from r) [
            | inl (none_yet, fresh) ↦ first-IsSound context n b none_yet fresh
            | inr sound ↦ block-IsSound context n b same room sound
          ])

      -- After any positive number of blocks from the genesis state, with whatever the calls in them do, the
      -- epochs tile the blocks, there is one header for each closed epoch and none for the others,
      -- and each header carries its own hash and the hash of the header before it.
      pub Blocks-IsSound :
          {n : ℕ} {b : State P} (p : P)
          → Blocks Work domain_id 0 (record { epochs = genesis len; pallets = p }) n b
          → 0 < n
          → IsSound domain_id len n b.epochs
      Blocks-IsSound p r some_block = elim (Blocks-IsGenesisOr (inl (refl, refl)) r) [
        | inl (none_yet, _) ↦ absurd (omega arith)
        | inr sound ↦ sound
      ]

      from-IsSound :
          {m : ℕ} {a : State P} {n : ℕ} {b : State P}
          → IsSound domain_id len m a.epochs
          → Blocks Work domain_id m a n b
          → IsSound domain_id len n b.epochs
      from-IsSound sound start = sound
      from-IsSound sound (block {n} {b} r context q same room work) =
          block-IsSound context n b same room (from-IsSound sound r)

      -- The header of a closed epoch is never rewritten: after any further blocks it is the same.
      pub Blocks-keeps :
          {m : ℕ} {a : State P} {n : ℕ} {b : State P}
          → IsSound domain_id len m a.epochs
          → Blocks Work domain_id m a n b
          → (e : EpochId) (x : EpochSummaryHeader) → get a.epochs.summary_headers e ≡ some x
          → get b.epochs.summary_headers e ≡ some x
      Blocks-keeps sound start e x at = at
      Blocks-keeps sound (block {n} {b} r context q same room work) e x at =
          ap (λ m. get m e) (finalized-summary_headers context n (opening context (n + 1) b).0)
          ∙ opening-keeps context n b room (from-IsSound sound r) e x (Blocks-keeps sound r e x at)
