-- ===== src/Epochs/Closing.antt =====
-- What the opening of a block does to the pallets behind the providers.
use native.Mathlib.Decide.{dec_lt}
use mathlib.Core.Path.{subst₂}
use interplanetary_asynchron.Prelude.{
  ℕ, suc, ◌+◌, ◌*◌, ◌<◌, ◌≡◌, refl, sym, subst, ◌∙◌, ◌⊎◌, inl, inr, arith, nat_eq, pair_eq,
}
use interplanetary_asynchron.Epochs.Blocks.{State, opening, opening-eq, IsGenesisOr}
use interplanetary_asynchron.Epochs.Hooks.{reserve_slot, store_header, on_initialize}
use interplanetary_asynchron.Epochs.Invariant.{IsSound}
use interplanetary_asynchron.Epochs.Invariant.Opening.{stays, ends}
use interplanetary_asynchron.Epochs.State.{Storage, genesis, Context, Providers}
use interplanetary_asynchron.Prelude.Map.{insert}
use interplanetary_asynchron.Types.Scale.{DomainId, domain_eq, EpochId, Hasher, u32_max}
use interplanetary_asynchron.Types.Summary.{EpochSummaryHeader}

module _ {P : Type 0} (providers : Providers P) where
  -- The pallets once the books of an epoch are closed.
  abbrev pub closed_books : EpochId → ℕ → ℕ → P → P
  closed_books epoch_id first_block last_block p =
      let exports = providers.commit_epoch_exports epoch_id first_block last_block p in
      let imports = providers.commit_epoch_imports epoch_id first_block last_block exports.1 in
      (providers.commit_epoch_governance epoch_id first_block last_block imports.1).1

  module _ (n : ℕ) (b : State P) (opened : Storage × P) where
    pub record Stays : Type 0 where
      pub same_epoch : opened.0.current_epoch ≡ b.epochs.current_epoch
      pub same_pallets : opened.1 ≡ b.pallets
      pub same_headers : opened.0.summary_headers ≡ b.epochs.summary_headers

    -- The epoch ends with block `n`.
    pub record Closes : Type 0 where
      pub header : EpochSummaryHeader
      pub next_epoch : opened.0.current_epoch ≡ suc b.epochs.current_epoch
      pub closed_pallets :
          opened.1 ≡ closed_books b.epochs.current_epoch b.epochs.current_epoch_start n b.pallets
      pub stored :
          opened.0.summary_headers ≡ insert b.epochs.summary_headers b.epochs.current_epoch header
      pub first_block : header.start_block_height ≡ b.epochs.current_epoch_start
      pub last_block : header.end_block_height ≡ n
      pub export_root :
          header.export_root
          ≡ (providers.commit_epoch_exports b.epochs.current_epoch b.epochs.current_epoch_start n
              b.pallets).0

  module _ ⦃h : Hasher⦄ (domain_id : DomainId) (len : ℕ) (positive : 0 < len) where
    pub opening-cases :
        (context : Context) (n : ℕ) (b : State P)
        → n < u32_max
        → IsSound domain_id len n b.epochs
        → Stays n b (opening providers context (n + 1) b)
          ⊎ Closes n b (opening providers context (n + 1) b)
    unfolding reserve_slot store_header
    opening-cases context n b room sound =
        let (observation, found, _) = sound.pending in
        let (slot, at, is_reserved, so_far) = sound.as_open.slot in
        let schedule = sound.as_open.schedule in
        let straight =
          opening-eq providers context n b observation (omega (arith, schedule.after_start)) room
            schedule.ready found in
        elim (dec_lt n (b.epochs.current_epoch * len + len)) [
          | yes within ↦ inl (
              subst (Stays n b)
                (sym (
                  straight
                  ∙ stays domain_id len n b.epochs context observation slot room schedule at
                      is_reserved so_far providers b.pallets positive within))
                (record { same_epoch = refl; same_pallets = refl; same_headers = refl }))
          | no last ↦ inr (
              subst (Closes n b)
                (sym (
                  straight
                  ∙ ends domain_id len n b.epochs context observation slot room schedule at
                      is_reserved so_far providers b.pallets positive
                      (omega (arith, schedule.upto))))
                (record {
                  header = _;
                  next_epoch = refl;
                  closed_pallets = refl;
                  stored = refl;
                  first_block = refl;
                  last_block = refl;
                  export_root = refl;
                }))
        ]

    first-Stays :
        (context : Context) (n : ℕ) (b : State P)
        → n ≡ 0
        → b.epochs ≡ genesis len
        → Stays n b (opening providers context (n + 1) b)
    unfolding on_initialize reserve_slot
    first-Stays context n b none_yet fresh =
        subst₂
          (λ k s.
            Stays k (record { epochs = s; pallets = b.pallets })
              (on_initialize providers context (k + 1) s b.pallets))
          (sym none_yet) (sym fresh)
          (record { same_epoch = refl; same_pallets = refl; same_headers = refl })

    -- From the genesis state on, each block either leaves the epoch open or closes it.
    pub opens-cases :
        (context : Context) (n : ℕ) (b : State P)
        → n < u32_max
        → IsGenesisOr providers domain_id len positive n b
        → Stays n b (opening providers context (n + 1) b)
          ⊎ Closes n b (opening providers context (n + 1) b)
    opens-cases context n b room from = elim from [
      | inl (none_yet, fresh) ↦ inl (first-Stays context n b none_yet fresh)
      | inr sound ↦ opening-cases context n b room sound
    ]
