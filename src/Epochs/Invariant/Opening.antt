-- ===== src/Epochs/Invariant/Opening.antt =====
-- The invariant over the two hooks of a block.
use native.Mathlib.Decide.{dec_lt}
use interplanetary_asynchron.Prelude.{
  ℕ, suc, ◌+◌, ◌-◌, ◌*◌, ◌%◌, ◌^◌, ◌≤◌, ◌<◌, max, ◌≡◌, refl, sym, subst, ◌∙◌, ◌↔◌, inl, inr, true,
  none, some, arith, nat_beq, if◌then◌else◌, Bool-cases, nat_eq, pair_eq,
}
use interplanetary_asynchron.Epochs.Boundary.{boundary}
use interplanetary_asynchron.Epochs.Hooks.{
  reserve_slot, fold_observation, observe_in_slot, closing_header, store_header, stage_slot,
  stage_summary_for_closed_epoch, apply_observation,
}
use interplanetary_asynchron.Epochs.Invariant.{
  IsHeader, IsClosed, IsReserved, IsSchedule, IsOpen, epoch_le_start,
}
use interplanetary_asynchron.Epochs.Invariant.Staging.{
  staged-eq, chosen-prev_hash, reopened, reopened-IsOpen,
}
use interplanetary_asynchron.Epochs.State.{
  reserved, PendingBlockObservation, SummarySlotRecord, Storage, Context, Providers,
}
use interplanetary_asynchron.Prelude.Map.{get, insert, get-insert_self, get-insert_other}
use interplanetary_asynchron.Types.Scale.{
  DomainId, domain_eq, Hash, EpochId, empty_hash, Hasher, u32_max,
}
use interplanetary_asynchron.Types.Summary.{EpochSummaryHeader}

module _ ⦃h : Hasher⦄ (domain_id : DomainId) (len n : ℕ) (s : Storage) where
  -- The storage once the parent block was folded into the open epoch's slot.
  abbrev pub observed : Context → PendingBlockObservation → SummarySlotRecord → Storage
  observed context observation slot = record s {
    pending_block_observation = none;
    summary_slots = insert s.summary_slots s.current_epoch (record slot {
      accumulators = fold_observation context.parent_hash n observation slot.accumulators;
      last_touched_block = n + 1;
    });
  }

  module _ (context : Context) (observation : PendingBlockObservation) (slot : SummarySlotRecord)
      (room : n < u32_max) (sound : IsSchedule domain_id len n s)
      (found : get s.summary_slots s.current_epoch ≡ some slot)
      (is_reserved : slot.status ≡ reserved)
      (observed_so_far : slot.accumulators.blocks_observed + s.current_epoch * len + 1 ≡ n) where
    abbrev pub t : Storage
    t = observed context observation slot

    t-closed : (e : EpochId) → e < s.current_epoch → IsClosed domain_id len t e
    t-closed e lt =
        let (x, at, i, record_) = sound.closed e lt in
        (
          x,
          at,
          i,
          staged-eq t s e
                (get-insert_other s.summary_slots s.current_epoch e _ (λ same. omega arith))
              ∙ record_,
        )

    -- As far as block `m` still belongs to the epoch.
    observed-IsSchedule :
        (m : ℕ) → n ≤ m → m ≤ s.current_epoch * len + len → IsSchedule domain_id len m t
    observed-IsSchedule m from upto = record {
      length = sound.length;
      ready = sound.ready;
      opened = sound.opened;
      after_start = omega (arith, sound.after_start);
      upto = upto;
      count = sound.count;
      latest = sound.latest;
      closed = t-closed;
      future = sound.future;
    }

    observed-IsReserved : IsReserved domain_id len t (n + 1)
    observed-IsReserved =
        (_, get-insert_self s.summary_slots s.current_epoch _, is_reserved, omega arith)

    -- What the block's hook does, in the middle of an epoch and at its end.
    module _ {P : Type 0} (providers : Providers P) (p : P) (positive : 0 < len) where
      abbrev pub applied : Storage × P
      applied =
          apply_observation providers context (n + 1) (some observation)
            (record s { pending_block_observation = none }) p

      abbrev pub folded : SummarySlotRecord
      folded = record slot {
        accumulators = fold_observation context.parent_hash n observation slot.accumulators;
        last_touched_block = n + 1;
      }

      parent : n + 1 - 1 ≡ n
      parent = omega arith

      epoch_length : max s.epoch_length_blocks 1 ≡ len
      epoch_length = omega (arith, sound.length)

      in_epoch : (nat_beq (n % len) 0 ≡ true) ↔ (n ≡ s.current_epoch * len + len)
      in_epoch = boundary len s.current_epoch n positive sound.after_start sound.upto

      pub stays : n < s.current_epoch * len + len → applied ≡ (t, p)
      unfolding apply_observation observe_in_slot
      stays within = elim (Bool-cases (nat_beq (n % len) 0)) [
        | inl y ↦ absurd (omega (arith, in_epoch.0 y))
        | inr not_last ↦ rw (found, parent, epoch_length, not_last) refl
      ]

      abbrev pub exports : Hash × P
      exports = providers.commit_epoch_exports s.current_epoch s.current_epoch_start n p

      abbrev pub imports : Hash × P
      imports = providers.commit_epoch_imports s.current_epoch s.current_epoch_start n exports.1

      abbrev pub governance : Hash × P
      governance =
          providers.commit_epoch_governance s.current_epoch s.current_epoch_start n imports.1

      abbrev pub authored : EpochSummaryHeader
      authored =
          closing_header context s.current_epoch
            (if nat_beq s.current_epoch 0 then empty_hash else s.latest_summary_hash)
            s.current_epoch_start n exports.0 imports.0 governance.0 folded

      next_epoch : n < u32_max → (s.current_epoch + 1) % 2 ^ 64 ≡ suc s.current_epoch
      next_epoch small =
          omega (arith, epoch_le_start s.current_epoch len positive, sound.after_start)

      pub ends :
          n ≡ s.current_epoch * len + len
          → applied ≡ (
            reopened context.domain_id len n t folded authored (suc s.current_epoch),
            governance.1,
          )
      unfolding apply_observation observe_in_slot stage_summary_for_closed_epoch stage_slot
      ends at =
          rw
            (
              found,
              parent,
              epoch_length,
              in_epoch.1 at,
              get-insert_self s.summary_slots s.current_epoch folded,
              is_reserved,
              next_epoch room,
            )
            refl

      authored-IsHeader :
          context.domain_id ≡ domain_id
          → n ≡ s.current_epoch * len + len
          → IsHeader domain_id len s.summary_headers s.current_epoch authored
      authored-IsHeader same_domain at = record {
        own_hash = refl;
        epoch = refl;
        domain = same_domain;
        first_block = sound.opened;
        last_block = at;
        chained =
            chosen-prev_hash s.summary_headers s.current_epoch s.latest_summary_hash sound.latest;
      }

      pub applied-IsOpen : context.domain_id ≡ domain_id → IsOpen domain_id len (n + 1) applied.0
      applied-IsOpen same_domain = elim (dec_lt n (s.current_epoch * len + len)) [
        | yes within ↦
            subst (λ x. IsOpen domain_id len (n + 1) x.0) (sym (stays within))
              (record {
                schedule = observed-IsSchedule (n + 1) (omega arith) (omega arith);
                slot = observed-IsReserved;
              })
        | no last ↦
            let at : n ≡ s.current_epoch * len + len = omega (arith, sound.upto) in
            subst (λ x. IsOpen domain_id len (n + 1) x.0) (sym (ends at))
              (subst
                (λ d.
                  IsOpen domain_id len (n + 1)
                    (reopened d len n t folded authored (suc s.current_epoch)))
                (sym same_domain)
                (reopened-IsOpen domain_id len n t folded authored positive room
                  (observed-IsSchedule n (omega arith) sound.upto) at
                  (authored-IsHeader same_domain at)))
      ]

      -- A header that was stored stays as it is.
      pub applied-keeps :
          (e : EpochId) (x : EpochSummaryHeader)
          → get s.summary_headers e ≡ some x
          → get applied.0.summary_headers e ≡ some x
      unfolding reserve_slot store_header
      applied-keeps e x at = elim (dec_lt n (s.current_epoch * len + len)) [
        | yes within ↦ subst (λ y. get y.0.summary_headers e ≡ some x) (sym (stays within)) at
        | no last ↦
            subst (λ y. get y.0.summary_headers e ≡ some x) (sym (ends (omega (arith, sound.upto))))
              (get-insert_other s.summary_headers s.current_epoch e authored
                  (λ same. absurd (ground (arith, sound.future e)))
                ∙ at)
      ]
