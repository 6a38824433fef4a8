-- ===== src/Governance/Safety/Steps.antt =====
-- Each write of the pallet keeps the invariant.
-- Leaves and events leave the proposals and the activation records alone.
use mathlib.Core.Path.{subst₂}
use interplanetary_asynchron.Prelude.{
  ℕ, ◌≤◌, ◌≡◌, refl, sym, inl, inr, true, Option, none, some, List, [], ◌∷◌, arith, leb, nat_beq,
  ltb→le, Bool-cases, nat_eq, pair_eq,
}
use interplanetary_asynchron.Governance.Activation.{
  on_initialize, has_full_ack_set, enqueue, store_scheduled, schedule_if_acked, add_ack_at,
  note_known_ack_domain, store_activated, activate_if_due, activate_all, activate_queue,
  activate_ready_queue,
}
use interplanetary_asynchron.Governance.Outbox.{insert_epoch_leaf, insert_leaves}
use interplanetary_asynchron.Governance.Safety.{IsSound, IsSafe, IsSafe-put, IsSafe-add_ack}
use interplanetary_asynchron.Governance.State.{Storage}
use interplanetary_asynchron.Prelude.Map.{get}
use interplanetary_asynchron.Transfers.Config.{Env, saturated_into_u32}
use interplanetary_asynchron.Types.Governance.{
  GovernanceProposalId, GovernanceProposal, GovernanceActivationRecord, GovernanceLeaf,
}
use interplanetary_asynchron.Types.Scale.{DomainId, domain_eq, EpochId}

pub record IsAside (s t : Storage) : Type 0 where
  pub proposals : t.proposals_by_id ≡ s.proposals_by_id
  pub activations : t.activation_records_by_id ≡ s.activation_records_by_id

pub insert_leaves-IsAside :
    (epoch_id : EpochId) (leaves : List GovernanceLeaf) (s : Storage)
    → IsAside s (insert_leaves epoch_id leaves s)
unfolding insert_leaves insert_epoch_leaf
insert_leaves-IsAside epoch_id [] s = record { proposals = refl; activations = refl }
insert_leaves-IsAside epoch_id (leaf ∷ rest) s =
    let more = insert_leaves-IsAside epoch_id rest (insert_epoch_leaf epoch_id leaf s) in
    record { proposals = more.proposals; activations = more.activations }

enqueue-IsAside :
    (k : GovernanceProposalId) (activation_epoch current : EpochId) (s : Storage)
    → IsAside s (enqueue k activation_epoch current s)
unfolding enqueue
enqueue-IsAside k activation_epoch current s = elim (Bool-cases (leb activation_epoch current)) [
  | inl y ↦ rw y (record { proposals = refl; activations = refl })
  | inr n ↦ rw n (record { proposals = refl; activations = refl })
]

pub IsAside-IsSound :
    (current : EpochId) (s t : Storage) → IsAside s t → IsSound current s → IsSound current t
IsAside-IsSound current s t aside sound =
    subst₂ (IsSafe current) (sym aside.proposals) (sym aside.activations) sound

module _ (current : EpochId) where
  store_scheduled-IsSound :
      (k : GovernanceProposalId) (p : GovernanceProposal) (a : GovernanceActivationRecord)
      (s : Storage)
      → IsSound current s
      → get s.proposals_by_id k ≡ some p
      → has_full_ack_set a.target_domains a.known_ack_domains ≡ true
      → IsSound current (store_scheduled k current p a s)
  unfolding store_scheduled
  store_scheduled-IsSound k p a s sound found full =
      IsAside-IsSound current _ _ (enqueue-IsAside k a.activation_epoch current _) (
        IsSafe-put sound k _ _ (sound.id k p found) (λ late. full)
          (λ active. absurd (ground arith)))

  pub schedule_if_acked-IsSound :
      (k : GovernanceProposalId) (p : Option GovernanceProposal)
      (a : Option GovernanceActivationRecord) (s : Storage)
      → IsSound current s
      → get s.proposals_by_id k ≡ p
      → IsSound current (schedule_if_acked k current p a s)
  unfolding schedule_if_acked
  schedule_if_acked-IsSound k none a s sound found = sound
  schedule_if_acked-IsSound k (some p) none s sound found = sound
  schedule_if_acked-IsSound k (some p) (some a) s sound found =
      ground (arith, store_scheduled-IsSound k p a s sound found)

  pub note_known_ack_domain-IsSound :
      (k : GovernanceProposalId) (d : DomainId) (s : Storage)
      → IsSound current s
      → IsSound current (note_known_ack_domain k d current s)
  note_known_ack_domain-IsSound k d s sound =
      schedule_if_acked-IsSound k _ _ _ (added (get s.activation_records_by_id k) refl) refl
    where
      added :
          (o : Option GovernanceActivationRecord)
          → get s.activation_records_by_id k ≡ o
          → IsSound current (add_ack_at k d o s)
      added none at = unfold add_ack_at in sound
      added (some a) at = unfold add_ack_at in IsSafe-add_ack sound k d a at

  store_activated-IsSound :
      (block_height : ℕ) (k : GovernanceProposalId) (p : GovernanceProposal)
      (a : GovernanceActivationRecord) (s : Storage)
      → IsSound current s
      → get s.proposals_by_id k ≡ some p
      → a.activation_epoch ≤ current
      → has_full_ack_set a.target_domains a.known_ack_domains ≡ true
      → IsSound current (store_activated k current block_height p a s)
  unfolding store_activated
  store_activated-IsSound block_height k p a s sound found due full =
      IsSafe-put sound k _ _ (sound.id k p found) (λ late. full) (λ active. due)

  activate_if_due-IsSound :
      (block_height : ℕ) (k : GovernanceProposalId) (p : Option GovernanceProposal)
      (a : Option GovernanceActivationRecord) (s : Storage)
      → IsSound current s
      → get s.proposals_by_id k ≡ p
      → IsSound current (activate_if_due k current block_height p a s).1
  unfolding activate_if_due
  activate_if_due-IsSound block_height k none a s sound found = sound
  activate_if_due-IsSound block_height k (some p) none s sound found = sound
  activate_if_due-IsSound block_height k (some p) (some a) s sound found = ground (
    arith,
    store_activated-IsSound block_height k p a s sound found,
    ltb→le current a.activation_epoch,
  )

  activate_all-IsSound :
      (block_height : ℕ) (ids : List GovernanceProposalId) (s : Storage)
      → IsSound current s
      → IsSound current (activate_all ids current block_height s)
  unfolding activate_all
  activate_all-IsSound block_height [] s sound = sound
  activate_all-IsSound block_height (k ∷ rest) s sound =
      activate_all-IsSound block_height rest _
        (activate_if_due-IsSound block_height k _ _ s sound refl)

  activate_queue-IsSound :
      (block_height : ℕ) (ids : List GovernanceProposalId) (s : Storage)
      → IsSound current s
      → IsSound current (activate_queue ids current block_height s).1
  unfolding activate_queue
  activate_queue-IsSound block_height [] s sound = sound
  activate_queue-IsSound block_height (k ∷ rest) s sound =
      activate_queue-IsSound block_height rest _
        (activate_if_due-IsSound block_height k _ _ s sound refl)

pub on_initialize-IsSound :
    (env : Env) (s : Storage)
    → IsSound env.current_epoch s
    → IsSound env.current_epoch (on_initialize env s)
unfolding on_initialize activate_ready_queue
on_initialize-IsSound env s sound = elim (Bool-cases (nat_beq env.block_number 0)) [
  | inl y ↦ rw y sound
  | inr n ↦ rw n (
      activate_queue-IsSound env.current_epoch (saturated_into_u32 env.block_number) _ _
        (activate_all-IsSound env.current_epoch (saturated_into_u32 env.block_number) _ s sound))
]
