-- ===== src/Governance/Votes.antt =====
-- A voter's vote on a proposal: what is written once is never forgotten.
use interplanetary_asynchron.Prelude.{
  ℕ, ◌≡◌, ◌≢◌, refl, sym, subst, ◌∙◌, inl, inr, true, not, ◌||◌, Option, none, some, List, [], ◌∷◌,
  arith, leb, nat_beq, Bool-cases, nat_eq, pair_eq,
}
use interplanetary_asynchron.Governance.Activation.{
  on_initialize, enqueue, store_scheduled, schedule_if_acked, add_ack_at, store_activated,
  activate_if_due, activate_all, activate_queue, activate_ready_queue,
}
use interplanetary_asynchron.Governance.Calls.{
  store_activation_record, store_proposal, create_proposal, store_vote, cast_vote, is_quorum_met,
  is_approved, store_closed, close_proposal,
}
use interplanetary_asynchron.Governance.Imports.{
  store_imported, import_verified_governance_proposal, store_ack, import_verified_governance_ack,
}
use interplanetary_asynchron.Governance.Outbox.{
  insert_epoch_leaf, insert_leaves, record_local_ack_and_fanout,
}
use interplanetary_asynchron.Governance.Safety.Histories.{
  Call, create_proposal_call, cast_vote_call, close_proposal_call, import_proposal_call,
  import_ack_call, Chain, dispatch, calls, opens, Reach, start, next,
}
use interplanetary_asynchron.Governance.State.{Storage}
use interplanetary_asynchron.Prelude.Map.{
  Map, contains_key, contains_key-insert, contains_key-insert_self,
}
use interplanetary_asynchron.Prelude.Outcome.{
  ok, ◌>>=◌, Ensures, on_ok, Ensures-at, ensure-Ensures, bind-Ensures, ok_or-Ensures, after-holds,
}
use interplanetary_asynchron.Transfers.Config.{signed, Env, saturated_into_u32, Accounts}
use interplanetary_asynchron.Types.AckLeaf.{GovernanceAckLeaf}
use interplanetary_asynchron.Types.ProposalLeaf.{GovernanceProposalLeaf}
use interplanetary_asynchron.Types.Governance.{
  GovernanceProposalId, GovernanceVoteChoice, GovernanceProposal, GovernanceActivationRecord,
  GovernanceLeaf, GovernanceVote,
}
use interplanetary_asynchron.Types.Scale.{
  DomainId, domain_eq, AccountId, AccountIdBytes, EpochId, Hasher,
}

-- The writes that leave the votes alone.
abbrev IsQuiet : Storage → Storage → Type 0
IsQuiet s t = t.votes_by_key ≡ s.votes_by_key

insert_leaves-IsQuiet :
    (epoch_id : EpochId) (leaves : List GovernanceLeaf) (s : Storage)
    → IsQuiet s (insert_leaves epoch_id leaves s)
unfolding insert_leaves insert_epoch_leaf
insert_leaves-IsQuiet epoch_id [] s = refl
insert_leaves-IsQuiet epoch_id (leaf ∷ rest) s =
    insert_leaves-IsQuiet epoch_id rest (insert_epoch_leaf epoch_id leaf s)

enqueue-IsQuiet :
    (k : GovernanceProposalId) (activation_epoch current : EpochId) (s : Storage)
    → IsQuiet s (enqueue k activation_epoch current s)
unfolding enqueue
enqueue-IsQuiet k activation_epoch current s = elim (Bool-cases (leb activation_epoch current)) [
  | inl y ↦ rw y refl
  | inr n ↦ rw n refl
]

store_scheduled-IsQuiet :
    (k : GovernanceProposalId) (current : EpochId) (p : GovernanceProposal)
    (a : GovernanceActivationRecord) (s : Storage)
    → IsQuiet s (store_scheduled k current p a s)
unfolding store_scheduled
store_scheduled-IsQuiet k current p a s = enqueue-IsQuiet k a.activation_epoch current _

schedule_if_acked-IsQuiet :
    (k : GovernanceProposalId) (current : EpochId) (p : Option GovernanceProposal)
    (a : Option GovernanceActivationRecord) (s : Storage)
    → IsQuiet s (schedule_if_acked k current p a s)
unfolding schedule_if_acked
schedule_if_acked-IsQuiet k current none a s = refl
schedule_if_acked-IsQuiet k current (some p) none s = refl
schedule_if_acked-IsQuiet k current (some p) (some a) s =
    ground (arith, store_scheduled-IsQuiet k current p a s)

add_ack_at-IsQuiet :
    (k : GovernanceProposalId) (d : DomainId) (a : Option GovernanceActivationRecord) (s : Storage)
    → IsQuiet s (add_ack_at k d a s)
unfolding add_ack_at
add_ack_at-IsQuiet k d none s = refl
add_ack_at-IsQuiet k d (some a) s = refl

activate_if_due-IsQuiet :
    (k : GovernanceProposalId) (current : EpochId) (block_height : ℕ)
    (p : Option GovernanceProposal) (a : Option GovernanceActivationRecord) (s : Storage)
    → IsQuiet s (activate_if_due k current block_height p a s).1
unfolding activate_if_due store_activated
activate_if_due-IsQuiet k current block_height none a s = refl
activate_if_due-IsQuiet k current block_height (some p) none s = refl
activate_if_due-IsQuiet k current block_height (some p) (some a) s = ground arith

activate_all-IsQuiet :
    (ids : List GovernanceProposalId) (current : EpochId) (block_height : ℕ) (s : Storage)
    → IsQuiet s (activate_all ids current block_height s)
unfolding activate_all
activate_all-IsQuiet [] current block_height s = refl
activate_all-IsQuiet (k ∷ rest) current block_height s =
    activate_all-IsQuiet rest current block_height _
    ∙ activate_if_due-IsQuiet k current block_height _ _ s

activate_queue-IsQuiet :
    (ids : List GovernanceProposalId) (current : EpochId) (block_height : ℕ) (s : Storage)
    → IsQuiet s (activate_queue ids current block_height s).1
unfolding activate_queue
activate_queue-IsQuiet [] current block_height s = refl
activate_queue-IsQuiet (k ∷ rest) current block_height s =
    activate_queue-IsQuiet rest current block_height _
    ∙ activate_if_due-IsQuiet k current block_height _ _ s

on_initialize-IsQuiet : (env : Env) (s : Storage) → IsQuiet s (on_initialize env s)
unfolding on_initialize activate_ready_queue
on_initialize-IsQuiet env s = elim (Bool-cases (nat_beq env.block_number 0)) [
  | inl y ↦ rw y refl
  | inr n ↦ rw n (
      activate_queue-IsQuiet _ env.current_epoch (saturated_into_u32 env.block_number) _
      ∙ activate_all-IsQuiet _ env.current_epoch (saturated_into_u32 env.block_number) s)
]

module _ ⦃h : Hasher⦄ (env : Env) (s : Storage) where
  store_closed-IsQuiet :
      (id : GovernanceProposalId) (p : GovernanceProposal) → IsQuiet s (store_closed env id p s)
  unfolding store_closed store_activation_record
  store_closed-IsQuiet id p = elim (Bool-cases (not (is_quorum_met p) || not (is_approved p))) [
    | inl y ↦ rw y refl
    | inr n ↦ rw n (insert_leaves-IsQuiet env.current_epoch _ _)
  ]

  store_imported-IsQuiet : (leaf : GovernanceProposalLeaf) → IsQuiet s (store_imported env leaf s)
  unfolding store_imported store_activation_record record_local_ack_and_fanout
  store_imported-IsQuiet leaf =
      schedule_if_acked-IsQuiet leaf.proposal_id env.current_epoch _ _ _
      ∙ insert_leaves-IsQuiet env.current_epoch _ _

  store_ack-IsQuiet : (leaf : GovernanceAckLeaf) → IsQuiet s (store_ack env leaf s)
  unfolding store_ack
  store_ack-IsQuiet leaf =
      schedule_if_acked-IsQuiet leaf.proposal_id env.current_epoch _ _ _
      ∙ add_ack_at-IsQuiet leaf.proposal_id leaf.acknowledging_domain _ _

module _ (accounts : Accounts) (balance : AccountId → ℕ) ⦃h : Hasher⦄ where
  module _ (k : GovernanceProposalId × AccountIdBytes) where
    abbrev HasVoted : Storage → Type 0
    HasVoted s = contains_key s.votes_by_key k ≡ true

    still_voted :
        {m n : Map (GovernanceProposalId × AccountIdBytes) GovernanceVote}
        → n ≡ m
        → contains_key m k ≡ true
        → contains_key n k ≡ true
    still_voted quiet voted = subst (λ m. contains_key m k ≡ true) (sym quiet) voted

    store_vote-HasVoted :
        (env : Env) (who : AccountId) (id : GovernanceProposalId) (choice : GovernanceVoteChoice)
        (p : GovernanceProposal) (power : ℕ) (s : Storage)
        → HasVoted s
        → HasVoted (store_vote accounts env who id choice p power s)
    unfolding store_vote
    store_vote-HasVoted env who id choice p power s voted =
        contains_key-insert s.votes_by_key (id, accounts.to_bytes who) k _ voted

    dispatch-HasVoted :
        (env : Env) (call : Call) (s : Storage)
        → HasVoted s
        → Ensures HasVoted (dispatch accounts balance env call s)
    unfolding dispatch create_proposal cast_vote close_proposal import_verified_governance_proposal
        import_verified_governance_ack store_proposal
    dispatch-HasVoted env (create_proposal_call origin target_domains new_version) s voted =
        bind-Ensures _ _ λ who. bind-Ensures _ _ λ ordered. ensure-Ensures _ _ _ λ _. on_ok _ voted
    dispatch-HasVoted env (cast_vote_call origin id choice) s voted = bind-Ensures _ _ λ who.
        ok_or-Ensures _ _ _ λ p found. ensure-Ensures _ _ _ λ _. ensure-Ensures _ _ _ λ _.
          ensure-Ensures _ _ _ λ _. ok_or-Ensures _ _ _ λ power eligible.
            ensure-Ensures _ _ _
              λ _. on_ok _ (store_vote-HasVoted env who id choice p power s voted)
    dispatch-HasVoted env (close_proposal_call origin id) s voted = bind-Ensures _ _ λ who.
        ok_or-Ensures _ _ _ λ p found. ensure-Ensures _ _ _ λ _.
          ensure-Ensures _ _ _ λ _. on_ok _ (still_voted (store_closed-IsQuiet env s id p) voted)
    dispatch-HasVoted env (import_proposal_call origin claim) s voted = bind-Ensures _ _ λ who.
        ensure-Ensures _ _ _ λ _. ensure-Ensures _ _ _ λ _. ensure-Ensures _ _ _ λ _.
          ensure-Ensures _ _ _ λ _.
            ensure-Ensures _ _ _
              λ _. on_ok _ (still_voted (store_imported-IsQuiet env s claim.leaf) voted)
    dispatch-HasVoted env (import_ack_call origin claim) s voted = bind-Ensures _ _ λ who.
        ensure-Ensures _ _ _ λ _. ensure-Ensures _ _ _ λ _. ensure-Ensures _ _ _ λ _.
          ensure-Ensures _ _ _ λ _. ok_or-Ensures _ _ _ λ p known.
            ensure-Ensures _ _ _
              λ _. on_ok _ (still_voted (store_ack-IsQuiet env s claim.leaf) voted)

    Reach-HasVoted :
        {c u : Chain} → Reach accounts balance c u → HasVoted c.storage → HasVoted u.storage
    Reach-HasVoted start voted = voted
    Reach-HasVoted (next {t} r (calls env call le)) voted =
        let before = Reach-HasVoted r voted in
        after-holds HasVoted t.storage _ (dispatch-HasVoted env call t.storage before) before
          (λ u p. p)
    Reach-HasVoted (next {t} r (opens env le)) voted =
        still_voted (on_initialize-IsQuiet env t.storage) (Reach-HasVoted r voted)

  cast_vote-Ensures :
      {P : Storage → Type 0} (env : Env) (who : AccountId) (id : GovernanceProposalId)
      (choice : GovernanceVoteChoice) (s : Storage)
      → ((p : GovernanceProposal) (power : ℕ)
          → not (contains_key s.votes_by_key (id, accounts.to_bytes who)) ≡ true
          → P (store_vote accounts env who id choice p power s))
      → Ensures P (cast_vote accounts env (signed who) id choice s)
  unfolding cast_vote ◌>>=◌
  cast_vote-Ensures env who id choice s counted = ok_or-Ensures _ _ _ λ p found.
      ensure-Ensures _ _ _ λ _. ensure-Ensures _ _ _ λ _. ensure-Ensures _ _ _ λ fresh.
        ok_or-Ensures _ _ _
          λ power eligible. ensure-Ensures _ _ _ λ _. on_ok _ (counted p power fresh)

  -- After an account's vote on a proposal was counted, whatever calls and blocks follow, no further
  -- vote of that account on that proposal is counted.
  pub vote_once :
      {c u : Chain} (env later : Env) (who : AccountId) (id : GovernanceProposalId)
      (choice choice' : GovernanceVoteChoice) (s v : Storage)
      → cast_vote accounts env (signed who) id choice s ≡ ok c.storage
      → Reach accounts balance c u
      → cast_vote accounts later (signed who) id choice' u.storage ≢ ok v
  vote_once {c} {u} env later who id choice choice' s v first history second =
      Ensures-at
        (cast_vote-Ensures {P = λ _. ⊥} later who id choice' u.storage (λ p power fresh.
          let voted = Reach-HasVoted (id, accounts.to_bytes who) history stored in
          absurd (ground arith)))
        second
    where
      stored : HasVoted (id, accounts.to_bytes who) c.storage
      stored =
          Ensures-at
            (cast_vote-Ensures {P = HasVoted (id, accounts.to_bytes who)} env who id choice s
              (λ p power fresh.
                unfold store_vote in
                contains_key-insert_self s.votes_by_key (id, accounts.to_bytes who) _))
            first
