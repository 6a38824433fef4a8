-- ===== src/Governance/Safety/Histories.antt =====
-- The invariant over histories of calls and of blocks that open.
use mathlib.Core.Path.{subst₂}
use interplanetary_asynchron.Prelude.{
  ℕ, ◌≤◌, ◌≡◌, refl, sym, ap, subst, ◌∙◌, inl, inr, true, not, ◌||◌, Option, none, some, List, [],
  map, arith, Bool-cases, nat_eq, pair_eq,
}
use interplanetary_asynchron.Governance.Activation.{on_initialize}
use interplanetary_asynchron.Governance.Calls.{
  new_activation_record, store_activation_record, store_proposal, create_proposal, counted,
  store_vote, cast_vote, is_quorum_met, is_approved, approved_proposal, store_closed,
  close_proposal,
}
use interplanetary_asynchron.Governance.Imports.{
  imported_proposal, store_imported, import_verified_governance_proposal, store_ack,
  import_verified_governance_ack,
}
use interplanetary_asynchron.Governance.Outbox.{outbound_leaf, record_local_ack_and_fanout}
use interplanetary_asynchron.Governance.Safety.{IsSound, IsSafe, IsSafe-put, IsSafe-put_proposal}
use interplanetary_asynchron.Governance.Safety.Steps.{
  insert_leaves-IsAside, IsAside-IsSound, schedule_if_acked-IsSound, note_known_ack_domain-IsSound,
}
use interplanetary_asynchron.Governance.State.{Storage, genesis, DispatchError}
use interplanetary_asynchron.Prelude.Map.{get, insert}
use interplanetary_asynchron.Prelude.Outcome.{
  Outcome, after, Ensures, on_ok, ensure-Ensures, bind-Ensures, ok_or-Ensures,
}
use interplanetary_asynchron.Transfers.Config.{Origin, Env, Accounts}
use interplanetary_asynchron.Types.AckLeaf.{GovernanceAckLeaf}
use interplanetary_asynchron.Types.Governance.{
  GovernanceProposalId, GovernanceVoteChoice, voting, status_beq, GovernanceProposal,
  ImportedGovernanceProposalClaim, ImportedGovernanceAckClaim,
}
use interplanetary_asynchron.Types.ProposalLeaf.{GovernanceProposalLeaf}
use interplanetary_asynchron.Types.Scale.{DomainId, domain_eq, AccountId, EpochId, Hasher}

pub data Call : Type 0 where
  create_proposal_call : Origin → List DomainId → ℕ → Call
  cast_vote_call : Origin → GovernanceProposalId → GovernanceVoteChoice → Call
  close_proposal_call : Origin → GovernanceProposalId → Call
  import_proposal_call : Origin → ImportedGovernanceProposalClaim → Call
  import_ack_call : Origin → ImportedGovernanceAckClaim → Call

pub record Chain : Type 0 where
  pub current : EpochId
  pub storage : Storage

counted-status :
    (choice : GovernanceVoteChoice) (power : ℕ) (p : GovernanceProposal)
    → ((counted choice power p).status ≡ p.status)
      × ((counted choice power p).proposal_id ≡ p.proposal_id)
counted-status choice power p = ground arith

module _ (accounts : Accounts) (balance : AccountId → ℕ) ⦃h : Hasher⦄ where
  unfoldable pub dispatch : Env → Call → Storage → Outcome DispatchError Storage
  dispatch env (create_proposal_call origin target_domains new_version) s =
      create_proposal accounts balance env origin target_domains new_version s
  dispatch env (cast_vote_call origin id choice) s = cast_vote accounts env origin id choice s
  dispatch env (close_proposal_call origin id) s = close_proposal env origin id s
  dispatch env (import_proposal_call origin claim) s =
      import_verified_governance_proposal env origin claim s
  dispatch env (import_ack_call origin claim) s = import_verified_governance_ack env origin claim s

  -- Calls and openings of blocks, in any order; the epoch does not go back.
  pub data Step (c : Chain) : Chain → Type 0 where
    calls :
        (env : Env) (call : Call)
        → c.current ≤ env.current_epoch
        → Step c (record {
          current = env.current_epoch;
          storage = after c.storage (dispatch env call c.storage);
        })
    opens :
        (env : Env)
        → c.current ≤ env.current_epoch
        → Step c (record { current = env.current_epoch; storage = on_initialize env c.storage })

  pub data Reach (c : Chain) : Chain → Type 0 where
    start : Reach c c
    next : {t u : Chain} → Reach c t → Step t u → Reach c u

  module _ (env : Env) (s : Storage) (sound : IsSound env.current_epoch s) where
    store_proposal-IsSound :
        (who : AccountId) (target_domains : List DomainId) (new_version : ℕ)
        → IsSound env.current_epoch
            (store_proposal accounts balance env who target_domains new_version s)
    unfolding store_proposal
    store_proposal-IsSound who target_domains new_version =
        IsSafe-put_proposal sound _ _ refl (omega arith)

    store_vote-IsSound :
        (who : AccountId) (id : GovernanceProposalId) (choice : GovernanceVoteChoice)
        (p : GovernanceProposal) (power : ℕ)
        → get s.proposals_by_id id ≡ some p
        → status_beq p.status voting ≡ true
        → IsSound env.current_epoch (store_vote accounts env who id choice p power s)
    unfolding store_vote
    store_vote-IsSound who id choice p power found is_voting =
        let (status, same_id) = counted-status choice power p in
        IsSafe-put_proposal sound id (counted choice power p) (same_id ∙ sound.id id p found)
          (rw status (ground arith))

    store_closed-IsSound :
        (id : GovernanceProposalId) (p : GovernanceProposal)
        → get s.proposals_by_id id ≡ some p
        → IsSound env.current_epoch (store_closed env id p s)
    unfolding store_closed store_activation_record
    store_closed-IsSound id p found =
        elim (Bool-cases (not (is_quorum_met p) || not (is_approved p))) [
          | inl y ↦ rw y (IsSafe-put_proposal sound id _ (sound.id id p found) (omega arith))
          | inr n ↦
              let fin = approved_proposal env.current_epoch p in
              let stored = store_activation_record fin [] none s in
              let aside =
                insert_leaves-IsAside env.current_epoch
                  (map (outbound_leaf fin env.current_epoch) fin.target_domains) stored in
              rw n (
                subst₂ (IsSafe env.current_epoch) (ap (λ m. insert m id fin) (sym aside.proposals))
                  (sym aside.activations)
                  (subst
                    (λ k.
                      IsSafe env.current_epoch (insert s.proposals_by_id id fin)
                        (insert s.activation_records_by_id k (new_activation_record fin [] none)))
                    (sym (sound.id id p found))
                    (IsSafe-put sound id fin _ (sound.id id p found) (λ late. absurd (omega arith))
                      (λ active. absurd (ground arith)))))
        ]

    store_imported-IsSound :
        (leaf : GovernanceProposalLeaf) → IsSound env.current_epoch (store_imported env leaf s)
    unfolding store_imported store_activation_record record_local_ack_and_fanout
    store_imported-IsSound leaf =
        schedule_if_acked-IsSound env.current_epoch leaf.proposal_id _ _ _
          (IsAside-IsSound env.current_epoch _ _ (insert_leaves-IsAside env.current_epoch _ _) (
            IsSafe-put sound leaf.proposal_id (imported_proposal leaf) _ refl
              (λ late. absurd (omega arith)) (λ active. absurd (ground arith))))
          refl

    store_ack-IsSound :
        (leaf : GovernanceAckLeaf) → IsSound env.current_epoch (store_ack env leaf s)
    unfolding store_ack
    store_ack-IsSound leaf =
        note_known_ack_domain-IsSound env.current_epoch leaf.proposal_id leaf.acknowledging_domain _
          sound

    pub dispatch-Ensures : (call : Call) → Ensures (IsSound env.current_epoch) (dispatch env call s)
    unfolding dispatch create_proposal cast_vote close_proposal import_verified_governance_proposal
        import_verified_governance_ack
    dispatch-Ensures (create_proposal_call origin target_domains new_version) =
        bind-Ensures _ _ λ who. bind-Ensures _ _ λ ordered.
          ensure-Ensures _ _ _ λ valid. on_ok _ (store_proposal-IsSound who ordered new_version)
    dispatch-Ensures (cast_vote_call origin id choice) = bind-Ensures _ _ λ who.
        ok_or-Ensures _ _ _ λ p found. ensure-Ensures _ _ _ λ is_voting.
          ensure-Ensures _ _ _ λ in_time. ensure-Ensures _ _ _ λ fresh.
            ok_or-Ensures _ _ _ λ power eligible.
              ensure-Ensures _ _ _
                λ positive. on_ok _ (store_vote-IsSound who id choice p power found is_voting)
    dispatch-Ensures (close_proposal_call origin id) = bind-Ensures _ _ λ who.
        ok_or-Ensures _ _ _ λ p found.
          ensure-Ensures _ _ _
            λ is_voting. ensure-Ensures _ _ _ λ over. on_ok _ (store_closed-IsSound id p found)
    dispatch-Ensures (import_proposal_call origin claim) = bind-Ensures _ _ λ who.
        ensure-Ensures _ _ _ λ here. ensure-Ensures _ _ _ λ away. ensure-Ensures _ _ _ λ fresh.
          ensure-Ensures _ _ _
            λ targeted. ensure-Ensures _ _ _ λ hashed. on_ok _ (store_imported-IsSound claim.leaf)
    dispatch-Ensures (import_ack_call origin claim) = bind-Ensures _ _ λ who.
        ensure-Ensures _ _ _ λ here. ensure-Ensures _ _ _ λ away. ensure-Ensures _ _ _ λ targeted.
          ensure-Ensures _ _ _ λ fresh.
            ok_or-Ensures _ _ _
              λ p known. ensure-Ensures _ _ _ λ agrees. on_ok _ (store_ack-IsSound claim.leaf)

-- Before the first call there is no proposal.
pub genesis-IsSound :
    (version : ℕ) (importer : Option AccountId) (voters : List AccountId)
    → IsSound 0 (genesis version importer voters)
unfolding get
genesis-IsSound version importer voters = record {
  id = λ k p at. absurd (ground arith);
  acked = λ k p at late. absurd (ground arith);
}
