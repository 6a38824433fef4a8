-- ===== src/Governance/Calls.antt =====
-- The pallet's calls. `T::Currency::balance` is a function of the account.
use interplanetary_asynchron.Prelude.{
  dedup, ℕ, ◌+◌, ◌*◌, min, Bool, not, ◌&&◌, ◌||◌, Option, none, some, List, [], ◌∷◌, length,
  is_empty, contains, ltb, leb, nat_beq, if◌then◌else◌, ◌==◌, nat_eq, pair_eq,
}
use interplanetary_asynchron.Governance.Outbox.{insert_outbound_proposal_leaves}
use interplanetary_asynchron.Governance.State.{
  Storage, deposit_event, same_domain_target, missing_importer_account, unauthorized_importer,
  DispatchError, bad_origin, module_error, proposal_created, vote_recorded, proposal_rejected,
  proposal_locally_finalized, no_target_domains, duplicate_target_domains, invalid_protocol_version,
  proposal_missing, proposal_not_voting, voting_closed, voting_still_open, duplicate_vote,
  not_eligible_voter, zero_voting_power,
}
use interplanetary_asynchron.Prelude.Map.{Map, get, insert, contains_key}
use interplanetary_asynchron.Prelude.Outcome.{Outcome, ok, err, ◌>>=◌, ◌>>◌, ensure, ok_or}
use interplanetary_asynchron.Prelude.Sorting.{sort_by}
use interplanetary_asynchron.Transfers.Config.{
  Origin, signed, unsigned, Env, saturated_into_u32, Accounts,
}
use interplanetary_asynchron.Types.Governance.{
  governance_proposal_version, governance_vote_version, governance_activation_record_version,
  GovernanceProposalId, set_protocol_version, payload_hash, protocol_version, GovernanceVoteChoice,
  vote_yes, vote_no, vote_abstain, voting, rejected, locally_finalized, activated, status_beq,
  GovernanceProposal, GovernanceActivationRecord, proposal_id, governance_proposal_id,
}
use interplanetary_asynchron.Types.Scale.{
  DomainId, domain_eq, domain_compare, AccountIdBytes, AccountId, EpochId, Hasher, u64_max,
  u128_max,
}

abbrev pub ensure_signed : Origin → Outcome DispatchError AccountId
ensure_signed (signed who) = ok who
ensure_signed unsigned = err bad_origin

unfoldable pub ensure_importer : Origin → Storage → Outcome DispatchError AccountId
unfolding ensure ok_or ◌>>=◌ ◌>>◌
ensure_importer origin s = do
  who ← ensure_signed origin
  configured_importer ← ok_or s.importer_account (module_error missing_importer_account)
  ensure (who == configured_importer) (module_error unauthorized_importer)
  ok who

unfoldable pub canonicalize_target_domains :
    List DomainId → DomainId → Outcome DispatchError (List DomainId)
canonicalize_target_domains target_domains source_domain = do
  ensure (not (is_empty target_domains)) (module_error no_target_domains)
  ensure (not (contains target_domains source_domain)) (module_error same_domain_target)
  let ordered = sort_by domain_compare target_domains
  ensure (nat_beq (length (dedup ordered)) (length ordered)) (module_error duplicate_target_domains)
  ok (dedup ordered)

abbrev pub new_activation_record :
    GovernanceProposal → List DomainId → Option ℕ → GovernanceActivationRecord
new_activation_record proposal known_ack_domains activated_at_block_height = record {
  version = governance_activation_record_version;
  proposal_id = proposal.proposal_id;
  source_domain = proposal.source_domain;
  target_domains = proposal.target_domains;
  payload_hash = proposal.payload_hash;
  new_protocol_version = protocol_version proposal.payload;
  activation_epoch = proposal.activation_epoch;
  known_ack_domains = dedup (sort_by domain_compare known_ack_domains);
  scheduled_at_epoch = none;
  activated_at_epoch =
      if status_beq proposal.status activated then proposal.approval_epoch else none;
  activated_at_local_block_height = activated_at_block_height;
  status = proposal.status;
}

unfoldable pub store_activation_record :
    GovernanceProposal → List DomainId → Option ℕ → Storage → Storage
store_activation_record proposal known_ack_domains activated_at_block_height s = record s {
  activation_records_by_id =
      insert s.activation_records_by_id proposal.proposal_id
        (new_activation_record proposal known_ack_domains activated_at_block_height);
}

-- The loop over the voters: each one's power for this proposal, and the total.
unfoldable pub snapshot :
    Accounts
    → (AccountId → ℕ)
    → GovernanceProposalId
    → List AccountId
    → Map (GovernanceProposalId × AccountIdBytes) ℕ
    → ℕ
    → Map (GovernanceProposalId × AccountIdBytes) ℕ × ℕ
snapshot accounts balance proposal_id [] powers total = (powers, total)
snapshot accounts balance proposal_id (voter ∷ rest) powers total =
    snapshot accounts balance proposal_id rest
      (insert powers (proposal_id, accounts.to_bytes voter) (balance voter))
      (min (total + balance voter) u128_max)

module _ (accounts : Accounts) (balance : AccountId → ℕ) ⦃h : Hasher⦄ (env : Env) where
  abbrev pub new_proposal : AccountId → List DomainId → ℕ → ℕ → ℕ → GovernanceProposal
  new_proposal who target_domains new_version sequence total = record {
    version = governance_proposal_version;
    proposal_id = governance_proposal_id env.domain_id sequence;
    source_domain = env.domain_id;
    target_domains = target_domains;
    proposer = accounts.to_bytes who;
    payload = set_protocol_version new_version;
    payload_hash = payload_hash (set_protocol_version new_version);
    created_epoch = env.current_epoch;
    voting_start_epoch = env.current_epoch;
    voting_end_epoch = min (env.current_epoch + 1) u64_max;
    approval_epoch = none;
    activation_epoch = 0;
    snapshot_total_voting_power = total;
    quorum_numerator = 1;
    quorum_denominator = 2;
    yes_voting_power = 0;
    no_voting_power = 0;
    abstain_voting_power = 0;
    status = voting;
  }

  unfoldable pub store_proposal : AccountId → List DomainId → ℕ → Storage → Storage
  store_proposal who target_domains new_version s =
      let sequence = s.next_proposal_sequence in
      let id = governance_proposal_id env.domain_id sequence in
      let (powers, total) =
        snapshot accounts balance id s.governance_voters s.voting_power_by_voter 0 in
      let proposal = new_proposal who target_domains new_version sequence total in
      deposit_event (proposal_created id env.domain_id target_domains proposal.voting_end_epoch)
        (record s {
          next_proposal_sequence = min (sequence + 1) u64_max;
          voting_power_by_voter = powers;
          proposals_by_id = insert s.proposals_by_id id proposal;
        })

  unfoldable pub create_proposal :
      Origin → List DomainId → ℕ → Storage → Outcome DispatchError Storage
  create_proposal origin target_domains new_version s = do
    who ← ensure_signed origin
    ordered ← canonicalize_target_domains target_domains env.domain_id
    ensure (ltb 0 new_version && not (nat_beq new_version s.current_version))
        (module_error invalid_protocol_version)
    ok (store_proposal who ordered new_version s)

-- The tally that a choice adds to.
abbrev pub counted : GovernanceVoteChoice → ℕ → GovernanceProposal → GovernanceProposal
counted vote_yes power p = record p { yes_voting_power = min (p.yes_voting_power + power) u128_max }
counted vote_no power p = record p { no_voting_power = min (p.no_voting_power + power) u128_max }
counted vote_abstain power p = record p {
  abstain_voting_power = min (p.abstain_voting_power + power) u128_max;
}

module _ (accounts : Accounts) (env : Env) where
  unfoldable pub store_vote :
      AccountId
      → GovernanceProposalId
      → GovernanceVoteChoice
      → GovernanceProposal
      → ℕ
      → Storage
      → Storage
  store_vote who id choice proposal voting_power s =
      let voter = accounts.to_bytes who in
      deposit_event (vote_recorded id voter choice voting_power) (record s {
        votes_by_key =
            insert s.votes_by_key (id, voter)
              (record {
                version = governance_vote_version;
                proposal_id = id;
                voter = voter;
                choice = choice;
                voting_power = voting_power;
                cast_epoch = env.current_epoch;
                cast_block_height = saturated_into_u32 env.block_number;
              });
        proposals_by_id = insert s.proposals_by_id id (counted choice voting_power proposal);
      })

  unfoldable pub cast_vote :
      Origin → GovernanceProposalId → GovernanceVoteChoice → Storage → Outcome DispatchError Storage
  cast_vote origin id choice s = do
    who ← ensure_signed origin
    proposal ← ok_or (get s.proposals_by_id id) (module_error proposal_missing)
    ensure (status_beq proposal.status voting) (module_error proposal_not_voting)
    ensure (ltb env.current_epoch proposal.voting_end_epoch) (module_error voting_closed)
    ensure (not (contains_key s.votes_by_key (id, accounts.to_bytes who)))
        (module_error duplicate_vote)
    voting_power ←
        ok_or (get s.voting_power_by_voter (id, accounts.to_bytes who))
          (module_error not_eligible_voter)
    ensure (ltb 0 voting_power) (module_error zero_voting_power)
    ok (store_vote who id choice proposal voting_power s)

-- The sums and products saturate at the end of `u128`.
unfoldable pub recorded_voting_power : GovernanceProposal → ℕ
recorded_voting_power p =
    min (min (p.yes_voting_power + p.no_voting_power) u128_max + p.abstain_voting_power) u128_max

unfoldable pub is_quorum_met : GovernanceProposal → Bool
is_quorum_met p =
    leb (min (p.snapshot_total_voting_power * p.quorum_numerator) u128_max)
      (min (recorded_voting_power p * p.quorum_denominator) u128_max)

unfoldable pub is_approved : GovernanceProposal → Bool
is_approved p = ltb (recorded_voting_power p) (min (p.yes_voting_power * 2) u128_max)

abbrev pub approved_proposal : EpochId → GovernanceProposal → GovernanceProposal
approved_proposal current_epoch p = record p {
  approval_epoch = some current_epoch;
  activation_epoch = min (current_epoch + 4) u64_max;
  status = locally_finalized;
}

module _ ⦃h : Hasher⦄ (env : Env) where
  unfoldable pub store_closed : GovernanceProposalId → GovernanceProposal → Storage → Storage
  store_closed id proposal s =
      if not (is_quorum_met proposal) || not (is_approved proposal)
      then deposit_event (proposal_rejected id env.current_epoch) (record s {
        proposals_by_id = insert s.proposals_by_id id (record proposal { status = rejected });
      })
      else let finalized = approved_proposal env.current_epoch proposal in
        let t =
          insert_outbound_proposal_leaves finalized env.current_epoch
            (store_activation_record finalized [] none s) in
        deposit_event (proposal_locally_finalized id env.current_epoch finalized.activation_epoch)
          (record t { proposals_by_id = insert t.proposals_by_id id finalized })

  unfoldable pub close_proposal :
      Origin → GovernanceProposalId → Storage → Outcome DispatchError Storage
  close_proposal origin id s = do
    _ ← ensure_signed origin
    proposal ← ok_or (get s.proposals_by_id id) (module_error proposal_missing)
    ensure (status_beq proposal.status voting) (module_error proposal_not_voting)
    ensure (leb proposal.voting_end_epoch env.current_epoch) (module_error voting_still_open)
    ok (store_closed id proposal s)
