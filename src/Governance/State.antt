-- ===== src/Governance/State.antt =====
-- The pallet's storage, its events and its errors.
use interplanetary_asynchron.Prelude.{
  dedup, ℕ, max, compare, Option, List, [], ◌∷◌, ◌++◌, nat_eq, pair_eq,
}
use interplanetary_asynchron.Prelude.Map.{Map}
use interplanetary_asynchron.Prelude.Sorting.{sort_by}
use interplanetary_asynchron.Types.Governance.{
  GovernanceProposalId, protocol_version, GovernanceVoteChoice, GovernanceVote, GovernanceProposal,
  GovernanceAckRecord, GovernanceActivationRecord, GovernanceLeaf,
}
use interplanetary_asynchron.Types.Scale.{
  DomainId, domain_eq, Hash, AccountIdBytes, AccountId, EpochId,
}

pub data Event : Type 0 where
  proposal_created : GovernanceProposalId → DomainId → List DomainId → EpochId → Event
  vote_recorded : GovernanceProposalId → AccountIdBytes → GovernanceVoteChoice → ℕ → Event
  proposal_rejected : GovernanceProposalId → EpochId → Event
  proposal_locally_finalized : GovernanceProposalId → EpochId → EpochId → Event
  proposal_imported : GovernanceProposalId → DomainId → DomainId → Event
  governance_acknowledged : GovernanceProposalId → DomainId → DomainId → Event
  proposal_scheduled : GovernanceProposalId → EpochId → Event
  proposal_activated : GovernanceProposalId → EpochId → ℕ → Event

pub data Error : Type 0 where
  no_target_domains duplicate_target_domains same_domain_target invalid_protocol_version : Error
  proposal_missing proposal_already_exists proposal_not_voting voting_closed : Error
  voting_still_open duplicate_vote not_eligible_voter zero_voting_power : Error
  missing_importer_account unauthorized_importer wrong_target_domain wrong_source_domain : Error
  duplicate_imported_proposal duplicate_imported_ack proposal_not_known : Error
  proposal_facts_mismatch acking_domain_not_targeted : Error

pub data DispatchError : Type 0 where
  bad_origin : DispatchError
  module_error : Error → DispatchError

pub record Storage : Type 0 where
  pub current_version : ℕ
  pub importer_account : Option AccountId
  pub governance_voters : List AccountId
  pub next_proposal_sequence : ℕ
  pub proposals_by_id : Map GovernanceProposalId GovernanceProposal
  pub votes_by_key : Map (GovernanceProposalId × AccountIdBytes) GovernanceVote
  pub voting_power_by_voter : Map (GovernanceProposalId × AccountIdBytes) ℕ
  pub activation_records_by_id : Map GovernanceProposalId GovernanceActivationRecord
  pub ack_records_by_key : Map (GovernanceProposalId × DomainId) GovernanceAckRecord
  pub epoch_governance_leaf_ids : Map EpochId (List Hash)
  pub governance_leaves_by_id : Map Hash GovernanceLeaf
  pub scheduled_proposal_ids_by_epoch : Map EpochId (List GovernanceProposalId)
  pub ready_activation_ids : List GovernanceProposalId
  pub events : List Event

-- `GenesisConfig::build` on empty storage.
abbrev pub genesis : ℕ → Option AccountId → List AccountId → Storage
genesis protocol_version importer_account governance_voters = record {
  current_version = max protocol_version 1;
  importer_account = importer_account;
  governance_voters = dedup (sort_by compare governance_voters);
  next_proposal_sequence = 0;
  proposals_by_id = [];
  votes_by_key = [];
  voting_power_by_voter = [];
  activation_records_by_id = [];
  ack_records_by_key = [];
  epoch_governance_leaf_ids = [];
  governance_leaves_by_id = [];
  scheduled_proposal_ids_by_epoch = [];
  ready_activation_ids = [];
  events = [];
}

abbrev pub deposit_event : Event → Storage → Storage
deposit_event event s = record s { events = s.events ++ event ∷ [] }
