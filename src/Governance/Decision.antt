-- ===== src/Governance/Decision.antt =====
-- When a vote closes: the saturating arithmetic of the pallet against the numbers themselves.
-- At least half of the snapshot voted, and more than half of the votes are for the proposal.
use interplanetary_asynchron.Governance.State.{Storage}
use interplanetary_asynchron.Prelude.{ℕ, ◌+◌, ◌*◌, ◌^◌, ◌≤◌, ◌<◌, ◌≡◌, nat_eq, pair_eq}
use interplanetary_asynchron.Governance.Calls.{approved_proposal}
use interplanetary_asynchron.Transfers.Config.{Env}
use interplanetary_asynchron.Types.Governance.{GovernanceProposalId, rejected, GovernanceProposal}
use interplanetary_asynchron.Types.Scale.{domain_eq, Hasher, u128_max}

abbrev pub total_votes : GovernanceProposal → ℕ
total_votes p = p.yes_voting_power + p.no_voting_power + p.abstain_voting_power

abbrev pub IsMajority : GovernanceProposal → Type 0
IsMajority p =
    (p.snapshot_total_voting_power ≤ 2 * total_votes p) × (total_votes p < 2 * p.yes_voting_power)

-- The bounds within which nothing saturates, and the quorum that every proposal is created with.
pub record IsBounded (p : GovernanceProposal) : Type 0 where
  pub numerator : p.quorum_numerator ≡ 1
  pub denominator : p.quorum_denominator ≡ 2
  pub votes : total_votes p < 2 ^ 127
  pub snapshot : p.snapshot_total_voting_power ≤ u128_max

module _ ⦃h : Hasher⦄ (env : Env) (id : GovernanceProposalId) (p : GovernanceProposal)
    (s : Storage) where
  -- The proposal that the pallet stores.
  abbrev IsDecided : GovernanceProposal → Type 0
  IsDecided q =
      (IsMajority p → q ≡ approved_proposal env.current_epoch p)
      × (¬ IsMajority p → q ≡ record p { status = rejected })
