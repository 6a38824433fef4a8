-- ===== src/Examples/Ballot.antt =====
-- A vote on Earth in which sixty of a hundred vote, forty of them for the proposal.
use interplanetary_asynchron.Examples.Transfers.{earth_env}
use interplanetary_asynchron.Examples.World.{hasher, accounts}
use interplanetary_asynchron.Governance.Calls.{cast_vote}
use interplanetary_asynchron.Governance.Activation.{on_initialize}
use interplanetary_asynchron.Governance.Safety.Histories.{Chain, opens, start, next}
use interplanetary_asynchron.Governance.Votes.{vote_once}
use interplanetary_asynchron.Governance.State.{Storage, genesis}
use interplanetary_asynchron.Prelude.{◌≢◌, pair_eq, ℕ, ◌≡◌, refl, none, [], ◌∷◌, arith, nat_eq}
use interplanetary_asynchron.Prelude.Map.{get}
use interplanetary_asynchron.Prelude.Outcome.{ok, ◌>>=◌, ◌>>◌, ensure, ok_or, after}
use interplanetary_asynchron.Transfers.Config.{signed}
use interplanetary_asynchron.Types.Governance.{
  GovernanceProposal, set_protocol_version, voting, vote_yes, vote_no,
}
use interplanetary_asynchron.Types.Scale.{earth, mars, AccountId}

abbrev contested : GovernanceProposal
contested = record {
  version = 1;
  proposal_id = 50;
  source_domain = earth;
  target_domains = mars ∷ [];
  proposer = 1;
  payload = set_protocol_version 2;
  payload_hash = 3;
  created_epoch = 0;
  voting_start_epoch = 0;
  voting_end_epoch = 1;
  approval_epoch = none;
  activation_epoch = 0;
  snapshot_total_voting_power = 100;
  quorum_numerator = 1;
  quorum_denominator = 2;
  yes_voting_power = 40;
  no_voting_power = 20;
  abstain_voting_power = 0;
  status = voting;
}

abbrev polls : Storage
polls = record (genesis 1 none []) { proposals_by_id = (50, contested) ∷ [] }

abbrev no_balance : AccountId → ℕ
no_balance who = 0

-- The third account may vote with twenty.
abbrev open_polls : Storage
open_polls = record polls { voting_power_by_voter = ((50, 3), 20) ∷ [] }

abbrev voted : Chain
voted = record {
  current = 0;
  storage = after open_polls (cast_vote accounts (earth_env 0 2) (signed 3) 50 vote_yes open_polls);
}

abbrev next_block : Chain
next_block = record { current = 0; storage = on_initialize (earth_env 0 3) voted.storage }

vote_counted :
    cast_vote accounts (earth_env 0 2) (signed 3) 50 vote_yes open_polls ≡ ok voted.storage
unfolding cast_vote ◌>>=◌ ◌>>◌ ensure ok_or get
vote_counted = refl

vote_once_example :
    cast_vote accounts (earth_env 0 3) (signed 3) 50 vote_no next_block.storage ≢ ok open_polls
vote_once_example =
    vote_once accounts no_balance {c = voted} {u = next_block} (earth_env 0 2) (earth_env 0 3) 3 50
      vote_yes vote_no open_polls open_polls vote_counted
      (next start (opens (earth_env 0 3) (omega arith)))
