-- ===== src/Governance/Activation.antt =====
-- Scheduling a proposal once every target has acknowledged it, and activating it in its epoch.
use interplanetary_asynchron.Prelude.{
  dedup, ℕ, Bool, true, false, not, ◌&&◌, ◌||◌, Option, none, some, List, [], ◌∷◌, ◌++◌, contains,
  push_new, ltb, leb, nat_beq, if◌then◌else◌, nat_eq, pair_eq,
}
use interplanetary_asynchron.Governance.State.{
  Storage, deposit_event, proposal_scheduled, proposal_activated,
}
use interplanetary_asynchron.Prelude.Map.{or_default, get, insert}
use interplanetary_asynchron.Prelude.Sorting.{sort_by}
use interplanetary_asynchron.Transfers.Config.{Env, saturated_into_u32}
use interplanetary_asynchron.Types.Governance.{
  GovernanceProposalId, protocol_version, locally_finalized, scheduled, activated, status_beq,
  GovernanceProposal, GovernanceActivationRecord, target_domain, proposal_id,
}
use interplanetary_asynchron.Types.Scale.{DomainId, domain_eq, domain_compare, EpochId}

abbrev pub has_full_ack_set : List DomainId → List DomainId → Bool
has_full_ack_set [] known_ack_domains = true
has_full_ack_set (target_domain ∷ rest) known_ack_domains =
    contains known_ack_domains target_domain && has_full_ack_set rest known_ack_domains

-- The queue that a proposal joins when it is scheduled.
unfoldable pub enqueue : GovernanceProposalId → EpochId → EpochId → Storage → Storage
enqueue proposal_id activation_epoch current_epoch s =
    if leb activation_epoch current_epoch
    then record s { ready_activation_ids = push_new s.ready_activation_ids proposal_id }
    else record s {
      scheduled_proposal_ids_by_epoch = insert s.scheduled_proposal_ids_by_epoch activation_epoch (
          push_new (or_default [] (get s.scheduled_proposal_ids_by_epoch activation_epoch))
            proposal_id);
    }

-- What `maybe_schedule_activation` writes.
unfoldable pub store_scheduled :
    GovernanceProposalId
    → EpochId
    → GovernanceProposal
    → GovernanceActivationRecord
    → Storage
    → Storage
store_scheduled proposal_id current_epoch proposal activation s =
    deposit_event (proposal_scheduled proposal_id activation.activation_epoch) (
      enqueue proposal_id activation.activation_epoch current_epoch (record s {
        proposals_by_id =
            insert s.proposals_by_id proposal_id (record proposal { status = scheduled });
        activation_records_by_id =
            insert s.activation_records_by_id proposal_id
              (record activation { status = scheduled; scheduled_at_epoch = some current_epoch });
      }))

unfoldable pub schedule_if_acked :
    GovernanceProposalId
    → EpochId
    → Option GovernanceProposal
    → Option GovernanceActivationRecord
    → Storage
    → Storage
schedule_if_acked proposal_id current_epoch none _ s = s
schedule_if_acked proposal_id current_epoch (some proposal) none s = s
schedule_if_acked proposal_id current_epoch (some proposal) (some activation) s =
    if not (status_beq proposal.status locally_finalized || status_beq proposal.status scheduled)
    then s
    else if not (has_full_ack_set activation.target_domains activation.known_ack_domains)
    then s
    else if not (status_beq proposal.status scheduled)
    then store_scheduled proposal_id current_epoch proposal activation s
    else s

abbrev pub maybe_schedule_activation : GovernanceProposalId → EpochId → Storage → Storage
maybe_schedule_activation proposal_id current_epoch s =
    schedule_if_acked proposal_id current_epoch (get s.proposals_by_id proposal_id)
      (get s.activation_records_by_id proposal_id) s

-- `push`, `sort` and `dedup` of a domain that is not known yet.
unfoldable pub add_ack : DomainId → GovernanceActivationRecord → GovernanceActivationRecord
add_ack acknowledging_domain r =
    if contains r.known_ack_domains acknowledging_domain then r else record r {
      known_ack_domains =
          dedup (sort_by domain_compare (r.known_ack_domains ++ acknowledging_domain ∷ []));
    }

unfoldable pub add_ack_at :
    GovernanceProposalId → DomainId → Option GovernanceActivationRecord → Storage → Storage
add_ack_at proposal_id acknowledging_domain none s = s
add_ack_at proposal_id acknowledging_domain (some r) s = record s {
  activation_records_by_id =
      insert s.activation_records_by_id proposal_id (add_ack acknowledging_domain r);
}

abbrev pub note_known_ack_domain : GovernanceProposalId → DomainId → EpochId → Storage → Storage
note_known_ack_domain proposal_id acknowledging_domain current_epoch s =
    maybe_schedule_activation proposal_id current_epoch
      (add_ack_at proposal_id acknowledging_domain (get s.activation_records_by_id proposal_id) s)

-- What `try_activate_proposal` writes. The version is written only if it changes, which is the same.
unfoldable pub store_activated :
    GovernanceProposalId
    → EpochId
    → ℕ
    → GovernanceProposal
    → GovernanceActivationRecord
    → Storage
    → Storage
store_activated proposal_id current_epoch block_height proposal activation s =
    deposit_event
      (proposal_activated proposal_id activation.activation_epoch
        (protocol_version proposal.payload))
      (record s {
        current_version = protocol_version proposal.payload;
        proposals_by_id =
            insert s.proposals_by_id proposal_id (record proposal { status = activated });
        activation_records_by_id =
            insert s.activation_records_by_id proposal_id (record activation {
              status = activated;
              activated_at_epoch = some current_epoch;
              activated_at_local_block_height = some block_height;
            });
      })

-- Whether the proposal leaves the queue, and the storage.
unfoldable pub activate_if_due :
    GovernanceProposalId
    → EpochId
    → ℕ
    → Option GovernanceProposal
    → Option GovernanceActivationRecord
    → Storage
    → Bool × Storage
activate_if_due proposal_id current_epoch block_height none _ s = (true, s)
activate_if_due proposal_id current_epoch block_height (some proposal) none s = (true, s)
activate_if_due proposal_id current_epoch block_height (some proposal) (some activation) s =
    if not (status_beq proposal.status scheduled)
    then (status_beq proposal.status activated, s)
    else if ltb current_epoch activation.activation_epoch
    then (false, s)
    else if not (has_full_ack_set activation.target_domains activation.known_ack_domains)
    then (false, s)
    else (true, store_activated proposal_id current_epoch block_height proposal activation s)

abbrev pub try_activate_proposal : GovernanceProposalId → EpochId → ℕ → Storage → Bool × Storage
try_activate_proposal proposal_id current_epoch block_height s =
    activate_if_due proposal_id current_epoch block_height (get s.proposals_by_id proposal_id)
      (get s.activation_records_by_id proposal_id) s

unfoldable pub activate_all : List GovernanceProposalId → EpochId → ℕ → Storage → Storage
activate_all [] current_epoch block_height s = s
activate_all (proposal_id ∷ rest) current_epoch block_height s =
    activate_all rest current_epoch block_height
      (try_activate_proposal proposal_id current_epoch block_height s).1

abbrev pub activate_epoch_bucket : EpochId → ℕ → Storage → Storage
activate_epoch_bucket current_epoch block_height s =
    activate_all (or_default [] (get s.scheduled_proposal_ids_by_epoch current_epoch)) current_epoch
      block_height s

-- The ids that stay in the queue, in order, and the storage.
unfoldable pub activate_queue :
    List GovernanceProposalId → EpochId → ℕ → Storage → List GovernanceProposalId × Storage
activate_queue [] current_epoch block_height s = ([], s)
activate_queue (proposal_id ∷ rest) current_epoch block_height s =
    let tried = try_activate_proposal proposal_id current_epoch block_height s in
    let (remaining, t) = activate_queue rest current_epoch block_height tried.1 in
    (if tried.0 then remaining else proposal_id ∷ remaining, t)

unfoldable pub activate_ready_queue : EpochId → ℕ → Storage → Storage
activate_ready_queue current_epoch block_height s =
    let (remaining, t) = activate_queue s.ready_activation_ids current_epoch block_height s in
    record t { ready_activation_ids = remaining }

unfoldable pub on_initialize : Env → Storage → Storage
on_initialize env s =
    if nat_beq env.block_number 0
    then s
    else let block_height = saturated_into_u32 env.block_number in
      activate_ready_queue env.current_epoch block_height
        (activate_epoch_bucket env.current_epoch block_height s)
