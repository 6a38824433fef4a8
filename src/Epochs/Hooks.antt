-- ===== src/Epochs/Hooks.antt =====
-- The hooks of chain/pallets/epochs/src/lib.rs and the helpers that they call.
use mathlib.Core.Option
use interplanetary_asynchron.Prelude.{
  ℕ, ◌+◌, ◌-◌, ◌%◌, ◌^◌, min, max, true, Option, none, some, ltb, nat_beq, if◌then◌else◌, nat_eq,
  pair_eq,
}
use interplanetary_asynchron.Epochs.State.{
  reserved, staged, slot_status_beq, PendingBlockObservation, EpochAccumulators, SummarySlotRecord,
  epoch_closed, summary_slot_reserved, epoch_summary_created, summary_hash_committed, Storage,
  deposit_event, Context, Providers,
}
use interplanetary_asynchron.Prelude.Map.{get, insert}
use interplanetary_asynchron.Types.Accumulators.{
  seed_epoch_accumulator, fold_epoch_accumulator, tx_envelope_hash, event_envelope_hash,
}
use interplanetary_asynchron.Types.Scale.{
  DomainId, domain_eq, Hash, EpochId, empty_hash, Hasher, u32_max,
}
use interplanetary_asynchron.Types.Summary.{
  from_hash_input, epoch_summary_version, EpochSummaryHeader, StagedSummaryRecord,
}

module _ ⦃h : Hasher⦄ where
  unfoldable pub reserve_slot : DomainId → EpochId → ℕ → ℕ → Storage → Storage
  reserve_slot domain_id epoch_id start_height block_number s =
      deposit_event (summary_slot_reserved epoch_id) (record s {
        summary_slots = insert s.summary_slots epoch_id (record {
          epoch_id = epoch_id;
          start_height = start_height;
          end_height = none;
          reserved_at_block = block_number;
          staged_at_block_number = none;
          last_touched_block = block_number;
          header = none;
          status = reserved;
          accumulators = record {
            state_root = empty_hash;
            block_root = seed_epoch_accumulator "IALP:block-root:v1" domain_id epoch_id;
            tx_root = seed_epoch_accumulator "IALP:tx-root:v1" domain_id epoch_id;
            event_root = seed_epoch_accumulator "IALP:event-root:v1" domain_id epoch_id;
            blocks_observed = 0;
            last_observed_block = 0;
          };
        });
      })

  abbrev pub fold_observation :
      Hash → ℕ → PendingBlockObservation → EpochAccumulators → EpochAccumulators
  fold_observation block_hash block_number observation a = record {
    state_root = observation.state_root;
    block_root = fold_epoch_accumulator a.block_root block_number block_hash;
    tx_root =
        fold_epoch_accumulator a.tx_root block_number (
          tx_envelope_hash block_number observation.extrinsic_count observation.all_extrinsics_len);
    event_root =
        fold_epoch_accumulator a.event_root block_number
          (event_envelope_hash block_number observation.event_count);
    blocks_observed = min (a.blocks_observed + 1) u32_max;
    last_observed_block = block_number;
  }

  abbrev pub fold_observation_into_slot :
      Hash → ℕ → PendingBlockObservation → SummarySlotRecord → SummarySlotRecord
  fold_observation_into_slot block_hash block_number observation slot = record slot {
    accumulators = fold_observation block_hash block_number observation slot.accumulators;
  }

  -- `SummarySlots::mutate` in `apply_parent_block_observation`.
  unfoldable pub observe_in_slot :
      Hash → ℕ → PendingBlockObservation → EpochId → Option SummarySlotRecord → Storage → Storage
  observe_in_slot block_hash block_number observation epoch_id none s = s
  observe_in_slot block_hash block_number observation epoch_id (some slot) s = record s {
    summary_slots =
        insert s.summary_slots epoch_id
          (record (fold_observation_into_slot block_hash (block_number - 1) observation slot) {
            last_touched_block = block_number;
          });
  }

  -- The header of a closed epoch, from its slot and the three roots.
  abbrev pub closing_header :
      Context → EpochId → Hash → ℕ → ℕ → Hash → Hash → Hash → SummarySlotRecord → EpochSummaryHeader
  closing_header context epoch_id prev_summary_hash start_height end_height export_root import_root
        governance_root slot =
      from_hash_input (record {
        version = epoch_summary_version;
        domain_id = context.domain_id;
        epoch_id = epoch_id;
        prev_summary_hash = prev_summary_hash;
        start_block_height = start_height;
        end_block_height = end_height;
        state_root = slot.accumulators.state_root;
        block_root = slot.accumulators.block_root;
        tx_root = slot.accumulators.tx_root;
        event_root = slot.accumulators.event_root;
        export_root = export_root;
        import_root = import_root;
        governance_root = governance_root;
        validator_set_hash = context.validator_set_hash;
      })

-- What the second `SummarySlots::mutate` writes for a header.
unfoldable pub store_header :
    EpochId → ℕ → EpochSummaryHeader → SummarySlotRecord → Storage → Storage
store_header epoch_id opening_block_number header slot s =
    deposit_event (summary_hash_committed epoch_id header.summary_hash header.prev_summary_hash) (
      deposit_event (epoch_summary_created epoch_id opening_block_number header.summary_hash) (
        deposit_event (epoch_closed epoch_id header.start_block_height header.end_block_height)
          (record s {
            summary_slots = insert s.summary_slots epoch_id (record slot {
              end_height = some header.end_block_height;
              staged_at_block_number = some opening_block_number;
              last_touched_block = opening_block_number;
              header = some header;
              status = staged;
            });
            summary_headers = insert s.summary_headers epoch_id header;
            latest_summary_header = some header;
            latest_summary_hash = header.summary_hash;
            summary_count = (s.summary_count + 1) % 2 ^ 64;
          })))

-- The closure of that `mutate`, whose header depends on the slot.
unfoldable pub stage_slot :
    EpochId
    → ℕ
    → (SummarySlotRecord → EpochSummaryHeader)
    → Option SummarySlotRecord
    → Storage
    → Storage
stage_slot epoch_id opening_block_number header none s = s
stage_slot epoch_id opening_block_number header (some slot) s =
    if slot_status_beq slot.status staged
    then s
    else store_header epoch_id opening_block_number (header slot) slot s

module _ {P : Type 0} (providers : Providers P) ⦃h : Hasher⦄ where
  -- The providers run in this order, before the slot is touched.
  unfoldable pub stage_summary_for_closed_epoch :
      Context → EpochId → ℕ → ℕ → Storage → P → Storage × P
  stage_summary_for_closed_epoch context epoch_id end_height opening_block_number s p =
      let start_height = s.current_epoch_start in
      let prev_summary_hash = if nat_beq epoch_id 0 then empty_hash else s.latest_summary_hash in
      let exports = providers.commit_epoch_exports epoch_id start_height end_height p in
      let imports = providers.commit_epoch_imports epoch_id start_height end_height exports.1 in
      let governance =
        providers.commit_epoch_governance epoch_id start_height end_height imports.1 in
      let header =
        closing_header context epoch_id prev_summary_hash start_height end_height exports.0
          imports.0 governance.0 in
      let next_epoch = (epoch_id + 1) % 2 ^ 64 in
      (
        reserve_slot context.domain_id next_epoch opening_block_number opening_block_number
            (record (stage_slot epoch_id opening_block_number header (get s.summary_slots epoch_id)
              s) { current_epoch = next_epoch; current_epoch_start = opening_block_number }),
        governance.1,
      )

  -- The body of `apply_parent_block_observation` after the pending observation was taken.
  unfoldable pub apply_observation :
      Context → ℕ → Option PendingBlockObservation → Storage → P → Storage × P
  apply_observation context block_number none s p = (s, p)
  apply_observation context block_number (some observation) s p =
      let parent_block_number = block_number - 1 in
      let current_epoch = s.current_epoch in
      let observed =
        observe_in_slot context.parent_hash block_number observation current_epoch
          (get s.summary_slots current_epoch) s in
      let epoch_length = max observed.epoch_length_blocks 1 in
      if nat_beq (parent_block_number % epoch_length) 0
      then stage_summary_for_closed_epoch context current_epoch parent_block_number block_number
          observed p
      else (observed, p)

  abbrev pub apply_parent_block_observation : Context → ℕ → Storage → P → Storage × P
  apply_parent_block_observation context block_number s p =
      apply_observation context block_number s.pending_block_observation
        (record s { pending_block_observation = none }) p

  -- `reserve_slot` for the first epoch, in the first block only.
  abbrev pub initialize : Context → ℕ → Storage → Storage
  initialize context block_number s =
      if s.is_initialized
      then s
      else record (reserve_slot context.domain_id 0 1 block_number s) { is_initialized = true }

  unfoldable pub on_initialize : Context → ℕ → Storage → P → Storage × P
  on_initialize context block_number s p =
      if nat_beq block_number 0
      then (s, p)
      else let number = min block_number u32_max in
        let ready = initialize context number s in
        if ltb 1 number then apply_parent_block_observation context number ready p else (ready, p)

abbrev pub store_pending_block_observation : Context → ℕ → Storage → Storage
store_pending_block_observation context block_number s = record s {
  pending_block_observation = some (record {
    block_number = block_number;
    state_root = context.storage_root;
    extrinsic_count = context.extrinsic_count;
    all_extrinsics_len = context.all_extrinsics_len;
    event_count = context.event_count;
  });
}

unfoldable pub on_finalize : Context → ℕ → Storage → Storage
on_finalize context block_number s =
    if nat_beq block_number 0
    then s
    else store_pending_block_observation context (min block_number u32_max) s

unfoldable pub staged_summary_record : EpochId → Storage → Option StagedSummaryRecord
staged_summary_record epoch_id s = Option.bind (get s.summary_slots epoch_id) (λ slot.
    Option.bind slot.header (λ header.
      Option.map (λ staged_at. record { header = header; staged_at_block_number = staged_at })
        slot.staged_at_block_number))
