-- ===== src/Examples/Runtime.antt =====
-- Three blocks of Earth's runtime with epochs of two blocks: a transfer in the first block is
-- provable at the header that the third block stores.
use interplanetary_asynchron.Governance.State as Governance
use interplanetary_asynchron.Epochs.State as Epochs
use interplanetary_asynchron.Transfers.State as Transfers
use interplanetary_asynchron.Prelude.{
  [], ◌∷◌, ℕ, ◌^◌, ◌<◌, ◌≡◌, refl, true, some, arith, length, nat_eq, pair_eq,
}
use interplanetary_asynchron.Epochs.Blocks.{State, opening, start, block}
use interplanetary_asynchron.Epochs.Hooks.{
  reserve_slot, observe_in_slot, store_header, stage_slot, stage_summary_for_closed_epoch,
  apply_observation, on_initialize, on_finalize,
}
use interplanetary_asynchron.Epochs.State.{Providers}
use interplanetary_asynchron.Examples.Epochs.{block_context}
use interplanetary_asynchron.Examples.Transfers.{earth_env, funds, none_held, transfer}
use interplanetary_asynchron.Examples.World.{
  hasher, hasher-distinct, accounts, accounts-laws, Wallet, currency, currency-laws,
}
use interplanetary_asynchron.Merkle.Exports.{
  ExportInclusionProof, build_export_inclusion_proof, verify_export_inclusion_proof,
}
use interplanetary_asynchron.Prelude.Map.{Map, get, insert}
use interplanetary_asynchron.Prelude.Outcome.{◌>>=◌, ◌>>◌, ensure, ok_or, after}
use interplanetary_asynchron.Prelude.Sorting.{sort_by}
use interplanetary_asynchron.Runtime.{Pallets, runtime_providers, none_left, transfers_call}
use interplanetary_asynchron.Runtime.Provable.{Run-provable}
use interplanetary_asynchron.Runtime.Refinement.{chain_of, Run, Run-refines}
use interplanetary_asynchron.Transfers.Calls.{
  new_leaf, new_record, store_export, create_cross_domain_transfer,
}
use interplanetary_asynchron.Transfers.Commit.{
  canonical_epoch_exports, mark_record, mark_exported, commit_epoch_exports,
}
use interplanetary_asynchron.Transfers.Runs.{dispatch, Reach}
use interplanetary_asynchron.Types.Export.{exported, ExportRecord, export_id}
use interplanetary_asynchron.Types.Scale.{earth, mars, domain_eq}
use interplanetary_asynchron.Types.Summary.{EpochSummaryHeader}

abbrev quiet : Governance.Storage
quiet = Governance.genesis 1 (some 99) (1 ∷ 2 ∷ [])

abbrev earth_providers : Providers (Pallets (Map ℕ Wallet))
earth_providers = runtime_providers earth

abbrev zero_state : State (Pallets (Map ℕ Wallet))
zero_state = record {
  epochs = Epochs.genesis 2;
  pallets = record { transfers = Transfers.genesis (some 99) funds; governance = quiet };
}

abbrev opened_at : ℕ → State (Pallets (Map ℕ Wallet)) → Epochs.Storage × Pallets (Map ℕ Wallet)
opened_at n b = opening earth_providers (block_context n) n b

abbrev with_transfer : Pallets (Map ℕ Wallet) → Pallets (Map ℕ Wallet)
with_transfer p = record p {
  transfers = after p.transfers (dispatch currency accounts (earth_env 0 1) transfer p.transfers);
}

abbrev left_at :
    ℕ → State (Pallets (Map ℕ Wallet)) → Pallets (Map ℕ Wallet) → State (Pallets (Map ℕ Wallet))
left_at n b q = record { epochs = on_finalize (block_context n) n (opened_at n b).0; pallets = q }

abbrev first_state : State (Pallets (Map ℕ Wallet))
first_state = left_at 1 zero_state (with_transfer (opened_at 1 zero_state).1)

abbrev second_state : State (Pallets (Map ℕ Wallet))
second_state = left_at 2 first_state (opened_at 2 first_state).1

abbrev third_state : State (Pallets (Map ℕ Wallet))
third_state = left_at 3 second_state (opened_at 3 second_state).1

three_blocks : Run currency accounts earth 2 (omega arith) 0 zero_state 3 third_state
unfolding on_initialize reserve_slot
three_blocks =
    block
      (block
        (block start (block_context 1) _ refl (omega arith)
          (transfers_call none_left (earth_env 0 1) transfer refl refl refl (omega arith)))
        (block_context 2) _ refl (omega arith) none_left)
      (block_context 3) _ refl (omega arith) none_left

Run-refines_example :
    Reach currency accounts earth
      (record { current = 0; storage = Transfers.genesis (some 99) funds })
      (chain_of third_state)
Run-refines_example =
    Run-refines currency accounts earth 2 (omega arith) (some 99) funds quiet three_blocks

abbrev committed_record : ExportRecord
committed_record = record (new_record (new_leaf accounts (earth_env 0 1) 1 mars 7 75 0)) {
  status = exported;
}

found_third :
    get third_state.pallets.transfers.exports_by_id (export_id earth 0) ≡ some committed_record
unfolding on_initialize on_finalize reserve_slot apply_observation observe_in_slot
    stage_summary_for_closed_epoch stage_slot store_header commit_epoch_exports dispatch
    create_cross_domain_transfer store_export ◌>>=◌ ◌>>◌ ensure ok_or get insert mark_exported
    mark_record canonical_epoch_exports sort_by export_id
found_third = refl

second_epoch : 0 < third_state.epochs.current_epoch
unfolding on_initialize on_finalize reserve_slot apply_observation observe_in_slot
    stage_summary_for_closed_epoch stage_slot store_header get insert
second_epoch = omega arith

one_leaf_third : length (canonical_epoch_exports third_state.pallets.transfers 0) < 2 ^ 32
unfolding on_initialize on_finalize reserve_slot apply_observation observe_in_slot
    stage_summary_for_closed_epoch stage_slot store_header commit_epoch_exports dispatch
    create_cross_domain_transfer store_export ◌>>=◌ ◌>>◌ ensure ok_or get insert mark_exported
    mark_record canonical_epoch_exports sort_by export_id
one_leaf_third = omega arith

Run-provable_example :
    (header : EpochSummaryHeader) × (get third_state.epochs.summary_headers 0 ≡ some header)
    × (proof : ExportInclusionProof) × (build_export_inclusion_proof
          (canonical_epoch_exports third_state.pallets.transfers 0)
          (export_id earth 0)
        ≡ some proof)
    × (proof.leaf ≡ committed_record.leaf)
    × (verify_export_inclusion_proof header.export_root proof ≡ true)
Run-provable_example =
    Run-provable currency currency-laws accounts accounts-laws earth (hasher-distinct earth) 2
      (omega arith) (some 99) funds quiet none_held three_blocks (export_id earth 0)
      committed_record found_third second_epoch one_leaf_third
