-- ===== src/Examples/Epochs.antt =====
-- Five blocks of a chain whose epochs have two blocks.
use interplanetary_asynchron.Examples.World.{hasher}
use interplanetary_asynchron.Prelude.{ℕ, ◌+◌, ◌≡◌, refl, none, some, arith, nat_eq, pair_eq}
use interplanetary_asynchron.Epochs.Blocks.{
  State, opening, Blocks, start, block, Blocks-IsSound, Blocks-keeps,
}
use interplanetary_asynchron.Epochs.Hooks.{
  reserve_slot, fold_observation, observe_in_slot, closing_header, store_header, stage_slot,
  stage_summary_for_closed_epoch, apply_observation, on_initialize, on_finalize,
}
use interplanetary_asynchron.Epochs.Invariant.{IsSound}
use interplanetary_asynchron.Epochs.State.{
  reserved, PendingBlockObservation, EpochAccumulators, genesis, Context, Providers,
}
use interplanetary_asynchron.Prelude.Map.{get, insert}
use interplanetary_asynchron.Types.Accumulators.{seed_epoch_accumulator}
use interplanetary_asynchron.Types.Scale.{earth, domain_eq, EpochId, empty_hash}
use interplanetary_asynchron.Types.Summary.{EpochSummaryHeader}

abbrev two_blocks : ℕ
two_blocks = 2

-- Providers that count how often they are asked.
abbrev counting : Providers ℕ
counting = record {
  commit_epoch_exports = λ epoch_id start end count. (100 + epoch_id, count + 1);
  commit_epoch_imports = λ epoch_id start end count. (200 + epoch_id, count);
  commit_epoch_governance = λ epoch_id start end count. (300 + epoch_id, count);
}

abbrev pub block_context : ℕ → Context
block_context n = record {
  domain_id = earth;
  validator_set_hash = 5;
  parent_hash = 1000 + n;
  storage_root = 2000 + n;
  extrinsic_count = 1;
  all_extrinsics_len = 40;
  event_count = 2;
}

abbrev seen : ℕ → PendingBlockObservation
seen n = record {
  block_number = n;
  state_root = 2000 + n;
  extrinsic_count = 1;
  all_extrinsics_len = 40;
  event_count = 2;
}

abbrev seeds : EpochAccumulators
seeds = record {
  state_root = empty_hash;
  block_root = seed_epoch_accumulator "IALP:block-root:v1" earth 0;
  tx_root = seed_epoch_accumulator "IALP:tx-root:v1" earth 0;
  event_root = seed_epoch_accumulator "IALP:event-root:v1" earth 0;
  blocks_observed = 0;
  last_observed_block = 0;
}

abbrev IsIdle : EpochId → ℕ → ℕ → ℕ → Type 0
IsIdle epoch_id number p q = p ≡ q

abbrev after_block : ℕ → State ℕ → State ℕ
after_block n b =
    let opened = opening counting (block_context n) n b in
    record { epochs = on_finalize (block_context n) n opened.0; pallets = opened.1 }

abbrev fresh : State ℕ
fresh = record { epochs = genesis two_blocks; pallets = 0 }

abbrev one : State ℕ
one = after_block 1 fresh

abbrev three : State ℕ
three = after_block 3 (after_block 2 one)

abbrev four : State ℕ
four = after_block 4 three

run : Blocks counting IsIdle earth 0 fresh 3 three
run =
    block
      (block (block start (block_context 1) _ refl (omega arith) refl) (block_context 2) _ refl
        (omega arith) refl)
      (block_context 3) _ refl (omega arith) refl

three-IsSound : IsSound earth 2 3 three.epochs
three-IsSound = Blocks-IsSound counting earth 2 (omega arith) IsIdle 0 run (omega arith)

Blocks-IsSound_example : IsSound earth 2 3 three.epochs
Blocks-IsSound_example = Blocks-IsSound counting earth 2 (omega arith) IsIdle 0 run (omega arith)

-- The first epoch's header from block 3 on, by computation.
abbrev first_header : EpochSummaryHeader
first_header = closing_header (block_context 3) 0 empty_hash 1 2 100 200 300 (record {
  epoch_id = 0;
  start_height = 1;
  end_height = none;
  reserved_at_block = 1;
  staged_at_block_number = none;
  last_touched_block = 3;
  header = none;
  status = reserved;
  accumulators = fold_observation 1003 2 (seen 2) (fold_observation 1002 1 (seen 1) seeds);
})

first_header_stored : get three.epochs.summary_headers 0 ≡ some first_header
unfolding on_initialize on_finalize reserve_slot apply_observation observe_in_slot
    stage_summary_for_closed_epoch stage_slot store_header get insert
first_header_stored = refl

Blocks-keeps_example : get four.epochs.summary_headers 0 ≡ some first_header
Blocks-keeps_example =
    Blocks-keeps counting earth 2 (omega arith) IsIdle three-IsSound
      (block start (block_context 4) four.pallets refl (omega arith) refl) 0 first_header
      first_header_stored
