-- ===== src/Examples/Returns.antt =====
-- The rest of the transfer's life on Earth: the hold is burned once.
use interplanetary_asynchron.Prelude.{
  ℕ, ◌^◌, ◌<◌, ◌≡◌, refl, ◌≢◌, true, some, arith, length, nat_eq, pair_eq,
}
use interplanetary_asynchron.Examples.Transfers.{
  earth_env, created, closed, closed_sound, created_sound,
}
use interplanetary_asynchron.Examples.World.{
  hasher, hasher-distinct, accounts, accounts-laws, Wallet, currency, currency-laws,
}
use interplanetary_asynchron.Merkle.Exports.{
  ExportInclusionProof, build_export_inclusion_proof, verify_export_inclusion_proof,
}
use interplanetary_asynchron.Prelude.Map.{Map, get, insert}
use interplanetary_asynchron.Prelude.Outcome.{ok, ◌>>=◌, ◌>>◌, ensure, ok_or, after}
use interplanetary_asynchron.Prelude.Sorting.{sort_by}
use interplanetary_asynchron.Transfers.Calls.{
  ensure_importer, new_leaf, new_record, store_export, store_resolved, create_cross_domain_transfer,
  acknowledge_remote_finalization,
}
use interplanetary_asynchron.Transfers.Commit.{
  canonical_epoch_exports, mark_record, mark_exported, commit_epoch_exports,
}
use interplanetary_asynchron.Transfers.Committed.{commit_epoch_exports-provable}
use interplanetary_asynchron.Transfers.Config.{signed}
use interplanetary_asynchron.Transfers.Lifecycle.Histories.{acknowledge_once}
use interplanetary_asynchron.Transfers.Liveness.{acknowledge_succeeds}
use interplanetary_asynchron.Transfers.Runs.{
  acknowledge_call, Chain, dispatch, calls, closes, start, next, IsSoundChain, Reach-IsSound,
}
use interplanetary_asynchron.Types.Export.{
  exported, ExportRecord, RemoteFinalizationClaim, export_id,
}
use interplanetary_asynchron.Types.Scale.{earth, mars, domain_eq, u64_max}

abbrev genuine : RemoteFinalizationClaim
genuine = record {
  version = 1;
  export_id = export_id earth 0;
  source_domain = earth;
  target_domain = mars;
  source_epoch_id = 0;
  recipient = 7;
  amount = 75;
  completion_summary_hash = 11;
  completion_package_hash = 12;
}

abbrev resolved : Chain (Map ℕ Wallet)
resolved = record closed {
  storage = after closed.storage (
      dispatch currency accounts (earth_env 1 5) (acknowledge_call (signed 99) genuine)
        closed.storage);
}

-- One epoch later.
abbrev later_resolved : Chain (Map ℕ Wallet)
later_resolved = record {
  current = 2;
  storage = (commit_epoch_exports earth 1 4 6 resolved.storage).1;
}

room : closed.storage.next_export_sequence < u64_max
unfolding commit_epoch_exports dispatch create_cross_domain_transfer store_export ◌>>=◌ ◌>>◌ ensure
    ok_or get insert mark_exported mark_record canonical_epoch_exports sort_by export_id
room = omega arith

resolved_sound :
    IsSoundChain currency currency-laws accounts accounts-laws earth
      (hasher-distinct earth)
      resolved
resolved_sound =
    Reach-IsSound currency currency-laws accounts accounts-laws earth (hasher-distinct earth)
      (next start (calls (earth_env 1 5) (acknowledge_call (signed 99) genuine) refl refl room))
      closed_sound

accepts_genuine :
    acknowledge_remote_finalization currency accounts
      (earth_env 1 5)
      (signed 99)
      genuine
      closed.storage
    ≡ ok resolved.storage
unfolding commit_epoch_exports dispatch create_cross_domain_transfer store_export ◌>>=◌ ◌>>◌ ensure
    ok_or get insert mark_exported mark_record canonical_epoch_exports sort_by export_id
    acknowledge_remote_finalization ensure_importer store_resolved
accepts_genuine = refl

acknowledge_once_example :
    acknowledge_remote_finalization currency accounts
      (earth_env 2 7)
      (signed 99)
      genuine
      later_resolved.storage
    ≢ ok later_resolved.storage
acknowledge_once_example =
    acknowledge_once currency currency-laws accounts accounts-laws earth (hasher-distinct earth)
      (earth_env 1 5) (earth_env 2 7) (signed 99) (signed 99) closed.storage resolved later_resolved
      resolved_sound (next start (closes 4 6)) genuine genuine later_resolved.storage refl
      accepts_genuine

abbrev the_record : ExportRecord
the_record = record (new_record (new_leaf accounts (earth_env 0 1) 1 mars 7 75 0)) {
  status = exported;
}

found_closed : get closed.storage.exports_by_id (export_id earth 0) ≡ some the_record
unfolding commit_epoch_exports dispatch create_cross_domain_transfer store_export ◌>>=◌ ◌>>◌ ensure
    ok_or get insert mark_exported mark_record canonical_epoch_exports sort_by export_id
found_closed = refl

importer_closed : closed.storage.importer_account ≡ some 99
unfolding commit_epoch_exports dispatch create_cross_domain_transfer store_export ◌>>=◌ ◌>>◌ ensure
    ok_or get insert mark_exported mark_record canonical_epoch_exports sort_by export_id
importer_closed = refl

acknowledge_succeeds_example :
    (balances : Map ℕ Wallet) × (acknowledge_remote_finalization currency accounts
        (earth_env 1 5)
        (signed 99)
        genuine
        closed.storage
      ≡ ok (store_resolved accounts (earth_env 1 5) 99 genuine the_record balances closed.storage))
acknowledge_succeeds_example =
    acknowledge_succeeds currency currency-laws accounts (earth_env 1 5) closed.storage closed_sound
      99 genuine the_record importer_closed found_closed refl refl refl refl refl refl

found_created :
    get created.storage.exports_by_id (export_id earth 0)
    ≡ some (new_record (new_leaf accounts (earth_env 0 1) 1 mars 7 75 0))
unfolding dispatch create_cross_domain_transfer store_export ◌>>=◌ ◌>>◌ ensure ok_or get insert
    export_id
found_created = refl

one_leaf : length (canonical_epoch_exports created.storage 0) < 2 ^ 32
unfolding dispatch create_cross_domain_transfer store_export ◌>>=◌ ◌>>◌ ensure ok_or get insert
    export_id canonical_epoch_exports sort_by
one_leaf = omega arith

commit_epoch_exports-provable_example :
    (proof : ExportInclusionProof) × (build_export_inclusion_proof
        (canonical_epoch_exports created.storage 0)
        (export_id earth 0)
      ≡ some proof)
    × (proof.leaf ≡ new_leaf accounts (earth_env 0 1) 1 mars 7 75 0)
    × (verify_export_inclusion_proof (commit_epoch_exports earth 0 1 3 created.storage).0 proof
        ≡ true)
commit_epoch_exports-provable_example =
    commit_epoch_exports-provable currency accounts earth 0 created.storage created_sound
      (export_id earth 0) (new_record (new_leaf accounts (earth_env 0 1) 1 mars 7 75 0)) 1 3
      found_created refl one_leaf
