-- ===== src/Transfers/Commit.antt =====
-- What the pallet does for the epochs pallet when an epoch closes.
use mathlib.Core.Option
use interplanetary_asynchron.Prelude.{
  ℕ, not, Option, none, some, List, [], ◌∷◌, filter_map, if◌then◌else◌, nat_eq, pair_eq,
}
use interplanetary_asynchron.Merkle.Exports.{sort_export_leaves, export_merkle_root}
use interplanetary_asynchron.Merkle.Imports.{sort_finalized_import_leaves, import_merkle_root}
use interplanetary_asynchron.Prelude.Map.{get, insert}
use interplanetary_asynchron.Transfers.State.{
  export_marked_committed, Storage, deposit_event, export_ids, finalized_import_ids,
}
use interplanetary_asynchron.Types.Export.{exported, export_status_beq, ExportLeaf, ExportRecord}
use interplanetary_asynchron.Types.Import.{FinalizedImportLeaf, finalized_leaf}
use interplanetary_asynchron.Types.Scale.{DomainId, domain_eq, Hash, EpochId, Hasher}

module _ {B : Type 0} where
  unfoldable pub canonical_epoch_exports : Storage B → EpochId → List ExportLeaf
  canonical_epoch_exports s epoch_id = sort_export_leaves (
      filter_map (λ export_id. Option.map (λ r. r.leaf) (get s.exports_by_id export_id))
        (export_ids s epoch_id))

module _ {B : Type 0} where
  -- One round of the loop over the leaves.
  unfoldable pub mark_record : EpochId → ExportLeaf → Option ExportRecord → Storage B → Storage B
  mark_record epoch_id leaf none s = s
  mark_record epoch_id leaf (some r) s =
      if not (export_status_beq r.status exported)
      then deposit_event (export_marked_committed leaf.export_id epoch_id) (record s {
        exports_by_id = insert s.exports_by_id leaf.export_id (record r { status = exported });
      })
      else s

  unfoldable pub mark_exported : EpochId → List ExportLeaf → Storage B → Storage B
  mark_exported epoch_id [] s = s
  mark_exported epoch_id (leaf ∷ leaves) s =
      mark_exported epoch_id leaves
        (mark_record epoch_id leaf (get s.exports_by_id leaf.export_id) s)

module _ {B : Type 0} ⦃h : Hasher⦄ where
  -- The root, and the storage with the epoch's exports marked.
  unfoldable pub commit_epoch_exports : DomainId → EpochId → ℕ → ℕ → Storage B → Hash × Storage B
  commit_epoch_exports domain_id epoch_id start_block_height end_block_height s =
      let leaves = canonical_epoch_exports s epoch_id in
      (
        export_merkle_root domain_id epoch_id start_block_height end_block_height leaves,
        mark_exported epoch_id leaves s,
      )

  unfoldable pub canonical_epoch_finalized_imports : Storage B → EpochId → List FinalizedImportLeaf
  canonical_epoch_finalized_imports s epoch_id = sort_finalized_import_leaves (
      filter_map (λ export_id. Option.bind (get s.observed_imports_by_id export_id) finalized_leaf)
        (finalized_import_ids s epoch_id))

  unfoldable pub commit_epoch_imports : DomainId → EpochId → ℕ → ℕ → Storage B → Hash
  commit_epoch_imports domain_id epoch_id start_block_height end_block_height s =
      import_merkle_root domain_id epoch_id start_block_height end_block_height
        (canonical_epoch_finalized_imports s epoch_id)
