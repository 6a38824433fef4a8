-- ===== src/Transfers/Committed.antt =====
-- What the root of a closing epoch proves of its exports.
use interplanetary_asynchron.Prelude.{ℕ, ◌^◌, ◌<◌, ◌≡◌, true, some, length, nat_eq, pair_eq}
use interplanetary_asynchron.Merkle.Exports.{
  ExportInclusionProof, build_export_inclusion_proof, verify_export_inclusion_proof,
}
use interplanetary_asynchron.Prelude.Map.{get}
use interplanetary_asynchron.Transfers.Canonical.{canonical-provable}
use interplanetary_asynchron.Transfers.Commit.{canonical_epoch_exports, commit_epoch_exports}
use interplanetary_asynchron.Transfers.Config.{Accounts, Currency}
use interplanetary_asynchron.Transfers.Invariant.{IsSound}
use interplanetary_asynchron.Transfers.State.{Storage}
use interplanetary_asynchron.Types.Export.{ExportRecord}
use interplanetary_asynchron.Types.Scale.{DomainId, domain_eq, ExportId, EpochId, Hasher}

module _ {B : Type 0} (currency : Currency B) (accounts : Accounts) ⦃h : Hasher⦄ (d : DomainId)
    (current : EpochId) (s : Storage B) (sound : IsSound currency accounts d current s) where
  -- On a sound chain, each export of the open epoch, if there are fewer than 2 ^ 32 of them, has an
  -- inclusion proof of its own leaf that the verifier accepts at the root that the commitment
  -- returns.
  pub commit_epoch_exports-provable :
      (k : ExportId) (r : ExportRecord) (start_block end_block : ℕ)
      → get s.exports_by_id k ≡ some r
      → r.leaf.source_epoch_id ≡ current
      → length (canonical_epoch_exports s current) < 2 ^ 32
      → (proof : ExportInclusionProof) × (build_export_inclusion_proof
            (canonical_epoch_exports s current)
            k
          ≡ some proof)
        × (proof.leaf ≡ r.leaf)
        × (verify_export_inclusion_proof
              (commit_epoch_exports d current start_block end_block s).0
              proof
            ≡ true)
  unfolding commit_epoch_exports
  commit_epoch_exports-provable = canonical-provable currency accounts d current s sound current
