-- ===== src/Transfers/Canonical.antt =====
-- The leaves of an epoch, open or closed: each is the leaf of a stored record, and provable.
use mathlib.Core.Option
use interplanetary_asynchron.Prelude.{
  ℕ, ◌^◌, ◌<◌, ◌≡◌, sym, ap, subst, ◌∙◌, true, some, arith, length, In, All, In-filter_map,
  All-filter_map, All-tabulate, All-at, nat_eq, pair_eq,
}
use interplanetary_asynchron.Merkle.Exports.{
  ExportInclusionProof, export_leaf_ordering, export_merkle_root, build_export_inclusion_proof,
  verify_export_inclusion_proof, HasOwnHash,
}
use interplanetary_asynchron.Merkle.Exports.RoundTrip.{build_export_inclusion_proof-verifies}
use interplanetary_asynchron.Prelude.Map.{get}
use interplanetary_asynchron.Prelude.Sorting.{In-sort_by, All-sort_by}
use interplanetary_asynchron.Transfers.Commit.{canonical_epoch_exports}
use interplanetary_asynchron.Transfers.Config.{Accounts, Currency}
use interplanetary_asynchron.Transfers.Invariant.{IsSound}
use interplanetary_asynchron.Transfers.State.{Storage, export_ids}
use interplanetary_asynchron.Types.Export.{ExportLeaf, ExportRecord}
use interplanetary_asynchron.Types.Scale.{DomainId, domain_eq, ExportId, EpochId, Hasher}

module _ {B : Type 0} (currency : Currency B) (accounts : Accounts) ⦃h : Hasher⦄ (d : DomainId)
    (current : EpochId) (s : Storage B) (sound : IsSound currency accounts d current s)
    (e : EpochId) where
  -- A leaf of the epoch is the leaf of the record that is stored under its identifier.
  abbrev pub IsStored : ExportLeaf → Type 0
  IsStored leaf =
      (r : ExportRecord) × (get s.exports_by_id leaf.export_id ≡ some r) × (r.leaf ≡ leaf)

  pub canonical-IsStored : All IsStored (canonical_epoch_exports s e)
  unfolding canonical_epoch_exports
  canonical-IsStored = All-sort_by IsStored export_leaf_ordering _ (
      All-filter_map (λ k. Option.map (λ r. r.leaf) (get s.exports_by_id k)) IsStored
        (export_ids s e) stored)
    where
      stored :
          (k : ExportId) (leaf : ExportLeaf)
          → In k (export_ids s e)
          → Option.map (λ r. r.leaf) (get s.exports_by_id k) ≡ some leaf
          → IsStored leaf
      stored k leaf m p =
          let (r, q, _) = sound.indexed e k m in
          let same : r.leaf ≡ leaf = ground arith in
          let at : leaf.export_id ≡ k =
            ap (λ l. l.export_id) (sym same) ∙ (sound.recorded k r q).id in
          (r, rw at q, same)

  canonical-HasOwnHash : All HasOwnHash (canonical_epoch_exports s e)
  canonical-HasOwnHash = All-tabulate HasOwnHash (canonical_epoch_exports s e) (λ leaf m.
      let (r, q, same) = All-at IsStored leaf (canonical_epoch_exports s e) canonical-IsStored m in
      subst HasOwnHash same (sound.recorded leaf.export_id r q).own_hash)

  In-canonical_at :
      (k : ExportId) (r : ExportRecord)
      → get s.exports_by_id k ≡ some r
      → In k (export_ids s e)
      → In r.leaf (canonical_epoch_exports s e)
  unfolding canonical_epoch_exports
  In-canonical_at k r p m = In-sort_by export_leaf_ordering r.leaf _ (
      In-filter_map (λ k'. Option.map (λ q. q.leaf) (get s.exports_by_id k')) k r.leaf
        (export_ids s e) m (rw p))

  -- Each export of the epoch has an inclusion proof of its own leaf at the epoch's root.
  pub canonical-provable :
      (k : ExportId) (r : ExportRecord) (first_block last_block : ℕ)
      → get s.exports_by_id k ≡ some r
      → r.leaf.source_epoch_id ≡ e
      → length (canonical_epoch_exports s e) < 2 ^ 32
      → (proof : ExportInclusionProof) × (build_export_inclusion_proof
            (canonical_epoch_exports s e)
            k
          ≡ some proof)
        × (proof.leaf ≡ r.leaf)
        × (verify_export_inclusion_proof
              (export_merkle_root d e first_block last_block (canonical_epoch_exports s e))
              proof
            ≡ true)
  canonical-provable k r first_block last_block found at short =
      let leaves = canonical_epoch_exports s e in
      let id = (sound.recorded k r found).id in
      let listed = subst (λ x. In k (export_ids s x)) at (sound.listed k r found) in
      let (proof, built, same_id, member, verified) =
        build_export_inclusion_proof-verifies leaves r.leaf d e first_block last_block
          (In-canonical_at k r found listed) canonical-HasOwnHash short in
      let (q, stored, same) = All-at IsStored proof.leaf leaves canonical-IsStored member in
      let found' : get s.exports_by_id k ≡ some q =
        subst (λ x. get s.exports_by_id x ≡ some q) (same_id ∙ id) stored in
      let one : q ≡ r = ground arith in
      (
        proof,
        subst (λ x. build_export_inclusion_proof leaves x ≡ some proof) id built,
        sym same ∙ ap (λ x. x.leaf) one,
        verified,
      )
