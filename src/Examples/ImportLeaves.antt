-- ===== src/Examples/ImportLeaves.antt =====
-- Two finalized imports of an epoch, and inclusion proofs for them.
use interplanetary_asynchron.Types.Import
use interplanetary_asynchron.Merkle.Imports
use interplanetary_asynchron.Prelude.{
  ℕ, ◌+◌, ◌≡◌, refl, ◌≢◌, inl, true, some, List, [], ◌∷◌, arith, In, All, nat_eq, pair_eq,
}
use interplanetary_asynchron.Examples.World.{
  domain-injective, hasher, encode-Same, tagged_injective, tag_injective,
}
use interplanetary_asynchron.Merkle.Imports.{
  FinalizedImportInclusionProof, import_merkle_parent_hash, import_merkle_root,
  build_finalized_import_inclusion_proof, verify_finalized_import_inclusion_proof,
}
use interplanetary_asynchron.Merkle.Imports.Binding.{verify_finalized_import_inclusion_proof_sound}
use interplanetary_asynchron.Merkle.Imports.RoundTrip.{
  build_finalized_import_inclusion_proof-verifies,
}
use interplanetary_asynchron.Merkle.Tree.{next_level, root, accepts}
use interplanetary_asynchron.Prelude.Sorting.{sort_by}
use interplanetary_asynchron.Types.Import.{
  FinalizedImportLeafHashInput, import_hash, FinalizedImportLeaf,
}
use interplanetary_asynchron.Types.Scale.{
  earth, mars, domain_eq, Hash, Scale, u16, u64, u128, bytes, str, domain,
}

abbrev leaf_at : ℕ → FinalizedImportLeaf
leaf_at height = Import.from_hash_input (record {
  version = 1;
  export_id = height + 20;
  source_domain = earth;
  target_domain = mars;
  recipient = 2;
  amount = 75;
  source_epoch_id = 0;
  summary_hash = 11;
  package_hash = 12;
})

abbrev two_leaves : List FinalizedImportLeaf
two_leaves = leaf_at 2 ∷ leaf_at 1 ∷ []

own_two : All Imports.HasOwnHash two_leaves
own_two = (refl, (refl, tt))

abbrev proof_two : FinalizedImportInclusionProof
proof_two = record {
  version = 1;
  leaf = leaf_at 2;
  leaf_index = 1;
  leaf_count = 2;
  siblings = (leaf_at 1).import_hash ∷ [];
}

build_finalized_import_inclusion_proof-verifies_example :
    (proof : FinalizedImportInclusionProof) × (build_finalized_import_inclusion_proof two_leaves 22
      ≡ some proof)
    × (proof.leaf.export_id ≡ 22)
    × In proof.leaf two_leaves
    × (verify_finalized_import_inclusion_proof (import_merkle_root earth 0 1 3 two_leaves) proof
        ≡ true)
build_finalized_import_inclusion_proof-verifies_example =
    build_finalized_import_inclusion_proof-verifies two_leaves (leaf_at 2) earth 0 1 3 (inl refl)
      own_two (omega arith)

abbrev import_fields : FinalizedImportLeafHashInput → List Scale
import_fields x =
    u16 x.version
    ∷ bytes x.export_id
    ∷ domain x.source_domain
    ∷ domain x.target_domain
    ∷ bytes x.recipient
    ∷ u128 x.amount
    ∷ u64 x.source_epoch_id
    ∷ bytes x.summary_hash
    ∷ bytes x.package_hash
    ∷ []

import_hash_injective : (x y : FinalizedImportLeafHashInput) → import_hash x ≡ import_hash y → x ≡ y
unfolding import_hash
import_hash_injective x y e =
    let (v, (i, (s, (t, (r, (a, (p, (h, (n, _))))))))) =
      encode-Same (import_fields x) (import_fields y) e in
    λ j. record {
      version = tagged_injective 1 x.version y.version v j;
      export_id = tagged_injective 5 x.export_id y.export_id i j;
      source_domain = domain-injective x.source_domain y.source_domain s j;
      target_domain = domain-injective x.target_domain y.target_domain t j;
      recipient = tagged_injective 5 x.recipient y.recipient r j;
      amount = tagged_injective 4 x.amount y.amount a j;
      source_epoch_id = tagged_injective 3 x.source_epoch_id y.source_epoch_id p j;
      summary_hash = tagged_injective 5 x.summary_hash y.summary_hash h j;
      package_hash = tagged_injective 5 x.package_hash y.package_hash n j;
    }

import_parent_injective :
    (a b c d : Hash)
    → import_merkle_parent_hash a b ≡ import_merkle_parent_hash c d
    → (a ≡ c) × (b ≡ d)
unfolding import_merkle_parent_hash
import_parent_injective a b c d e =
    let (_, (l, (r, _))) =
      encode-Same (str "IALP:import-merkle-node:v1" ∷ bytes a ∷ bytes b ∷ [])
        (str "IALP:import-merkle-node:v1" ∷ bytes c ∷ bytes d ∷ []) e in
    (tagged_injective 5 a c l, tagged_injective 5 b d r)

import_leaf_ne_parent :
    (x : FinalizedImportLeafHashInput) (l r : Hash) → import_hash x ≢ import_merkle_parent_hash l r
unfolding import_hash import_merkle_parent_hash
import_leaf_ne_parent x l r e =
    let (t, _) =
      encode-Same (import_fields x) (str "IALP:import-merkle-node:v1" ∷ bytes l ∷ bytes r ∷ []) e in
    let tags = tag_injective 1 6 x.version 0 t in absurd (omega arith)

import_binding : Imports.IsBinding
import_binding = record {
  leaf_injective = import_hash_injective;
  parent_injective = import_parent_injective;
  leaf_ne_parent = import_leaf_ne_parent;
}

passes_two :
    verify_finalized_import_inclusion_proof (import_merkle_root earth 0 1 3 two_leaves) proof_two
    ≡ true
unfolding verify_finalized_import_inclusion_proof import_merkle_root import_merkle_parent_hash root
    next_level accepts import_hash sort_by
passes_two = refl

verify_finalized_import_inclusion_proof_sound_example : In (leaf_at 2) two_leaves
verify_finalized_import_inclusion_proof_sound_example =
    verify_finalized_import_inclusion_proof_sound import_binding two_leaves proof_two earth 0 1 3
      (omega arith) own_two passes_two
