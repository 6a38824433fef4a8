-- ===== src/Examples/Leaves.antt =====
-- Two leaves of an epoch, and inclusion proofs for them.
use interplanetary_asynchron.Types.Export
use interplanetary_asynchron.Merkle.Exports
use interplanetary_asynchron.Prelude.{
  ℕ, ◌+◌, ◌≡◌, refl, ◌≢◌, inl, true, some, List, [], ◌∷◌, arith, In, All, nat_eq, pair_eq,
}
use interplanetary_asynchron.Examples.World.{
  domain-injective, hasher, encode-Same, tagged_injective, tag_injective,
}
use interplanetary_asynchron.Merkle.Exports.{
  ExportInclusionProof, export_merkle_parent_hash, export_merkle_root, build_export_inclusion_proof,
  verify_export_inclusion_proof,
}
use interplanetary_asynchron.Merkle.Exports.Binding.{verify_export_inclusion_proof_sound}
use interplanetary_asynchron.Merkle.Exports.RoundTrip.{build_export_inclusion_proof-verifies}
use interplanetary_asynchron.Merkle.Tree.{next_level, root, accepts}
use interplanetary_asynchron.Prelude.Sorting.{sort_by}
use interplanetary_asynchron.Types.Export.{ExportLeafHashInput, export_hash, ExportLeaf, export_id}
use interplanetary_asynchron.Types.Scale.{
  earth, mars, domain_eq, Hash, Scale, u16, u32, u64, u128, bytes, str, domain,
}

abbrev pub leaf_at : ℕ → ExportLeaf
leaf_at height = Export.from_hash_input (record {
  version = 1;
  export_id = height + 20;
  source_domain = earth;
  target_domain = mars;
  sender = 1;
  recipient = 2;
  amount = 75;
  source_epoch_id = 0;
  source_block_height = height;
  extrinsic_index = 0;
})

abbrev two_leaves : List ExportLeaf
two_leaves = leaf_at 2 ∷ leaf_at 1 ∷ []

own_two : All Exports.HasOwnHash two_leaves
own_two = (refl, (refl, tt))

abbrev proof_two : ExportInclusionProof
proof_two = record {
  version = 1;
  leaf = leaf_at 2;
  leaf_index = 1;
  leaf_count = 2;
  siblings = (leaf_at 1).export_hash ∷ [];
}

build_export_inclusion_proof-verifies_example :
    (proof : ExportInclusionProof) × (build_export_inclusion_proof two_leaves 22 ≡ some proof)
    × (proof.leaf.export_id ≡ 22)
    × In proof.leaf two_leaves
    × (verify_export_inclusion_proof (export_merkle_root earth 0 1 3 two_leaves) proof ≡ true)
build_export_inclusion_proof-verifies_example =
    build_export_inclusion_proof-verifies two_leaves (leaf_at 2) earth 0 1 3 (inl refl) own_two
      (omega arith)

abbrev export_fields : ExportLeafHashInput → List Scale
export_fields x =
    u16 x.version
    ∷ bytes x.export_id
    ∷ domain x.source_domain
    ∷ domain x.target_domain
    ∷ bytes x.sender
    ∷ bytes x.recipient
    ∷ u128 x.amount
    ∷ u64 x.source_epoch_id
    ∷ u32 x.source_block_height
    ∷ u32 x.extrinsic_index
    ∷ []

export_hash_injective : (x y : ExportLeafHashInput) → export_hash x ≡ export_hash y → x ≡ y
unfolding export_hash
export_hash_injective x y e =
    let (v, (i, (s, (t, (f, (r, (a, (p, (h, (n, _)))))))))) =
      encode-Same (export_fields x) (export_fields y) e in
    λ j. record {
      version = tagged_injective 1 x.version y.version v j;
      export_id = tagged_injective 5 x.export_id y.export_id i j;
      source_domain = domain-injective x.source_domain y.source_domain s j;
      target_domain = domain-injective x.target_domain y.target_domain t j;
      sender = tagged_injective 5 x.sender y.sender f j;
      recipient = tagged_injective 5 x.recipient y.recipient r j;
      amount = tagged_injective 4 x.amount y.amount a j;
      source_epoch_id = tagged_injective 3 x.source_epoch_id y.source_epoch_id p j;
      source_block_height = tagged_injective 2 x.source_block_height y.source_block_height h j;
      extrinsic_index = tagged_injective 2 x.extrinsic_index y.extrinsic_index n j;
    }

export_parent_injective :
    (a b c d : Hash)
    → export_merkle_parent_hash a b ≡ export_merkle_parent_hash c d
    → (a ≡ c) × (b ≡ d)
unfolding export_merkle_parent_hash
export_parent_injective a b c d e =
    let (_, (l, (r, _))) =
      encode-Same (str "IALP:export-merkle-node:v1" ∷ bytes a ∷ bytes b ∷ [])
        (str "IALP:export-merkle-node:v1" ∷ bytes c ∷ bytes d ∷ []) e in
    (tagged_injective 5 a c l, tagged_injective 5 b d r)

export_leaf_ne_parent :
    (x : ExportLeafHashInput) (l r : Hash) → export_hash x ≢ export_merkle_parent_hash l r
unfolding export_hash export_merkle_parent_hash
export_leaf_ne_parent x l r e =
    let (t, _) =
      encode-Same (export_fields x) (str "IALP:export-merkle-node:v1" ∷ bytes l ∷ bytes r ∷ []) e in
    let tags = tag_injective 1 6 x.version 0 t in absurd (omega arith)

export_binding : Exports.IsBinding
export_binding = record {
  leaf_injective = export_hash_injective;
  parent_injective = export_parent_injective;
  leaf_ne_parent = export_leaf_ne_parent;
}

passes_two :
    verify_export_inclusion_proof (export_merkle_root earth 0 1 3 two_leaves) proof_two ≡ true
unfolding verify_export_inclusion_proof export_merkle_root export_merkle_parent_hash root next_level
    accepts export_hash sort_by
passes_two = refl

verify_export_inclusion_proof_sound_example : In (leaf_at 2) two_leaves
verify_export_inclusion_proof_sound_example =
    verify_export_inclusion_proof_sound export_binding two_leaves proof_two earth 0 1 3
      (omega arith) own_two passes_two
