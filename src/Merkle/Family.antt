-- ===== src/Merkle/Family.antt =====
-- What the three families of leaves share: leaves in canonical order, hashed into a tree.
use interplanetary_asynchron.Prelude.{
  ℕ, ◌%◌, ◌^◌, ◌<◌, ◌≡◌, sym, subst, Bool, true, List, map, some, Ordering, length, length-map,
  get_or, get_or-map, get_elem?, get_elem?-lt, In, In-map, All, All-at, All-map, All-tabulate,
  position, position-eq_some, position_found, nat_eq, arith,
}
use interplanetary_asynchron.Prelude.Sorting.{sort_by, length-sort_by, In-sort_by, All-sort_by}
use interplanetary_asynchron.Types.Scale.{Hash}
use interplanetary_asynchron.Merkle.Tree.{root, siblings, accepts}
use interplanetary_asynchron.Merkle.Paths.{accepts-siblings}
use interplanetary_asynchron.Merkle.Soundness.{IsLeafHash, In-of_climb, climb-of_accepts}

module _ (parent : Hash → Hash → Hash) {Leaf : Type 0} (hash_of : Leaf → Hash)
    (ordering : Leaf → Leaf → Ordering) (leaves : List Leaf) (empty : Hash) where
  abbrev ordered : List Leaf
  ordered = sort_by ordering leaves

  abbrev hashes : List Hash
  hashes = map hash_of ordered

  -- The path of the leaf at an index of the canonical order is accepted, at the index and the count
  -- as the proof's `u32` fields hold them.
  pub accepts-built :
      (i : ℕ) (leaf : Leaf)
      → get_elem? (sort_by ordering leaves) i ≡ some leaf
      → length leaves < 2 ^ 32
      → accepts parent
          (root parent empty (map hash_of (sort_by ordering leaves)))
          (i % 2 ^ 32)
          (length (sort_by ordering leaves) % 2 ^ 32)
          (hash_of leaf)
          (siblings parent 0
            (length (sort_by ordering leaves))
            i
            (map hash_of (sort_by ordering leaves)))
        ≡ true
  accepts-built i leaf at short =
      subst (λ k. AtIndex k (length ordered % 2 ^ 32) (hash_of leaf)) (sym index)
        (subst (λ n. AtIndex i n (hash_of leaf)) (sym count)
          (subst (AtIndex i (length ordered)) (get_or-map hash_of ordered i 0 leaf at) built))
    where
      AtIndex : ℕ → ℕ → Hash → Type 0
      AtIndex k n hash =
          accepts parent (root parent empty hashes) k n hash
            (siblings parent 0 (length ordered) i hashes)
          ≡ true

      in_range : i < length ordered
      in_range = get_elem?-lt ordered i leaf at

      index : i % 2 ^ 32 ≡ i
      index = omega (arith, in_range, length-sort_by ordering leaves)

      count : length ordered % 2 ^ 32 ≡ length ordered
      count = omega (arith, length-sort_by ordering leaves)

      lengths : length hashes ≡ length ordered
      lengths = length-map hash_of ordered

      built : AtIndex i (length ordered) (get_or hashes i 0)
      built = rw lengths at (accepts-siblings parent i hashes 0 empty (rw lengths in_range))

  -- `position` finds a leaf of the list in the canonical order.
  pub found-In_order :
      (same : Leaf → Bool) (leaf : Leaf)
      → In leaf leaves
      → same leaf ≡ true
      → (i : ℕ) × (found : Leaf) × (position same (sort_by ordering leaves) ≡ some i)
        × (get_elem? (sort_by ordering leaves) i ≡ some found)
        × (same found ≡ true)
        × In found leaves
  found-In_order same leaf m t =
      let (i, p) = position_found same leaf ordered (In-sort_by ordering leaf leaves m) t in
      let (found, e, s, f) = position-eq_some same ordered i p in
      (i, found, p, e, s, All-at (λ l. In l leaves) found ordered ordered_In f)
    where
      ordered_In : All (λ l. In l leaves) ordered
      ordered_In =
          All-sort_by (λ l. In l leaves) ordering leaves
            (All-tabulate (λ l. In l leaves) leaves (λ l n. n))

  -- A hash whose path is accepted at the root is the hash of one of the leaves.
  pub leaf_of_accepts :
      (injective : (a b c d : Hash) → parent a b ≡ parent c d → (a ≡ c) × (b ≡ d))
      → (index count : ℕ) (hash : Hash) (path : List Hash) → 0 < length leaves
      → All (λ l. IsLeafHash parent (hash_of l)) leaves
      → IsLeafHash parent hash
      → accepts parent
          (root parent empty (map hash_of (sort_by ordering leaves)))
          index
          count
          hash
          path
        ≡ true
      → (leaf : Leaf) × In leaf leaves × (hash ≡ hash_of leaf)
  leaf_of_accepts injective index count hash path some_leaf are_leaves is_leaf passes =
      let (leaf, m, e) = In-map hash_of hash ordered member in
      (leaf, (All-at Fit leaf ordered fit m).0, e)
    where
      Fit : Leaf → Type 0
      Fit l = In l leaves × IsLeafHash parent (hash_of l)

      fit : All Fit ordered
      fit = All-sort_by Fit ordering leaves (
          All-tabulate Fit leaves
            (λ l m. (m, All-at (λ k. IsLeafHash parent (hash_of k)) l leaves are_leaves m)))

      member : In hash hashes
      member =
          In-of_climb parent injective hash is_leaf index count path hashes empty
            (omega (arith, length-map hash_of ordered, length-sort_by ordering leaves))
            (All-map hash_of (IsLeafHash parent) ordered (
              All-tabulate (λ l. IsLeafHash parent (hash_of l)) ordered
                (λ l m. (All-at Fit l ordered fit m).1)))
            (climb-of_accepts parent (root parent empty hashes) index count hash path passes)

-- A leaf that `position` finds in the canonical order is one of the leaves, and passes the test.
pub found_leaf :
    {Leaf : Type 0} (ordering : Leaf → Leaf → Ordering) (leaves : List Leaf) (same : Leaf → Bool)
    (i : ℕ)
    → position same (sort_by ordering leaves) ≡ some i
    → (leaf : Leaf) × (get_elem? (sort_by ordering leaves) i ≡ some leaf)
      × (same leaf ≡ true)
      × In leaf leaves
found_leaf ordering leaves same i h =
    let (leaf, at, t, m) = position-eq_some same (sort_by ordering leaves) i h in
    (
      leaf,
      at,
      t,
      All-at (λ l. In l leaves) leaf (sort_by ordering leaves)
          (All-sort_by (λ l. In l leaves) ordering leaves
            (All-tabulate (λ l. In l leaves) leaves (λ l n. n)))
          m,
    )
