-- ===== src/Merkle/Tree.antt =====
-- The loops of `export_merkle_root`, `build_export_inclusion_proof` and
-- `verify_export_inclusion_proof` (and of their import and governance copies) over a parent hash.
use interplanetary_asynchron.Prelude.{
  ℕ, zero, suc, ◌+◌, ◌-◌, ◌/◌, ◌%◌, ◌&&◌, ◌||◌, Bool, false, Eq, ◌==◌, leb, is_empty, List, [], ◌∷◌,
  length, get_or, ltb, nat_beq, if◌then◌else◌,
}

-- The sibling of an index: its neighbour in the pair, or itself at the end of an odd level.
unfoldable pub sibling_index : ℕ → ℕ → ℕ
sibling_index index len =
    if nat_beq (index % 2) 0 then (if ltb (index + 1) len then index + 1 else index) else index - 1

module _ {Hash : Type 0} (parent : Hash → Hash → Hash) where
  -- One round of the inner loop: the pairs from the left, the last one with itself.
  unfoldable pub next_level : List Hash → List Hash
  next_level [] = []
  next_level (left ∷ []) = parent left left ∷ []
  next_level (left ∷ right ∷ rest) = parent left right ∷ next_level rest

  -- `while level.len() > 1`, on fuel.
  unfoldable pub reduce : ℕ → List Hash → List Hash
  reduce zero level = level
  reduce (suc fuel) level =
      let next = reduce fuel (next_level level) in if ltb 1 (length level) then next else level

  -- The root: `level[0]` once the loop has ended, and the empty root of no leaves.
  unfoldable pub root : Hash → List Hash → Hash
  unfolding reduce
  root empty [] = empty
  root empty (hash ∷ hashes) = get_or (reduce (length (hash ∷ hashes)) (hash ∷ hashes)) 0 empty

  -- The siblings that the proof lists. An index out of range reads `default`.
  unfoldable pub siblings : Hash → ℕ → ℕ → List Hash → List Hash
  unfolding next_level sibling_index
  siblings default zero index level = []
  siblings default (suc fuel) index level =
      let rest = siblings default fuel (index / 2) (next_level level) in
      if ltb 1 (length level)
      then get_or level (sibling_index index (length level)) default ∷ rest
      else []

  -- One round of the verifier: the parent of the hash at `index` in a level of `width`.
  unfoldable pub step : ℕ → ℕ → Hash → Hash → Hash
  step index width hash sibling =
      if nat_beq (index % 2) 0
      then parent hash
          (if nat_beq (width % 2) 1 && nat_beq index (width - 1) then hash else sibling)
      else parent sibling hash

  -- `for sibling in &proof.siblings`.
  unfoldable pub climb : ℕ → ℕ → Hash → List Hash → Hash
  unfolding step
  climb index width hash [] = hash
  climb index width hash (sibling ∷ rest) =
      climb (index / 2) ((width + 1) / 2) (step index width hash sibling) rest

  -- The verifier's tests of a path, once the leaf's own hash is checked.
  unfoldable pub accepts : ⦃e : Eq Hash⦄ → Hash → ℕ → ℕ → Hash → List Hash → Bool
  unfolding climb
  accepts top index count hash path =
      if nat_beq count 0 || leb count index
      then false
      else if nat_beq count 1
      then hash == top && is_empty path
      else climb index count hash path == top
