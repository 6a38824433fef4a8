-- ===== src/Merkle/Paths.antt =====
-- A path built for an index climbs from that leaf to the root.
use interplanetary_asynchron.Prelude.{
  ℕ, zero, suc, ◌+◌, ◌/◌, ◌≤◌, ◌<◌, ◌≡◌, refl, sym, ap, ◌∙◌, true, Eq, List, [], ◌∷◌, length,
  get_or, ltb, arith, inl, inr, Bool-cases, ltb→le, ltb→lt,
}
use interplanetary_asynchron.Merkle.Tree.{
  next_level, reduce, root, sibling_index, siblings, step, climb, accepts,
}

sibling_index-suc-suc :
    (i len : ℕ)
    → i < len
    → sibling_index (suc (suc i)) (suc (suc len)) ≡ suc (suc (sibling_index i len))
unfolding sibling_index
sibling_index-suc-suc i len h = ground arith

-- In range the default of a read does not matter.
get_or_default :
    {Hash : Type 0} (level : List Hash) (c d : Hash)
    → 0 < length level
    → get_or level 0 c ≡ get_or level 0 d
get_or_default [] c d h = absurd (omega arith)
get_or_default (x ∷ xs) c d h = refl

module _ {Hash : Type 0} (parent : Hash → Hash → Hash) where
  pub length-next_level :
      (level : List Hash) → length (next_level parent level) ≡ (length level + 1) / 2
  unfolding next_level
  length-next_level [] = refl
  length-next_level (a ∷ []) = refl
  length-next_level (a ∷ b ∷ rest) = omega (arith, length-next_level rest)

  step-suc-suc :
      (i width : ℕ) (hash sibling : Hash)
      → i < width
      → step parent (suc (suc i)) (suc (suc width)) hash sibling ≡ step parent i width hash sibling
  unfolding step
  step-suc-suc i width hash sibling h = ground arith

  half_suc-suc : (i : ℕ) → suc (suc i) / 2 ≡ suc (i / 2)
  half_suc-suc i = omega arith

  -- The entry above an index is the parent of the pair that the index lies in.
  get_or-next_level :
      (level : List Hash) (i : ℕ) (d : Hash)
      → i < length level
      → get_or (next_level parent level) (i / 2) d
        ≡ step parent i
            (length level)
            (get_or level i d)
            (get_or level (sibling_index i (length level)) d)
  unfolding next_level step sibling_index
  get_or-next_level [] i d h = absurd (omega arith)
  get_or-next_level (a ∷ []) zero d h = refl
  get_or-next_level (a ∷ []) (suc i) d h = absurd (omega arith)
  get_or-next_level (a ∷ b ∷ rest) zero d h = ground arith
  get_or-next_level (a ∷ b ∷ rest) (suc zero) d h = ground arith
  get_or-next_level (a ∷ b ∷ rest) (suc (suc i)) d h =
      rw (half_suc-suc i, sibling_index-suc-suc i (length rest) (omega arith))
        (get_or-next_level rest i d (omega arith)
          ∙ sym (step-suc-suc i (length rest) _ _ (omega arith)))

  -- Enough fuel leaves one hash.
  pub length-reduce :
      (fuel : ℕ) (level : List Hash)
      → 0 < length level
      → length level ≤ suc fuel
      → length (reduce parent fuel level) ≡ 1
  unfolding reduce
  length-reduce zero level h k = omega arith
  length-reduce (suc fuel) level h k =
      ground (arith, length-next_level level, length-reduce fuel (next_level parent level))

  -- One round of the climb, from what the rounds above it do.
  climb_above :
      (i : ℕ) (level ss : List Hash) (d top : Hash)
      → i < length level
      → climb parent
          (i / 2)
          (length (next_level parent level))
          (get_or (next_level parent level) (i / 2) d)
          ss
        ≡ top
      → climb parent i
          (length level)
          (get_or level i d)
          (get_or level (sibling_index i (length level)) d ∷ ss)
        ≡ top
  unfolding climb
  climb_above i level ss d top h e =
      rw (get_or-next_level level i d h, length-next_level level) at e

  -- The verifier's climb along the listed siblings ends in the hash that the reduction leaves.
  pub climb-siblings :
      (fuel i : ℕ) (level : List Hash) (d : Hash)
      → i < length level
      → length level ≤ suc fuel
      → climb parent i (length level) (get_or level i d) (siblings parent d fuel i level)
        ≡ get_or (reduce parent fuel level) 0 d
  unfolding siblings reduce climb
  climb-siblings zero i level d h k = ap (λ j. get_or level j d) (omega arith)
  climb-siblings (suc fuel) i level d h k = elim (Bool-cases (ltb 1 (length level))) [
    | inl more ↦ rw more (
        climb_above i level (siblings parent d fuel (i / 2) (next_level parent level)) d _ h (
          climb-siblings fuel (i / 2) (next_level parent level) d
            (omega (arith, length-next_level level))
            (omega (arith, length-next_level level, ltb→lt 1 (length level) more))))
    | inr done ↦ rw done (ap (λ j. get_or level j d) (omega (arith, ltb→le 1 (length level) done)))
  ]

  -- The round trip, at the root of all the leaves.
  pub climb-root :
      (i : ℕ) (level : List Hash) (d empty : Hash)
      → i < length level
      → climb parent i (length level) (get_or level i d) (siblings parent d (length level) i level)
        ≡ root parent empty level
  unfolding root
  climb-root i [] d empty h = absurd (omega arith)
  climb-root i (x ∷ xs) d empty h =
      climb-siblings (length (x ∷ xs)) i (x ∷ xs) d h (omega arith)
      ∙ get_or_default (reduce parent (length (x ∷ xs)) (x ∷ xs)) d empty
          (omega (arith, length-reduce (length (x ∷ xs)) (x ∷ xs) (omega arith) (omega arith)))

  -- A level of one hash needs no sibling.
  pub siblings_of_one :
      (fuel i : ℕ) (level : List Hash) (d : Hash)
      → length level ≡ 1
      → siblings parent d fuel i level ≡ []
  unfolding siblings
  siblings_of_one zero i level d h = refl
  siblings_of_one (suc fuel) i level d h = ground arith

  -- The verifier accepts the path that was built for an index, at the root.
  pub accepts-siblings :
      ⦃e : Eq Hash⦄ (i : ℕ) (level : List Hash) (d empty : Hash)
      → i < length level
      → accepts parent
          (root parent empty level)
          i
          (length level)
          (get_or level i d)
          (siblings parent d (length level) i level)
        ≡ true
  unfolding accepts climb
  accepts-siblings ⦃e⦄ i level d empty h = ground (
    arith,
    climb-root i level d empty h,
    siblings_of_one (length level) i level d,
    e.beq_iff (get_or level i d) (root parent empty level),
    e.beq_iff (root parent empty level) (root parent empty level),
  )
