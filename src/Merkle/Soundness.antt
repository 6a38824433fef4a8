-- ===== src/Merkle/Soundness.antt =====
-- What a verifier's climb to the root says of the hash that it started from.
use interplanetary_asynchron.Prelude.{
  ℕ, zero, suc, ◌<◌, ◌≡◌, ◌≢◌, refl, sym, ◌∙◌, List, [], ◌∷◌, length, get_or, In, All, All-at, ltb,
  arith, inl, inr, ◌⊎◌, Bool-cases, ◌/◌, ◌+◌, ◌%◌, nat_beq, true, Eq,
}
use interplanetary_asynchron.Merkle.Tree.{next_level, reduce, root, step, climb, accepts}
use interplanetary_asynchron.Merkle.Paths.{length-reduce}

module _ {Hash : Type 0} (parent : Hash → Hash → Hash) where
  -- `hash` occurs in the tree of parents below a node.
  pub data Under (hash : Hash) : Hash → Type 0 where
    self : {node : Hash} → node ≡ hash → Under hash node
    in_left : {node : Hash} (l r : Hash) → node ≡ parent l r → Under hash l → Under hash node
    in_right : {node : Hash} (l r : Hash) → node ≡ parent l r → Under hash r → Under hash node

  -- A hash that is no parent of two hashes.
  abbrev pub IsLeafHash : Hash → Type 0
  IsLeafHash hash = (l r : Hash) → hash ≢ parent l r

module _ {Hash : Type 0} (parent : Hash → Hash → Hash) where
  Under-step :
      (i w : ℕ) (g hash sibling : Hash)
      → Under parent g hash
      → Under parent g (step parent i w hash sibling)
  unfolding step
  Under-step i w g hash sibling u = elim (Bool-cases (nat_beq (i % 2) 0)) [
    | inl even ↦ rw even (in_left hash _ refl u)
    | inr odd ↦ rw odd (in_right sibling hash refl u)
  ]

  Under-climb :
      (i w : ℕ) (g hash : Hash) (ss : List Hash)
      → Under parent g hash
      → Under parent g (climb parent i w hash ss)
  unfolding climb
  Under-climb i w g hash [] u = u
  Under-climb i w g hash (s ∷ ss) u =
      Under-climb (i / 2) ((w + 1) / 2) g (step parent i w hash s) ss (Under-step i w g hash s u)

  In-next_level :
      (x : Hash) (level : List Hash)
      → In x (next_level parent level)
      → (a : Hash) × (b : Hash) × In a level × In b level × (x ≡ parent a b)
  unfolding next_level
  In-next_level x [] m = absurd m
  In-next_level x (a ∷ []) (inl e) = (a, a, inl refl, inl refl, e)
  In-next_level x (a ∷ []) (inr m) = absurd m
  In-next_level x (a ∷ b ∷ rest) (inl e) = (a, b, inl refl, inr (inl refl), e)
  In-next_level x (a ∷ b ∷ rest) (inr m) =
      let (c, d, mc, md, e) = In-next_level x rest m in (c, d, inr (inr mc), inr (inr md), e)

  module _ (injective : (a b c d : Hash) → parent a b ≡ parent c d → (a ≡ c) × (b ≡ d))
      (hash : Hash) (is_leaf : IsLeafHash parent hash) where
    below :
        (x a b : Hash)
        → x ≡ parent a b
        → Under parent hash x
        → Under parent hash a ⊎ Under parent hash b
    below x a b e (self p) = absurd (is_leaf a b (sym p ∙ e))
    below x a b e (in_left l r p u) = let q = (injective l r a b (sym p ∙ e)).0 in inl (rw q at u)
    below x a b e (in_right l r p u) = let q = (injective l r a b (sym p ∙ e)).1 in inr (rw q at u)

    abbrev Found : List Hash → Type 0
    Found level = (y : Hash) × In y level × Under parent hash y

    Found-next_level : (level : List Hash) → Found (next_level parent level) → Found level
    Found-next_level level (x, m, u) =
        let (a, b, ma, mb, e) = In-next_level x level m in
        elim (below x a b e u) [ inl v ↦ (a, ma, v) | inr v ↦ (b, mb, v) ]

    Found-reduce : (fuel : ℕ) (level : List Hash) → Found (reduce parent fuel level) → Found level
    unfolding reduce
    Found-reduce zero level f = f
    Found-reduce (suc fuel) level f = elim (Bool-cases (ltb 1 (length level))) [
      | inl more ↦
          Found-next_level level (Found-reduce fuel (next_level parent level) (rw more at f))
      | inr done ↦ rw done at f
    ]

    Found-leaves :
        (leaves : List Hash) → All (IsLeafHash parent) leaves → Found leaves → In hash leaves
    Found-leaves leaves q (y, m, self p) = rw p at m
    Found-leaves leaves q (y, m, in_left l r p u) =
        absurd (All-at (IsLeafHash parent) y leaves q m l r p)
    Found-leaves leaves q (y, m, in_right l r p u) =
        absurd (All-at (IsLeafHash parent) y leaves q m l r p)

    In-first : (level : List Hash) (d : Hash) → 0 < length level → In (get_or level 0 d) level
    In-first [] d h = absurd (omega arith)
    In-first (x ∷ xs) d h = inl refl

    -- A climb that ends in the root of `leaves` started from one of them.
    pub In-of_climb :
        (i w : ℕ) (ss leaves : List Hash) (empty : Hash)
        → 0 < length leaves
        → All (IsLeafHash parent) leaves
        → climb parent i w hash ss ≡ root parent empty leaves
        → In hash leaves
    unfolding root
    In-of_climb i w ss [] empty h q e = absurd (omega arith)
    In-of_climb i w ss (x ∷ xs) empty h q e = Found-leaves (x ∷ xs) q (
        Found-reduce (length (x ∷ xs)) (x ∷ xs) (
          _,
          In-first (reduce parent (length (x ∷ xs)) (x ∷ xs)) empty
              (omega (arith, length-reduce parent (length (x ∷ xs)) (x ∷ xs) h (omega arith))),
          (rw e at (Under-climb i w hash hash ss (self refl))),
        ))

module _ {Hash : Type 0} (parent : Hash → Hash → Hash) where
  -- The verifier's tests accept only a path that climbs to the root.
  pub climb-of_accepts :
      ⦃e : Eq Hash⦄ (top : Hash) (i n : ℕ) (hash : Hash) (path : List Hash)
      → accepts parent top i n hash path ≡ true
      → climb parent i n hash path ≡ top
  unfolding accepts climb
  climb-of_accepts ⦃e⦄ top i n hash [] h = ground (arith, e.beq_iff hash top)
  climb-of_accepts ⦃e⦄ top i n hash (s ∷ ss) h =
      ground (arith, e.beq_iff (climb parent (i / 2) ((n + 1) / 2) (step parent i n hash s) ss) top)
