-- ===== src/Config/Text.antt =====
-- Strings as the lists of their code points: `trim().is_empty()`, `len()`, order and equality.
use interplanetary_asynchron.Prelude.{
  ℕ, ◌+◌, ◌/◌, ◌%◌, compare, Ordering, ◌≡◌, refl, ◌↔◌, Bool, true, false, ◌&&◌, ◌||◌, List, [], ◌∷◌,
  ◌++◌, arith, length, ltb, leb, nat_beq, if◌then◌else◌, Eq, nat_eq, pair_eq,
}
use interplanetary_asynchron.Prelude.Sorting.{then_with}
use interplanetary_asynchron.Types.Scale.{domain_eq}

abbrev pub Text : Type 0
Text = List ℕ

-- The characters with the property White_Space.
unfoldable pub is_whitespace : ℕ → Bool
is_whitespace c =
    (leb 9 c && leb c 13)
    || (nat_beq c 32
        || (nat_beq c 0x85
            || (nat_beq c 0xa0
                || (nat_beq c 0x1680
                    || ((leb 0x2000 c && leb c 0x200a)
                        || (nat_beq c 0x2028
                            || (nat_beq c 0x2029
                                || (nat_beq c 0x202f
                                    || (nat_beq c 0x205f || nat_beq c 0x3000)))))))))

-- `trim().is_empty()`.
unfoldable pub is_blank : Text → Bool
unfolding is_whitespace
is_blank [] = true
is_blank (c ∷ s) = is_whitespace c && is_blank s

-- The UTF-8 bytes of a character.
abbrev utf8 : ℕ → List ℕ
utf8 c =
    if ltb c 0x80
    then c ∷ []
    else if ltb c 0x800
    then (0xc0 + c / 64) ∷ (0x80 + c % 64) ∷ []
    else if ltb c 0x10000
    then (0xe0 + c / 4096) ∷ (0x80 + c / 64 % 64) ∷ (0x80 + c % 64) ∷ []
    else (0xf0 + c / 262144) ∷ (0x80 + c / 4096 % 64) ∷ (0x80 + c / 64 % 64) ∷ (0x80 + c % 64) ∷ []

unfoldable pub as_bytes : Text → List ℕ
as_bytes [] = []
as_bytes (c ∷ s) = utf8 c ++ as_bytes s

-- `len()` counts bytes.
abbrev pub byte_len : Text → ℕ
byte_len s = length (as_bytes s)

abbrev pub text_beq : Text → Text → Bool
text_beq [] [] = true
text_beq (a ∷ s) (b ∷ t) = nat_beq a b && text_beq s t
text_beq _ _ = false

pub text_beq_iff : (s t : Text) → (text_beq s t ≡ true) ↔ (s ≡ t)
text_beq_iff [] [] = ((λ h. refl), (λ h. refl))
text_beq_iff [] (b ∷ t) = ((λ h. ground arith), (λ h. ground arith))
text_beq_iff (a ∷ s) [] = ((λ h. ground arith), (λ h. ground arith))
text_beq_iff (a ∷ s) (b ∷ t) =
    ((λ h. ground (arith, (text_beq_iff s t).0)), (λ h. ground (arith, (text_beq_iff s t).1)))

instance abbrev pub text_eq : Eq Text
text_eq = record { beq = text_beq; beq_iff = text_beq_iff }

-- `Ord` of strings: UTF-8 keeps the order of code points.
abbrev pub text_compare : Text → Text → Ordering
text_compare [] [] = Ordering.eq
text_compare [] (b ∷ t) = Ordering.lt
text_compare (a ∷ s) [] = Ordering.gt
text_compare (a ∷ s) (b ∷ t) = then_with (compare a b) (text_compare s t)
