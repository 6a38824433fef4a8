-- ===== src/Epochs/Boundary.antt =====
-- Where an epoch ends: the block heights that are multiples of the epoch's length.
use native.Mathlib.Nat.{mod_self, mod-eq_of_lt, mul-add-mod_self_right}
use native.Mathlib.Decide.{dec_lt}
use interplanetary_asynchron.Prelude.{
  ℕ, ◌+◌, ◌-◌, ◌*◌, ◌%◌, ◌≤◌, ◌<◌, ◌≡◌, ap, ◌∙◌, ◌↔◌, true, arith, nat_beq, nat_eq, pair_eq,
}
use interplanetary_asynchron.Types.Scale.{domain_eq}

-- The blocks of epoch `e` are those after `e * len` up to `(e + 1) * len`, and of them the last is
-- the one that closes it.
pub boundary :
    (len e n : ℕ)
    → 0 < len
    → e * len < n
    → n ≤ e * len + len
    → (nat_beq (n % len) 0 ≡ true) ↔ (n ≡ e * len + len)
boundary len e n positive after_start upto =
    let r = n - e * len in
    let split : n ≡ e * len + r = omega arith in
    let same : n % len ≡ r % len = ap (λ x. x % len) split ∙ mul-add-mod_self_right e len r in
    elim (dec_lt r len) [
      | yes lt ↦
          let small : r % len ≡ r = mod-eq_of_lt lt in
          ((λ t. absurd (ground arith)), (λ t. absurd (omega arith)))
      | no ge ↦
          let full : r ≡ len = omega arith in
          let none_left : n % len ≡ 0 = same ∙ ap (λ x. x % len) full ∙ mod_self len in
          ((λ t. omega arith), (λ t. ground arith))
    ]
