-- ===== src/Prelude/Shifts.antt =====
-- The binary or of numbers whose digits do not meet.
use Prim.Native.Nat.{digits, max, bit_or-bitwise}
use lightmqtt.Prelude.{
  Bool-cases, inl, inr, ltb, ℕ, zero, suc, ◌+◌, ◌*◌, ◌/◌, ◌%◌, ◌≤◌, ◌<◌, ◌≡◌, refl, ap, ◌∙◌, arith,
  bit_or,
}

-- `m << k`
abbrev shifted : ℕ → ℕ → ℕ
shifted zero m = m
shifted (suc k) m = 2 * shifted k m

abbrev or_digits : ℕ → ℕ → ℕ → ℕ
or_digits n a b = digits (λ x. x) max n a b

digits_step :
    (n a b : ℕ)
    → 0 < a
    → or_digits (suc n) a b ≡ or_digits n (a / 2) (b / 2) * 2 + max (a % 2) (b % 2)
digits_step n (suc a) b h = refl
digits_step n zero b h = absurd (omega arith)

digits_nil : (n b : ℕ) → or_digits n 0 b ≡ b
digits_nil zero b = refl
digits_nil (suc n) b = refl

digits_zero : (n a : ℕ) → a ≤ n → or_digits n a 0 ≡ a
digits_zero n zero h = digits_nil n 0
digits_zero zero (suc a) h = absurd (omega arith)
digits_zero (suc n) (suc a) h =
    digits_step n (suc a) 0 (omega arith) ∙ omega (arith, digits_zero n (suc a / 2) (omega arith))

digits_add :
    (k n m l : ℕ)
    → shifted k m ≤ n
    → l < shifted k 1
    → or_digits n (shifted k m) l ≡ shifted k m + l
digits_add zero n m l fits small =
    let none_left : l ≡ 0 = omega arith in
    ap (λ b. or_digits n m b) none_left ∙ digits_zero n m fits ∙ omega arith
digits_add (suc k) zero m l fits small = omega arith
digits_add (suc k) (suc n) m l fits small = elim (Bool-cases (ltb 0 (shifted k m))) [
  | inl some_left ↦
      let half : 2 * shifted k m / 2 ≡ shifted k m = omega arith in
      digits_step n (2 * shifted k m) l (ground arith)
      ∙ omega (
        arith,
        digits_add k n m (l / 2) (omega arith) (omega arith),
        ap (λ a. or_digits n a (l / 2)) half,
      )
  | inr nothing_left ↦
      let empty : 2 * shifted k m ≡ 0 = ground arith in
      ap (λ a. or_digits (suc n) a l) empty ∙ digits_nil (suc n) l ∙ omega arith
]

or_eq : (a b : ℕ) → bit_or a b ≡ or_digits a a b
or_eq a b = bit_or-bitwise a b

-- A high byte and a low one.
pub bit_or_bytes : (hi lo : ℕ) → lo < 256 → bit_or (hi * 256) lo ≡ hi * 256 + lo
bit_or_bytes hi lo small =
    let same : hi * 256 ≡ shifted 8 hi = omega arith in
    ap (λ a. bit_or a lo) same
    ∙ or_eq (shifted 8 hi) lo
    ∙ digits_add 8 (shifted 8 hi) hi lo (omega arith) small
    ∙ omega arith

pub bit_or_zero : (a : ℕ) → bit_or 0 a ≡ a
bit_or_zero a = or_eq 0 a ∙ digits_nil 0 a
