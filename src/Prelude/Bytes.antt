-- ===== src/Prelude/Bytes.antt =====
-- Masks of one byte as arithmetic, checked over all its values.
use lightmqtt.Prelude.{ℕ, zero, suc, ◌+◌, ◌*◌, ◌/◌, ◌%◌, ◌<◌, ◌≡◌, refl, Bool, true, false, ◌==◌}
use lightmqtt.Prelude.{bit_and, bit_or, arith, if◌then◌else◌, Bool-cases, inl, inr, ap, sym, ◌∙◌}

abbrev pub IsByte : ℕ → Type 0
IsByte b = b < 256

-- A table: the two functions have the same values at all places before `size`.
unfoldable pub tables_agree : ℕ → (ℕ → ℕ) → (ℕ → ℕ) → Bool
tables_agree zero f g = true
tables_agree (suc last) f g =
    let before = tables_agree last f g in if f last == g last then before else false

-- What a table says of each place.
pub agree_below :
    (size : ℕ) (f g : ℕ → ℕ) (b : ℕ) → tables_agree size f g ≡ true → b < size → f b ≡ g b
unfolding tables_agree
agree_below zero f g b same inside = absurd (omega arith)
agree_below (suc last) f g b same inside = elim (Bool-cases (b == last)) [
  | inl top ↦
      let at_top : b ≡ last = ground arith in
      let shown : f last ≡ g last = ground (arith, same) in ap f at_top ∙ shown ∙ ap g (sym at_top)
  | inr lower ↦ agree_below last f g b (ground (arith, same)) (ground arith)
]

pub bit_and_128 : (b : ℕ) → b < 256 → bit_and b 128 ≡ b / 128 * 128
unfolding tables_agree
bit_and_128 b h = agree_below 256 (λ y. bit_and y 128) (λ y. y / 128 * 128) b refl h

pub bit_and_127 : (b : ℕ) → b < 256 → bit_and b 127 ≡ b % 128
unfolding tables_agree
bit_and_127 b h = agree_below 256 (λ y. bit_and y 127) (λ y. y % 128) b refl h

pub bit_or_128 : (b : ℕ) → b < 128 → bit_or b 128 ≡ b + 128
unfolding tables_agree
bit_or_128 b h = agree_below 128 (λ y. bit_or y 128) (λ y. y + 128) b refl h
