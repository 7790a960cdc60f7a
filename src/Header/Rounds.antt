-- ===== src/Header/Rounds.antt =====
-- The rounds of `encode_remaining_length`.
use lightmqtt.Prelude.{ℕ, zero, suc, ◌+◌, ◌*◌, ◌/◌, ◌%◌, ◌^◌, ◌≤◌, ◌<◌, ◌≡◌, refl, arith}
use lightmqtt.Prelude.{Option, none, some, List, [], ◌∷◌, length, ltb}
use lightmqtt.Prelude.{bit_or, Bool-cases, ◌⊎◌, inl, inr}
use lightmqtt.Prelude.Bytes.{bit_or_128}
use lightmqtt.Prelude.Int.{pos}
use native.Mathlib.Nat.{pow-suc}
use lightmqtt.Header.{encode_remaining_length_loop, encode_remaining_length, cons?}

pub pow_pos : (k : ℕ) → 0 < 128 ^ k
pow_pos zero = omega arith
pow_pos (suc k) = rw pow-suc (omega (arith, pow_pos k))

pub cons?-eq-some :
    (b : ℕ) (o : Option (List ℕ)) {bs : List ℕ}
    → cons? b o ≡ some bs
    → (cs : List ℕ) × (o ≡ some cs) × (bs ≡ b ∷ cs)
cons?-eq-some b none e = cc
cons?-eq-some b (some cs) e = (cs, refl, cc)

-- The two ways in which a round of the encoder goes.
pub loop_cases :
    (k w : ℕ) (bs : List ℕ)
    → encode_remaining_length_loop (suc k) w ≡ some bs
    → ((w < 128) × (bs ≡ w ∷ []))
      ⊎ ((cs : List ℕ) × (0 < w / 128)
          × (encode_remaining_length_loop k (w / 128) ≡ some cs)
          × (bs ≡ (w % 128 + 128) ∷ cs))
unfolding encode_remaining_length_loop
loop_cases k w bs e = elim (Bool-cases (ltb 0 (w / 128))) [
  | inl more ↦
      let (cs, a, b) =
        cons?-eq-some (bit_or (w % 128) 128) (encode_remaining_length_loop k (w / 128)) {bs = bs}
          (ground arith) in
      inr (cs, ground arith, a, ground (arith, bit_or_128 (w % 128)))
  | inr last ↦ inl (ground arith, ground arith)
]

pub loop_last : (k w : ℕ) → w < 128 → encode_remaining_length_loop (suc k) w ≡ some (w ∷ [])
unfolding encode_remaining_length_loop
loop_last k w lt = ground arith

pub loop_more :
    (k g w : ℕ) (cs : List ℕ)
    → g < 128
    → 0 < w
    → encode_remaining_length_loop k w ≡ some cs
    → encode_remaining_length_loop (suc k) (g + w * 128) ≡ some ((g + 128) ∷ cs)
loop_more k g w cs lt more e =
    let high : (g + w * 128) / 128 ≡ w = omega arith in
    let low : (g + w * 128) % 128 ≡ g = omega arith in
    unfold encode_remaining_length_loop in ground (arith, high, low, e, bit_or_128 g)

pub loop-bound : (k w : ℕ) (bs : List ℕ) → encode_remaining_length_loop k w ≡ some bs → w < 128 ^ k
loop-bound zero w bs e = unfold encode_remaining_length_loop in cc
loop-bound (suc k) w bs e = elim (loop_cases k w bs e) [
  | inl (lt, _) ↦ omega (arith, pow-suc 128 k, pow_pos k)
  | inr (cs, _, e', _) ↦ omega (arith, pow-suc 128 k, loop-bound k (w / 128) cs e')
]

pub encode_of_loop :
    (w : ℕ) (bs : List ℕ)
    → encode_remaining_length_loop 4 w ≡ some bs
    → encode_remaining_length (pos w) ≡ some bs
unfolding encode_remaining_length
encode_of_loop w bs e = ground (arith, loop-bound 4 w bs e)

pub loop_total :
    (k w : ℕ)
    → w < 128 ^ suc k
    → (bs : List ℕ) × (encode_remaining_length_loop (suc k) w ≡ some bs)
      × (length bs ≤ suc k)
      × (1 ≤ length bs)
unfolding encode_remaining_length_loop
loop_total zero w h = (w ∷ [], loop_last zero w (omega arith), omega arith, omega arith)
loop_total (suc k) w h = elim (Bool-cases (ltb 0 (w / 128))) [
  | inl more ↦
      let (bs, e, n, _) = loop_total k (w / 128) (omega (arith, pow-suc 128 (suc k))) in
      (bit_or (w % 128) 128 ∷ bs, ground (arith, e), omega arith, omega arith)
  | inr last ↦ (w ∷ [], loop_last (suc k) w (ground arith), omega arith, omega arith)
]
