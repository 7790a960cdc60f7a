-- ===== src/Header/RoundTrip.antt =====
-- The remaining length, written by `encode_remaining_length` and read by `fixed_header_decode`.
use lightmqtt.Prelude.{
  ℕ, zero, suc, ◌+◌, ◌-◌, ◌*◌, ◌/◌, ◌%◌, ◌^◌, ◌≤◌, ◌<◌, ◌≡◌, refl, sym, ap, ap₂, ◌∙◌, arith,
}
use lightmqtt.Prelude.{none, some, List, [], ◌∷◌, ◌++◌, length, ltb}
use lightmqtt.Prelude.{All, Bool-cases, ◌⊎◌, inl, inr}
use lightmqtt.Prelude.Bytes.{IsByte, bit_and_127, bit_and_128}
use lightmqtt.Prelude.Int.{pos}
use native.Mathlib.Nat.{div-add-mod, pow-suc}
use lightmqtt.Header.{
  FixedHeader, done, feed, encode_remaining_length_loop, encode_remaining_length,
  fixed_header_decode, fresh, continue,
}
use lightmqtt.Header.Bytes.{IsOpen, counted, ended, feed_last, feed_inner}
use lightmqtt.Header.Rounds.{pow_pos, loop_cases, loop_last, loop_more, encode_of_loop, loop_total}

-- With `k` rounds left the multiplier is 128 ^ (4 - k).
abbrev Room : ℕ → FixedHeader → Type 0
Room k h = h.remain_len_multiplier * 128 ^ k ≡ 128 ^ 4

Room-small : (k : ℕ) (h : FixedHeader) → Room (suc (suc k)) h → h.remain_len_multiplier ≤ 128 * 128
Room-small k h r = grind (arith, pow_pos k, pow-suc 128 k, pow-suc 128 (suc k))

Room-counted : (k g : ℕ) (h : FixedHeader) → Room (suc k) h → Room k (counted h g)
Room-counted k g h r = omega (arith, ap (λ (t : ℕ). h.remain_len_multiplier * t) (pow-suc 128 k))

counted-IsOpen : (h : FixedHeader) (g : ℕ) → IsOpen h → IsOpen (counted h g)
counted-IsOpen h g o = record {
  no_error = o.no_error;
  begun = omega arith;
  unfinished = o.unfinished;
}

-- The lowest seven bits of `w` and the others, both times `m`.
split_group : (w m : ℕ) → w * m ≡ w % 128 * m + w / 128 * (m * 128)
split_group w m = omega (arith, ap (λ (t : ℕ). t * m) (div-add-mod w 128))

-- A header that keeps what was decoded from the first byte.
abbrev pub SameType : FixedHeader → FixedHeader → Type 0
SameType a b = (a.type ≡ b.type) × (a.dup ≡ b.dup) × (a.qos ≡ b.qos) × (a.retain ≡ b.retain)

-- What `feed` returns for a length `n` and what follows it.
abbrev Reads : FixedHeader → List ℕ → List ℕ → ℕ → Type 0
Reads h bs rest n =
    (h' : FixedHeader) × (feed h (bs ++ rest) ≡ done h' rest)
    × (h'.remaining_length ≡ n)
    × SameType h' h
    × (h'.bytes_read ≡ h.bytes_read + length bs)

Reads-inner :
    (h : FixedHeader) (g n : ℕ) (bs rest : List ℕ)
    → IsOpen h
    → g < 128
    → h.remain_len_multiplier ≤ 128 * 128
    → Reads (counted h g) bs rest n
    → Reads h ((g + 128) ∷ bs) rest n
Reads-inner h g n bs rest o lt small (h', f, l, t, r) =
    (h', feed_inner h g (bs ++ rest) o lt small ∙ f, l, t, omega arith)

-- A round that is not the last leaves room for another.
small_of_more :
    (k w : ℕ) (h : FixedHeader) (cs : List ℕ)
    → encode_remaining_length_loop k w ≡ some cs
    → Room (suc k) h
    → h.remain_len_multiplier ≤ 128 * 128
unfolding encode_remaining_length_loop
small_of_more zero w h cs e r = cc
small_of_more (suc k) w h cs e r = Room-small k h r

read_loop :
    (k w : ℕ) (h : FixedHeader) (bs rest : List ℕ)
    → encode_remaining_length_loop k w ≡ some bs
    → IsOpen h
    → Room k h
    → (1 < h.remain_len_multiplier → 0 < w)
    → Reads h bs rest (h.remain_len_accumulator + w * h.remain_len_multiplier)
read_loop zero w h bs rest e o r c = unfold encode_remaining_length_loop in cc
read_loop (suc k) w h bs rest e o r c = elim (loop_cases k w bs e) [
  | inl (lt, b) ↦ rw b (ended h w, feed_last h w rest o lt c, refl, (refl, refl, refl, refl), refl)
  | inr (cs, more, e', b) ↦
      let (h', f, l, t, n) =
        read_loop k (w / 128) (counted h (w % 128)) cs rest e' (counted-IsOpen h (w % 128) o)
          (Room-counted k (w % 128) h r) (λ _. more) in
      rw b (
        Reads-inner h (w % 128) _ cs rest o (omega arith) (small_of_more k (w / 128) h cs e' r)
          (h', f, omega (arith, l, split_group w h.remain_len_multiplier), t, n))
]

-- The first byte was accepted as a type byte `b`.
abbrev pub StartsWith : ℕ → FixedHeader → Type 0
StartsWith b h =
    fixed_header_decode fresh b ≡ record { result = continue; error = none; header = h }

decode_type-IsOpen :
    (b : ℕ) (h : FixedHeader)
    → StartsWith b h
    → IsOpen h × (h.remain_len_multiplier ≡ 1) × (h.remain_len_accumulator ≡ 0) × (h.bytes_read ≡ 1)
unfolding fixed_header_decode
decode_type-IsOpen b h e = ground arith

feed_first :
    (b : ℕ) (h : FixedHeader) (bs : List ℕ) → StartsWith b h → feed fresh (b ∷ bs) ≡ feed h bs
unfolding feed
feed_first b h bs e = ground (arith, e)

-- Every length that `encode_remaining_length` accepts is read back: after a first byte that
-- `fixed_header_decode` takes, the bytes written make the header whole with that length, whatever
-- follows them, with the type and flags of the first byte, after one byte more than were written.
pub decode-encode :
    (b len : ℕ) (h : FixedHeader) (bs rest : List ℕ)
    → StartsWith b h
    → encode_remaining_length (pos len) ≡ some bs
    → (h' : FixedHeader) × (feed fresh (b ∷ (bs ++ rest)) ≡ done h' rest)
      × (h'.remaining_length ≡ len)
      × SameType h' h
      × (h'.bytes_read ≡ 1 + length bs)
unfolding encode_remaining_length
decode-encode b len h bs rest start e =
    let (o, m, a, r) = decode_type-IsOpen b h start in
    let (h', f, l, t, n) = read_loop 4 len h bs rest (ground arith) o (omega arith) (omega arith) in
    (h', feed_first b h (bs ++ rest) start ∙ f, l ∙ rw (m, a) (omega arith), t, omega arith)

-- What `feed` has taken when it is done: a number whose encoding with `k` rounds it is.
abbrev Written : ℕ → FixedHeader → List ℕ → FixedHeader → List ℕ → Type 0
Written k h xs h' rest =
    (w : ℕ) × (bs : List ℕ) × (xs ≡ bs ++ rest)
    × (h'.remaining_length ≡ h.remain_len_accumulator + w * h.remain_len_multiplier)
    × (encode_remaining_length_loop k w ≡ some bs)
    × (1 < h.remain_len_multiplier → 0 < w)

left_pos : (m p : ℕ) → m * p ≡ 128 ^ 4 → 0 < m
left_pos zero p e = absurd (omega arith)
left_pos (suc m) p e = omega arith

-- The two ways in which a byte leads to a whole header.
feed_cases :
    (h : FixedHeader) (b : ℕ) (xs : List ℕ) (h' : FixedHeader) (rest : List ℕ)
    → IsByte b
    → IsOpen h
    → feed h (b ∷ xs) ≡ done h' rest
    → ((b < 128) × (h' ≡ ended h b) × (xs ≡ rest) × (1 < h.remain_len_multiplier → 0 < b))
      ⊎ ((g : ℕ) × (b ≡ g + 128)
          × (g < 128)
          × (h.remain_len_multiplier ≤ 128 * 128)
          × (feed (counted h g) xs ≡ done h' rest))
unfolding feed fixed_header_decode
feed_cases h b xs h' rest byte o e = elim (Bool-cases (ltb b 128)) [
  | inl low ↦ inl (
    ground arith,
    ground (arith, bit_and_127 b, bit_and_128 b),
    ground (arith, bit_and_127 b, bit_and_128 b),
    ground (arith, bit_and_127 b, bit_and_128 b),
  )
  | inr high ↦ inr (
    b - 128,
    ground arith,
    ground arith,
    ground (arith, bit_and_127 b, bit_and_128 b),
    ground (arith, bit_and_127 b, bit_and_128 b),
  )
]

Written-loop :
    (k : ℕ) (h : FixedHeader) (xs : List ℕ) (h' : FixedHeader) (rest : List ℕ)
    → All IsByte xs
    → IsOpen h
    → Room (suc k) h
    → feed h xs ≡ done h' rest
    → Written (suc k) h xs h' rest
Written-loop k h [] h' rest bytes o r e = unfold feed in cc
Written-loop zero h (b ∷ xs) h' rest bytes o r e = elim (feed_cases h b xs h' rest bytes.0 o e) [
  | inl (lt, end, same, c) ↦
      (b, b ∷ [], ap (λ ys. b ∷ ys) same, ap (λ x. x.remaining_length) end, loop_last zero b lt, c)
  | inr (g, eq, lt, small, f) ↦ absurd (omega arith)
]
Written-loop (suc k) h (b ∷ xs) h' rest bytes o r e = elim (feed_cases h b xs h' rest bytes.0 o e) [
  | inl (lt, end, same, c) ↦ (
    b,
    b ∷ [],
    ap (λ ys. b ∷ ys) same,
    ap (λ x. x.remaining_length) end,
    loop_last (suc k) b lt,
    c,
  )
  | inr (g, eq, lt, small, f) ↦
      let (w, cs, a, l, m, c) =
        Written-loop k (counted h g) xs h' rest bytes.1 (counted-IsOpen h g o)
          (Room-counted (suc k) g h r) f in
      (
        g + w * 128,
        (g + 128) ∷ cs,
        ap₂ ◌∷◌ eq a,
        omega (arith, l),
        loop_more (suc k) g w cs lt (c (many g)) m,
        λ _. omega (arith, c (many g)),
      )
]
  where
    many : (g : ℕ) → 1 < (counted h g).remain_len_multiplier
    many g = omega (arith, left_pos h.remain_len_multiplier (128 ^ suc (suc k)) r)

-- The loop of the encoder ends within the four bytes that it has room for.
pub encode_total :
    (w : ℕ)
    → w ≤ 0x0fffffff
    → (bs : List ℕ) × (encode_remaining_length (pos w) ≡ some bs)
      × (length bs ≤ 4)
      × (1 ≤ length bs)
unfolding encode_remaining_length
encode_total w h = let (bs, e, n, m) = loop_total 3 w (omega arith) in (bs, ground (arith, e), n, m)

-- Only canonical lengths are taken: where the bytes behind a first byte make the header whole, they
-- are what `encode_remaining_length` writes for the length that was read, and what follows.
pub encode-decode :
    (b : ℕ) (h : FixedHeader) (xs : List ℕ) (h' : FixedHeader) (rest : List ℕ)
    → All IsByte xs
    → StartsWith b h
    → feed fresh (b ∷ xs) ≡ done h' rest
    → (bs : List ℕ) × (xs ≡ bs ++ rest)
      × (encode_remaining_length (pos h'.remaining_length) ≡ some bs)
encode-decode b h xs h' rest bytes start e =
    let (o, m, a, r) = decode_type-IsOpen b h start in
    let (w, bs, eq, l, enc, c) =
      Written-loop 3 h xs h' rest bytes o (omega arith) (sym (feed_first b h xs start) ∙ e) in
    let same : h'.remaining_length ≡ w = l ∙ rw (m, a) (omega arith) in
    (bs, eq, rw same (encode_of_loop w bs enc))
