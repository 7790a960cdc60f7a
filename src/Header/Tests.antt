-- ===== src/Header/Tests.antt =====
-- Runs of the fixed header's encoder and decoder.
use lightmqtt.Prelude.{
  ℕ, ◌+◌, ◌≡◌, ◌≤◌, refl, arith, true, false, none, some, List, [], ◌∷◌, ◌++◌, length, ◌⊎◌,
}
use lightmqtt.Prelude.Int.{pos}
use lightmqtt.Core.{decode_fixed_header_invalid_remaining_length}
use lightmqtt.Header.{
  FixedHeader, fresh, feed, done, bad, encode_remaining_length, fixed_header_decode, continue,
  failed,
}
use lightmqtt.Header.Types.{typed, legal, first_byte, type_error, first_byte_lem}
use lightmqtt.Header.RoundTrip.{SameType, decode-encode, encode-decode, encode_total}

decode-encode_example :
    (h' : FixedHeader) × (feed fresh (0x33 ∷ ((0xc1 ∷ 2 ∷ []) ++ (7 ∷ []))) ≡ done h' (7 ∷ []))
    × (h'.remaining_length ≡ 321)
    × SameType h' (typed 3 0 1 1)
    × (h'.bytes_read ≡ 1 + length {A = ℕ} (0xc1 ∷ 2 ∷ []))
unfolding fixed_header_decode encode_remaining_length
decode-encode_example = decode-encode 0x33 321 (typed 3 0 1 1) (0xc1 ∷ 2 ∷ []) (7 ∷ []) refl refl

-- The header of the run above.
abbrev read_header : FixedHeader
read_header = record (typed 3 0 1 1) {
  remaining_length = 321;
  bytes_read = 3;
  remain_len_multiplier = 16384;
  remain_len_accumulator = 321;
  remain_len_finished = true;
}

encode-decode_example :
    (bs : List ℕ) × ((0xc1 ∷ 2 ∷ 7 ∷ []) ≡ bs ++ (7 ∷ []))
    × (encode_remaining_length (pos 321) ≡ some bs)
unfolding fixed_header_decode feed
encode-decode_example =
    encode-decode 0x33 (typed 3 0 1 1) (0xc1 ∷ 2 ∷ 7 ∷ []) read_header (7 ∷ [])
      (omega arith, (omega arith, (omega arith, tt))) refl refl

encode_total_example :
    (bs : List ℕ) × (encode_remaining_length (pos 0x0fffffff) ≡ some bs)
    × (length bs ≤ 4)
    × (1 ≤ length bs)
encode_total_example = encode_total 0x0fffffff (omega arith)

first_byte_example :
    let d = fixed_header_decode fresh 0x3b in
    ((legal 0x3b ≡ true)
      × (d.result ≡ continue)
      × (d.error ≡ none)
      × (first_byte d.header ≡ 0x3b)
      × (d.header.qos ≤ 2))
    ⊎ ((legal 0x3b ≡ false) × (d.result ≡ failed) × (d.error ≡ some (type_error 0x3b)))
first_byte_example = first_byte_lem 0x3b (omega arith)

-- A length that ends in a byte 0 is refused.
overlong :
    feed fresh (0x30 ∷ 0x81 ∷ 0 ∷ []) ≡ bad (some decode_fixed_header_invalid_remaining_length)
unfolding feed fixed_header_decode
overlong = refl
