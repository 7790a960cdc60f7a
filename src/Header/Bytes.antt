-- ===== src/Header/Bytes.antt =====
-- One byte of the remaining length, in plain arithmetic.
use lightmqtt.Prelude.{ℕ, ◌+◌, ◌*◌, ◌≤◌, ◌<◌, ◌≡◌, arith}
use lightmqtt.Prelude.{none, true, false, List, ◌∷◌}
use lightmqtt.Prelude.Bytes.{bit_and_127, bit_and_128}
use lightmqtt.Header.{FixedHeader, finished, continue, fixed_header_decode, done, feed}

-- The header has taken its first byte, and its length is still open.
pub record IsOpen (h : FixedHeader) : Type 0 where
  pub no_error : h.error ≡ none
  pub begun : 0 < h.bytes_read
  pub unfinished : h.remain_len_finished ≡ false

-- The header after a byte of the length whose low bits are `g`.
abbrev pub counted : FixedHeader → ℕ → FixedHeader
counted h g = record h {
  bytes_read = h.bytes_read + 1;
  remain_len_accumulator = h.remain_len_accumulator + g * h.remain_len_multiplier;
  remain_len_multiplier = h.remain_len_multiplier * 128;
}

abbrev pub ended : FixedHeader → ℕ → FixedHeader
ended h g = record (counted h g) {
  remaining_length = h.remain_len_accumulator + g * h.remain_len_multiplier;
  remain_len_finished = true;
}

pub decode_last :
    (h : FixedHeader) (g : ℕ)
    → IsOpen h
    → g < 128
    → (1 < h.remain_len_multiplier → 0 < g)
    → fixed_header_decode h g ≡ record { result = finished; error = none; header = ended h g }
unfolding fixed_header_decode
decode_last h g o lt canonical = ground (arith, bit_and_127 g, bit_and_128 g)

pub decode_inner :
    (h : FixedHeader) (g : ℕ)
    → IsOpen h
    → g < 128
    → h.remain_len_multiplier ≤ 128 * 128
    → fixed_header_decode h (g + 128)
      ≡ record { result = continue; error = none; header = counted h g }
unfolding fixed_header_decode
decode_inner h g o lt small = ground (arith, bit_and_127 (g + 128), bit_and_128 (g + 128))

pub feed_last :
    (h : FixedHeader) (g : ℕ) (rest : List ℕ)
    → IsOpen h
    → g < 128
    → (1 < h.remain_len_multiplier → 0 < g)
    → feed h (g ∷ rest) ≡ done (ended h g) rest
unfolding feed
feed_last h g rest o lt canonical = ground (arith, decode_last h g o)

pub feed_inner :
    (h : FixedHeader) (g : ℕ) (rest : List ℕ)
    → IsOpen h
    → g < 128
    → h.remain_len_multiplier ≤ 128 * 128
    → feed h ((g + 128) ∷ rest) ≡ feed (counted h g) rest
unfolding feed
feed_inner h g rest o lt small = ground (arith, decode_inner h g o)
