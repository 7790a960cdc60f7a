-- ===== src/Header.antt =====
-- src/lmqtt_packet.c: the fixed header of a packet, `encode_remaining_length` and
-- `fixed_header_decode`. Bytes are numbers; the `long` counters never go below 0 and stay below
-- 2 ^ 36, so they are numbers too.
pub mod Bytes
pub mod Rounds
pub mod RoundTrip
pub mod Types
mod Tests
use lightmqtt.Prelude.{ℕ, zero, suc, ◌+◌, ◌-◌, ◌*◌, ◌/◌, ◌%◌, Bool, true, false, ◌&&◌, ◌||◌, not}
use lightmqtt.Prelude.{Option, none, some, List, [], ◌∷◌, ltb, leb, ◌==◌, if◌then◌else◌}
use lightmqtt.Prelude.{bit_and, bit_or}
use lightmqtt.Prelude.Int.{ℤ, pos}
use lightmqtt.Core.{
  Error, decode_fixed_header_invalid_type, decode_fixed_header_invalid_flags,
  decode_fixed_header_invalid_remaining_length,
}

abbrev cons? : ℕ → Option (List ℕ) → Option (List ℕ)
cons? b none = none
cons? b (some bs) = some (b ∷ bs)

-- The loop of `encode_remaining_length`, with the rounds that `buf` has room for.
unfoldable pub encode_remaining_length_loop : ℕ → ℕ → Option (List ℕ)
encode_remaining_length_loop zero len = none
encode_remaining_length_loop (suc room) len =
    let b = len % 128 in
    let rest = encode_remaining_length_loop room (len / 128) in
    if ltb 0 (len / 128) then cons? (bit_or b 128) rest else some (b ∷ [])

-- `encode_remaining_length`: the bytes written; `none` if the assertion on `len` fails.
unfoldable pub encode_remaining_length : ℤ → Option (List ℕ)
unfolding encode_remaining_length_loop
encode_remaining_length (pos len) =
    if leb len 0x0fffffff then encode_remaining_length_loop 4 len else none
encode_remaining_length _ = none

-- `lmqtt_decode_result_t`
pub data DecodeResult : Type 0 where
  finished continue would_block failed : DecodeResult

-- `lmqtt_fixed_header_t`
pub record FixedHeader : Type 0 where
  pub type : ℕ
  pub dup : ℕ
  pub qos : ℕ
  pub retain : ℕ
  pub remaining_length : ℕ
  pub bytes_read : ℕ
  pub error : Option Error
  pub remain_len_multiplier : ℕ
  pub remain_len_accumulator : ℕ
  pub remain_len_finished : Bool

-- All bytes 0.
abbrev pub fresh : FixedHeader
fresh = record {
  type = 0;
  dup = 0;
  qos = 0;
  retain = 0;
  remaining_length = 0;
  bytes_read = 0;
  error = none;
  remain_len_multiplier = 0;
  remain_len_accumulator = 0;
  remain_len_finished = false;
}

-- include/lightmqtt/types.h
abbrev pub type_min : ℕ
type_min = 1

abbrev pub type_publish : ℕ
type_publish = 3

abbrev pub type_pubrel : ℕ
type_pubrel = 6

abbrev pub type_subscribe : ℕ
type_subscribe = 8

abbrev pub type_unsubscribe : ℕ
type_unsubscribe = 10

abbrev pub type_max : ℕ
type_max = 14

unfoldable pub bad_flags : ℕ → ℕ → Bool
bad_flags type flags =
    if type == type_pubrel || type == type_subscribe || type == type_unsubscribe
    then not (flags == 2)
    else if type == type_publish
    then bit_and flags 6 == 6 || bit_and flags 14 == 8
    else not (flags == 0)

-- A returned result, the error that goes through `error`, and the header.
pub record Decoded : Type 0 where
  pub result : DecodeResult
  pub error : Option Error
  pub header : FixedHeader

-- The end of `fixed_header_decode` with an error, and without.
abbrev fail : FixedHeader → Error → Decoded
fail h e = record { result = failed; error = some e; header = record h { error = some e } }

abbrev go_on : DecodeResult → FixedHeader → Decoded
go_on r h = record { result = r; error = none; header = record h { bytes_read = h.bytes_read + 1 } }

-- The first byte.
unfoldable pub decode_type : FixedHeader → ℕ → Decoded
unfolding bad_flags
decode_type h b =
    let type = b / 16 in
    let flags = bit_and b 15 in
    if ltb type type_min || ltb type_max type
    then fail h decode_fixed_header_invalid_type
    else if bad_flags type flags
    then fail h decode_fixed_header_invalid_flags
    else go_on continue (record h {
      type = type;
      dup = if type == type_publish then bit_and flags 8 / 8 else 0;
      qos = if type == type_publish then bit_and flags 6 / 2 else 0;
      retain = if type == type_publish then bit_and flags 1 else 0;
      remain_len_multiplier = 1;
      remain_len_accumulator = 0;
      remain_len_finished = false;
    })

-- A byte of the remaining length.
unfoldable pub decode_length : FixedHeader → ℕ → Decoded
decode_length h b =
    let sum = h.remain_len_accumulator + bit_and b 127 * h.remain_len_multiplier in
    let h' = record h {
      remain_len_accumulator = sum;
      remain_len_multiplier = h.remain_len_multiplier * 128;
    } in
    if ltb (128 * 128) h.remain_len_multiplier && not (bit_and b 128 == 0)
      || ltb 1 h.remain_len_multiplier && b == 0
      || h.remain_len_finished
    then fail h decode_fixed_header_invalid_remaining_length
    else if not (bit_and b 128 == 0)
    then go_on continue h'
    else go_on finished (record h' { remaining_length = sum; remain_len_finished = true })

-- `fixed_header_decode`
unfoldable pub fixed_header_decode : FixedHeader → ℕ → Decoded
unfolding decode_type decode_length
fixed_header_decode h b = elim h.error [
  | some e ↦ record { result = failed; error = some e; header = h }
  | none ↦ if h.bytes_read == 0 then decode_type h b else decode_length h b
]

-- How a run of bytes ends: with a whole header and what follows it, with an error, or before the
-- header is whole.
pub data Fed : Type 0 where
  done : FixedHeader → List ℕ → Fed
  bad : Option Error → Fed
  starved : FixedHeader → Fed

-- The bytes given to `fixed_header_decode` one by one, as `lmqtt_rx_buffer_decode_impl` does.
unfoldable pub feed : FixedHeader → List ℕ → Fed
feed h [] = starved h
feed h (b ∷ bs) =
    let d = fixed_header_decode h b in
    elim d.result [ finished ↦ done d.header bs | continue ↦ feed d.header bs | _ ↦ bad d.error ]
