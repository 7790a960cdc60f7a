-- ===== src/Encode.antt =====
-- src/lmqtt_packet.c, `lmqtt_encode_buffer_t`: the buffer in which a small part of a packet is built,
-- and from which it is sent piece by piece. `none` is a fault: an assertion fails.
pub mod Pieces
pub mod PacketId
mod Tests
use lightmqtt.Prelude.{ℕ, zero, suc, ◌+◌, ◌-◌, ◌*◌, ◌/◌, ◌%◌, ◌^◌, Bool, true, false, ◌&&◌}
use lightmqtt.Prelude.{Option, none, some, List, [], ◌∷◌, ◌++◌, ltb, leb, if◌then◌else◌}
use lightmqtt.Prelude.{length, take, drop, write_at, replicate}
use lightmqtt.Prelude.Int.{ℤ}
use lightmqtt.Core.{Error}
use lightmqtt.Header.{encode_remaining_length}

-- `lmqtt_encode_result_t`
pub data EncodeResult : Type 0 where
  finished continue would_block failed : EncodeResult

-- `lmqtt_encode_buffer_t`; `blocking_str` is the address of a string.
pub record EncodeBuffer : Type 0 where
  pub encoded : Bool
  pub buf_len : ℕ
  pub buf : List ℕ
  pub blocking_str : Option ℕ
  pub error : Option Error
  pub os_error : ℕ

-- `memset(encode_buffer, 0, sizeof(*encode_buffer))`
abbrev pub zero_buffer : EncodeBuffer
zero_buffer = record {
  encoded = false;
  buf_len = 0;
  buf = replicate 16 0;
  blocking_str = none;
  error = none;
  os_error = 0;
}

-- What an encoder returns: its result, the bytes that it put into the caller's buffer, and what it
-- changed: the encode buffer, the value that it encodes and the outside world.
pub record Encoded (A : Type 0) : Type 0 where
  pub result : EncodeResult
  pub written : List ℕ
  pub buffer : EncodeBuffer
  pub rest : A

abbrev pub Builder : Type 0
Builder = EncodeBuffer → Option EncodeBuffer

infixl 5 ◌>>=◌
abbrev pub ◌>>=◌ {ℓ κ} : {A : Type ℓ} {B : Type κ} → Option A → (A → Option B) → Option B
none >>= f = none
some a >>= f = f a

abbrev pub assert {ℓ} : {A : Type ℓ} → Bool → Option A → Option A
assert true k = k
assert false k = none

-- The buffer with the part built, if it is not there yet.
abbrev pub ensure_built : Builder → EncodeBuffer → Option EncodeBuffer
ensure_built builder b =
    if b.encoded then some b else (builder b >>= λ b'. some (record b' { encoded = true }))

-- The second half of `encode_buffer_encode`: the bytes from `offset` on that `room` holds.
unfoldable pub send_piece : {A : Type 0} → EncodeBuffer → A → ℕ → ℕ → Encoded A
send_piece b a offset room =
    let cnt = b.buf_len - offset in
    if ltb room cnt
    then record { result = continue; written = take room (drop offset b.buf); buffer = b; rest = a }
    else record {
      result = finished;
      written = take cnt (drop offset b.buf);
      buffer = zero_buffer;
      rest = a;
    }

-- `encode_buffer_encode`, for a caller's buffer of `room` bytes.
unfoldable pub encode_buffer_encode :
    {A : Type 0} → Builder → EncodeBuffer → A → ℕ → ℕ → Option (Encoded A)
unfolding send_piece
encode_buffer_encode builder b a offset room = ensure_built builder b >>= λ b'.
    assert (ltb 0 b'.buf_len && ltb offset b'.buf_len) (some (send_piece b' a offset room))

-- `STRING_LEN_BYTE`
abbrev pub string_len_byte : ℕ → ℕ → ℕ
string_len_byte val num = val / 2 ^ (num * 8) % 256

-- The two bytes of a length or of a packet id.
abbrev pub two_bytes : ℕ → List ℕ
two_bytes val = string_len_byte val 1 ∷ string_len_byte val 0 ∷ []

-- A builder's result: the first bytes of `buf` and its length.
abbrev pub built : EncodeBuffer → List ℕ → EncodeBuffer
built b bytes = record b { buf = write_at b.buf 0 bytes; buf_len = length bytes }

-- `encode_buffer_encode_packet_id`
unfoldable pub encode_buffer_encode_packet_id : ℕ → ℤ → ℕ → Builder
encode_buffer_encode_packet_id type remaining_length packet_id b =
    encode_remaining_length remaining_length >>= λ len_bytes.
    assert (leb (length len_bytes + 2 + 1) 16)
      (some (built b (type ∷ (len_bytes ++ two_bytes packet_id))))
