-- ===== src/Strings.antt =====
-- src/lmqtt_packet.c, `lmqtt_string_t`: a text or payload that stands in memory or passes through a
-- callback. `W` is the state of the outside world, which the callbacks read and change. `none` is a
-- fault: an assertion fails, or a negative length is handed on as a size.
pub mod Encoding
pub mod Split
pub mod Moving
pub mod Whole
mod Tests
use lightmqtt.Prelude.{ℕ, zero, suc, ◌+◌, ◌-◌, ◌%◌, Bool, true, false, not, ◌&&◌, ◌||◌}
use lightmqtt.Prelude.{Option, none, some, List, [], ◌∷◌, ◌++◌, ltb, leb, ◌==◌, if◌then◌else◌}
use lightmqtt.Prelude.{length, take, drop, write_at, min}
use lightmqtt.Prelude.Int.{ℤ, pos, negsuc}
use lightmqtt.Core.{IoResult, io_success, io_would_block, io_error, Error, encode_string}
use lightmqtt.Encode.{
  EncodeResult, finished, continue, would_block, failed, EncodeBuffer, Encoded, ◌>>=◌, assert,
  string_len_byte,
}

-- `lmqtt_string_result_t`
pub data StringResult : Type 0 where
  string_success string_would_block string_os_error string_invalid_object : StringResult

-- What a call of an `lmqtt_io_callback_t` does: its result, the bytes that it moved, the count that
-- it reports (the number of the bytes, if it keeps its contract), the error number of the system and
-- the new world.
pub record Reply (W : Type 0) : Type 0 where
  pub result : IoResult
  pub bytes : List ℕ
  pub count : ℕ
  pub os_error : ℕ
  pub world : W

-- A callback that reads, for a room of so many bytes, and one that writes the given bytes. The
-- pointer `data` is part of the function.
abbrev pub Reader : Type 0 → Type 0
Reader W = ℕ → W → Reply W

abbrev pub Writer : Type 0 → Type 0
Writer W = List ℕ → W → Reply W

-- `lmqtt_string_t`; `addr` is the address of the struct, `pos` is `internal.pos`.
pub record LmqttString (W : Type 0) : Type 0 where
  pub addr : ℕ
  pub len : ℤ
  pub buf : Option (List ℕ)
  pub read : Option (Reader W)
  pub write : Option (Writer W)
  pub pos : ℕ

-- What `string_move` returns and stores.
pub record Moved (W : Type 0) : Type 0 where
  pub result : StringResult
  pub bytes : List ℕ
  pub count : ℕ
  pub os_error : ℕ
  pub str : LmqttString W
  pub world : W

abbrev pub is_some {ℓ} : {A : Type ℓ} → Option A → Bool
is_some none = false
is_some (some a) = true

abbrev pub string_result : IoResult → StringResult
string_result io_success = string_success
string_result io_would_block = string_would_block
string_result io_error = string_os_error

abbrev pub nat_of : ℤ → ℕ
nat_of (pos n) = n
nat_of (negsuc n) = 0

abbrev pub bytes_or_nil : Option (List ℕ) → List ℕ
bytes_or_nil none = []
bytes_or_nil (some bs) = bs

module _ {W : Type 0} where
  abbrev pub unmoved : StringResult → LmqttString W → W → Moved W
  unmoved r str w = record { result = r; bytes = []; count = 0; os_error = 0; str = str; world = w }

  abbrev pub called : Reply W → LmqttString W → Moved W
  called reply str = record {
    result = string_result reply.result;
    bytes = reply.bytes;
    count = reply.count;
    os_error = reply.os_error;
    str = str;
    world = reply.world;
  }

  -- The branch of `string_move` without a callback: `memcpy(dst, src, buf_len)`, where the string
  -- has a buffer.
  abbrev pub move_memory : LmqttString W → ℕ → List ℕ → W → Option (Moved W)
  move_memory str buf_len src w =
      if is_some str.buf
      then assert (leb (str.pos + buf_len) (nat_of str.len)) (
          some (record {
            result = string_success;
            bytes = take buf_len src;
            count = buf_len;
            os_error = 0;
            str = record str { pos = str.pos + buf_len };
            world = w;
          }))
      else some (unmoved string_invalid_object str w)

  -- The branch with a callback.
  abbrev pub move_callback :
      LmqttString W → ℕ → Option (ℕ → W → Reply W) → List ℕ → W → Option (Moved W)
  move_callback str buf_len none src w = move_memory str buf_len src w
  move_callback str buf_len (some callback) src w = some (called (callback buf_len w) str)

  -- `string_move`; `src` is the memory from the pointer `src` on.
  unfoldable pub string_move :
      LmqttString W → ℕ → Option (ℕ → W → Reply W) → List ℕ → W → Option (Moved W)
  string_move str buf_len callback src w =
      if is_some callback && is_some str.buf
      then some (unmoved string_invalid_object str w)
      else if buf_len == 0
      then some (unmoved string_success str w)
      else move_callback str buf_len callback src w

  -- `string_read`
  unfoldable pub string_read : LmqttString W → ℕ → W → Option (Moved W)
  unfolding string_move
  string_read str buf_len w =
      string_move str buf_len str.read (drop str.pos (bytes_or_nil str.buf)) w

  abbrev pub writing : Option (Writer W) → List ℕ → Option (ℕ → W → Reply W)
  writing none buf = none
  writing (some f) buf = some (λ n w. f (take n buf) w)

  -- The bytes that went into the string's own buffer, at the place `at`.
  abbrev pub stored : ℕ → Moved W → Moved W
  stored at m = elim m.str.buf [
    | none ↦ m
    | some old ↦ record m { str = record m.str { buf = some (write_at old at m.bytes) } }
  ]

  -- `string_write`, of the bytes `buf`.
  unfoldable pub string_write : LmqttString W → List ℕ → W → Option (Moved W)
  unfolding string_move
  string_write str buf w =
      string_move str (length buf) (writing str.write buf) buf w >>= λ m. some (stored str.pos m)

abbrev pub ltb_zero : ℤ → Bool
ltb_zero (pos n) = false
ltb_zero (negsuc n) = true

-- How the loop over the two bytes of the length ends: `string_encode` returns, or goes on.
pub data PrefixEnd : Type 0 where
  returned : EncodeResult → List ℕ → PrefixEnd
  passed : List ℕ → PrefixEnd

-- That loop, with `rounds` left, for a string of `len` bytes and a buffer of `room` bytes, of which
-- `out` are written.
unfoldable pub string_encode_len : ℕ → ℕ → ℕ → ℕ → ℕ → List ℕ → PrefixEnd
string_encode_len zero i offset room len out = passed out
string_encode_len (suc rounds) i offset room len out =
    let out' = out ++ (string_len_byte len (2 - i - 1) ∷ []) in
    let on = string_encode_len rounds (i + 1) offset room len out' in
    let skip = string_encode_len rounds (i + 1) offset room len out in
    if leb offset i
    then (if leb room (length out')
        then returned (if leb 2 (length out') && len == 0 then finished else continue) out'
        else on)
    else skip

-- The string and the world that an encoder leaves.
pub record StringWorld (W : Type 0) : Type 0 where
  pub str : LmqttString W
  pub world : W

abbrev pub string_offset : Bool → ℕ → ℕ
string_offset encode_len offset =
    if encode_len then (if leb offset 2 then 0 else offset - 2) else offset

module _ {W : Type 0} where
  -- The result of `string_encode` after its call of `string_read`.
  unfoldable pub string_encode_result :
      Moved W → ℕ → List ℕ → EncodeBuffer → Option (Encoded (StringWorld W))
  string_encode_result m remaining out b =
      let b' = record b { os_error = m.os_error } in
      let end : EncodeResult → EncodeBuffer → Encoded (StringWorld W) = λ r b''. record {
        result = r;
        written = out ++ m.bytes;
        buffer = b'';
        rest = record { str = m.str; world = m.world };
      } in
      assert (leb m.count remaining) (elim m.result [
        | string_would_block ↦ some (end would_block (record b' { blocking_str = some m.str.addr }))
        | string_success ↦
            if leb remaining m.count
            then some (end finished b')
            else if ltb 0 m.count
            then some (end continue b')
            else some (end failed (record b' { error = some encode_string }))
        | _ ↦ some (end failed (record b' { error = some encode_string }))
      ])

  -- The part of `string_encode` behind the length.
  unfoldable pub string_encode_bytes :
      LmqttString W → ℕ → ℕ → ℕ → List ℕ → EncodeBuffer → W → Option (Encoded (StringWorld W))
  unfolding string_encode_result string_read
  string_encode_bytes str len offset_str room out b w =
      let remaining = len - offset_str in
      let str' = if offset_str == 0 then record str { pos = 0 } else str in
      string_read str' (min remaining (room - length out)) w >>= λ m.
      string_encode_result m remaining out b

  -- `string_encode`, for a buffer of `room` bytes. A negative length is a fault at once, where the
  -- code may first write bytes of the length.
  unfoldable pub string_encode :
      LmqttString W → Bool → Bool → ℕ → ℕ → EncodeBuffer → W → Option (Encoded (StringWorld W))
  unfolding string_encode_len string_encode_bytes
  string_encode str encode_len encode_if_empty offset room b w =
      let len = nat_of str.len in
      let b' = record b { blocking_str = none } in
      let end : EncodeResult → List ℕ → Encoded (StringWorld W) = λ r out. record {
        result = r;
        written = out;
        buffer = b';
        rest = record { str = str; world = w };
      } in
      let prefix = string_encode_len (if encode_len then 2 else 0) 0 offset room len [] in
      if not (ltb_zero str.len) && (len == 0) && not encode_if_empty
      then some (end finished [])
      else if room == 0
      then some (end continue [])
      else if ltb_zero str.len
      then none
      else assert (ltb offset (len + (if encode_len then 2 else 0))) (elim prefix [
        | returned r out ↦ some (end r out)
        | passed out ↦ string_encode_bytes str len (string_offset encode_len offset) room out b' w
      ])
