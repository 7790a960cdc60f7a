-- ===== src/Strings/Encoding.antt =====
-- `string_encode` of a string in memory, piece by piece.
use lightmqtt.Prelude.{
  ℕ, zero, suc, ◌+◌, ◌-◌, ◌≤◌, ◌<◌, ◌≡◌, ◌≢◌, refl, sym, ap, ap₂, ◌∙◌, arith, min,
}
use lightmqtt.Prelude.{Bool, true, false, not, ◌&&◌, none, some, List, [], ◌∷◌, ◌++◌}
use lightmqtt.Prelude.{leb, ◌==◌, if◌then◌else◌, length, take, drop, take_all, length-drop}
use lightmqtt.Prelude.{Bool-cases, inl, inr, ◌⊎◌}
use lightmqtt.Prelude.Int.{pos}
use lightmqtt.Encode.{
  EncodeResult, finished, continue, EncodeBuffer, Encoded, two_bytes, string_len_byte,
}
use lightmqtt.Strings.{
  LmqttString, StringWorld, Moved, string_success, string_read, string_encode_result,
  string_encode_bytes, string_encode_len, string_encode, string_offset, returned, passed,
}

-- The string stands in memory, and holds `bs`.
pub record IsMemory {W : Type 0} (str : LmqttString W) (bs : List ℕ) : Type 0 where
  pub len_eq : str.len ≡ pos (length bs)
  pub buf_eq : str.buf ≡ some bs
  pub no_read : str.read ≡ none

-- The bytes left, cut to the room.
take-room : (r : ℕ) (xs : List ℕ) → take (min (length xs) r) xs ≡ take r xs
take-room r xs = elim (Bool-cases (leb (length xs) r)) [
  | inl all ↦
      let e : min (length xs) r ≡ length xs = ground arith in
      ap (λ n. take n xs) e
      ∙ take_all (length xs) xs (omega arith)
      ∙ sym (take_all r xs (ground arith))
  | inr cut ↦ let e : min (length xs) r ≡ r = ground arith in ap (λ n. take n xs) e
]

module _ {W : Type 0} (str : LmqttString W) (bs : List ℕ) (m : IsMemory str bs) (w : W) where
  -- What `string_read` gives at place `q`.
  abbrev read_at : ℕ → ℕ → Moved W
  read_at q k = record {
    result = string_success;
    bytes = take k (drop q bs);
    count = k;
    os_error = 0;
    str = record str { pos = q + k };
    world = w;
  }

  read_memory :
      (q k : ℕ) → q + k ≤ length bs → string_read (record str { pos = q }) k w ≡ some (read_at q k)
  unfolding string_read
  read_memory q zero h = ground arith
  read_memory q (suc k) h = ground arith

  -- What `string_encode` writes behind the bytes `out` of the length, from place `q` on.
  abbrev piece_at : EncodeBuffer → ℕ → ℕ → List ℕ → Encoded (StringWorld W)
  piece_at b q room out = record {
    result = if leb (length bs - q) (room - length out) then finished else continue;
    written = out ++ take (min (length bs - q) (room - length out)) (drop q bs);
    buffer = record b { os_error = 0 };
    rest = record {
      str = record str { pos = q + min (length bs - q) (room - length out) };
      world = w;
    };
  }

  -- `internal.pos` is where the last call stopped, but counts for nothing at the first byte.
  abbrev pub IsAt : ℕ → Type 0
  IsAt q = (q ≡ 0) ⊎ (str.pos ≡ q)

  at_place :
      (q : ℕ) → IsAt q → (if q == 0 then record str { pos = 0 } else str) ≡ record str { pos = q }
  at_place zero h = refl
  at_place (suc q) (inl e) = absurd (omega arith)
  at_place (suc q) (inr e) = ground arith

  encode_bytes_memory :
      (q room : ℕ) (out : List ℕ) (b : EncodeBuffer)
      → IsAt q
      → q ≤ length bs
      → length out < room
      → string_encode_bytes str (length bs) q room out b w ≡ some (piece_at b q room out)
  unfolding string_encode_bytes string_encode_result
  encode_bytes_memory q room out b at h space =
      ground (arith, at_place q at, read_memory q (min (length bs - q) (room - length out)))

  abbrev unblocked : EncodeBuffer → EncodeBuffer
  unblocked b = record b { blocking_str = none }

  abbrev early : EncodeResult → List ℕ → EncodeBuffer → Encoded (StringWorld W)
  early r out b = record {
    result = r;
    written = out;
    buffer = b;
    rest = record { str = str; world = w };
  }

  module _ (encode_len encode_if_empty : Bool) (offset room : ℕ) (b : EncodeBuffer) where
    -- The call is one that the code makes: something is left to write, and there is room.
    pub record IsCall : Type 0 where
      pub wanted : (length bs == 0 && not encode_if_empty) ≡ false
      pub left : offset < length bs + (if encode_len then 2 else 0)
      pub space : 0 < room
      pub at : IsAt (string_offset encode_len offset)

    -- The bytes of the length do not fill the buffer.
    encode_passed :
        (out : List ℕ)
        → IsCall
        → string_encode_len (if encode_len then 2 else 0) 0 offset room (length bs) [] ≡ passed out
        → length out < room
        → string_encode str encode_len encode_if_empty offset room b w
          ≡ some (piece_at (unblocked b) (string_offset encode_len offset) room out)
    unfolding string_encode
    encode_passed out c e small =
        ground
          (arith, e, encode_bytes_memory (string_offset encode_len offset) room out (unblocked b))

    -- The bytes of the length fill the buffer.
    encode_returned :
        (r : EncodeResult) (out : List ℕ)
        → IsCall
        → string_encode_len (if encode_len then 2 else 0) 0 offset room (length bs) []
          ≡ returned r out
        → string_encode str encode_len encode_if_empty offset room b w
          ≡ some (early r out (unblocked b))
    unfolding string_encode
    encode_returned r out c e = ground (arith, e)

    -- What the encoding of the string is.
    abbrev pub encoding : List ℕ
    encoding = if encode_len then two_bytes (length bs) ++ bs else bs

    -- The piece of the encoding that starts at `offset` was written, and the string is ready for the
    -- next one.
    pub record IsPiece (e : Encoded (StringWorld W)) : Type 0 where
      pub piece : e.written ≡ take room (drop offset encoding)
      pub ends : e.result ≡ (if leb (length encoding) (offset + room) then finished else continue)
      pub no_error : e.buffer.error ≡ b.error
      pub unblocked_eq : e.buffer.blocking_str ≡ none
      pub kept : (e.buffer.encoded ≡ b.encoded) × (e.buffer.buf ≡ b.buf)
      pub same_world : e.rest.world ≡ w
      pub moved : (n : ℕ) × (e.rest.str ≡ record str { pos = n })
      pub next :
          (e.result ≡ continue)
          → (string_offset encode_len (offset + room) ≡ 0)
            ⊎ (e.rest.str.pos ≡ string_offset encode_len (offset + room))

-- A piece behind the bytes `out` of the length.
piece_at-IsPiece :
    {W : Type 0} (str : LmqttString W) (bs : List ℕ) (m : IsMemory str bs) (w : W)
    (encode_len encode_if_empty : Bool) (offset room : ℕ) (b : EncodeBuffer) (out : List ℕ)
    → let q = string_offset encode_len offset in
      length out < room
      → q ≤ length bs
      → out ++ take (room - length out) (drop q bs)
        ≡ take room (drop offset (encoding str bs m w encode_len encode_if_empty offset room b))
      → length bs - q + length out + offset
        ≡ length (encoding str bs m w encode_len encode_if_empty offset room b)
      → (room - length out < length bs - q
          → string_offset encode_len (offset + room) ≡ q + (room - length out))
      → IsPiece str bs m w encode_len encode_if_empty offset room b
          (piece_at str bs m w (record b { blocking_str = none }) q room out)
piece_at-IsPiece str bs m w el eie offset room b out small inside same size next = record {
  piece = ap (λ xs. out ++ xs) (rest (length-drop q bs)) ∙ same;
  ends = ground (arith, size);
  no_error = refl;
  unblocked_eq = refl;
  kept = (refl, refl);
  same_world = refl;
  moved = (q + min (length bs - q) (room - length out), refl);
  next = λ c. inr (ground (arith, next));
}
  where
    q : ℕ
    q = string_offset el offset

    rest :
        length (drop q bs) ≡ length bs - q
        → take (min (length bs - q) (room - length out)) (drop q bs)
          ≡ take (room - length out) (drop q bs)
    rest e = rw (← e) (take-room (room - length out) (drop q bs))

-- A call that returns inside the length.
early-IsPiece :
    {W : Type 0} (str : LmqttString W) (bs : List ℕ) (m : IsMemory str bs) (w : W)
    (encode_if_empty : Bool) (offset room : ℕ) (b : EncodeBuffer) (r : EncodeResult) (out : List ℕ)
    → out ≡ take room (drop offset (two_bytes (length bs) ++ bs))
    → r ≡ (if leb (length bs + 2) (offset + room) then finished else continue)
    → offset + room ≤ 2
    → IsPiece str bs m w true encode_if_empty offset room b
        (early str bs m w r out (record b { blocking_str = none }))
early-IsPiece str bs m w eie offset room b r out same ends few = record {
  piece = same;
  ends = ground (arith, ends);
  no_error = refl;
  unblocked_eq = refl;
  kept = (refl, refl);
  same_world = refl;
  moved = (str.pos, refl);
  next = λ _. inl (ground arith);
}

-- The call that the code gets wrong: the last byte of the length of an empty string, alone.
abbrev pub IsSplitEmpty : List ℕ → Bool → ℕ → ℕ → Type 0
IsSplitEmpty bs encode_len offset room =
    (encode_len ≡ true) × (length bs ≡ 0) × (offset ≡ 1) × (room ≡ 1)

abbrev Outcome :
    {W : Type 0} (str : LmqttString W) (bs : List ℕ) (m : IsMemory str bs) (w : W)
    (encode_len encode_if_empty : Bool) (offset room : ℕ) (b : EncodeBuffer)
    → Type 0
Outcome {W} str bs m w el eie offset room b =
    (e : Encoded (StringWorld W)) × (string_encode str el eie offset room b w ≡ some e)
    × IsPiece str bs m w el eie offset room b e

-- A call of `string_encode` on a string in memory, which has room for a byte, starts at an offset
-- within the encoding (the two bytes of the length, if they are wanted, and the bytes of the string)
-- and finds the string at the place of that offset, returns, unless the string is empty and nothing is
-- to be written for an empty one, or the call has room for one byte and starts at the second byte of
-- the length of an empty string. It writes the bytes of the encoding from `offset` on that the room
-- holds, finishes exactly if these are the last ones, changes of the string only the place, sets no
-- error, keeps what the encode buffer holds, and leaves the string at the place where the next call
-- goes on.
pub string_encode_piece :
    {W : Type 0} (str : LmqttString W) (bs : List ℕ) (m : IsMemory str bs) (w : W)
    (encode_len encode_if_empty : Bool) (offset room : ℕ) (b : EncodeBuffer)
    → IsCall str bs m w encode_len encode_if_empty offset room b
    → ¬ IsSplitEmpty bs encode_len offset room
    → Outcome str bs m w encode_len encode_if_empty offset room b
unfolding string_encode_len
string_encode_piece str bs m w false eie offset room b c ok = (
  _,
  encode_passed str bs m w false eie offset room b [] c refl c.space,
  piece_at-IsPiece str bs m w false eie offset room b [] c.space (omega arith)
      (let e : room - 0 ≡ room = omega arith in ap (λ n. take n (drop offset bs)) e) (omega arith)
      (λ _. omega arith),
)
string_encode_piece str bs m w true eie offset zero b c ok = absurd (omega (arith, c.space))
string_encode_piece str bs m w true eie zero (suc zero) b c ok = (
  _,
  encode_returned str bs m w true eie 0 1 b continue (string_len_byte (length bs) 1 ∷ []) c refl,
  early-IsPiece str bs m w eie 0 1 b continue _ refl (ground arith) (omega arith),
)
string_encode_piece str bs m w true eie zero (suc (suc zero)) b c ok =
    let r : EncodeResult = if length bs == 0 then finished else continue in
    (
      _,
      encode_returned str bs m w true eie 0 2 b r (two_bytes (length bs)) c refl,
      early-IsPiece str bs m w eie 0 2 b r (two_bytes (length bs)) refl (ground arith)
          (omega arith),
    )
string_encode_piece str bs m w true eie zero (suc (suc (suc r))) b c ok =
    let room : ℕ = suc (suc (suc r)) in
    let e : room - 2 ≡ suc r = omega arith in
    (
      _,
      encode_passed str bs m w true eie 0 room b (two_bytes (length bs)) c (ground arith)
          (omega arith),
      piece_at-IsPiece str bs m w true eie 0 room b (two_bytes (length bs)) (omega arith)
          (omega arith) (ap (λ n. two_bytes (length bs) ++ take n bs) e) (omega arith)
          (λ _. ground arith),
    )
string_encode_piece str bs m w true eie (suc zero) (suc zero) b c ok = (
  _,
  encode_returned str bs m w true eie 1 1 b continue (string_len_byte (length bs) 0 ∷ []) c refl,
  early-IsPiece str bs m w eie 1 1 b continue _ refl (ground (arith, some_byte)) (omega arith),
)
  where
    some_byte : length bs ≢ 0
    some_byte z = ok (refl, z, refl, refl)
string_encode_piece str bs m w true eie (suc zero) (suc (suc r)) b c ok =
    let room : ℕ = suc (suc r) in
    let low : List ℕ = string_len_byte (length bs) 0 ∷ [] in
    let e : room - 1 ≡ suc r = omega arith in
    (
      _,
      encode_passed str bs m w true eie 1 room b low c (ground arith) (omega arith),
      piece_at-IsPiece str bs m w true eie 1 room b low (omega arith) (omega arith)
          (ap (λ n. low ++ take n bs) e) (omega arith) (λ _. ground arith),
    )
string_encode_piece str bs m w true eie (suc (suc o)) (suc r) b c ok =
    let e : string_offset true (suc (suc o)) ≡ o = ground arith in
    let d : suc r - 0 ≡ suc r = omega arith in
    (
      _,
      encode_passed str bs m w true eie (suc (suc o)) (suc r) b [] c (ground arith) (omega arith),
      piece_at-IsPiece str bs m w true eie (suc (suc o)) (suc r) b [] (omega arith)
          (omega (arith, e, c.left)) (ap₂ (λ n k. take n (drop k bs)) d e)
          (omega (arith, e, c.left)) (λ _. ground arith),
    )
