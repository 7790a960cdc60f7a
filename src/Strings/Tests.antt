-- ===== src/Strings/Tests.antt =====
-- Runs of `string_encode` and `string_write`.
use lightmqtt.Prelude.{ℕ, ◌+◌, ◌<◌, ◌≡◌, refl, arith, true, none, some, List, [], ◌∷◌, ◌++◌, length}
use lightmqtt.Prelude.{take, inr}
use lightmqtt.Prelude.Int.{pos}
use lightmqtt.Encode.{EncodeBuffer, zero_buffer, Encoded, continue}
use lightmqtt.Strings.{LmqttString, StringWorld, string_encode}
use lightmqtt.Strings.Encoding.{IsMemory, IsPiece, string_encode_piece}
use lightmqtt.Strings.Split.{split_empty_faults}
use lightmqtt.Strings.Moving.{write_all, flat, write_all-flat}

abbrev text : List ℕ
text = b'a' ∷ b'b' ∷ b'c' ∷ []

abbrev at_place : ℕ → List ℕ → LmqttString Unit
at_place n bs = record {
  addr = 1;
  len = pos (length bs);
  buf = some bs;
  read = none;
  write = none;
  pos = n;
}

abbrev text-IsMemory : IsMemory (at_place 1 text) text
text-IsMemory = record { len_eq = refl; buf_eq = refl; no_read = refl }

-- The call for the second character, in a buffer of one byte.
string_encode_piece_example :
    (e : Encoded (StringWorld Unit)) × (string_encode (at_place 1 text) true true 3 1 zero_buffer tt
      ≡ some e)
    × IsPiece (at_place 1 text) text text-IsMemory tt true true 3 1 zero_buffer e
string_encode_piece_example =
    string_encode_piece (at_place 1 text) text text-IsMemory tt true true 3 1 zero_buffer
      (record { wanted = refl; left = omega arith; space = omega arith; at = inr refl })
      (λ (_, n, _, _). omega (arith, n))

split_empty_example :
    (e : Encoded (StringWorld Unit)) × (string_encode (at_place 0 []) true true 1 1 zero_buffer tt
      ≡ some e)
    × (e.result ≡ continue)
    × (e.written ≡ 0 ∷ [])
    × ((b' : EncodeBuffer) (w' : Unit) (room : ℕ)
        → 0 < room
        → string_encode e.rest.str true true 2 room b' w' ≡ none)
split_empty_example = split_empty_faults (at_place 0 []) zero_buffer tt refl

abbrev pieces : List (List ℕ)
pieces = (1 ∷ 2 ∷ []) ∷ [] ∷ (3 ∷ []) ∷ []

write_all-flat_example :
    (mem' : List ℕ) × (write_all (at_place 1 (9 ∷ 0 ∷ 0 ∷ 0 ∷ 0 ∷ [])) pieces tt
      ≡ some (record (at_place 1 (9 ∷ 0 ∷ 0 ∷ 0 ∷ 0 ∷ [])) {
        buf = some mem';
        pos = 1 + length (flat pieces);
      }))
    × (take (1 + length (flat pieces)) mem' ≡ take 1 (9 ∷ 0 ∷ 0 ∷ 0 ∷ 0 ∷ []) ++ flat pieces)
    × (length mem' ≡ 5)
write_all-flat_example =
    write_all-flat pieces (at_place 1 (9 ∷ 0 ∷ 0 ∷ 0 ∷ 0 ∷ [])) (9 ∷ 0 ∷ 0 ∷ 0 ∷ 0 ∷ []) tt
      (record { len_eq = refl; buf_eq = refl; no_write = refl }) (omega arith)
