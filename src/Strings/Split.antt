-- ===== src/Strings/Split.antt =====
-- `string_encode` of an empty string whose two bytes of length are written one at a time.
use lightmqtt.Prelude.{ℕ, ◌<◌, ◌≡◌, refl, arith, true, none, some, [], ◌∷◌}
use lightmqtt.Prelude.Int.{pos}
use lightmqtt.Encode.{EncodeBuffer, Encoded, continue}
use lightmqtt.Strings.{LmqttString, StringWorld, string_encode}

-- An empty string that is encoded with its length (as a client id may be), whatever its source: if
-- the second byte of the length is written into a buffer of one byte, the call asks to be called
-- again, although the encoding is complete, and then every call at the next offset with room for a
-- byte fails its assertion.
pub split_empty_faults :
    {W : Type 0} (str : LmqttString W) (b : EncodeBuffer) (w : W)
    → str.len ≡ pos 0
    → (e : Encoded (StringWorld W)) × (string_encode str true true 1 1 b w ≡ some e)
      × (e.result ≡ continue)
      × (e.written ≡ 0 ∷ [])
      × ((b' : EncodeBuffer) (w' : W) (room : ℕ)
          → 0 < room
          → string_encode e.rest.str true true 2 room b' w' ≡ none)
unfolding string_encode
split_empty_faults str b w empty = (
  record {
    result = continue;
    written = 0 ∷ [];
    buffer = record b { blocking_str = none };
    rest = record { str = str; world = w };
  },
  ground (arith, empty),
  refl,
  refl,
  λ b' w' room h. ground (arith, empty),
)
