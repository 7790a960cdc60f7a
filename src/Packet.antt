-- ===== src/Packet.antt =====
-- src/lmqtt_packet.c: what the encoders of all packets share, and the lengths of string fields.
use lightmqtt.Prelude.{ℕ, Bool, false, Option, some}
use lightmqtt.Prelude.{ltb, leb, ◌==◌, if◌then◌else◌}
use lightmqtt.Prelude.Int.{ℤ, pos, negsuc, ◌+ℤ◌}
use lightmqtt.Encode.{EncodeBuffer, Encoded, Builder, ◌>>=◌, encode_buffer_encode}
use lightmqtt.Strings.{LmqttString, string_encode}

-- `lmqtt_encoder_t`, for a value of type `A`: it is given the encode buffer, the offset and the room
-- of the caller's buffer.
abbrev pub Encoder : Type 0 → Type 0 → Type 0
Encoder A W = A → EncodeBuffer → ℕ → ℕ → W → Option (Encoded (A × W))

-- An encoder that sends a part that a builder makes.
abbrev pub part_encoder : {A W : Type 0} → (A → Builder) → Encoder A W
part_encoder builder a b offset room w = encode_buffer_encode (builder a) b (a, w) offset room

-- An encoder that sends a string of the value, which it leaves changed.
abbrev pub field_encoder :
    {A W : Type 0} → (A → LmqttString W) → (A → LmqttString W → A) → Bool → Bool → Encoder A W
field_encoder get put encode_len encode_if_empty a b offset room w =
    string_encode (get a) encode_len encode_if_empty offset room b w >>= λ e. some (record {
      result = e.result;
      written = e.written;
      buffer = e.buffer;
      rest = (put a e.rest.str, e.rest.world);
    })

-- `str->len == 0`, `str->len > 0`
abbrev pub is_empty : ℤ → Bool
is_empty (pos n) = n == 0
is_empty (negsuc n) = false

abbrev pub is_positive : ℤ → Bool
is_positive (pos n) = ltb 0 n
is_positive (negsuc n) = false

-- `string_calc_field_length`, `string_validate_field_length`, on the length of a string
unfoldable pub string_calc_field_length : ℤ → ℤ
string_calc_field_length len = if is_positive len then pos 2 +ℤ len else pos 0

unfoldable pub string_validate_field_length : ℤ → Bool
string_validate_field_length (pos n) = leb n 0xffff
string_validate_field_length (negsuc n) = false

-- `IS_VALID_LMQTT_QOS`; the enumeration is unsigned.
abbrev pub is_valid_lmqtt_qos : ℕ → Bool
is_valid_lmqtt_qos x = leb x 2
