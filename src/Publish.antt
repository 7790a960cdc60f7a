-- ===== src/Publish.antt =====
-- src/lmqtt_packet.c, `lmqtt_publish_t`: the PUBLISH packet.
pub mod Header
pub mod Negative
mod Tests
use lightmqtt.Prelude.{ℕ, ◌*◌, ◌%◌, Bool, true, false, not, ◌&&◌, Option, none, some, List, [], ◌∷◌}
use lightmqtt.Prelude.{ltb, ◌==◌, if◌then◌else◌, bit_or}
use lightmqtt.Prelude.Int.{ℤ, pos, ◌+ℤ◌, ltb_ℤ}
use lightmqtt.Header.{encode_remaining_length}
use lightmqtt.Encode.{Builder, ◌>>=◌, assert, built, two_bytes}
use lightmqtt.Strings.{LmqttString}
use lightmqtt.Packet.{
  Encoder, part_encoder, field_encoder, is_positive, string_validate_field_length,
  is_valid_lmqtt_qos,
}

-- `lmqtt_publish_t`; `encode_count` is `internal.encode_count`.
pub record Publish (W : Type 0) : Type 0 where
  pub qos : ℕ
  pub retain : Bool
  pub topic : LmqttString W
  pub payload : LmqttString W
  pub encode_count : ℕ

-- The type, retain, QoS and dup bits.
unfoldable pub publish_type_byte : Bool → ℕ → Bool → ℕ
publish_type_byte retain qos again =
    bit_or (bit_or (bit_or 0x30 (if retain then 1 else 0)) (qos * 2 % 256)) (if again then 8 else 0)

module _ {W : Type 0} where
  -- `publish_calc_remaining_length`
  unfoldable pub publish_calc_remaining_length : Publish W → ℤ
  publish_calc_remaining_length p =
      pos 2 +ℤ p.topic.len +ℤ (if p.qos == 0 then pos 0 else pos 2) +ℤ p.payload.len

  -- `lmqtt_publish_validate`
  unfoldable pub publish_validate : Publish W → Bool
  unfolding string_validate_field_length
  publish_validate p =
      string_validate_field_length p.topic.len
      && is_positive p.topic.len
      && is_valid_lmqtt_qos p.qos
      && not (ltb_ℤ (pos 0xfffffff) (publish_calc_remaining_length p))

  -- `publish_build_fixed_header`
  unfoldable pub publish_build_fixed_header : Publish W → Builder
  unfolding publish_type_byte
  publish_build_fixed_header p b = assert (publish_validate p) (
      encode_remaining_length (publish_calc_remaining_length p) >>= λ bs.
      some (built b (publish_type_byte p.retain p.qos (ltb 0 p.encode_count) ∷ bs)))

  -- `publish_encode_fixed_header`
  unfoldable pub publish_encode_fixed_header : Encoder (Publish W) W
  unfolding publish_build_fixed_header
  publish_encode_fixed_header = part_encoder publish_build_fixed_header

  -- `publish_encode_topic`
  unfoldable pub publish_encode_topic : Encoder (Publish W) W
  publish_encode_topic = field_encoder (λ p. p.topic) (λ p s. record p { topic = s }) true true

  -- `publish_build_packet_id`, for the packet id of the stored value
  unfoldable pub publish_build_packet_id : ℕ → Publish W → Builder
  publish_build_packet_id packet_id p b = some (built b (two_bytes packet_id))

  -- `publish_encode_packet_id`
  unfoldable pub publish_encode_packet_id : ℕ → Encoder (Publish W) W
  unfolding publish_build_packet_id
  publish_encode_packet_id packet_id = part_encoder (publish_build_packet_id packet_id)

  -- `publish_encode_payload`
  unfoldable pub publish_encode_payload : Encoder (Publish W) W
  publish_encode_payload =
      field_encoder (λ p. p.payload) (λ p s. record p { payload = s }) false false
