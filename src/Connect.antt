-- ===== src/Connect.antt =====
-- src/lmqtt_packet.c, `lmqtt_connect_t`: the CONNECT packet.
pub mod Flags
pub mod Lengths
mod Tests
use lightmqtt.Prelude.{ℕ, ◌*◌, ◌%◌, Bool, true, false, not, ◌&&◌, ◌||◌, Option, none, some, List}
use lightmqtt.Prelude.{[], ◌∷◌, ◌++◌, if◌then◌else◌, bit_or}
use lightmqtt.Prelude.Int.{ℤ, pos, ◌+ℤ◌}
use lightmqtt.Header.{encode_remaining_length}
use lightmqtt.Encode.{Builder, ◌>>=◌, built, two_bytes}
use lightmqtt.Strings.{LmqttString}
use lightmqtt.Packet.{
  Encoder, part_encoder, field_encoder, is_empty, is_positive, string_calc_field_length,
  string_validate_field_length, is_valid_lmqtt_qos,
}

-- `lmqtt_connect_t`
pub record Connect (W : Type 0) : Type 0 where
  pub keep_alive : ℕ
  pub clean_session : Bool
  pub will_qos : ℕ
  pub will_retain : Bool
  pub client_id : LmqttString W
  pub will_topic : LmqttString W
  pub will_message : LmqttString W
  pub user_name : LmqttString W
  pub password : LmqttString W
  pub session_present : ℕ

abbrev pub xor : Bool → Bool → Bool
xor true b = not b
xor false b = b

-- The flags of the variable header; a flag is or-ed in if its condition holds.
abbrev pub with_flag : Bool → ℕ → ℕ → ℕ
with_flag true flag flags = bit_or flags flag
with_flag false flag flags = flags

unfoldable pub connect_flags : ℕ → Bool → Bool → Bool → Bool → Bool → ℕ
connect_flags will_qos clean_session will_retain has_will has_user_name has_password =
    with_flag has_password 0x40 (
      with_flag has_user_name 0x80 (
        with_flag has_will 0x04
          (with_flag will_retain 0x20 (with_flag clean_session 0x02 (will_qos * 8 % 256)))))

module _ {W : Type 0} where
  -- `connect_calc_remaining_length`
  unfoldable pub connect_calc_remaining_length : Connect W → ℤ
  connect_calc_remaining_length c =
      pos 10
      +ℤ pos 2
      +ℤ c.client_id.len
      +ℤ string_calc_field_length c.will_topic.len
      +ℤ string_calc_field_length c.will_message.len
      +ℤ string_calc_field_length c.user_name.len
      +ℤ string_calc_field_length c.password.len

  -- `connect_build_fixed_header`
  unfoldable pub connect_build_fixed_header : Connect W → Builder
  unfolding connect_calc_remaining_length
  connect_build_fixed_header c b =
      encode_remaining_length (connect_calc_remaining_length c) >>= λ bs. some (built b (16 ∷ bs))

  -- `connect_build_variable_header`: the name and level of the protocol, flags and keep-alive.
  unfoldable pub connect_build_variable_header : Connect W → Builder
  unfolding connect_flags
  connect_build_variable_header c b = some (
      built b (
        0
        ∷ 4
        ∷ b'M'
        ∷ b'Q'
        ∷ b'T'
        ∷ b'T'
        ∷ 4
        ∷ connect_flags c.will_qos c.clean_session c.will_retain (is_positive c.will_topic.len)
            (is_positive c.user_name.len) (is_positive c.password.len)
        ∷ two_bytes c.keep_alive))

  -- `connect_encode_fixed_header`
  unfoldable pub connect_encode_fixed_header : Encoder (Connect W) W
  unfolding connect_build_fixed_header
  connect_encode_fixed_header = part_encoder connect_build_fixed_header

  -- `connect_encode_variable_header`
  unfoldable pub connect_encode_variable_header : Encoder (Connect W) W
  unfolding connect_build_variable_header
  connect_encode_variable_header = part_encoder connect_build_variable_header

  -- `connect_encode_payload_client_id`
  unfoldable pub connect_encode_payload_client_id : Encoder (Connect W) W
  connect_encode_payload_client_id =
      field_encoder (λ c. c.client_id) (λ c s. record c { client_id = s }) true true

  -- `connect_encode_payload_will_topic`
  unfoldable pub connect_encode_payload_will_topic : Encoder (Connect W) W
  connect_encode_payload_will_topic =
      field_encoder (λ c. c.will_topic) (λ c s. record c { will_topic = s }) true false

  -- `connect_encode_payload_will_message`
  unfoldable pub connect_encode_payload_will_message : Encoder (Connect W) W
  connect_encode_payload_will_message =
      field_encoder (λ c. c.will_message) (λ c s. record c { will_message = s }) true false

  -- `connect_encode_payload_user_name`
  unfoldable pub connect_encode_payload_user_name : Encoder (Connect W) W
  connect_encode_payload_user_name =
      field_encoder (λ c. c.user_name) (λ c s. record c { user_name = s }) true false

  -- `connect_encode_payload_password`
  unfoldable pub connect_encode_payload_password : Encoder (Connect W) W
  connect_encode_payload_password =
      field_encoder (λ c. c.password) (λ c s. record c { password = s }) true false

  -- `lmqtt_connect_validate`
  unfoldable pub connect_validate : Connect W → Bool
  unfolding string_validate_field_length
  connect_validate c =
      if not (string_validate_field_length c.client_id.len)
        || not (string_validate_field_length c.will_topic.len)
        || not (string_validate_field_length c.will_message.len)
        || not (string_validate_field_length c.user_name.len)
        || not (string_validate_field_length c.password.len)
      then false
      else if xor (is_empty c.will_topic.len) (is_empty c.will_message.len)
      then false
      else if is_empty c.will_topic.len && c.will_retain
      then false
      else if is_empty c.client_id.len && not c.clean_session
      then false
      else if is_empty c.user_name.len && not (is_empty c.password.len)
      then false
      else if not (is_valid_lmqtt_qos c.will_qos)
      then false
      else true
