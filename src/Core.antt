-- ===== src/Core.antt =====
-- The enumerations of include/lightmqtt/core.h and packet.h that all parts share.
-- A field of type `lmqtt_error_t` that holds 0 (no error) is `none`.
use lightmqtt.Prelude.{ℕ}

-- `lmqtt_io_result_t`
pub data IoResult : Type 0 where
  io_success io_would_block io_error : IoResult

-- `lmqtt_kind_t`
pub data Kind : Type 0 where
  connect publish_0 publish_1 publish_2 puback pubrec pubrel pubcomp : Kind
  subscribe unsubscribe pingreq disconnect : Kind

-- The value of the enumerator, which the store keeps in an `int`.
abbrev pub kind_code : Kind → ℕ
kind_code connect = 200
kind_code publish_0 = 201
kind_code publish_1 = 202
kind_code publish_2 = 203
kind_code puback = 204
kind_code pubrec = 205
kind_code pubrel = 206
kind_code pubcomp = 207
kind_code subscribe = 208
kind_code unsubscribe = 209
kind_code pingreq = 210
kind_code disconnect = 211

-- `lmqtt_error_t`
pub data Error : Type 0 where
  encode_string : Error
  decode_fixed_header_invalid_type decode_fixed_header_invalid_flags : Error
  decode_fixed_header_invalid_remaining_length decode_fixed_header_server_specific : Error
  decode_nonzero_remaining_length decode_no_corresponding_request : Error
  decode_response_too_short decode_connack_invalid_acknowledge_flags : Error
  decode_connack_invalid_return_code decode_connack_invalid_length : Error
  decode_suback_count_mismatch decode_suback_invalid_return_code : Error
  decode_publish_invalid_length decode_publish_id_set_full : Error
  decode_publish_topic_allocate_failed decode_publish_topic_write_failed : Error
  decode_publish_payload_allocate_failed decode_publish_payload_write_failed : Error
  decode_publish_message_callback_failed decode_pubrel_id_set_full : Error
  connection_read connection_write timeout closed : Error
  connack_unacceptable_protocol_version connack_identifier_rejected : Error
  connack_server_unavailable connack_bad_user_name_or_password connack_not_authorized : Error
  callback_connack callback_suback callback_unsuback callback_publish : Error
