-- ===== src/Rx/Finish.antt =====
-- The end of a packet: the callback of the request that it answers.
use lightmqtt.Prelude.{Bool, true, false, ◌&&◌, Option, none, some}
use lightmqtt.Prelude.{leb, ◌==◌, if◌then◌else◌}
use lightmqtt.Core.{
  Error, decode_nonzero_remaining_length, decode_no_corresponding_request,
  decode_connack_invalid_acknowledge_flags, decode_connack_invalid_return_code,
  decode_connack_invalid_length, decode_suback_count_mismatch, decode_suback_invalid_return_code,
  decode_pubrel_id_set_full, connack_unacceptable_protocol_version, connack_identifier_rejected,
  connack_server_unavailable, connack_bad_user_name_or_password, connack_not_authorized, kind_code,
}
use lightmqtt.Core
use lightmqtt.Encode.{assert}
use lightmqtt.Store.{store_append}
use lightmqtt.Rx.State.{StoredCalls, Rx, Decoder, rx_buffer_fail, rx_buffer_reset}
use lightmqtt.Rx.Decoders.{decoder_kind, callback_error}
use lightmqtt.Rx.Decode.{set_store}

module _ {W : Type 0} where
  -- `rx_buffer_is_packet_finished`
  unfoldable pub rx_buffer_is_packet_finished : Rx W → Bool
  rx_buffer_is_packet_finished rx =
      rx.header_finished && leb rx.header.remaining_length rx.remain_buf_pos

module _ {W : Type 0} (calls : StoredCalls W) where
  -- `rx_buffer_call_callback`
  unfoldable pub rx_buffer_call_callback : Rx W → Bool × Rx W
  rx_buffer_call_callback rx = elim rx.value.callback [
    | none ↦ (true, rx)
    | some f ↦
        let (ok, shared) = calls f rx.value.callback_data rx.value.value rx.shared in
        (ok, record rx { shared = shared })
  ]

  -- The callback of a finished packet.
  unfoldable pub rx_finish_callback : Rx W → Decoder → Option (Bool × Rx W)
  unfolding rx_buffer_call_callback rx_buffer_reset rx_buffer_fail
  rx_finish_callback rx d =
      let (ok, rx') = rx_buffer_call_callback rx in
      if ok then some (true, rx_buffer_reset rx') else elim (callback_error d) [
        | none ↦ none
        | some e ↦ some (false, rx_buffer_fail rx' (some e) 0)
      ]

  -- `rx_buffer_finish_packet`: behind a PUBREC the PUBREL of the same value waits.
  unfoldable pub rx_buffer_finish_packet : Rx W → Decoder → Option (Bool × Rx W)
  unfolding rx_finish_callback rx_buffer_reset
  rx_buffer_finish_packet rx d =
      let (ok, store) = store_append rx.shared.store (kind_code Core.Kind.pubrel) (some rx.value) in
      if decoder_kind d == kind_code Core.Kind.publish_2
      then assert ok (some (true, rx_buffer_reset (set_store rx store)))
      else rx_finish_callback rx d

  -- `lmqtt_rx_buffer_finish`
  unfoldable pub rx_buffer_finish : Rx W → Rx W
  unfolding rx_buffer_call_callback
  rx_buffer_finish rx = (rx_buffer_call_callback rx).1
