-- ===== src/Rx/Decode.antt =====
-- The decoders of CONNACK and SUBACK, and what all decoders share. `none` is a fault.
use lightmqtt.Prelude.{
  ℕ, ◌+◌, ◌-◌, Bool, true, false, not, ◌&&◌, ◌||◌, Option, none, some, List, [], ◌∷◌,
}
use lightmqtt.Prelude.{get_elem?, set, ltb, leb, ◌==◌, if◌then◌else◌, bit_and}
use lightmqtt.Prelude.Int.{ℤ, pos, negsuc}
use lightmqtt.Core.{
  Error, decode_nonzero_remaining_length, decode_no_corresponding_request,
  decode_connack_invalid_acknowledge_flags, decode_connack_invalid_return_code,
  decode_connack_invalid_length, decode_suback_count_mismatch, decode_suback_invalid_return_code,
  decode_pubrel_id_set_full, connack_unacceptable_protocol_version, connack_identifier_rejected,
  connack_server_unavailable, connack_bad_user_name_or_password, connack_not_authorized, kind_code,
}
use lightmqtt.Core
use lightmqtt.Header.{DecodeResult, finished, continue, failed}
use lightmqtt.IdSet.{id_set_remove}
use lightmqtt.Encode.{◌>>=◌, assert}
use lightmqtt.Strings.{nat_of}
use lightmqtt.Store.{Store, zero_value, store_append, store_pop_marked_by}
use lightmqtt.Subscribe.{Subscribe, array}
use lightmqtt.Tx.Parts.{
  Heap, connect_object, subscribe_object, as_connect, as_subscribe, load, store_object,
}
use lightmqtt.Rx.State.{
  MessageCallbacks, Rx, Decoder, connack, publish, pubrel, suback, pingresp, rx_buffer_fail,
  Decoding,
}
use lightmqtt.Rx.Decoders.{decoder_kind, decodes_with_id, pops_without_id}
use lightmqtt.Rx.Publish.{rx_buffer_decode_publish, or_byte}

-- `LMQTT_ERROR_CONNACK_BASE + b`, for a return code from 1 to 5
abbrev pub connack_error : ℕ → Error
connack_error b =
    if b == 1
    then connack_unacceptable_protocol_version
    else if b == 2
    then connack_identifier_rejected
    else if b == 3
    then connack_server_unavailable
    else if b == 4
    then connack_bad_user_name_or_password
    else connack_not_authorized

abbrev pub is_count : ℤ → ℕ → Bool
is_count (pos n) m = n == m
is_count (negsuc n) m = false

module _ {W : Type 0} where
  abbrev pub set_heap : Rx W → Heap W → Rx W
  set_heap rx heap = record rx { shared = record rx.shared { heap = heap } }

  abbrev pub set_store : Rx W → Store → Rx W
  set_store rx store = record rx { shared = record rx.shared { store = store } }

  abbrev pub fails : Rx W → Error → ℕ → Option (Decoding W)
  fails rx error written = some (record {
    result = failed;
    written = written;
    rx = record rx { error = some error; os_error = 0 };
  })

  -- `rx_buffer_decode_connack`
  unfoldable pub rx_buffer_decode_connack : Rx W → List ℕ → Option (Decoding W)
  rx_buffer_decode_connack rx [] = none
  rx_buffer_decode_connack rx (b ∷ bs) =
      if rx.remain_buf_pos == 0
      then (if not (bit_and b 0xfe == 0)
          then fails rx decode_connack_invalid_acknowledge_flags 0
          else (load as_connect rx.shared.heap rx.value.value >>= λ (at, c). some (record {
            result = continue;
            written = 1;
            rx = set_heap rx (
                store_object rx.shared.heap at (connect_object (record c { session_present = b })));
          })))
      else if rx.remain_buf_pos == 1
      then (if ltb 5 b
          then fails rx decode_connack_invalid_return_code 0
          else if not (b == 0)
          then fails rx (connack_error b) 1
          else some (record { result = finished; written = 1; rx = rx }))
      else fails rx decode_connack_invalid_length 0

  -- `subscribe->subscriptions[pos].return_code = b`
  abbrev pub set_return_code : Subscribe W → ℕ → ℕ → Option (Subscribe W)
  set_return_code s place b = get_elem? (array s) place >>= λ sub.
      some
        (record s { subscriptions = some (set (array s) place (record sub { return_code = b })) })

  -- `rx_buffer_decode_suback`; its `pos` is never negative.
  unfoldable pub rx_buffer_decode_suback : Rx W → List ℕ → Option (Decoding W)
  rx_buffer_decode_suback rx [] = none
  rx_buffer_decode_suback rx (b ∷ bs) =
      let place = rx.remain_buf_pos - 2 in
      load as_subscribe rx.shared.heap rx.value.value >>= λ (at, s).
      if (place == 0) && not (is_count s.count (rx.header.remaining_length - 2))
      then fails rx decode_suback_count_mismatch 0
      else if ltb 2 b && not (b == 0x80)
      then fails rx decode_suback_invalid_return_code 0
      else (set_return_code s place b >>= λ s'. some (record {
        result = if leb (nat_of s.count) (place + 1) then finished else continue;
        written = 1;
        rx = set_heap rx (store_object rx.shared.heap at (subscribe_object s'));
      }))

  -- `rx_buffer_pop_packet`
  unfoldable pub rx_buffer_pop_packet : Rx W → Decoder → ℕ → Bool × Rx W
  unfolding rx_buffer_fail
  rx_buffer_pop_packet rx d packet_id =
      let (ok, v, store) = store_pop_marked_by rx.shared.store (decoder_kind d) packet_id in
      let rx' = record (set_store rx store) { value = v } in
      if ok
      then (true, rx')
      else (false, rx_buffer_fail rx' (some decode_no_corresponding_request) 0)

  -- `rx_buffer_pubrel`
  unfoldable pub rx_buffer_pubrel : Rx W → Bool × Rx W
  unfolding rx_buffer_fail
  rx_buffer_pubrel rx =
      let ids = (id_set_remove rx.shared.id_set rx.packet_id).1 in
      let v = record zero_value { packet_id = rx.packet_id } in
      let (ok, store) = store_append rx.shared.store (kind_code Core.Kind.pubcomp) (some v) in
      let rx' = record rx { shared = record rx.shared { id_set = ids; store = store } } in
      if ok then (true, rx') else (false, rx_buffer_fail rx' (some decode_pubrel_id_set_full) 0)

  -- `decoder->pop_packet_without_id`
  unfoldable pub pop_packet_without_id : Rx W → Decoder → Bool × Rx W
  unfolding rx_buffer_pop_packet
  pop_packet_without_id rx d = if pops_without_id d then rx_buffer_pop_packet rx d 0 else (true, rx)

  -- `decoder->pop_packet_with_id`
  unfoldable pub pop_packet_with_id : Rx W → Decoder → Bool × Rx W
  unfolding rx_buffer_pop_packet rx_buffer_pubrel
  pop_packet_with_id rx connack = (true, rx)
  pop_packet_with_id rx publish = (true, rx)
  pop_packet_with_id rx pingresp = (true, rx)
  pop_packet_with_id rx pubrel = rx_buffer_pubrel rx
  pop_packet_with_id rx d = rx_buffer_pop_packet rx d rx.packet_id

module _ {W : Type 0} (message : MessageCallbacks W) where
  -- `rx_buffer_decode_type`: `decoder->decode_bytes`, or an error where it is null.
  unfoldable pub rx_buffer_decode_type : Rx W → Decoder → List ℕ → Option (Decoding W)
  unfolding rx_buffer_decode_connack rx_buffer_decode_suback rx_buffer_decode_publish
  rx_buffer_decode_type rx connack buf = rx_buffer_decode_connack rx buf
  rx_buffer_decode_type rx publish buf = rx_buffer_decode_publish message rx buf
  rx_buffer_decode_type rx suback buf = rx_buffer_decode_suback rx buf
  rx_buffer_decode_type rx d buf = fails rx decode_nonzero_remaining_length 0

  abbrev pub is_finished : DecodeResult → Bool
  is_finished finished = true
  is_finished _ = false

  abbrev pub is_failed : DecodeResult → Bool
  is_failed failed = true
  is_failed _ = false

  -- `rx_buffer_decode_remaining_without_id`
  unfoldable pub rx_buffer_decode_remaining_without_id :
      Rx W → Decoder → List ℕ → Option (Decoding W)
  unfolding rx_buffer_decode_type
  rx_buffer_decode_remaining_without_id rx d buf = rx_buffer_decode_type rx d buf >>= λ r.
      let rem_pos = r.rx.remain_buf_pos + r.written in
      let rem_len = r.rx.header.remaining_length in
      assert
        (is_failed r.result
          || (not (is_finished r.result) && ltb rem_pos rem_len)
          || (is_finished r.result && (rem_pos == rem_len)))
        (some r)

  -- `rx_buffer_decode_remaining_with_id`
  unfoldable pub rx_buffer_decode_remaining_with_id : Rx W → Decoder → List ℕ → Option (Decoding W)
  unfolding rx_buffer_decode_remaining_without_id pop_packet_with_id
  rx_buffer_decode_remaining_with_id rx d [] = none
  rx_buffer_decode_remaining_with_id rx d (b ∷ bs) =
      let rem_pos = rx.remain_buf_pos + 1 in
      let rx' = record rx { packet_id = or_byte rx.packet_id b (2 - rem_pos) } in
      let (ok, popped) = pop_packet_with_id rx' d in
      if ltb 2 rem_pos
      then rx_buffer_decode_remaining_without_id rx d (b ∷ bs)
      else if rem_pos == 2
      then some (record { result = if ok then continue else failed; written = 1; rx = popped })
      else some (record { result = continue; written = 1; rx = rx' })

  -- `decoder->decode_remaining`
  unfoldable pub decode_remaining : Rx W → Decoder → List ℕ → Option (Decoding W)
  unfolding rx_buffer_decode_remaining_with_id rx_buffer_decode_remaining_without_id
  decode_remaining rx d buf =
      if decodes_with_id d
      then rx_buffer_decode_remaining_with_id rx d buf
      else rx_buffer_decode_remaining_without_id rx d buf
