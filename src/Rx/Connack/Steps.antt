-- ===== src/Rx/Connack/Steps.antt =====
-- The two bytes of a CONNACK, one at a time.
use lightmqtt.Prelude.{ℕ, ◌<◌, ◌≤◌, ◌≡◌, arith, some, List}
use lightmqtt.Prelude.{if◌then◌else◌, ltb, bit_and, ◌==◌}
use lightmqtt.Core.{
  callback_connack, decode_connack_invalid_acknowledge_flags, decode_connack_invalid_return_code,
}
use lightmqtt.Store.{Store, StoreValue}
use lightmqtt.Connect.{Connect}
use lightmqtt.Tx.Parts.{connect_object, as_connect, load, store_object}
use lightmqtt.Rx.State.{Shared, Rx, MessageCallbacks, StoredCalls, rx_buffer_fail, rx_buffer_reset}
use lightmqtt.Rx.Decode.{
  connack_error, rx_buffer_decode_connack, rx_buffer_decode_type, decode_remaining,
  rx_buffer_decode_remaining_without_id,
}
use lightmqtt.Rx.Finish.{
  rx_buffer_is_packet_finished, rx_buffer_finish_packet, rx_finish_callback,
  rx_buffer_call_callback,
}
use lightmqtt.Rx.Loop.{taken, broken, faulty, rx_remaining_step, rx_finish_step, rx_step}
use lightmqtt.Rx.Idle.{idle}
use lightmqtt.Rx.Answers.{call_back}
use lightmqtt.Rx.Connack.Header.{headed}

module _ {W : Type 0} where
  -- The shared state with the session bit in the CONNECT.
  abbrev pub noted : Shared W → Store → ℕ → Connect W → ℕ → Shared W
  noted shared store at c flags = record shared {
    store = store;
    heap = store_object shared.heap at (connect_object (record c { session_present = flags }));
  }

  abbrev pub flagged : Shared W → ℕ → StoreValue → Shared W → Rx W
  flagged shared len v after = record (headed after len v after.store) { remain_buf_pos = 1 }

module _ {W : Type 0} (message : MessageCallbacks W) (calls : StoredCalls W) where
  pub flags_step :
      (len flags : ℕ) (rest : List ℕ) (shared : Shared W) (v : StoreValue) (store : Store) (at : ℕ)
      (c : Connect W)
      → 2 ≤ len
      → load as_connect shared.heap v.value ≡ some (at, c)
      → rx_step message calls (headed shared len v store) flags rest ≡ (
          if bit_and flags 0xfe == 0
          then taken 1 (flagged shared len v (noted shared store at c flags))
          else broken 0 (record (headed shared len v store) {
            error = some decode_connack_invalid_acknowledge_flags;
          }))
  unfolding rx_step rx_remaining_step decode_remaining rx_buffer_decode_remaining_without_id
      rx_buffer_decode_type rx_buffer_decode_connack rx_finish_step rx_buffer_is_packet_finished
  flags_step len flags rest shared v store at c large stands = ground (arith, stands)

  pub code_fails :
      (len code : ℕ) (rest : List ℕ) (shared : Shared W) (v : StoreValue)
      → 0 < code
      → rx_step message calls (flagged shared len v shared) code rest
        ≡ broken 0 (record (flagged shared len v shared) {
          error =
              some (if ltb 5 code then decode_connack_invalid_return_code else connack_error code);
        })
  unfolding rx_step rx_remaining_step decode_remaining rx_buffer_decode_remaining_without_id
      rx_buffer_decode_type rx_buffer_decode_connack rx_finish_step rx_buffer_is_packet_finished
  code_fails len code rest shared v bad = ground arith

  pub code_accepted :
      (rest : List ℕ) (shared : Shared W) (v : StoreValue)
      → let (ok, after) = call_back calls v shared in
        rx_step message calls (flagged shared 2 v shared) 0 rest ≡ (
          if ok
          then taken 1 (idle after)
          else broken 1 (record (flagged shared 2 v after) {
            remain_buf_pos = 2;
            shared = after;
            error = some callback_connack;
          }))
  unfolding rx_step rx_remaining_step decode_remaining rx_buffer_decode_remaining_without_id
      rx_buffer_decode_type rx_buffer_decode_connack rx_finish_step rx_buffer_is_packet_finished
      rx_buffer_finish_packet rx_finish_callback rx_buffer_call_callback rx_buffer_reset
      rx_buffer_fail
  code_accepted rest shared v = ground arith

  pub code_too_early :
      (len : ℕ) (rest : List ℕ) (shared : Shared W) (v : StoreValue)
      → 2 < len
      → rx_step message calls (flagged shared len v shared) 0 rest ≡ faulty
  unfolding rx_step rx_remaining_step decode_remaining rx_buffer_decode_remaining_without_id
      rx_buffer_decode_type rx_buffer_decode_connack rx_finish_step rx_buffer_is_packet_finished
  code_too_early len rest shared v long = ground arith
