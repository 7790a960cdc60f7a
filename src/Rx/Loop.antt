-- ===== src/Rx/Loop.antt =====
-- `lmqtt_rx_buffer_decode`. A failed assertion is a `fault`, a loop that is not through `unfinished`.
use lightmqtt.Prelude.{ℕ, zero, suc, ◌+◌, true, false, none, some, List, [], ◌∷◌}
use lightmqtt.Prelude.{length, drop, ltb, ◌==◌, if◌then◌else◌}
use lightmqtt.Core.{
  IoResult, io_success, io_would_block, io_error, decode_fixed_header_server_specific,
  decode_response_too_short,
}
use lightmqtt.Header.{finished, continue, would_block, failed, fixed_header_decode}
use lightmqtt.Strings.{is_some}
use lightmqtt.Rx.State.{MessageCallbacks, StoredCalls, Rx, rx_buffer_fail}
use lightmqtt.Rx.Decoders.{min_length, rx_buffer_decoders}
use lightmqtt.Rx.Decode.{pop_packet_without_id, decode_remaining}
use lightmqtt.Rx.Finish.{rx_buffer_is_packet_finished, rx_buffer_finish_packet}

-- What `lmqtt_rx_buffer_decode` returns, the bytes that it read, and the state.
pub data RxEnd (W : Type 0) : Type 0 where
  fault unfinished : RxEnd W
  returned : IoResult → ℕ → Rx W → RxEnd W

-- What a step of the loop leads to: bytes taken, a string that blocks, or the error in the state.
pub data RxStep (W : Type 0) : Type 0 where
  taken : ℕ → Rx W → RxStep W
  blocked : Rx W → RxStep W
  broken : ℕ → Rx W → RxStep W
  faulty : RxStep W

module _ {W : Type 0} where
  -- The decoder for a whole fixed header.
  unfoldable pub rx_header_finished : Rx W → RxStep W
  unfolding pop_packet_without_id rx_buffer_fail
  rx_header_finished rx = elim (rx_buffer_decoders rx.header.type) [
    | none ↦ broken 1 (
        rx_buffer_fail (record rx { header_finished = true; decoder = none })
          (some decode_fixed_header_server_specific) 0)
    | some d ↦
        let rx' = record rx { header_finished = true; decoder = some d } in
        let (ok, popped) = pop_packet_without_id rx' d in
        if ltb rx.header.remaining_length (min_length d)
        then broken 1 (rx_buffer_fail rx' (some decode_response_too_short) 0)
        else if ok
        then taken 1 popped
        else if is_some popped.error
        then broken 1 popped
        else faulty
  ]

  -- A byte of the fixed header.
  unfoldable pub rx_header_step : Rx W → ℕ → RxStep W
  unfolding rx_header_finished rx_buffer_fail
  rx_header_step rx b =
      let d = fixed_header_decode rx.header b in
      let rx' = record rx { header = d.header } in
      elim d.result [
        | finished ↦ rx_header_finished rx'
        | failed ↦ broken 0 (rx_buffer_fail rx' d.error 0)
        | _ ↦ taken 1 rx'
      ]

module _ {W : Type 0} (message : MessageCallbacks W) (calls : StoredCalls W) where
  -- Bytes behind the fixed header.
  unfoldable pub rx_remaining_step : Rx W → List ℕ → RxStep W
  unfolding decode_remaining
  rx_remaining_step rx buf = elim rx.decoder [
    | none ↦ faulty
    | some d ↦ elim (decode_remaining message rx d buf) [
      | none ↦ faulty
      | some r ↦ elim r.result [
        | finished ↦
            taken r.written (record r.rx { remain_buf_pos = r.rx.remain_buf_pos + r.written })
        | continue ↦
            taken r.written (record r.rx { remain_buf_pos = r.rx.remain_buf_pos + r.written })
        | would_block ↦ if r.written == 0 then blocked r.rx else faulty
        | failed ↦ if is_some r.rx.error then broken 0 r.rx else faulty
      ]
    ]
  ]

  -- The end of a packet, if it is all there.
  unfoldable pub rx_finish_step : ℕ → Rx W → RxStep W
  unfolding rx_buffer_finish_packet rx_buffer_is_packet_finished
  rx_finish_step count rx =
      if rx_buffer_is_packet_finished rx
      then elim rx.decoder [
        | none ↦ faulty
        | some d ↦ elim (rx_buffer_finish_packet calls rx d) [
          | none ↦ faulty
          | some (true, rx') ↦ taken count rx'
          | some (false, rx') ↦ broken count rx'
        ]
      ]
      else taken count rx

  -- The body of the loop. Behind a byte of an open fixed header it goes on at once.
  unfoldable pub rx_step : Rx W → ℕ → List ℕ → RxStep W
  unfolding rx_header_step rx_remaining_step rx_finish_step
  rx_step rx b bs =
      elim (if rx.header_finished then rx_remaining_step rx (b ∷ bs) else rx_header_step rx b) [
        | taken count rx' ↦
            if rx'.header_finished then rx_finish_step count rx' else taken count rx'
        | other ↦ other
      ]

  -- What follows the loop.
  unfoldable pub rx_return : ℕ → ℕ → Rx W → RxEnd W
  rx_return buf_len bytes_read rx =
      if ltb 0 bytes_read
      then returned io_success bytes_read (record rx { blocking_str = none })
      else returned (if buf_len == 0 then io_success else io_would_block) bytes_read rx

  -- The loop, from the byte `i` on, which is also the number of bytes read.
  unfoldable pub rx_loop : ℕ → ℕ → ℕ → Rx W → List ℕ → RxEnd W
  unfolding rx_step rx_return
  rx_loop fuel buf_len i rx [] = rx_return buf_len i rx
  rx_loop zero buf_len i rx (b ∷ bs) = unfinished
  rx_loop (suc fuel) buf_len i rx (b ∷ bs) = elim (rx_step rx b bs) [
    | taken count rx' ↦ rx_loop fuel buf_len (i + count) rx' (drop count (b ∷ bs))
    | blocked rx' ↦ rx_return buf_len i rx'
    | broken count rx' ↦ returned io_error (i + count) rx'
    | faulty ↦ fault
  ]

  -- `lmqtt_rx_buffer_decode_impl`: as many steps as there are bytes.
  unfoldable pub rx_buffer_decode : Rx W → List ℕ → RxEnd W
  unfolding rx_loop
  rx_buffer_decode rx buf = elim rx.error [
    | some e ↦ returned io_error 0 rx
    | none ↦ rx_loop (length buf) (length buf) 0 rx buf
  ]
