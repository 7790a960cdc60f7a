-- ===== src/Rx/Connack.antt =====
-- CONNACK against the CONNECT that waits for it.
mod Header
pub mod Steps
use lightmqtt.Prelude.{
  ℕ, suc, ◌*◌, ◌/◌, ◌<◌, ◌≤◌, ◌≡◌, refl, ◌∙◌, arith, true, false, Option, none, some, List, [], ◌∷◌,
}
use lightmqtt.Prelude.{if◌then◌else◌, Bool-cases, inl, inr, length, ltb, bit_and, ◌==◌}
use lightmqtt.Prelude.Bytes.{tables_agree, agree_below, bit_and_128, bit_and_127}
use lightmqtt.Core.{
  Error, io_success, io_error, callback_connack, decode_no_corresponding_request,
  decode_connack_invalid_acknowledge_flags, decode_connack_invalid_return_code,
  connack_unacceptable_protocol_version, connack_identifier_rejected, connack_server_unavailable,
  connack_bad_user_name_or_password, connack_not_authorized,
}
use lightmqtt.Header.{finished, FixedHeader, fresh, fixed_header_decode}
use lightmqtt.Store.{Store, StoreValue, store_pop_marked_by}
use lightmqtt.Connect.{Connect}
use lightmqtt.Tx.Parts.{connect_object, as_connect, load, store_object}
use lightmqtt.Rx.State.{
  Shared, Rx, connack, MessageCallbacks, StoredCalls, rx_buffer_fail, rx_buffer_reset,
}
use lightmqtt.Rx.Decoders.{rx_buffer_decoders, decoder_kind}
use lightmqtt.Rx.Decode.{
  connack_error, rx_buffer_decode_connack, pop_packet_without_id, rx_buffer_pop_packet,
  rx_buffer_decode_type, decode_remaining, rx_buffer_decode_remaining_without_id,
}
use lightmqtt.Rx.Finish.{
  rx_buffer_is_packet_finished, rx_buffer_finish_packet, rx_finish_callback,
  rx_buffer_call_callback,
}
use lightmqtt.Rx.Loop.{
  RxEnd, fault, returned, taken, broken, faulty, rx_header_step, rx_header_finished,
  rx_remaining_step, rx_finish_step, rx_step, rx_return, rx_loop, rx_buffer_decode,
}
use lightmqtt.Rx.Idle.{idle, loop_taken}
use lightmqtt.Rx.Answers.{call_back}
use lightmqtt.Rx.Connack.Header.{header_of, headed, after_header, header_read, bit_and_254}
use lightmqtt.Rx.Connack.Steps.{
  noted, flagged, flags_step, code_fails, code_accepted, code_too_early,
}

-- What the return codes mean, by the table of MQTT 3.1.1 (3.2.2.3).
abbrev pub code_verdict : ℕ → Option (ℕ × Error)
code_verdict code =
    if ltb 5 code
    then some (3, decode_connack_invalid_return_code)
    else if code == 5
    then some (3, connack_not_authorized)
    else if code == 4
    then some (3, connack_bad_user_name_or_password)
    else if code == 3
    then some (3, connack_server_unavailable)
    else if code == 2
    then some (3, connack_identifier_rejected)
    else if code == 1
    then some (3, connack_unacceptable_protocol_version)
    else none

-- What is wrong with a CONNACK of two bytes, and how many bytes of the packet are read before.
abbrev pub verdict : ℕ → ℕ → Option (ℕ × Error)
verdict flags code =
    if ltb 1 flags then some (2, decode_connack_invalid_acknowledge_flags) else code_verdict code

module _ {W : Type 0} (message : MessageCallbacks W) (calls : StoredCalls W) where
  -- A CONNECT was sent, and waits.
  module _ (shared : Shared W) (v : StoreValue) (store : Store) (at : ℕ) (c : Connect W)
      (waits : store_pop_marked_by shared.store (decoder_kind connack) 0 ≡ (true, v, store))
      (stands : load as_connect shared.heap v.value ≡ some (at, c)) where
    behind_header :
        (len : ℕ) (rest : List ℕ)
        → 2 ≤ len
        → len < 128
        → rx_buffer_decode message calls (idle shared) (0x20 ∷ len ∷ rest)
          ≡ rx_loop message calls
              (length rest)
              (suc (suc (length rest)))
              2
              (headed shared len v store)
              rest
    behind_header len rest large small =
        header_read message calls len rest shared large small ∙ ground (arith, waits)

    abbrev run : ℕ → ℕ → RxEnd W
    run flags code = rx_buffer_decode message calls (idle shared) (0x20 ∷ 2 ∷ flags ∷ code ∷ [])

    with_bad_flags :
        (flags code : ℕ)
        → flags < 256
        → 1 < flags
        → run flags code
          ≡ returned io_error 2 (record (headed shared 2 v store) {
            error = some decode_connack_invalid_acknowledge_flags;
          })
    unfolding rx_loop
    with_bad_flags flags code byte bad =
        behind_header 2 (flags ∷ code ∷ []) (omega arith) (omega arith)
        ∙ ground (
          arith,
          flags_step message calls 2 flags (code ∷ []) shared v store at c (omega arith) stands,
          bit_and_254 flags byte,
        )

    with_flags :
        (len flags code : ℕ) (rest : List ℕ)
        → 2 ≤ len
        → len < 128
        → flags < 2
        → rx_buffer_decode message calls (idle shared) (0x20 ∷ len ∷ flags ∷ code ∷ rest)
          ≡ rx_loop message calls
              (suc (length rest))
              (suc (suc (suc (suc (length rest)))))
              3
              (flagged shared len v (noted shared store at c flags))
              (code ∷ rest)
    with_flags len flags code rest large small valid =
        behind_header len (flags ∷ code ∷ rest) large small
        ∙ loop_taken message calls (suc (length rest)) (suc (suc (suc (suc (length rest))))) 2 flags
            (headed shared len v store) (flagged shared len v (noted shared store at c flags))
            (code ∷ rest)
            (ground (
              arith,
              flags_step message calls len flags (code ∷ rest) shared v store at c large stands,
              bit_and_254 flags (omega arith),
            ))

    with_bad_code :
        (flags code : ℕ)
        → flags < 2
        → 0 < code
        → run flags code
          ≡ returned io_error 3 (record (flagged shared 2 v (noted shared store at c flags)) {
            error =
                some
                  (if ltb 5 code then decode_connack_invalid_return_code else connack_error code);
          })
    unfolding rx_loop
    with_bad_code flags code valid bad =
        with_flags 2 flags code [] (omega arith) (omega arith) valid
        ∙ ground (arith, code_fails message calls 2 code [] (noted shared store at c flags) v bad)

    with_zero :
        (flags : ℕ)
        → flags < 2
        → let (ok, after) = call_back calls v (noted shared store at c flags) in
          run flags 0 ≡ (
            if ok
            then returned io_success 4 (idle after)
            else returned io_error 4 (record (flagged shared 2 v after) {
              remain_buf_pos = 2;
              shared = after;
              error = some callback_connack;
            }))
    unfolding rx_loop rx_return
    with_zero flags valid =
        with_flags 2 flags 0 [] (omega arith) (omega arith) valid
        ∙ ground (arith, code_accepted message calls [] (noted shared store at c flags) v)

    -- A CONNACK with two bytes behind its fixed header, whole in one call, for a CONNECT that waits and
    -- stands in the heap, read by a buffer that stands between two packets. Acknowledge flags above 1
    -- and return codes above 5 are refused, and a return code from 1 to 5 is the error that the
    -- protocol names it; the world outside is left alone. With flags 0 or 1 and return code 0, the
    -- session bit is noted in the CONNECT and its callback is called: all four bytes are read and the
    -- buffer stands between two packets again, or its error tells that the callback failed.
    pub connack_read :
        (flags code : ℕ)
        → flags < 256
        → let e = rx_buffer_decode message calls (idle shared) (0x20 ∷ 2 ∷ flags ∷ code ∷ []) in
          let (ok, after) = call_back calls v (noted shared store at c flags) in
          ((n : ℕ) (error : Error)
            → verdict flags code ≡ some (n, error)
            → (rx : Rx W) × (e ≡ returned io_error n rx)
              × (rx.error ≡ some error)
              × (rx.shared.heap.world ≡ shared.heap.world))
          × (verdict flags code ≡ none → ok ≡ true → e ≡ returned io_success 4 (idle after))
          × (verdict flags code ≡ none
              → ok ≡ false
              → (rx : Rx W) × (e ≡ returned io_error 4 rx)
                × (rx.error ≡ some callback_connack)
                × (rx.shared ≡ after))
    connack_read flags code byte = (
      λ n error wrong. elim (Bool-cases (ltb 1 flags)) [
        | inl bad ↦ (
          record (headed shared 2 v store) { error = some error },
          ground (arith, wrong, with_bad_flags flags code byte (ground arith)),
          refl,
          refl,
        )
        | inr valid ↦ (
          record (flagged shared 2 v (noted shared store at c flags)) { error = some error },
          ground (arith, wrong, with_bad_code flags code (ground arith) (ground arith)),
          refl,
          refl,
        )
      ],
      λ right fine. ground (arith, zero_code right, fine, with_zero flags (ground arith)),
      λ right fails. (
        record (flagged shared 2 v (call_back calls v (noted shared store at c flags)).1) {
          remain_buf_pos = 2;
          shared = (call_back calls v (noted shared store at c flags)).1;
          error = some callback_connack;
        },
        ground (arith, zero_code right, fails, with_zero flags (ground arith)),
        refl,
        refl,
      ),
    )
      where
        zero_code : verdict flags code ≡ none → code ≡ 0
        zero_code right = ground arith

    -- A CONNACK that is longer than two bytes, with acknowledge flags 0 or 1 and return code 0, stops
    -- the program: `rx_buffer_decode_connack` is finished before the packet is, and the assertion in
    -- `rx_buffer_decode_remaining_without_id` fails. This holds for every remaining length from 3 up
    -- to 127, when a CONNECT waits.
    pub long_connack_faults :
        (len flags : ℕ) (rest : List ℕ)
        → 2 < len
        → len < 128
        → flags < 2
        → rx_buffer_decode message calls (idle shared) (0x20 ∷ len ∷ flags ∷ 0 ∷ rest) ≡ fault
    unfolding rx_loop
    long_connack_faults len flags rest long small valid =
        with_flags len flags 0 rest (omega arith) small valid
        ∙ ground
            (arith, code_too_early message calls len rest (noted shared store at c flags) v long)
