-- ===== src/Rx/Answers.antt =====
-- PUBACK, PUBCOMP and UNSUBACK against the requests that wait for an answer.
use lightmqtt.Prelude.{
  ◌⊎◌, subst, ℕ, ◌/◌, ◌%◌, ◌^◌, ◌<◌, ◌≡◌, refl, ap, ◌∙◌, arith, Bool, true, false, none, some, List,
  [], ◌∷◌,
}
use lightmqtt.Prelude.{if◌then◌else◌, inl, inr}
use lightmqtt.Core
use lightmqtt.Core.{
  Kind, kind_code, Error, io_success, io_error, callback_publish, callback_unsuback,
  decode_no_corresponding_request,
}
use lightmqtt.Header.{fresh, fixed_header_decode}
use lightmqtt.Store.{Store, StoreValue, zero_value, store_pop_marked_by}
use lightmqtt.Store.Defs.{Entry}
use lightmqtt.Store.Queue.{pop_first}
use lightmqtt.Store.Valid.{IsValid, queue}
use lightmqtt.Store.Refine.{pop_marked_by_refines}
use lightmqtt.Rx.State.{
  Shared, Rx, Decoder, puback, pubcomp, unsuback, MessageCallbacks, StoredCalls, rx_buffer_fail,
  rx_buffer_reset,
}
use lightmqtt.Rx.Decoders.{rx_buffer_decoders}
use lightmqtt.Rx.Publish.{or_byte}
use lightmqtt.Rx.Decode.{
  pop_packet_with_id, pop_packet_without_id, rx_buffer_pop_packet, decode_remaining,
  rx_buffer_decode_remaining_with_id,
}
use lightmqtt.Rx.Finish.{
  rx_buffer_is_packet_finished, rx_buffer_finish_packet, rx_finish_callback,
  rx_buffer_call_callback,
}
use lightmqtt.Rx.Loop.{
  RxEnd, fault, returned, RxStep, taken, blocked, broken, faulty, rx_header_step,
  rx_header_finished, rx_remaining_step, rx_finish_step, rx_step, rx_return, rx_loop,
  rx_buffer_decode,
}
use lightmqtt.Rx.Idle.{idle, packet_id_bytes}

-- How the loop ends behind the last byte of four.
abbrev ended : {W : Type 0} → RxStep W → RxEnd W
ended (taken n rx) = returned io_success 4 (record rx { blocking_str = none })
ended (blocked rx) = returned io_success 3 (record rx { blocking_str = none })
ended (broken n rx) = returned io_error 4 rx
ended faulty = fault

-- The answers that end a request.
pub data Answer : Type 0 where
  puback_answer pubcomp_answer unsuback_answer : Answer

abbrev pub decoder_of : Answer → Decoder
decoder_of puback_answer = puback
decoder_of pubcomp_answer = pubcomp
decoder_of unsuback_answer = unsuback

abbrev pub first_byte_of : Answer → ℕ
first_byte_of puback_answer = 0x40
first_byte_of pubcomp_answer = 0x70
first_byte_of unsuback_answer = 0xb0

-- The requests that they answer, by MQTT 3.1.1: PUBLISH of QoS 1, PUBREL and UNSUBSCRIBE.
abbrev pub request_of : Answer → Kind
request_of puback_answer = Core.Kind.publish_1
request_of pubcomp_answer = Core.Kind.pubrel
request_of unsuback_answer = Core.Kind.unsubscribe

abbrev pub error_of : Answer → Error
error_of puback_answer = callback_publish
error_of pubcomp_answer = callback_publish
error_of unsuback_answer = callback_unsuback

-- The call of the callback of a request, if it has one.
abbrev pub call_back : {W : Type 0} → StoredCalls W → StoreValue → Shared W → Bool × Shared W
call_back calls v shared = elim v.callback [
  | none ↦ (true, shared)
  | some f ↦ calls f v.callback_data v.value shared
]

module _ {W : Type 0} (message : MessageCallbacks W) (calls : StoredCalls W) where
  -- The state behind the fixed header.
  abbrev headed : Answer → Shared W → Rx W
  headed a shared = record (idle shared) {
    header = (fixed_header_decode (fixed_header_decode fresh (first_byte_of a)).header 2).header;
    header_finished = true;
    decoder = some (decoder_of a);
  }

  header_read :
      (a : Answer) (shared : Shared W) (hi lo : ℕ)
      → rx_buffer_decode message calls (idle shared) (first_byte_of a ∷ 2 ∷ hi ∷ lo ∷ [])
        ≡ rx_loop message calls 2 4 2 (headed a shared) (hi ∷ lo ∷ [])
  unfolding rx_buffer_decode rx_loop rx_step rx_header_step rx_header_finished rx_buffer_decoders
      pop_packet_without_id fixed_header_decode rx_finish_step rx_buffer_is_packet_finished
  header_read puback_answer shared hi lo = refl
  header_read pubcomp_answer shared hi lo = refl
  header_read unsuback_answer shared hi lo = refl

  high_read :
      (a : Answer) (shared : Shared W) (hi lo : ℕ)
      → rx_loop message calls 2 4 2 (headed a shared) (hi ∷ lo ∷ [])
        ≡ rx_loop message calls 1 4 3
            (record (headed a shared) { packet_id = or_byte 0 hi 1; remain_buf_pos = 1 })
            (lo ∷ [])
  unfolding rx_loop rx_step rx_remaining_step decode_remaining rx_buffer_decode_remaining_with_id
      fixed_header_decode rx_finish_step rx_buffer_is_packet_finished
  high_read puback_answer shared hi lo = refl
  high_read pubcomp_answer shared hi lo = refl
  high_read unsuback_answer shared hi lo = refl

  -- The state when the packet id is known.
  abbrev identified : Answer → Shared W → ℕ → Rx W
  identified a shared id = record (headed a shared) { packet_id = id; remain_buf_pos = 1 }

  -- What `rx_buffer_pop_packet` leaves.
  abbrev popped : Answer → Shared W → ℕ → StoreValue → Store → Rx W
  popped a shared id v store = record (identified a shared id) {
    shared = record shared { store = store };
    value = v;
  }

  abbrev at_last_byte : Answer → Shared W → ℕ → ℕ → RxEnd W
  at_last_byte a shared high lo = rx_loop message calls 1 4 3 (identified a shared high) (lo ∷ [])

  abbrev after_last : Answer → Shared W → ℕ → RxEnd W
  after_last a shared id =
      let (found, v, store) = store_pop_marked_by shared.store (kind_code (request_of a)) id in
      if found
      then ended (
          rx_finish_step message calls 1
            (record (popped a shared id v store) { remain_buf_pos = 2 }))
      else returned io_error 3
          (record (popped a shared id v store) { error = some decode_no_corresponding_request })

  last_byte :
      (a : Answer) (shared : Shared W) (high lo : ℕ)
      → at_last_byte a shared high lo ≡ after_last a shared (or_byte high lo 0)
  unfolding rx_loop rx_step rx_remaining_step decode_remaining rx_buffer_decode_remaining_with_id
      pop_packet_with_id rx_buffer_pop_packet fixed_header_decode rx_return rx_buffer_fail
  last_byte puback_answer shared high lo = ground arith
  last_byte pubcomp_answer shared high lo = ground arith
  last_byte unsuback_answer shared high lo = ground arith

  abbrev refused : Answer → Shared W → ℕ → StoreValue → Store → Rx W
  refused a after id v store = record (popped a after id v store) {
    shared = after;
    remain_buf_pos = 2;
    error = some (error_of a);
  }

  finishes :
      (a : Answer) (shared : Shared W) (id : ℕ) (v : StoreValue) (store : Store)
      → let (ok, after) = call_back calls v (record shared { store = store }) in
        rx_finish_step message calls 1 (record (popped a shared id v store) { remain_buf_pos = 2 })
        ≡ (if ok then taken 1 (idle after) else broken 1 (refused a after id v store))
  unfolding rx_finish_step rx_buffer_is_packet_finished rx_buffer_finish_packet rx_finish_callback
      rx_buffer_call_callback rx_buffer_reset rx_buffer_fail fixed_header_decode
  finishes puback_answer shared id v store = ground arith
  finishes pubcomp_answer shared id v store = ground arith
  finishes unsuback_answer shared id v store = ground arith

  -- The bytes of the answer.
  abbrev pub answer_bytes : Answer → ℕ → List ℕ
  answer_bytes a id = first_byte_of a ∷ 2 ∷ id / 256 ∷ id % 256 ∷ []

  answer_read :
      (a : Answer) (shared : Shared W) (id : ℕ)
      → id < 2 ^ 16
      → rx_buffer_decode message calls (idle shared) (answer_bytes a id) ≡ after_last a shared id
  answer_read a shared id narrow =
      header_read a shared (id / 256) (id % 256)
      ∙ high_read a shared (id / 256) (id % 256)
      ∙ last_byte a shared (or_byte 0 (id / 256) 1) (id % 256)
      ∙ ap (λ n. after_last a shared n) (packet_id_bytes id narrow)

  -- The end of the call: all four bytes are read, and the state is as after a reset, or the callback
  -- has failed.
  abbrev pub Answered : Answer → RxEnd W → Bool × Shared W → Type 0
  Answered a e (ok, after) =
      (ok ≡ true → e ≡ returned io_success 4 (idle after))
      × (ok ≡ false
          → (rx : Rx W) × (e ≡ returned io_error 4 rx)
            × (rx.error ≡ some (error_of a))
            × (rx.shared ≡ after))

  -- The request that the packet ends is the oldest that was sent, of the kind that the packet answers
  -- and of its packet id.
  abbrev pub IsAnswered : Answer → Shared W → ℕ → Type 0
  IsAnswered a shared id =
      let e = rx_buffer_decode message calls (idle shared) (answer_bytes a id) in
      let oldest = pop_first (kind_code (request_of a)) id (queue shared.store).sent in
      ((oldest ≡ none)
        × ((rx : Rx W) × (e ≡ returned io_error 3 rx)
            × (rx.error ≡ some decode_no_corresponding_request)
            × (rx.shared ≡ shared)))
      ⊎ ((request : Entry) × (others : List Entry) × (store : Store) × (oldest
            ≡ some (request, others))
          × (queue store ≡ record (queue shared.store) { sent = others })
          × Answered a e (call_back calls request.value (record shared { store = store })))

  -- A whole PUBACK, PUBCOMP or UNSUBACK, read in one call by a buffer that stands between two packets
  -- and has a valid store, ends the oldest request that was sent, has the packet id of the packet and
  -- is a PUBLISH of QoS 1, a PUBREL or an UNSUBSCRIBE, in this order: this request alone leaves the
  -- store, and its callback is called. If the callback succeeds, all four bytes are read and the
  -- buffer stands between two packets again; if it fails, the error tells so. If there is no such
  -- request, the call fails with an error that tells so, before the last byte is counted as read, and
  -- the store, the id set and the heap stay as they are.
  pub answered :
      (a : Answer) (shared : Shared W) (id : ℕ)
      → IsValid shared.store
      → id < 2 ^ 16
      → IsAnswered a shared id
  answered a shared id valid narrow =
      let read = answer_read a shared id narrow in
      elim (pop_marked_by_refines shared.store (kind_code (request_of a)) id valid) [
        | inl (nothing, not_found, no_value, same) ↦ inl (
          nothing,
          (
            record (popped a shared id zero_value shared.store) {
              error = some decode_no_corresponding_request;
            },
            ground (arith, read, not_found, no_value, same),
            refl,
            refl,
          ),
        )
        | inr (request, others, oldest, found, value_eq, left) ↦
            let v : StoreValue =
              (store_pop_marked_by shared.store (kind_code (request_of a)) id).1 in
            let store : Store =
              (store_pop_marked_by shared.store (kind_code (request_of a)) id).2 in
            let after : Shared W = (call_back calls v (record shared { store = store })).1 in
            let end = finishes a shared id v store in
            let shown : Answered a
                (rx_buffer_decode message calls (idle shared) (answer_bytes a id))
                (call_back calls v (record shared { store = store })) =
              (
                λ fine. ground (arith, read, found, end, fine),
                λ fails. (
                  refused a after id v store,
                  ground (arith, read, found, end, fails),
                  refl,
                  refl,
                ),
              ) in
            inr (
              request,
              others,
              store,
              oldest,
              left,
              subst
                  (λ x.
                    Answered a (rx_buffer_decode message calls (idle shared) (answer_bytes a id))
                      (call_back calls x (record shared { store = store })))
                  value_eq shown,
            )
      ]
