-- ===== src/Rx/Taking.antt =====
-- A message in the rx buffer takes a byte, waits or fails.
use lightmqtt.Prelude.{
  ℕ, ◌+◌, ◌-◌, ◌<◌, ◌≡◌, arith, Bool, true, false, not, ◌&&◌, ◌||◌, if◌then◌else◌, none, some, List,
  ◌∷◌,
}
use lightmqtt.Prelude.{leb, Option-cases, Bool-cases, inl, inr, ◌==◌}
use lightmqtt.Header.{DecodeResult, finished, continue, failed}
use lightmqtt.IdSet.{id_set_put}
use lightmqtt.Rx.State.{MessageCallbacks, Rx, rx_buffer_fail, Decoding}
use lightmqtt.Strings.{is_some}
use lightmqtt.Rx.Publish.{
  rx_buffer_allocate_write, rx_publish_bytes, rx_publish_next, rx_publish_end, rx_deliver,
  rx_on_publish, rx_acknowledge, rx_buffer_deallocate_publish, rx_buffer_decode_publish, id_size,
  part_topic, part_payload,
}
use lightmqtt.Rx.Writing.{TakesBoth, KeepsTaking, allocate_write_takes}

-- What the bytes of a message leave: strings that move, and a byte taken unless a string blocks.
abbrev is_done : DecodeResult → Bool
is_done finished = true
is_done failed = true
is_done _ = false

abbrev Took : {W : Type 0} → Decoding W → Type 0
Took d =
    TakesBoth d.rx.publish
    × (is_done d.result ≡ true)
    × (d.result ≡ finished → d.rx.blocking_str ≡ none → 0 < d.written)

-- A decoder that does not stop takes a byte.
abbrev pub is_going : DecodeResult → Bool
is_going finished = true
is_going continue = true
is_going _ = false

abbrev pub Going : {W : Type 0} → Decoding W → Type 0
Going d = TakesBoth d.rx.publish × (is_going d.result ≡ true → 0 < d.written)

module _ {W : Type 0} (message : MessageCallbacks W) (keeps : KeepsTaking message) where
  deallocate_takes :
      (rx : Rx W)
      → TakesBoth rx.publish
      → TakesBoth (rx_buffer_deallocate_publish message rx).publish
  unfolding rx_buffer_deallocate_publish
  deallocate_takes rx t = elim (Option-cases message.on_publish_deallocate) [
    | inl no_callback ↦ rw (no_callback, rx_buffer_deallocate_publish) t
    | inr (f, has) ↦ ground (arith, has, t, keeps.on_deallocate f has rx.publish rx.shared t)
  ]

  on_publish_takes :
      (rx : Rx W) → TakesBoth rx.publish → TakesBoth (rx_on_publish message rx).1.publish
  unfolding rx_on_publish
  on_publish_takes rx t = elim (Option-cases message.on_publish) [
    | inl no_callback ↦ rw (no_callback, rx_on_publish) t
    | inr (f, has) ↦ ground (arith, has, t, keeps.on_publish f has rx.publish rx.shared t)
  ]

  deliver_takes : (rx : Rx W) → TakesBoth rx.publish → TakesBoth (rx_deliver message rx).rx.publish
  unfolding rx_deliver rx_buffer_fail
  deliver_takes rx t =
      let told : Rx W = record rx {
        publish = record rx.publish { qos = rx.header.qos; retain = not (rx.header.retain == 0) };
      } in
      let after : Rx W = (rx_on_publish message told).1 in
      ground (arith, deallocate_takes after (on_publish_takes told t))

  abbrev flagged : Rx W → Rx W
  flagged rx = record rx {
    ignore_publish =
        if (rx.remain_buf_pos + 1 == 3)
          && (not (is_some message.on_publish)
              || not (is_some message.on_publish_allocate_topic)
              || not (is_some message.on_publish_allocate_payload))
        then true
        else rx.ignore_publish;
  }

  publish_bytes-Took :
      (rx : Rx W) (b : ℕ) (bs : List ℕ) (d : Decoding W)
      → TakesBoth rx.publish
      → rx.remain_buf_pos < rx.header.remaining_length
      → rx_publish_bytes message rx b (b ∷ bs) ≡ some d
      → Took d
  unfolding rx_publish_bytes rx_buffer_fail
  publish_bytes-Took rx b bs d t inside e = elim (Bool-cases (leb (rx.remain_buf_pos + 1) 2)) [
    | inl early ↦ ground (arith, e, early, t)
    | inr late ↦ elim (Bool-cases (leb (rx.remain_buf_pos + 1) (2 + rx.topic_len))) [
      | inl topic ↦
          elim (Option-cases
            (rx_buffer_allocate_write message (flagged rx) 3 part_topic rx.topic_len (b ∷ bs))) [
              | inl fault ↦ ground (arith, e, late, topic, fault)
              | inr (a, written) ↦
                  let took =
                    allocate_write_takes message keeps (flagged rx) 3 part_topic rx.topic_len b bs a
                      t (ground arith) (ground arith) written in
                  ground (arith, e, late, topic, written, took, deallocate_takes a.rx)
            ]
      | inr behind ↦
          elim (Bool-cases (leb (rx.remain_buf_pos + 1) (2 + rx.topic_len + id_size message rx))) [
            | inl id ↦ ground (arith, e, late, behind, id, t)
            | inr last ↦
                let when : ℕ = 2 + rx.topic_len + id_size message rx + 1 in
                let len : ℕ =
                  rx.header.remaining_length - id_size message rx - (2 + rx.topic_len) in
                elim (Option-cases
                  (rx_buffer_allocate_write message (flagged rx) when part_payload len (b ∷ bs))) [
                    | inl fault ↦ ground (arith, e, late, behind, last, fault)
                    | inr (a, written) ↦
                        let took =
                          allocate_write_takes message keeps (flagged rx) when part_payload len b bs
                            a t (ground arith) (ground arith) written in
                        ground (arith, e, late, behind, last, written, took, deallocate_takes a.rx)
                  ]
          ]
    ]
  ]

  publish_end_takes :
      (rx : Rx W) → TakesBoth rx.publish → TakesBoth (rx_publish_end message rx).rx.publish
  unfolding rx_publish_end rx_acknowledge rx_buffer_fail
  publish_end_takes rx t =
      let acked : Rx W = rx_acknowledge message rx in
      let t' : TakesBoth acked.publish = ground (arith, t) in
      let kept : Rx W = record acked {
        shared = record acked.shared {
          id_set = (id_set_put acked.shared.id_set acked.packet_id).1;
        };
      } in
      ground (arith, deliver_takes acked t', deliver_takes kept t', deallocate_takes acked t')

  publish_next-Going : (d : Decoding W) → Took d → Going (rx_publish_next message d)
  unfolding rx_publish_next
  publish_next-Going d took = ground (arith, took, publish_end_takes d.rx)

  pub decode_publish-Going :
      (rx : Rx W) (b : ℕ) (bs : List ℕ) (d : Decoding W)
      → TakesBoth rx.publish
      → rx.remain_buf_pos < rx.header.remaining_length
      → rx_buffer_decode_publish message rx (b ∷ bs) ≡ some d
      → Going d
  unfolding rx_buffer_decode_publish
  decode_publish-Going rx b bs d t inside e =
      elim (Option-cases (rx_publish_bytes message rx b (b ∷ bs))) [
        | inl fault ↦ ground (arith, e, fault)
        | inr (d', bytes) ↦
            ground (
              arith,
              e,
              bytes,
              publish_next-Going d' (publish_bytes-Took rx b bs d' t inside bytes),
            )
      ]
