-- ===== src/Rx/Ends.antt =====
-- The loop of `lmqtt_rx_buffer_decode` ends.
use lightmqtt.Prelude.{
  if◌then◌else◌, ℕ, sym, subst, zero, suc, ◌+◌, ◌-◌, ◌≤◌, ◌<◌, ◌≡◌, refl, arith, true, false, some,
  List, [], ◌∷◌,
}
use lightmqtt.Prelude.{length, drop, Option-cases, Bool-cases, inl, inr, ◌≢◌, length-drop}
use lightmqtt.Rx.State.{
  zero_publish, MessageCallbacks, Rx, Decoder, connack, publish, puback, pubrec, pubrel, pubcomp,
  suback, unsuback, pingresp, rx_buffer_fail, rx_buffer_reset, Decoding, StoredCalls,
}
use lightmqtt.Rx.Publish.{or_byte}
use lightmqtt.Rx.Decode.{
  rx_buffer_decode_type, rx_buffer_decode_connack, rx_buffer_decode_suback,
  rx_buffer_decode_remaining_without_id, rx_buffer_decode_remaining_with_id, decode_remaining,
  rx_buffer_pop_packet, rx_buffer_pubrel, pop_packet_with_id, pop_packet_without_id,
}
use lightmqtt.Rx.Finish.{rx_buffer_is_packet_finished, rx_buffer_finish_packet, rx_finish_callback}
use lightmqtt.Rx.Loop.{
  unfinished, taken, rx_header_finished, rx_header_step, rx_remaining_step, rx_finish_step, rx_step,
  rx_return, rx_loop, rx_buffer_decode,
}
use lightmqtt.Rx.Writing.{TakesBoth, KeepsTaking}
use lightmqtt.Rx.Taking.{Going, decode_publish-Going}
use lightmqtt.Rx.Sticky.{RxStep-cases}

module _ {W : Type 0} (message : MessageCallbacks W) (keeps : KeepsTaking message) where
  connack-Going :
      (rx : Rx W) (buf : List ℕ) (r : Decoding W)
      → TakesBoth rx.publish
      → rx_buffer_decode_connack rx buf ≡ some r
      → Going r
  unfolding rx_buffer_decode_connack
  connack-Going rx [] r t e = cc
  connack-Going rx (b ∷ bs) r t e = ground (arith, e, t)

  suback-Going :
      (rx : Rx W) (buf : List ℕ) (r : Decoding W)
      → TakesBoth rx.publish
      → rx_buffer_decode_suback rx buf ≡ some r
      → Going r
  unfolding rx_buffer_decode_suback
  suback-Going rx [] r t e = cc
  suback-Going rx (b ∷ bs) r t e = ground (arith, e, t)

  type-Going :
      (rx : Rx W) (d : Decoder) (b : ℕ) (bs : List ℕ) (r : Decoding W)
      → TakesBoth rx.publish
      → rx.remain_buf_pos < rx.header.remaining_length
      → rx_buffer_decode_type message rx d (b ∷ bs) ≡ some r
      → Going r
  unfolding rx_buffer_decode_type
  type-Going rx connack b bs r t inside e = connack-Going rx (b ∷ bs) r t e
  type-Going rx publish b bs r t inside e = decode_publish-Going message keeps rx b bs r t inside e
  type-Going rx suback b bs r t inside e = suback-Going rx (b ∷ bs) r t e
  type-Going rx puback b bs r t inside e = ground (arith, e, t)
  type-Going rx pubrec b bs r t inside e = ground (arith, e, t)
  type-Going rx pubrel b bs r t inside e = ground (arith, e, t)
  type-Going rx pubcomp b bs r t inside e = ground (arith, e, t)
  type-Going rx unsuback b bs r t inside e = ground (arith, e, t)
  type-Going rx pingresp b bs r t inside e = ground (arith, e, t)

  without_id-Going :
      (rx : Rx W) (d : Decoder) (b : ℕ) (bs : List ℕ) (r : Decoding W)
      → TakesBoth rx.publish
      → rx.remain_buf_pos < rx.header.remaining_length
      → rx_buffer_decode_remaining_without_id message rx d (b ∷ bs) ≡ some r
      → Going r
  unfolding rx_buffer_decode_remaining_without_id
  without_id-Going rx d b bs r t inside e =
      elim (Option-cases (rx_buffer_decode_type message rx d (b ∷ bs))) [
        | inl broke ↦ ground (arith, e, broke)
        | inr (r', decoded) ↦ ground (arith, e, decoded, type-Going rx d b bs r' t inside decoded)
      ]

  pop_same :
      (rx : Rx W) (d : Decoder) (id : ℕ) → (rx_buffer_pop_packet rx d id).1.publish ≡ rx.publish
  unfolding rx_buffer_pop_packet rx_buffer_fail
  pop_same rx d id = ground arith

  with_id_same : (rx : Rx W) (d : Decoder) → (pop_packet_with_id rx d).1.publish ≡ rx.publish
  unfolding pop_packet_with_id rx_buffer_pubrel rx_buffer_fail
  with_id_same rx connack = refl
  with_id_same rx publish = refl
  with_id_same rx pingresp = refl
  with_id_same rx pubrel = ground arith
  with_id_same rx puback = pop_same rx puback rx.packet_id
  with_id_same rx pubrec = pop_same rx pubrec rx.packet_id
  with_id_same rx pubcomp = pop_same rx pubcomp rx.packet_id
  with_id_same rx suback = pop_same rx suback rx.packet_id
  with_id_same rx unsuback = pop_same rx unsuback rx.packet_id

  remaining-Going :
      (rx : Rx W) (d : Decoder) (b : ℕ) (bs : List ℕ) (r : Decoding W)
      → TakesBoth rx.publish
      → rx.remain_buf_pos < rx.header.remaining_length
      → decode_remaining message rx d (b ∷ bs) ≡ some r
      → Going r
  unfolding decode_remaining rx_buffer_decode_remaining_with_id
  remaining-Going rx d b bs r t inside e =
      let rx' : Rx W = record rx {
        packet_id = or_byte rx.packet_id b (2 - (rx.remain_buf_pos + 1));
      } in
      let same : (pop_packet_with_id rx' d).1.publish ≡ rx.publish = with_id_same rx' d in
      let kept : TakesBoth (pop_packet_with_id rx' d).1.publish =
        subst (λ p. TakesBoth p) (sym same) t in
      ground (arith, e, kept, t, without_id-Going rx d b bs r t inside)

  -- Where the loop stands between two steps.
  pub record IsReady (rx : Rx W) : Type 0 where
    pub takes : TakesBoth rx.publish
    pub inside : rx.header_finished ≡ true → rx.remain_buf_pos < rx.header.remaining_length

  header_takes :
      (rx : Rx W) (b n : ℕ) (rx' : Rx W)
      → TakesBoth rx.publish
      → rx_header_step rx b ≡ taken n rx'
      → TakesBoth rx'.publish × (0 < n)
  unfolding rx_header_step rx_header_finished pop_packet_without_id rx_buffer_pop_packet
      rx_buffer_fail
  header_takes rx b n rx' t e = ground (arith, e, t)

  module _ (calls : StoredCalls W) where
    remaining_takes :
        (rx : Rx W) (b : ℕ) (bs : List ℕ) (n : ℕ) (rx' : Rx W)
        → TakesBoth rx.publish
        → rx.remain_buf_pos < rx.header.remaining_length
        → rx_remaining_step message calls rx (b ∷ bs) ≡ taken n rx'
        → TakesBoth rx'.publish × (0 < n)
    unfolding rx_remaining_step
    remaining_takes rx b bs n rx' t inside e = elim (Option-cases rx.decoder) [
      | inl no_decoder ↦ ground (arith, e, no_decoder)
      | inr (d, has) ↦ elim (Option-cases (decode_remaining message rx d (b ∷ bs))) [
        | inl broke ↦ ground (arith, e, has, broke)
        | inr (r, decoded) ↦
            ground (arith, e, has, decoded, remaining-Going rx d b bs r t inside decoded)
      ]
    ]

    finish_resets :
        (rx : Rx W) (d : Decoder) (rx' : Rx W)
        → rx_buffer_finish_packet calls rx d ≡ some (true, rx')
        → (rx'.publish ≡ zero_publish) × (rx'.header_finished ≡ false)
    unfolding rx_buffer_finish_packet rx_finish_callback rx_buffer_reset
    finish_resets rx d rx' e = ground arith

    finish-IsReady :
        (count : ℕ) (rx : Rx W) (n : ℕ) (rx' : Rx W)
        → TakesBoth rx.publish
        → rx_finish_step message calls count rx ≡ taken n rx'
        → IsReady rx' × (n ≡ count)
    unfolding rx_finish_step rx_buffer_is_packet_finished
    finish-IsReady count rx n rx' t e = elim (Bool-cases (rx_buffer_is_packet_finished rx)) [
      | inr going ↦ (
        record { takes = ground (arith, e, going, t); inside = ground (arith, e, going) },
        ground (arith, e, going),
      )
      | inl whole ↦ elim (Option-cases rx.decoder) [
        | inl no_decoder ↦ ground (arith, e, whole, no_decoder)
        | inr (d, has) ↦ elim (Option-cases (rx_buffer_finish_packet calls rx d)) [
          | inl broke ↦ ground (arith, e, whole, has, broke)
          | inr ((ok, next), done) ↦
              let same : next ≡ rx' = ground (arith, e, whole, has, done) in
              let fine : ok ≡ true = ground (arith, e, whole, has, done) in
              let (clear, open_header) =
                finish_resets rx d rx' (ground (arith, done, same, fine)) in
              (
                record {
                  takes = subst (λ p. TakesBoth p) (sym clear) (tt, tt);
                  inside = ground (arith, open_header);
                },
                ground (arith, e, whole, has, done),
              )
        ]
      ]
    ]

    step-IsReady :
        (rx : Rx W) (b : ℕ) (bs : List ℕ) (n : ℕ) (rx' : Rx W)
        → IsReady rx
        → rx_step message calls rx b bs ≡ taken n rx'
        → IsReady rx' × (0 < n)
    unfolding rx_step
    step-IsReady rx b bs n rx' r e = elim (Bool-cases rx.header_finished) [
      | inl whole ↦ elim (RxStep-cases (rx_remaining_step message calls rx (b ∷ bs))) [
        | inl (count, next, s) ↦
            let (t, some_bytes) = remaining_takes rx b bs count next r.takes (r.inside whole) s in
            took count next t some_bytes (ground (arith, e, whole, s))
        | inr (inl (next, s)) ↦ ground (arith, e, whole, s)
        | inr (inr (inl (count, next, s))) ↦ ground (arith, e, whole, s)
        | inr (inr (inr s)) ↦ ground (arith, e, whole, s)
      ]
      | inr not_whole ↦ elim (RxStep-cases (rx_header_step rx b)) [
        | inl (count, next, s) ↦
            let (t, some_bytes) = header_takes rx b count next r.takes s in
            took count next t some_bytes (ground (arith, e, not_whole, s))
        | inr (inl (next, s)) ↦ ground (arith, e, not_whole, s)
        | inr (inr (inl (count, next, s))) ↦ ground (arith, e, not_whole, s)
        | inr (inr (inr s)) ↦ ground (arith, e, not_whole, s)
      ]
    ]
      where
        took :
            (count : ℕ) (next : Rx W)
            → TakesBoth next.publish
            → 0 < count
            → (if next.header_finished
                then rx_finish_step message calls count next
                else taken count next)
              ≡ taken n rx'
            → IsReady rx' × (0 < n)
        took count next t some_bytes go = elim (Bool-cases next.header_finished) [
          | inl whole ↦
              let (ready, same) = finish-IsReady count next n rx' t (ground (arith, go, whole)) in
              (ready, omega arith)
          | inr not_whole ↦
              let same : next ≡ rx' = ground (arith, go, not_whole) in
              (
                record {
                  takes = subst (λ (x : Rx W). TakesBoth x.publish) same t;
                  inside = ground (arith, same, not_whole);
                },
                ground (arith, go, not_whole, some_bytes),
              )
        ]

    loop_ends :
        (fuel buf_len i : ℕ) (rx : Rx W) (buf : List ℕ)
        → IsReady rx
        → length buf ≤ fuel
        → rx_loop message calls fuel buf_len i rx buf ≢ unfinished
    unfolding rx_loop rx_return
    loop_ends fuel buf_len i rx [] r enough = ground arith
    loop_ends zero buf_len i rx (b ∷ bs) r enough = absurd (omega arith)
    loop_ends (suc fuel) buf_len i rx (b ∷ bs) r enough =
        elim (RxStep-cases (rx_step message calls rx b bs)) [
          | inl (count, next, s) ↦
              let (r', some_bytes) = step-IsReady rx b bs count next r s in
              let ih =
                loop_ends fuel buf_len (i + count) next (drop count (b ∷ bs)) r'
                  (omega (arith, length-drop count (b ∷ bs))) in
              ground (arith, s, ih)
          | inr (inl (next, s)) ↦ ground (arith, s)
          | inr (inr (inl (count, next, s))) ↦ ground (arith, s)
          | inr (inr (inr s)) ↦ ground (arith, s)
        ]

    -- `lmqtt_rx_buffer_decode` ends within one round of its loop for each byte of the buffer, if each
    -- write callback that reports success has taken a byte. The bytes and the state are arbitrary,
    -- but that a packet whose header is whole has bytes to come, as it has between two calls.
    pub decode_ends :
        (rx : Rx W) (buf : List ℕ) → IsReady rx → rx_buffer_decode message calls rx buf ≢ unfinished
    unfolding rx_buffer_decode
    decode_ends rx buf r = elim (Option-cases rx.error) [
      | inl fine ↦
          ground (arith, fine, loop_ends (length buf) (length buf) 0 rx buf r (omega arith))
      | inr (error, has) ↦ ground (arith, has)
    ]
