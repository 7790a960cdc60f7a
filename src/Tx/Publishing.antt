-- ===== src/Tx/Publishing.antt =====
-- A PUBLISH of QoS 1 or 2 in the loop of `lmqtt_tx_buffer_encode`.
use lightmqtt.Prelude.{
  ℕ, suc, ◌+◌, ◌-◌, ◌≤◌, ◌<◌, ◌≡◌, refl, sym, ap, ◌∙◌, arith, Bool, true, false,
}
use lightmqtt.Prelude.{none, some, List, ◌++◌, length, get_elem?}
use lightmqtt.Prelude.{length-append, append_assoc, set-get_elem?}
use lightmqtt.Core.{kind_code}
use lightmqtt.Encode.{EncodeBuffer, zero_buffer, two_bytes}
use lightmqtt.Encode.Pieces.{part}
use lightmqtt.Strings.Encoding.{IsMemory}
use lightmqtt.Store.{StoreValue, store_mark_current, store_peek}
use lightmqtt.Publish.{
  Publish, publish_validate, publish_build_fixed_header, publish_encode_fixed_header,
  publish_encode_topic, publish_encode_packet_id, publish_encode_payload,
}
use lightmqtt.Publish.Header.{header_built}
use lightmqtt.Tx.Parts.{
  publish_object, Heap, publish_fixed_header, publish_topic, publish_packet_id, publish_payload,
  run_part,
}
use lightmqtt.Tx.Finders.{kind_of}
use lightmqtt.Tx.Loop.{Tx, Calls, tx_loop, tx_buffer_reset}
use lightmqtt.Tx.Rounds.{publish_kind, holding, loop_sends, loop_marks}
use lightmqtt.Tx.PublishParts.{
  after, moved, header_sends, packet_id_sends, topic-Sends, payload-Sends,
}

-- The packet behind the fixed header.
abbrev pub body : List ℕ → ℕ → List ℕ → List ℕ
body topic packet_id payload =
    (two_bytes (length topic) ++ topic) ++ (two_bytes packet_id ++ payload)

-- The packet after it was sent.
abbrev pub sent_once : {W : Type 0} → Publish W → ℕ → ℕ → Publish W
sent_once p n m = record p {
  topic = moved p.topic n;
  payload = moved p.payload m;
  encode_count = p.encode_count + 1;
}

kind_of_code : (two : Bool) → kind_of (kind_code (publish_kind two)) ≡ some (publish_kind two)
unfolding kind_of
kind_of_code true = refl
kind_of_code false = refl

loop_starts :
    {W : Type 0} (calls : Calls W) (two : Bool) (v : StoreValue) (fuel room : ℕ) (tx : Tx)
    (heap : Heap W) (out : List ℕ)
    → store_peek tx.store ≡ record { found = true; kind = kind_code (publish_kind two); value = v }
    → tx.closed ≡ false
    → tx_loop calls (suc fuel) none room tx heap out
      ≡ tx_loop calls fuel (some (record { kind = publish_kind two; value = v })) room tx heap out
unfolding tx_loop
loop_starts calls two v fuel room tx heap out peek running = ground (arith, peek, kind_of_code two)

flat : (a b c d e : List ℕ) → (((a ++ b) ++ c) ++ d) ++ e ≡ a ++ (b ++ (c ++ (d ++ e)))
flat a b c d e =
    append_assoc ((a ++ b) ++ c) d e
    ∙ append_assoc (a ++ b) c (d ++ e)
    ∙ append_assoc a b (c ++ (d ++ e))

module _ {W : Type 0} (calls : Calls W) (two : Bool) (v : StoreValue) (heap : Heap W) (at : ℕ)
    (p : Publish W) (topic payload : List ℕ) (has : v.value ≡ some at)
    (stands : get_elem? heap.objects at ≡ some (publish_object p))
    (in_topic : IsMemory p.topic topic) (in_payload : IsMemory p.payload payload)
    (valid : publish_validate p ≡ true) (acknowledged : 0 < p.qos) where
  -- The four parts and the mark, from a state that is at the packet.
  current_sent :
      (fuel room : ℕ) (tx : Tx) (x : EncodeBuffer) (out : List ℕ)
      → tx.pos ≡ 0
      → tx.offset ≡ 0
      → tx.buffer.encoded ≡ false
      → length tx.buffer.buf ≡ 16
      → publish_build_fixed_header p tx.buffer ≡ some x
      → length out + length (part x) + length (body topic v.packet_id payload) ≤ room
      → (n : ℕ) × (m : ℕ) × (tx_loop calls
            (suc (suc (suc (suc (suc fuel)))))
            (some (record { kind = publish_kind two; value = v }))
            room
            tx
            (holding heap at p)
            out
          ≡ tx_loop calls fuel none room
              (tx_buffer_reset (record tx { store = (store_mark_current tx.store).1 }))
              (holding heap at (sent_once p n m))
              (out ++ (part x ++ body topic v.packet_id payload)))
  unfolding run_part tx_buffer_reset
  current_sent fuel room tx x out start whole new space built_eq fits =
      let w : W = heap.world in
      let id : ℕ = v.packet_id in
      let (inside, _) = set-get_elem? heap.objects at (publish_object p) stands in
      let (pos, _, size) =
        header_built p topic payload in_topic in_payload tx.buffer x valid space built_eq in
      let all : length (body topic id payload) ≡ 4 + length topic + length payload =
        omega (arith, length-append topic (two_bytes id ++ payload)) in
      let out1 : List ℕ = out ++ part x in
      let l1 : length out1 ≡ length out + length (part x) = length-append out (part x) in
      let out2 : List ℕ = out1 ++ (two_bytes (length topic) ++ topic) in
      let l2 : length out2 ≡ length out1 + (2 + length topic) =
        omega (arith, length-append out1 (two_bytes (length topic) ++ topic)) in
      let out3 : List ℕ = out2 ++ two_bytes id in
      let l3 : length out3 ≡ length out2 + 2 = length-append out2 (two_bytes id) in
      let tx1 : Tx = record tx { buffer = zero_buffer; pos = tx.pos + 1; offset = 0 } in
      let (b2, n, e2, k2, s2) =
        topic-Sends p topic zero_buffer (room - length out1) w in_topic (omega arith) in
      let p2 : Publish W = record p { topic = moved p.topic n } in
      let tx2 : Tx = record tx1 { buffer = b2; pos = tx1.pos + 1; offset = 0 } in
      let tx3 : Tx = record tx2 { buffer = zero_buffer; pos = tx2.pos + 1; offset = 0 } in
      let (b4, m, e4, _, _) =
        payload-Sends p2 payload zero_buffer (room - length out3) w in_payload (omega arith) in
      let p4 : Publish W = record p2 { payload = moved p.payload m } in
      let tx4 : Tx = record tx3 { buffer = b4; pos = tx3.pos + 1; offset = 0 } in
      let space2 : length b2.buf ≡ 16 = ap length s2 in
      (
        n,
        m,
        loop_sends calls two v heap at has inside (suc (suc (suc (suc fuel)))) room p
              publish_fixed_header publish_encode_fixed_header (after (part x) zero_buffer p w) tx
              out (ground arith) refl whole
              (header_sends p tx.buffer x (room - length out) w new built_eq pos (omega arith)) refl
              refl
            ∙ loop_sends calls two v heap at has inside (suc (suc (suc fuel))) room p publish_topic
                publish_encode_topic (after (two_bytes (length topic) ++ topic) b2 p2 w) tx1 out1
                (ground arith) refl refl e2 refl refl
            ∙ loop_sends calls two v heap at has inside (suc (suc fuel)) room p2 publish_packet_id
                (publish_encode_packet_id id) (after (two_bytes id) zero_buffer p2 w) tx2 out2
                (ground arith) refl refl
                (packet_id_sends id p2 b2 (room - length out2) w k2 (omega arith) (omega arith))
                refl refl
            ∙ loop_sends calls two v heap at has inside (suc fuel) room p2 publish_payload
                publish_encode_payload (after payload b4 p4 w) tx3 out3 (ground arith) refl refl e4
                refl refl
            ∙ loop_marks calls two v heap at has inside fuel room p4 tx4 (out3 ++ payload)
                (ground arith)
            ∙ ap
                (λ bytes.
                  tx_loop calls fuel none room
                    (tx_buffer_reset (record tx { store = (store_mark_current tx.store).1 }))
                    (holding heap at (sent_once p n m)) bytes)
                (flat out (part x) (two_bytes (length topic) ++ topic) (two_bytes id) payload),
      )

  -- At a PUBLISH of QoS 1 or 2 whose strings are in memory, with nothing of it sent yet and room for
  -- it all, six rounds of the loop write its fixed header, the topic with its length, the packet id
  -- and the payload, in this order and nothing else. The packet is marked as sent, counts as sent
  -- once more, and the loop goes on with the buffer reset.
  pub publish_sent :
      (fuel room : ℕ) (tx : Tx) (x : EncodeBuffer) (out : List ℕ)
      → store_peek tx.store
        ≡ record { found = true; kind = kind_code (publish_kind two); value = v }
      → tx.closed ≡ false
      → tx.pos ≡ 0
      → tx.offset ≡ 0
      → tx.buffer.encoded ≡ false
      → length tx.buffer.buf ≡ 16
      → publish_build_fixed_header p tx.buffer ≡ some x
      → length out + length (part x) + length (body topic v.packet_id payload) ≤ room
      → (n : ℕ) × (m : ℕ) × (tx_loop calls (6 + fuel) none room tx heap out
          ≡ tx_loop calls fuel none room
              (tx_buffer_reset (record tx { store = (store_mark_current tx.store).1 }))
              (holding heap at (sent_once p n m))
              (out ++ (part x ++ body topic v.packet_id payload)))
  publish_sent fuel room tx x out peek running start whole new space built_eq fits =
      let (n, m, e) = current_sent fuel room tx x out start whole new space built_eq fits in
      let same : heap ≡ holding heap at p =
        ap (λ objects. record heap { objects = objects })
          (sym (set-get_elem? heap.objects at (publish_object p) stands).1) in
      let five : ℕ = suc (suc (suc (suc (suc fuel)))) in
      let count : 6 + fuel ≡ suc five = omega arith in
      (
        n,
        m,
        ap (λ k. tx_loop calls k none room tx heap out) count
            ∙ loop_starts calls two v five room tx heap out peek running
            ∙ ap
                (λ h.
                  tx_loop calls five (some (record { kind = publish_kind two; value = v })) room tx
                    h out)
                same
            ∙ e,
      )
