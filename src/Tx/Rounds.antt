-- ===== src/Tx/Rounds.antt =====
-- Rounds of the inner loop that send a whole part of a PUBLISH.
use lightmqtt.Prelude.{ℕ, suc, ◌+◌, ◌-◌, ◌<◌, ◌≡◌, refl, ap, ◌∙◌, arith, Bool, true, false}
use lightmqtt.Prelude.{none, some, List, ◌++◌, length, get_elem?, if◌then◌else◌}
use lightmqtt.Prelude.{get_elem?-set, set-set}
use lightmqtt.Core.{Kind, publish_1, publish_2}
use lightmqtt.Encode.{finished, EncodeBuffer, Encoded}
use lightmqtt.Packet.{Encoder}
use lightmqtt.Store.{StoreValue, store_mark_current}
use lightmqtt.Publish.{Publish}
use lightmqtt.Tx.Parts.{publish_object, Heap, Part, as_publish, store_object, run_part, on_object}
use lightmqtt.Tx.Finders.{
  tx_buffer_finder_publish, tx_buffer_finder_by_kind, publish_parts, kind_expects_response,
}
use lightmqtt.Tx.Loop.{Tx, Current, Calls, sent, left, tx_round, tx_loop, tx_buffer_reset}

-- The kinds of PUBLISH whose response is waited for: QoS 2 if `two`, otherwise QoS 1.
abbrev pub publish_kind : Bool → Kind
publish_kind two = if two then publish_2 else publish_1

abbrev pub holding : {W : Type 0} → Heap W → ℕ → Publish W → Heap W
holding heap at p = store_object heap at (publish_object p)

by_kind :
    {W : Type 0} (two : Bool)
    → tx_buffer_finder_by_kind {W = W} (publish_kind two) ≡ tx_buffer_finder_publish
unfolding tx_buffer_finder_by_kind
by_kind true = refl
by_kind false = refl

expects : (two : Bool) → kind_expects_response (publish_kind two) ≡ true
unfolding kind_expects_response
expects true = refl
expects false = refl

module _ {W : Type 0} (calls : Calls W) (two : Bool) (v : StoreValue) (heap : Heap W) (at : ℕ)
    (has : v.value ≡ some at) (inside : at < length heap.objects) where
  abbrev pub current : Current
  current = record { kind = publish_kind two; value = v }

  on_holding :
      (p : Publish W) (enc : Encoder (Publish W) W) (b : EncodeBuffer) (room : ℕ)
      (e : Encoded (Publish W × W))
      → enc p b 0 room heap.world ≡ some e
      → e.rest.1 ≡ heap.world
      → on_object as_publish publish_object v.value enc b 0 room (holding heap at p)
        ≡ some (record {
          result = e.result;
          written = e.written;
          buffer = e.buffer;
          rest = holding heap at e.rest.0;
        })
  unfolding on_object
  on_holding p enc b room e s w = rw (
    has,
    get_elem?-set heap.objects at (publish_object p) inside,
    s,
    w,
    set-set heap.objects at (publish_object p) (publish_object e.rest.0),
  )

  find_holding :
      (p : Publish W) (place : ℕ) (part : Part)
      → get_elem? (publish_parts p.qos) place ≡ some part
      → tx_buffer_finder_by_kind (publish_kind two) place v.value (holding heap at p)
        ≡ some (record { part = some part; heap = holding heap at p })
  unfolding tx_buffer_finder_publish
  find_holding p place part e =
      ap (λ f. f place v.value (holding heap at p)) (by_kind two)
      ∙ ground (arith, has, get_elem?-set heap.objects at (publish_object p) inside, e)

  find_end :
      (p : Publish W) (place : ℕ)
      → get_elem? (publish_parts p.qos) place ≡ none
      → tx_buffer_finder_by_kind (publish_kind two) place v.value (holding heap at p)
        ≡ some (record {
          part = none;
          heap = holding heap at (record p { encode_count = p.encode_count + 1 });
        })
  unfolding tx_buffer_finder_publish
  find_end p place e =
      let p' : Publish W = record p { encode_count = p.encode_count + 1 } in
      ap (λ f. f place v.value (holding heap at p)) (by_kind two)
      ∙ ground (
        arith,
        has,
        get_elem?-set heap.objects at (publish_object p) inside,
        e,
        set-set heap.objects at (publish_object p) (publish_object p'),
      )

  round_sends :
      (room : ℕ) (p : Publish W) (part : Part) (enc : Encoder (Publish W) W)
      (e : Encoded (Publish W × W)) (tx : Tx) (out : List ℕ)
      → get_elem? (publish_parts p.qos) tx.pos ≡ some part
      → run_part part v ≡ on_object as_publish publish_object v.value enc
      → tx.offset ≡ 0
      → enc p tx.buffer 0 (room - length out) heap.world ≡ some e
      → e.result ≡ finished
      → e.rest.1 ≡ heap.world
      → tx_round calls current room tx (holding heap at p) out
        ≡ sent
            (record tx { buffer = e.buffer; pos = tx.pos + 1; offset = 0 })
            (holding heap at e.rest.0)
            (out ++ e.written)
  unfolding tx_round
  round_sends room p part enc e tx out here run start s done w =
      let run_eq : run_part part v tx.buffer tx.offset (room - length out) (holding heap at p)
          ≡ some (record {
            result = e.result;
            written = e.written;
            buffer = e.buffer;
            rest = holding heap at e.rest.0;
          }) =
        ap (λ f. f tx.buffer tx.offset (room - length out) (holding heap at p)) run
        ∙ ap
            (λ n.
              on_object as_publish publish_object v.value enc tx.buffer n (room - length out)
                (holding heap at p))
            start
        ∙ on_holding p enc tx.buffer (room - length out) e s w in
      ground (arith, find_holding p tx.pos part here, run_eq, done)

  round_marks :
      (room : ℕ) (p : Publish W) (tx : Tx) (out : List ℕ)
      → get_elem? (publish_parts p.qos) tx.pos ≡ none
      → tx_round calls current room tx (holding heap at p) out
        ≡ left
            (tx_buffer_reset (record tx { store = (store_mark_current tx.store).1 }))
            (holding heap at (record p { encode_count = p.encode_count + 1 }))
  unfolding tx_round
  round_marks room p tx out here = ground (arith, find_end p tx.pos here, expects two)

  -- The loop sends one part whole, and goes on with the next.
  pub loop_sends :
      (fuel room : ℕ) (p : Publish W) (part : Part) (enc : Encoder (Publish W) W)
      (e : Encoded (Publish W × W)) (tx : Tx) (out : List ℕ)
      → get_elem? (publish_parts p.qos) tx.pos ≡ some part
      → run_part part v ≡ on_object as_publish publish_object v.value enc
      → tx.offset ≡ 0
      → enc p tx.buffer 0 (room - length out) heap.world ≡ some e
      → e.result ≡ finished
      → e.rest.1 ≡ heap.world
      → tx_loop calls (suc fuel) (some current) room tx (holding heap at p) out
        ≡ tx_loop calls fuel
            (some current)
            room
            (record tx { buffer = e.buffer; pos = tx.pos + 1; offset = 0 })
            (holding heap at e.rest.0)
            (out ++ e.written)
  unfolding tx_loop
  loop_sends fuel room p part enc e tx out here run start s done w =
      ground (arith, round_sends room p part enc e tx out here run start s done w)

  -- Behind the last part the packet is marked, and the loop looks for another one.
  pub loop_marks :
      (fuel room : ℕ) (p : Publish W) (tx : Tx) (out : List ℕ)
      → get_elem? (publish_parts p.qos) tx.pos ≡ none
      → tx_loop calls (suc fuel) (some current) room tx (holding heap at p) out
        ≡ tx_loop calls fuel none room
            (tx_buffer_reset (record tx { store = (store_mark_current tx.store).1 }))
            (holding heap at (record p { encode_count = p.encode_count + 1 }))
            out
  unfolding tx_loop
  loop_marks fuel room p tx out here = ground (arith, round_marks room p tx out here)
