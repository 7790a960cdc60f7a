-- ===== src/Tx/Leads.antt =====
-- What a round of the inner loop of `lmqtt_tx_buffer_encode` leads to.
use lightmqtt.Prelude.{ℕ, ◌+◌, ◌-◌, ◌<◌, ◌≡◌, ◌≢◌, refl, sym, ap, ◌∙◌, arith, true}
use lightmqtt.Prelude.{Option, none, some, List, [], ◌∷◌, length, Option-cases, inl, inr, ◌⊎◌}
use lightmqtt.Encode.{Encoded}
use lightmqtt.Store.{
  Store, StoreValue, Callback, Entry, store_peek, store_mark_current, store_drop_current,
}
use lightmqtt.Store.Queue
use lightmqtt.Store.Queue.{Queue, head?, tail}
use lightmqtt.Store.Valid.{IsValid, queue, mark_current-IsValid, drop_current-IsValid}
use lightmqtt.Store.Refine.{answer, mark_refines, peek_refines, drop_current_refines}
use lightmqtt.Tx.Parts.{Heap, run_part}
use lightmqtt.Tx.Finders.{tx_buffer_finder_by_kind}
use lightmqtt.Tx.Weights.{weights, weight_at, run_part-weights}
use lightmqtt.Tx.Bounds.{find-Finds}
use lightmqtt.Tx.Loop.{
  Tx, TxEnd, unfinished, Calls, Current, Round, call_back, sent, left, ended, tx_part_result,
  tx_packet_done, tx_round,
}

-- The rounds that the waiting packets take: one to take a packet from the store, one for each part,
-- at most seven and those of the subscriptions, and one to leave it.
abbrev pub rounds : List ℕ → List Entry → ℕ
rounds ws [] = 0
rounds ws (e ∷ es) = 9 + weight_at ws e.value.value + rounds ws es

abbrev pub waiting : Tx → List Entry
waiting tx = (queue tx.store).waiting

-- The fuel that is enough between packets, and in one.
abbrev pub need : List ℕ → Option Current → Tx → ℕ
need ws none tx = 1 + rounds ws (waiting tx)
need ws (some c) tx = (7 + weight_at ws c.value.value - tx.pos) + 2 + rounds ws (tail (waiting tx))

answer-rounds :
    (ws : List ℕ) (es : List Entry)
    → (answer (head? es)).found ≡ true
    → rounds ws es ≡ 9 + weight_at ws (answer (head? es)).value.value + rounds ws (tail es)
answer-rounds ws [] e = cc
answer-rounds ws (x ∷ es) e = refl

pub peek-rounds :
    (ws : List ℕ) (tx : Tx)
    → IsValid tx.store
    → (store_peek tx.store).found ≡ true
    → rounds ws (waiting tx)
      ≡ 9 + weight_at ws (store_peek tx.store).value.value + rounds ws (tail (waiting tx))
peek-rounds ws tx v e =
    let p : store_peek tx.store ≡ answer (head? (waiting tx)) = peek_refines tx.store v in
    answer-rounds ws (waiting tx) (ap (λ g. g.found) (sym p) ∙ e)
    ∙ ap (λ g. 9 + weight_at ws g.value.value + rounds ws (tail (waiting tx))) (sym p)

mark-waiting :
    (q : Queue) (es : List Entry) → q.waiting ≡ es → (Queue.mark q es).1.waiting ≡ tail es
unfolding Queue.mark
mark-waiting q [] e = e
mark-waiting q (x ∷ es) e = refl

-- The packet is taken out of what waits.
abbrev pub Shorter : Store → Store → Type 0
Shorter s s' = IsValid s' × ((queue s').waiting ≡ tail (queue s).waiting)

marked : (s : Store) → IsValid s → Shorter s (store_mark_current s).1
marked s v = (
  mark_current-IsValid s v,
  ap (λ q. q.waiting) (mark_refines s v).1 ∙ mark-waiting (queue s) (queue s).waiting refl,
)

dropped : (s : Store) → IsValid s → Shorter s (store_drop_current s).1
dropped s v = (drop_current-IsValid s v, ap (λ q. q.waiting) (drop_current_refines s v).1)

pub Round-cases :
    {W : Type 0} (r : Round W)
    → ((tx : Tx) × (heap : Heap W) × (out : List ℕ) × (r ≡ sent tx heap out))
      ⊎ ((tx : Tx) × (heap : Heap W) × (r ≡ left tx heap))
      ⊎ ((end : TxEnd W) × (r ≡ ended end))
Round-cases (sent tx heap out) = inl (tx, heap, out, refl)
Round-cases (left tx heap) = inr (inl (tx, heap, refl))
Round-cases (ended end) = inr (inr (end, refl))

abbrev pub KeepsWeights : {W : Type 0} → Calls W → Type 0
KeepsWeights {W} calls =
    (f : Callback) (d v : Option ℕ) (h : Heap W)
    → weights (calls f d v h).1.objects ≡ weights h.objects

-- What a round leads to: the next part, the store without the packet, or a result.
abbrev pub Leads : {W : Type 0} → Current → Tx → Heap W → Round W → Type 0
Leads c tx heap (sent tx' heap' out) =
    (tx'.store ≡ tx.store)
    × (tx'.pos ≡ tx.pos + 1)
    × (weights heap'.objects ≡ weights heap.objects)
    × (tx.pos < 7 + weight_at (weights heap.objects) c.value.value)
Leads c tx heap (left tx' heap') =
    Shorter tx.store tx'.store × (weights heap'.objects ≡ weights heap.objects)
Leads c tx heap (ended e) = e ≢ unfinished

module _ {W : Type 0} (calls : Calls W) (keeps : KeepsWeights calls) where
  call_back-weights :
      (v : StoreValue) (heap : Heap W)
      → weights (call_back calls v heap).1.objects ≡ weights heap.objects
  call_back-weights v heap = elim (Option-cases v.callback) [
    | inl e ↦ ground (arith, e)
    | inr (f, e) ↦ ground (arith, e, keeps f v.callback_data v.value heap)
  ]

  done-Leads :
      (c : Current) (tx : Tx) (heap heap' : Heap W) (out : List ℕ)
      → IsValid tx.store
      → weights heap'.objects ≡ weights heap.objects
      → Leads c tx heap (tx_packet_done calls c tx heap' out)
  unfolding tx_packet_done
  done-Leads c tx heap heap' out v same =
      ground (arith, marked tx.store v, dropped tx.store v, same, call_back-weights c.value heap')

  result-Leads :
      (c : Current) (tx : Tx) (heap : Heap W) (out : List ℕ) (e : Encoded (Heap W))
      → weights e.rest.objects ≡ weights heap.objects
      → tx.pos < 7 + weight_at (weights heap.objects) c.value.value
      → Leads c tx heap (tx_part_result calls tx out e)
  unfolding tx_part_result
  result-Leads c tx heap out e same inside = ground (arith, same, inside)

  pub round-Leads :
      (c : Current) (room : ℕ) (tx : Tx) (heap : Heap W) (out : List ℕ)
      → IsValid tx.store
      → Leads c tx heap (tx_round calls c room tx heap out)
  unfolding tx_round
  round-Leads c room tx heap out v =
      elim (Option-cases (tx_buffer_finder_by_kind c.kind tx.pos c.value.value heap)) [
        | inl e ↦ ground (arith, e)
        | inr (f, e) ↦
            let (same, inside) = find-Finds c.kind tx.pos c.value.value heap f e in
            elim (Option-cases f.part) [
              | inl none_left ↦ ground (arith, e, none_left, done-Leads c tx heap f.heap out v same)
              | inr (part, is) ↦
                  elim (Option-cases
                    (run_part part c.value tx.buffer tx.offset (room - length out) f.heap)) [
                      | inl g ↦ ground (arith, e, is, g)
                      | inr (r, g) ↦
                          let kept : weights r.rest.objects ≡ weights heap.objects =
                            run_part-weights part c.value tx.buffer tx.offset (room - length out)
                              f.heap r g
                            ∙ same in
                          ground
                            (arith, e, is, g, result-Leads c tx heap out r kept (inside part is))
                    ]
            ]
      ]
