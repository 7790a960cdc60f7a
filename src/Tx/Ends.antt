-- ===== src/Tx/Ends.antt =====
-- The fuel of the loop of `lmqtt_tx_buffer_encode`.
use lightmqtt.Prelude.{ℕ, zero, suc, ◌+◌, ◌≤◌, ◌≡◌, ◌≢◌, sym, ap, ◌∙◌, arith, true}
use lightmqtt.Prelude.{Option, none, some, List, [], Option-cases, inl, inr, not, ◌&&◌, Bool-cases}
use lightmqtt.Store.{store_peek}
use lightmqtt.Store.Queue.{tail}
use lightmqtt.Store.Valid.{IsValid, queue}
use lightmqtt.Tx.Parts.{Heap}
use lightmqtt.Tx.Finders.{kind_of}
use lightmqtt.Tx.Weights.{weights, weight_at}
use lightmqtt.Tx.Loop.{
  Tx, TxEnd, unfinished, Calls, Current, Round, sent, left, ended, tx_round, tx_loop,
  tx_buffer_encode,
}
use lightmqtt.Tx.Leads.{
  rounds, waiting, need, peek-rounds, KeepsWeights, Leads, Round-cases, round-Leads,
}

module _ {W : Type 0} (calls : Calls W) (keeps : KeepsWeights calls) where
  -- What a round leads to is left to the loop, with less fuel.
  abbrev Continues : ℕ → Current → ℕ → List ℕ → Round W → TxEnd W
  Continues fuel c room out (sent tx heap out') = tx_loop calls fuel (some c) room tx heap out'
  Continues fuel c room out (left tx heap) = tx_loop calls fuel none room tx heap out
  Continues fuel c room out (ended e) = e

  loop_round :
      (fuel room : ℕ) (c : Current) (tx : Tx) (heap : Heap W) (out : List ℕ)
      → tx_loop calls (suc fuel) (some c) room tx heap out
        ≡ Continues fuel c room out (tx_round calls c room tx heap out)
  unfolding tx_loop
  loop_round fuel room c tx heap out = elim (Round-cases (tx_round calls c room tx heap out)) [
    | inl (tx', heap', out', e) ↦ ground (arith, e)
    | inr (inl (tx', heap', e)) ↦ ground (arith, e)
    | inr (inr (end, e)) ↦ ground (arith, e)
  ]

  Ends : ℕ → Type 0
  Ends fuel =
      (at : Option Current) (room : ℕ) (tx : Tx) (heap : Heap W) (out : List ℕ)
      → IsValid tx.store
      → need (weights heap.objects) at tx ≤ fuel
      → tx_loop calls fuel at room tx heap out ≢ unfinished

  round-Ends :
      (fuel room : ℕ) (c : Current) (tx : Tx) (heap : Heap W) (out : List ℕ) (r : Round W)
      → Ends fuel
      → IsValid tx.store
      → need (weights heap.objects) (some c) tx ≤ suc fuel
      → Leads c tx heap r
      → Continues fuel c room out r ≢ unfinished
  unfolding Ends
  round-Ends fuel room c tx heap out (sent tx' heap' out') ih v enough
        (store, place, same, inside) =
      let ws : List ℕ = weights heap.objects in
      let same_need : need (weights heap'.objects) (some c) tx' ≡ need ws (some c) tx' =
        ap (λ us. need us (some c) tx') same in
      let wait : rounds ws (tail (waiting tx')) ≡ rounds ws (tail (waiting tx)) =
        ap (λ st. rounds ws (tail (queue st).waiting)) store in
      ih (some c) room tx' heap' out' (rw store v) (omega (arith, same_need, wait, place, inside))
  round-Ends fuel room c tx heap out (left tx' heap') ih v enough ((v', shorter), same) =
      let ws : List ℕ = weights heap.objects in
      let same_need : need (weights heap'.objects) none tx' ≡ need ws none tx' =
        ap (λ us. need us none tx') same in
      let wait : rounds ws (waiting tx') ≡ rounds ws (tail (waiting tx)) =
        ap (λ es. rounds ws es) shorter in
      ih none room tx' heap' out v' (omega (arith, same_need, wait))
  round-Ends fuel room c tx heap out (ended e) ih v enough other = other

  take-Ends :
      (fuel room : ℕ) (tx : Tx) (heap : Heap W) (out : List ℕ)
      → Ends fuel
      → IsValid tx.store
      → need (weights heap.objects) none tx ≤ suc fuel
      → tx_loop calls (suc fuel) none room tx heap out ≢ unfinished
  unfolding Ends tx_loop
  take-Ends fuel room tx heap out ih v enough =
      elim (Bool-cases (not tx.closed && (store_peek tx.store).found)) [
        | inr stop ↦ ground (arith, stop)
        | inl go ↦
            let found : (store_peek tx.store).found ≡ true = ground (arith, go) in
            let ws : List ℕ = weights heap.objects in
            let all : rounds ws (waiting tx)
                ≡ 9
                  + weight_at ws (store_peek tx.store).value.value
                  + rounds ws (tail (waiting tx)) =
              peek-rounds ws tx v found in
            elim (Option-cases (kind_of (store_peek tx.store).kind)) [
              | inl unknown ↦ ground (arith, go, unknown)
              | inr (kind, known) ↦
                  let c : Current = record { kind = kind; value = (store_peek tx.store).value } in
                  let on : tx_loop calls fuel (some c) room tx heap out ≢ unfinished =
                    ih (some c) room tx heap out v (omega (arith, all, enough)) in
                  ground (arith, go, known, on)
            ]
      ]

  loop-Ends : (fuel : ℕ) → Ends fuel
  unfolding Ends tx_loop
  loop-Ends zero none room tx heap out v enough = absurd (omega (arith, enough))
  loop-Ends zero (some c) room tx heap out v enough = absurd (omega (arith, enough))
  loop-Ends (suc fuel) none room tx heap out v enough =
      take-Ends fuel room tx heap out (loop-Ends fuel) v enough
  loop-Ends (suc fuel) (some c) room tx heap out v enough = λ e.
      round-Ends fuel room c tx heap out (tx_round calls c room tx heap out) (loop-Ends fuel) v
        enough (round-Leads calls keeps c room tx heap out v)
        (sym (loop_round fuel room c tx heap out) ∙ e)

  -- With a valid store and callbacks that change no packet's number of parts, `lmqtt_tx_buffer_encode`
  -- ends, whatever the caller's room and whatever the strings' callbacks do: one round, and nine and
  -- two for each subscription for every packet that waits, are enough fuel.
  pub encode_ends :
      (fuel room : ℕ) (tx : Tx) (heap : Heap W)
      → IsValid tx.store
      → 1 + rounds (weights heap.objects) (queue tx.store).waiting ≤ fuel
      → tx_buffer_encode calls fuel room tx heap ≢ unfinished
  unfolding tx_buffer_encode Ends
  encode_ends fuel room tx heap v enough = elim (Option-cases tx.error) [
    | inl fine ↦
        let on : tx_loop calls fuel none room tx heap [] ≢ unfinished =
          loop-Ends fuel none room tx heap [] v enough in
        ground (arith, fine, on)
    | inr (e, wrong) ↦ ground (arith, wrong)
  ]
