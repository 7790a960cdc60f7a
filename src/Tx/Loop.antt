-- ===== src/Tx/Loop.antt =====
-- `lmqtt_tx_buffer_encode`: packets are taken from the store and sent as far as the caller's buffer
-- has room.
use lightmqtt.Prelude.{
  ℕ, zero, suc, ◌+◌, ◌-◌, Bool, true, false, not, ◌&&◌, ◌||◌, ltb, if◌then◌else◌,
}
use lightmqtt.Prelude.{Option, none, some, List, [], ◌++◌, length}
use lightmqtt.Core.{
  IoResult, io_success, io_would_block, io_error, Error, callback_publish, Kind, publish_0,
  disconnect,
}
use lightmqtt.Encode.{finished, continue, would_block, failed, EncodeBuffer, zero_buffer, Encoded}
use lightmqtt.Store.{
  Store, StoreValue, Callback, store_peek, store_drop_current, store_mark_current,
}
use lightmqtt.Tx.Parts.{Heap, run_part}
use lightmqtt.Tx.Finders.{tx_buffer_finder_by_kind, kind_expects_response, kind_of}

-- `lmqtt_tx_buffer_t`, with the store that it points to.
pub record Tx : Type 0 where
  pub store : Store
  pub closed : Bool
  pub pos : ℕ
  pub offset : ℕ
  pub buffer : EncodeBuffer
  pub error : Option Error
  pub os_error : ℕ

-- `lmqtt_tx_buffer_reset`
unfoldable pub tx_buffer_reset : Tx → Tx
tx_buffer_reset tx = record tx {
  closed = false;
  pos = 0;
  offset = 0;
  buffer = zero_buffer;
  error = none;
  os_error = 0;
}

-- `lmqtt_tx_buffer_finish`
unfoldable pub tx_buffer_finish : Tx → Tx
tx_buffer_finish tx = record tx { closed = true }

-- `tx_buffer_fail`, without the returned `LMQTT_IO_ERROR`
unfoldable pub tx_buffer_fail : Tx → Option Error → ℕ → Tx
tx_buffer_fail tx error os_error = record tx { error = error; os_error = os_error }

-- `lmqtt_tx_buffer_get_error`
unfoldable pub tx_buffer_get_error : Tx → Option Error × ℕ
tx_buffer_get_error tx = (tx.error, tx.os_error)

-- `lmqtt_tx_buffer_get_blocking_str`
unfoldable pub tx_buffer_get_blocking_str : Tx → Option ℕ
tx_buffer_get_blocking_str tx = tx.buffer.blocking_str

-- A call of a stored callback: whether it returned nonzero, and what it changed.
abbrev pub Calls : Type 0 → Type 0
Calls W = Callback → Option ℕ → Option ℕ → Heap W → Bool × Heap W

-- How a call of `lmqtt_tx_buffer_encode` ends: with a fault, without fuel, or with its result, the
-- bytes that it wrote and what it left.
pub data TxEnd (W : Type 0) : Type 0 where
  fault unfinished : TxEnd W
  returned : IoResult → List ℕ → Tx → Heap W → TxEnd W

-- The packet that the inner loop is at: its kind and the copied value.
pub record Current : Type 0 where
  pub kind : Kind
  pub value : StoreValue

-- What one round of the inner loop leads to: the next round, the outer loop or an end.
pub data Round (W : Type 0) : Type 0 where
  sent : Tx → Heap W → List ℕ → Round W
  left : Tx → Heap W → Round W
  ended : TxEnd W → Round W

module _ {W : Type 0} (calls : Calls W) where
  abbrev pub call_back : StoreValue → Heap W → Bool × Heap W
  call_back v heap = elim v.callback [
    | none ↦ (true, heap)
    | some f ↦ calls f v.callback_data v.value heap
  ]

  -- The branch of the inner loop behind the last part.
  unfoldable pub tx_packet_done : Current → Tx → Heap W → List ℕ → Round W
  unfolding tx_buffer_finish tx_buffer_fail tx_buffer_reset kind_expects_response
  tx_packet_done c tx heap out =
      let dropped = record tx { store = (store_drop_current tx.store).1 } in
      let marked = record tx { store = (store_mark_current tx.store).1 } in
      let (ok, heap') = call_back c.value heap in
      if kind_expects_response c.kind then left (tx_buffer_reset marked) heap else elim c.kind [
        | disconnect ↦ left (tx_buffer_finish dropped) heap
        | publish_0 ↦
            if ok
            then left (tx_buffer_reset dropped) heap'
            else ended
                (returned io_error out (tx_buffer_fail dropped (some callback_publish) 0) heap')
        | _ ↦ if ok then left (tx_buffer_reset dropped) heap' else ended fault
      ]

  -- What the inner loop makes of an encoder's result.
  unfoldable pub tx_part_result : Tx → List ℕ → Encoded (Heap W) → Round W
  unfolding tx_buffer_fail
  tx_part_result tx out e =
      let tx' = record tx { buffer = e.buffer } in
      elim e.result [
        | would_block ↦ ended (returned io_would_block out tx' e.rest)
        | continue ↦ ended (
            returned io_success (out ++ e.written)
              (record tx' { offset = tx.offset + length e.written }) e.rest)
        | failed ↦
            ended
              (returned io_error out (tx_buffer_fail tx' e.buffer.error e.buffer.os_error) e.rest)
        | finished ↦ sent (record tx' { pos = tx.pos + 1; offset = 0 }) e.rest (out ++ e.written)
      ]

  -- One round of the inner loop, for a buffer of `room` bytes of which `out` are written.
  unfoldable pub tx_round : Current → ℕ → Tx → Heap W → List ℕ → Round W
  unfolding tx_packet_done tx_part_result tx_buffer_finder_by_kind run_part
  tx_round c room tx heap out = elim (tx_buffer_finder_by_kind c.kind tx.pos c.value.value heap) [
    | none ↦ ended fault
    | some f ↦ elim f.part [
      | none ↦ tx_packet_done c tx f.heap out
      | some part ↦ elim (run_part part c.value tx.buffer tx.offset (room - length out) f.heap) [
        | none ↦ ended fault
        | some e ↦ tx_part_result tx out e
      ]
    ]
  ]

  -- The end of the function, behind the outer loop.
  abbrev pub tx_done : Tx → Heap W → List ℕ → TxEnd W
  tx_done tx heap out =
      returned (if ltb 0 (length out) || tx.closed then io_success else io_would_block) out tx heap

  -- Both loops: in the outer one without a packet, in the inner one with it.
  unfoldable pub tx_loop : ℕ → Option Current → ℕ → Tx → Heap W → List ℕ → TxEnd W
  unfolding tx_round kind_of store_peek
  tx_loop zero at room tx heap out = unfinished
  tx_loop (suc fuel) none room tx heap out =
      let g = store_peek tx.store in
      if not tx.closed && g.found
      then elim (kind_of g.kind) [
        | none ↦ fault
        | some kind ↦ tx_loop fuel (some (record { kind = kind; value = g.value })) room tx heap out
      ]
      else tx_done tx heap out
  tx_loop (suc fuel) (some c) room tx heap out = elim (tx_round c room tx heap out) [
    | sent tx' heap' out' ↦ tx_loop fuel (some c) room tx' heap' out'
    | left tx' heap' ↦ tx_loop fuel none room tx' heap' out
    | ended e ↦ e
  ]

  -- `lmqtt_tx_buffer_encode_impl`
  unfoldable pub tx_buffer_encode : ℕ → ℕ → Tx → Heap W → TxEnd W
  unfolding tx_loop
  tx_buffer_encode fuel room tx heap = elim tx.error [
    | some e ↦ returned io_error [] tx heap
    | none ↦ tx_loop fuel none room tx heap []
  ]
