-- ===== src/Store/Sessions.antt =====
-- Sequences of calls of the store, against the same calls of the two queues.
use lightmqtt.Prelude.{ℕ, ◌≡◌, refl, ap, ap₂, ◌∙◌, arith}
use lightmqtt.Prelude.{Bool, true, false, Option, none, some, List, [], ◌∷◌, ltb}
use lightmqtt.Prelude.{get_elem?, if◌then◌else◌}
use lightmqtt.Store.Defs.{Store, StoreValue, Entry, Got, nothing, value_or_zero}
use lightmqtt.Store.Defs.{store_get_at, store_append, store_delete_at, store_mark_current}
use lightmqtt.Store.Defs.{store_drop_current, store_peek, store_pop_marked_by, store_shift}
use lightmqtt.Store.Defs.{store_unmark_all}
use lightmqtt.Store.Queue
use lightmqtt.Store.Queue.{Queue}
use lightmqtt.Store.Valid.{
  IsValid, queue, append-IsValid, delete_at-IsValid, mark_current-IsValid, drop_current-IsValid,
  pop_marked_by-IsValid, size-queue, shift-IsValid, unmark_all-IsValid,
}
use lightmqtt.Store.Refine.{
  answer, append_refines, mark_refines, delete_at_refines, peek_refines, drop_current_refines,
  shift_refines, unmark_all_refines, pop_marked_by_refines, get_at_refines,
}

-- The calls, but for those that read or set the clock and the counter of packet ids.
pub data Op : Type 0 where
  append : ℕ → Option StoreValue → Op
  get_at delete_at : ℕ → Op
  peek mark_current drop_current shift unmark_all : Op
  pop_marked_by : ℕ → ℕ → Op

-- A call that gives no entry back answers with its returned int alone.
abbrev flag : Bool → Got
flag r = record nothing { found = r }

abbrev valued : Bool → StoreValue → Got
valued r v = record nothing { found = r; value = v }

abbrev pub step : Store → Op → Got × Store
step s (append k v) = let (r, s') = store_append s k v in (flag r, s')
step s (get_at p) = (store_get_at s p, s)
step s (delete_at p) = let (r, s') = store_delete_at s p in (flag r, s')
step s peek = (store_peek s, s)
step s mark_current = let (r, s') = store_mark_current s in (flag r, s')
step s drop_current = let (r, s') = store_drop_current s in (flag r, s')
step s shift = let r = store_shift s in (r.out, r.store)
step s unmark_all = (nothing, store_unmark_all s)
step s (pop_marked_by k id) = let (r, v, s') = store_pop_marked_by s k id in (valued r v, s')

pub run : Store → List Op → List Got
run s [] = []
run s (op ∷ ops) = let (r, s') = step s op in r ∷ run s' ops

abbrev pop_answer : Queue → Option (Entry × List Entry) → Got × Queue
pop_answer q none = (nothing, q)
pop_answer q (some (e, es)) = (valued true e.value, record q { sent = es })

abbrev pub queue_step : Queue → Op → Got × Queue
queue_step q (append k v) =
    let (r, q') = Queue.append q (record { kind = k; value = value_or_zero v }) in (flag r, q')
queue_step q (get_at p) = (answer (get_elem? (Queue.all q) p), q)
queue_step q (delete_at p) =
    if ltb p (Queue.size q) then (flag true, Queue.delete_at q p) else (flag false, q)
queue_step q peek = (answer (Queue.head? q.waiting), q)
queue_step q mark_current = let (r, q') = Queue.mark q q.waiting in (flag r, q')
queue_step q drop_current =
    (flag (answer (Queue.head? q.waiting)).found, record q { waiting = Queue.tail q.waiting })
queue_step q shift = (answer (Queue.head? (Queue.all q)), Queue.shift q)
queue_step q unmark_all = (nothing, record q { sent = []; waiting = Queue.all q })
queue_step q (pop_marked_by k id) = pop_answer q (Queue.pop_first k id q.sent)

pub queue_run : Queue → List Op → List Got
queue_run q [] = []
queue_run q (op ∷ ops) = let (r, q') = queue_step q op in r ∷ queue_run q' ops

-- One call answers as the queues do, leaves what they hold, and keeps the store valid.
pub step_refines :
    (s : Store) (op : Op)
    → IsValid s
    → let (r, s') = step s op in
      let (r', q) = queue_step (queue s) op in (r ≡ r') × (queue s' ≡ q) × IsValid s'
step_refines s (append k v) w = ground (arith, append_refines s k v w, append-IsValid s k v w)
step_refines s (get_at p) w = (get_at_refines s p w, refl, w)
step_refines s (delete_at p) w =
    ground (arith, delete_at_refines s p w, delete_at-IsValid s p w, size-queue s w)
step_refines s peek w = (peek_refines s w, refl, w)
step_refines s mark_current w = ground (arith, mark_refines s w, mark_current-IsValid s w)
step_refines s drop_current w = ground (arith, drop_current_refines s w, drop_current-IsValid s w)
step_refines s shift w = let (a, b) = shift_refines s w in (a, b, shift-IsValid s w)
step_refines s unmark_all w = (refl, unmark_all_refines s, unmark_all-IsValid s w)
step_refines s (pop_marked_by k id) w =
    ground (arith, pop_marked_by_refines s k id w, pop_marked_by-IsValid s k id w)

-- No sequence of the calls in `Op` tells a valid store from the two queues that it holds: each call
-- answers the same.
pub run_refines : (ops : List Op) (s : Store) → IsValid s → run s ops ≡ queue_run (queue s) ops
unfolding run queue_run
run_refines [] s v = refl
run_refines (op ∷ ops) s v =
    let (r, q, v') = step_refines s op v in
    ap₂ ◌∷◌ r (run_refines ops (step s op).1 v' ∙ ap (λ x. queue_run x ops) q)
