-- ===== src/Store/Valid.antt =====
-- The representation invariant of the store, and its two queues.
use lightmqtt.Prelude.{ℕ, ◌-◌, ◌^◌, ◌≤◌, ◌<◌, ◌≡◌, Option, inl, inr, arith}
use lightmqtt.Prelude.{Option-cases, List, length, take, drop, length-set, length-move_down}
use lightmqtt.Store.Defs.{Store, StoreValue, Entry, value_or_zero, store_pop_at}
use lightmqtt.Store.Defs.{store_get_id, store_append, store_delete_at, store_mark_current}
use lightmqtt.Store.Defs.{store_drop_current, store_find, store_pop_marked_by, store_shift}
use lightmqtt.Store.Defs.{store_unmark_all}
use lightmqtt.Store.Queue.{Queue, size}
use lightmqtt.Store.Arrays.{length-prefix, length-suffix}

pub record IsValid (s : Store) : Type 0 where
  pub sent_in : s.pos ≤ s.count
  pub fits : s.count ≤ s.capacity
  pub storage : s.capacity ≤ length s.entries
  pub id_in : s.next_packet_id < 2 ^ 16

abbrev pub items : Store → List Entry
items s = take s.count s.entries

abbrev pub queue : Store → Queue
queue s = record { cap = s.capacity; sent = take s.pos (items s); waiting = drop s.pos (items s) }

pub pop_at-IsValid : (s : Store) (p : ℕ) → IsValid s → IsValid (store_pop_at s p).store
unfolding store_pop_at
pop_at-IsValid s p v = ground (arith, length-move_down s.entries p (s.capacity - p - 1))

pub append-IsValid :
    (s : Store) (k : ℕ) (x : Option StoreValue) → IsValid s → IsValid (store_append s k x).1
unfolding store_append
append-IsValid s k x v =
    ground (arith, length-set s.entries s.count (record { kind = k; value = value_or_zero x }))

pub mark_current-IsValid : (s : Store) → IsValid s → IsValid (store_mark_current s).1
unfolding store_mark_current
mark_current-IsValid s v = ground arith

pub get_id-IsValid : (s : Store) → IsValid s → IsValid (store_get_id s).1
unfolding store_get_id
get_id-IsValid s v = omega arith

pub drop_current-IsValid : (s : Store) → IsValid s → IsValid (store_drop_current s).1
unfolding store_drop_current
drop_current-IsValid s v = pop_at-IsValid s s.pos v

pub delete_at-IsValid : (s : Store) (p : ℕ) → IsValid s → IsValid (store_delete_at s p).1
unfolding store_delete_at
delete_at-IsValid s p v = pop_at-IsValid s p v

pub shift-IsValid : (s : Store) → IsValid s → IsValid (store_shift s).store
unfolding store_shift
shift-IsValid s v = pop_at-IsValid s 0 v

pub unmark_all-IsValid : (s : Store) → IsValid s → IsValid (store_unmark_all s)
unfolding store_unmark_all
unmark_all-IsValid s v = omega arith

pub pop_marked_by-IsValid :
    (s : Store) (k id : ℕ) → IsValid s → IsValid (store_pop_marked_by s k id).2
unfolding store_pop_marked_by
pop_marked_by-IsValid s k id v = elim (Option-cases (store_find s k id)) [
  | inl e ↦ rw (e, store_pop_marked_by) v
  | inr (p, e) ↦ rw (e, store_pop_marked_by) (pop_at-IsValid s p v)
]

pub size-queue : (s : Store) → IsValid s → size (queue s) ≡ s.count
size-queue s v = omega (
  arith,
  length-prefix s.entries s.pos s.count (omega arith) (omega arith),
  length-suffix s.entries s.pos s.count (omega arith),
)
