-- ===== src/Store/Refine.antt =====
-- Each operation of a valid store does to its two queues what store/Queue says.
use lightmqtt.Prelude.{ℕ, zero, suc, ◌+◌, ◌-◌, ◌≤◌, ◌<◌, ◌≡◌, refl, ap, sym, arith}
use lightmqtt.Prelude.{true, false, Option, none, some, List, [], ◌∷◌, ◌⊎◌, inl, inr}
use lightmqtt.Prelude.{length, take, remove_at, get_or, ltb, Bool-cases}
use lightmqtt.Prelude.{length-take, take-append-drop, get_elem?}
use lightmqtt.Prelude.{take_pred-move_down, get_elem?-take, get_elem?-eq-get_or, get_elem?-none}
use lightmqtt.Store.Defs.{Store, StoreValue, Entry, Got, value_or_zero, zero_value}
use lightmqtt.Store.Defs.{zero_entry, got, nothing}
use lightmqtt.Store.Defs.{store_get_at, store_pop_at, store_append, store_delete_at}
use lightmqtt.Store.Defs.{store_mark_current, store_drop_current, store_peek, store_shift}
use lightmqtt.Store.Defs.{store_unmark_all, store_find_loop, store_find, store_pop_marked_by}
use lightmqtt.Store.Queue
use lightmqtt.Store.Queue.{Queue}
use lightmqtt.Store.Valid.{IsValid, items, queue}
use lightmqtt.Store.Arrays.{
  take_pred-remove_at, drop_pred-remove_at, take-remove_at_ge, drop-remove_at_ge, drop-set_ge,
  take-set_ge, drop_of_lt, take-suc, drop_of_ge, length-prefix, length-suffix, take_of_zero,
  take-take,
}

-- A value for the record of the two queues.
queue_eq :
    (c : ℕ) {a b x y : List Entry}
    → a ≡ x
    → b ≡ y
    → ◌≡◌ {A = Queue}
        (record { cap = c; sent = a; waiting = b })
        (record { cap = c; sent = x; waiting = y })
queue_eq c p q i = record { cap = c; sent = p i; waiting = q i }

pub append_refines :
    (s : Store) (k : ℕ) (x : Option StoreValue)
    → IsValid s
    → let (r, s') = store_append s k x in
      let (r', q) = Queue.append (queue s) (record { kind = k; value = value_or_zero x }) in
      (r ≡ r') × (queue s' ≡ q)
unfolding store_append Queue.append
append_refines s k x v = ground (
  arith,
  length-prefix s.entries s.pos s.count,
  length-suffix s.entries s.pos s.count,
  take-set_ge s.entries s.pos s.count (record { kind = k; value = value_or_zero x }),
  drop-set_ge s.entries s.pos s.count (record { kind = k; value = value_or_zero x }),
)

pub mark_refines :
    (s : Store)
    → IsValid s
    → let (r, s') = store_mark_current s in
      let (r', q) = Queue.mark (queue s) (queue s).waiting in (r ≡ r') × (queue s' ≡ q)
unfolding store_mark_current Queue.mark
mark_refines s v = ground (
  arith,
  drop_of_lt s.entries s.pos s.count zero_entry,
  drop_of_ge s.entries s.pos s.count,
  take-suc s.entries s.pos s.count zero_entry,
)

-- Taking out the entry at a place in range.
pop_at_in :
    (s : Store) (p : ℕ)
    → IsValid s
    → p < s.count
    → (queue (store_pop_at s p).store ≡ Queue.delete_at (queue s) p)
      × ((store_pop_at s p).out ≡ got (get_or s.entries p zero_entry))
unfolding store_pop_at Queue.delete_at
pop_at_in s p v h = ground (
  arith,
  length-take s.count s.entries,
  length-prefix s.entries s.pos s.count,
  take_pred-move_down s.entries p s.count (s.capacity - p - 1),
  take_pred-remove_at (items s) s.pos p,
  drop_pred-remove_at (items s) s.pos p,
  take-remove_at_ge (items s) s.pos p,
  drop-remove_at_ge (items s) s.pos p (p - s.pos),
)

pop_at_out :
    (s : Store) (p : ℕ) → s.count ≤ p → store_pop_at s p ≡ record { out = nothing; store = s }
unfolding store_pop_at
pop_at_out s p h = ground arith

pub delete_at_refines :
    (s : Store) (p : ℕ)
    → IsValid s
    → (p < s.count
        → (queue (store_delete_at s p).1 ≡ Queue.delete_at (queue s) p)
          × ((store_delete_at s p).0 ≡ true))
      × (s.count ≤ p → store_delete_at s p ≡ (false, s))
unfolding store_delete_at
delete_at_refines s p v = (
  λ h. let (q, o) = pop_at_in s p v h in (q, ap (λ (g : Got). g.found) o),
  λ h. rw (pop_at_out s p h),
)

-- What a client sees of an entry that may be there.
abbrev pub answer : Option Entry → Got
answer none = nothing
answer (some e) = got e

pub peek_refines : (s : Store) → IsValid s → store_peek s ≡ answer (Queue.head? (queue s).waiting)
unfolding store_peek store_get_at
peek_refines s v =
    ground
      (arith, drop_of_lt s.entries s.pos s.count zero_entry, drop_of_ge s.entries s.pos s.count)

pub drop_current_refines :
    (s : Store)
    → IsValid s
    → let (r, s') = store_drop_current s in
      (r ≡ (answer (Queue.head? (queue s).waiting)).found)
      × (queue s' ≡ record (queue s) { waiting = Queue.tail (queue s).waiting })
unfolding store_drop_current store_pop_at store_get_at
drop_current_refines s v = ground (
  arith,
  drop_of_lt s.entries s.pos s.count zero_entry,
  drop_of_ge s.entries s.pos s.count,
  take_pred-move_down s.entries s.pos s.count (s.capacity - s.pos - 1),
  take-remove_at_ge (items s) s.pos s.pos,
  drop-remove_at_ge (items s) s.pos s.pos 0,
)

pub shift_refines :
    (s : Store)
    → IsValid s
    → let r = store_shift s in
      (r.out ≡ answer (Queue.head? (Queue.all (queue s)))) × (queue r.store ≡ Queue.shift (queue s))
unfolding store_shift
shift_refines s v = rw (take-append-drop s.pos (items s)) (elim (Bool-cases (ltb 0 s.count)) [
  | inl some_entry ↦ ground (
    arith,
    pop_at_in s 0 v,
    Queue.delete_at-zero (queue s),
    drop_of_lt s.entries 0 s.count zero_entry,
  )
  | inr no_entry ↦ ground (
    arith,
    pop_at_out s 0,
    Queue.shift-nil s.capacity,
    drop_of_ge s.entries 0 s.count,
    drop_of_ge s.entries s.pos s.count,
    take_of_zero s.entries s.pos s.count,
  )
])

pub get_at_refines :
    (s : Store) (p : ℕ) → IsValid s → store_get_at s p ≡ answer (get_elem? (Queue.all (queue s)) p)
unfolding store_get_at
get_at_refines s p v = rw (take-append-drop s.pos (items s)) (
    ground (
      arith,
      get_elem?-take s.entries s.count p,
      get_elem?-eq-get_or s.entries p zero_entry,
      get_elem?-none (items s) p,
      length-take s.count s.entries,
    ))

pub unmark_all_refines :
    (s : Store)
    → queue (store_unmark_all s) ≡ record (queue s) { sent = []; waiting = Queue.all (queue s) }
unfolding store_unmark_all
unmark_all_refines s = queue_eq s.capacity refl (sym (take-append-drop s.pos (items s)))

find_loop_lem :
    (es : List Entry) (n i k id : ℕ)
    → n ≤ length es
    → ((store_find_loop es n i k id ≡ none) × (Queue.pop_first k id (take n es) ≡ none))
      ⊎ ((d : ℕ) × (d < n)
          × (store_find_loop es n i k id ≡ some (i + d))
          × (Queue.pop_first k id (take n es)
              ≡ some (get_or es d zero_entry, remove_at (take n es) d)))
unfolding store_find_loop Queue.pop_first
find_loop_lem es zero i k id h = inl (refl, refl)
find_loop_lem [] (suc n) i k id h = absurd (omega arith)
find_loop_lem (e ∷ es) (suc n) i k id h = elim (Bool-cases (Queue.matches k id e)) [
  | inl here ↦ inr (0, omega arith, rw here (ap some (omega arith)), rw here)
  | inr no_match ↦ elim (find_loop_lem es n (i + 1) k id (omega arith)) [
    | inl (a, b) ↦ inl (rw no_match a, rw (no_match, b))
    | inr (d, lt, a, b) ↦
        inr (suc d, omega arith, rw (no_match, a) (ap some (omega arith)), rw (no_match, b))
  ]
]

pub pop_marked_by_refines :
    (s : Store) (k id : ℕ)
    → IsValid s
    → let (r, x, s') = store_pop_marked_by s k id in
      ((Queue.pop_first k id (queue s).sent ≡ none) × (r ≡ false) × (x ≡ zero_value) × (s' ≡ s))
      ⊎ ((e : Entry) × (es : List Entry) × (Queue.pop_first k id (queue s).sent ≡ some (e, es))
          × (r ≡ true)
          × (x ≡ e.value)
          × (queue s' ≡ record (queue s) { sent = es }))
unfolding store_pop_marked_by store_find Queue.delete_at
pop_marked_by_refines s k id v = elim (find_loop_lem s.entries s.pos 0 k id (omega arith)) [
  | inl (a, b) ↦ inl (ground (arith, whole, a, b), ground arith, ground arith, ground arith)
  | inr (d, lt, a, b) ↦ inr (
    get_or s.entries d zero_entry,
    remove_at (take s.pos s.entries) d,
    ground (arith, whole, a, b),
    ground (arith, a, pop_at_in s d v),
    ground (arith, a, pop_at_in s d v),
    ground (arith, a, whole, pop_at_in s d v, length-prefix s.entries s.pos s.count),
  )
]
  where
    whole : take s.pos (items s) ≡ take s.pos s.entries
    whole = take-take s.entries s.pos s.count (omega arith)
