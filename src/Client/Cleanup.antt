-- ===== src/Client/Cleanup.antt =====
-- What `client_cleanup_stores` leaves of a session that is kept.
use lightmqtt.Prelude.{
  ℕ, zero, suc, ◌+◌, ◌-◌, ◌≤◌, ◌<◌, ◌≡◌, refl, sym, ap, ◌∙◌, arith, Bool, true, false, not, ◌||◌,
  some, List, [], ◌∷◌, ◌++◌,
}
use lightmqtt.Prelude.{
  if◌then◌else◌, ◌==◌, Bool-cases, Option-cases, inl, inr, length, ltb, get_elem?, remove_at,
}
use lightmqtt.Core.{kind_code}
use lightmqtt.Core
use lightmqtt.Store.{Store, Entry, store_get_at, store_pop_at, store_delete_at}
use lightmqtt.Store.Defs.{got}
use lightmqtt.Store.Queue.{Queue, delete_at}
use lightmqtt.Store.Queue
use lightmqtt.Store.Valid.{IsValid, queue, size-queue, delete_at-IsValid}
use lightmqtt.Store.Refine.{answer, get_at_refines, delete_at_refines}
use lightmqtt.Client.Requests.{cleanup_loop}

-- PINGREQs and DISCONNECTs belong to one connection.
abbrev pub is_kept : Entry → Bool
is_kept e =
    not ((e.kind == kind_code Core.Kind.pingreq) || (e.kind == kind_code Core.Kind.disconnect))

abbrev pub kept : List Entry → List Entry
kept [] = []
kept (e ∷ es) = if is_kept e then e ∷ kept es else kept es

-- The entries from the place `i` on, looked through.
abbrev kept_from : ℕ → List Entry → List Entry
kept_from zero es = kept es
kept_from (suc i) [] = []
kept_from (suc i) (e ∷ es) = e ∷ kept_from i es

from_end : (i : ℕ) (es : List Entry) → length es ≤ i → kept_from i es ≡ es
from_end zero [] h = refl
from_end zero (e ∷ es) h = absurd (omega arith)
from_end (suc i) [] h = refl
from_end (suc i) (e ∷ es) h = ap (λ xs. e ∷ xs) (from_end i es (omega arith))

from_kept :
    (i : ℕ) (es : List Entry) (e : Entry)
    → get_elem? es i ≡ some e
    → is_kept e ≡ true
    → kept_from i es ≡ kept_from (suc i) es
from_kept i [] e h k = cc
from_kept zero (x ∷ es) e h k = ground (arith, h, k)
from_kept (suc i) (x ∷ es) e h k = ap (λ xs. x ∷ xs) (from_kept i es e h k)

from_dropped :
    (i : ℕ) (es : List Entry) (e : Entry)
    → get_elem? es i ≡ some e
    → is_kept e ≡ false
    → kept_from i es ≡ kept_from i (remove_at es i)
from_dropped i [] e h k = cc
from_dropped zero (x ∷ es) e h k = ground (arith, h, k)
from_dropped (suc i) (x ∷ es) e h k = ap (λ xs. x ∷ xs) (from_dropped i es e h k)

-- The two queues from the entry `i` of both on.
abbrev looked_through : ℕ → Queue → Queue
looked_through i q = record q {
  sent = kept_from i q.sent;
  waiting = kept_from (i - length q.sent) q.waiting;
}

get_elem?-append_left :
    (xs ys : List Entry) (i : ℕ) → i < length xs → get_elem? (xs ++ ys) i ≡ get_elem? xs i
get_elem?-append_left [] ys i h = absurd (omega arith)
get_elem?-append_left (x ∷ xs) ys zero h = refl
get_elem?-append_left (x ∷ xs) ys (suc i) h = get_elem?-append_left xs ys i (omega arith)

get_elem?-append_right :
    (xs ys : List Entry) (i : ℕ)
    → length xs ≤ i
    → get_elem? (xs ++ ys) i ≡ get_elem? ys (i - length xs)
get_elem?-append_right [] ys i h = ap (λ n. get_elem? ys n) (omega arith)
get_elem?-append_right (x ∷ xs) ys zero h = absurd (omega arith)
get_elem?-append_right (x ∷ xs) ys (suc i) h =
    get_elem?-append_right xs ys i (omega arith) ∙ ap (λ n. get_elem? ys n) (omega arith)

queue_eq :
    (c : ℕ) {a b x y : List Entry}
    → a ≡ x
    → b ≡ y
    → ◌≡◌ {A = Queue}
        (record { cap = c; sent = a; waiting = b })
        (record { cap = c; sent = x; waiting = y })
queue_eq c p q i = record { cap = c; sent = p i; waiting = q i }

passes :
    (q : Queue) (i : ℕ) (e : Entry)
    → get_elem? (q.sent ++ q.waiting) i ≡ some e
    → is_kept e ≡ true
    → looked_through i q ≡ looked_through (i + 1) q
passes q i e h k =
    let next : suc i ≡ i + 1 = omega arith in
    elim (Bool-cases (ltb i (length q.sent))) [
      | inl in_sent ↦
          let lt : i < length q.sent = ground (arith, in_sent) in
          let front : i - length q.sent ≡ i + 1 - length q.sent = omega arith in
          queue_eq q.cap
            (from_kept i q.sent e (sym (get_elem?-append_left q.sent q.waiting i lt) ∙ h) k
              ∙ ap (λ n. kept_from n q.sent) next)
            (ap (λ n. kept_from n q.waiting) front)
      | inr in_waiting ↦
          let ge : length q.sent ≤ i = ground (arith, in_waiting) in
          let after : suc (i - length q.sent) ≡ i + 1 - length q.sent = omega arith in
          queue_eq q.cap (from_end i q.sent ge ∙ sym (from_end (i + 1) q.sent (omega arith))) (
            from_kept (i - length q.sent) q.waiting e
              (sym (get_elem?-append_right q.sent q.waiting i ge) ∙ h) k
            ∙ ap (λ n. kept_from n q.waiting) after)
    ]

length-remove_at :
    (es : List Entry) (i : ℕ) → i < length es → suc (length (remove_at es i)) ≡ length es
length-remove_at [] i h = absurd (omega arith)
length-remove_at (e ∷ es) zero h = refl
length-remove_at (e ∷ es) (suc i) h = ap suc (length-remove_at es i (omega arith))

drops :
    (q : Queue) (i : ℕ) (e : Entry)
    → get_elem? (q.sent ++ q.waiting) i ≡ some e
    → is_kept e ≡ false
    → looked_through i q ≡ looked_through i (delete_at q i)
unfolding delete_at
drops q i e h k = elim (Bool-cases (ltb i (length q.sent))) [
  | inl in_sent ↦
      let lt : i < length q.sent = ground (arith, in_sent) in
      let front : i - length q.sent ≡ i - length (remove_at q.sent i) =
        omega (arith, length-remove_at q.sent i lt) in
      queue_eq q.cap
        (from_dropped i q.sent e (sym (get_elem?-append_left q.sent q.waiting i lt) ∙ h) k)
        (ap (λ n. kept_from n q.waiting) front)
      ∙ ground (arith, in_sent)
  | inr in_waiting ↦
      let ge : length q.sent ≤ i = ground (arith, in_waiting) in
      queue_eq q.cap refl (
        from_dropped (i - length q.sent) q.waiting e
          (sym (get_elem?-append_right q.sent q.waiting i ge) ∙ h) k)
      ∙ ground (arith, in_waiting)
]

ends : (q : Queue) (i : ℕ) → Queue.size q ≤ i → looked_through i q ≡ q
ends q i h =
    queue_eq q.cap (from_end i q.sent (omega arith))
      (from_end (i - length q.sent) q.waiting (omega arith))

found_entry :
    (s : Store) (i : ℕ)
    → IsValid s
    → i < s.count
    → (e : Entry) × (store_get_at s i ≡ got e)
      × (get_elem? ((queue s).sent ++ (queue s).waiting) i ≡ some e)
unfolding store_get_at
found_entry s i v h = elim (Option-cases (get_elem? ((queue s).sent ++ (queue s).waiting) i)) [
  | inl missing ↦ ground (arith, get_at_refines s i v, missing)
  | inr (e, there) ↦ (e, get_at_refines s i v ∙ ap answer there, there)
]

delete_count : (s : Store) (i : ℕ) → i < s.count → suc (store_delete_at s i).1.count ≡ s.count
unfolding store_delete_at store_pop_at store_get_at
delete_count s i h = ground arith

not_found : (s : Store) (i : ℕ) → s.count ≤ i → (store_get_at s i).found ≡ false
unfolding store_get_at
not_found s i h = ground arith

loop_kept :
    (n : ℕ) (s : Store) (i : ℕ)
    → IsValid s
    → s.count ≤ i + n
    → queue (cleanup_loop n s i) ≡ looked_through i (queue s)
unfolding cleanup_loop
loop_kept zero s i v h = sym (ends (queue s) i (omega (arith, size-queue s v)))
loop_kept (suc n) s i v h = elim (Bool-cases (ltb i s.count)) [
  | inr over ↦
      let ge : s.count ≤ i = ground (arith, over) in
      ground (arith, not_found s i ge, ends (queue s) i (omega (arith, size-queue s v, ge)))
  | inl inside ↦
      let lt : i < s.count = ground (arith, inside) in
      let (e, got_it, there) = found_entry s i v lt in
      let (deletes, _) = delete_at_refines s i v in
      let (same, ok) = deletes lt in
      let deleted : Store = (store_delete_at s i).1 in
      elim (Bool-cases (is_kept e)) [
        | inl keep ↦ ground (
          arith,
          got_it,
          keep,
          loop_kept n s (i + 1) v (omega arith),
          passes (queue s) i e there keep,
        )
        | inr drop ↦ ground (
          arith,
          got_it,
          drop,
          loop_kept n deleted i (delete_at-IsValid s i v) (omega (arith, delete_count s i lt)),
          drops (queue s) i e there drop,
          ap (λ q. looked_through i q) same,
        )
      ]
]

-- The cleanup of a session that is kept takes the PINGREQs and DISCONNECTs out of the main store,
-- sent or not, and leaves all other requests, in their order and sent as far as they were.
pub cleanup_keeps :
    (s : Store)
    → IsValid s
    → queue (cleanup_loop s.count s 0)
      ≡ record (queue s) { sent = kept (queue s).sent; waiting = kept (queue s).waiting }
cleanup_keeps s v =
    let front : 0 - length (queue s).sent ≡ 0 = omega arith in
    loop_kept s.count s 0 v (omega arith)
    ∙ queue_eq (queue s).cap refl (ap (λ n. kept_from n (queue s).waiting) front)
