-- ===== src/Tx/Bounds.antt =====
-- The places at which the finders find parts.
use lightmqtt.Prelude.{ℕ, zero, suc, ◌+◌, ◌-◌, ◌*◌, ◌/◌, ◌≤◌, ◌<◌, ◌≡◌, sym, ap, ◌∙◌, arith}
use lightmqtt.Prelude.{
  Option, none, some, List, [], ◌∷◌, length, get_elem?, set, Option-cases, inl, inr,
}
use lightmqtt.Core.{
  Kind, connect, publish_0, publish_1, publish_2, puback, pubrec, pubrel, pubcomp, subscribe,
  unsubscribe, pingreq, disconnect,
}
use lightmqtt.Strings.{nat_of}
use lightmqtt.Tx.Parts.{
  Object, subscribe_object, publish_object, Heap, Part, as_publish, as_subscribe, load,
  puback_fixed_header, pubrec_fixed_header, pubrel_fixed_header, pubcomp_fixed_header,
  pingreq_fixed_header, disconnect_fixed_header,
}
use lightmqtt.Tx.Finders.{
  Found, connect_parts, publish_parts, tx_buffer_finder_by_kind, tx_buffer_finder_connect,
  tx_buffer_finder_single, tx_buffer_finder_subscribe, tx_buffer_finder_unsubscribe,
  tx_buffer_finder_publish,
}
use lightmqtt.Tx.Weights.{
  weight, weights, weight_at, weights-set, bind_some, subscribe_view, publish_view,
}

weight_at-weights :
    {W : Type 0} (os : List (Object W)) (at : ℕ) (o : Object W)
    → get_elem? os at ≡ some o
    → weight_at (weights os) (some at) ≡ weight o
weight_at-weights [] at o e = cc
weight_at-weights (x ∷ os) zero o e = ground arith
weight_at-weights (x ∷ os) (suc at) o e = weight_at-weights os at o e

get_elem?-bound :
    {A : Type 0} (xs : List A) (i : ℕ) (x : A) → get_elem? xs i ≡ some x → i < length xs
get_elem?-bound [] i x e = cc
get_elem?-bound (y ∷ xs) zero x e = omega arith
get_elem?-bound (y ∷ xs) (suc i) x e = omega (arith, get_elem?-bound xs i x e)

-- A finder keeps them too, and finds a part before the end only.
abbrev pub Finds : {W : Type 0} → ℕ → Option ℕ → Heap W → Found W → Type 0
Finds place value heap f =
    (weights f.heap.objects ≡ weights heap.objects)
    × ((part : Part) → f.part ≡ some part → place < 7 + weight_at (weights heap.objects) value)

connect-Finds :
    {W : Type 0} (place : ℕ) (value : Option ℕ) (heap : Heap W) (f : Found W)
    → tx_buffer_finder_connect place value heap ≡ some f
    → Finds place value heap f
unfolding tx_buffer_finder_connect
connect-Finds place value heap f h = (
  ground (arith, h),
  λ part e. omega (arith, get_elem?-bound connect_parts place part (ground (arith, h, e))),
)

single-Finds :
    {W : Type 0} (only : Part) (place : ℕ) (value : Option ℕ) (heap : Heap W) (f : Found W)
    → tx_buffer_finder_single only place value heap ≡ some f
    → Finds place value heap f
unfolding tx_buffer_finder_single
single-Finds only place value heap f h = (ground (arith, h), λ part e. ground (arith, h, e))

publish_parts-length : (qos : ℕ) → length (publish_parts qos) ≤ 4
publish_parts-length qos = ground arith

publish-Finds :
    {W : Type 0} (place : ℕ) (value : Option ℕ) (heap : Heap W) (f : Found W)
    → tx_buffer_finder_publish place value heap ≡ some f
    → Finds place value heap f
unfolding tx_buffer_finder_publish
publish-Finds place none heap f h = cc
publish-Finds place (some at) heap f h =
    let ((i, p), l, h1) = bind_some (load as_publish heap (some at)) _ h in
    let (o, got, l1) = bind_some (get_elem? heap.objects at) _ l in
    let (p', is, l2) = bind_some (as_publish o) _ l1 in
    let place_eq : at ≡ i = ground (arith, l2) in
    let p_eq : p' ≡ p = ground (arith, l2) in
    let light : 0 ≡ weight o = publish_view o p' is in
    elim (Option-cases (get_elem? (publish_parts p.qos) place)) [
      | inl e ↦ (
        ground (
          arith,
          h1,
          e,
          place_eq,
          weights-set heap.objects at o
              (publish_object (record p { encode_count = p.encode_count + 1 })) got light,
        ),
        λ part e'. ground (arith, h1, e, e'),
      )
      | inr (part', e) ↦ (
        ground (arith, h1, e),
        λ part _. omega (
          arith,
          get_elem?-bound (publish_parts p.qos) place part' e,
          publish_parts-length p.qos,
        ),
      )
    ]

subscribe-Finds :
    {W : Type 0} (place : ℕ) (value : Option ℕ) (heap : Heap W) (f : Found W)
    → tx_buffer_finder_subscribe place value heap ≡ some f
    → Finds place value heap f
unfolding tx_buffer_finder_subscribe
subscribe-Finds place none heap f h = cc
subscribe-Finds place (some at) heap f h =
    let ((i, s), l, h1) = bind_some (load as_subscribe heap (some at)) _ h in
    let (o, got, l1) = bind_some (get_elem? heap.objects at) _ l in
    let (s', is, l2) = bind_some (as_subscribe o) _ l1 in
    let place_eq : at ≡ i = ground (arith, l2) in
    let s_eq : s' ≡ s = ground (arith, l2) in
    let heavy : weight (subscribe_object s) ≡ weight o =
      ap (λ x. weight (subscribe_object x)) (sym s_eq) ∙ subscribe_view o s' is in
    let all : weight_at (weights heap.objects) (some at) ≡ 2 * nat_of s.count =
      weight_at-weights heap.objects at o got ∙ sym heavy in
    let kept : (c : Option ℕ)
        → weights (set heap.objects at (subscribe_object (record s { current = c })))
          ≡ weights heap.objects =
      λ c. weights-set heap.objects at o (subscribe_object (record s { current = c })) got heavy in
    (
      ground (arith, h1, place_eq, kept none, kept (some ((place - 1) / 2))),
      λ part e. ground (arith, h1, e, all),
    )

unsubscribe-Finds :
    {W : Type 0} (place : ℕ) (value : Option ℕ) (heap : Heap W) (f : Found W)
    → tx_buffer_finder_unsubscribe place value heap ≡ some f
    → Finds place value heap f
unfolding tx_buffer_finder_unsubscribe
unsubscribe-Finds place none heap f h = cc
unsubscribe-Finds place (some at) heap f h =
    let ((i, s), l, h1) = bind_some (load as_subscribe heap (some at)) _ h in
    let (o, got, l1) = bind_some (get_elem? heap.objects at) _ l in
    let (s', is, l2) = bind_some (as_subscribe o) _ l1 in
    let place_eq : at ≡ i = ground (arith, l2) in
    let s_eq : s' ≡ s = ground (arith, l2) in
    let heavy : weight (subscribe_object s) ≡ weight o =
      ap (λ x. weight (subscribe_object x)) (sym s_eq) ∙ subscribe_view o s' is in
    let all : weight_at (weights heap.objects) (some at) ≡ 2 * nat_of s.count =
      weight_at-weights heap.objects at o got ∙ sym heavy in
    let kept : (c : Option ℕ)
        → weights (set heap.objects at (subscribe_object (record s { current = c })))
          ≡ weights heap.objects =
      λ c. weights-set heap.objects at o (subscribe_object (record s { current = c })) got heavy in
    (
      ground (arith, h1, place_eq, kept none, kept (some (place - 1))),
      λ part e. ground (arith, h1, e, all),
    )

-- Every finder does so.
pub find-Finds :
    {W : Type 0} (kind : Kind) (place : ℕ) (value : Option ℕ) (heap : Heap W) (f : Found W)
    → tx_buffer_finder_by_kind kind place value heap ≡ some f
    → Finds place value heap f
unfolding tx_buffer_finder_by_kind
find-Finds connect = connect-Finds
find-Finds subscribe = subscribe-Finds
find-Finds unsubscribe = unsubscribe-Finds
find-Finds publish_0 = publish-Finds
find-Finds publish_1 = publish-Finds
find-Finds publish_2 = publish-Finds
find-Finds puback = single-Finds puback_fixed_header
find-Finds pubrec = single-Finds pubrec_fixed_header
find-Finds pubrel = single-Finds pubrel_fixed_header
find-Finds pubcomp = single-Finds pubcomp_fixed_header
find-Finds pingreq = single-Finds pingreq_fixed_header
find-Finds disconnect = single-Finds disconnect_fixed_header
