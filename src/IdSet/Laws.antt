-- ===== src/IdSet/Laws.antt =====
-- `lmqtt_id_set_t` as a finite set of ids.
use lightmqtt.Prelude.{ℕ, zero, suc, ◌+◌, ◌-◌, ◌*◌, ◌≤◌, ◌<◌, ◌≡◌, refl, ap, ◌∙◌, arith}
use lightmqtt.Prelude.{Bool, true, false, not, ◌&&◌, ◌||◌, none, some, ◌⊎◌, inl, inr}
use lightmqtt.Prelude.{List, [], ◌∷◌, ◌++◌, length, take, set, remove_at, move_down, ltb, ◌==◌}
use lightmqtt.Prelude.{if◌then◌else◌, length-set, length-move_down, take-set_self}
use lightmqtt.Prelude.{occurs, Bool-cases, take_pred-move_down}
use lightmqtt.IdSet.{IdSet, id_set_find, id_set_contains, id_set_put, id_set_remove}

abbrev pub IsDistinct : List ℕ → Type 0
IsDistinct [] = Unit
IsDistinct (x ∷ xs) = (occurs x xs ≡ false) × IsDistinct xs

abbrev pub ids : IdSet → List ℕ
ids s = take s.count s.items

pub record IsValid (s : IdSet) : Type 0 where
  pub fits : s.count ≤ s.capacity
  pub storage : s.capacity ≤ length s.items
  pub distinct : IsDistinct (ids s)

-- Where the search ends.
abbrev pub FoundAt : List ℕ → ℕ → ℕ → ℕ → Type 0
FoundAt xs n i id =
    ((id_set_find xs n i id ≡ none) × (occurs id (take n xs) ≡ false))
    ⊎ ((d : ℕ) × (d < n)
        × (id_set_find xs n i id ≡ some (i + d))
        × (occurs id (take n xs) ≡ true)
        × ((a : ℕ)
            → IsDistinct (take n xs)
            → occurs a (remove_at (take n xs) d)
              ≡ (if id == a then false else occurs a (take n xs)))
        × (IsDistinct (take n xs) → IsDistinct (remove_at (take n xs) d)))

pub find_cases : (xs : List ℕ) (n i id : ℕ) → n ≤ length xs → FoundAt xs n i id
unfolding id_set_find
find_cases xs zero i id h = inl (refl, refl)
find_cases [] (suc n) i id h = absurd (omega arith)
find_cases (x ∷ xs) (suc n) i id h = elim (Bool-cases (x == id)) [
  | inl here ↦ inr (0, omega arith, ground arith, ground arith, λ a u. ground arith, λ u. u.1)
  | inr no_match ↦ elim (find_cases xs n (i + 1) id (omega arith)) [
    | inl (a, b) ↦ inl (ground (arith, a), ground (arith, b))
    | inr (d, lt, a, b, c, e) ↦ inr (
      suc d,
      omega arith,
      ground (arith, a),
      ground (arith, b),
      λ z u. ground (arith, c z),
      λ u. ground (arith, c x, e),
    )
  ]
]

-- `contains` looks the id up among the live items.
pub contains-occurs : (s : IdSet) (a : ℕ) → IsValid s → id_set_contains s a ≡ occurs a (ids s)
unfolding id_set_contains
contains-occurs s a v = ground (arith, find_cases s.items s.count 0 a)

occurs-append : (a x : ℕ) (xs : List ℕ) → occurs a (xs ++ (x ∷ [])) ≡ (occurs a xs || x == a)
occurs-append a x [] = ground arith
occurs-append a x (y ∷ xs) = ground (arith, occurs-append a x xs)

append-IsDistinct :
    (x : ℕ) (xs : List ℕ) → occurs x xs ≡ false → IsDistinct xs → IsDistinct (xs ++ (x ∷ []))
append-IsDistinct x [] h u = (refl, tt)
append-IsDistinct x (y ∷ xs) h u = ground (arith, occurs-append y x xs, append-IsDistinct x xs)

-- The two ways in which `put` can end.
abbrev PutEnds : IdSet → ℕ → Bool × IdSet → Type 0
PutEnds s a (r, s') =
    ((r ≡ false) × (s' ≡ s) × ((ltb s.count s.capacity && not (occurs a (ids s))) ≡ false))
    ⊎ ((r ≡ true)
        × (ltb s.count s.capacity ≡ true)
        × (occurs a (ids s) ≡ false)
        × (ids s' ≡ ids s ++ (a ∷ []))
        × IsValid s')

put_ends : (s : IdSet) (a : ℕ) → IsValid s → PutEnds s a (id_set_put s a)
unfolding id_set_put
put_ends s a v = elim (find_cases s.items s.count 0 a (omega arith)) [
  | inl (e, o) ↦ elim (Bool-cases (ltb s.count s.capacity)) [
    | inl room ↦ inr (
      ground (arith, e),
      room,
      o,
      ground (arith, e, added),
      ground (arith, e, o, length-set s.items s.count a, added, append-IsDistinct a (ids s)),
    )
    | inr full ↦ inl (ground arith, ground arith, ground arith)
  ]
  | inr (d, lt, e, o, _, _) ↦ inl (ground (arith, e), ground (arith, e), ground (arith, o))
]
  where
    added : s.count < s.capacity → take (s.count + 1) (set s.items s.count a) ≡ ids s ++ (a ∷ [])
    added h =
        let next : s.count + 1 ≡ suc s.count = omega arith in
        ap (λ n. take n (set s.items s.count a)) next
        ∙ take-set_self s.items s.count a (omega arith)

-- `put` answers 1 exactly where there is room and the id is new. It then adds the id and no other;
-- otherwise it changes nothing. The set stays valid.
pub put_lem :
    (s : IdSet) (a : ℕ)
    → IsValid s
    → let (r, s') = id_set_put s a in
      (r ≡ (ltb s.count s.capacity && not (id_set_contains s a)))
      × ((b : ℕ) → id_set_contains s' b ≡ (id_set_contains s b || r && a == b))
      × (r ≡ false → s' ≡ s)
      × IsValid s'
put_lem s a v = elim (put_ends s a v) [
  | inl (r, same, why) ↦
      rw (r, same) (ground (arith, why, contains-occurs s a v), λ b. ground arith, λ _. refl, v)
  | inr (r, room, new, items, v') ↦ (
    ground (arith, contains-occurs s a v),
    λ b. ground (
      arith,
      contains-occurs (id_set_put s a).1 b v',
      contains-occurs s b v,
      occurs-append b a (ids s),
    ),
    λ e. absurd (ground arith),
    v',
  )
]

abbrev RemoveEnds : IdSet → ℕ → Bool × IdSet → Type 0
RemoveEnds s a (r, s') =
    ((r ≡ false) × (s' ≡ s) × (occurs a (ids s) ≡ false))
    ⊎ ((r ≡ true)
        × (occurs a (ids s) ≡ true)
        × ((b : ℕ) → occurs b (ids s') ≡ (if a == b then false else occurs b (ids s)))
        × IsValid s')

remove_ends : (s : IdSet) (a : ℕ) → IsValid s → RemoveEnds s a (id_set_remove s a)
unfolding id_set_remove
remove_ends s a v = elim (find_cases s.items s.count 0 a (omega arith)) [
  | inl (e, o) ↦ inl (ground (arith, e), ground (arith, e), o)
  | inr (d, lt, e, o, others, distinct) ↦
      let moved : take (s.count - 1) (move_down s.items d (4 * (s.count - d - 1)))
          ≡ remove_at (ids s) d =
        take_pred-move_down s.items d s.count (4 * (s.count - d - 1)) (omega arith) (omega arith)
          (omega arith) in
      inr (
        ground (arith, e),
        o,
        λ b. ground (arith, e, moved, others b v.distinct),
        ground (arith, e, moved, distinct, length-move_down s.items d (4 * (s.count - d - 1))),
      )
]

-- `remove` answers whether the id was there. It takes out the id and no other, and the set stays
-- valid.
pub remove_lem :
    (s : IdSet) (a : ℕ)
    → IsValid s
    → let (r, s') = id_set_remove s a in
      (r ≡ id_set_contains s a)
      × ((b : ℕ) → id_set_contains s' b ≡ (id_set_contains s b && not (a == b)))
      × (r ≡ false → s' ≡ s)
      × IsValid s'
remove_lem s a v = elim (remove_ends s a v) [
  | inl (r, same, absent) ↦
      rw (r, same)
        (
          ground (arith, contains-occurs s a v),
          λ b. ground (arith, contains-occurs s a v),
          λ _. refl,
          v,
        )
  | inr (r, present, others, v') ↦ (
    ground (arith, contains-occurs s a v),
    λ b.
        ground (arith, contains-occurs (id_set_remove s a).1 b v', contains-occurs s b v, others b),
    λ e. absurd (ground arith),
    v',
  )
]
