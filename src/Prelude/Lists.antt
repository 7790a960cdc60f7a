-- ===== src/Prelude/Lists.antt =====
-- Lists measured and indexed by native numbers, under the library's names; they stand for C arrays.
use Prim.Native.Nat.{ℕ, zero, suc, ◌+◌, ◌-◌, ◌≤◌, ◌<◌, min}
use mathlib.Core.Path.{◌≡◌, refl, ap, ◌∙◌}
use mathlib.Core.List.{List, [], ◌∷◌, ◌++◌}
use mathlib.Core.Option.{Option, none, some}
use native.Mathlib.Omega.{arith}

module _ {ℓ} {A : Type ℓ} where
  abbrev pub length : List A → ℕ
  length [] = 0
  length (x ∷ xs) = suc (length xs)

  abbrev pub All {κ} : (A → Type κ) → List A → Type κ
  All P [] = Unit {κ}
  All P (x ∷ xs) = P x × All P xs

  abbrev pub get_elem? : List A → ℕ → Option A
  get_elem? [] i = none
  get_elem? (x ∷ xs) zero = some x
  get_elem? (x ∷ xs) (suc i) = get_elem? xs i

  abbrev pub get_or : List A → ℕ → A → A
  get_or [] i d = d
  get_or (x ∷ xs) zero d = x
  get_or (x ∷ xs) (suc i) d = get_or xs i d

  -- A write out of bounds changes nothing.
  abbrev pub set : List A → ℕ → A → List A
  set [] i v = []
  set (x ∷ xs) zero v = v ∷ xs
  set (x ∷ xs) (suc i) v = x ∷ set xs i v

  abbrev pub take : ℕ → List A → List A
  take zero xs = []
  take (suc n) [] = []
  take (suc n) (x ∷ xs) = x ∷ take n xs

  abbrev pub drop : ℕ → List A → List A
  drop zero xs = xs
  drop (suc n) [] = []
  drop (suc n) (x ∷ xs) = drop n xs

  -- The list without its element number `i`.
  abbrev pub remove_at : List A → ℕ → List A
  remove_at [] i = []
  remove_at (x ∷ xs) zero = xs
  remove_at (x ∷ xs) (suc i) = x ∷ remove_at xs i

  -- `memmove(&xs[i], &xs[i + 1], n * sizeof(xs[0]))`: `n` elements go down by one place.
  abbrev pub move_down : List A → ℕ → ℕ → List A
  move_down xs zero zero = xs
  move_down [] zero (suc n) = []
  move_down (x ∷ []) zero (suc n) = x ∷ []
  move_down (x ∷ y ∷ ys) zero (suc n) = y ∷ move_down (y ∷ ys) zero n
  move_down [] (suc i) n = []
  move_down (x ∷ xs) (suc i) n = x ∷ move_down xs i n

  -- `memcpy(&xs[i], ys, length ys)`
  abbrev pub write_at : List A → ℕ → List A → List A
  write_at xs zero [] = xs
  write_at [] zero (y ∷ ys) = []
  write_at (x ∷ xs) zero (y ∷ ys) = y ∷ write_at xs zero ys
  write_at [] (suc i) ys = []
  write_at (x ∷ xs) (suc i) ys = x ∷ write_at xs i ys

  pub length-append : (xs ys : List A) → length (xs ++ ys) ≡ length xs + length ys
  length-append [] ys = omega arith
  length-append (x ∷ xs) ys = omega (arith, length-append xs ys)

module _ {ℓ} {A : Type ℓ} where
  pub length-set : (xs : List A) (i : ℕ) (v : A) → length (set xs i v) ≡ length xs
  length-set [] i v = refl
  length-set (x ∷ xs) zero v = refl
  length-set (x ∷ xs) (suc i) v = ap suc (length-set xs i v)

  pub take-append-drop : (n : ℕ) (xs : List A) → take n xs ++ drop n xs ≡ xs
  take-append-drop zero xs = refl
  take-append-drop (suc n) [] = refl
  take-append-drop (suc n) (x ∷ xs) = rw (take-append-drop n xs)

  pub length-take : (n : ℕ) (xs : List A) → length (take n xs) ≡ min n (length xs)
  length-take zero xs = omega arith
  length-take (suc n) [] = omega arith
  length-take (suc n) (x ∷ xs) = omega (arith, length-take n xs)

  pub length-drop : (n : ℕ) (xs : List A) → length (drop n xs) ≡ length xs - n
  length-drop zero xs = omega arith
  length-drop (suc n) [] = omega arith
  length-drop (suc n) (x ∷ xs) = omega (arith, length-drop n xs)

  pub length-move_down : (xs : List A) (i n : ℕ) → length (move_down xs i n) ≡ length xs
  length-move_down xs zero zero = refl
  length-move_down [] zero (suc n) = refl
  length-move_down (x ∷ []) zero (suc n) = refl
  length-move_down (x ∷ y ∷ ys) zero (suc n) = ap suc (length-move_down (y ∷ ys) zero n)
  length-move_down [] (suc i) n = refl
  length-move_down (x ∷ xs) (suc i) n = ap suc (length-move_down xs i n)

  pub length-write_at : (xs : List A) (i : ℕ) (ys : List A) → length (write_at xs i ys) ≡ length xs
  length-write_at xs zero [] = refl
  length-write_at [] zero (y ∷ ys) = refl
  length-write_at (x ∷ xs) zero (y ∷ ys) = ap suc (length-write_at xs zero ys)
  length-write_at [] (suc i) ys = refl
  length-write_at (x ∷ xs) (suc i) ys = ap suc (length-write_at xs i ys)

  pub take-set_self :
      (xs : List A) (n : ℕ) (v : A)
      → n < length xs
      → take (suc n) (set xs n v) ≡ take n xs ++ (v ∷ [])
  take-set_self [] n v h = absurd (omega arith)
  take-set_self (x ∷ xs) zero v h = refl
  take-set_self (x ∷ xs) (suc n) v h = ap (λ ys. x ∷ ys) (take-set_self xs n v (omega arith))

  pub take-set_ge : (xs : List A) (n i : ℕ) (v : A) → n ≤ i → take n (set xs i v) ≡ take n xs
  take-set_ge xs zero i v h = refl
  take-set_ge [] (suc n) i v h = refl
  take-set_ge (x ∷ xs) (suc n) zero v h = absurd (omega arith)
  take-set_ge (x ∷ xs) (suc n) (suc i) v h = ap (λ ys. x ∷ ys) (take-set_ge xs n i v (omega arith))

  -- Moving down at least what the first `suc n` elements need takes element `i` out of them.
  pub take-move_down :
      (xs : List A) (i n m : ℕ)
      → i ≤ n
      → n < length xs
      → n ≤ i + m
      → take n (move_down xs i m) ≡ remove_at (take (suc n) xs) i
  take-move_down [] i n m hi hn hm = absurd (omega arith)
  take-move_down (x ∷ xs) zero zero m hi hn hm = refl
  take-move_down (x ∷ xs) zero (suc n) zero hi hn hm = absurd (omega arith)
  take-move_down (x ∷ []) zero (suc n) (suc m) hi hn hm = absurd (omega arith)
  take-move_down (x ∷ y ∷ ys) zero (suc n) (suc m) hi hn hm =
      ap (λ zs. y ∷ zs) (take-move_down (y ∷ ys) zero n m (omega arith) (omega arith) (omega arith))
  take-move_down (x ∷ xs) (suc i) zero m hi hn hm = absurd (omega arith)
  take-move_down (x ∷ xs) (suc i) (suc n) m hi hn hm =
      ap (λ zs. x ∷ zs) (take-move_down xs i n m (omega arith) (omega arith) (omega arith))

  pub take_pred-move_down :
      (xs : List A) (i n m : ℕ)
      → i < n
      → n ≤ length xs
      → n ≤ suc (i + m)
      → take (n - 1) (move_down xs i m) ≡ remove_at (take n xs) i
  take_pred-move_down xs i zero m hi hn hm = absurd (omega arith)
  take_pred-move_down xs i (suc n) m hi hn hm =
      ap (λ k. take k (move_down xs i m)) (omega arith)
      ∙ take-move_down xs i n m (omega arith) (omega arith) (omega arith)

  pub get_elem?-take : (xs : List A) (n i : ℕ) → i < n → get_elem? (take n xs) i ≡ get_elem? xs i
  get_elem?-take xs zero i h = absurd (omega arith)
  get_elem?-take [] (suc n) i h = refl
  get_elem?-take (x ∷ xs) (suc n) zero h = refl
  get_elem?-take (x ∷ xs) (suc n) (suc i) h = get_elem?-take xs n i (omega arith)

  pub get_elem?-eq-get_or :
      (xs : List A) (i : ℕ) (d : A) → i < length xs → get_elem? xs i ≡ some (get_or xs i d)
  get_elem?-eq-get_or [] i d h = absurd (omega arith)
  get_elem?-eq-get_or (x ∷ xs) zero d h = refl
  get_elem?-eq-get_or (x ∷ xs) (suc i) d h = get_elem?-eq-get_or xs i d (omega arith)

  pub get_elem?-none : (xs : List A) (i : ℕ) → length xs ≤ i → get_elem? xs i ≡ none
  get_elem?-none [] i h = refl
  get_elem?-none (x ∷ xs) zero h = absurd (omega arith)
  get_elem?-none (x ∷ xs) (suc i) h = get_elem?-none xs i (omega arith)

  pub get_elem?-move_down :
      (xs : List A) (i n j : ℕ)
      → i ≤ j
      → j < i + n
      → suc j < length xs
      → get_elem? (move_down xs i n) j ≡ get_elem? xs (suc j)
  get_elem?-move_down xs zero zero j a b c = absurd (omega arith)
  get_elem?-move_down [] zero (suc n) j a b c = absurd (omega arith)
  get_elem?-move_down (x ∷ []) zero (suc n) j a b c = absurd (omega arith)
  get_elem?-move_down (x ∷ y ∷ ys) zero (suc n) zero a b c = refl
  get_elem?-move_down (x ∷ y ∷ ys) zero (suc n) (suc j) a b c =
      get_elem?-move_down (y ∷ ys) zero n j (omega arith) (omega arith) (omega arith)
  get_elem?-move_down [] (suc i) n j a b c = absurd (omega arith)
  get_elem?-move_down (x ∷ xs) (suc i) n zero a b c = absurd (omega arith)
  get_elem?-move_down (x ∷ xs) (suc i) n (suc j) a b c =
      get_elem?-move_down xs i n j (omega arith) (omega arith) (omega arith)

module _ {ℓ} {A : Type ℓ} where
  abbrev pub replicate : ℕ → A → List A
  replicate zero a = []
  replicate (suc n) a = a ∷ replicate n a

  pub take-write_at :
      (xs ys : List A) → length ys ≤ length xs → take (length ys) (write_at xs 0 ys) ≡ ys
  take-write_at xs [] h = refl
  take-write_at [] (y ∷ ys) h = absurd (omega arith)
  take-write_at (x ∷ xs) (y ∷ ys) h = ap (λ zs. y ∷ zs) (take-write_at xs ys (omega arith))

  pub take_all : (n : ℕ) (xs : List A) → length xs ≤ n → take n xs ≡ xs
  take_all zero [] h = refl
  take_all zero (x ∷ xs) h = absurd (omega arith)
  take_all (suc n) [] h = refl
  take_all (suc n) (x ∷ xs) h = ap (λ ys. x ∷ ys) (take_all n xs (omega arith))

  pub drop_all : (n : ℕ) (xs : List A) → length xs ≤ n → drop n xs ≡ []
  drop_all zero [] h = refl
  drop_all zero (x ∷ xs) h = absurd (omega arith)
  drop_all (suc n) [] h = refl
  drop_all (suc n) (x ∷ xs) h = drop_all n xs (omega arith)

  -- A piece of a list and the piece behind it.
  pub take-split : (a b : ℕ) (xs : List A) → take a xs ++ take b (drop a xs) ≡ take (a + b) xs
  take-split zero b xs = let e : b ≡ 0 + b = omega arith in ap (λ n. take n xs) e
  take-split (suc a) zero [] = let e : suc a ≡ suc a + 0 = omega arith in ap (λ n. take n []) e
  take-split (suc a) (suc b) [] =
      let e : suc (a + suc b) ≡ suc a + suc b = omega arith in ap (λ n. take n []) e
  take-split (suc a) b (x ∷ xs) =
      let e : suc (a + b) ≡ suc a + b = omega arith in
      ap (λ ys. x ∷ ys) (take-split a b xs) ∙ ap (λ n. take n (x ∷ xs)) e

  pub drop-drop : (n m : ℕ) (xs : List A) → drop n (drop m xs) ≡ drop (m + n) xs
  drop-drop n zero xs = let e : n ≡ 0 + n = omega arith in ap (λ k. drop k xs) e
  drop-drop zero (suc m) [] = let e : suc m ≡ suc m + 0 = omega arith in ap (λ k. drop k []) e
  drop-drop (suc n) (suc m) [] =
      let e : suc (m + suc n) ≡ suc m + suc n = omega arith in ap (λ k. drop k []) e
  drop-drop n (suc m) (x ∷ xs) =
      let e : suc (m + n) ≡ suc m + n = omega arith in
      drop-drop n m xs ∙ ap (λ k. drop k (x ∷ xs)) e

  pub take-drop-take :
      (n o m : ℕ) (xs : List A) → o + n ≤ m → take n (drop o (take m xs)) ≡ take n (drop o xs)
  take-drop-take zero o m xs h = refl
  take-drop-take (suc n) zero zero xs h = absurd (omega arith)
  take-drop-take (suc n) zero (suc m) [] h = refl
  take-drop-take (suc n) zero (suc m) (x ∷ xs) h =
      ap (λ ys. x ∷ ys) (take-drop-take n zero m xs (omega arith))
  take-drop-take (suc n) (suc o) zero xs h = absurd (omega arith)
  take-drop-take (suc n) (suc o) (suc m) [] h = refl
  take-drop-take (suc n) (suc o) (suc m) (x ∷ xs) h = take-drop-take (suc n) o m xs (omega arith)

-- What an update leaves to read.
module _ {ℓ} {A : Type ℓ} where
  pub get_elem?-set :
      (xs : List A) (i : ℕ) (v : A) → i < length xs → get_elem? (set xs i v) i ≡ some v
  get_elem?-set [] i v h = absurd (omega arith)
  get_elem?-set (x ∷ xs) zero v h = refl
  get_elem?-set (x ∷ xs) (suc i) v h = get_elem?-set xs i v (omega arith)

  pub set-set : (xs : List A) (i : ℕ) (v w : A) → set (set xs i v) i w ≡ set xs i w
  set-set [] i v w = refl
  set-set (x ∷ xs) zero v w = refl
  set-set (x ∷ xs) (suc i) v w = ap (λ ys. x ∷ ys) (set-set xs i v w)

  pub set-get_elem? :
      (xs : List A) (i : ℕ) (v : A) → get_elem? xs i ≡ some v → (i < length xs) × (set xs i v ≡ xs)
  set-get_elem? [] i v e = cc
  set-get_elem? (x ∷ xs) zero v e = (omega arith, ground arith)
  set-get_elem? (x ∷ xs) (suc i) v e =
      let (a, b) = set-get_elem? xs i v e in (omega arith, ap (λ ys. x ∷ ys) b)
