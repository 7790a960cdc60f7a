-- ===== src/Store/Arrays.antt =====
-- How taking out one element of an array acts on its first `n` elements and on the others.
use lightmqtt.Prelude.{ℕ, zero, suc, ◌+◌, ◌-◌, ◌≤◌, ◌<◌, ◌≡◌, refl, ap, ◌∙◌, arith}
use lightmqtt.Prelude.{List, [], ◌∷◌, ◌++◌}
use lightmqtt.Prelude.{length, take, drop, remove_at, get_or, set}

module _ {ℓ} {A : Type ℓ} where
  pub take-remove_at_lt :
      (xs : List A) (n p : ℕ) → p ≤ n → take n (remove_at xs p) ≡ remove_at (take (suc n) xs) p
  take-remove_at_lt [] zero p h = refl
  take-remove_at_lt [] (suc n) p h = refl
  take-remove_at_lt (x ∷ xs) zero zero h = refl
  take-remove_at_lt (x ∷ xs) (suc n) zero h = refl
  take-remove_at_lt (x ∷ xs) zero (suc p) h = absurd (omega arith)
  take-remove_at_lt (x ∷ xs) (suc n) (suc p) h =
      ap (λ ys. x ∷ ys) (take-remove_at_lt xs n p (omega arith))

  pub drop-remove_at_lt :
      (xs : List A) (n p : ℕ) → p ≤ n → n < length xs → drop n (remove_at xs p) ≡ drop (suc n) xs
  drop-remove_at_lt [] n p h k = absurd (omega arith)
  drop-remove_at_lt (x ∷ xs) n zero h k = refl
  drop-remove_at_lt (x ∷ xs) zero (suc p) h k = absurd (omega arith)
  drop-remove_at_lt (x ∷ xs) (suc n) (suc p) h k =
      drop-remove_at_lt xs n p (omega arith) (omega arith)

  pub take-remove_at_ge : (xs : List A) (n p : ℕ) → n ≤ p → take n (remove_at xs p) ≡ take n xs
  take-remove_at_ge xs zero p h = refl
  take-remove_at_ge [] (suc n) p h = refl
  take-remove_at_ge (x ∷ xs) (suc n) zero h = absurd (omega arith)
  take-remove_at_ge (x ∷ xs) (suc n) (suc p) h =
      ap (λ ys. x ∷ ys) (take-remove_at_ge xs n p (omega arith))

  pub drop-remove_at_ge :
      (xs : List A) (n p d : ℕ) → p ≡ n + d → drop n (remove_at xs p) ≡ remove_at (drop n xs) d
  drop-remove_at_ge xs zero p d e = let e' : p ≡ d = omega arith in ap (remove_at xs) e'
  drop-remove_at_ge [] (suc n) p d e = refl
  drop-remove_at_ge (x ∷ xs) (suc n) zero d e = absurd (omega arith)
  drop-remove_at_ge (x ∷ xs) (suc n) (suc p) d e = drop-remove_at_ge xs n p d (omega arith)

  pub drop-set_ge :
      (xs : List A) (n m : ℕ) (v : A)
      → n ≤ m
      → m < length xs
      → drop n (take (suc m) (set xs m v)) ≡ drop n (take m xs) ++ (v ∷ [])
  drop-set_ge [] n m v h k = absurd (omega arith)
  drop-set_ge (x ∷ xs) zero zero v h k = refl
  drop-set_ge (x ∷ xs) (suc n) zero v h k = absurd (omega arith)
  drop-set_ge (x ∷ xs) zero (suc m) v h k =
      ap (λ ys. x ∷ ys) (drop-set_ge xs zero m v (omega arith) (omega arith))
  drop-set_ge (x ∷ xs) (suc n) (suc m) v h k = drop-set_ge xs n m v (omega arith) (omega arith)

  pub take-set_ge :
      (xs : List A) (n m : ℕ) (v : A)
      → n ≤ m
      → take n (take (suc m) (set xs m v)) ≡ take n (take m xs)
  take-set_ge xs zero m v h = refl
  take-set_ge [] (suc n) zero v h = refl
  take-set_ge [] (suc n) (suc m) v h = refl
  take-set_ge (x ∷ xs) (suc n) zero v h = absurd (omega arith)
  take-set_ge (x ∷ xs) (suc n) (suc m) v h = ap (λ ys. x ∷ ys) (take-set_ge xs n m v (omega arith))

  -- At a place in range the rest of a list begins with the element there.
  pub drop_of_lt :
      (xs : List A) (n m : ℕ) (d : A)
      → n < m
      → m ≤ length xs
      → drop n (take m xs) ≡ get_or xs n d ∷ drop (suc n) (take m xs)
  drop_of_lt [] n m d h k = absurd (omega arith)
  drop_of_lt (x ∷ xs) n zero d h k = absurd (omega arith)
  drop_of_lt (x ∷ xs) zero (suc m) d h k = refl
  drop_of_lt (x ∷ xs) (suc n) (suc m) d h k = drop_of_lt xs n m d (omega arith) (omega arith)

  pub take-suc :
      (xs : List A) (n m : ℕ) (d : A)
      → n < m
      → m ≤ length xs
      → take (suc n) (take m xs) ≡ take n (take m xs) ++ (get_or xs n d ∷ [])
  take-suc [] n m d h k = absurd (omega arith)
  take-suc (x ∷ xs) n zero d h k = absurd (omega arith)
  take-suc (x ∷ xs) zero (suc m) d h k = refl
  take-suc (x ∷ xs) (suc n) (suc m) d h k =
      ap (λ ys. x ∷ ys) (take-suc xs n m d (omega arith) (omega arith))

  pub drop_of_ge : (xs : List A) (n m : ℕ) → m ≤ n → drop n (take m xs) ≡ []
  drop_of_ge xs zero zero h = refl
  drop_of_ge xs (suc n) zero h = refl
  drop_of_ge [] zero (suc m) h = absurd (omega arith)
  drop_of_ge [] (suc n) (suc m) h = refl
  drop_of_ge (x ∷ xs) zero (suc m) h = absurd (omega arith)
  drop_of_ge (x ∷ xs) (suc n) (suc m) h = drop_of_ge xs n m (omega arith)

  pub take-take : (xs : List A) (n m : ℕ) → n ≤ m → take n (take m xs) ≡ take n xs
  take-take xs zero m h = refl
  take-take xs (suc n) zero h = absurd (omega arith)
  take-take [] (suc n) (suc m) h = refl
  take-take (x ∷ xs) (suc n) (suc m) h = ap (λ ys. x ∷ ys) (take-take xs n m (omega arith))

  pub take_of_zero : (xs : List A) (n m : ℕ) → m ≡ 0 → take n (take m xs) ≡ []
  take_of_zero xs zero m h = refl
  take_of_zero xs (suc n) zero h = refl
  take_of_zero xs (suc n) (suc m) h = absurd (omega arith)

  pub length-prefix :
      (xs : List A) (n m : ℕ) → n ≤ m → m ≤ length xs → length (take n (take m xs)) ≡ n
  length-prefix xs zero m h k = refl
  length-prefix xs (suc n) zero h k = absurd (omega arith)
  length-prefix [] (suc n) (suc m) h k = absurd (omega arith)
  length-prefix (x ∷ xs) (suc n) (suc m) h k =
      ap suc (length-prefix xs n m (omega arith) (omega arith))

  pub length-suffix : (xs : List A) (n m : ℕ) → m ≤ length xs → length (drop n (take m xs)) ≡ m - n
  length-suffix xs n zero h = elim n as (λ k. length (drop k (take zero xs)) ≡ zero - k) [
    | zero ↦ refl
    | suc k ↦ omega arith
  ]
  length-suffix [] n (suc m) h = absurd (omega arith)
  length-suffix (x ∷ xs) zero (suc m) h = omega (arith, length-suffix xs zero m (omega arith))
  length-suffix (x ∷ xs) (suc n) (suc m) h = omega (arith, length-suffix xs n m (omega arith))

-- The same for a place `m - 1`, as the code counts.
module _ {ℓ} {A : Type ℓ} where
  pub take_pred-remove_at :
      (xs : List A) (m p : ℕ) → p < m → take (m - 1) (remove_at xs p) ≡ remove_at (take m xs) p
  take_pred-remove_at xs zero p h = absurd (omega arith)
  take_pred-remove_at xs (suc m) p h =
      ap (λ k. take k (remove_at xs p)) (omega arith) ∙ take-remove_at_lt xs m p (omega arith)

  pub drop_pred-remove_at :
      (xs : List A) (m p : ℕ) → p < m → m ≤ length xs → drop (m - 1) (remove_at xs p) ≡ drop m xs
  drop_pred-remove_at xs zero p h k = absurd (omega arith)
  drop_pred-remove_at xs (suc m) p h k =
      ap (λ n. drop n (remove_at xs p)) (omega arith)
      ∙ drop-remove_at_lt xs m p (omega arith) (omega arith)
