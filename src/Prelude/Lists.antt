-- ===== src/Prelude/Lists.antt =====
-- Lists measured and indexed by native numbers, under the library's names.
use Prim.Native.Nat.{ℕ, zero, suc, ◌+◌, ◌-◌, ◌≤◌}
use mathlib.Core.Path.{◌≡◌, refl, sym, ap, ◌∙◌}
use mathlib.Core.List.{List, [], ◌∷◌, ◌++◌}
use mathlib.Core.Option.{Option, none, some}
use native.Mathlib.Omega.{arith}

module _ {ℓ} {A : Type ℓ} where
  abbrev pub length : List A → ℕ
  length [] = 0
  length (x ∷ xs) = suc (length xs)

  abbrev pub take : ℕ → List A → List A
  take zero xs = []
  take (suc n) [] = []
  take (suc n) (x ∷ xs) = x ∷ take n xs

  abbrev pub drop : ℕ → List A → List A
  drop zero xs = xs
  drop (suc n) [] = []
  drop (suc n) (x ∷ xs) = drop n xs

  abbrev pub get_elem? : List A → ℕ → Option A
  get_elem? [] i = none
  get_elem? (x ∷ xs) zero = some x
  get_elem? (x ∷ xs) (suc i) = get_elem? xs i

  -- A write out of bounds changes nothing.
  abbrev pub set : List A → ℕ → A → List A
  set [] i v = []
  set (x ∷ xs) zero v = v ∷ xs
  set (x ∷ xs) (suc i) v = x ∷ set xs i v

  abbrev pub All {κ} : (A → Type κ) → List A → Type κ
  All P [] = Unit {κ}
  All P (x ∷ xs) = P x × All P xs

module _ {ℓ} {A : Type ℓ} where
  pub length-append : (xs ys : List A) → length (xs ++ ys) ≡ length xs + length ys
  length-append [] ys = omega arith
  length-append (x ∷ xs) ys = omega (arith, length-append xs ys)

  pub take-append : (xs ys : List A) → take (length xs) (xs ++ ys) ≡ xs
  take-append [] ys = refl
  take-append (x ∷ xs) ys = ap (λ t. x ∷ t) (take-append xs ys)

  pub drop-append : (xs ys : List A) → drop (length xs) (xs ++ ys) ≡ ys
  drop-append [] ys = refl
  drop-append (x ∷ xs) ys = drop-append xs ys

  pub take-append-drop : (n : ℕ) (xs : List A) → take n xs ++ drop n xs ≡ xs
  take-append-drop zero xs = refl
  take-append-drop (suc n) [] = refl
  take-append-drop (suc n) (x ∷ xs) = ap (λ t. x ∷ t) (take-append-drop n xs)

  pub length-take : (n : ℕ) (xs : List A) → n ≤ length xs → length (take n xs) ≡ n
  length-take zero xs h = refl
  length-take (suc n) [] h = absurd (omega arith)
  length-take (suc n) (x ∷ xs) h = ap suc (length-take n xs (omega arith))

  pub take_of_length_le : (n : ℕ) (xs : List A) → length xs ≤ n → take n xs ≡ xs
  take_of_length_le zero [] h = refl
  take_of_length_le zero (x ∷ xs) h = absurd (omega arith)
  take_of_length_le (suc n) [] h = refl
  take_of_length_le (suc n) (x ∷ xs) h = ap (λ t. x ∷ t) (take_of_length_le n xs (omega arith))

  pub drop_of_length_le : (n : ℕ) (xs : List A) → length xs ≤ n → drop n xs ≡ []
  drop_of_length_le zero [] h = refl
  drop_of_length_le zero (x ∷ xs) h = absurd (omega arith)
  drop_of_length_le (suc n) [] h = refl
  drop_of_length_le (suc n) (x ∷ xs) h = drop_of_length_le n xs (omega arith)

  pub drop_append_le :
      (k : ℕ) (xs ys : List A) → k ≤ length xs → drop k (xs ++ ys) ≡ drop k xs ++ ys
  drop_append_le zero xs ys h = refl
  drop_append_le (suc k) [] ys h = absurd (omega arith)
  drop_append_le (suc k) (x ∷ xs) ys h = drop_append_le k xs ys (omega arith)

  pub length-drop : (k : ℕ) (xs : List A) → length (drop k xs) ≡ length xs - k
  length-drop zero xs = omega arith
  length-drop (suc k) [] = omega arith
  length-drop (suc k) (x ∷ xs) = omega (arith, length-drop k xs)

  -- Two ways to cut one list share what stands before both cuts.
  pub take_common :
      (k : ℕ) (xs ys us vs : List A)
      → xs ++ ys ≡ us ++ vs
      → k ≤ length xs
      → k ≤ length us
      → take k xs ≡ take k us
  take_common zero xs ys us vs e p q = refl
  take_common (suc k) [] ys us vs e p q = absurd (omega arith)
  take_common (suc k) (x ∷ xs) ys [] vs e p q = absurd (omega arith)
  take_common (suc k) (x ∷ xs) ys (u ∷ us) vs e p q =
      ground (arith, take_common k xs ys us vs (ground arith))

  pub drop_common :
      (k : ℕ) (xs ys us vs : List A)
      → xs ++ ys ≡ us ++ vs
      → k ≤ length xs
      → k ≤ length us
      → drop k xs ++ ys ≡ drop k us ++ vs
  drop_common zero xs ys us vs e p q = e
  drop_common (suc k) [] ys us vs e p q = absurd (omega arith)
  drop_common (suc k) (x ∷ xs) ys [] vs e p q = absurd (omega arith)
  drop_common (suc k) (x ∷ xs) ys (u ∷ us) vs e p q =
      drop_common k xs ys us vs (ground arith) (omega arith) (omega arith)

  pub take_append_le : (k : ℕ) (xs ys : List A) → k ≤ length xs → take k (xs ++ ys) ≡ take k xs
  take_append_le zero xs ys h = refl
  take_append_le (suc k) [] ys h = absurd (omega arith)
  take_append_le (suc k) (x ∷ xs) ys h = ap (λ t. x ∷ t) (take_append_le k xs ys (omega arith))

  take_nil : (n : ℕ) → take {A = A} n [] ≡ []
  take_nil zero = refl
  take_nil (suc n) = refl

  drop_nil : (n : ℕ) → drop {A = A} n [] ≡ []
  drop_nil zero = refl
  drop_nil (suc n) = refl

  pub take-add : (k n : ℕ) (xs : List A) → take k xs ++ take n (drop k xs) ≡ take (n + k) xs
  take-add zero n xs = ap (λ m. take m xs) {x = n} {y = n + 0} (omega arith)
  take-add (suc k) n [] = take_nil n ∙ sym (take_nil (n + suc k))
  take-add (suc k) n (x ∷ xs) =
      ap (λ t. x ∷ t) (take-add k n xs)
      ∙ ap (λ m. take m (x ∷ xs)) {x = suc (n + k)} {y = n + suc k} (omega arith)

  pub drop-add : (k n : ℕ) (xs : List A) → drop n (drop k xs) ≡ drop (n + k) xs
  drop-add zero n xs = ap (λ m. drop m xs) {x = n} {y = n + 0} (omega arith)
  drop-add (suc k) n [] = drop_nil n ∙ sym (drop_nil (n + suc k))
  drop-add (suc k) n (x ∷ xs) =
      drop-add k n xs ∙ ap (λ m. drop m (x ∷ xs)) {x = suc (n + k)} {y = n + suc k} (omega arith)
