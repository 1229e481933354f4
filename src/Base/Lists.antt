-- ===== src/Base/Lists.antt =====
-- Lists measured by native numbers, filters by Boolean tests, and a stable insertion sort.
use Prim.Native.Nat.{ℕ, zero, suc, ◌+◌}
use mathlib.Core.Path.{◌≡◌, refl}
use mathlib.Core.Bool.{Bool, true, false}
use mathlib.Core.Option.{Option, none, some}
use mathlib.Core.List.{List, [], ◌∷◌, ◌++◌}
use native.Mathlib.Omega.{arith}
use banking_plateform.Base.Tests.{if◌then◌else◌, Bool-cases}
use mathlib.Core.Logic.{inl, inr}

module _ {ℓ} {A : Type ℓ} where
  abbrev pub length : List A → ℕ
  length [] = 0
  length (x ∷ xs) = suc (length xs)

  abbrev pub take : ℕ → List A → List A
  take zero xs = []
  take (suc n) [] = []
  take (suc n) (x ∷ xs) = x ∷ take n xs

  abbrev pub drop : ℕ → List A → List A
  drop zero xs = xs
  drop (suc n) [] = []
  drop (suc n) (x ∷ xs) = drop n xs

  abbrev pub keep : (A → Bool) → List A → List A
  keep p [] = []
  keep p (x ∷ xs) = if p x then x ∷ keep p xs else keep p xs

  abbrev pub find : (A → Bool) → List A → Option A
  find p [] = none
  find p (x ∷ xs) = if p x then some x else find p xs

  abbrev pub exists : (A → Bool) → List A → Bool
  exists p [] = false
  exists p (x ∷ xs) = if p x then true else exists p xs

  abbrev pub All {κ} : (A → Type κ) → List A → Type κ
  All P [] = Unit
  All P (x ∷ xs) = P x × All P xs

  pub length-append : (xs ys : List A) → length (xs ++ ys) ≡ length xs + length ys
  length-append [] ys = omega arith
  length-append (x ∷ xs) ys = omega (arith, length-append xs ys)

  pub keep-append : (p : A → Bool) (xs ys : List A) → keep p (xs ++ ys) ≡ keep p xs ++ keep p ys
  keep-append p [] ys = refl
  keep-append p (x ∷ xs) ys = ground (arith, keep-append p xs ys)

  pub All-append {κ} : (P : A → Type κ) (xs ys : List A) → All P xs → All P ys → All P (xs ++ ys)
  All-append P [] ys h k = k
  All-append P (x ∷ xs) ys h k = (h.0, All-append P xs ys h.1 k)

  -- `ORDER BY`: an insertion sort that keeps the order of equal keys.
  unfoldable pub insert_by : (A → A → Bool) → A → List A → List A
  insert_by before x [] = x ∷ []
  insert_by before x (y ∷ ys) = if before y x then y ∷ insert_by before x ys else x ∷ y ∷ ys

  unfoldable pub order_by : (A → A → Bool) → List A → List A
  order_by before [] = []
  order_by before (x ∷ xs) = insert_by before x (order_by before xs)

  module _ {κ} (P : A → Type κ) where
    All-keep : (p : A → Bool) (xs : List A) → All P xs → All P (keep p xs)
    All-keep p [] a = tt
    All-keep p (x ∷ xs) (q, a) = elim (Bool-cases (p x)) [
      | inl e ↦ rw e (q, All-keep p xs a)
      | inr e ↦ rw e (All-keep p xs a)
    ]

    pub All-drop : (n : ℕ) (xs : List A) → All P xs → All P (drop n xs)
    All-drop zero xs a = a
    All-drop (suc n) [] a = tt
    All-drop (suc n) (x ∷ xs) (p, a) = All-drop n xs a

    pub All-take : (n : ℕ) (xs : List A) → All P xs → All P (take n xs)
    All-take zero xs a = tt
    All-take (suc n) [] a = tt
    All-take (suc n) (x ∷ xs) (p, a) = (p, All-take n xs a)

    All-insert_by :
        (before : A → A → Bool) (x : A) (xs : List A)
        → P x
        → All P xs
        → All P (insert_by before x xs)
    unfolding insert_by
    All-insert_by before x [] p a = (p, tt)
    All-insert_by before x (y ∷ ys) p (q, a) = elim (Bool-cases (before y x)) [
      | inl e ↦ rw e (q, All-insert_by before x ys p a)
      | inr e ↦ rw e (p, (q, a))
    ]

    All-order_by : (before : A → A → Bool) (xs : List A) → All P xs → All P (order_by before xs)
    unfolding order_by
    All-order_by before [] a = tt
    All-order_by before (x ∷ xs) (q, a) =
        All-insert_by before x (order_by before xs) q (All-order_by before xs a)

    -- What holds of every row holds of the rows that a query selects, orders and limits.
    pub All-selected :
        (n : ℕ) (before : A → A → Bool) (p : A → Bool) (xs : List A)
        → All P xs
        → All P (take n (order_by before (keep p xs)))
    All-selected n before p xs a = All-take n _ (All-order_by before _ (All-keep p xs a))
