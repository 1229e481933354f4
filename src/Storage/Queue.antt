-- ===== src/Storage/Queue.antt =====
-- Work that waits in a table: the rows that a query selects, and rows that stop waiting when they are
-- updated.
use banking_plateform.Base.{
  ℕ, zero, suc, ◌+◌, ◌-◌, ◌≤◌, ◌≡◌, refl, ap, ◌∙◌, Bool, true, false, not, ◌&&◌, List, [], ◌∷◌,
  ◌++◌, length, keep, take, drop, exists, order_by, insert_by, Bool-cases, inl, inr, Str, str_eq,
  str_eq_refl, arith, if◌then◌else◌,
}

module _ {ℓ} {A : Type ℓ} where
  length-insert_by :
      (before : A → A → Bool) (x : A) (xs : List A)
      → length (insert_by before x xs) ≡ suc (length xs)
  unfolding insert_by
  length-insert_by before x [] = refl
  length-insert_by before x (y ∷ ys) = ground (arith, length-insert_by before x ys)

  pub length-order_by :
      (before : A → A → Bool) (xs : List A) → length (order_by before xs) ≡ length xs
  unfolding order_by
  length-order_by before [] = refl
  length-order_by before (x ∷ xs) =
      length-insert_by before x (order_by before xs) ∙ ap suc (length-order_by before xs)

  pub take_all : (n : ℕ) (xs : List A) → length xs ≤ n → take n xs ≡ xs
  take_all zero [] h = refl
  take_all zero (x ∷ xs) h = ground arith
  take_all (suc n) [] h = refl
  take_all (suc n) (x ∷ xs) h = ap (λ l. x ∷ l) (take_all n xs (omega (arith, h)))

  pub take-drop : (n : ℕ) (xs : List A) → xs ≡ take n xs ++ drop n xs
  take-drop zero xs = refl
  take-drop (suc n) [] = refl
  take-drop (suc n) (x ∷ xs) = ap (λ l. x ∷ l) (take-drop n xs)

  length-drop : (n : ℕ) (xs : List A) → length (drop n xs) ≡ length xs - n
  length-drop zero xs = omega arith
  length-drop (suc n) [] = omega arith
  length-drop (suc n) (x ∷ xs) = omega (arith, length-drop n xs)

  -- The number of the rows that pass a test.
  abbrev pub count : (A → Bool) → List A → ℕ
  count p xs = length (keep p xs)

  count-le-length : (p : A → Bool) (xs : List A) → count p xs ≤ length xs
  count-le-length p [] = omega arith
  count-le-length p (x ∷ xs) = ground (arith, count-le-length p xs)

  count-append : (p : A → Bool) (xs ys : List A) → count p (xs ++ ys) ≡ count p xs + count p ys
  count-append p [] ys = omega arith
  count-append p (x ∷ xs) ys = ground (arith, count-append p xs ys)

  count-insert_by :
      (p : A → Bool) (before : A → A → Bool) (x : A) (xs : List A)
      → count p (insert_by before x xs) ≡ count p (x ∷ xs)
  unfolding insert_by
  count-insert_by p before x [] = refl
  count-insert_by p before x (y ∷ ys) = ground (arith, count-insert_by p before x ys)

  count-order_by :
      (p : A → Bool) (before : A → A → Bool) (xs : List A)
      → count p (order_by before xs) ≡ count p xs
  unfolding order_by
  count-order_by p before [] = refl
  count-order_by p before (x ∷ xs) =
      count-insert_by p before x (order_by before xs) ∙ ground (arith, count-order_by p before xs)

  count-keep : (p q : A → Bool) (xs : List A) → count (λ x. q x && p x) xs ≡ count p (keep q xs)
  count-keep p q [] = refl
  count-keep p q (x ∷ xs) = ground (arith, count-keep p q xs)

  pub none_left : (p : A → Bool) (xs : List A) → count p xs ≤ 0 → keep p xs ≡ []
  none_left p [] h = refl
  none_left p (x ∷ xs) h = ground (arith, none_left p xs)

module _ {A : Type 0} (name : A → Str) (waits : A → Bool) where
  abbrev pub named : List A → A → Bool
  named es r = exists (λ e. str_eq (name r) (name e)) es

  -- What still waits when the rows of the names to come are done.
  abbrev pub left : List A → List A → ℕ
  left es rows = count (λ r. waits r && not (named es r)) rows

  -- An update of the rows of one name, after which they do not wait.
  pub left-updated :
      (f : A → A) (upd : List A → List A) (e : A)
      → upd [] ≡ []
      → ((r : A) (rows : List A)
          → upd (r ∷ rows) ≡ (if str_eq (name r) (name e) then f r else r) ∷ upd rows)
      → ((r : A) → waits (f r) ≡ false)
      → (es rows : List A) → left es (upd rows) ≡ left (e ∷ es) rows
  left-updated f upd e nil cons closes es [] = ap (left es) nil
  left-updated f upd e nil cons closes es (r ∷ rows) =
      let rest = left-updated f upd e nil cons closes es rows in
      elim (Bool-cases (str_eq (name r) (name e))) [
        | inl q ↦ rw (cons r rows, q) (ground (arith, closes r, rest))
        | inr q ↦ rw (cons r rows, q) (ground (arith, rest))
      ]

  -- An update that changes neither names nor what waits.
  pub left-kept :
      (f : A → A) (upd : List A → List A) (id : Str)
      → upd [] ≡ []
      → ((r : A) (rows : List A)
          → upd (r ∷ rows) ≡ (if str_eq (name r) id then f r else r) ∷ upd rows)
      → ((r : A) → name (f r) ≡ name r)
      → ((r : A) → waits (f r) ≡ waits r)
      → (es rows : List A) → left es (upd rows) ≡ left es rows
  left-kept f upd id nil cons same still es [] = ap (left es) nil
  left-kept f upd id nil cons same still es (r ∷ rows) =
      let rest = left-kept f upd id nil cons same still es rows in
      elim (Bool-cases (str_eq (name r) id)) [
        | inl q ↦ rw (cons r rows, q, same r, still r) (ground (arith, rest))
        | inr q ↦ rw (cons r rows, q) (ground (arith, rest))
      ]

  pub left-nothing : (rows : List A) → count waits rows ≡ left [] rows
  left-nothing [] = refl
  left-nothing (r ∷ rows) = ground (arith, left-nothing rows)

  -- None of the rows themselves is left.
  named_more : (e : A) (es : List A) (r : A) → named es r ≡ true → named (e ∷ es) r ≡ true
  named_more e es r h = ground (arith, h)

  all_named :
      (es xs : List A)
      → ((r : A) → named xs r ≡ true → named es r ≡ true)
      → count (λ r. not (named es r)) xs ≡ 0
  all_named es [] h = refl
  all_named es (x ∷ xs) h =
      let here = h x (rw (str_eq_refl (name x)) refl) in
      rw here (all_named es xs (λ r k. h r (named_more x xs r k)))

  module _ (before : A → A → Bool) where
    -- A batch leaves no more than what waits beside it.
    pub left-selected :
        (n : ℕ) (rows : List A)
        → left (take n (order_by before (keep waits rows))) rows ≤ count waits rows - n
    left-selected n rows =
        let queue = order_by before (keep waits rows) in
        let other = λ (r : A). not (named (take n queue) r) in
        omega (
          arith,
          count-keep other waits rows,
          count-order_by other before (keep waits rows),
          ap (count other) (take-drop n queue),
          count-append other (take n queue) (drop n queue),
          all_named (take n queue) (take n queue) (λ r k. k),
          count-le-length other (drop n queue),
          length-drop n queue,
          length-order_by before (keep waits rows),
        )
