-- ===== src/Ledger/Repository/Locks.antt =====
-- The accounts that a posting locks and the ones that it does not.
use banking_plateform.Base.{
  ◌≡◌, refl, sym, subst, ◌∙◌, inl, inr, Bool-cases, Bool, true, false, List, [], ◌∷◌, map, Str,
  str_eq, str_eq_iff, keep, insert_by, order_by, All, if◌then◌else◌, arith,
}
use banking_plateform.Base.Int.{pos, int_laws}
use banking_plateform.Ledger.Account.{Account}
use banking_plateform.Ledger.Entry.{Entry}
use banking_plateform.Ledger.Transaction.{Transaction}
use banking_plateform.Ledger.Balance.Exact.{net}
use banking_plateform.Storage.Text.{elem, unique, str_ltb}
use banking_plateform.Ledger.Repository.{unique_account_ids}

-- Membership is not changed by a sort, nor by taking the distinct members.
pub elem-insert_by :
    (before : Str → Str → Bool) (s x : Str) (l : List Str)
    → elem s (insert_by before x l) ≡ (if str_eq x s then true else elem s l)
unfolding insert_by
elem-insert_by before s x [] = refl
elem-insert_by before s x (y ∷ l) = ground (arith, elem-insert_by before s x l)

pub elem-order_by :
    (before : Str → Str → Bool) (s : Str) (l : List Str) → elem s (order_by before l) ≡ elem s l
unfolding order_by
elem-order_by before s [] = refl
elem-order_by before s (x ∷ l) =
    rw (elem-insert_by before s x (order_by before l), elem-order_by before s l)

pub elem-unique : (s : Str) (l : List Str) → elem s (unique l) ≡ elem s l
unfolding unique
elem-unique s [] = refl
elem-unique s (x ∷ l) = elim (Bool-cases (elem x (unique l))) [
  | inr new ↦ rw new (rw (elem-unique s l))
  | inl old ↦ elim (Bool-cases (str_eq x s)) [
    | inr ne ↦ rw (old, ne) (elem-unique s l)
    | inl same ↦
        rw (old, same) (subst (λ t. elem t (unique l) ≡ true) ((str_eq_iff x s).0 same) old)
  ]
]

-- An account that no line names is not moved.
pub net_untouched :
    (a : Account) (es : List Entry)
    → elem a.id (map (λ e. e.account_id) es) ≡ false
    → net a es ≡ pos 0
net_untouched a [] h = refl
net_untouched a (e ∷ es) h = elim (Bool-cases (str_eq e.account_id a.id)) [
  | inl named ↦ ground arith
  | inr other ↦ rw other (rw (net_untouched a es (ground arith)) (omega int_laws))
]

pub untouched_id :
    (tx : Transaction) (a : Account)
    → elem a.id (unique_account_ids tx) ≡ false
    → net a tx.entries ≡ pos 0
unfolding unique_account_ids
untouched_id tx a h =
    let ids = map (λ (e : Entry). e.account_id) tx.entries in
    net_untouched a tx.entries
      (sym (elem-order_by str_ltb a.id (unique ids) ∙ elem-unique a.id ids) ∙ h)

-- From the locked rows back to the stored accounts.
module _ {A : Type 0} (P : A → Type 0) where
  pub All-insert_by_inv :
      (before : A → A → Bool) (x : A) (xs : List A) → All P (insert_by before x xs) → P x × All P xs
  unfolding insert_by
  All-insert_by_inv before x [] h = h
  All-insert_by_inv before x (y ∷ ys) h = elim (Bool-cases (before y x)) [
    | inl e ↦ let r = rw e at h in let (p, q) = All-insert_by_inv before x ys r.1 in (p, (r.0, q))
    | inr e ↦ rw e at h
  ]

  pub All-order_by_inv :
      (before : A → A → Bool) (xs : List A) → All P (order_by before xs) → All P xs
  unfolding order_by
  All-order_by_inv before [] h = h
  All-order_by_inv before (x ∷ xs) h =
      let (p, q) = All-insert_by_inv before x (order_by before xs) h in
      (p, All-order_by_inv before xs q)

  -- What holds of the kept elements and, by another reason, of the others, holds of all.
  pub All-keep_inv :
      {Q : A → Type 0} (p : A → Bool) (xs : List A)
      → ((x : A) → p x ≡ true → P x → Q x)
      → ((x : A) → p x ≡ false → Q x)
      → All P (keep p xs)
      → All Q xs
  All-keep_inv p [] f g h = tt
  All-keep_inv p (x ∷ xs) f g h = elim (Bool-cases (p x)) [
    | inl e ↦ let r = rw e at h in (f x e r.0, All-keep_inv p xs f g r.1)
    | inr e ↦ let r = rw e at h in (g x e, All-keep_inv p xs f g r)
  ]

  pub All-both : (Q : A → Type 0) (xs : List A) → All P xs → All Q xs → All (λ x. P x × Q x) xs
  All-both Q [] h k = tt
  All-both Q (x ∷ xs) h k = ((h.0, k.0), All-both Q xs h.1 k.1)

pub All-map :
    {A : Type 0} {P Q : A → Type 0} (xs : List A) → ((x : A) → P x → Q x) → All P xs → All Q xs
All-map [] f h = tt
All-map (x ∷ xs) f h = (f x h.0, All-map xs f h.1)
