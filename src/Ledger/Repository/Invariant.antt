-- ===== src/Ledger/Repository/Invariant.antt =====
-- The ledger's invariant in storage, and that every posting keeps it.
use banking_plateform.Base.{
  ℕ, ◌+◌, ◌≡◌, refl, ap, sym, subst, ◌∙◌, ◌⊎◌, inl, inr, Bool, true, false, List, [], ◌∷◌, ◌++◌,
  keep, All, All-append, arith,
}
use banking_plateform.Base.Int.{pos, ◌+ℤ◌, ◌≤ℤ◌, int_laws}
use banking_plateform.Shared.Errors.{ok, Result-cases}
use banking_plateform.Ledger.Account.{Account}
use banking_plateform.Ledger.Entry.{Entry, EntrySide, IsPosting, IsLine, is_debit, is_credit}
use banking_plateform.Ledger.Transaction.{Transaction, is_balanced, validate_balanced}
use banking_plateform.Ledger.Transaction.Sums.{side_total, validate_balanced_iff}
use banking_plateform.Ledger.Balance.Exact.{net}
use banking_plateform.Storage.{Db, World}
use banking_plateform.Storage.Text.{elem}
use banking_plateform.Storage.Monad.{call_annotated}
use banking_plateform.Storage.Calls.{call_annotated-db, in_tx_atomic, in_tx_commits}
use banking_plateform.Ledger.Repository.{
  locked_rows, by_id, unique_account_ids, post_transaction_in_tx, post_transaction,
}
use banking_plateform.Ledger.Repository.Reading.{lines, lines-append, IsStored}
use banking_plateform.Ledger.Repository.Posting.{projected}
use banking_plateform.Ledger.Repository.Posted.{IsPosted, posted_rows, post_transaction_in_tx_ok}
use banking_plateform.Ledger.Repository.Locks.{
  untouched_id, All-order_by_inv, All-keep_inv, All-both, All-map,
}

-- The books tie, no account is overdrawn, and every stored line is well formed.
pub record IsSound (db : Db) : Type 0 where
  pub stored : All IsStored db.entries
  pub tied : side_total is_debit (lines db.entries) ≡ side_total is_credit (lines db.entries)
  pub covered : All (λ a. pos 0 ≤ℤ net a (lines db.entries)) db.accounts

net-append : (a : Account) (xs ys : List Entry) → net a (xs ++ ys) ≡ net a xs +ℤ net a ys
net-append a [] ys = omega int_laws
net-append a (x ∷ xs) ys = rw (net-append a xs ys) (omega int_laws)

side_total-append :
    (on_side : EntrySide → Bool) (xs ys : List Entry)
    → side_total on_side (xs ++ ys) ≡ side_total on_side xs + side_total on_side ys
side_total-append on_side [] ys = omega arith
side_total-append on_side (x ∷ xs) ys = omega (arith, side_total-append on_side xs ys)

lines-posted_rows :
    (tx : Transaction) (now : ℕ) (xs : List Entry) → lines (posted_rows tx now xs) ≡ xs
lines-posted_rows tx now [] = refl
lines-posted_rows tx now (x ∷ xs) = ap (λ l. x ∷ l) (lines-posted_rows tx now xs)

posted_rows-IsStored :
    (tx : Transaction) (now : ℕ) (xs : List Entry)
    → All IsLine xs
    → All IsStored (posted_rows tx now xs)
posted_rows-IsStored tx now [] h = tt
posted_rows-IsStored tx now (x ∷ xs) h = (h.0, posted_rows-IsStored tx now xs h.1)

-- After a posting no account is overdrawn: the locked ones were checked, and the others not moved.
posted-covered :
    (tx : Transaction) (db : Db)
    → All (λ a. pos 0 ≤ℤ net a (lines db.entries)) db.accounts
    → All (λ a. pos 0 ≤ℤ projected tx db.entries a) (locked_rows (unique_account_ids tx) db)
    → All (λ a. pos 0 ≤ℤ projected tx db.entries a) db.accounts
posted-covered tx db before checked =
    let ids = unique_account_ids tx in
    let Settled : Account → Type 0 =
      λ a. (elem a.id ids ≡ false) ⊎ (pos 0 ≤ℤ projected tx db.entries a) in
    let by_lock =
      All-keep_inv (λ a. pos 0 ≤ℤ projected tx db.entries a) {Q = Settled} (λ a. elem a.id ids)
        db.accounts (λ a _ p. inr p) (λ a e. inl e)
        (All-order_by_inv (λ a. pos 0 ≤ℤ projected tx db.entries a) by_id
          (keep (λ a. elem a.id ids) db.accounts) checked) in
    All-map db.accounts (λ a (p, q). settle a p q)
      (All-both (λ a. pos 0 ≤ℤ net a (lines db.entries)) Settled db.accounts before by_lock)
  where
    settle :
        (a : Account)
        → pos 0 ≤ℤ net a (lines db.entries)
        → (elem a.id (unique_account_ids tx) ≡ false) ⊎ (pos 0 ≤ℤ projected tx db.entries a)
        → pos 0 ≤ℤ projected tx db.entries a
    settle a p (inl e) = rw (untouched_id tx a e) (omega int_laws)
    settle a p (inr r) = r

is_balanced-ok : (tx : Transaction) → is_balanced tx ≡ true → validate_balanced tx.entries ≡ ok tt
unfolding is_balanced
is_balanced-ok tx h = ground arith

lines-IsPosting : (es : List Entry) → All IsLine es → All IsPosting es
lines-IsPosting [] h = tt
lines-IsPosting (e ∷ es) h = (h.0.posting, lines-IsPosting es h.1)

-- A posting that succeeds keeps the ledger sound.
pub IsPosted-IsSound :
    (tx : Transaction) (db after : Db) (now : ℕ)
    → All IsLine tx.entries
    → IsSound db
    → IsPosted tx db now after
    → IsSound after
IsPosted-IsSound tx db after now l s p =
    let rows = posted_rows tx now tx.entries in
    let journal : lines after.entries ≡ lines db.entries ++ tx.entries =
      ap lines p.entries
      ∙ lines-append db.entries rows
      ∙ ap (λ l. lines db.entries ++ l) (lines-posted_rows tx now tx.entries) in
    let balance =
      (validate_balanced_iff tx.entries (lines-IsPosting tx.entries l)).0
        (is_balanced-ok tx p.balanced) in
    record {
      stored =
          rw p.entries (
            All-append IsStored db.entries rows s.stored
              (posted_rows-IsStored tx now tx.entries l));
      tied = rw journal (
          omega (
            arith,
            s.tied,
            balance.equal,
            side_total-append is_debit (lines db.entries) tx.entries,
            side_total-append is_credit (lines db.entries) tx.entries,
          ));
      covered =
          rw (journal, p.accounts)
            (All-map db.accounts
              (λ a q. subst (λ z. pos 0 ≤ℤ z) (sym (net-append a (lines db.entries) tx.entries)) q)
              (posted-covered tx db s.covered p.covered));
    }

-- The posting inside a transaction of its caller, when it succeeds.
pub post_transaction_in_tx-IsSound :
    (tx : Transaction) (w : World)
    → All IsLine tx.entries
    → IsSound w.db
    → (post_transaction_in_tx tx w).0 ≡ ok tt
    → IsSound (post_transaction_in_tx tx w).1.db
post_transaction_in_tx-IsSound tx w l s e =
    IsPosted-IsSound tx w.db (post_transaction_in_tx tx w).1.db w.now l s
      (post_transaction_in_tx_ok tx w s.stored (lines-IsPosting tx.entries l) e)

-- Whatever the posting of a transaction with well-formed lines answers, and whatever calls fail on
-- the way: when the ledger was sound, its stored lines stay well formed, its books tie and no
-- account is overdrawn.
pub post_transaction-IsSound :
    (tx : Transaction) (w : World)
    → All IsLine tx.entries
    → IsSound w.db
    → IsSound (post_transaction tx w).1.db
unfolding post_transaction
post_transaction-IsSound tx w l s = elim (Result-cases (post_transaction tx w).0) [
  | inr (x, e) ↦
      rw (in_tx_atomic call_annotated (post_transaction_in_tx tx) w x call_annotated-db e) s
  | inl (u, e) ↦
      let (q, same) =
        in_tx_commits call_annotated (post_transaction_in_tx tx) w u call_annotated-db e in
      let v = (call_annotated w).1 in
      rw same
        (post_transaction_in_tx-IsSound tx v l (subst IsSound (sym (call_annotated-db w)) s) q)
]
