-- ===== src/Ledger/Repository/Posted.antt =====
-- What a posting does to the tables, step by step.
use mathlib.Core.List.{append-nil, append_assoc}
use banking_plateform.Base.{
  ℕ, ◌≢◌, ◌≡◌, ap, sym, subst, ◌∙◌, inl, inr, true, List, [], ◌∷◌, ◌++◌, Str, All, arith,
}
use banking_plateform.Base.Int.{pos, ◌≤ℤ◌}
use banking_plateform.Shared.Errors.{Error, ok, err, Result-cases}
use banking_plateform.Ledger.Account.{Account}
use banking_plateform.Ledger.Entry.{Entry, IsPosting}
use banking_plateform.Ledger.Transaction.{Transaction, is_balanced}
use banking_plateform.Storage.{Db, World, EntryRow}
use banking_plateform.Storage.Monad.{call_annotated}
use banking_plateform.Storage.Calls.{call_annotated-db, call_annotated-now, bind_ok}
use banking_plateform.Ledger.Repository.{
  validate_sufficient_funds, lock_accounts, locked_rows, unique_account_ids, insert_entry,
  insert_entries, insert_header, entry_row, post_transaction_in_tx,
}
use banking_plateform.Ledger.Repository.Reading.{IsStored, load_accounts-OkOnly}
use banking_plateform.Ledger.Repository.Posting.{projected, validate_sufficient_funds_nonneg}

-- The locked accounts are the stored ones with the ids of the posting.
pub lock_accounts_ok :
    (ids : List Str) (w : World) (accounts : List Account)
    → (lock_accounts ids w).0 ≡ ok accounts
    → (accounts ≡ locked_rows ids w.db)
      × ((lock_accounts ids w).1.db ≡ w.db)
      × ((lock_accounts ids w).1.now ≡ w.now)
unfolding lock_accounts
lock_accounts_ok ids w accounts e = ground (
  arith,
  call_annotated-db w,
  call_annotated-now w,
  load_accounts-OkOnly (locked_rows ids (call_annotated w).1.db),
)

pub insert_header_ok :
    (tx : Transaction) (w : World)
    → (insert_header tx w).0 ≡ ok tt
    → ((insert_header tx w).1.db.entries ≡ w.db.entries)
      × ((insert_header tx w).1.db.accounts ≡ w.db.accounts)
      × ((insert_header tx w).1.now ≡ w.now)
unfolding insert_header
insert_header_ok tx w e = ground (arith, call_annotated-db w, call_annotated-now w)

pub insert_entry_ok :
    (tx : Transaction) (x : Entry) (w : World)
    → (insert_entry tx x w).0 ≡ ok tt
    → ((insert_entry tx x w).1.db
        ≡ record w.db { entries = w.db.entries ++ entry_row tx w.now x ∷ [] })
      × ((insert_entry tx x w).1.now ≡ w.now)
unfolding insert_entry
insert_entry_ok tx x w e = ground (arith, call_annotated-db w, call_annotated-now w)

abbrev pub posted_rows : Transaction → ℕ → List Entry → List EntryRow
posted_rows tx now [] = []
posted_rows tx now (x ∷ xs) = entry_row tx now x ∷ posted_rows tx now xs

abbrev with_rows : Db → List EntryRow → Db
with_rows db rows = record db { entries = db.entries ++ rows }

-- The inserts of all lines put their rows behind the stored ones, and change nothing else.
pub insert_entries_ok :
    (tx : Transaction) (xs : List Entry) (w : World)
    → (insert_entries tx xs w).0 ≡ ok tt
    → (insert_entries tx xs w).1.db ≡ with_rows w.db (posted_rows tx w.now xs)
unfolding insert_entries
insert_entries_ok tx [] w e = ap (λ l. record w.db { entries = l }) (sym (append-nil w.db.entries))
insert_entries_ok tx (x ∷ xs) w e =
    let (_, q, step) = bind_ok (insert_entry tx x) (λ _. insert_entries tx xs) w e in
    let v = (insert_entry tx x w).1 in
    let (inserted, clock) = insert_entry_ok tx x w q in
    let rest = insert_entries_ok tx xs v (ap (λ r. r.0) (sym step) ∙ e) in
    let placed : (insert_entries tx xs v).1.db
        ≡ with_rows (with_rows w.db (entry_row tx w.now x ∷ [])) (posted_rows tx w.now xs) =
      rw (rest, inserted, clock) in
    ap (λ r. r.1.db) step
    ∙ placed
    ∙ ap (λ l. record w.db { entries = l })
        (append_assoc w.db.entries (entry_row tx w.now x ∷ []) (posted_rows tx w.now xs))

-- What a posting that succeeds has done to the tables: every locked account was covered, and the
-- lines stand behind the stored ones.
pub record IsPosted (tx : Transaction) (db : Db) (now : ℕ) (after : Db) : Type 0 where
  pub balanced : is_balanced tx ≡ true
  pub covered :
      All (λ a. pos 0 ≤ℤ projected tx db.entries a) (locked_rows (unique_account_ids tx) db)
  pub entries : after.entries ≡ db.entries ++ posted_rows tx now tx.entries
  pub accounts : after.accounts ≡ db.accounts

unlocked_fails :
    (tx : Transaction) (w : World) (x : Error)
    → (lock_accounts (unique_account_ids tx) w).0 ≡ err x
    → (post_transaction_in_tx tx w).0 ≢ ok tt
unfolding post_transaction_in_tx
unlocked_fails tx w x q e = ground arith

-- The stages of a posting that has locked its accounts.
module _ (tx : Transaction) (w : World) (accounts : List Account) where
  abbrev locked : World
  locked = (lock_accounts (unique_account_ids tx) w).1

  abbrev checked : World
  checked = (validate_sufficient_funds tx accounts locked).1

  abbrev headed : World
  headed = (insert_header tx checked).1

  abbrev Stages : Type 0
  Stages =
      (is_balanced tx ≡ true)
      × ((validate_sufficient_funds tx accounts locked).0 ≡ ok tt)
      × ((insert_header tx checked).0 ≡ ok tt)
      × ((insert_entries tx tx.entries headed).0 ≡ ok tt)
      × (post_transaction_in_tx tx w ≡ insert_entries tx tx.entries headed)

  stages :
      (lock_accounts (unique_account_ids tx) w).0 ≡ ok accounts
      → (post_transaction_in_tx tx w).0 ≡ ok tt
      → Stages
  unfolding post_transaction_in_tx
  stages q e = ground arith

  posted :
      All IsStored w.db.entries
      → All IsPosting tx.entries
      → (lock_accounts (unique_account_ids tx) w).0 ≡ ok accounts
      → Stages
      → IsPosted tx w.db w.now (insert_entries tx tx.entries headed).1.db
  posted h p q (balanced, funds, header, rows, _) =
      let (same, db1, now1) = lock_accounts_ok (unique_account_ids tx) w accounts q in
      let stored = subst (λ d. All IsStored d.entries) (sym db1) h in
      let (covered, db2, now2) =
        validate_sufficient_funds_nonneg tx accounts locked stored p funds in
      let (entries3, accounts3, now3) = insert_header_ok tx checked header in
      let db4 = insert_entries_ok tx tx.entries headed rows in
      record {
        balanced = balanced;
        covered =
            subst
              (λ d.
                All (λ a. pos 0 ≤ℤ projected tx d.entries a)
                  (locked_rows (unique_account_ids tx) w.db))
              db1 (subst (All (λ a. pos 0 ≤ℤ projected tx locked.db.entries a)) same covered);
        entries = cc (db4, entries3, db2, db1, now1, now2, now3);
        accounts = cc (db4, accounts3, db2, db1);
      }

-- Every posting that succeeds is such a change.
pub post_transaction_in_tx_ok :
    (tx : Transaction) (w : World)
    → All IsStored w.db.entries
    → All IsPosting tx.entries
    → (post_transaction_in_tx tx w).0 ≡ ok tt
    → IsPosted tx w.db w.now (post_transaction_in_tx tx w).1.db
post_transaction_in_tx_ok tx w h p e =
    elim (Result-cases (lock_accounts (unique_account_ids tx) w).0) [
      | inl (accounts, q) ↦
          let s = stages tx w accounts q e in
          subst (λ r. IsPosted tx w.db w.now r.1.db) (sym s.4) (posted tx w accounts h p q s)
      | inr (x, q) ↦ absurd (unlocked_fails tx w x q e)
    ]
