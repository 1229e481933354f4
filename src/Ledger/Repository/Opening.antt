-- ===== src/Ledger/Repository/Opening.antt =====
-- A new account in the books.
use banking_plateform.Base.{
  ◌≡◌, refl, subst, List, [], ◌∷◌, ◌++◌, map, Bool, true, false, Str, str_eq, str_eq_iff, exists,
  All, All-append, Bool-cases, inl, inr, arith,
}
use banking_plateform.Base.Int.{pos, ◌≤ℤ◌}
use banking_plateform.Ledger.Account.{Account}
use banking_plateform.Ledger.Entry.{Entry}
use banking_plateform.Ledger.Balance.Exact.{net}
use banking_plateform.Ledger.Repository.{create_account}
use banking_plateform.Ledger.Repository.Reading.{lines}
use banking_plateform.Ledger.Repository.Locks.{net_untouched}
use banking_plateform.Ledger.Repository.Frame.{IsLinked, IsLinkedTo}
use banking_plateform.Ledger.Repository.Invariant.{IsSound}
use banking_plateform.Storage.{Db, World, EntryRow}
use banking_plateform.Storage.Text.{elem}
use banking_plateform.Storage.Calls.{call_annotated-db}

abbrev has_id : Str → List Account → Bool
has_id id accounts = exists (λ a. str_eq a.id id) accounts

-- An identifier that no account has is named by no linked line.
unnamed_id :
    (id : Str) (accounts : List Account) (rows : List EntryRow)
    → has_id id accounts ≡ false
    → All (IsLinkedTo accounts) rows
    → elem id (map (λ (e : Entry). e.account_id) (lines rows)) ≡ false
unnamed_id id accounts [] n h = refl
unnamed_id id accounts (r ∷ rows) n (l, h) = elim (Bool-cases (str_eq r.entry.account_id id)) [
  | inl e ↦
      let taken : has_id id accounts ≡ true =
        subst (λ s. has_id s accounts ≡ true) ((str_eq_iff r.entry.account_id id).0 e) l in
      cc
  | inr e ↦ rw e (unnamed_id id accounts rows n h)
]

has_id-append :
    (id : Str) (accounts more : List Account)
    → has_id id accounts ≡ true
    → has_id id (accounts ++ more) ≡ true
has_id-append id [] more h = ground arith
has_id-append id (a ∷ accounts) more h = ground (arith, has_id-append id accounts more)

still_linked :
    (accounts more : List Account) (rows : List EntryRow)
    → All (IsLinkedTo accounts) rows
    → All (IsLinkedTo (accounts ++ more)) rows
still_linked accounts more [] h = tt
still_linked accounts more (r ∷ rows) (l, h) =
    (has_id-append r.entry.account_id accounts more l, still_linked accounts more rows h)

abbrev with_account : Db → Account → Db
with_account db account = record db { accounts = db.accounts ++ account ∷ [] }

opened-IsSound :
    (db : Db) (account : Account)
    → has_id account.id db.accounts ≡ false
    → IsLinked db
    → IsSound db
    → IsSound (with_account db account)
opened-IsSound db account n l h = record {
  stored = h.stored;
  tied = h.tied;
  covered =
      All-append (λ a. pos 0 ≤ℤ net a (lines db.entries)) db.accounts (account ∷ []) h.covered
        (
          rw
              (net_untouched account (lines db.entries)
                (unnamed_id account.id db.accounts db.entries n l))
              (omega arith),
          tt,
        );
}

-- The books with their foreign key: sound, and every line names a stored account.
pub record AreBooks (db : Db) : Type 0 where
  pub sound : IsSound db
  pub linked : IsLinked db

opened-AreBooks :
    (db : Db) (account : Account)
    → has_id account.id db.accounts ≡ false
    → AreBooks db
    → AreBooks (with_account db account)
opened-AreBooks db account n b = record {
  sound = opened-IsSound db account n b.linked b.sound;
  linked = still_linked db.accounts (account ∷ []) db.entries b.linked;
}

-- Whatever the opening of an account answers, and whatever calls fail on the way: when the ledger was
-- sound and every stored line named a stored account, both stay so. The new account has no balance.
pub create_account-AreBooks :
    (account : Account) (w : World) → AreBooks w.db → AreBooks (create_account account w).1.db
unfolding create_account
create_account-AreBooks account w b =
    ground (arith, call_annotated-db w, b, opened-AreBooks w.db account)
