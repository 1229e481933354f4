-- ===== src/Ledger/Repository/Reading.antt =====
-- What the reads of a valid ledger return.
use banking_plateform.Base.{
  ◌≡◌, ap, ◌∙◌, ◌⊎◌, inl, inr, Bool-cases, refl, Bool, List, [], ◌∷◌, ◌++◌, Str, str_eq, str_eq_iff,
  keep, insert_by, order_by, All, arith,
}
use banking_plateform.Base.Int.{ℤ, pos, ◌+ℤ◌, int_laws}
use banking_plateform.Shared.Errors.{Error, Result, ok, err, Result-cases}
use banking_plateform.Shared.Money.{Money, halalas_from_minor_units, currency_sar}
use banking_plateform.Ledger.Account.{Account, new_account}
use banking_plateform.Ledger.Entry.{Entry, new_entry, IsPosting, IsLine}
use banking_plateform.Ledger.Balance.{balance_from_entries}
use banking_plateform.Ledger.Balance.Exact.{net, riyals_ℤ, apply_entries_sound}
use banking_plateform.Storage.{Db, World, EntryRow}
use banking_plateform.Storage.Calls.{call_annotated-db, call_annotated-now}
use banking_plateform.Ledger.Repository.{
  load_entry, load_entries, load_accounts, account_rows, by_age, list_entries_by_account,
  get_balance,
}

-- The lines of the stored rows.
abbrev pub lines : List EntryRow → List Entry
lines [] = []
lines (r ∷ rows) = r.entry ∷ lines rows

pub lines-append : (rows more : List EntryRow) → lines (rows ++ more) ≡ lines rows ++ lines more
lines-append [] more = refl
lines-append (r ∷ rows) more = ground (arith, lines-append rows more)

-- A stored row that the constructors of the domain accept.
abbrev pub IsStored : EntryRow → Type 0
IsStored r = IsLine r.entry

pub load_entry-IsStored : (r : EntryRow) → IsStored r → load_entry r ≡ ok r.entry
unfolding load_entry new_entry halalas_from_minor_units
load_entry-IsStored r h = ground (arith, str_eq_iff r.entry.amount.currency currency_sar)

pub load_entries-IsStored :
    (rows : List EntryRow) → All IsStored rows → load_entries rows ≡ ok (lines rows)
unfolding load_entries
load_entries-IsStored [] h = refl
load_entries-IsStored (r ∷ rows) h =
    ground (arith, load_entry-IsStored r h.0, load_entries-IsStored rows h.1)

-- The result is the value `a`, or an error.
abbrev pub OkOnly {ℓ} : {A : Type ℓ} → A → Result A → Type ℓ
OkOnly a r = (r ≡ ok a) ⊎ (e : Error) × (r ≡ err e)

pub new_account-OkOnly : (a : Account) → OkOnly a (new_account a.id a.typ a.name)
unfolding new_account
new_account-OkOnly a = ground arith

pub load_accounts-OkOnly : (rows : List Account) → OkOnly rows (load_accounts rows)
unfolding load_accounts
load_accounts-OkOnly [] = inl refl
load_accounts-OkOnly (a ∷ rows) = ground (arith, new_account-OkOnly a, load_accounts-OkOnly rows)

-- A property of every element is kept by a filter and by a sort.
module _ {A : Type 0} (P : A → Type 0) where
  pub All-keep : (p : A → Bool) (xs : List A) → All P xs → All P (keep p xs)
  All-keep p [] h = h
  All-keep p (x ∷ xs) h = ground (arith, All-keep p xs h.1)

  All-insert_by :
      (before : A → A → Bool) (x : A) (xs : List A) → P x → All P xs → All P (insert_by before x xs)
  unfolding insert_by
  All-insert_by before x [] p h = (p, h)
  All-insert_by before x (y ∷ ys) p h = elim (Bool-cases (before y x)) [
    | inl e ↦ rw e (h.0, All-insert_by before x ys p h.1)
    | inr e ↦ rw e (p, h)
  ]

  pub All-order_by : (before : A → A → Bool) (xs : List A) → All P xs → All P (order_by before xs)
  unfolding order_by
  All-order_by before [] h = h
  All-order_by before (x ∷ xs) h =
      All-insert_by before x (order_by before xs) h.0 (All-order_by before xs h.1)

-- The exact balance over rows does not depend on their order.
net-insert_by :
    (a : Account) (before : EntryRow → EntryRow → Bool) (r : EntryRow) (rows : List EntryRow)
    → net a (lines (insert_by before r rows)) ≡ net a (r.entry ∷ lines rows)
unfolding insert_by
net-insert_by a before r [] = refl
net-insert_by a before r (s ∷ rows) = elim (Bool-cases (before s r)) [
  | inl e ↦ rw e (rw (net-insert_by a before r rows) (omega int_laws))
  | inr e ↦ rw e
]

net-order_by :
    (a : Account) (before : EntryRow → EntryRow → Bool) (rows : List EntryRow)
    → net a (lines (order_by before rows)) ≡ net a (lines rows)
unfolding order_by
net-order_by a before [] = refl
net-order_by a before (r ∷ rows) =
    rw (net-insert_by a before r (order_by before rows), net-order_by a before rows)

-- Nor on the rows of other accounts.
net-keep :
    (a : Account) (rows : List EntryRow)
    → net a (lines (keep (λ r. str_eq r.entry.account_id a.id) rows)) ≡ net a (lines rows)
net-keep a [] = refl
net-keep a (r ∷ rows) = elim (Bool-cases (str_eq r.entry.account_id a.id)) [
  | inl e ↦ rw (e, e, net-keep a rows)
  | inr e ↦ rw (e, net-keep a rows) (omega int_laws)
]

pub net-account_rows :
    (a : Account) (db : Db) → net a (lines (account_rows a.id db)) ≡ net a (lines db.entries)
net-account_rows a db =
    net-order_by a by_age (keep (λ r. str_eq r.entry.account_id a.id) db.entries)
    ∙ net-keep a db.entries

pub All-account_rows :
    (id : Str) (db : Db) → All IsStored db.entries → All IsStored (account_rows id db)
All-account_rows id db h =
    All-order_by IsStored by_age _
      (All-keep IsStored (λ r. str_eq r.entry.account_id id) db.entries h)

lines-IsPosting : (rows : List EntryRow) → All IsStored rows → All IsPosting (lines rows)
lines-IsPosting [] h = tt
lines-IsPosting (r ∷ rows) h = (h.0.posting, lines-IsPosting rows h.1)

-- On a valid ledger the listing fails only by its call, and returns the account's stored lines.
pub list_entries_ok :
    (id : Str) (w : World) (es : List Entry)
    → All IsStored w.db.entries
    → (list_entries_by_account id w).0 ≡ ok es
    → (es ≡ lines (account_rows id w.db)) × All IsPosting es
unfolding list_entries_by_account
list_entries_ok id w es h e =
    let loaded = load_entries-IsStored (account_rows id w.db) (All-account_rows id w.db h) in
    let same : es ≡ lines (account_rows id w.db) = ground (arith, loaded, call_annotated-db w) in
    (same, rw same (lines-IsPosting (account_rows id w.db) (All-account_rows id w.db h)))

pub list_entries-db : (id : Str) (w : World) → (list_entries_by_account id w).1.db ≡ w.db
unfolding list_entries_by_account
list_entries-db id w = ground (arith, call_annotated-db w)

pub list_entries-now : (id : Str) (w : World) → (list_entries_by_account id w).1.now ≡ w.now
unfolding list_entries_by_account
list_entries-now id w = ground (arith, call_annotated-now w)

zero_plus : (z : ℤ) → pos 0 +ℤ z ≡ z
zero_plus z = omega int_laws

-- When the stored lines are well formed, a balance that `GetBalance` returns is the exact signed
-- sum of the account's stored lines, in riyals.
pub get_balance_exact :
    (a : Account) (w : World) (m : Money)
    → All IsStored w.db.entries
    → (get_balance a w).0 ≡ ok m
    → m ≡ riyals_ℤ (net a (lines w.db.entries))
unfolding get_balance balance_from_entries
get_balance_exact a w m h e = elim (Result-cases (list_entries_by_account a.id w).0) [
  | inl (es, q) ↦
      let (same, posted) = list_entries_ok a.id w es h q in
      ground (
        arith,
        apply_entries_sound a (pos 0) es {m = m},
        zero_plus (net a es),
        ap (net a) same,
        net-account_rows a w.db,
      )
  | inr (x, q) ↦ ground arith
]
