-- ===== src/Ledger/Repository/Posting.antt =====
-- A posting keeps the ledger valid.
use banking_plateform.Base.{ℕ, ◌≡◌, refl, ap, sym, subst, ◌∙◌, inl, inr, List, [], ◌∷◌, All, arith}
use banking_plateform.Base.Int.{ℤ, pos, ◌+ℤ◌, ◌≤ℤ◌, int_laws}
use banking_plateform.Shared.Errors.{ok, Result-cases}
use banking_plateform.Shared.Int64.{InRange}
use banking_plateform.Shared.Money.{Money}
use banking_plateform.Ledger.Account.{Account}
use banking_plateform.Ledger.Entry.{Entry, IsPosting}
use banking_plateform.Ledger.Transaction.{Transaction}
use banking_plateform.Ledger.Balance.{balance_from_entries, apply_entries}
use banking_plateform.Ledger.Balance.Exact.{net, riyals_ℤ, apply_entries_sound}
use banking_plateform.Storage.{Db, World, EntryRow}
use banking_plateform.Ledger.Repository.{
  check_funds, validate_sufficient_funds, list_entries_by_account,
}
use banking_plateform.Ledger.Repository.Reading.{
  lines, IsStored, list_entries-db, list_entries-now, list_entries_ok, net-account_rows,
}

pub check_funds-db : (tx : Transaction) (a : Account) (w : World) → (check_funds tx a w).1.db ≡ w.db
unfolding check_funds
check_funds-db tx a w = ground (arith, list_entries-db a.id w)

pub check_funds-now :
    (tx : Transaction) (a : Account) (w : World) → (check_funds tx a w).1.now ≡ w.now
unfolding check_funds
check_funds-now tx a w = ground (arith, list_entries-now a.id w)

zero_plus : (z : ℤ) → pos 0 +ℤ z ≡ z
zero_plus z = omega int_laws

-- The balance that the account has after the posting, as an integer.
abbrev pub projected : Transaction → List EntryRow → Account → ℤ
projected tx rows a = net a (lines rows) +ℤ net a tx.entries

-- A derived balance that is returned is the exact one, and in range.
balance_exact :
    (a : Account) (es : List Entry) (m : Money)
    → All IsPosting es
    → apply_entries a (riyals_ℤ (pos 0)) es ≡ ok m
    → (m ≡ riyals_ℤ (net a es)) × InRange (net a es)
balance_exact a es m p b =
    ground (arith, apply_entries_sound a (pos 0) es {m = m} (omega arith) p b, zero_plus (net a es))

-- The projection from the current balance.
projection_exact :
    (tx : Transaction) (a : Account) (es : List Entry) (m : Money) (n : Money)
    → All IsPosting es
    → All IsPosting tx.entries
    → apply_entries a (riyals_ℤ (pos 0)) es ≡ ok m
    → apply_entries a m tx.entries ≡ ok n
    → n ≡ riyals_ℤ (net a es +ℤ net a tx.entries)
projection_exact tx a es m n p q b c =
    let (same, r) = balance_exact a es m p b in
    (apply_entries_sound a (net a es) tx.entries {m = n} r q
      (subst (λ t. apply_entries a t tx.entries ≡ ok n) same c)).0

-- An account that passes the check ends with no negative balance.
pub check_funds_nonneg :
    (tx : Transaction) (a : Account) (w : World)
    → All IsStored w.db.entries
    → All IsPosting tx.entries
    → (check_funds tx a w).0 ≡ ok tt
    → pos 0 ≤ℤ projected tx w.db.entries a
unfolding check_funds balance_from_entries
check_funds_nonneg tx a w h p e = elim (Result-cases (list_entries_by_account a.id w).0) [
  | inr (x, q) ↦ ground arith
  | inl (es, q) ↦
      let (same, posted) = list_entries_ok a.id w es h q in
      let total : net a es ≡ net a (lines w.db.entries) =
        ap (net a) same ∙ net-account_rows a w.db in
      elim (Result-cases (apply_entries a (riyals_ℤ (pos 0)) es)) [
        | inr (x, b) ↦ ground arith
        | inl (m, b) ↦ elim (Result-cases (apply_entries a m tx.entries)) [
          | inr (x, c) ↦ ground arith
          | inl (n, c) ↦ ground (arith, projection_exact tx a es m n posted p b c)
        ]
      ]
]

validate-cons :
    (tx : Transaction) (a : Account) (accounts : List Account) (w : World)
    → (check_funds tx a w).0 ≡ ok tt
    → validate_sufficient_funds tx (a ∷ accounts) w
      ≡ validate_sufficient_funds tx accounts (check_funds tx a w).1
unfolding validate_sufficient_funds
validate-cons tx a accounts w q = ground arith

validate-head :
    (tx : Transaction) (a : Account) (accounts : List Account) (w : World)
    → (validate_sufficient_funds tx (a ∷ accounts) w).0 ≡ ok tt
    → (check_funds tx a w).0 ≡ ok tt
unfolding validate_sufficient_funds
validate-head tx a accounts w e = ground arith

abbrev pub Checked : Transaction → Db → ℕ → List Account → World → Type 0
Checked tx db now accounts v =
    All (λ a. pos 0 ≤ℤ projected tx db.entries a) accounts × (v.db ≡ db) × (v.now ≡ now)

-- Every checked account, from the tables of before.
pub validate_sufficient_funds_nonneg :
    (tx : Transaction) (accounts : List Account) (w : World)
    → All IsStored w.db.entries
    → All IsPosting tx.entries
    → (validate_sufficient_funds tx accounts w).0 ≡ ok tt
    → Checked tx w.db w.now accounts (validate_sufficient_funds tx accounts w).1
validate_sufficient_funds_nonneg tx [] w h p e =
    unfold validate_sufficient_funds in (tt, refl, refl)
validate_sufficient_funds_nonneg tx (a ∷ accounts) w h p e =
    let q = validate-head tx a accounts w e in
    let v = (check_funds tx a w).1 in
    let step = validate-cons tx a accounts w q in
    let same : v.db ≡ w.db = check_funds-db tx a w in
    let clock : v.now ≡ w.now = check_funds-now tx a w in
    let rest =
      validate_sufficient_funds_nonneg tx accounts v
        (subst (λ d. All IsStored d.entries) (sym same) h) p (ap (λ r. r.0) (sym step) ∙ e) in
    let moved =
      subst (λ d. Checked tx d v.now accounts (validate_sufficient_funds tx accounts v).1) same
        rest in
    let timed =
      subst (λ n. Checked tx w.db n accounts (validate_sufficient_funds tx accounts v).1) clock
        moved in
    subst (λ r. Checked tx w.db w.now (a ∷ accounts) r.1) (sym step)
      ((check_funds_nonneg tx a w h p q, timed.0), timed.1, timed.2)
