-- ===== src/Storage/Calls.antt =====
-- A call changes no table and no clock; a database transaction that fails changes no table.
use banking_plateform.Base.{[], ◌≡◌, refl, sym, ap, ◌∙◌, arith}
use banking_plateform.Shared.Errors.{Error, Result, ok, err}
use banking_plateform.Storage.{World, Db}
use banking_plateform.Storage.Monad.{
  M, call, call_annotated, in_tx, finish_tx, roll_back, continue, ◌>>=◌,
}

pub call-db : (w : World) → (call w).1.db ≡ w.db
unfolding call
call-db w = ground arith

pub call-now : (w : World) → (call w).1.now ≡ w.now
unfolding call
call-now w = ground arith

pub call_annotated-db : (w : World) → (call_annotated w).1.db ≡ w.db
unfolding call_annotated
call_annotated-db w = call-db w

pub call_annotated-now : (w : World) → (call_annotated w).1.now ≡ w.now
unfolding call_annotated
call_annotated-now w = call-now w

-- When the script is used up, a call succeeds and changes nothing.
pub call_annotated_quiet : (w : World) → w.script ≡ [] → call_annotated w ≡ (ok tt, w)
unfolding call_annotated call
call_annotated_quiet w q = rw q refl

-- `Db` of a failed transaction is the one from before it.
pub in_tx_atomic {ℓ} :
    {A : Type ℓ} (trip : M (Unit {0})) (body : M A) (w : World) (e : Error)
    → ((v : World) → (trip v).1.db ≡ v.db)
    → (in_tx trip body w).0 ≡ err e
    → (in_tx trip body w).1.db ≡ w.db
unfolding in_tx
in_tx_atomic trip body w e same h = ground (arith, same w)

-- A transaction that succeeds has run its body from the tables of before, and kept its tables.
pub in_tx_commits {ℓ} :
    {A : Type ℓ} (trip : M (Unit {0})) (body : M A) (w : World) (a : A)
    → ((v : World) → (trip v).1.db ≡ v.db)
    → (in_tx trip body w).0 ≡ ok a
    → ((body (trip w).1).0 ≡ ok a) × ((in_tx trip body w).1.db ≡ (body (trip w).1).1.db)
unfolding in_tx
in_tx_commits trip body w a same h = ground (arith, same (body (trip w).1).1)

-- Inversion of a step that succeeds: the first part has succeeded, and the rest runs from where it
-- has ended.
continue_ok {ℓ κ} :
    {A : Type ℓ} {B : Type κ} (r : Result A) (f : A → M B) (v : World) {b : B}
    → (continue r f v).0 ≡ ok b
    → (a : A) × (r ≡ ok a) × (continue r f v ≡ f a v)
continue_ok (ok a) f v h = (a, refl, refl)
continue_ok (err e) f v h = cc

pub bind_ok {ℓ κ} :
    {A : Type ℓ} {B : Type κ} (m : M A) (f : A → M B) (w : World) {b : B}
    → ((m >>= f) w).0 ≡ ok b
    → (a : A) × ((m w).0 ≡ ok a) × ((m >>= f) w ≡ f a (m w).1)
bind_ok m f w h = continue_ok (m w).0 f (m w).1 h

-- The same, with the answer of the rest.
pub bind_ok_rest {ℓ κ} :
    {A : Type ℓ} {B : Type κ} (m : M A) (f : A → M B) (w : World) {b : B}
    → ((m >>= f) w).0 ≡ ok b
    → (a : A) × ((m w).0 ≡ ok a) × ((f a (m w).1).0 ≡ ok b)
bind_ok_rest m f w h = let (a, e, step) = bind_ok m f w h in (a, e, ap (λ p. p.0) (sym step) ∙ h)

-- When the script is used up, a call succeeds and changes nothing.
pub call_quiet : (w : World) → w.script ≡ [] → call w ≡ (ok tt, w)
unfolding call
call_quiet w q = rw q refl

-- A commit that succeeds and changes nothing.
pub finish_quiet :
    {A : Type 0} (trip : M (Unit {0})) (db : Db) (a : A) (v : World)
    → trip v ≡ (ok tt, v)
    → finish_tx trip db (ok a) v ≡ (ok a, v)
finish_quiet {A} trip db a v e = ap ended e
  where
    ended : Result (Unit {0}) × World → Result A × World
    ended x = elim x.0 [ ok _ ↦ (ok a, x.1) | err e ↦ (err e, roll_back db x.1) ]
