-- ===== src/Storage/Keeps.antt =====
-- Rules: what keeps a property of the tables, for calls, chains of calls and database transactions.
use banking_plateform.Base.{◌≡◌, refl, sym, subst, ap, ◌∙◌, inl, inr, Bool, true, false}
use banking_plateform.Shared.Errors.{Error, Result, ok, err, Result-cases}
use banking_plateform.Storage.{Db, World}
use banking_plateform.Storage.Monad.{M, continue, ◌>>=◌, in_tx, lift, pure, when}
use banking_plateform.Storage.Calls.{in_tx_atomic, in_tx_commits, bind_ok}

-- Whatever the call answers, the property stays.
pub record Keeps {ℓ} (P : Db → Type 0) {A : Type ℓ} (m : M A) : Type ℓ where
  pub at : (w : World) → P w.db → P (m w).1.db

-- If the call succeeds, the property stays: enough inside a database transaction.
pub record KeepsOk {ℓ} (P : Db → Type 0) {A : Type ℓ} (m : M A) : Type ℓ where
  pub at : (w : World) {a : A} → (m w).0 ≡ ok a → P w.db → P (m w).1.db

module _ {ℓ} {P : Db → Type 0} {A : Type ℓ} where
  pub Keeps-KeepsOk : {m : M A} → Keeps P m → KeepsOk P m
  Keeps-KeepsOk k = record { at = λ w e h. k.at w h }

  -- A call that writes in no table.
  pub Keeps-same : (m : M A) → ((w : World) → (m w).1.db ≡ w.db) → Keeps P m
  Keeps-same m same = record { at = λ w h. subst P (sym (same w)) h }

  pub Keeps-pure : (a : A) → Keeps P (pure a)
  Keeps-pure a = record { at = λ w h. h }

  pub KeepsOk-in_tx :
      (trip : M (Unit {0})) (m : M A)
      → ((v : World) → (trip v).1.db ≡ v.db)
      → KeepsOk P m
      → Keeps P (in_tx trip m)
  KeepsOk-in_tx trip m same k = record {
    at = λ w h. elim (Result-cases (in_tx trip m w).0) [
      | inr (x, e) ↦ subst P (sym (in_tx_atomic trip m w x same e)) h
      | inl (a, e) ↦
          let (q, db) = in_tx_commits trip m w a same e in
          subst P (sym db) (k.at (trip w).1 q (subst P (sym (same w)) h))
    ];
  }

module _ {P : Db → Type 0} where
  pub Keeps-when : (b : Bool) (e : Error) → Keeps P (when b e)
  Keeps-when true e = record { at = λ w h. h }
  Keeps-when false e = record { at = λ w h. h }

module _ {ℓ κ} {P : Db → Type 0} {A : Type ℓ} {B : Type κ} (m : M A) (f : A → M B) where
  pub KeepsOk-bind : KeepsOk P m → ((a : A) → KeepsOk P (f a)) → KeepsOk P (m >>= f)
  KeepsOk-bind k l = record {
    at = λ w e h.
        let (a, q, step) = bind_ok m f w e in
        subst (λ r. P r.1.db) (sym step)
          ((l a).at (m w).1 (ap (λ r. r.0) (sym step) ∙ e) (k.at w q h));
  }

  continue-Keeps :
      (r : Result A) (v : World) → ((a : A) → Keeps P (f a)) → P v.db → P (continue r f v).1.db
  continue-Keeps (ok a) v l h = (l a).at v h
  continue-Keeps (err e) v l h = h

  pub Keeps-bind : Keeps P m → ((a : A) → Keeps P (f a)) → Keeps P (m >>= f)
  Keeps-bind k l = record { at = λ w h. continue-Keeps (m w).0 (m w).1 l (k.at w h) }

-- A step whose result is computed: the rest may use the equation.
pub lift_bind-Keeps {ℓ κ} :
    {P : Db → Type 0} {A : Type ℓ} {B : Type κ} (r : Result A) (f : A → M B)
    → ((a : A) → r ≡ ok a → Keeps P (f a))
    → Keeps P (lift r >>= f)
lift_bind-Keeps (ok a) f k = k a refl
lift_bind-Keeps (err e) f k = record { at = λ w h. h }

-- Two properties at once.
pub record Both (P Q : Db → Type 0) (db : Db) : Type 0 where
  pub first : P db
  pub second : Q db

module _ {ℓ} {P Q : Db → Type 0} {A : Type ℓ} {m : M A} where
  pub Keeps-Both : Keeps P m → Keeps Q m → Keeps (Both P Q) m
  Keeps-Both k l = record {
    at = λ w h. record { first = k.at w h.first; second = l.at w h.second };
  }

  pub KeepsOk-Both : KeepsOk P m → KeepsOk Q m → KeepsOk (Both P Q) m
  KeepsOk-Both k l = record {
    at = λ w e h. record { first = k.at w e h.first; second = l.at w e h.second };
  }
