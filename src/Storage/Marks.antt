-- ===== src/Storage/Marks.antt =====
-- Rules: calls that succeed only on tables of one kind, and leave tables of another.
use banking_plateform.Base.{◌≡◌, refl, sym, ap, subst, ◌∙◌}
use banking_plateform.Shared.Errors.{Result, ok, err}
use banking_plateform.Storage.{Db, World}
use banking_plateform.Storage.Calls.{bind_ok, in_tx_commits}
use banking_plateform.Storage.Keeps.{Keeps}
use banking_plateform.Storage.Monad.{M, ◌>>=◌, in_tx, lift}

pub record Marks {ℓ} (Free Taken : Db → Type 0) {A : Type ℓ} (m : M A) : Type ℓ where
  pub at : (w : World) {a : A} → (m w).0 ≡ ok a → Free w.db × Taken (m w).1.db

module _ {ℓ κ} {Free Taken : Db → Type 0} {A : Type ℓ} {B : Type κ} (m : M A) (f : A → M B) where
  -- Behind a call that changes no table.
  pub Marks-behind :
      ((w : World) → (m w).1.db ≡ w.db)
      → ((a : A) → Marks Free Taken (f a))
      → Marks Free Taken (m >>= f)
  Marks-behind same k = record {
    at = λ w e.
        let (a, q, step) = bind_ok m f w e in
        let (free, taken) = (k a).at (m w).1 (ap (λ r. r.0) (sym step) ∙ e) in
        (subst Free (same w) free, subst (λ r. Taken r.1.db) (sym step) taken);
  }

  -- Before calls that keep what it leaves.
  pub Marks-before : Marks Free Taken m → ((a : A) → Keeps Taken (f a)) → Marks Free Taken (m >>= f)
  Marks-before k l = record {
    at = λ w e.
        let (a, q, step) = bind_ok m f w e in
        let (free, taken) = k.at w q in
        (free, subst (λ r. Taken r.1.db) (sym step) ((l a).at (m w).1 taken));
  }

pub Marks-in_tx {ℓ} :
    {Free Taken : Db → Type 0} {A : Type ℓ} (trip : M (Unit {0})) (m : M A)
    → ((w : World) → (trip w).1.db ≡ w.db)
    → Marks Free Taken m
    → Marks Free Taken (in_tx trip m)
Marks-in_tx {Free} {Taken} trip m same k = record {
  at = λ w e.
      let (q, db) = in_tx_commits trip m w _ same e in
      let (free, taken) = k.at (trip w).1 q in
      (subst Free (same w) free, subst Taken (sym db) taken);
}

-- Behind a computed result, whose equation the rest may use.
pub lift_bind-Marks {ℓ κ} :
    {Free Taken : Db → Type 0} {A : Type ℓ} {B : Type κ} (r : Result A) (f : A → M B)
    → ((a : A) → r ≡ ok a → Marks Free Taken (f a))
    → Marks Free Taken (lift r >>= f)
lift_bind-Marks (ok a) f k = k a refl
lift_bind-Marks (err x) f k = record { at = λ w e. cc }
