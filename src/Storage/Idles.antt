-- ===== src/Storage/Idles.antt =====
-- Rules: in quiet surroundings a call leaves them quiet, and the Redis records as they are.
use banking_plateform.Base.{◌≡◌, refl, ap, ◌∙◌, [], inl, inr, Bool, true, false}
use banking_plateform.Shared.Errors.{Error, Result, ok, err, Result-cases}
use banking_plateform.Storage.{Db, World}
use banking_plateform.Storage.Monad.{
  M, ◌>>=◌, in_tx, finish_tx, lift, pure, when, gets, modify_db, call, call_annotated,
}
use banking_plateform.Storage.Calls.{call_quiet, call_annotated_quiet}

pub record Idles {ℓ} {A : Type ℓ} (m : M A) : Type ℓ where
  pub at : (w : World) → w.script ≡ [] → ((m w).1.script ≡ []) × ((m w).1.cache ≡ w.cache)

-- Calls that do not look at the surroundings.
module _ {ℓ} {A : Type ℓ} where
  pub Idles-pure : (a : A) → Idles (pure a)
  Idles-pure a = record { at = λ w q. (q, refl) }

  pub Idles-lift : (r : Result A) → Idles (lift r)
  Idles-lift r = record { at = λ w q. (q, refl) }

  pub Idles-gets : (f : World → A) → Idles (gets f)
  Idles-gets f = record { at = λ w q. (q, refl) }

pub Idles-when : (b : Bool) (e : Error) → Idles (when b e)
Idles-when true e = record { at = λ w q. (q, refl) }
Idles-when false e = record { at = λ w q. (q, refl) }

pub Idles-modify_db : (f : Db → Db) → Idles (modify_db f)
Idles-modify_db f = record { at = λ w q. (q, refl) }

pub Idles-call : Idles call
Idles-call = record {
  at = λ w q. (ap (λ a. a.1.script) (call_quiet w q) ∙ q, ap (λ a. a.1.cache) (call_quiet w q));
}

pub Idles-call_annotated : Idles call_annotated
Idles-call_annotated = record {
  at = λ w q. (
    ap (λ a. a.1.script) (call_annotated_quiet w q) ∙ q,
    ap (λ a. a.1.cache) (call_annotated_quiet w q),
  );
}

module _ {ℓ κ} {A : Type ℓ} {B : Type κ} where
  pub Idles-bind : (m : M A) (f : A → M B) → Idles m → ((a : A) → Idles (f a)) → Idles (m >>= f)
  Idles-bind m f i j = record {
    at = λ w q.
        let (p, c) = i.at w q in
        elim (Result-cases (m w).0) [
          | inl (a, e) ↦ rw e (((j a).at (m w).1 p).0, ((j a).at (m w).1 p).1 ∙ c)
          | inr (x, e) ↦ rw e (p, c)
        ];
  }

finish-Idles :
    {A : Type 0} (trip : M (Unit {0})) (db : Db) (r : Result A) (v : World)
    → Idles trip
    → v.script ≡ []
    → ((finish_tx trip db r v).1.script ≡ []) × ((finish_tx trip db r v).1.cache ≡ v.cache)
finish-Idles trip db (err e) v i q = (q, refl)
finish-Idles trip db (ok a) v i q = elim (Result-cases (trip v).0) [
  | inl (u, e) ↦ rw (finish_tx, e) (i.at v q)
  | inr (x, e) ↦ rw (finish_tx, e) (i.at v q)
]

pub Idles-in_tx :
    {A : Type 0} (trip : M (Unit {0})) (m : M A) → Idles trip → Idles m → Idles (in_tx trip m)
unfolding in_tx
Idles-in_tx trip m i j = record {
  at = λ w q.
      let (p, c) = i.at w q in
      elim (Result-cases (trip w).0) [
        | inr (x, e) ↦ rw e (p, c)
        | inl (u, e) ↦
            let (p', c') = j.at (trip w).1 p in
            let (p'', c'') =
              finish-Idles trip (trip w).1.db (m (trip w).1).0 (m (trip w).1).1 i p' in
            rw e (p'', c'' ∙ c' ∙ c)
      ];
}
