-- ===== src/Storage/Monad.antt =====
-- Calls that read and write the stored state and may fail, and the database transaction.
use banking_plateform.Base.{List, [], ◌∷◌, Bool, true, false}
use banking_plateform.Shared.Errors.{Error, Result, ok, err, plain, relabel}
use banking_plateform.Storage.{Db, World, Signal, fine, fault, rival}

abbrev pub M {ℓ} : Type ℓ → Type ℓ
M A = World → Result A × World

module _ {ℓ} {A : Type ℓ} where
  abbrev pub pure : A → M A
  pure a w = (ok a, w)

  abbrev pub raise : Error → M A
  raise e w = (err e, w)

  abbrev pub lift : Result A → M A
  lift r w = (r, w)

  abbrev pub gets : (World → A) → M A
  gets f w = (ok (f w), w)

module _ {ℓ κ} {A : Type ℓ} {B : Type κ} where
  abbrev pub continue : Result A → (A → M B) → M B
  continue (ok a) f w = f a w
  continue (err e) f w = (err e, w)

  infixl 5 ◌>>=◌
  abbrev pub ◌>>=◌ : M A → (A → M B) → M B
  ◌>>=◌ m f w = let (r, w') = m w in continue r f w'

infixl 5 ◌>>◌
abbrev pub ◌>>◌ {ℓ κ} : {A : Type ℓ} {B : Type κ} → M A → M B → M B
m >> k = m >>= λ _. k

abbrev pub when : Bool → Error → M (Unit {0})
when true e w = (err e, w)
when false e w = (ok tt, w)

abbrev pub modify_db : (Db → Db) → M (Unit {0})
modify_db f w = (ok tt, record w { db = f w.db })

abbrev answer : Signal → World → Result (Unit {0}) × World
answer fine w = (ok tt, w)
answer fault w = (err plain, w)
answer (rival c) w = (ok tt, record w { cache = c })

abbrev next_signal : List Signal → World → Result (Unit {0}) × World
next_signal [] w = (ok tt, w)
next_signal (s ∷ rest) w = answer s (record w { script = rest })

-- One round trip to Postgres, Redis or a publisher.
unfoldable pub call : M (Unit {0})
call w = next_signal w.script w

-- A failure is wrapped by `fmt.Errorf`.
abbrev pub annotating {ℓ} : {A : Type ℓ} → M A → M A
annotating m w = let (r, w') = m w in (relabel r, w')

-- The same, with the failure wrapped.
unfoldable pub call_annotated : M (Unit {0})
call_annotated = annotating call

-- `defer dbTx.Rollback`: the tables are those from before the transaction.
abbrev pub roll_back : Db → World → World
roll_back db w = record w { db = db }

-- The commit, or the rollback of what failed.
abbrev pub finish_tx {ℓ} : {A : Type ℓ} → (M (Unit {0})) → Db → Result A → World → Result A × World
finish_tx commit db (err e) w = (err e, roll_back db w)
finish_tx {A} commit db (ok a) w =
    let (r, w') = commit w in
    let out : Result A × World = elim r [ ok _ ↦ (ok a, w') | err e ↦ (err e, roll_back db w') ] in
    out

abbrev pub run_tx {ℓ} :
    {A : Type ℓ} → (M (Unit {0})) → M A → Result (Unit {0}) → World → Result A × World
run_tx commit body (err e) w = (err e, w)
run_tx commit body (ok _) w = let (r, w') = body w in finish_tx commit w.db r w'

-- `Begin`, the body, `Commit`: `trip` is the call that begins and commits. A commit that fails has
-- not committed.
unfoldable pub in_tx {ℓ} : {A : Type ℓ} → M (Unit {0}) → M A → M A
in_tx trip body w = let (r, w') = trip w in run_tx trip body r w'
