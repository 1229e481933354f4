-- ===== src/Idempotency/Guard/Keeps.antt =====
-- The guard writes in no table: around an operation that keeps a property of the tables, it keeps it.
use banking_plateform.Base.{◌≡◌, Bool, true, false, Str, arith}
use banking_plateform.Shared.Errors.{Error, Result, ok, err}
use banking_plateform.Idempotency.Record.{Record, Outcome}
use banking_plateform.Idempotency.Store.{get, try_acquire, complete, fail, delete}
use banking_plateform.Idempotency.Guard.{
  answer_existing, wait_for_existing, handle_failure, finish, run_holder, acquired_or_wait, acquire,
  after_get, run,
}
use banking_plateform.Storage.{Db, World}
use banking_plateform.Storage.Monad.{M, call_annotated}
use banking_plateform.Storage.Calls.{call_annotated-db}
use banking_plateform.Storage.Keeps.{Keeps, Keeps-same, Keeps-bind}

module _ (scope key : Str) where
  pub get-db : (w : World) → (get scope key w).1.db ≡ w.db
  unfolding get
  get-db w = ground (arith, call_annotated-db w)

  pub try_acquire-db : (f : Str) (w : World) → (try_acquire scope key f w).1.db ≡ w.db
  unfolding try_acquire
  try_acquire-db f w = ground (arith, call_annotated-db w)

  complete-db : (o : Outcome) (w : World) → (complete scope key o w).1.db ≡ w.db
  unfolding complete get
  complete-db o w = ground (arith, call_annotated-db w, call_annotated-db (call_annotated w).1)

  fail-db : (w : World) → (fail scope key w).1.db ≡ w.db
  unfolding fail get
  fail-db w = ground (arith, call_annotated-db w, call_annotated-db (call_annotated w).1)

  delete-db : (w : World) → (delete scope key w).1.db ≡ w.db
  unfolding delete
  delete-db w = ground (arith, call_annotated-db w)

answer_existing-db : (r : Record) (f : Str) (w : World) → (answer_existing r f w).1.db ≡ w.db
unfolding answer_existing
answer_existing-db r f w = ground arith

module _ (scope key fingerprint : Str) (fn : M Outcome) where
  handle_failure-db : (e : Error) (w : World) → (handle_failure scope key fingerprint e w).db ≡ w.db
  unfolding handle_failure
  handle_failure-db e w = ground (arith, delete-db scope key w, fail-db scope key w)

  pub finish-db :
      (r : Result Outcome) (w : World) → (finish scope key fingerprint fn r w).1.db ≡ w.db
  unfolding finish
  finish-db (err e) w = handle_failure-db e w
  finish-db (ok o) w = ground (arith, complete-db scope key o w)

module _ {P : Db → Type 0} (scope key fingerprint : Str) (fn : M Outcome) (k : Keeps P fn) where
  wait-Keeps : Keeps P (wait_for_existing scope key fingerprint)
  unfolding wait_for_existing
  wait-Keeps =
      Keeps-bind (get scope key) _ (Keeps-same (get scope key) (get-db scope key))
        λ r. Keeps-same _ (answer_existing-db r fingerprint)

  run_holder-Keeps : Keeps P (run_holder scope key fingerprint fn)
  unfolding run_holder
  run_holder-Keeps = record {
    at = λ w h.
        (Keeps-same {P = P} (finish scope key fingerprint fn (fn w).0)
            (finish-db scope key fingerprint fn (fn w).0)).at
          (fn w).1 (k.at w h);
  }

  acquired-Keeps : (b : Bool) → Keeps P (acquired_or_wait scope key fingerprint fn b)
  unfolding acquired_or_wait
  acquired-Keeps true = run_holder-Keeps
  acquired-Keeps false = wait-Keeps

  acquire-Keeps : Keeps P (acquire scope key fingerprint fn)
  unfolding acquire
  acquire-Keeps =
      Keeps-bind (try_acquire scope key fingerprint) _
        (Keeps-same _ (try_acquire-db scope key fingerprint)) acquired-Keeps

  after_get-Keeps : (r : Result Record) → Keeps P (after_get scope key fingerprint fn r)
  unfolding after_get
  after_get-Keeps (ok r) = Keeps-same _ (answer_existing-db r fingerprint)
  after_get-Keeps (err e) = record { at = λ w h. ground (arith, acquire-Keeps.at w h, h) }

  pub run-Keeps : Keeps P (run scope key fingerprint fn)
  unfolding run
  run-Keeps = record {
    at = λ w h.
        (after_get-Keeps (get scope key w).0).at (get scope key w).1
          ((Keeps-same {P = P} (get scope key) (get-db scope key)).at w h);
  }
