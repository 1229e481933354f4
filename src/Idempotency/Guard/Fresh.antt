-- ===== src/Idempotency/Guard/Fresh.antt =====
-- An answer of the guard that is no replay comes from a run of the operation.
use banking_plateform.Base.{◌≡◌, sym, ap, subst, ◌∙◌, Bool, true, false, Str, arith}
use banking_plateform.Idempotency.Guard.{
  answer_existing, validate_fingerprint, answer_status, wait_for_existing, finish, run_holder,
  acquired_or_wait, acquire, after_get, run,
}
use banking_plateform.Idempotency.Guard.Keeps.{get-db, try_acquire-db, finish-db}
use banking_plateform.Idempotency.Record.{Record, Outcome, Status, processing, completed, failed}
use banking_plateform.Idempotency.Store.{get, try_acquire}
use banking_plateform.Shared.Errors.{Result, ok, err}
use banking_plateform.Storage.{Db, World}
use banking_plateform.Storage.Calls.{bind_ok, bind_ok_rest}
use banking_plateform.Storage.Marks.{Marks}
use banking_plateform.Storage.Monad.{M, lift}

status_replayed :
    (s : Status) (r : Record) (a : Outcome × Bool) → answer_status s r ≡ ok a → a.1 ≡ true
unfolding answer_status
status_replayed completed r a e = ground arith
status_replayed processing r a e = cc
status_replayed failed r a e = cc

existing_replayed :
    (r : Record) (f : Str) (w : World) (a : Outcome × Bool)
    → (answer_existing r f w).0 ≡ ok a
    → a.1 ≡ true
unfolding answer_existing
existing_replayed r f w a e =
    let (u, q, rest) = bind_ok_rest (lift (validate_fingerprint r f)) _ w e in
    status_replayed r.status r a rest

module _ {Free Taken : Db → Type 0} (scope key fingerprint : Str) (fn : M Outcome)
    (k : Marks Free Taken fn) where
  finish_ok :
      (r : Result Outcome) (v : World) (a : Outcome × Bool)
      → (finish scope key fingerprint fn r v).0 ≡ ok a
      → (o : Outcome) × (r ≡ ok o)
  unfolding finish
  finish_ok (ok o) v a e = (o, λ i. ok o)
  finish_ok (err x) v a e = cc

  run_holder-Marks : Marks Free Taken (run_holder scope key fingerprint fn)
  unfolding run_holder
  run_holder-Marks = record {
    at = λ w {a} e.
        let (o, q) = finish_ok (fn w).0 (fn w).1 a e in
        let (free, taken) = k.at w q in
        (free, subst Taken (sym (finish-db scope key fingerprint fn (fn w).0 (fn w).1)) taken);
  }

  -- What a new answer shows.
  abbrev New : World → Result (Outcome × Bool) × World → Type 0
  New w r = (a : Outcome × Bool) → r.0 ≡ ok a → a.1 ≡ false → Free w.db × Taken r.1.db

  wait-New : (w : World) → New w (wait_for_existing scope key fingerprint w)
  unfolding wait_for_existing
  wait-New w a e n =
      let (r, q, rest) = bind_ok_rest (get scope key) _ w e in
      let replayed = existing_replayed r fingerprint (get scope key w).1 a rest in cc

  acquired-New : (b : Bool) (w : World) → New w (acquired_or_wait scope key fingerprint fn b w)
  unfolding acquired_or_wait
  acquired-New true w a e n = run_holder-Marks.at w e
  acquired-New false w a e n = wait-New w a e n

  acquire-New : (w : World) → New w (acquire scope key fingerprint fn w)
  unfolding acquire
  acquire-New w a e n =
      let first = try_acquire scope key fingerprint in
      let (b, q, step) = bind_ok first (acquired_or_wait scope key fingerprint fn) w e in
      let (free, taken) = acquired-New b (first w).1 a (ap (λ r. r.0) (sym step) ∙ e) n in
      (
        subst Free (try_acquire-db scope key fingerprint w) free,
        subst (λ r. Taken r.1.db) (sym step) taken,
      )

  after_get-New : (r : Result Record) (w : World) → New w (after_get scope key fingerprint fn r w)
  unfolding after_get
  after_get-New (ok r) w a e n = let replayed = existing_replayed r fingerprint w a e in cc
  after_get-New (err x) w a e n = ground (arith, acquire-New w a)

  -- When the operation succeeds only on tables of one kind and leaves tables of another, an answer
  -- that is no replay shows the same of the guard's run.
  pub run-New : (w : World) → New w (run scope key fingerprint fn w)
  unfolding run
  run-New w a e n =
      let (free, taken) = after_get-New (get scope key w).0 (get scope key w).1 a e n in
      (subst Free (get-db scope key w) free, taken)
