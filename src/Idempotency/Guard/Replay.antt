-- ===== src/Idempotency/Guard/Replay.antt =====
-- What a repeated call of the guard is answered.
use banking_plateform.Base.{
  ◌≡◌, refl, sym, subst, ap, ◌∙◌, [], Bool, true, false, Str, inl, inr, none, some, Option-cases,
  arith,
}
use banking_plateform.Shared.Errors.{Error, domain, conflict, ok, err}
use banking_plateform.Idempotency.Record.{Record, Outcome, failed}
use banking_plateform.Idempotency.Store.{fail, redis_key, cached, put, remove, delete, fresh}
use banking_plateform.Idempotency.Guard.{
  answer_status, answer_existing, handle_failure, is_safe_to_retry, finish, run_holder, run,
}
use banking_plateform.Storage.Calls.{call_annotated_quiet}
use banking_plateform.Storage.{World}
use banking_plateform.Storage.Monad.{M}
use banking_plateform.Idempotency.Guard.Quiet.{
  Stored, run_missing, run_found, run_holder-Stored, answer_existing-Stored, replay, LeavesRecords,
  with_fresh, own_fits, cached-put, cached-remove, get_quiet,
}

module _ (scope key fingerprint : Str) where
  run-Stored :
      (fn : M Outcome) (w : World) (o : Outcome) (b : Bool)
      → LeavesRecords scope key fingerprint fn
      → w.script ≡ []
      → (run scope key fingerprint fn w).0 ≡ ok (o, b)
      → Stored scope key fingerprint o (run scope key fingerprint fn w).1
  run-Stored fn w o b leaves q h = elim (Option-cases (cached (redis_key scope key) w.cache)) [
    | inl k ↦
        let e = run_missing scope key fingerprint fn w q k in
        subst (λ p. Stored scope key fingerprint o p.1) (sym e)
          (run_holder-Stored scope key fingerprint fn w o b leaves q (ap (λ p. p.0) (sym e) ∙ h))
    | inr (r, k) ↦
        let e = run_found scope key fingerprint fn w r q k in
        subst (λ p. Stored scope key fingerprint o p.1) (sym e)
          (answer_existing-Stored scope key fingerprint r w o b q k (ap (λ p. p.0) (sym e) ∙ h))
  ]

  -- When a call of the guard has answered an outcome, a second call with the same fingerprint
  -- answers the same outcome, marked as replayed, whatever its operation would do, and changes
  -- nothing. The surroundings are quiet, and the first operation leaves the guard's records alone.
  pub run_twice :
      (fn again : M Outcome) (w : World) (o : Outcome) (b : Bool)
      → LeavesRecords scope key fingerprint fn
      → w.script ≡ []
      → (run scope key fingerprint fn w).0 ≡ ok (o, b)
      → run scope key fingerprint again (run scope key fingerprint fn w).1
        ≡ (ok (o, true), (run scope key fingerprint fn w).1)
  run_twice fn again w o b leaves q h =
      replay scope key fingerprint again o (run scope key fingerprint fn w).1
        (run-Stored fn w o b leaves q h)

  delete_quiet :
      (w : World)
      → w.script ≡ []
      → (delete scope key w).1 ≡ record w { cache = remove (redis_key scope key) w.cache }
  unfolding delete
  delete_quiet w q = rw (call_annotated_quiet w q) refl

  -- A call under a new key whose operation fails with an error that is safe to retry answers that
  -- error and leaves no record under the key. The surroundings are quiet, the operation leaves them
  -- and the guard's records alone, and it fails from every state.
  pub run_released :
      (fn : M Outcome) (w : World) (e : Error)
      → LeavesRecords scope key fingerprint fn
      → w.script ≡ []
      → cached (redis_key scope key) w.cache ≡ none
      → ((v : World) → (fn v).0 ≡ err e)
      → is_safe_to_retry e ≡ true
      → ((run scope key fingerprint fn w).0 ≡ err e)
        × (cached (redis_key scope key) (run scope key fingerprint fn w).1.cache ≡ none)
  unfolding run_holder finish handle_failure
  run_released fn w e leaves q k f safe =
      rw
        (
          run_missing scope key fingerprint fn w q k,
          f (with_fresh scope key fingerprint w),
          safe,
          delete_quiet (fn (with_fresh scope key fingerprint w)).1
              (leaves (with_fresh scope key fingerprint w) q).0,
        )
        (
          refl,
          cached-remove (redis_key scope key) (fn (with_fresh scope key fingerprint w)).1.cache,
        )

  abbrev with_failed : Record → World → World
  with_failed r w = record w {
    cache = put (redis_key scope key) (record r { status = failed }) w.cache;
  }

  fail_quiet :
      (r : Record) (w : World)
      → w.script ≡ []
      → cached (redis_key scope key) w.cache ≡ some r
      → (fail scope key w).1 ≡ with_failed r w
  unfolding fail
  fail_quiet r w q k = ground (arith, get_quiet scope key w q, call_annotated_quiet w q)

  refused :
      (again : M Outcome) (r : Record) (w : World)
      → w.script ≡ []
      → r.fingerprint ≡ fingerprint
      → run scope key fingerprint again (with_failed r w) ≡ (err (domain conflict), with_failed r w)
  unfolding answer_existing answer_status
  refused again r w q f =
      run_found scope key fingerprint again (with_failed r w) (record r { status = failed }) q
        (cached-put (redis_key scope key) (record r { status = failed }) w.cache)
      ∙ rw (own_fits (record r { status = failed }) fingerprint f) refl

  -- After a call under a new key whose operation, run from the state with the fresh record, fails
  -- with an error that is not safe to retry, a second call with the same fingerprint is refused
  -- with a conflict, does not run its operation and changes nothing. The surroundings are quiet,
  -- and the first operation leaves them and the guard's records alone.
  pub run_refused :
      (fn again : M Outcome) (w : World) (e : Error)
      → LeavesRecords scope key fingerprint fn
      → w.script ≡ []
      → cached (redis_key scope key) w.cache ≡ none
      → (fn (with_fresh scope key fingerprint w)).0 ≡ err e
      → is_safe_to_retry e ≡ false
      → run scope key fingerprint again (run scope key fingerprint fn w).1
        ≡ (err (domain conflict), (run scope key fingerprint fn w).1)
  unfolding run_holder finish handle_failure
  run_refused fn again w e leaves q k f unsafe =
      let v = (fn (with_fresh scope key fingerprint w)).1 in
      let (q', c) = leaves (with_fresh scope key fingerprint w) q in
      let r = fresh scope key fingerprint w.now in
      let kept = ap (cached (redis_key scope key)) c ∙ cached-put (redis_key scope key) r w.cache in
      rw (run_missing scope key fingerprint fn w q k, f, unsafe, fail_quiet r v q' kept)
        (refused again r v q' refl)
