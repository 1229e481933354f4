-- ===== src/Idempotency/Guard/Quiet.antt =====
-- The guard in quiet surroundings, step by step.
use banking_plateform.Base.{
  ◌≡◌, refl, sym, subst, ap, ◌∙◌, [], ◌∷◌, Bool, true, false, Str, str_eq_refl, inl, inr, none,
  some, arith,
}
use banking_plateform.Shared.Errors.{is_domain_code, Result, ok, err, Result-cases}
use banking_plateform.Idempotency.Record.{
  Record, Status, Outcome, completed, processing, failed, to_outcome,
}
use banking_plateform.Idempotency.Store.{
  redis_key, cached, put, remove, get, try_acquire, complete, found_record, fresh, completed_record,
}
use banking_plateform.Idempotency.Guard.{
  validate_fingerprint, answer_status, answer_existing, finish, run_holder, acquire,
  acquired_or_wait, after_get, run,
}
use banking_plateform.Storage.{World, Cache}
use banking_plateform.Storage.Calls.{call_annotated_quiet}
use banking_plateform.Storage.Monad.{M}

pub cached-put : (k : Str) (r : Record) (c : Cache) → cached k (put k r c) ≡ some r
unfolding cached put
cached-put k r [] = ground (arith, str_eq_refl k)
cached-put k r ((j, s) ∷ c) = ground (arith, str_eq_refl k, cached-put k r c)

pub cached-remove : (k : Str) (c : Cache) → cached k (remove k c) ≡ none
unfolding cached remove
cached-remove k [] = refl
cached-remove k ((j, s) ∷ c) = ground (arith, cached-remove k c)

module _ (scope key : Str) where
  pub get_quiet :
      (w : World)
      → w.script ≡ []
      → get scope key w ≡ (found_record (cached (redis_key scope key) w.cache), w)
  unfolding get
  get_quiet w q = rw (call_annotated_quiet w q) refl

pub answer_status_ok :
    (t : Status) (r : Record) (o : Outcome) (b : Bool)
    → answer_status t r ≡ ok (o, b)
    → (t ≡ completed) × (to_outcome r ≡ o)
unfolding answer_status
answer_status_ok completed r o b h = (refl, ground arith)
answer_status_ok processing r o b h = ground arith
answer_status_ok failed r o b h = ground arith

pub own_fits : (r : Record) (f : Str) → r.fingerprint ≡ f → validate_fingerprint r f ≡ ok tt
unfolding validate_fingerprint
own_fits r f e = ground (arith, str_eq_refl f)

pub outcome_of :
    {a o : Outcome} {c b : Bool}
    → (p : Result (Outcome × Bool)) → p ≡ ok (a, c)
    → p ≡ ok (o, b)
    → a ≡ o
outcome_of p x y = ground arith

module _ (scope key fingerprint : Str) where
  -- A completed record under the key, for this request.
  pub record Stored (o : Outcome) (w : World) : Type 0 where
    pub quiet : w.script ≡ []
    pub row : Record
    pub kept : cached (redis_key scope key) w.cache ≡ some row
    pub done : row.status ≡ completed
    pub same : to_outcome row ≡ o
    pub fits : validate_fingerprint row fingerprint ≡ ok tt

  pub replay :
      (fn : M Outcome) (o : Outcome) (w : World)
      → Stored o w
      → run scope key fingerprint fn w ≡ (ok (o, true), w)
  unfolding run after_get answer_existing answer_status
  replay fn o w s = ground (arith, get_quiet scope key w s.quiet, s.kept, s.done, s.same, s.fits)

  pub answer_existing_ok :
      (r : Record) (w : World) (o : Outcome) (b : Bool)
      → (answer_existing r fingerprint w).0 ≡ ok (o, b)
      → (validate_fingerprint r fingerprint ≡ ok tt)
        × (answer_status r.status r ≡ ok (o, b))
        × ((answer_existing r fingerprint w).1 ≡ w)
  unfolding answer_existing
  answer_existing_ok r w o b h = elim (Result-cases (validate_fingerprint r fingerprint)) [
    | inl (u, e) ↦ ground (arith, e)
    | inr (x, e) ↦ ground (arith, e)
  ]

  pub answer_existing-Stored :
      (r : Record) (w : World) (o : Outcome) (b : Bool)
      → w.script ≡ []
      → cached (redis_key scope key) w.cache ≡ some r
      → (answer_existing r fingerprint w).0 ≡ ok (o, b)
      → Stored o (answer_existing r fingerprint w).1
  answer_existing-Stored r w o b q k h =
      let (fits, answer, same) = answer_existing_ok r w o b h in
      let (done, out) = answer_status_ok r.status r o b answer in
      subst (Stored o) (sym same)
        (record { quiet = q; row = r; kept = k; done = done; same = out; fits = fits })

  pub complete_quiet :
      (r : Record) (w : World) (o : Outcome)
      → w.script ≡ []
      → cached (redis_key scope key) w.cache ≡ some r
      → complete scope key o w ≡ (
        ok tt,
        record w {
          cache = put (redis_key scope key) (completed_record scope key r o w.now) w.cache;
        },
      )
  unfolding complete
  complete_quiet r w o q k = ground (arith, get_quiet scope key w q, call_annotated_quiet w q)

  abbrev pub with_completed : Record → Outcome → World → World
  with_completed r o w = record w {
    cache = put (redis_key scope key) (completed_record scope key r o w.now) w.cache;
  }

  pub with_completed-Stored :
      (r : Record) (w : World) (o : Outcome)
      → w.script ≡ []
      → r.fingerprint ≡ fingerprint
      → Stored o (with_completed r o w)
  unfolding to_outcome
  with_completed-Stored r w o q f = record {
    quiet = q;
    row = completed_record scope key r o w.now;
    kept = cached-put (redis_key scope key) (completed_record scope key r o w.now) w.cache;
    done = refl;
    same = refl;
    fits = own_fits (completed_record scope key r o w.now) fingerprint f;
  }

  pub finish_quiet :
      (fn : M Outcome) (o : Outcome) (r : Record) (w : World)
      → w.script ≡ []
      → cached (redis_key scope key) w.cache ≡ some r
      → finish scope key fingerprint fn (ok o) w ≡ (ok (o, false), with_completed r o w)
  unfolding finish
  finish_quiet fn o r w q k = rw (complete_quiet r w o q k) refl

  pub finish-Stored :
      (fn : M Outcome) (a : Result Outcome) (r : Record) (w : World) (o : Outcome) (b : Bool)
      → w.script ≡ []
      → cached (redis_key scope key) w.cache ≡ some r
      → r.fingerprint ≡ fingerprint
      → (finish scope key fingerprint fn a w).0 ≡ ok (o, b)
      → Stored o (finish scope key fingerprint fn a w).1
  unfolding finish
  finish-Stored fn (err e) r w o b q k f h = ground arith
  finish-Stored fn (ok a) r w o b q k f h =
      let e = finish_quiet fn a r w q k in
      let same : a ≡ o = outcome_of _ (ap (λ p. p.0) e) h in
      subst (λ p. Stored o p.1) (sym e)
        (subst (λ x. Stored x (with_completed r a w)) same (with_completed-Stored r w a q f))

  -- The operation leaves the guard's records and the surroundings' script as they are.
  abbrev pub LeavesRecords : M Outcome → Type 0
  LeavesRecords fn =
      (w : World) → w.script ≡ [] → ((fn w).1.script ≡ []) × ((fn w).1.cache ≡ w.cache)

  abbrev pub with_fresh : World → World
  with_fresh w = record w {
    cache = put (redis_key scope key) (fresh scope key fingerprint w.now) w.cache;
  }

  pub acquire_quiet :
      (fn : M Outcome) (w : World)
      → w.script ≡ []
      → cached (redis_key scope key) w.cache ≡ none
      → acquire scope key fingerprint fn w ≡ run_holder scope key fingerprint fn (with_fresh w)
  unfolding acquire try_acquire acquired_or_wait
  acquire_quiet fn w q k = rw (call_annotated_quiet w q, k) refl

  pub run_holder-Stored :
      (fn : M Outcome) (w : World) (o : Outcome) (b : Bool)
      → LeavesRecords fn
      → w.script ≡ []
      → (run_holder scope key fingerprint fn (with_fresh w)).0 ≡ ok (o, b)
      → Stored o (run_holder scope key fingerprint fn (with_fresh w)).1
  unfolding run_holder
  run_holder-Stored fn w o b leaves q h =
      let (q', c) = leaves (with_fresh w) q in
      finish-Stored fn (fn (with_fresh w)).0 (fresh scope key fingerprint w.now)
        (fn (with_fresh w)).1 o b q'
        (ap (cached (redis_key scope key)) c
          ∙ cached-put (redis_key scope key) (fresh scope key fingerprint w.now) w.cache)
        refl h

  pub run_found :
      (fn : M Outcome) (w : World) (r : Record)
      → w.script ≡ []
      → cached (redis_key scope key) w.cache ≡ some r
      → run scope key fingerprint fn w ≡ answer_existing r fingerprint w
  unfolding run after_get
  run_found fn w r q k = rw (get_quiet scope key w q, k) refl

  pub run_missing :
      (fn : M Outcome) (w : World)
      → w.script ≡ []
      → cached (redis_key scope key) w.cache ≡ none
      → run scope key fingerprint fn w ≡ run_holder scope key fingerprint fn (with_fresh w)
  unfolding run after_get is_domain_code
  run_missing fn w q k = rw (get_quiet scope key w q, k) (acquire_quiet fn w q k)
