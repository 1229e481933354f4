-- ===== src/Idempotency/Guard/Calm.antt =====
-- What the store's operations do to the record of one key when nobody else writes it.
use banking_plateform.Base.{
  ◌≡◌, refl, sym, ap, ◌∙◌, Bool, true, false, List, [], ◌∷◌, All, Str, Option, none, some, arith,
  inl, inr, not, Bool-cases,
}
use banking_plateform.Shared.Errors.{Result, ok, err, Result-cases}
use banking_plateform.Idempotency.Record.{Record, Outcome, failed}
use banking_plateform.Idempotency.Store.{
  redis_key, cached, put, get, try_acquire, complete, fail, delete, set_new, completed_record,
  fresh, modify_cache,
}
use banking_plateform.Idempotency.Guard.{
  answer_existing, wait_for_existing, finish, handle_failure, is_safe_to_retry,
}
use banking_plateform.Idempotency.Guard.Quiet.{cached-put}
use banking_plateform.Storage.{World, Signal, fine, fault, rival}
use banking_plateform.Storage.Monad.{M, call, call_annotated, ◌>>=◌, pure}

abbrev pub is_calm : Signal → Bool
is_calm (rival c) = false
is_calm fine = true
is_calm fault = true

-- No signal to come writes in Redis.
abbrev pub Calm : World → Type 0
Calm w = All (λ s. is_calm s ≡ true) w.script

-- The call has left the Redis records alone, and the script calm.
pub record Same (w v : World) : Type 0 where
  pub calm : Calm v
  pub cache : v.cache ≡ w.cache

script-Same :
    (l : List Signal) (w : World)
    → w.script ≡ l
    → All (λ s. is_calm s ≡ true) l
    → Same w (call_annotated w).1
unfolding call_annotated call
script-Same [] w e h = record { calm = ground (arith, h); cache = ground arith }
script-Same (fine ∷ l) w e h = record { calm = ground (arith, h.1); cache = ground arith }
script-Same (fault ∷ l) w e h = record { calm = ground (arith, h.1); cache = ground arith }
script-Same (rival c ∷ l) w e h = let x = h.0 in cc

call-Same : (w : World) → Calm w → Same w (call_annotated w).1
call-Same w h = script-Same w.script w refl h

abbrev pub is_there : Option Record → Bool
is_there none = false
is_there (some r) = true

-- An outcome after which the key is not free again.
abbrev pub is_final : Result Outcome → Bool
is_final (ok o) = true
is_final (err e) = not (is_safe_to_retry e)

module _ (scope key : Str) where
  -- A record stands under the key.
  abbrev pub has_record : World → Bool
  has_record w = is_there (cached (redis_key scope key) w.cache)

  pub has_record-Same : {w v : World} → Same w v → has_record v ≡ has_record w
  has_record-Same s = ap (λ c. is_there (cached (redis_key scope key) c)) s.cache

  pub get-Same : (w : World) → Calm w → Same w (get scope key w).1
  unfolding get
  get-Same w h = ground (arith, call-Same w h)

  pub wait-Same :
      (fingerprint : Str) (w : World)
      → Calm w
      → Same w (wait_for_existing scope key fingerprint w).1
  unfolding wait_for_existing answer_existing
  wait-Same fingerprint w h = ground (arith, get-Same w h)

  -- What an attempt to acquire the key does to its record.
  pub record Acquires (w : World) (r : Result Bool) (v : World) : Type 0 where
    pub calm : Calm v
    pub won : r ≡ ok true → (has_record w ≡ false) × (has_record v ≡ true)
    pub kept : has_record w ≡ true → has_record v ≡ true

  set_new-Acquires :
      (r : Record) (w : World) (o : Option Record)
      → cached (redis_key scope key) w.cache ≡ o
      → Calm w
      → Acquires w (set_new scope key r o w).0 (set_new scope key r o w).1
  set_new-Acquires r w none e h = record {
    calm = h;
    won = λ _. (ap is_there e, ap is_there (cached-put (redis_key scope key) r w.cache));
    kept = λ _. ap is_there (cached-put (redis_key scope key) r w.cache);
  }
  set_new-Acquires r w (some x) e h = record { calm = h; won = λ p. cc; kept = λ k. k }

  Acquires-Same : {w v u : World} {r : Result Bool} → Same w v → Acquires v r u → Acquires w r u
  Acquires-Same s a = record {
    calm = a.calm;
    won = λ p. (sym (has_record-Same s) ∙ (a.won p).0, (a.won p).1);
    kept = λ k. a.kept (has_record-Same s ∙ k);
  }

  pub try_acquire-Acquires :
      (fingerprint : Str) (w : World)
      → Calm w
      → Acquires w (try_acquire scope key fingerprint w).0 (try_acquire scope key fingerprint w).1
  unfolding try_acquire
  try_acquire-Acquires fingerprint w h =
      let s = call-Same w h in
      let v = (call_annotated w).1 in
      elim (Result-cases (call_annotated w).0) [
        | inl (u, e) ↦ rw e (
            Acquires-Same s (
              set_new-Acquires (fresh scope key fingerprint v.now) v
                (cached (redis_key scope key) v.cache) refl s.calm))
        | inr (x, e) ↦
            rw e (record { calm = s.calm; won = λ p. cc; kept = λ k. has_record-Same s ∙ k })
      ]

  -- What the end of a run does to the record: it stays, unless the run may be retried.
  pub record Ends (w : World) (r : Result Outcome) (v : World) : Type 0 where
    pub calm : Calm v
    pub kept : is_final r ≡ true → has_record w ≡ true → has_record v ≡ true

  complete-Calm : (o : Outcome) (w : World) → Calm w → Calm (complete scope key o w).1
  unfolding complete
  complete-Calm o w h = ground (arith, get-Same w h, call-Same (get scope key w).1)

  fail-Calm : (w : World) → Calm w → Calm (fail scope key w).1
  unfolding fail
  fail-Calm w h = ground (arith, get-Same w h, call-Same (get scope key w).1)

  delete-Calm : (w : World) → Calm w → Calm (delete scope key w).1
  unfolding delete
  delete-Calm w h = ground (arith, call-Same w h)

  -- A call that leaves a record under the key.
  record Stays {A : Type 0} (m : M A) : Type 0 where
    at : (w : World) → Calm w → has_record w ≡ true → Calm (m w).1 × (has_record (m w).1 ≡ true)

  Same-Stays : {A : Type 0} (m : M A) → ((w : World) → Calm w → Same w (m w).1) → Stays m
  Same-Stays m f = record { at = λ w h k. ((f w h).calm, has_record-Same (f w h) ∙ k) }

  Stays-bind :
      {A B : Type 0} (m : M A) (f : A → M B) → Stays m → ((a : A) → Stays (f a)) → Stays (m >>= f)
  Stays-bind m f s t = record {
    at = λ w h k.
        let (c, d) = s.at w h k in
        elim (Result-cases (m w).0) [
          | inl (a, e) ↦ rw e ((t a).at (m w).1 c d)
          | inr (x, e) ↦ rw e (c, d)
        ];
  }

  put-Stays : (r : Record) → Stays (modify_cache (put (redis_key scope key) r))
  put-Stays r = record {
    at = λ w h k. (h, ap is_there (cached-put (redis_key scope key) r w.cache));
  }

  complete-Stays : (o : Outcome) → Stays (complete scope key o)
  unfolding complete
  complete-Stays o = Stays-bind (get scope key) _ (Same-Stays (get scope key) get-Same) λ r.
      record {
        at = λ w h k.
            (Stays-bind call_annotated
                (λ _.
                  modify_cache (put (redis_key scope key) (completed_record scope key r o w.now)))
                (Same-Stays call_annotated call-Same)
                λ _. put-Stays (completed_record scope key r o w.now)).at
              w h k;
      }

  fail-Stays : Stays (fail scope key)
  unfolding fail
  fail-Stays = Stays-bind (get scope key) _ (Same-Stays (get scope key) get-Same) λ r.
      Stays-bind call_annotated _ (Same-Stays call_annotated call-Same)
        λ _. put-Stays (record r { status = failed })

  module _ (fingerprint : Str) (fn : M Outcome) where
    pub finish-Ends :
        (r : Result Outcome) (w : World) → Calm w → Ends w r (finish scope key fingerprint fn r w).1
    unfolding finish handle_failure
    finish-Ends (ok o) w h = record {
      calm = ground (arith, complete-Calm o w h);
      kept = λ _ k.
          ((Stays-bind (complete scope key o) (λ _. pure (o, false)) (complete-Stays o)
              λ _. record { at = λ v c d. (c, d) }).at
            w h k).1;
    }
    finish-Ends (err e) w h = elim (Bool-cases (is_safe_to_retry e)) [
      | inl s ↦ rw s (record { calm = delete-Calm w h; kept = λ f. cc })
      | inr s ↦ rw s (record { calm = fail-Calm w h; kept = λ _ k. (fail-Stays.at w h k).1 })
    ]
