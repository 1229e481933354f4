-- ===== src/Idempotency/Guard/Race.antt =====
-- internal/idempotency/app/guard.go under concurrency: clients that call `Run` with one scope and key,
-- interleaved between their calls of the store. The record of the key does not expire.
pub mod Moves
pub mod Invariant
use banking_plateform.Base.{ℕ, ◌+◌, ◌==◌, ◌≡◌, Bool, true, false, Str, if◌then◌else◌}
use banking_plateform.Shared.Errors.{Result, ok, err, is_domain_code, not_found}
use banking_plateform.Idempotency.Record.{Record, Outcome}
use banking_plateform.Idempotency.Store.{redis_key, cached, get, try_acquire}
use banking_plateform.Idempotency.Guard.{wait_for_existing, finish}
use banking_plateform.Idempotency.Guard.Calm.{Calm, is_final}
use banking_plateform.Storage.{World}
use banking_plateform.Storage.Monad.{M}

-- Where a client is in `Run`: before the first read; before `TryAcquire`; in its operation; behind
-- it, with the answer; before the read of `waitForExisting`; and at the end.
pub data Pc : Type 0 where
  idle missing owner waiting done : Pc
  ended : Result Outcome → Pc

abbrev pub after_read : Result Record → Pc
after_read (ok existing) = done
after_read (err e) = if is_domain_code e not_found then missing else done

abbrev pub after_acquire : Result Bool → Pc
after_acquire (ok true) = owner
after_acquire (ok false) = waiting
after_acquire (err e) = done

-- An outcome counts when no later run may follow it.
abbrev pub weight : Result Outcome → ℕ
weight r = if is_final r then 1 else 0

module _ (scope key : Str) where
  -- One client's move, with the number of final outcomes that it adds. Its operation leaves the
  -- record of the key to the guard.
  pub data Move (w : World) : Pc → World → Pc → ℕ → Type 0 where
    read : Move w idle (get scope key w).1 (after_read (get scope key w).0) 0
    grab :
        (f : Str)
        → Move w missing
            (try_acquire scope key f w).1
            (after_acquire (try_acquire scope key f w).0)
            0
    operate :
        (fn : M Outcome)
        → Calm (fn w).1
        → cached (redis_key scope key) (fn w).1.cache ≡ cached (redis_key scope key) w.cache
        → Move w owner (fn w).1 (ended (fn w).0) (weight (fn w).0)
    close :
        (f : Str) (fn : M Outcome) (r : Result Outcome)
        → Move w (ended r) (finish scope key f fn r w).1 done 0
    wait : (f : Str) → Move w waiting (wait_for_existing scope key f w).1 done 0

-- The clients over one store; `finals` counts the final outcomes.
pub record Race : Type 0 where
  pub world : World
  pub pc : ℕ → Pc
  pub finals : ℕ

abbrev pub update : (ℕ → Pc) → ℕ → Pc → ℕ → Pc
update f i p j = if i == j then p else f j

module _ (scope key : Str) where
  -- A move of a client, or of what surrounds them, which leaves the record of the key alone.
  pub data Step (s : Race) : Race → Type 0 where
    client :
        (i : ℕ) {v : World} {p : Pc} {n : ℕ}
        → Move scope key s.world (s.pc i) v p n
        → Step s (record { world = v; pc = update s.pc i p; finals = s.finals + n })
    surroundings :
        (v : World)
        → Calm v
        → cached (redis_key scope key) v.cache ≡ cached (redis_key scope key) s.world.cache
        → Step s (record { world = v; pc = s.pc; finals = s.finals })

  pub data Reach (w : World) : Race → Type 0 where
    start : Reach w (record { world = w; pc = λ _. idle; finals = 0 })
    later : {s t : Race} → Reach w s → Step s t → Reach w t
