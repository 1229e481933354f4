-- ===== src/Idempotency/Guard.antt =====
-- internal/idempotency/app/guard.go: at most one run per scope and key.
pub mod Calm
pub mod Race
pub mod Keeps
pub mod Quiet
pub mod Fresh
pub mod Replay
use banking_plateform.Base.{
  ℕ, ◌==◌, Bool, true, false, not, ◌||◌, ◌&&◌, List, [], ◌∷◌, Str, str_eq, is_empty, if◌then◌else◌,
  Option, none, some,
}
use banking_plateform.Shared.Errors.{
  Error, Result, ok, err, domain, ErrorCode, not_found, conflict, request_in_progress, validation,
  invalid_money, invalid_iban, forbidden, as_domain_error, is_domain_code, fail_if,
}
use banking_plateform.Idempotency.Record.{
  Record, Status, processing, completed, failed, Outcome, to_outcome,
}
use banking_plateform.Idempotency.Store.{get, try_acquire, complete, fail, delete}
use banking_plateform.Storage.{World}
use banking_plateform.Storage.Monad.{M, pure, raise, lift, when, ◌>>=◌, ◌>>◌}

-- `validateFingerprint`
unfoldable pub validate_fingerprint : Record → Str → Result (Unit {0})
validate_fingerprint existing fingerprint =
    if is_empty existing.fingerprint || is_empty fingerprint
    then ok tt
    else fail_if (not (str_eq existing.fingerprint fingerprint)) (domain conflict)

abbrev pub is_safe_code : ErrorCode → Bool
is_safe_code validation = true
is_safe_code invalid_money = true
is_safe_code invalid_iban = true
is_safe_code forbidden = true
is_safe_code _ = false

-- `isSafeToRetry`
unfoldable pub is_safe_to_retry : Error → Bool
is_safe_to_retry e = elim (as_domain_error e) [ none ↦ false | some c ↦ is_safe_code c ]

-- The answer that a record gives to a caller.
unfoldable pub answer_status : Status → Record → Result (Outcome × Bool)
answer_status completed r = ok (to_outcome r, true)
answer_status processing r = err (domain request_in_progress)
answer_status failed r = err (domain conflict)

unfoldable pub answer_existing : Record → Str → M (Outcome × Bool)
answer_existing existing fingerprint = do
  lift (validate_fingerprint existing fingerprint)
  lift (answer_status existing.status existing)

module _ (scope key fingerprint : Str) where
  -- `waitForExisting`
  unfoldable pub wait_for_existing : M (Outcome × Bool)
  wait_for_existing = do existing ← get scope key; answer_existing existing fingerprint

  -- `_ = store.Delete(...)`, `_ = store.Fail(...)`: their errors are dropped.
  unfoldable pub handle_failure : Error → World → World
  handle_failure e w = if is_safe_to_retry e then (delete scope key w).1 else (fail scope key w).1

  module _ (fn : M Outcome) where
    -- What follows the operation's answer.
    unfoldable pub finish : Result Outcome → M (Outcome × Bool)
    finish (err e) w = (err e, handle_failure e w)
    finish (ok result) w = (complete scope key result >> pure (result, false)) w

    -- The operation itself, by the holder of the record.
    unfoldable pub run_holder : M (Outcome × Bool)
    run_holder w = let (r, w') = fn w in finish r w'

    unfoldable pub acquired_or_wait : Bool → M (Outcome × Bool)
    acquired_or_wait true = run_holder
    acquired_or_wait false = wait_for_existing

    unfoldable pub acquire : M (Outcome × Bool)
    acquire = do acquired ← try_acquire scope key fingerprint; acquired_or_wait acquired

    -- What follows the first read.
    unfoldable pub after_get : Result Record → M (Outcome × Bool)
    after_get (ok existing) = answer_existing existing fingerprint
    after_get (err e) = if is_domain_code e not_found then acquire else raise e

    -- `Guard.Run`
    unfoldable pub run : M (Outcome × Bool)
    run w = let (r, w') = get scope key w in after_get r w'

-- `Config`; durations are seconds. What expires is a change of the Redis records by others.
pub record GuardConfig : Type 0 where
  pub processing_ttl : ℕ
  pub completed_ttl : ℕ

abbrev pub default_guard_config : GuardConfig
default_guard_config = record { processing_ttl = 900; completed_ttl = 86400 }

-- The times of `NewGuard`: a zero is replaced.
unfoldable pub new_guard : GuardConfig → GuardConfig
new_guard cfg = record {
  processing_ttl =
      if cfg.processing_ttl == 0 then default_guard_config.processing_ttl else cfg.processing_ttl;
  completed_ttl =
      if cfg.completed_ttl == 0 then default_guard_config.completed_ttl else cfg.completed_ttl;
}
