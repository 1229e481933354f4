-- ===== src/Screening/Fraud.antt =====
-- internal/fraud: the amount limit, and the velocity limit over a Redis counter.
pub mod Limits
use banking_plateform.Base.{
  ℕ, ◌+◌, Bool, not, ◌&&◌, List, [], ◌∷◌, ◌++◌, Str, text, str_eq, if◌then◌else◌,
}
use banking_plateform.Base.Int.{ℤ, pos, ltb_ℤ}
use banking_plateform.Shared.Errors.{ok, domain, forbidden, relabel}
use banking_plateform.Shared.Money.{Money}
use banking_plateform.Storage.Monad.{annotating, M, pure, gets, when, call_annotated, ◌>>=◌, ◌>>◌}

pub record Config : Type 0 where
  pub max_single_halalas : ℤ
  pub max_hourly_transfers : ℤ

abbrev pub is_zero : ℤ → Bool
is_zero z = not (ltb_ℤ z (pos 0)) && not (ltb_ℤ (pos 0) z)

-- `NewChecker`: a limit of zero stands for the default. The window is not modelled.
unfoldable pub new_checker : Config → Config
new_checker cfg = record {
  max_single_halalas =
      if is_zero cfg.max_single_halalas then pos 50000000 else cfg.max_single_halalas;
  max_hourly_transfers =
      if is_zero cfg.max_hourly_transfers then pos 20 else cfg.max_hourly_transfers;
}

abbrev pub velocity_key : Str → Str
velocity_key account_id = text "velocity:" ++ account_id

unfoldable pub count_of : Str → List (Str × ℕ) → ℕ
count_of k [] = 0
count_of k ((j, n) ∷ l) = if str_eq j k then n else count_of k l

unfoldable pub set_count : Str → ℕ → List (Str × ℕ) → List (Str × ℕ)
set_count k n [] = (k, n) ∷ []
set_count k n ((j, m) ∷ l) = if str_eq j k then (j, n) ∷ l else (j, m) ∷ set_count k n l

abbrev pub raise_count : Str → M (Unit {0})
raise_count k w =
    (ok tt, record w { velocity = set_count k (count_of k w.velocity + 1) w.velocity })

-- `VelocityStore.Increment`: INCR and EXPIRE in one pipeline. The counter is not reset here.
unfoldable pub increment : Str → M ℕ
increment account_id = do
  call_annotated
  count ← gets (λ w. count_of (velocity_key account_id) w.velocity + 1)
  raise_count (velocity_key account_id)
  pure count

-- `Checker.Check`
unfoldable pub check : Config → Str → Money → M (Unit {0})
check c from_account_id amount = do
  when (ltb_ℤ c.max_single_halalas amount.halalas) (domain forbidden)
  count ← annotating (increment from_account_id)
  when (ltb_ℤ c.max_hourly_transfers (pos count)) (domain forbidden)
