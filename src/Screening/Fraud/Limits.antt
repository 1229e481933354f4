-- ===== src/Screening/Fraud/Limits.antt =====
-- Which transfers the fraud screen lets through.
use banking_plateform.Base.{if◌then◌else◌, ℕ, ◌+◌, ◌≡◌, ◌↔◌, [], Str, str_eq_refl, List, ◌∷◌, arith}
use banking_plateform.Base.Int.{pos, ◌≤ℤ◌, ltb_ℤ}
use banking_plateform.Shared.Errors.{ok}
use banking_plateform.Shared.Money.{Money}
use banking_plateform.Screening.Fraud.{Config, check, increment, count_of, set_count, velocity_key}
use banking_plateform.Storage.{World}
use banking_plateform.Storage.Calls.{call_annotated_quiet}

count_of-set_count : (k : Str) (n : ℕ) (l : List (Str × ℕ)) → count_of k (set_count k n l) ≡ n
unfolding count_of set_count
count_of-set_count k n [] = ground (arith, str_eq_refl k)
count_of-set_count k n ((j, m) ∷ l) = ground (arith, str_eq_refl k, count_of-set_count k n l)

-- When no call fails, the fraud screen passes a transfer exactly when its amount is within the
-- limit for one transfer and the sender's counter, with this transfer, is within the hourly limit.
pub check_iff :
    (c : Config) (from_account_id : Str) (amount : Money) (w : World)
    → w.script ≡ []
    → ((check c from_account_id amount w).0 ≡ ok tt)
      ↔ (amount.halalas ≤ℤ c.max_single_halalas)
        × (pos (count_of (velocity_key from_account_id) w.velocity + 1) ≤ℤ c.max_hourly_transfers)
unfolding check increment
check_iff c from_account_id amount w q =
    (λ h. ground (arith, call_annotated_quiet w q), λ h. ground (arith, call_annotated_quiet w q))

-- When no call fails, an amount over the limit for one transfer leaves the sender's counter as it
-- was, and any other one raises it by one, whether it passes or not.
pub check_counts :
    (c : Config) (from_account_id : Str) (amount : Money) (w : World)
    → w.script ≡ []
    → count_of (velocity_key from_account_id) (check c from_account_id amount w).1.velocity ≡ (
        if ltb_ℤ c.max_single_halalas amount.halalas
        then count_of (velocity_key from_account_id) w.velocity
        else count_of (velocity_key from_account_id) w.velocity + 1)
unfolding check increment
check_counts c from_account_id amount w q = ground (
  arith,
  call_annotated_quiet w q,
  count_of-set_count (velocity_key from_account_id)
      (count_of (velocity_key from_account_id) w.velocity + 1) w.velocity,
)
