-- ===== src/Settlement/Sarie.antt =====
-- internal/settlement/app/sarie.go: the mock of the SARIE rail. Floating-point numbers, the draws of
-- the generator and the end of the context are arguments; durations are nanoseconds in an int64.
pub mod Delays
use banking_plateform.Base.{
  Bool, true, false, not, Str, [], text, if◌then◌else◌, ◌&&◌, Option, none, some,
}
use banking_plateform.Base.Int.{ℤ, pos, ltb_ℤ, ◌+ℤ◌, ◌-ℤ◌}
use banking_plateform.Settlement.Processor.{SettlementResult}
use banking_plateform.Shared.Errors.{Result, ok, err, plain}
use banking_plateform.Shared.Int64.{wrap64}
use banking_plateform.Storage.{World}
use banking_plateform.Storage.Monad.{M}

-- `SarieConfig`
pub record SarieConfig (Rate : Type 0) : Type 0 where
  pub fail_rate : Rate
  pub min_delay : ℤ
  pub max_delay : ℤ

-- What the code does with floating-point numbers.
pub record Floats (Rate : Type 0) : Type 0 where
  pub is_zero : Rate → Bool
  pub less : Rate → Rate → Bool
  pub fifteen_percent : Rate

-- One use of the rail: the draws of `Int63n` and `Float64`, and whether the context ended first.
pub record Draw (Rate : Type 0) : Type 0 where
  pub int63n : ℤ → ℤ
  pub float64 : Rate
  pub cancelled : Bool

module _ {Rate : Type 0} (floats : Floats Rate) where
  -- `DefaultSarieConfig`
  abbrev pub default_sarie_config : SarieConfig Rate
  default_sarie_config = record {
    fail_rate = floats.fifteen_percent;
    min_delay = pos 50000000;
    max_delay = pos 200000000;
  }

  abbrev pub is_zero_duration : ℤ → Bool
  is_zero_duration d = not (ltb_ℤ d (pos 0)) && not (ltb_ℤ (pos 0) d)

  -- `NewSarieMock`
  unfoldable pub new_sarie_mock : SarieConfig Rate → SarieConfig Rate
  new_sarie_mock cfg =
      if floats.is_zero cfg.fail_rate
        && is_zero_duration cfg.min_delay
        && is_zero_duration cfg.max_delay
      then default_sarie_config
      else cfg

  -- The delay; `none` is the panic of `Int63n` at a number that is not positive.
  unfoldable pub sarie_delay : SarieConfig Rate → Draw Rate → Option ℤ
  sarie_delay cfg draw =
      let delta = wrap64 (cfg.max_delay -ℤ cfg.min_delay) in
      if ltb_ℤ cfg.min_delay cfg.max_delay
      then (if ltb_ℤ (pos 0) delta
          then some (wrap64 (cfg.min_delay +ℤ draw.int63n delta))
          else none)
      else some cfg.min_delay

  -- `Settle` behind its delay.
  unfoldable pub sarie_settle : SarieConfig Rate → Draw Rate → Str → Result SettlementResult
  sarie_settle cfg draw reference =
      if draw.cancelled
      then err plain
      else if floats.less draw.float64 cfg.fail_rate
      then ok (record {
        success = false;
        reference = reference;
        error = text "sarie: settlement rejected by mock rail";
      })
      else ok (record { success = true; reference = reference; error = [] })

  -- The rail of the worker; the draws may depend on everything.
  abbrev pub sarie_rail : SarieConfig Rate → (Str → World → Draw Rate) → Str → M SettlementResult
  sarie_rail cfg draws reference w = (sarie_settle cfg (draws reference w) reference, w)
