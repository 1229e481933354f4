-- ===== src/Settlement/Sarie/Delays.antt =====
-- The delay of the mock rail.
use banking_plateform.Base.{◌≡◌, true, ap, some, arith}
use banking_plateform.Base.Int.{ℤ, pos, ltb_ℤ, ◌≤ℤ◌, ◌+ℤ◌, ◌-ℤ◌}
use banking_plateform.Settlement.Sarie.{SarieConfig, Draw, Floats, sarie_delay}
use banking_plateform.Shared.Int64.{InRange, wrap64, wrap64-InRange}

-- `Int63n` documents a number from 0 up to its argument, not included.
pub record IsDraw (int63n : ℤ → ℤ) : Type 0 where
  pub least : (n : ℤ) → ltb_ℤ (pos 0) n ≡ true → pos 0 ≤ℤ int63n n
  pub below : (n : ℤ) → ltb_ℤ (pos 0) n ≡ true → ltb_ℤ (int63n n) n ≡ true

module _ {Rate : Type 0} (floats : Floats Rate) where
  -- When the least delay is not negative and less than the greatest, which fits an int64, the delay
  -- is between the two, the greatest not included, and nothing panics.
  pub sarie_delay_bounds :
      (cfg : SarieConfig Rate) (draw : Draw Rate)
      → pos 0 ≤ℤ cfg.min_delay
      → ltb_ℤ cfg.min_delay cfg.max_delay ≡ true
      → InRange cfg.max_delay
      → IsDraw draw.int63n
      → (d : ℤ) × (sarie_delay floats cfg draw ≡ some d)
        × (cfg.min_delay ≤ℤ d)
        × (ltb_ℤ d cfg.max_delay ≡ true)
  unfolding sarie_delay ◌+ℤ◌ ◌-ℤ◌
  sarie_delay_bounds cfg draw least less range law =
      let delta = cfg.max_delay -ℤ cfg.min_delay in
      let same : wrap64 delta ≡ delta = wrap64-InRange delta (ground arith) in
      let positive : ltb_ℤ (pos 0) delta ≡ true = ground arith in
      let drawn = draw.int63n delta in
      let from = law.least delta positive in
      let below = law.below delta positive in
      let sum : wrap64 (cfg.min_delay +ℤ drawn) ≡ cfg.min_delay +ℤ drawn =
        wrap64-InRange (cfg.min_delay +ℤ drawn) (ground (arith, from, below)) in
      (
        cfg.min_delay +ℤ drawn,
        rw (less, same, positive) (ap some sum),
        ground (arith, from),
        ground (arith, below),
      )
