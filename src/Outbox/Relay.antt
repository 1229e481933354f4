-- ===== src/Outbox/Relay.antt =====
-- internal/outbox/app/relay.go: the configuration of the relay and one batch of its loop.
pub mod Drain
use banking_plateform.Base.{ℕ, ◌==◌, if◌then◌else◌}
use banking_plateform.Base.Int.{ℤ, pos, negsuc}
use banking_plateform.Outbox.Event.{Event}
use banking_plateform.Outbox.Repository.{process_pending_batch}
use banking_plateform.Storage.Monad.{M}

-- `RelayConfig`; the interval is in nanoseconds.
pub record RelayConfig : Type 0 where
  pub batch_size : ℤ
  pub interval : ℤ

-- `Relay`
pub record Relay : Type 0 where
  pub batch_size : ℕ
  pub interval : ℕ

-- A number that is not positive is replaced.
abbrev pub or_default : ℕ → ℤ → ℕ
or_default d (pos n) = if n == 0 then d else n
or_default d (negsuc n) = d

-- `NewRelay`, with the values of `DefaultRelayConfig`.
unfoldable pub new_relay : RelayConfig → Relay
new_relay cfg = record {
  batch_size = or_default 20 cfg.batch_size;
  interval = or_default 2000000000 cfg.interval;
}

-- `ProcessOnce`, which is also a turn of the loop of `Run`.
unfoldable pub relay_once : (Event → M (Unit {0})) → Relay → M ℕ
relay_once publish relay = process_pending_batch publish relay.batch_size
