-- ===== src/Tests/Histories.antt =====
-- The life of the system at concrete states.
use banking_plateform.Transfer.SagaStore.{shared}
use banking_plateform.Base.{ℕ, ◌≡◌, refl, [], arith}
use banking_plateform.Base.Int.{pos}
use banking_plateform.Outbox.Relay.Drain.{pending_rows}
use banking_plateform.Platform.Worker.{Runner, log, relay_turn}
use banking_plateform.Storage.Monad.{pure}
use banking_plateform.System.Backlog.{turns, relay_turns_end}
use banking_plateform.System.History.{IsLater}
use banking_plateform.System.History.Writes.{history_is_kept}
use banking_plateform.System.Worlds as Worlds
use banking_plateform.Tests.Systems.{
  seeded_world, posted_world, settled_world, accepting, outside, settings, transfer_request,
  outbox_world,
}

pub posted_run : Worlds.Reach ℕ seeded_world posted_world
posted_run = Worlds.later Worlds.here (Worlds.request outside settings transfer_request)

history_is_kept_example : IsLater posted_world.db settled_world.db
history_is_kept_example =
    history_is_kept 1 seeded_world posted_world settled_world refl posted_run (
      Worlds.later Worlds.here
        (Worlds.settlement shared accepting (λ id. record { at = λ w. refl })))

abbrev small_runner : Runner
small_runner = record {
  relay = record { batch_size = 1; interval = 1 };
  publisher = log;
  interval = pos 1;
}

relay_turns_end_example :
    pending_rows (turns 2 (relay_turn (λ p e. pure tt) small_runner) outbox_world).db.outbox ≡ []
relay_turns_end_example =
    relay_turns_end (λ p e. pure tt) small_runner (λ p e w. refl) 2 outbox_world refl (omega arith)
