-- ===== src/System/Loops.antt =====
-- The loops of the workers are runs of the system.
use banking_plateform.Base.{List, [], ◌∷◌, All, Str}
use banking_plateform.Outbox.Event.{Event}
use banking_plateform.Platform.Worker.{Runner, Publisher, settlement_turn, relay_turn, loop}
use banking_plateform.Settlement.Processor.{SettlementResult}
use banking_plateform.Transfer.SagaStore.{Connection}
use banking_plateform.Storage.{World}
use banking_plateform.Storage.Monad.{M}
use banking_plateform.System.Worlds.{LeavesTables, Reach, later, settlement, relay}

module _ (Rate : Type 0) (start : World) where
  -- What goes on from a reached state to a reached state: a turn, or all that happens in a pause.
  pub record Goes (turn : World → World) : Type 0 where
    pub on : (w : World) → Reach Rate start w → Reach Rate start (turn w)

  -- A loop goes from reached states to reached states, when its turn and its pauses do.
  pub loop-Reach :
      (turn : World → World) (pauses : List (World → World)) (w : World)
      → Goes turn
      → All Goes pauses
      → Reach Rate start w
      → Reach Rate start (loop turn pauses w)
  unfolding loop
  loop-Reach turn [] w t p r = t.on w r
  loop-Reach turn (pause ∷ pauses) w t (p, ps) r =
      loop-Reach turn pauses (pause (turn w)) t ps (p.on (turn w) (t.on w r))

  pub settlement_turn-Goes :
      (conn : Connection) (settle : Str → M SettlementResult)
      → ((id : Str) → LeavesTables (settle id))
      → Goes (settlement_turn conn settle)
  settlement_turn-Goes conn settle quiet = record {
    on = λ w r. later r (settlement conn settle quiet);
  }

  pub relay_turn-Goes :
      (publish : Publisher → Event → M (Unit {0})) (runner : Runner)
      → ((p : Publisher) (e : Event) → LeavesTables (publish p e))
      → Goes (relay_turn publish runner)
  relay_turn-Goes publish runner quiet = record { on = λ w r. later r (relay publish runner quiet) }
