-- ===== src/System/Worlds.antt =====
-- The runs of the system: an API server and workers over one database, one request or turn after
-- another, in any order (cmd/api/main.go and cmd/worker/main.go).
use banking_plateform.Base.{ℕ, ◌≡◌, List, Str}
use banking_plateform.Outbox.Event.{Event}
use banking_plateform.Platform.Api.{Outside, api}
use banking_plateform.Platform.Config.{Config}
use banking_plateform.Platform.Http.{Request}
use banking_plateform.Platform.Worker.{Runner, Publisher, settlement_turn, relay_turn}
use banking_plateform.Settlement.Processor.{SettlementResult}
use banking_plateform.Transfer.SagaStore.{Connection}
use banking_plateform.Storage.{World, Cache, Signal}
use banking_plateform.Storage.Monad.{M}

-- A call that leaves the tables alone.
pub record LeavesTables {A : Type 0} (m : M A) : Type 0 where
  pub at : (w : World) → (m w).1.db ≡ w.db

-- One step. Requests, configurations and outside code are arbitrary; rails and publishers write in
-- no table. `surroundings` are what other programs do to Redis, the passing of time, and the faults
-- to come.
pub data Step (Rate : Type 0) (w : World) : World → Type 0 where
  request : (out : Outside) (cfg : Config Rate) (r : Request) → Step Rate w (api out cfg r w).1
  settlement :
      (conn : Connection) (settle : Str → M SettlementResult)
      → ((id : Str) → LeavesTables (settle id))
      → Step Rate w (settlement_turn conn settle w)
  relay :
      (publish : Publisher → Event → M (Unit {0})) (runner : Runner)
      → ((p : Publisher) (e : Event) → LeavesTables (publish p e))
      → Step Rate w (relay_turn publish runner w)
  surroundings :
      (cache : Cache) (velocity : List (Str × ℕ)) (now : ℕ) (script : List Signal)
      → Step Rate w
          (record { db = w.db; cache = cache; velocity = velocity; now = now; script = script })

pub data Reach (Rate : Type 0) (start : World) : World → Type 0 where
  here : Reach Rate start start
  later : {v w : World} → Reach Rate start v → Step Rate v w → Reach Rate start w
