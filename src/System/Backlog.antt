-- ===== src/System/Backlog.antt =====
-- The turns of the relay work off any backlog.
use banking_plateform.Base.{ℕ, zero, suc, ◌-◌, ◌*◌, ◌≤◌, ◌≡◌, sym, subst, [], arith}
use banking_plateform.Outbox.Event.{Event}
use banking_plateform.Outbox.Relay.Drain.{waits, pending_rows, relay_once-IsBatch}
use banking_plateform.Platform.Worker.{Runner, Publisher, relay_turn}
use banking_plateform.Storage.{World}
use banking_plateform.Storage.Monad.{M}
use banking_plateform.Storage.Queue.{count, none_left}

-- So many turns one after the other.
pub turns : ℕ → (World → World) → World → World
turns zero turn w = w
turns (suc n) turn w = turns n turn (turn w)

-- A turn that stays in quiet surroundings and takes a batch off what waits.
record WorksOff (waiting : World → ℕ) (batch : ℕ) (turn : World → World) : Type 0 where
  at : (w : World) → w.script ≡ [] → ((turn w).script ≡ []) × (waiting (turn w) ≤ waiting w - batch)

turns_work_off :
    (waiting : World → ℕ) (batch : ℕ) (turn : World → World) (n : ℕ) (w : World)
    → WorksOff waiting batch turn
    → w.script ≡ []
    → waiting w ≤ n * batch
    → waiting (turns n turn w) ≡ 0
unfolding turns
turns_work_off waiting batch turn zero w k q h = omega arith
turns_work_off waiting batch turn (suc n) w k q h =
    let (quiet, fewer) = k.at w q in
    turns_work_off waiting batch turn n (turn w) k quiet (omega (arith, fewer, h))

-- In quiet surroundings, and with publishers that change nothing, whatever they answer: when at
-- most `n` batches of events are pending, `n` turns of the relay leave none pending.
pub relay_turns_end :
    (publish : Publisher → Event → M (Unit {0})) (runner : Runner)
    → ((p : Publisher) (e : Event) (w : World) → (publish p e w).1 ≡ w)
    → (n : ℕ) (w : World) → w.script ≡ []
    → count waits w.db.outbox ≤ n * runner.relay.batch_size
    → pending_rows (turns n (relay_turn publish runner) w).db.outbox ≡ []
unfolding relay_turn
relay_turns_end publish runner still n w q h =
    none_left waits (turns n (relay_turn publish runner) w).db.outbox (
      omega (
        arith,
        turns_work_off (λ v. count waits v.db.outbox) runner.relay.batch_size
            (relay_turn publish runner) n w off q h,
      ))
  where
    off :
        WorksOff (λ v. count waits v.db.outbox) runner.relay.batch_size (relay_turn publish runner)
    off = record {
      at = λ v p.
          let batch =
            relay_once-IsBatch (publish runner.publisher) (still runner.publisher) runner.relay v
              p in
          subst
            (λ a.
              (a.1.script ≡ [])
              × (count waits a.1.db.outbox ≤ count waits v.db.outbox - runner.relay.batch_size))
            (sym batch.same) (p, batch.fewer);
    }
