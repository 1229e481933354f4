-- ===== src/Platform/Worker.antt =====
-- internal/platform/worker: the choice of the publisher, the runner, and the turns of its two loops.
use banking_plateform.Base.{
  Bool, true, false, List, [], ◌∷◌, Str, text, str_eq, is_empty, if◌then◌else◌, ◌||◌,
}
use banking_plateform.Base.Int.{ℤ, pos}
use banking_plateform.Settlement.Sarie.{SarieConfig}
use banking_plateform.Shared.Errors.{Result, ok, err, plain, ◌>>=◌}
use banking_plateform.Outbox.Adapters.{KafkaClient, kafka_publish, log_publish}
use banking_plateform.Outbox.Event.{Event}
use banking_plateform.Outbox.Relay.{Relay, new_relay, relay_once}
use banking_plateform.Platform.Config.{Config}
use banking_plateform.Settlement.Processor.{SettlementResult, process_once, ignoring}
use banking_plateform.Settlement.Reconcile.{reconcile}
use banking_plateform.Transfer.SagaStore.{Connection}
use banking_plateform.Storage.{World}
use banking_plateform.Storage.Monad.{M}

-- The publisher that is built: the log, or Kafka with its brokers and topic.
pub data Publisher : Type 0 where
  log : Publisher
  kafka : List Str → Str → Publisher

abbrev no_brokers : List Str → Bool
no_brokers [] = true
no_brokers (b ∷ bs) = false

-- `NewEventPublisher`
unfoldable pub new_event_publisher : {Rate : Type 0} → Config Rate → Result Publisher
new_event_publisher cfg =
    if is_empty cfg.event_publisher || str_eq cfg.event_publisher (text "log")
    then ok log
    else if str_eq cfg.event_publisher (text "kafka")
    then (if no_brokers cfg.kafka_brokers || is_empty cfg.kafka_topic
        then err plain
        else ok (kafka cfg.kafka_brokers cfg.kafka_topic))
    else err plain

-- `Runner`; the processor and the reconciler have no state of their own.
pub record Runner : Type 0 where
  pub relay : Relay
  pub publisher : Publisher
  pub interval : ℤ

-- `NewRunner`
unfoldable pub new_runner : {Rate : Type 0} → Config Rate → Result Runner
new_runner cfg = do
  publisher ← new_event_publisher cfg
  ok (record {
    relay = new_relay (record { batch_size = pos 20; interval = cfg.outbox_interval });
    publisher = publisher;
    interval = cfg.worker_interval;
  })

-- The configuration of the mock rail in `NewRunner`.
unfoldable pub worker_sarie_config : {Rate : Type 0} → Config Rate → SarieConfig Rate
worker_sarie_config cfg = record {
  fail_rate = cfg.sarie_fail_rate;
  min_delay = pos 50000000;
  max_delay = pos 200000000;
}

-- A turn of the settlement loop of `Run`: errors are logged. The rail and
-- what the driver allows are arguments.
unfoldable pub settlement_turn : Connection → (Str → M SettlementResult) → World → World
settlement_turn conn settle w = ignoring reconcile (process_once settle conn 20 w).2

-- A turn of the loop of `Relay.Run`; what the publishers send is an argument.
unfoldable pub relay_turn : (Publisher → Event → M (Unit {0})) → Runner → World → World
relay_turn publish runner w = ignoring (relay_once (publish runner.publisher) runner.relay) w

-- The loops of `Relay.Run` and of `Run`: a turn, then either the end of the context, or a tick, with
-- what happens elsewhere until it.
unfoldable pub loop : (World → World) → List (World → World) → World → World
loop turn [] w = turn w
loop turn (pause ∷ pauses) w = loop turn pauses (pause (turn w))

-- `Publish` of the publisher that is built.
unfoldable pub publish_with : KafkaClient → Publisher → Event → M (Unit {0})
publish_with client log event = log_publish event
publish_with client (kafka brokers topic) event =
    kafka_publish client (record { brokers = brokers; topic = topic }) event
