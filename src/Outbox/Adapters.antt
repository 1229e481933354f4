-- ===== src/Outbox/Adapters.antt =====
-- internal/outbox/adapters/kafka/publisher.go and internal/outbox/adapters/logpublisher: the two
-- publishers. The Kafka client, the JSON encoder and the format of times are arguments.
use banking_plateform.Base.{ℕ, List, Str}
use banking_plateform.Outbox.Event.{Event}
use banking_plateform.Shared.Errors.{Result, relabel}
use banking_plateform.Shared.Json.{Json}
use banking_plateform.Storage.Monad.{M, lift, pure, annotating, ◌>>=◌}

-- `Config` of the Kafka publisher.
pub record KafkaConfig : Type 0 where
  pub brokers : List Str
  pub topic : Str

-- The fields of the message's JSON.
pub record KafkaBody : Type 0 where
  pub event_id : Str
  pub event_type : Str
  pub payload : Json
  pub occurred_at : Str

-- `kafka.Message`
pub record Message : Type 0 where
  pub key : Str
  pub value : Str

-- `json.Marshal` of the fields, `Format(time.RFC3339Nano)`, and `WriteMessages` of a writer over the
-- brokers and the topic.
pub record KafkaClient : Type 0 where
  pub marshal : KafkaBody → Result Str
  pub format_time : ℕ → Str
  pub write_messages : KafkaConfig → Message → M (Unit {0})

module _ (client : KafkaClient) (cfg : KafkaConfig) where
  abbrev pub body_of : Event → KafkaBody
  body_of event = record {
    event_id = event.id;
    event_type = event.event_type;
    payload = event.payload;
    occurred_at = client.format_time event.created_at;
  }

  -- `Publish` to Kafka.
  unfoldable pub kafka_publish : Event → M (Unit {0})
  kafka_publish event = do
    body ← lift (relabel (client.marshal (body_of event)))
    annotating (client.write_messages cfg (record { key = event.event_type; value = body }))

-- `Publish` to the log, which never fails.
unfoldable pub log_publish : Event → M (Unit {0})
log_publish event = pure tt
