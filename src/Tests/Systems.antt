-- ===== src/Tests/Systems.antt =====
-- The server, the workers and concurrent clients at concrete values.
use banking_plateform.Base.{◌≡◌, ℕ, str_eq, if◌then◌else◌, refl, [], ◌∷◌, true, Str, text}
use banking_plateform.System.Access.{reads_change_no_table}
use banking_plateform.Platform.Audit.{get, post}
use banking_plateform.Transfer.SagaStore.{shared}
use banking_plateform.Platform.Config.{Config, defaults}
use banking_plateform.Outbox.Event.{Event, pending}
use banking_plateform.Platform.Api.{Outside, api}
use banking_plateform.Platform.Http.{Request, plain_reply}
use banking_plateform.Shared.Errors.{ok}
use banking_plateform.Shared.Json.{object}
use banking_plateform.Storage.{World}
use banking_plateform.Storage.Monad.{M, pure}
use banking_plateform.System.Bank.{IsBank}
use banking_plateform.System.Reachable.{reachable-IsBank}
use banking_plateform.System.Seed.{seeded}
use banking_plateform.System.Worlds as Worlds
use banking_plateform.Settlement.Processor.{SettlementResult}
use banking_plateform.Platform.Worker.{settlement_turn}
use banking_plateform.Tests.Books.{quiet_world, ascii, plain_digest}

-- An environment in which only the authentication is switched on.
abbrev pub environment : Str → Str
environment key = if str_eq key (text "AUTH_ENABLED") then text "true" else []

abbrev pub settings : Config ℕ
settings = defaults (λ s. ok 0) 15 environment

abbrev pub outside : Outside
outside = record {
  unicode = ascii;
  digest = plain_digest;
  openapi_spec = text "openapi: 3.0.3";
  metrics = λ w. plain_reply 200 [];
  new_id = λ w. text "req-1";
}

abbrev pub transfer_request : Request
transfer_request = record {
  method = post;
  path = text "v1" ∷ text "transfers" ∷ [];
  origin = [];
  api_key = text "dev-banking-key-change-me";
  actor = [];
  request_id = [];
  idempotency_key = text "key-0001";
  body = object (
      (text "from_account_id", text "wallet-alice")
      ∷ (text "to_account_id", text "wallet-bob")
      ∷ (text "amount", text "25.50")
      ∷ (text "beneficiary_iban", text "SA0380000000608010167519")
      ∷ (text "beneficiary_name", text "Bob")
      ∷ (text "description", text "rent")
      ∷ []);
}

abbrev pub seeded_world : World
seeded_world = record { db = seeded 1; cache = []; velocity = []; now = 5; script = [] }

abbrev pub accepting : Str → M SettlementResult
accepting id = pure (record { success = true; reference = text "R1"; error = [] })

-- A transfer, and its settlement.
abbrev pub posted_world : World
posted_world = (api outside settings transfer_request seeded_world).1

abbrev pub settled_world : World
settled_world = settlement_turn shared accepting posted_world

reachable-IsBank_example : IsBank settled_world.db
reachable-IsBank_example = reachable-IsBank {Rate = ℕ} 1 seeded_world settled_world refl (
    Worlds.later (Worlds.later Worlds.here (Worlds.request outside settings transfer_request))
      (Worlds.settlement shared accepting (λ id. record { at = λ w. refl })))

abbrev event : Str → Event
event id = record {
  id = id;
  aggregate_type = text "transfer";
  aggregate_id = text "tx-1";
  event_type = text "transfer.posted";
  payload = object [];
  status = pending;
  created_at = 5;
  published_at = 0;
}

abbrev pub outbox_world : World
outbox_world = record quiet_world {
  db = record quiet_world.db { outbox = event (text "e1") ∷ event (text "e2") ∷ [] };
}

abbrev balance_request : Request
balance_request = record transfer_request {
  method = get;
  path = text "v1" ∷ text "accounts" ∷ text "wallet-alice" ∷ text "balance" ∷ [];
}

reads_change_no_table_example : (api outside settings balance_request seeded_world).1.db ≡ seeded 1
reads_change_no_table_example =
    reads_change_no_table outside settings balance_request seeded_world (λ e. cc)
