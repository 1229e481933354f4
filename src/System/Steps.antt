-- ===== src/System/Steps.antt =====
-- What every step of the system keeps, as an interface over a property of the tables.
use banking_plateform.Base.{List, Str, text, All}
use banking_plateform.Ledger.Account.{Account, AccountType, new_account}
use banking_plateform.Ledger.Repository.{create_account}
use banking_plateform.Outbox.Event.{Event}
use banking_plateform.Outbox.Repository.{mark_published_in_tx, mark_failed_in_tx}
use banking_plateform.Platform.Api.{Outside, api, dependencies, fraud_config}
use banking_plateform.Platform.Audit.{AuditEntry}
use banking_plateform.Platform.Config.{Config}
use banking_plateform.Platform.Handlers.{
  create_account_endpoint, decode_body, parse_account_type, lacks_a_field, open_account,
}
use banking_plateform.Platform.Http.{Request}
use banking_plateform.Platform.Log.{log_entry}
use banking_plateform.Platform.Requests.{create_transfer-Keeps}
use banking_plateform.Platform.Server.{handle, transfer_create_handler, account_create_handler}
use banking_plateform.Platform.Worker.{Runner, Publisher, settlement_turn, relay_turn}
use banking_plateform.Settlement.Processor.{SettlementResult, process_once}
use banking_plateform.Settlement.Processor.Sound.{process_once-Keeps, IsStoredAmount}
use banking_plateform.Settlement.Reconcile.{reconcile}
use banking_plateform.Shared.Errors.{domain, validation}
use banking_plateform.Shared.Json.{field}
use banking_plateform.Transfer.SagaStore.{Connection}
use banking_plateform.Storage.{World, Db}
use banking_plateform.Storage.Keeps.{
  Keeps, Keeps-same, Keeps-bind, Keeps-pure, Keeps-when, lift_bind-Keeps, Both, Keeps-Both,
}
use banking_plateform.Storage.Monad.{M, when}
use banking_plateform.System.Outside.{reconcile-db, relay_once-Keeps}
use banking_plateform.System.Serving.{Any, audited-Serves, serve-Serves}
use banking_plateform.System.Worlds.{
  LeavesTables, Step, Reach, request, settlement, relay, surroundings, here, later,
}
use banking_plateform.Transfer.Writes.{Writes, Writes-Both}

-- A property that every write of the program keeps: those of the transfers, of the accounts, of the
-- audit log and of the relay.
pub record SystemWrites (P : Db → Type 0) : Type 0 where
  pub transfers : Writes P IsStoredAmount
  pub account : (a : Account) → Keeps P (create_account a)
  pub log : (e : AuditEntry) → Keeps P (log_entry e)
  pub published : (id : Str) → Keeps P (mark_published_in_tx id)
  pub failed : (id : Str) → Keeps P (mark_failed_in_tx id)

-- Two such properties at once.
pub SystemWrites-Both :
    {P Q : Db → Type 0} → SystemWrites P → SystemWrites Q → SystemWrites (Both P Q)
SystemWrites-Both k l = record {
  transfers = Writes-Both k.transfers l.transfers;
  account = λ a. Keeps-Both (k.account a) (l.account a);
  log = λ e. Keeps-Both (k.log e) (l.log e);
  published = λ id. Keeps-Both (k.published id) (l.published id);
  failed = λ id. Keeps-Both (k.failed id) (l.failed id);
}

-- The property bounds the amounts that are to be settled.
module _ {P : Db → Type 0} (k : SystemWrites P)
    (amounts : (db : Db) → P db → All IsStoredAmount db.settlements) where
  open_account-Keeps : (fs : List (Str × Str)) (typ : AccountType) → Keeps P (open_account fs typ)
  unfolding open_account
  open_account-Keeps fs typ =
      lift_bind-Keeps (new_account (field (text "id") fs) typ (field (text "name") fs)) _
        λ account _.
          Keeps-bind (create_account account) _ (k.account account) λ _. Keeps-pure account

  account_create-Keeps : (r : Request) (w : World) → P w.db → P (account_create_handler r w).1.db
  unfolding account_create_handler create_account_endpoint
  account_create-Keeps r w h =
      (lift_bind-Keeps (decode_body r.body) _ λ fs _.
          Keeps-bind (when (lacks_a_field fs) (domain validation)) _
            (Keeps-when (lacks_a_field fs) (domain validation))
            λ _.
              lift_bind-Keeps (parse_account_type (field (text "account_type") fs)) _
                λ typ _. open_account-Keeps fs typ).at
        w h

  module _ {Rate : Type 0} (out : Outside) (cfg : Config Rate) where
    transfer_create-Keeps :
        (r : Request) (w : World)
        → P w.db
        → P (transfer_create_handler (dependencies out cfg).transfers r w).1.db
    unfolding transfer_create_handler dependencies
    transfer_create-Keeps r w h =
        create_transfer-Keeps k.transfers (fraud_config cfg) out.unicode out.digest
          r.idempotency_key r.body w h

    api-Keeps : (r : Request) (w : World) → P w.db → P (api out cfg r w).1.db
    unfolding api handle
    api-Keeps r w h =
        (serve-Serves Any {P = P} (dependencies out cfg)
            (λ _.
              audited-Serves (record { at = λ q v _ p. transfer_create-Keeps q v p }) k.log
                (text "transfer.create"))
            (λ _.
              audited-Serves (record { at = λ q v _ p. account_create-Keeps q v p }) k.log
                (text "account.create"))).at
          r w tt h

  settlement-Keeps :
      (conn : Connection) (settle : Str → M SettlementResult)
      (quiet : (id : Str) → LeavesTables (settle id)) (w : World)
      → P w.db
      → P (settlement_turn conn settle w).db
  unfolding settlement_turn
  settlement-Keeps conn settle quiet w h =
      (Keeps-same {P = P} reconcile reconcile-db).at (process_once settle conn 20 w).2 (
        process_once-Keeps k.transfers settle (λ id. Keeps-same (settle id) (quiet id).at) conn 20 w
          (amounts w.db h) h)

  relay-Keeps :
      (publish : Publisher → Event → M (Unit {0})) (runner : Runner)
      (quiet : (p : Publisher) (e : Event) → LeavesTables (publish p e)) (w : World)
      → P w.db
      → P (relay_turn publish runner w).db
  unfolding relay_turn
  relay-Keeps publish runner quiet w h =
      (relay_once-Keeps (publish runner.publisher) (λ e _ _. k.published e.id) k.failed
          (λ e. Keeps-same _ (quiet runner.publisher e).at) runner.relay).at
        w h

  Step-Keeps : {Rate : Type 0} {w v : World} → P w.db → Step Rate w v → P v.db
  Step-Keeps {w} h (request out cfg r) = api-Keeps out cfg r w h
  Step-Keeps {w} h (settlement conn settle quiet) = settlement-Keeps conn settle quiet w h
  Step-Keeps {w} h (relay publish runner quiet) = relay-Keeps publish runner quiet w h
  Step-Keeps h (surroundings cache velocity now script) = h

  -- What every write keeps, every run keeps.
  pub Reach-Keeps : {Rate : Type 0} {w v : World} → P w.db → Reach Rate w v → P v.db
  Reach-Keeps h here = h
  Reach-Keeps h (later r s) = Step-Keeps (Reach-Keeps h r) s
