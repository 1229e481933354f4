-- ===== src/System/Reads.antt =====
-- internal/platform/http: the endpoints that read leave the tables alone.
use banking_plateform.Base.{map, ◌≡◌, Str, is_empty, arith}
use banking_plateform.Ledger.Account.{Account}
use banking_plateform.Ledger.Repository.{get_account, get_balance, list_entries_by_account}
use banking_plateform.Ledger.Repository.Reading.{list_entries-db}
use banking_plateform.Platform.Handlers.{
  get_by_transaction_id, get_by_idempotency_key, get_balance_endpoint, list_entries_endpoint,
  entry_view,
}
use banking_plateform.Platform.Http.{Request}
use banking_plateform.Platform.Poster.{balance_text, balance_text_for}
use banking_plateform.Platform.Server.{ready_reply, postgres_answer, redis_answer}
use banking_plateform.Shared.Errors.{Result, ok, err, domain, validation, relabel}
use banking_plateform.Storage.{Db, World}
use banking_plateform.Storage.Monad.{pure, call, call_annotated, when}
use banking_plateform.Storage.Calls.{call-db, call_annotated-db}
use banking_plateform.Storage.Keeps.{
  Keeps, Keeps-same, Keeps-bind, Keeps-pure, Keeps-when, lift_bind-Keeps,
}
use banking_plateform.Transfer.Command.{command_from_json}
use banking_plateform.Transfer.Saga.{SagaRecord}
use banking_plateform.Transfer.SagaStore.{
  get_saga_by_transaction_id, get_saga_by_idempotency_key, get_settlement_by_saga_id,
}
use banking_plateform.Transfer.Service.{
  status_from_saga, read_settlement, get_status_by_transaction_id, get_status_by_idempotency_key,
}

pub get_account-db : (id : Str) (w : World) → (get_account id w).1.db ≡ w.db
unfolding get_account
get_account-db id w = ground (arith, call_annotated-db w)

get_balance-db : (account : Account) (w : World) → (get_balance account w).1.db ≡ w.db
unfolding get_balance
get_balance-db account w = ground (arith, list_entries-db account.id w)

get_settlement-db : (id : Str) (w : World) → (get_settlement_by_saga_id id w).1.db ≡ w.db
unfolding get_settlement_by_saga_id
get_settlement-db id w = ground (arith, call-db w)

by_transaction_id-db : (id : Str) (w : World) → (get_saga_by_transaction_id id w).1.db ≡ w.db
unfolding get_saga_by_transaction_id
by_transaction_id-db id w = ground (arith, call-db w)

by_idempotency_key-db : (key : Str) (w : World) → (get_saga_by_idempotency_key key w).1.db ≡ w.db
unfolding get_saga_by_idempotency_key
by_idempotency_key-db key w = ground (arith, call-db w)

-- What an endpoint that reads keeps of the tables: everything.
module _ (P : Db → Type 0) where
  status_from_saga-Keeps : (saga : SagaRecord) → Keeps P (status_from_saga saga)
  unfolding status_from_saga read_settlement
  status_from_saga-Keeps saga =
      lift_bind-Keeps (relabel (command_from_json saga.command_json)) _
        λ cmd _. Keeps-same (read_settlement saga cmd) (get_settlement-db saga.id)

  by_transaction_id-Keeps : (id : Str) → Keeps P (get_status_by_transaction_id id)
  unfolding get_status_by_transaction_id
  by_transaction_id-Keeps id =
      Keeps-bind (get_saga_by_transaction_id id) _ (Keeps-same _ (by_transaction_id-db id))
        status_from_saga-Keeps

  by_idempotency_key-Keeps : (key : Str) → Keeps P (get_status_by_idempotency_key key)
  unfolding get_status_by_idempotency_key
  by_idempotency_key-Keeps key =
      Keeps-bind (get_saga_by_idempotency_key key) _ (Keeps-same _ (by_idempotency_key-db key))
        status_from_saga-Keeps

  balance_text_for-Keeps : (id : Str) → Keeps P (balance_text_for id)
  unfolding balance_text_for balance_text
  balance_text_for-Keeps id =
      Keeps-bind (get_account id) _ (Keeps-same _ (get_account-db id)) λ account.
        Keeps-bind (get_balance account) _ (Keeps-same _ (get_balance-db account)) λ m. Keeps-pure _

  pub transfer_by_id-Keeps : (id : Str) (w : World) → P w.db → P (get_by_transaction_id id w).1.db
  unfolding get_by_transaction_id
  transfer_by_id-Keeps id w h =
      (Keeps-bind (when (is_empty id) (domain validation)) _ (Keeps-when _ _)
          λ _. by_transaction_id-Keeps id).at
        w h

  pub transfer_by_key-Keeps :
      (key : Str) (w : World) → P w.db → P (get_by_idempotency_key key w).1.db
  unfolding get_by_idempotency_key
  transfer_by_key-Keeps key w h =
      (Keeps-bind (when (is_empty key) (domain validation)) _ (Keeps-when _ _)
          λ _. by_idempotency_key-Keeps key).at
        w h

  pub balance-Keeps : (id : Str) (w : World) → P w.db → P (get_balance_endpoint id w).1.db
  unfolding get_balance_endpoint
  balance-Keeps id w h = (balance_text_for-Keeps id).at w h

  pub entries-Keeps : (id : Str) (w : World) → P w.db → P (list_entries_endpoint id w).1.db
  unfolding list_entries_endpoint
  entries-Keeps id w h =
      (Keeps-bind {P = P} (list_entries_by_account id) (λ es. pure (map entry_view es))
          (Keeps-same _ (list_entries-db id)) λ es. Keeps-pure _).at
        w h

  redis_answer-Keeps : (a : Result (Unit {0})) (v : World) → P v.db → P (redis_answer a v).1.db
  redis_answer-Keeps (ok _) v h = h
  redis_answer-Keeps (err _) v h = h

  postgres_answer-Keeps :
      (a : Result (Unit {0})) (v : World) → P v.db → P (postgres_answer a v).1.db
  postgres_answer-Keeps (ok _) v h =
      redis_answer-Keeps (call_annotated v).0 (call_annotated v).1
        ((Keeps-same {P = P} call_annotated call_annotated-db).at v h)
  postgres_answer-Keeps (err _) v h = h

  pub ready-Keeps : (r : Request) (w : World) → P w.db → P (ready_reply r w).1.db
  unfolding ready_reply
  ready-Keeps r w h =
      postgres_answer-Keeps (call w).0 (call w).1 ((Keeps-same {P = P} call call-db).at w h)
