-- ===== src/Transfer/SagaStore.antt =====
-- internal/transfer/adapters/postgres/saga_repository.go: sagas and settlements in storage.
pub mod Claim
pub mod Rows
use banking_plateform.Base.{
  ℕ, ◌+◌, Bool, true, false, not, ◌&&◌, ◌||◌, List, [], ◌∷◌, ◌++◌, Str, str_eq, is_empty, exists,
  keep, find, take, order_by, ltb, if◌then◌else◌, Option, none, some,
}
use banking_plateform.Base.Int.{pos, ltb_ℤ}
use banking_plateform.Shared.Errors.{Result, ok, err, plain, domain, not_found}
use banking_plateform.Transfer.Saga.{
  SagaState, SagaRecord, SettlementStatus, SettlementRecord, pending, settled,
}
use banking_plateform.Storage.{Db}
use banking_plateform.Storage.Monad.{
  raise, M, pure, lift, gets, when, modify_db, call, in_tx, ◌>>=◌, ◌>>◌,
}

-- `InsertSagaInTx` and `CreateSaga`: the primary key, and the unique idempotency key. A violation is
-- handed on as it is.
unfoldable pub insert_saga : SagaRecord → M (Unit {0})
insert_saga saga = do
  call
  taken ← gets (λ w.
      exists (λ s. str_eq s.id saga.id || str_eq s.idempotency_key saga.idempotency_key) w.db.sagas)
  when taken plain
  modify_db (λ db. record db { sagas = db.sagas ++ saga ∷ [] })

-- `COALESCE(NULLIF(new, ''), old)`
abbrev pub or_old : Str → Str → Str
or_old new old = if is_empty new then old else new

-- The optional fields of `UpdateSagaState`; an absent one is empty.
pub record SagaFields : Type 0 where
  pub transaction_id : Str
  pub settlement_id : Str
  pub failure_reason : Str

abbrev pub no_fields : SagaFields
no_fields = record { transaction_id = []; settlement_id = []; failure_reason = [] }

abbrev pub updated_saga : SagaState → SagaFields → ℕ → SagaRecord → SagaRecord
updated_saga state fields now s = record s {
  state = state;
  transaction_id = or_old fields.transaction_id s.transaction_id;
  settlement_id = or_old fields.settlement_id s.settlement_id;
  failure_reason = or_old fields.failure_reason s.failure_reason;
  updated_at = now;
}

unfoldable pub update_sagas : (SagaRecord → SagaRecord) → Str → List SagaRecord → List SagaRecord
update_sagas f id [] = []
update_sagas f id (s ∷ ss) = (if str_eq s.id id then f s else s) ∷ update_sagas f id ss

-- `UpdateSagaState` and `UpdateSagaStateInTx`: no such saga is no error.
unfoldable pub update_saga_state : Str → SagaState → SagaFields → M (Unit {0})
update_saga_state id state fields = do
  call
  now ← gets (λ w. w.now)
  modify_db (λ db. record db { sagas = update_sagas (updated_saga state fields now) id db.sagas })

abbrev pub scanned {ℓ} : {A : Type ℓ} → Option A → Result A
scanned none = err (domain not_found)
scanned (some a) = ok a

unfoldable pub get_saga_by_idempotency_key : Str → M SagaRecord
get_saga_by_idempotency_key key = do
  call
  row ← gets (λ w. find (λ s. str_eq s.idempotency_key key) w.db.sagas)
  lift (scanned row)

unfoldable pub get_saga_by_transaction_id : Str → M SagaRecord
get_saga_by_transaction_id id = do
  call
  row ←
      gets
        (λ w. find (λ s. not (is_empty s.transaction_id) && str_eq s.transaction_id id) w.db.sagas)
  lift (scanned row)

unfoldable pub get_saga : Str → M SagaRecord
get_saga id = do call; row ← gets (λ w. find (λ s. str_eq s.id id) w.db.sagas); lift (scanned row)

unfoldable pub get_settlement_by_saga_id : Str → M SettlementRecord
get_settlement_by_saga_id id = do
  call
  row ← gets (λ w. find (λ s. str_eq s.saga_id id) w.db.settlements)
  lift (scanned row)

abbrev pub is_named_status : SettlementStatus → Bool
is_named_status (SettlementStatus.unnamed s) = false
is_named_status pending = true
is_named_status settled = true
is_named_status SettlementStatus.failed = true

-- `InsertSettlementInTx` and `CreateSettlement`: the primary key, the foreign key, the CHECKs.
unfoldable pub insert_settlement : SettlementRecord → M (Unit {0})
insert_settlement stl = do
  call
  taken ← gets (λ w. exists (λ s. str_eq s.id stl.id) w.db.settlements)
  known ← gets (λ w. exists (λ s. str_eq s.id stl.saga_id) w.db.sagas)
  when
      (taken
        || not known
        || not (ltb_ℤ (pos 0) stl.amount_halalas)
        || not (is_named_status stl.status))
      plain
  modify_db (λ db. record db { settlements = db.settlements ++ stl ∷ [] })

abbrev pub is_pending : SettlementStatus → Bool
is_pending pending = true
is_pending _ = false

abbrev pub older : SettlementRecord → SettlementRecord → Bool
older a b = ltb a.created_at b.created_at

-- `WHERE status = 'PENDING' ORDER BY created_at ASC LIMIT $1`
abbrev pub pending_settlements : ℕ → Db → List SettlementRecord
pending_settlements limit db =
    take limit (order_by older (keep (λ s. is_pending s.status) db.settlements))

unfoldable pub update_settlements :
    (SettlementRecord → SettlementRecord) → Str → List SettlementRecord → List SettlementRecord
update_settlements f id [] = []
update_settlements f id (s ∷ ss) = (if str_eq s.id id then f s else s) ∷ update_settlements f id ss

abbrev pub one_more_attempt : ℕ → SettlementRecord → SettlementRecord
one_more_attempt now s = record s { attempts = s.attempts + 1; updated_at = now }

-- The update of one claimed row: the status stays pending.
unfoldable pub count_attempt : Str → M (Unit {0})
count_attempt id = do
  call
  now ← gets (λ w. w.now)
  modify_db (λ db. record db {
    settlements = update_settlements (one_more_attempt now) id db.settlements;
  })

-- What the driver makes of an `Exec` on a connection with rows that are still open. pgx documents
-- that rows have to be closed before their connection is used again: it is `busy`.
pub data Connection : Type 0 where
  shared busy : Connection

abbrev pub over_open_rows : Connection → M (Unit {0}) → M (Unit {0})
over_open_rows shared m = m
over_open_rows busy m = raise plain

-- The loop of `ClaimPendingSettlements`: each update is sent while the rows are open.
unfoldable pub count_attempts : Connection → List SettlementRecord → M (Unit {0})
count_attempts conn [] = pure tt
count_attempts conn (s ∷ ss) =
    over_open_rows conn (count_attempt s.id) >>= λ _. count_attempts conn ss

unfoldable pub claim_rows : Connection → ℕ → M (List SettlementRecord)
claim_rows conn limit = do
  call
  rows ← gets (λ w. pending_settlements limit w.db)
  count_attempts conn rows
  pure rows

-- `ClaimPendingSettlements`
unfoldable pub claim_pending_settlements : Connection → ℕ → M (List SettlementRecord)
claim_pending_settlements conn limit = in_tx call (claim_rows conn limit)

abbrev pub with_status : SettlementStatus → Str → ℕ → SettlementRecord → SettlementRecord
with_status status last_error now s = record s {
  status = status;
  last_error = last_error;
  updated_at = now;
}

-- `UpdateSettlementStatus`
unfoldable pub update_settlement_status : Str → SettlementStatus → Str → M (Unit {0})
update_settlement_status id status last_error = do
  call
  now ← gets (λ w. w.now)
  when (not (is_named_status status)) plain
  modify_db (λ db. record db {
    settlements = update_settlements (with_status status last_error now) id db.settlements;
  })
