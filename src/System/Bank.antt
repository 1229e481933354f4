-- ===== src/System/Bank.antt =====
-- The invariant of the whole database, and that every write keeps it.
use banking_plateform.Base.{
  ◌≡◌, refl, List, [], ◌∷◌, All, All-append, Str, str_eq, Bool-cases, inl, inr, arith,
}
use banking_plateform.Ledger.Entry.{IsLine}
use banking_plateform.Ledger.Transaction.{Transaction}
use banking_plateform.Ledger.Account.{Account}
use banking_plateform.Ledger.Repository.{post_transaction_in_tx, create_account}
use banking_plateform.Ledger.Repository.Frame.{
  post_transaction_in_tx-SameRest, post_transaction_in_tx-IsLinked,
}
use banking_plateform.Ledger.Repository.Opening.{AreBooks, create_account-AreBooks}
use banking_plateform.Ledger.Keeps.{
  SameLedger, IsSound-same, Avoids, post_transaction_in_tx-KeepsOk,
}
use banking_plateform.Outbox.Event.{Event}
use banking_plateform.Outbox.Repository.{insert_event}
use banking_plateform.Settlement.Processor.Sound.{IsStoredAmount}
use banking_plateform.Storage.{Db, World}
use banking_plateform.Storage.Monad.{M, call}
use banking_plateform.Storage.Calls.{call-db, call_annotated-db}
use banking_plateform.Storage.Keeps.{Keeps, KeepsOk}
use banking_plateform.Transfer.Saga.{SettlementRecord, SagaRecord, SagaState, SettlementStatus}
use banking_plateform.Transfer.SagaStore.{
  SagaFields, insert_saga, insert_settlement, update_saga_state, update_settlement_status,
  count_attempt, update_settlements, with_status, one_more_attempt,
}
use banking_plateform.Transfer.Writes.{
  Writes, insert_saga-Avoids, insert_event-Avoids, insert_settlement-Avoids,
  update_saga_state-Avoids, update_settlement_status-Avoids, count_attempt-Avoids,
}

-- The books are sound and linked, and the amounts of the settlements are within int64.
pub record IsBank (db : Db) : Type 0 where
  pub books : AreBooks db
  pub amounts : All IsStoredAmount db.settlements

AreBooks-same : {db after : Db} → SameLedger db after → AreBooks db → AreBooks after
AreBooks-same s b = record {
  sound = IsSound-same s b.sound;
  linked = rw (s.entries, s.accounts) b.linked;
}

-- A write that avoids the ledger, with what it does to the settlements.
Avoids-IsBank :
    {m : M (Unit {0})}
    → Avoids m
    → ((w : World)
        → All IsStoredAmount w.db.settlements
        → All IsStoredAmount (m w).1.db.settlements)
    → Keeps IsBank m
Avoids-IsBank a f = record {
  at = λ w h. record { books = AreBooks-same (a.at w) h.books; amounts = f w h.amounts };
}

-- An update that changes no amount.
updated_amounts :
    (f : SettlementRecord → SettlementRecord) (id : Str) (rows : List SettlementRecord)
    → ((s : SettlementRecord) → (f s).amount_halalas ≡ s.amount_halalas)
    → All IsStoredAmount rows
    → All IsStoredAmount (update_settlements f id rows)
unfolding update_settlements
updated_amounts f id [] same h = tt
updated_amounts f id (s ∷ rows) same (r, h) = elim (Bool-cases (str_eq s.id id)) [
  | inl e ↦ rw e (rw (same s) r, updated_amounts f id rows same h)
  | inr e ↦ rw e (r, updated_amounts f id rows same h)
]

insert_saga-amounts :
    (s : SagaRecord) (w : World)
    → All IsStoredAmount w.db.settlements
    → All IsStoredAmount (insert_saga s w).1.db.settlements
unfolding insert_saga
insert_saga-amounts s w h = ground (arith, call-db w, h)

insert_event-amounts :
    (e : Event) (w : World)
    → All IsStoredAmount w.db.settlements
    → All IsStoredAmount (insert_event e w).1.db.settlements
unfolding insert_event
insert_event-amounts e w h = ground (arith, call_annotated-db w, h)

update_saga_state-amounts :
    (id : Str) (state : SagaState) (fields : SagaFields) (w : World)
    → All IsStoredAmount w.db.settlements
    → All IsStoredAmount (update_saga_state id state fields w).1.db.settlements
unfolding update_saga_state
update_saga_state-amounts id state fields w h = ground (arith, call-db w, h)

insert_settlement-amounts :
    (s : SettlementRecord)
    → IsStoredAmount s
    → (w : World) → All IsStoredAmount w.db.settlements
    → All IsStoredAmount (insert_settlement s w).1.db.settlements
unfolding insert_settlement
insert_settlement-amounts s r w h =
    ground (arith, call-db w, h, All-append IsStoredAmount w.db.settlements (s ∷ []) h (r, tt))

update_settlement_status-amounts :
    (id : Str) (status : SettlementStatus) (reason : Str) (w : World)
    → All IsStoredAmount w.db.settlements
    → All IsStoredAmount (update_settlement_status id status reason w).1.db.settlements
unfolding update_settlement_status
update_settlement_status-amounts id status reason w h = ground (
  arith,
  call-db w,
  h,
  updated_amounts (with_status status reason (call w).1.now) id w.db.settlements (λ s. refl) h,
)

count_attempt-amounts :
    (id : Str) (w : World)
    → All IsStoredAmount w.db.settlements
    → All IsStoredAmount (count_attempt id w).1.db.settlements
unfolding count_attempt
count_attempt-amounts id w h = ground (
  arith,
  call-db w,
  h,
  updated_amounts (one_more_attempt (call w).1.now) id w.db.settlements (λ s. refl) h,
)

posting-IsBank :
    (tx : Transaction) → All IsLine tx.entries → KeepsOk IsBank (post_transaction_in_tx tx)
posting-IsBank tx l = record {
  at = λ w e h.
      let same =
        (post_transaction_in_tx-SameRest tx w.db.outbox w.db.settlements).at w
          (record { outbox_same = refl; settlements_same = refl }) in
      record {
        books = record {
          sound = (post_transaction_in_tx-KeepsOk tx l).at w e h.books.sound;
          linked = (post_transaction_in_tx-IsLinked tx).at w h.books.linked;
        };
        amounts = rw same.settlements_same h.amounts;
      };
}

pub IsBank-writes : Writes IsBank IsStoredAmount
IsBank-writes = record {
  saga = λ s. Avoids-IsBank (insert_saga-Avoids s) (insert_saga-amounts s);
  event = λ e. Avoids-IsBank (insert_event-Avoids e) (insert_event-amounts e);
  settlement = λ s r. Avoids-IsBank (insert_settlement-Avoids s) (insert_settlement-amounts s r);
  allowed = λ s r. r;
  saga_state = λ id state fields.
      Avoids-IsBank (update_saga_state-Avoids id state fields)
        (update_saga_state-amounts id state fields);
  settlement_status = λ id status reason.
      Avoids-IsBank (update_settlement_status-Avoids id status reason)
        (update_settlement_status-amounts id status reason);
  attempt = λ id. Avoids-IsBank (count_attempt-Avoids id) (count_attempt-amounts id);
  posting = posting-IsBank;
}

create_account-settlements :
    (account : Account) (w : World) → (create_account account w).1.db.settlements ≡ w.db.settlements
unfolding create_account
create_account-settlements account w = ground (arith, call_annotated-db w)

pub create_account-IsBank : (account : Account) → Keeps IsBank (create_account account)
create_account-IsBank account = record {
  at = λ w h. record {
    books = create_account-AreBooks account w h.books;
    amounts = rw (create_account-settlements account w) h.amounts;
  };
}
