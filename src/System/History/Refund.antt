-- ===== src/System/History/Refund.antt =====
-- What a compensation that succeeds shows: its journal is new before it, and posted after it.
use banking_plateform.Base.{
  ℕ, ◌≡◌, refl, sym, ap, subst, ◌∙◌, Bool, true, false, List, [], ◌∷◌, ◌++◌, exists, find, Str,
  str_eq, str_eq_refl, Option, some, arith,
}
use banking_plateform.Ledger.Repository.{
  insert_header, validate_sufficient_funds, lock_accounts, post_transaction_in_tx,
}
use banking_plateform.Ledger.Repository.Frame.{lock_accounts-db, validate-db}
use banking_plateform.Ledger.Transaction.{Transaction, new_transaction}
use banking_plateform.Settlement.Processor.{
  compensate, compensation_id, compensation_journal, post_reversal,
}
use banking_plateform.Shared.Errors.{Error, ok}
use banking_plateform.Shared.Money.{Money, halalas_from_minor_units}
use banking_plateform.Storage.{Db, World, TransactionRow}
use banking_plateform.Storage.Calls.{bind_ok, call-db, call_annotated-db}
use banking_plateform.Storage.Keeps.{Keeps}
use banking_plateform.Storage.Marks.{
  Marks, Marks-behind, Marks-before, Marks-in_tx, lift_bind-Marks,
}
use banking_plateform.Storage.Monad.{M, lift, gets, when, call_annotated, ◌>>=◌}
use banking_plateform.System.History.{IsLater, IsLater-refl}
use banking_plateform.System.History.Taken.{exists-append}
use banking_plateform.System.History.Writes.{IsLater-writes, insert_entries-IsLater}
use banking_plateform.Transfer.Command.{Command, command_from_json}
use banking_plateform.Transfer.Coordinator.{post_compensation}
use banking_plateform.Transfer.Saga.{SagaRecord, SettlementRecord, compensating}
use banking_plateform.Transfer.SagaStore.{get_saga, update_saga_state, no_fields}
use banking_plateform.Transfer.SagaStore.Claim.{get_saga-db}

abbrev pub has_journal : Str → Db → Bool
has_journal id db = exists (λ t. str_eq t.id id) db.transactions

abbrev pub Unposted : Str → Db → Type 0
Unposted id db = has_journal id db ≡ false

abbrev pub Posted : Str → Db → Type 0
Posted id db = has_journal id db ≡ true

pub later-Posted : (id : Str) (base db : Db) → IsLater base db → Posted id base → Posted id db
later-Posted id base db l h =
    ap (exists (λ t. str_eq t.id id)) l.transactions.1
    ∙ exists-append (λ t. str_eq t.id id) base.transactions l.transactions.0 h

Posted-Keeps {ℓ} :
    {A : Type ℓ} {m : M A} (id : Str) → ((base : Db) → Keeps (IsLater base) m) → Keeps (Posted id) m
Posted-Keeps {m} id k = record {
  at = λ w h. later-Posted id w.db (m w).1.db ((k w.db).at w (IsLater-refl w.db)) h;
}

last_posted :
    (t : TransactionRow) (rows : List TransactionRow)
    → exists (λ r. str_eq r.id t.id) (rows ++ t ∷ []) ≡ true
last_posted t [] = rw (str_eq_refl t.id) refl
last_posted t (r ∷ rows) = ground (arith, last_posted t rows)

insert_header-Marks : (tx : Transaction) → Marks (Unposted tx.id) (Posted tx.id) (insert_header tx)
unfolding insert_header
insert_header-Marks tx = record {
  at = λ w e. (
    ground (arith, call_annotated-db w),
    ground (
      arith,
      call_annotated-db w,
      last_posted
          (record { id = tx.id; description = tx.description; recorded_at = tx.recorded_at })
          w.db.transactions,
    ),
  );
}

when-db : (b : Bool) (e : Error) (w : World) → (when b e w).1.db ≡ w.db
when-db true e w = refl
when-db false e w = refl

posting-Marks :
    (tx : Transaction) → Marks (Unposted tx.id) (Posted tx.id) (post_transaction_in_tx tx)
unfolding post_transaction_in_tx
posting-Marks tx = Marks-behind (when _ _) _ (when-db _ _) λ _.
    Marks-behind (lock_accounts _) _ (lock_accounts-db _) λ accounts.
      Marks-behind (validate_sufficient_funds tx accounts) _ (validate-db tx accounts) λ _.
        Marks-before (insert_header tx) _ (insert_header-Marks tx)
          λ _. Posted-Keeps tx.id (λ base. insert_entries-IsLater base tx tx.entries)

pub post_compensation-Marks :
    (tx : Transaction) (saga_id : Str)
    → Marks (Unposted tx.id) (Posted tx.id) (post_compensation tx saga_id)
unfolding post_compensation
post_compensation-Marks tx saga_id = Marks-in_tx call_annotated _ call_annotated-db (
    Marks-before (post_transaction_in_tx tx) _ (posting-Marks tx)
      λ _. Posted-Keeps tx.id (λ base. (IsLater-writes base).saga_state saga_id _ _))

compensating-transactions :
    (saga_id : Str) (w : World)
    → (update_saga_state saga_id compensating no_fields w).1.db.transactions ≡ w.db.transactions
unfolding update_saga_state
compensating-transactions saga_id w = ground (arith, call-db w)

reversal-Marks :
    (saga_id : Str) (tx : Transaction)
    → Marks (Unposted tx.id) (Posted tx.id) (post_reversal saga_id tx)
unfolding post_reversal
reversal-Marks saga_id tx = record {
  at = λ w e.
      let v = (update_saga_state saga_id compensating no_fields w).1 in
      let (free, taken) = (post_compensation-Marks tx saga_id).at v e in
      (
        subst (λ rows. exists (λ t. str_eq t.id tx.id) rows ≡ false)
            (compensating-transactions saga_id w) free,
        taken,
      );
}

journal-id :
    (now : ℕ) (id : Str) (cmd : Command) (amount : Money) (tx : Transaction)
    → compensation_journal now id cmd amount ≡ ok tx
    → tx.id ≡ id
unfolding compensation_journal new_transaction
journal-id now id cmd amount tx e = ground arith

abbrev pub saga_of : SettlementRecord → Db → Option SagaRecord
saga_of stl db = find (λ s. str_eq s.id stl.saga_id) db.sagas

found_saga :
    (stl : SettlementRecord) (w : World) (saga : SagaRecord)
    → (get_saga stl.saga_id w).0 ≡ ok saga
    → saga_of stl w.db ≡ some saga
unfolding get_saga
found_saga stl w saga e = ground (arith, call-db w)

-- What a compensation that succeeds shows of its journal.
pub record IsRefund (stl : SettlementRecord) (before after : Db) : Type 0 where
  pub saga : SagaRecord
  pub found : saga_of stl before ≡ some saga
  pub free : Unposted (compensation_id saga) before
  pub taken : Posted (compensation_id saga) after

-- What follows the read of the saga.
abbrev pub reverse : SettlementRecord → SagaRecord → M (Unit {0})
reverse stl saga = do
  cmd ← lift (command_from_json saga.command_json)
  amount ← lift (halalas_from_minor_units stl.amount_halalas stl.currency)
  now ← gets (λ w. w.now)
  tx ← lift (compensation_journal now (compensation_id saga) cmd amount)
  post_reversal stl.saga_id tx

reverse-Marks :
    (stl : SettlementRecord) (saga : SagaRecord)
    → Marks (Unposted (compensation_id saga)) (Posted (compensation_id saga)) (reverse stl saga)
reverse-Marks stl saga =
    let id = compensation_id saga in
    Marks-behind (lift (command_from_json saga.command_json)) _ (λ w. refl)
      λ cmd.
        Marks-behind (lift (halalas_from_minor_units stl.amount_halalas stl.currency)) _ (λ w. refl)
          λ amount.
            Marks-behind (gets (λ w. w.now)) _ (λ w. refl)
              λ now. lift_bind-Marks (compensation_journal now id cmd amount) _ λ tx e.
                subst (λ j. Marks (Unposted j) (Posted j) (post_reversal stl.saga_id tx))
                  (journal-id now id cmd amount tx e) (reversal-Marks stl.saga_id tx)

pub compensate-IsRefund :
    (stl : SettlementRecord) (w : World)
    → (compensate stl w).0 ≡ ok tt
    → IsRefund stl w.db (compensate stl w).1.db
unfolding compensate
compensate-IsRefund stl w e =
    let (saga, q, step) = bind_ok (get_saga stl.saga_id) (reverse stl) w e in
    let v = (get_saga stl.saga_id w).1 in
    let (free, taken) = (reverse-Marks stl saga).at v (ap (λ r. r.0) (sym step) ∙ e) in
    record {
      saga = saga;
      found = found_saga stl w saga q;
      free = subst (Unposted (compensation_id saga)) (get_saga-db stl.saga_id w) free;
      taken = subst (λ r. Posted (compensation_id saga) r.1.db) (sym step) taken;
    }
