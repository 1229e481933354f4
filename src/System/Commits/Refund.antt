-- ===== src/System/Commits/Refund.antt =====
-- A settlement is refunded once, since its saga keeps the transaction that names the journal.
use banking_plateform.Base.{◌≡◌, ◌≢◌, refl, subst, ◌++◌, Str, false, text, inr, arith}
use banking_plateform.Ledger.Transaction.{Transaction}
use banking_plateform.Settlement.Processor.{
  compensate, compensation_id, compensation_journal, post_reversal,
}
use banking_plateform.Shared.Errors.{ok}
use banking_plateform.Storage.{World}
use banking_plateform.Storage.Keeps.{Keeps, Keeps-same, Keeps-bind}
use banking_plateform.Storage.Monad.{lift, gets}
use banking_plateform.System.Commits.{
  Commits, Commits-Interleaved, Commits-HasSaga, HasSaga, update-Keeps, refund-Keeps,
}
use banking_plateform.System.History.Refund.{
  compensate-IsRefund, later-Posted, has_journal, reverse,
}
use banking_plateform.System.Interleaved.{Interleaved-IsLater}
use banking_plateform.Shared.Money.{halalas_from_minor_units}
use banking_plateform.Transfer.Command.{command_from_json}
use banking_plateform.Transfer.Saga.{SettlementRecord, compensating}
use banking_plateform.Transfer.SagaStore.{get_saga, no_fields}
use banking_plateform.Transfer.SagaStore.Claim.{get_saga-db}

module _ (key tx : Str) where
  reversal-Keeps : (id : Str) (j : Transaction) → Keeps (HasSaga key tx) (post_reversal id j)
  unfolding post_reversal
  reversal-Keeps id j = record {
    at = λ w h.
        (refund-Keeps key tx j id).at _
          ((update-Keeps key tx id compensating no_fields (inr refl)).at w h);
  }

  compensate-Keeps : (stl : SettlementRecord) → Keeps (HasSaga key tx) (compensate stl)
  unfolding compensate
  compensate-Keeps stl =
      Keeps-bind (get_saga stl.saga_id) (reverse stl) (Keeps-same _ (get_saga-db stl.saga_id))
        λ saga.
          Keeps-bind (lift (command_from_json saga.command_json)) _ (Keeps-same _ (λ w. refl))
            λ cmd.
              Keeps-bind (lift (halalas_from_minor_units stl.amount_halalas stl.currency)) _
                (Keeps-same _ (λ w. refl))
                λ amount. Keeps-bind (gets (λ w. w.now)) _ (Keeps-same _ (λ w. refl)) λ now.
                  Keeps-bind (lift (compensation_journal now (compensation_id saga) cmd amount)) _
                    (Keeps-same _ (λ w. refl)) λ j. reversal-Keeps stl.saga_id j

-- In the whole life of the system a settlement is refunded once. After a compensation that has
-- succeeded, and whatever commits of other clients and workers follow, another compensation of the
-- settlement fails, also by a worker that has claimed it before. The commits are transfers over
-- well-formed lines and settlements within int64, refunds over well-formed lines, any progress of
-- any saga as the worker writes it (a state and a reason, without a transaction), and any writes
-- beside the sagas.
pub refunded_once :
    (w v : World) (stl : SettlementRecord)
    → (compensate stl w).0 ≡ ok tt
    → Commits (compensate stl w).1.db v.db
    → (compensate stl v).0 ≢ ok tt
refunded_once w v stl e after e' =
    let first = compensate-IsRefund stl w e in
    let second = compensate-IsRefund stl v e' in
    let tx = first.saga.transaction_id in
    let stays = (compensate-Keeps stl.saga_id tx stl).at w (first.saga, first.found, refl) in
    let (later, has, same) = Commits-HasSaga stl.saga_id tx after stays in
    let still =
      later-Posted (compensation_id first.saga) (compensate stl w).1.db v.db
        (Interleaved-IsLater (Commits-Interleaved after)) first.taken in
    let names : second.saga.transaction_id ≡ tx = ground (arith, has, second.found, same) in
    let free = subst (λ t. has_journal (t ++ text "-comp") v.db ≡ false) names second.free in
    ground (arith, still, free)
