-- ===== src/Settlement/Processor.antt =====
-- internal/settlement/app/processor.go: settlement over the rail, and compensation.
pub mod Sound
pub mod Stalled
use banking_plateform.Base.{
  ℕ, ◌+◌, Bool, true, false, List, [], ◌∷◌, ◌++◌, Str, text, Option, none, some, if◌then◌else◌,
}
use banking_plateform.Base.Int.{pos}
use banking_plateform.Shared.Errors as Errors
use banking_plateform.Shared.Errors.{Error, Result, ok, err}
use banking_plateform.Shared.Money.{Money, halalas_from_minor_units}
use banking_plateform.Ledger.Entry.{Entry, new_entry, debit, credit}
use banking_plateform.Ledger.Transaction.{Transaction, new_transaction}
use banking_plateform.Transfer.Saga.{
  SagaRecord, SettlementRecord, SettlementStatus, settling, completed, compensating, settled,
  SagaState,
}
use banking_plateform.Transfer.Command.{Command, command_from_json, entry_id}
use banking_plateform.Transfer.SagaStore.{
  claim_pending_settlements, update_saga_state, update_settlement_status, get_saga, no_fields,
  SagaFields, Connection,
}
use banking_plateform.Transfer.Coordinator.{post_compensation}
use banking_plateform.Storage.{World}
use banking_plateform.Storage.Monad.{M, pure, lift, gets, ◌>>=◌, ◌>>◌}

-- `SettlementResult` of internal/settlement/ports/rail.go; the delay is not modelled.
pub record SettlementResult : Type 0 where
  pub success : Bool
  pub reference : Str
  pub error : Str

-- An error that is logged and dropped.
abbrev pub ignoring {ℓ} : {A : Type ℓ} → M A → World → World
ignoring m w = (m w).1

abbrev pub dropping {ℓ} : {A : Type ℓ} → M A → M (Unit {0})
dropping m w = (ok tt, ignoring m w)

-- The reversal of a transfer: the recipient is debited, the sender credited.
unfoldable pub compensation_journal : ℕ → Str → Command → Money → Result Transaction
compensation_journal now tx_id cmd amount =
    Errors.◌>>=◌ (new_entry (entry_id tx_id (pos 1)) cmd.to_account_id debit amount) λ d.
      Errors.◌>>=◌ (new_entry (entry_id tx_id (pos 2)) cmd.from_account_id credit amount)
        λ c. new_transaction now tx_id (text "compensate failed sarie settlement") (d ∷ c ∷ []) now

abbrev pub compensation_id : SagaRecord → Str
compensation_id saga = saga.transaction_id ++ text "-comp"

-- The state COMPENSATING is written first, whatever comes of it.
unfoldable pub post_reversal : Str → Transaction → M (Unit {0})
post_reversal saga_id tx w =
    post_compensation tx saga_id (ignoring (update_saga_state saga_id compensating no_fields) w)

-- `compensate`
unfoldable pub compensate : SettlementRecord → M (Unit {0})
compensate stl = do
  saga ← get_saga stl.saga_id
  cmd ← lift (command_from_json saga.command_json)
  amount ← lift (halalas_from_minor_units stl.amount_halalas stl.currency)
  now ← gets (λ w. w.now)
  tx ← lift (compensation_journal now (compensation_id saga) cmd amount)
  post_reversal stl.saga_id tx

abbrev pub with_reason : Str → SagaFields
with_reason reason = record { transaction_id = []; settlement_id = []; failure_reason = reason }

-- What is written after a failed compensation; nothing is counted.
unfoldable pub give_up : SettlementRecord → Str → World → World
give_up stl reason w =
    ignoring (update_saga_state stl.saga_id SagaState.failed (with_reason reason))
      (ignoring (update_settlement_status stl.id SettlementStatus.failed reason) w)

-- The branch of a rejected settlement: the number counted, and the state.
unfoldable pub after_compensation : SettlementRecord → Str → Result (Unit {0}) → World → ℕ × World
after_compensation stl reason (err e) w = (0, give_up stl reason w)
after_compensation stl reason (ok _) w =
    (1, ignoring (update_settlement_status stl.id SettlementStatus.failed reason) w)

unfoldable pub reject : SettlementRecord → Str → World → ℕ × World
reject stl reason w = let (r, w') = compensate stl w in after_compensation stl reason r w'

-- The branch of an accepted settlement: an error of the first write ends the batch.
unfoldable pub accept : SettlementRecord → M ℕ
accept stl = do
  update_settlement_status stl.id settled []
  dropping (update_saga_state stl.saga_id completed no_fields)
  pure 1

-- The rail is an argument.
module _ (settle : Str → M SettlementResult) where
  unfoldable pub settle_branch : SettlementRecord → SettlementResult → M ℕ
  settle_branch stl result w =
      if result.success
      then accept stl w
      else (let (n, w') = reject stl result.error w in (ok n, w'))

  -- The body of the loop.
  unfoldable pub process_one : SettlementRecord → M ℕ
  process_one stl w =
      let marked = ignoring (update_saga_state stl.saga_id settling no_fields) w in
      (settle stl.id >>= settle_branch stl) marked

  -- The loop: the number processed comes back beside the error that ended it.
  unfoldable pub process_all : ℕ → List SettlementRecord → World → ℕ × Option Error × World
  process_all processed [] w = (processed, none, w)
  process_all processed (stl ∷ rest) w =
      let (r, w') = process_one stl w in
      elim r [ ok n ↦ process_all (processed + n) rest w' | err e ↦ (processed, some e, w') ]

  unfoldable pub process_claimed : Result (List SettlementRecord) → World → ℕ × Option Error × World
  process_claimed (err e) w = (0, some e, w)
  process_claimed (ok claimed) w = process_all 0 claimed w

  -- `ProcessOnce`
  unfoldable pub process_once : Connection → ℕ → World → ℕ × Option Error × World
  process_once conn limit w =
      let (r, w') = claim_pending_settlements conn limit w in process_claimed r w'
