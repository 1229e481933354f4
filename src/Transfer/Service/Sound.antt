-- ===== src/Transfer/Service/Sound.antt =====
-- The service keeps what its writes keep: the soundness of the ledger among it.
use banking_plateform.Base.{ℕ, ◌≡◌, Str, arith}
use banking_plateform.Shared.Money.{Money}
use banking_plateform.Shared.Money.Range.{IsRiyals}
use banking_plateform.Idempotency.Key.{saga_id_from_key, parse_key}
use banking_plateform.Idempotency.Guard.{run}
use banking_plateform.Idempotency.Guard.Keeps.{run-Keeps}
use banking_plateform.Ledger.Repository.{get_account}
use banking_plateform.Ledger.Repository.Invariant.{IsSound}
use banking_plateform.Ledger.Keeps.{Avoids, Avoids-Keeps}
use banking_plateform.Storage.{Db, World}
use banking_plateform.Storage.Calls.{call_annotated-db}
use banking_plateform.Storage.Keeps.{
  Keeps, Keeps-same, Keeps-pure, Keeps-when, Keeps-bind, lift_bind-Keeps,
}
use banking_plateform.Transfer.Saga.{SettlementRecord}
use banking_plateform.Transfer.Command.{
  Command, transfer_scope, command_transaction_id, transfer_posted_event, validate, fingerprint,
}
use banking_plateform.Transfer.Codec.{encode_transfer_result, decode_transfer_result}
use banking_plateform.Transfer.Writes.{Writes, IsSound-writes}
use banking_plateform.Transfer.Coordinator.{post_transfer}
use banking_plateform.Transfer.Coordinator.Sound.{post_transfer-Keeps}
use banking_plateform.Transfer.Service.{
  Ports, screen, check_accounts, post, run_saga, execute, commit_of, transfer_journal, describe,
  posted_result,
}
use banking_plateform.Transfer.Service.Journal.{transfer_journal-IsMovement, IsMovement-lines}

-- The ports of a service whose screens write nothing in the ledger.
pub record ScreensAvoid (ports : Ports) : Type 0 where
  pub fraud : (id : Str) (m : Money) → Avoids (ports.fraud id m)
  pub compliance : (iban name : Str) → Avoids (ports.compliance iban name)

-- The ports of a service whose screens keep a property of the tables.
pub record ScreensKeep (P : Db → Type 0) (ports : Ports) : Type 0 where
  pub fraud : (id : Str) (m : Money) → Keeps P (ports.fraud id m)
  pub compliance : (iban name : Str) → Keeps P (ports.compliance iban name)

pub get_account-db : (id : Str) (w : World) → (get_account id w).1.db ≡ w.db
unfolding get_account
get_account-db id w = ground (arith, call_annotated-db w)

module _ {P : Db → Type 0} {Allowed : SettlementRecord → Type 0} (k : Writes P Allowed)
    (ports : Ports) (s : ScreensKeep P ports) where
  screen-Keeps : (cmd : Command) → Keeps P (screen ports cmd)
  unfolding screen
  screen-Keeps cmd =
      Keeps-bind (ports.fraud cmd.from_account_id cmd.amount) _ (s.fraud _ _) λ _. s.compliance _ _

  check_accounts-Keeps : (cmd : Command) → Keeps P (check_accounts ports cmd)
  unfolding check_accounts
  check_accounts-Keeps cmd =
      Keeps-bind (get_account cmd.from_account_id) _
        (Keeps-same _ (get_account-db cmd.from_account_id))
        λ from.
          Keeps-bind (get_account cmd.to_account_id) _
            (Keeps-same _ (get_account-db cmd.to_account_id)) λ to. Keeps-when _ _

  post-Keeps : (now : ℕ) (cmd : Command) → IsRiyals cmd.amount → Keeps P (post ports now cmd)
  unfolding post commit_of
  post-Keeps now cmd r = lift_bind-Keeps (command_transaction_id ports.digest cmd) _ λ tx_id _.
      lift_bind-Keeps (transfer_journal now tx_id (describe cmd) cmd) _ λ tx e.
        let result =
          posted_result (saga_id_from_key ports.digest.of_text cmd.idempotency_key) tx_id cmd in
        lift_bind-Keeps (transfer_posted_event now cmd result) _ λ event _.
          Keeps-bind (post_transfer (commit_of now cmd result tx event)) _
            (post_transfer-Keeps k (commit_of now cmd result tx event)
              (IsMovement-lines tx_id cmd.from_account_id cmd.to_account_id cmd.amount tx
                (transfer_journal-IsMovement now tx_id (describe cmd) cmd tx r e))
              (k.allowed (commit_of now cmd result tx event).settlement r.range))
            λ _.
              Keeps-pure (record { resource_id = tx_id; payload = encode_transfer_result result })

  run_saga-Keeps : (cmd : Command) → IsRiyals cmd.amount → Keeps P (run_saga ports cmd)
  unfolding run_saga
  run_saga-Keeps cmd r = record {
    at = λ w h.
        (Keeps-bind (screen ports cmd) _ (screen-Keeps cmd) λ _.
            Keeps-bind (check_accounts ports cmd) _ (check_accounts-Keeps cmd)
              λ _. post-Keeps w.now cmd r).at
          w h;
  }

  pub execute-Keeps : (cmd : Command) → IsRiyals cmd.amount → Keeps P (execute ports cmd)
  unfolding execute
  execute-Keeps cmd r =
      let f = fingerprint ports.unicode ports.digest cmd in
      lift_bind-Keeps (validate ports.unicode cmd) _ λ _ _.
        lift_bind-Keeps (parse_key cmd.idempotency_key) _ λ key _.
          Keeps-bind (run transfer_scope key f (run_saga ports cmd)) _
            (run-Keeps transfer_scope key f (run_saga ports cmd) (run_saga-Keeps cmd r))
            λ answer.
              lift_bind-Keeps (decode_transfer_result answer.0.payload) _
                λ result _. Keeps-pure (record result { replayed = answer.1 })

-- Whatever `Execute` answers to a command over a riyal amount within int64, and whatever calls fail
-- on the way, a sound ledger stays sound, when the two screens write nothing in the ledger's
-- tables.
pub execute-IsSound :
    (ports : Ports) (cmd : Command) (w : World)
    → ScreensAvoid ports
    → IsRiyals cmd.amount
    → IsSound w.db
    → IsSound (execute ports cmd w).1.db
execute-IsSound ports cmd w s r h =
    (execute-Keeps IsSound-writes ports
        (record {
          fraud = λ id m. Avoids-Keeps (s.fraud id m);
          compliance = λ iban name. Avoids-Keeps (s.compliance iban name);
        })
        cmd r).at
      w h
