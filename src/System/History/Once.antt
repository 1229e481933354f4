-- ===== src/System/History/Once.antt =====
-- An idempotency key posts one transfer in the whole life of the system.
use banking_plateform.Base.{
  ◌≡◌, refl, sym, ap, subst, ◌∙◌, Bool, true, false, List, Str, ℕ, Bool-cases, inl, inr, arith,
}
use banking_plateform.Idempotency.Guard.{run}
use banking_plateform.Idempotency.Guard.Fresh.{run-New}
use banking_plateform.Idempotency.Record.{Outcome}
use banking_plateform.Idempotency.Key.{parse_key, saga_id_from_key}
use banking_plateform.Ledger.Repository.{get_account}
use banking_plateform.Platform.Handlers.{create_transfer, command_of_request}
use banking_plateform.Platform.Twice.{created, create_transfer-Posted, create_transfer_answers}
use banking_plateform.Platform.Wiring.{api_ports, api_ports-ScreensKeep}
use banking_plateform.Screening.Fraud.{Config}
use banking_plateform.Shared.Digest.{Digest}
use banking_plateform.Shared.Errors.{Result, ok, err, ok_injective}
use banking_plateform.Shared.GoText.{Unicode}
use banking_plateform.Shared.Json.{Json}
use banking_plateform.Storage.{Db, World}
use banking_plateform.Storage.Calls.{bind_ok}
use banking_plateform.Storage.Keeps.{Keeps-bind, Keeps-pure}
use banking_plateform.Storage.Marks.{Marks, Marks-behind, Marks-before}
use banking_plateform.Storage.Monad.{M, lift, pure, ◌>>=◌}
use banking_plateform.System.Interleaved.{Interleaved, Interleaved-IsLater}
use banking_plateform.Transfer.Codec.{encode_transfer_result, decode_transfer_result}
use banking_plateform.Transfer.Command.{
  Command, TransferResult, transfer_scope, validate, fingerprint, command_transaction_id,
  transfer_posted_event,
}
use banking_plateform.Transfer.Coordinator.{post_transfer}
use banking_plateform.Transfer.Service.{
  Ports, screen, check_accounts, post, run_saga, execute, commit_of, transfer_journal, describe,
  posted_result,
}
use banking_plateform.Transfer.Service.Sound.{get_account-db, ScreensKeep}
use banking_plateform.System.History.Taken.{Free, Taken, later-Taken, post_transfer-Marks}

check_accounts-db :
    (ports : Ports) (cmd : Command) (w : World) → (check_accounts ports cmd w).1.db ≡ w.db
unfolding check_accounts
check_accounts-db ports cmd w = ground (
  arith,
  get_account-db cmd.from_account_id w,
  get_account-db cmd.to_account_id (get_account cmd.from_account_id w).1,
)

-- The screens write in no table.
abbrev Blind : Ports → Type 1
Blind ports = (P : Db → Type 0) → ScreensKeep P ports

module _ (ports : Ports) (blind : Blind ports) (cmd : Command) where
  screen-db : (w : World) → (screen ports cmd w).1.db ≡ w.db
  unfolding screen
  screen-db w =
      let s = blind (λ db. db ≡ w.db) in
      (Keeps-bind (ports.fraud cmd.from_account_id cmd.amount) _
          (s.fraud cmd.from_account_id cmd.amount)
          λ _. s.compliance cmd.beneficiary_iban cmd.beneficiary_name).at
        w refl

  post-Marks :
      (now : ℕ) → Marks (Free cmd.idempotency_key) (Taken cmd.idempotency_key) (post ports now cmd)
  unfolding post commit_of
  post-Marks now =
      Marks-behind (lift (command_transaction_id ports.digest cmd)) _ (λ w. refl)
        λ tx_id.
          Marks-behind (lift (transfer_journal now tx_id (describe cmd) cmd)) _ (λ w. refl)
            λ tx.
              let result =
                posted_result (saga_id_from_key ports.digest.of_text cmd.idempotency_key) tx_id
                  cmd in
              Marks-behind (lift (transfer_posted_event now cmd result)) _ (λ w. refl)
                λ event.
                  Marks-before (post_transfer (commit_of now cmd result tx event)) _
                    (post_transfer-Marks (commit_of now cmd result tx event))
                    λ _.
                      Keeps-pure
                        (record { resource_id = tx_id; payload = encode_transfer_result result })

  run_saga-Marks : Marks (Free cmd.idempotency_key) (Taken cmd.idempotency_key) (run_saga ports cmd)
  unfolding run_saga
  run_saga-Marks = record {
    at = λ w e.
        (Marks-behind (screen ports cmd) _ screen-db λ _.
            Marks-behind (check_accounts ports cmd) _ (check_accounts-db ports cmd)
              λ _. post-Marks w.now).at
          w e;
  }

-- An answer that is no replay was given on tables without a saga of the key, and has left one.
abbrev New : Str → M TransferResult → Type 0
New key m =
    (w : World) (t : TransferResult)
    → (m w).0 ≡ ok t
    → t.replayed ≡ false
    → Free key w.db × Taken key (m w).1.db

lift_bind-New :
    {A : Type 0} (key : Str) (r : Result A) (f : A → M TransferResult)
    → ((a : A) → New key (f a))
    → New key (lift r >>= f)
lift_bind-New key (ok a) f k = k a
lift_bind-New key (err x) f k = λ w t e n. cc

-- What `Execute` makes of the guard's answer.
abbrev answered : Outcome × Bool → M TransferResult
answered answer = lift (decode_transfer_result answer.0.payload) >>= λ result.
    pure (record result { replayed = answer.1 })

answered_mark :
    (answer : Outcome × Bool) (w : World) (t : TransferResult)
    → (answered answer w).0 ≡ ok t
    → (answer.1 ≡ t.replayed) × ((answered answer w).1.db ≡ w.db)
answered_mark answer w t e = go (decode_transfer_result answer.0.payload) e
  where
    go :
        (r : Result TransferResult)
        → ((lift r >>= λ x. pure (record x { replayed = answer.1 })) w).0 ≡ ok t
        → (answer.1 ≡ t.replayed)
          × (((lift r >>= λ x. pure (record x { replayed = answer.1 })) w).1.db ≡ w.db)
    go (ok x) h = (ap (λ y. y.replayed) (ok_injective h), refl)
    go (err x) h = cc

module _ (ports : Ports) (blind : Blind ports) (cmd : Command) where
  guarded-New :
      (key : Str)
      → New cmd.idempotency_key (
          run transfer_scope key (fingerprint ports.unicode ports.digest cmd) (run_saga ports cmd)
          >>= answered)
  guarded-New key w t e n =
      let f = fingerprint ports.unicode ports.digest cmd in
      let guard = run transfer_scope key f (run_saga ports cmd) in
      let (a, q, step) = bind_ok guard answered w e in
      let (mark, same) = answered_mark a (guard w).1 t (ap (λ r. r.0) (sym step) ∙ e) in
      let (free, taken) =
        run-New transfer_scope key f (run_saga ports cmd) (run_saga-Marks ports blind cmd) w a q
          (mark ∙ n) in
      (
        free,
        subst (λ r. Taken cmd.idempotency_key r.1.db) (sym step)
            (subst (Taken cmd.idempotency_key) (sym same) taken),
      )

  execute-New : New cmd.idempotency_key (execute ports cmd)
  unfolding execute
  execute-New =
      lift_bind-New cmd.idempotency_key (validate ports.unicode cmd) _
        λ _. lift_bind-New cmd.idempotency_key (parse_key cmd.idempotency_key) _ guarded-New

command_key :
    (key : Str) (fs : List (Str × Str)) (cmd : Command)
    → command_of_request key fs ≡ ok cmd
    → cmd.idempotency_key ≡ key
unfolding command_of_request
command_key key fs cmd e = ground arith

-- A transfer that is answered as new.
create_transfer-New :
    (cfg : Config) (u : Unicode) (d : Digest) (key : Str) (body : Json) (w : World)
    (t : TransferResult)
    → (create_transfer (api_ports cfg u d) key body w).0 ≡ created t
    → t.replayed ≡ false
    → Free key w.db × Taken key (create_transfer (api_ports cfg u d) key body w).1.db
create_transfer-New cfg u d key body w t h n =
    let a = create_transfer-Posted cfg u d key body w t h in
    let ports = api_ports cfg u d in
    let v = (execute ports a.cmd w).1 in
    let same =
      create_transfer_answers cfg u d key body w v a.fs a.cmd t a.decoded a.read
        (ap (λ r. (r, v)) a.executed) in
    let (free, taken) =
      execute-New ports (λ P. api_ports-ScreensKeep cfg u d) a.cmd w t a.executed n in
    let named = command_key key a.fs a.cmd a.read in
    (
      subst (λ k. Free k w.db) named free,
      subst (λ r. Taken key r.1.db) (sym same) (subst (λ k. Taken k v.db) named taken),
    )

-- In the whole life of the system an idempotency key posts one transfer. When `POST /v1/transfers`
-- has answered a transfer that is no replay, then after whatever interleaved writes of other
-- clients and workers, and whatever becomes of Redis, a transfer that is answered under the same
-- key, whatever the request, is a replay.
pub one_transfer_per_key :
    (w v : World) (cfg : Config) (u : Unicode) (d : Digest) (key : Str) (body again : Json)
    (t t' : TransferResult)
    → (create_transfer (api_ports cfg u d) key body w).0 ≡ created t
    → t.replayed ≡ false
    → Interleaved (create_transfer (api_ports cfg u d) key body w).1.db v.db
    → (create_transfer (api_ports cfg u d) key again v).0 ≡ created t'
    → t'.replayed ≡ true
one_transfer_per_key w v cfg u d key body again t t' h n after h' =
    let x = (create_transfer (api_ports cfg u d) key body w).1 in
    let taken = (create_transfer-New cfg u d key body w t h n).1 in
    let still = later-Taken key x.db v.db (Interleaved-IsLater after) taken in
    elim (Bool-cases t'.replayed) [
      | inl e ↦ e
      | inr e ↦ let free = (create_transfer-New cfg u d key again v t' h' e).0 in cc
    ]
