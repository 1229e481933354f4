-- ===== src/Transfer/Service/Twice.antt =====
-- The same command, executed twice.
use banking_plateform.Base.{
  ◌≡◌, refl, sym, ap, subst, ◌∙◌, [], Str, true, not, ℕ, ◌||◌, Bool, arith,
}
use banking_plateform.Idempotency.Guard.{run}
use banking_plateform.Idempotency.Guard.Replay.{run_twice}
use banking_plateform.Idempotency.Key.{parse_key, saga_id_from_key}
use banking_plateform.Idempotency.Record.{Outcome}
use banking_plateform.Ledger.Repository.{get_account}
use banking_plateform.Shared.Errors.{ok_injective, Result, ok, domain, validation}
use banking_plateform.Shared.Money.{Money}
use banking_plateform.Storage.{World}
use banking_plateform.Storage.Calls.{bind_ok_rest}
use banking_plateform.Storage.Monad.{M, lift}
use banking_plateform.Storage.Idles.{
  Idles, Idles-pure, Idles-lift, Idles-when, Idles-call_annotated, Idles-bind,
}
use banking_plateform.Transfer.Codec.{decode_transfer_result, encode_transfer_result}
use banking_plateform.Transfer.Command.{
  Command, TransferResult, transfer_scope, validate, fingerprint, command_transaction_id,
  transfer_posted_event,
}
use banking_plateform.Transfer.Coordinator.{post_transfer}
use banking_plateform.Transfer.Coordinator.Idle.{post_transfer-Idles}
use banking_plateform.Transfer.Service.{
  Ports, screen, check_accounts, is_liability, post, run_saga, execute, transfer_journal, describe,
  posted_result, commit_of,
}

-- The screens leave the Redis records of the guard alone, and the surroundings quiet.
pub record ScreensIdle (ports : Ports) : Type 0 where
  pub fraud : (id : Str) (m : Money) → Idles (ports.fraud id m)
  pub compliance : (iban name : Str) → Idles (ports.compliance iban name)

get_account-Idles : (id : Str) → Idles (get_account id)
unfolding get_account
get_account-Idles id = record { at = λ w q. ground (arith, Idles-call_annotated.at w q) }

module _ (ports : Ports) (s : ScreensIdle ports) (cmd : Command) where
  screen-Idles : Idles (screen ports cmd)
  unfolding screen
  screen-Idles =
      Idles-bind (ports.fraud cmd.from_account_id cmd.amount) _ (s.fraud _ _) λ _. s.compliance _ _

  check_accounts-Idles : Idles (check_accounts ports cmd)
  unfolding check_accounts
  check_accounts-Idles =
      Idles-bind (get_account cmd.from_account_id) _ (get_account-Idles cmd.from_account_id) λ from.
        Idles-bind (get_account cmd.to_account_id) _ (get_account-Idles cmd.to_account_id) λ to.
          Idles-when (not (is_liability from.typ) || not (is_liability to.typ)) (domain validation)

  post-Idles : (now : ℕ) → Idles (post ports now cmd)
  unfolding post
  post-Idles now =
      Idles-bind (lift (command_transaction_id ports.digest cmd)) _
        (Idles-lift (command_transaction_id ports.digest cmd))
        λ tx_id.
          Idles-bind (lift (transfer_journal now tx_id (describe cmd) cmd)) _
            (Idles-lift (transfer_journal now tx_id (describe cmd) cmd))
            λ tx.
              let result =
                posted_result (saga_id_from_key ports.digest.of_text cmd.idempotency_key) tx_id
                  cmd in
              Idles-bind (lift (transfer_posted_event now cmd result)) _
                (Idles-lift (transfer_posted_event now cmd result))
                λ event.
                  Idles-bind (post_transfer (commit_of now cmd result tx event)) _
                    (post_transfer-Idles (commit_of now cmd result tx event))
                    λ _.
                      Idles-pure
                        (record { resource_id = tx_id; payload = encode_transfer_result result })

  pub run_saga-Idles : Idles (run_saga ports cmd)
  unfolding run_saga
  run_saga-Idles = record {
    at = λ w q.
        (Idles-bind (screen ports cmd) _ screen-Idles λ _.
            Idles-bind (check_accounts ports cmd) _ check_accounts-Idles λ _. post-Idles w.now).at
          w q;
  }

-- A call of `Execute` whose guard answers.
execute_answers :
    (ports : Ports) (cmd : Command) (w v : World) (key : Str) (o : Outcome) (c : Bool)
    (result : TransferResult)
    → validate ports.unicode cmd ≡ ok tt
    → parse_key cmd.idempotency_key ≡ ok key
    → run transfer_scope key (fingerprint ports.unicode ports.digest cmd) (run_saga ports cmd) w
      ≡ (ok (o, c), v)
    → decode_transfer_result o.payload ≡ ok result
    → execute ports cmd w ≡ (ok (record result { replayed = c }), v)
unfolding execute
execute_answers ports cmd w v key o c result a b r d = rw (a, b, r, d) refl

pair_of : {A : Type 0} (p : Result A × World) {a : A} → p.0 ≡ ok a → p ≡ (ok a, p.1)
pair_of p e = ap (λ r. (r, p.1)) e

-- What lies behind an answer of `Execute`.
record Answered (ports : Ports) (cmd : Command) (w : World) (t : TransferResult) : Type 0 where
  key : Str
  outcome : Outcome
  flag : Bool
  result : TransferResult
  valid : validate ports.unicode cmd ≡ ok tt
  parsed : parse_key cmd.idempotency_key ≡ ok key
  ran :
      (run transfer_scope key (fingerprint ports.unicode ports.digest cmd) (run_saga ports cmd) w).0
      ≡ ok (outcome, flag)
  decoded : decode_transfer_result outcome.payload ≡ ok result
  answer : t ≡ record result { replayed = flag }

execute-Answered :
    (ports : Ports) (cmd : Command) (w : World) (t : TransferResult)
    → (execute ports cmd w).0 ≡ ok t
    → Answered ports cmd w t
unfolding execute
execute-Answered ports cmd w t h =
    let guarded : Str → M (Outcome × Bool) = λ key.
      run transfer_scope key (fingerprint ports.unicode ports.digest cmd) (run_saga ports cmd) in
    let (u, e1, h1) = bind_ok_rest (lift (validate ports.unicode cmd)) _ w h in
    let (key, e2, h2) = bind_ok_rest (lift (parse_key cmd.idempotency_key)) _ w h1 in
    let (a, e3, h3) = bind_ok_rest (guarded key) _ w h2 in
    let (result, e4, h4) =
      bind_ok_rest (lift (decode_transfer_result a.0.payload)) _ (guarded key w).1 h3 in
    record {
      key = key;
      outcome = a.0;
      flag = a.1;
      result = result;
      valid = e1;
      parsed = e2;
      ran = e3;
      decoded = e4;
      answer = sym (ok_injective h4);
    }

-- When `Execute` has answered a result, the same command gets the same result, marked as replayed,
-- and changes nothing, neither in the tables nor in Redis. The surroundings are quiet, and the
-- screens leave them and the guard's records alone.
pub execute_twice :
    (ports : Ports) (cmd : Command) (w : World) (t : TransferResult)
    → ScreensIdle ports
    → w.script ≡ []
    → (execute ports cmd w).0 ≡ ok t
    → execute ports cmd (execute ports cmd w).1
      ≡ (ok (record t { replayed = true }), (execute ports cmd w).1)
execute_twice ports cmd w t s q h =
    let a = execute-Answered ports cmd w t h in
    let f = fingerprint ports.unicode ports.digest cmd in
    let saga = run_saga ports cmd in
    let guarded = run transfer_scope a.key f saga in
    let v = (guarded w).1 in
    let first =
      execute_answers ports cmd w v a.key a.outcome a.flag a.result a.valid a.parsed
        (pair_of (guarded w) a.ran) a.decoded in
    let again =
      execute_answers ports cmd v v a.key a.outcome true a.result a.valid a.parsed
        (run_twice transfer_scope a.key f saga saga w a.outcome a.flag
          (run_saga-Idles ports s cmd).at q a.ran)
        a.decoded in
    subst (λ x. execute ports cmd x ≡ (ok (record t { replayed = true }), x))
      (ap (λ p. p.1) (sym first))
      (again ∙ ap (λ r. (ok (record r { replayed = true }), v)) (sym a.answer))
