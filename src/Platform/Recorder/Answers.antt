-- ===== src/Platform/Recorder/Answers.antt =====
-- The middleware and the handlers answer an error alike.
use mathlib.Core.List.{append-nil, append_assoc}
use banking_plateform.Base.{◌≡◌, refl, sym, ◌∙◌, ℕ, List, [], ◌∷◌, ◌++◌, Option, none, some, text}
use banking_plateform.Platform.HttpErrors.{status_for_error, status_for_code, write_error}
use banking_plateform.Platform.Recorder.{
  Sent, header, status, bytes, error_body, Recorder, new_recorder, Action, set_header, write_header,
  write, set_error, record_action, record_all, middleware_status, status_of_code, domain_error,
}
use banking_plateform.Shared.Errors.{
  Error, ErrorCode, as_domain_error, invalid_money, invalid_iban, insufficient_funds, not_found,
  conflict, request_in_progress, forbidden, validation, unbalanced_transaction,
  invalid_ledger_entry, invalid_account,
}

-- What actions send without the middleware, which has no use for a signalled error.
pub sends : List Action → List Sent
sends [] = []
sends (set_header k v ∷ actions) = header k v ∷ sends actions
sends (write_header n ∷ actions) = status n ∷ sends actions
sends (write p ∷ actions) = bytes p ∷ sends actions
sends (set_error e ∷ actions) = sends actions

-- What `WriteError` of the handlers sends.
pub error_sends : Error → List Sent
error_sends e =
    header (text "Content-Type") (text "application/json")
    ∷ status (write_error e).status
    ∷ error_body (write_error e).body
    ∷ []

recorded_sends :
    (actions : List Action) (r : Recorder) → (record_all actions r).sent ≡ r.sent ++ sends actions
unfolding record_all record_action sends
recorded_sends [] r = sym (append-nil r.sent)
recorded_sends (set_header k v ∷ actions) r =
    recorded_sends actions _ ∙ append_assoc r.sent (header k v ∷ []) (sends actions)
recorded_sends (write_header n ∷ actions) r =
    recorded_sends actions _ ∙ append_assoc r.sent (status n ∷ []) (sends actions)
recorded_sends (write p ∷ actions) r =
    recorded_sends actions _ ∙ append_assoc r.sent (bytes p ∷ []) (sends actions)
recorded_sends (set_error e ∷ actions) r = recorded_sends actions _

recorded_error :
    (actions : List Action) (e : Error) (r : Recorder)
    → record_all (actions ++ set_error e ∷ []) r ≡ record (record_all actions r) { error = some e }
unfolding record_all record_action
recorded_error [] e r = refl
recorded_error (a ∷ actions) e r = recorded_error actions e (record_action a r)

same_status : (c : ErrorCode) → status_of_code c ≡ status_for_code c
same_status invalid_money = refl
same_status invalid_iban = refl
same_status insufficient_funds = refl
same_status not_found = refl
same_status conflict = refl
same_status request_in_progress = refl
same_status forbidden = refl
same_status validation = refl
same_status unbalanced_transaction = refl
same_status invalid_ledger_entry = refl
same_status invalid_account = refl

middleware_status-same : (e : Error) → middleware_status e ≡ status_for_error e
unfolding middleware_status status_for_error
middleware_status-same e = go (as_domain_error e)
  where
    go :
        (o : Option ErrorCode)
        → ◌≡◌ {A = ℕ}
            (elim o [ none ↦ 500 | some c ↦ status_of_code c ])
            (elim o [ none ↦ 500 | some c ↦ status_for_code c ])
    go none = refl
    go (some c) = same_status c

-- An error that a handler signals behind what it has sent is answered by the middleware as
-- `WriteError` of the handlers answers it.
pub domain_error_answers :
    (actions : List Action) (e : Error)
    → domain_error (actions ++ set_error e ∷ []) ≡ sends actions ++ error_sends e
unfolding domain_error error_sends write_error
domain_error_answers actions e =
    rw
      (
        recorded_error actions e new_recorder,
        recorded_sends actions new_recorder,
        middleware_status-same e,
      )
      refl
