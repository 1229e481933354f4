-- ===== src/Tests/Racing.antt =====
-- Two clients of one key.
use banking_plateform.Base.{◌+◌, ◌≤◌, refl, [], Str, text}
use banking_plateform.Idempotency.Guard.Race.{
  Race, Reach, client, read, grab, operate, start, later, idle, update, owner, missing, ended,
  weight,
}
use banking_plateform.Idempotency.Guard.Race.Invariant.{one_final_outcome}
use banking_plateform.Idempotency.Record.{Outcome}
use banking_plateform.Idempotency.Store.{cached, get, try_acquire}
use banking_plateform.Shared.Errors.{ok, is_domain_code}
use banking_plateform.Shared.Json.{object}
use banking_plateform.Storage.Monad.{M, pure, call, call_annotated}
use banking_plateform.Tests.Books.{quiet_world}

abbrev scope : Str
scope = text "transfer"

abbrev key : Str
key = text "key-0001"

abbrev outcome : Outcome
outcome = record { resource_id = text "tx-1"; payload = object [] }

abbrev operation : M Outcome
operation = pure outcome

-- The first client has read, and found no record.
abbrev looked : Race
looked = record {
  world = (get scope key quiet_world).1;
  pc = update (λ _. idle) 0 missing;
  finals = 0 + 0;
}

-- It has acquired the key.
abbrev acquired : Race
acquired = record {
  world = (try_acquire scope key (text "fp") looked.world).1;
  pc = update looked.pc 0 owner;
  finals = looked.finals + 0;
}

-- It has run its operation.
abbrev finished : Race
finished = record {
  world = acquired.world;
  pc = update acquired.pc 0 (ended (ok outcome));
  finals = acquired.finals + weight (ok outcome);
}

finished-Reach : Reach scope key quiet_world finished
unfolding get call_annotated call cached is_domain_code try_acquire
finished-Reach =
    later (later (later start (client 0 read)) (client 0 (grab (text "fp"))))
      (client 0 (operate operation tt refl))

one_final_outcome_example : finished.finals ≤ 1
one_final_outcome_example = one_final_outcome scope key tt finished-Reach
