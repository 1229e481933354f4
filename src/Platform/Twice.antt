-- ===== src/Platform/Twice.antt =====
-- The same transfer, posted twice.
use banking_plateform.Base.{◌≡◌, refl, sym, ap, subst, List, [], Str, true, inr, arith}
use banking_plateform.Platform.Handlers.{
  Answer, as_answer, create_transfer, command_of_request, decode_body,
}
use banking_plateform.Platform.Wiring.{api_ports}
use banking_plateform.Screening.Fraud.{Config, new_checker, increment}
use banking_plateform.Screening.Fraud as Fraud
use banking_plateform.Shared.Digest.{Digest}
use banking_plateform.Shared.Errors.{Result, ok, err}
use banking_plateform.Shared.GoText.{Unicode}
use banking_plateform.Shared.Json.{Json}
use banking_plateform.Shared.Money.{Money}
use banking_plateform.Storage.{World}
use banking_plateform.Storage.Calls.{bind_ok_rest}
use banking_plateform.Storage.Idles.{Idles, Idles-lift, Idles-call_annotated}
use banking_plateform.Storage.Monad.{M, lift, ◌>>=◌}
use banking_plateform.Transfer.Command.{Command, TransferResult}
use banking_plateform.Transfer.Service.{execute}
use banking_plateform.Transfer.Service.Twice.{ScreensIdle, execute_twice}

fraud-Idles : (c : Config) (id : Str) (m : Money) → Idles (Fraud.check c id m)
unfolding Fraud.check increment
fraud-Idles c id m = record { at = λ w q. ground (arith, Idles-call_annotated.at w q) }

pub api_ports-ScreensIdle :
    (cfg : Config) (u : Unicode) (d : Digest) → ScreensIdle (api_ports cfg u d)
unfolding api_ports
api_ports-ScreensIdle cfg u d = record {
  fraud = fraud-Idles (new_checker cfg);
  compliance = λ iban name. Idles-lift _;
}

abbrev pub created : TransferResult → Answer TransferResult
created t = record { status = 201; body = inr t }

pub created_only :
    (r : Result TransferResult) (t : TransferResult) → as_answer 201 r ≡ created t → r ≡ ok t
created_only (ok a) t h = cc
created_only (err e) t h = cc

-- The endpoint, once the request is read.
pub create_transfer_answers :
    (cfg : Config) (u : Unicode) (d : Digest) (key : Str) (body : Json) (w v : World)
    (fs : List (Str × Str)) (cmd : Command) (t : TransferResult)
    → decode_body body ≡ ok fs
    → command_of_request key fs ≡ ok cmd
    → execute (api_ports cfg u d) cmd w ≡ (ok t, v)
    → create_transfer (api_ports cfg u d) key body w ≡ (created t, v)
unfolding create_transfer
create_transfer_answers cfg u d key body w v fs cmd t a b e = rw (a, b, e) refl

-- What lies behind a transfer that was created.
pub record Posted (cfg : Config) (u : Unicode) (d : Digest) (key : Str) (body : Json) (w : World)
    (t : TransferResult) : Type 0 where
  pub fs : List (Str × Str)
  pub cmd : Command
  pub decoded : decode_body body ≡ ok fs
  pub read : command_of_request key fs ≡ ok cmd
  pub executed : (execute (api_ports cfg u d) cmd w).0 ≡ ok t

pub create_transfer-Posted :
    (cfg : Config) (u : Unicode) (d : Digest) (key : Str) (body : Json) (w : World)
    (t : TransferResult)
    → (create_transfer (api_ports cfg u d) key body w).0 ≡ created t
    → Posted cfg u d key body w t
unfolding create_transfer
create_transfer-Posted cfg u d key body w t h =
    let ports = api_ports cfg u d in
    let rest : List (Str × Str) → M TransferResult =
      λ fs. lift (command_of_request key fs) >>= execute ports in
    let answer = created_only ((lift (decode_body body) >>= rest) w).0 t h in
    let (fs, a, h1) = bind_ok_rest (lift (decode_body body)) rest w answer in
    let (cmd, b, h2) = bind_ok_rest (lift (command_of_request key fs)) (execute ports) w h1 in
    record { fs = fs; cmd = cmd; decoded = a; read = b; executed = h2 }

-- When `POST /v1/transfers` has created a transfer, the same request under the same key is answered
-- with the same transfer, marked as replayed, and changes nothing, neither in the tables nor in
-- Redis: no money moves twice. The surroundings are quiet.
pub create_transfer_twice :
    (cfg : Config) (u : Unicode) (d : Digest) (key : Str) (body : Json) (w : World)
    (t : TransferResult)
    → w.script ≡ []
    → (create_transfer (api_ports cfg u d) key body w).0 ≡ created t
    → create_transfer
        (api_ports cfg u d)
        key
        body
        (create_transfer (api_ports cfg u d) key body w).1
      ≡ (created (record t { replayed = true }), (create_transfer (api_ports cfg u d) key body w).1)
create_transfer_twice cfg u d key body w t q h =
    let a = create_transfer-Posted cfg u d key body w t h in
    let ports = api_ports cfg u d in
    let v = (execute ports a.cmd w).1 in
    let first =
      create_transfer_answers cfg u d key body w v a.fs a.cmd t a.decoded a.read
        (ap (λ r. (r, v)) a.executed) in
    subst (λ x. create_transfer ports key body x ≡ (created (record t { replayed = true }), x))
      (ap (λ p. p.1) (sym first))
      (create_transfer_answers cfg u d key body v v a.fs a.cmd (record t { replayed = true })
        a.decoded a.read
        (execute_twice ports a.cmd w t (api_ports-ScreensIdle cfg u d) q a.executed))
