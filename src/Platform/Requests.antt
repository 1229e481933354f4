-- ===== src/Platform/Requests.antt =====
-- What the HTTP endpoints leave behind.
use banking_plateform.Base.{◌≡◌, List, text, Str, arith}
use banking_plateform.Shared.Errors.{ok}
use banking_plateform.Shared.GoText.{Unicode}
use banking_plateform.Shared.Digest.{Digest}
use banking_plateform.Shared.Json.{Json, field}
use banking_plateform.Shared.Money.Range.{IsRiyals, parse_sar-IsRiyals}
use banking_plateform.Ledger.Repository.Invariant.{IsSound}
use banking_plateform.Screening.Fraud.{Config}
use banking_plateform.Storage.{Db, World}
use banking_plateform.Transfer.Command.{Command}
use banking_plateform.Transfer.Service.Sound.{execute-Keeps}
use banking_plateform.Storage.Keeps.{lift_bind-Keeps}
use banking_plateform.Transfer.Writes.{Writes, IsSound-writes}
use banking_plateform.Transfer.Saga.{SettlementRecord}
use banking_plateform.Platform.Handlers.{create_transfer, command_of_request, decode_body}
use banking_plateform.Platform.Wiring.{api_ports, api_ports-ScreensKeep}

command_of_request-IsRiyals :
    (key : Str) (fs : List (Str × Str)) (cmd : Command)
    → command_of_request key fs ≡ ok cmd
    → IsRiyals cmd.amount
unfolding command_of_request
command_of_request-IsRiyals key fs cmd e =
    ground (arith, parse_sar-IsRiyals (field (text "amount") fs) cmd.amount)

-- The endpoint keeps what the writes of a transfer keep.
pub create_transfer-Keeps :
    {P : Db → Type 0} {Allowed : SettlementRecord → Type 0} (k : Writes P Allowed) (cfg : Config)
    (u : Unicode) (d : Digest) (key : Str) (body : Json) (w : World)
    → P w.db
    → P (create_transfer (api_ports cfg u d) key body w).1.db
unfolding create_transfer
create_transfer-Keeps k cfg u d key body w h =
    (lift_bind-Keeps (decode_body body) _ λ fs _.
        lift_bind-Keeps (command_of_request key fs) _ λ cmd e.
          execute-Keeps k (api_ports cfg u d) (api_ports-ScreensKeep cfg u d) cmd
            (command_of_request-IsRiyals key fs cmd e)).at
      w h

-- Whatever a client posts to `/v1/transfers`, whatever the answer, and whatever calls fail on the
-- way: when the ledger was sound, its stored lines stay well formed, its books tie and no account
-- is overdrawn.
pub create_transfer-IsSound :
    (cfg : Config) (u : Unicode) (d : Digest) (key : Str) (body : Json) (w : World)
    → IsSound w.db
    → IsSound (create_transfer (api_ports cfg u d) key body w).1.db
create_transfer-IsSound cfg u d key body w h =
    create_transfer-Keeps IsSound-writes cfg u d key body w h
