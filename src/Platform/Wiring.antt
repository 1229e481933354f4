-- ===== src/Platform/Wiring.antt =====
-- cmd/api/main.go: the transfer service that the API runs.
use banking_plateform.Base.{◌≡◌, refl, ap, Str, arith}
use banking_plateform.Shared.GoText.{Unicode}
use banking_plateform.Shared.Digest.{Digest}
use banking_plateform.Screening.Fraud.{Config, new_checker, increment}
use banking_plateform.Screening.Fraud as Fraud
use banking_plateform.Screening.Compliance as Compliance
use banking_plateform.Storage.Monad.{lift}
use banking_plateform.Storage.Calls.{call_annotated-db}
use banking_plateform.Shared.Money.{Money}
use banking_plateform.Storage.{Db, World}
use banking_plateform.Storage.Keeps.{Keeps-same}
use banking_plateform.Transfer.Service.{Ports}
use banking_plateform.Transfer.Service.Sound.{ScreensAvoid, ScreensKeep}

unfoldable pub api_ports : Config → Unicode → Digest → Ports
api_ports cfg u d = record {
  fraud = Fraud.check (new_checker cfg);
  compliance = λ iban name. lift (Compliance.check u iban name);
  unicode = u;
  digest = d;
}

fraud-db : (c : Config) (id : Str) (m : Money) (w : World) → (Fraud.check c id m w).1.db ≡ w.db
unfolding Fraud.check increment
fraud-db c id m w = ground (arith, call_annotated-db w)

-- The screens of the API write in no table.
pub api_ports-ScreensKeep :
    {P : Db → Type 0} (cfg : Config) (u : Unicode) (d : Digest) → ScreensKeep P (api_ports cfg u d)
unfolding api_ports
api_ports-ScreensKeep cfg u d = record {
  fraud = λ id m. Keeps-same _ (fraud-db (new_checker cfg) id m);
  compliance = λ iban name. Keeps-same _ (λ w. refl);
}

pub api_ports-ScreensAvoid :
    (cfg : Config) (u : Unicode) (d : Digest) → ScreensAvoid (api_ports cfg u d)
unfolding api_ports
api_ports-ScreensAvoid cfg u d = record {
  fraud = λ id m. record {
    at = λ w.
        let same = fraud-db (new_checker cfg) id m w in
        record { entries = ap (λ db. db.entries) same; accounts = ap (λ db. db.accounts) same };
  };
  compliance = λ iban name. record { at = λ w. record { entries = refl; accounts = refl } };
}
