-- ===== src/Platform/Api.antt =====
-- cmd/api/main.go: the server that a configuration starts.
use banking_plateform.Base.{Str}
use banking_plateform.Shared.GoText.{Unicode}
use banking_plateform.Shared.Digest.{Digest}
use banking_plateform.Screening.Fraud as Fraud
use banking_plateform.Platform.Auth.{new_api_key_validator}
use banking_plateform.Platform.Config.{Config}
use banking_plateform.Platform.Http.{Reply, Handler}
use banking_plateform.Platform.Server.{Dependencies, serve}
use banking_plateform.Platform.Wiring.{api_ports}
use banking_plateform.Storage.{World}

-- What comes from outside: the Unicode tables, the digests, the embedded specification, the answer
-- of the metrics library, and the identifiers of the uuid library.
pub record Outside : Type 0 where
  pub unicode : Unicode
  pub digest : Digest
  pub openapi_spec : Str
  pub metrics : World → Reply
  pub new_id : World → Str

unfoldable pub fraud_config : {Rate : Type 0} → Config Rate → Fraud.Config
fraud_config cfg = record {
  max_single_halalas = cfg.fraud_max_single_halalas;
  max_hourly_transfers = cfg.fraud_max_hourly_transfers;
}

unfoldable pub dependencies : {Rate : Type 0} → Outside → Config Rate → Dependencies
dependencies out cfg = record {
  service_name = cfg.service_name;
  cors_allowed_origins = cfg.cors_allowed_origins;
  api_key_auth = new_api_key_validator cfg.auth_enabled cfg.api_keys;
  transfers = api_ports (fraud_config cfg) out.unicode out.digest;
  openapi_spec = out.openapi_spec;
  metrics = out.metrics;
  new_id = out.new_id;
}

-- The handler of the API's server.
unfoldable pub api : {Rate : Type 0} → Outside → Config Rate → Handler
api out cfg = serve (dependencies out cfg)
