-- ===== src/Shared/Digest.antt =====
-- The digests that the program takes, `sha256` behind `hex`: they are not computed here.
use banking_plateform.Base.{Str}
use banking_plateform.Shared.Json.{Json}

pub record Digest : Type 0 where
  pub of_text : Str → Str
  pub of_json : Json → Str
