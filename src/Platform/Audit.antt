-- ===== src/Platform/Audit.antt =====
-- internal/platform/audit/logger.go: the rows of the audit log; the metadata are three fields of it.
use banking_plateform.Base.{ℕ, List, Str}

pub data Method : Type 0 where
  get head post options : Method
  other : Str → Method

-- `Entry`; an empty text stands for SQL's NULL, as `null` writes it.
pub record AuditEntry : Type 0 where
  pub request_id : Str
  pub action : Str
  pub actor : Str
  pub resource_type : Str
  pub resource_id : Str
  pub method : Method
  pub path : List Str
  pub status : ℕ
