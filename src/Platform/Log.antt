-- ===== src/Platform/Log.antt =====
-- internal/platform/audit/logger.go: the writing of the audit log.
use banking_plateform.Base.{◌++◌, [], ◌∷◌}
use banking_plateform.Platform.Audit.{AuditEntry}
use banking_plateform.Storage.Monad.{M, call, modify_db, ◌>>◌}

-- `Logger.Log`
unfoldable pub log_entry : AuditEntry → M (Unit {0})
log_entry entry = do call; modify_db (λ db. record db { audit = db.audit ++ entry ∷ [] })
