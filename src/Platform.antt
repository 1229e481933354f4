-- ===== src/Platform.antt =====
-- internal/platform: the HTTP layer and API keys; internal/ledger/app: the ledger's service.
pub mod Audit
pub mod Http
pub mod Log
pub mod Auth
pub mod Middleware
pub mod Views
pub mod Server
pub mod HttpErrors
pub mod Poster
pub mod Handlers
pub mod Wiring
pub mod Requests
pub mod Twice
pub mod Config
pub mod Worker
pub mod Api
pub mod Connect
pub mod Recorder
pub mod Migrate
pub mod Start
