-- ===== src/Platform/Start.antt =====
-- cmd/api/main.go, cmd/worker/main.go and cmd/migrate/main.go: what each command does before and
-- after its work. What the libraries answer is an argument; logging is not modelled.
use banking_plateform.Base.{ℕ, List, [], ◌∷◌, Str, text, str_eq, if◌then◌else◌}
use banking_plateform.Platform.Config.{Config, Env, load}
use banking_plateform.Platform.Connect.{Pgx, new_pool, ping, new_client, ClientOptions}
use banking_plateform.Platform.Migrate.{Library, run_migrations, reset_migrations}
use banking_plateform.Platform.Worker.{Runner, new_runner}
use banking_plateform.Shared.Errors.{Error, Result, ok, err, annotated}

-- A command exits with a status, or goes on to its work.
pub data Start (Work : Type 0) : Type 0 where
  exits : ℕ → Start Work
  works : Work → Start Work

-- A command that ends with an error exits with status 1.
abbrev pub exit_of : Result (Unit {0}) → ℕ
exit_of (ok _) = 0
exit_of (err e) = 1

-- What is outside: the parser of the rate and its default, pgxpool, the answer of Redis to PING, and
-- the migrate library.
pub record Libraries (Rate Parsed Pool Schema : Type 0) : Type 0 where
  pub parse_float : Str → Result Rate
  pub default_rate : Rate
  pub pgx : Pgx Parsed Pool
  pub redis : ClientOptions → Result (Unit {0})
  pub migrations : Library Schema

module _ {Rate Parsed Pool Schema : Type 0} (libs : Libraries Rate Parsed Pool Schema) where
  abbrev pub loaded : Env → Result (Config Rate)
  loaded env = load libs.parse_float libs.default_rate env

  -- `if cfg.AutoMigrate`
  unfoldable pub auto_migrated : Config Rate → Schema → Result (Unit {0}) × Schema
  auto_migrated cfg s =
      if cfg.auto_migrate then run_migrations libs.migrations cfg.postgres_dsn s else (ok tt, s)

  -- What an answer of the migrations leads to.
  abbrev pub migrated_or_exit :
      {Work : Type 0} → Result (Unit {0}) × Schema → Start Work → Start Work × Schema
  migrated_or_exit (ok _, s) next = (next, s)
  migrated_or_exit (err e, s) next = (exits 1, s)

  -- The pool and the migrations, with which both servers start.
  abbrev pub connected_or_exit :
      {Work : Type 0} → Result Pool → Config Rate → Schema → Start Work → Start Work × Schema
  connected_or_exit (ok pool) cfg s next = migrated_or_exit (auto_migrated cfg s) next
  connected_or_exit (err e) cfg s next = (exits 1, s)

  abbrev pub or_exit : {A Work : Type 0} → Result A → (A → Work) → Start Work
  or_exit (ok a) f = works (f a)
  or_exit (err e) f = exits 1

  abbrev pub api_of : Result (Config Rate) → Schema → Start (Config Rate) × Schema
  api_of (ok cfg) s =
      connected_or_exit (new_pool libs.pgx cfg.postgres_dsn) cfg s
        (or_exit (ping libs.redis (new_client cfg.redis_addr)) (λ _. cfg))
  api_of (err e) s = (exits 1, s)

  -- `main` of cmd/api up to the server, which works with the configuration.
  unfoldable pub start_api : Env → Schema → Start (Config Rate) × Schema
  start_api env s = api_of (loaded env) s

  abbrev pub worker_of : Result (Config Rate) → Schema → Start Runner × Schema
  worker_of (ok cfg) s =
      connected_or_exit (new_pool libs.pgx cfg.postgres_dsn) cfg s
        (or_exit (new_runner cfg) (λ runner. runner))
  worker_of (err e) s = (exits 1, s)

  -- `main` of cmd/worker up to the run of its loops.
  unfoldable pub start_worker : Env → Schema → Start Runner × Schema
  start_worker env s = worker_of (loaded env) s

  abbrev pub migrate_with : Result (Config Rate) → List Str → Schema → ℕ × Schema
  migrate_with (err e) args s = (1, s)
  migrate_with (ok cfg) [] s = (1, s)
  migrate_with (ok cfg) (arg ∷ args) s =
      let (u, up) = run_migrations libs.migrations cfg.postgres_dsn s in
      let (d, down) = reset_migrations libs.migrations cfg.postgres_dsn s in
      if str_eq arg (text "up")
      then (exit_of u, up)
      else if str_eq arg (text "down")
      then (exit_of d, down)
      else (1, s)

  -- `main` of cmd/migrate, with the arguments behind the command's name: its exit status.
  unfoldable pub migrate : Env → List Str → Schema → ℕ × Schema
  migrate env args s = migrate_with (loaded env) args s

-- What `ListenAndServe` of net/http answers: nil, `ErrServerClosed`, or another error.
pub data Served : Type 0 where
  ended closed : Served
  broken : Error → Served

-- `ListenAndServe` of the server.
unfoldable pub listen_and_serve : Served → Result (Unit {0})
listen_and_serve ended = ok tt
listen_and_serve closed = ok tt
listen_and_serve (broken e) = err (annotated e)

-- What ends the API's server: a signal, with the answer of `Shutdown`, or the answer of
-- `ListenAndServe`.
pub data Stop : Type 0 where
  signal : Result (Unit {0}) → Stop
  listened : Served → Stop

-- The exit status behind the `select` of cmd/api.
unfoldable pub exit_status : Stop → ℕ
exit_status (signal answer) = exit_of answer
exit_status (listened served) = exit_of (listen_and_serve served)
