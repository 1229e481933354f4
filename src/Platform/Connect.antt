-- ===== src/Platform/Connect.antt =====
-- internal/platform/postgres/pool.go and internal/platform/redis/client.go: the connections. The
-- pgx and go-redis libraries are arguments, and contexts are not modelled.
use banking_plateform.Base.{ℕ, Str}
use banking_plateform.Shared.Errors.{Result, ok, relabel, ◌>>=◌, ◌>>◌}

-- What `NewPool` sets; durations are seconds.
pub record PoolLimits : Type 0 where
  pub max_conns : ℕ
  pub min_conns : ℕ
  pub max_conn_lifetime : ℕ
  pub max_conn_idle_time : ℕ

abbrev pub pool_limits : PoolLimits
pool_limits = record {
  max_conns = 20;
  min_conns = 2;
  max_conn_lifetime = 3600;
  max_conn_idle_time = 900;
}

-- `ParseConfig`, `NewWithConfig` and `Ping` of pgxpool.
pub record Pgx (Parsed Pool : Type 0) : Type 0 where
  pub parse_config : Str → Result Parsed
  pub with_config : Parsed → PoolLimits → Result Pool
  pub ping : Pool → Result (Unit {0})

-- `NewPool`
unfoldable pub new_pool : {Parsed Pool : Type 0} → Pgx Parsed Pool → Str → Result Pool
new_pool pgx dsn = do
  cfg ← relabel (pgx.parse_config dsn)
  pool ← relabel (pgx.with_config cfg pool_limits)
  relabel (pgx.ping pool)
  ok pool

-- `NewClient`, whose options are the address and three timeouts in seconds.
pub record ClientOptions : Type 0 where
  pub addr : Str
  pub dial_timeout : ℕ
  pub read_timeout : ℕ
  pub write_timeout : ℕ

abbrev pub new_client : Str → ClientOptions
new_client addr = record { addr = addr; dial_timeout = 5; read_timeout = 3; write_timeout = 3 }

-- `Ping`; what the client answers to PING is an argument.
abbrev pub ping : (ClientOptions → Result (Unit {0})) → ClientOptions → Result (Unit {0})
ping answer client = relabel (answer client)
