-- ===== src/Platform/Migrate.antt =====
-- internal/platform/postgres/migrate.go: the migrations, over a schema that the migrate library
-- changes.
pub mod Rounds
use banking_plateform.Base.{ℕ, zero, suc, ◌<◌, ◌≡◌, refl, Option, none, some, Str, arith, inl, inr}
use banking_plateform.Shared.Errors.{Error, Result, ok, err, relabel, annotated, ◌>>=◌, ◌>>◌}

-- What `Up` and `Down` answer: nil, `ErrNoChange`, or another error.
pub data MoveAnswer : Type 0 where
  moved no_change : MoveAnswer
  broken : Error → MoveAnswer

-- The migrate library over a type of schemas: the source of the embedded files, the instance for a
-- DSN, and its two moves.
pub record Library (Schema : Type 0) : Type 0 where
  pub source : Result (Unit {0})
  pub open_instance : Str → Result (Unit {0})
  pub up : Schema → MoveAnswer × Schema
  pub down : Schema → MoveAnswer × Schema

-- `err != nil && err != migrate.ErrNoChange`
abbrev pub tolerated : MoveAnswer → Result (Unit {0})
tolerated moved = ok tt
tolerated no_change = ok tt
tolerated (broken e) = err (annotated e)

module _ {Schema : Type 0} (lib : Library Schema) where
  -- The first half of each function: the source, and the instance.
  unfoldable pub opened : Str → Result (Unit {0})
  opened dsn = do relabel lib.source; relabel (lib.open_instance dsn)

  abbrev pub after_opening :
      (Schema → MoveAnswer × Schema) → Result (Unit {0}) → Schema → Result (Unit {0}) × Schema
  after_opening step (ok _) s = let (m, s') = step s in (tolerated m, s')
  after_opening step (err e) s = (err e, s)

  -- `RunMigrations`
  unfoldable pub run_migrations : Str → Schema → Result (Unit {0}) × Schema
  run_migrations dsn s = after_opening lib.up (opened dsn) s

  -- `ResetMigrations`
  unfoldable pub reset_migrations : Str → Schema → Result (Unit {0}) × Schema
  reset_migrations dsn s = after_opening lib.down (opened dsn) s

  -- `MustRunMigrations`: `none` is a panic.
  unfoldable pub must_run_migrations : Str → Schema → Option (Unit {0}) × Schema
  must_run_migrations dsn s =
      let (r, s') = run_migrations dsn s in (elim r [ ok _ ↦ some tt | err _ ↦ none ], s')

  abbrev pub after_down :
      MoveAnswer
      → Schema
      → Option (Result (Unit {0})) × Schema
      → Option (Result (Unit {0})) × Schema
  after_down moved s rest = rest
  after_down no_change s rest = (some (ok tt), s)
  after_down (broken e) s rest = (some (err (annotated e)), s)

  -- The loop of `ResetAllMigrations`, in so many rounds; `none` when it goes on after them.
  unfoldable pub roll_back_all : ℕ → Schema → Option (Result (Unit {0})) × Schema
  roll_back_all zero s = (none, s)
  roll_back_all (suc n) s = let (m, s') = lib.down s in after_down m s' (roll_back_all n s')

  abbrev pub rolled_back : ℕ → Result (Unit {0}) → Schema → Option (Result (Unit {0})) × Schema
  rolled_back n (ok _) s = roll_back_all n s
  rolled_back n (err e) s = (some (err e), s)

  -- `ResetAllMigrations`
  unfoldable pub reset_all_migrations : ℕ → Str → Schema → Option (Result (Unit {0})) × Schema
  reset_all_migrations n dsn s = rolled_back n (opened dsn) s
