-- ===== src/Tests/Starting.antt =====
-- A start of the API on an empty database, and its migrations.
use banking_plateform.Base.{ℕ, zero, suc, ◌≡◌, ◌<◌, refl, text, arith}
use banking_plateform.Platform.Migrate.{MoveAnswer, moved, no_change, Library, reset_all_migrations}
use banking_plateform.Platform.Migrate.Rounds.{MigrateLaws, IsReset, reset_all_migrations-IsReset}
use banking_plateform.Shared.Errors.{ok}

-- A schema is the number of its migrations, of which there are four.
abbrev four_up : ℕ → MoveAnswer × ℕ
four_up zero = (moved, 4)
four_up (suc n) = (no_change, suc n)

abbrev four_down : ℕ → MoveAnswer × ℕ
four_down zero = (no_change, 0)
four_down (suc n) = (moved, 0)

abbrev four_migrations : Library ℕ
four_migrations = record {
  source = ok tt;
  open_instance = λ dsn. ok tt;
  up = four_up;
  down = four_down;
}

four-MigrateLaws : MigrateLaws four_migrations (λ s. s)
four-MigrateLaws = record { down_lowers = lowers; down_ends = ends }
  where
    lowers : (s : ℕ) → (four_down s).0 ≡ moved → (four_down s).1 < s
    lowers zero e = cc
    lowers (suc n) e = omega arith

    ends : (s : ℕ) → (four_down s).0 ≡ no_change → (four_down s).1 ≡ 0
    ends zero e = refl
    ends (suc n) e = refl

reset_all_migrations-IsReset_example :
    IsReset (λ s. s) (reset_all_migrations four_migrations 5 (text "dsn") 4)
reset_all_migrations-IsReset_example =
    reset_all_migrations-IsReset four-MigrateLaws 5 (text "dsn") 4 (omega arith)
