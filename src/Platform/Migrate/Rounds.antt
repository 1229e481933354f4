-- ===== src/Platform/Migrate/Rounds.antt =====
-- The rounds of the loop that takes them all back.
use banking_plateform.Base.{ℕ, zero, suc, ◌<◌, ◌≡◌, refl, ap, subst, Option, none, some, Str, arith}
use banking_plateform.Platform.Migrate.{
  MoveAnswer, moved, no_change, broken, Library, opened, after_down, roll_back_all, rolled_back,
  reset_all_migrations,
}
use banking_plateform.Shared.Errors.{Result, ok, err}

-- What the migrate library documents: a `Down` with an effect takes applied migrations back, and one without finds none applied.
pub record MigrateLaws {Schema : Type 0} (lib : Library Schema) (applied : Schema → ℕ)
    : Type 0 where
  pub down_lowers : (s : Schema) → (lib.down s).0 ≡ moved → applied (lib.down s).1 < applied s
  pub down_ends : (s : Schema) → (lib.down s).0 ≡ no_change → applied (lib.down s).1 ≡ 0

-- An answer of the loop: an error, or a schema without applied migrations.
abbrev pub IsReset : {Schema : Type 0} → (Schema → ℕ) → Option (Result (Unit {0})) × Schema → Type 0
IsReset applied (none, s) = ⊥
IsReset applied (some (ok _), s) = applied s ≡ 0
IsReset applied (some (err e), s) = Unit {0}

module _ {Schema : Type 0} {lib : Library Schema} {applied : Schema → ℕ}
    (laws : MigrateLaws lib applied) where
  after_down-IsReset :
      (n : ℕ) (s : Schema)
      → applied s < suc n
      → ((v : Schema) → applied v < n → IsReset applied (roll_back_all lib n v))
      → (a : MoveAnswer × Schema) → lib.down s ≡ a
      → IsReset applied (after_down lib a.0 a.1 (roll_back_all lib n a.1))
  after_down-IsReset n s b rest (moved, v) e =
      let fewer = laws.down_lowers s (ap (λ a. a.0) e) in
      let fewer' : applied v < applied s = subst (λ a. applied a.1 < applied s) e fewer in
      rest v (omega (arith, fewer', b))
  after_down-IsReset n s b rest (no_change, v) e =
      subst (λ a. applied a.1 ≡ 0) e (laws.down_ends s (ap (λ a. a.0) e))
  after_down-IsReset n s b rest (broken x, v) e = tt

  roll_back_all-IsReset :
      (n : ℕ) (s : Schema) → applied s < n → IsReset applied (roll_back_all lib n s)
  unfolding roll_back_all
  roll_back_all-IsReset zero s b = absurd (omega (arith, b))
  roll_back_all-IsReset (suc n) s b =
      after_down-IsReset n s b (roll_back_all-IsReset n) (lib.down s) refl

  -- When fewer migrations are applied than the loop of `ResetAllMigrations` is given rounds, it
  -- ends within them: with an error, or with a schema without applied migrations. The migrate
  -- library is as it documents: a `Down` with an effect takes applied migrations back, and one
  -- without finds none.
  pub reset_all_migrations-IsReset :
      (n : ℕ) (dsn : Str) (s : Schema)
      → applied s < n
      → IsReset applied (reset_all_migrations lib n dsn s)
  unfolding reset_all_migrations
  reset_all_migrations-IsReset n dsn s b = go (opened lib dsn)
    where
      go : (r : Result (Unit {0})) → IsReset applied (rolled_back lib n r s)
      go (ok _) = roll_back_all-IsReset n s b
      go (err e) = tt
