-- ===== src/System/Observed.antt =====
-- What the users and the reconciler of a reachable state see.
use banking_plateform.Base.{
  ℕ, ◌<◌, ◌^◌, ◌≡◌, sym, ap, subst, ◌∙◌, Bool, true, List, [], ◌∷◌, All, Str, str_eq, str_eq_iff,
  find, Option, none, some, Bool-cases, inl, inr, arith,
}
use banking_plateform.Base.Int.{pos, ◌≤ℤ◌}
use banking_plateform.Ledger.Account.{Account, new_account}
use banking_plateform.Ledger.Balance.Exact.{net, riyals_ℤ}
use banking_plateform.Ledger.Entry.{is_debit, is_credit}
use banking_plateform.Ledger.Repository.{get_account, get_balance, loaded_account}
use banking_plateform.Ledger.Repository.Books.{verify_global_iff}
use banking_plateform.Ledger.Repository.Invariant.{IsSound}
use banking_plateform.Ledger.Repository.Reading.{lines, get_balance_exact}
use banking_plateform.Ledger.Transaction.Sums.{side_total}
use banking_plateform.Platform.Poster.{balance_text, balance_text_for}
use banking_plateform.Settlement.Reconcile.{reconcile}
use banking_plateform.Shared.Errors.{ok, ok_injective, relabel}
use banking_plateform.Shared.Money.Text.{money_string}
use banking_plateform.Storage.{World}
use banking_plateform.Storage.Calls.{bind_ok_rest, call_annotated-db}
use banking_plateform.Storage.Monad.{pure}
use banking_plateform.System.Reads.{get_account-db}
use banking_plateform.System.Reachable.{reachable-IsBank}
use banking_plateform.System.Seed.{seeded}
use banking_plateform.System.Worlds.{Reach}

All-find :
    {A : Type 0} (P : A → Type 0) (p : A → Bool) (xs : List A) (x : A)
    → All P xs
    → find p xs ≡ some x
    → P x × (p x ≡ true)
All-find P p [] x h e = cc
All-find P p (y ∷ ys) x (q, h) e = elim (Bool-cases (p y)) [
  | inl t ↦ let same : y ≡ x = ground (arith, e) in subst (λ z. P z × (p z ≡ true)) same (q, t)
  | inr f ↦ All-find P p ys x h (ground (arith, e))
]

loaded_same : (o : Option Account) (a : Account) → loaded_account o ≡ ok a → o ≡ some a
unfolding new_account
loaded_same none a h = cc
loaded_same (some x) a h = ground arith

found_account :
    (id : Str) (w : World) (a : Account)
    → (get_account id w).0 ≡ ok a
    → find (λ x. str_eq x.id id) w.db.accounts ≡ some a
unfolding get_account
found_account id w a h = ground (
  arith,
  call_annotated-db w,
  loaded_same (find (λ (x : Account). str_eq x.id id) w.db.accounts) a,
)

-- The balance of a sound ledger that is shown.
shown_balance :
    (id : Str) (w : World) (s : Str)
    → IsSound w.db
    → (balance_text_for id w).0 ≡ ok s
    → (a : Account) × (a.id ≡ id)
      × (s ≡ money_string (riyals_ℤ (net a (lines w.db.entries))))
      × (pos 0 ≤ℤ net a (lines w.db.entries))
unfolding balance_text_for balance_text
shown_balance id w s h e =
    let (a, got, e1) = bind_ok_rest (get_account id) balance_text w e in
    let v = (get_account id w).1 in
    let (m, bal, e2) = bind_ok_rest (get_balance a) (λ m. pure (money_string m)) v e1 in
    let db : v.db ≡ w.db = get_account-db id w in
    let exact = get_balance_exact a v m (rw db h.stored) bal in
    let (fine, named) =
      All-find (λ x. pos 0 ≤ℤ net x (lines w.db.entries)) (λ x. str_eq x.id id) w.db.accounts a
        h.covered (found_account id w a got) in
    (
      a,
      (str_eq_iff a.id id).0 named,
      sym (ok_injective e2)
          ∙ ap money_string exact
          ∙ ap (λ d. money_string (riyals_ℤ (net a (lines d.entries)))) db,
      fine,
    )

module _ {Rate : Type 0} (now : ℕ) (w v : World) (seed : w.db ≡ seeded now)
    (r : Reach Rate w v) where
  -- In every state that is reached from the seeded database, a balance that the service shows for
  -- an account is the printed form of the exact sum of the account's stored lines, which is not
  -- negative.
  pub reachable_balance :
      (id : Str) (s : Str)
      → (balance_text_for id v).0 ≡ ok s
      → (a : Account) × (a.id ≡ id)
        × (s ≡ money_string (riyals_ℤ (net a (lines v.db.entries))))
        × (pos 0 ≤ℤ net a (lines v.db.entries))
  reachable_balance id s e = shown_balance id v s (reachable-IsBank now w v seed r).books.sound e

  -- In every state that is reached from the seeded database, when no call fails and the totals of
  -- the stored lines fit an int64, the reconciler finds the books balanced.
  pub reachable_reconciles :
      v.script ≡ []
      → side_total is_debit (lines v.db.entries) < 2 ^ 63
      → side_total is_credit (lines v.db.entries) < 2 ^ 63
      → (reconcile v).0 ≡ ok tt
  unfolding reconcile
  reachable_reconciles q d c =
      let sound = (reachable-IsBank now w v seed r).books.sound in
      ap relabel ((verify_global_iff v q sound.stored d c).1 sound.tied)
