-- ===== src/Tests/Books.antt =====
-- A small bank: cash, two customers, and an opening deposit of 100 riyals for the first.
use banking_plateform.Base.{
  ℕ, ◌<◌, ◌^◌, is_empty, str_eq, ◌≡◌, refl, List, [], ◌∷◌, ◌++◌, true, false, Str, text, arith,
}
use banking_plateform.Base.Int.{pos, ◌+ℤ◌, ◌-ℤ◌}
use banking_plateform.Shared.GoText.{Unicode}
use banking_plateform.Shared.Digest.{Digest}
use banking_plateform.Shared.Json.{Json, object, malformed}
use banking_plateform.Shared.Money.{Money, currency_sar}
use banking_plateform.Ledger.Account.{Account, asset, liability, is_debit_normal}
use banking_plateform.Ledger.Entry.{Entry, EntrySide, debit, credit, IsLine, is_valid_side}
use banking_plateform.Ledger.Repository.Invariant.{IsSound}
use banking_plateform.Storage.{Db, World, EntryRow}

abbrev pub sar_of : ℕ → Money
sar_of n = record { halalas = pos n; currency = currency_sar }

abbrev pub cash : Account
cash = record { id = text "acc-cash"; typ = asset; name = text "Cash" }

abbrev pub alice : Account
alice = record { id = text "acc-alice"; typ = liability; name = text "Alice" }

abbrev pub bob : Account
bob = record { id = text "acc-bob"; typ = liability; name = text "Bob" }

abbrev pub entry_of : Str → Account → EntrySide → ℕ → Entry
entry_of id a side n = record { id = id; account_id = a.id; side = side; amount = sar_of n }

abbrev pub deposit_lines : List Entry
deposit_lines =
    entry_of (text "dep-leg1") cash debit 10000 ∷ entry_of (text "dep-leg2") alice credit 10000 ∷ []

abbrev stored_row : Entry → EntryRow
stored_row e = record { entry = e; transaction_id = text "dep"; created_at = 1 }

abbrev pub deposit_rows : List EntryRow
deposit_rows =
    stored_row (entry_of (text "dep-leg1") cash debit 10000)
    ∷ stored_row (entry_of (text "dep-leg2") alice credit 10000)
    ∷ []

abbrev pub bank : Db
bank = record {
  accounts = cash ∷ alice ∷ bob ∷ [];
  transactions =
      record { id = text "dep"; description = text "opening deposit"; recorded_at = 1 } ∷ [];
  entries = deposit_rows;
  outbox = [];
  sagas = [];
  settlements = [];
  audit = [];
}

abbrev pub quiet_world : World
quiet_world = record { db = bank; cache = []; velocity = []; now = 5; script = [] }

abbrev pub ascii : Unicode
ascii = record { upper = λ c. c; is_upper_letter = λ _. false; is_digit_letter = λ _. false }

abbrev joined : List (Str × Str) → Str
joined [] = []
joined ((k, v) ∷ fs) = k ++ v ++ joined fs

abbrev json_text : Json → Str
json_text (object fs) = joined fs
json_text (malformed s) = s

-- A digest for the tests: the text itself.
abbrev pub plain_digest : Digest
plain_digest = record { of_text = λ s. s; of_json = json_text }

-- A line of a concrete account is well formed when its amount is.
pub entry_of-IsLine :
    (id : Str) (a : Account) (side : EntrySide) (n : ℕ)
    → is_empty id ≡ false
    → is_empty a.id ≡ false
    → is_valid_side side ≡ true
    → 0 < n
    → n < 2 ^ 63
    → IsLine (entry_of id a side n)
entry_of-IsLine id a side n i j s p b = record {
  posting = record { currency = refl; amount = refl; positive = p; bounded = b; side = s };
  has_id = i;
  has_account = j;
}

pub bank-IsSound : IsSound bank
unfolding is_valid_side is_debit_normal ◌+ℤ◌ ◌-ℤ◌ str_eq
bank-IsSound = record {
  stored = (
    entry_of-IsLine (text "dep-leg1") cash debit 10000 refl refl refl (omega arith) (omega arith),
    (
      entry_of-IsLine (text "dep-leg2") alice credit 10000 refl refl refl (omega arith)
          (omega arith),
      tt,
    ),
  );
  tied = refl;
  covered = (omega arith, (omega arith, (omega arith, tt)));
}
