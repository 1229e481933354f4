-- ===== src/System/Reachable.antt =====
-- Every reachable state of the system has sound books.
use banking_plateform.Base.{◌≡◌, refl, ℕ, List, Str, is_empty, true, false, str_eq, text, arith}
use banking_plateform.Ledger.Account.{is_debit_normal, Account}
use banking_plateform.Ledger.Entry.{IsLine, is_valid_side, EntrySide, credit, debit}
use banking_plateform.Outbox.Event.{Event}
use banking_plateform.Platform.Audit.{AuditEntry}
use banking_plateform.Platform.Log.{log_entry}
use banking_plateform.Storage.{World, Db}
use banking_plateform.Storage.Calls.{call-db}
use banking_plateform.Storage.Keeps.{Keeps, Keeps-same, Keeps-bind}
use banking_plateform.Storage.Monad.{call}
use banking_plateform.Base.Int.{◌+ℤ◌, ◌-ℤ◌}
use banking_plateform.System.Bank.{IsBank, IsBank-writes, create_account-IsBank}
use banking_plateform.System.Outside.{mark_published-Keeps, mark_failed-Keeps}
use banking_plateform.System.Seed.{seeded, seed_row, wallet_alice, suspense_funding}
use banking_plateform.System.Steps.{SystemWrites, Reach-Keeps}
use banking_plateform.System.Worlds.{Reach}

log_entry-IsBank : (e : AuditEntry) → Keeps IsBank (log_entry e)
unfolding log_entry
log_entry-IsBank e = Keeps-bind call _ (Keeps-same call call-db) λ _. record {
  at = λ w h. record {
    books = record {
      sound = record {
        stored = h.books.sound.stored;
        tied = h.books.sound.tied;
        covered = h.books.sound.covered;
      };
      linked = h.books.linked;
    };
    amounts = h.amounts;
  };
}

outbox-IsBank : (db : Db) (events : List Event) → IsBank db → IsBank (record db { outbox = events })
outbox-IsBank db events h = record {
  books = record {
    sound = record {
      stored = h.books.sound.stored;
      tied = h.books.sound.tied;
      covered = h.books.sound.covered;
    };
    linked = h.books.linked;
  };
  amounts = h.amounts;
}

pub IsBank-system : SystemWrites IsBank
IsBank-system = record {
  transfers = IsBank-writes;
  account = create_account-IsBank;
  log = log_entry-IsBank;
  published = mark_published-Keeps outbox-IsBank;
  failed = mark_failed-Keeps outbox-IsBank;
}

seed_row-IsLine :
    (now : ℕ) (id : Str) (a : Account) (side : EntrySide)
    → is_empty id ≡ false
    → is_empty a.id ≡ false
    → is_valid_side side ≡ true
    → IsLine (seed_row now id a side).entry
seed_row-IsLine now id a side i n s = record {
  posting = record {
    currency = refl;
    amount = refl;
    positive = omega arith;
    bounded = omega arith;
    side = s;
  };
  has_id = i;
  has_account = n;
}

pub seeded-IsBank : (now : ℕ) → IsBank (seeded now)
unfolding seeded is_valid_side is_debit_normal ◌+ℤ◌ ◌-ℤ◌ str_eq
seeded-IsBank now = record {
  books = record {
    sound = record {
      stored = (
        seed_row-IsLine now (text "seed-alice-credit") wallet_alice credit refl refl refl,
        (
          seed_row-IsLine now (text "seed-suspense-debit") suspense_funding debit refl refl refl,
          tt,
        ),
      );
      tied = refl;
      covered = (omega arith, (omega arith, (omega arith, tt)));
    };
    linked = (refl, (refl, tt));
  };
  amounts = tt;
}

-- Whatever requests, settlement turns and relay turns follow each other on the seeded database,
-- whatever fails on the way, and whatever happens to Redis and the clock in between: the books tie,
-- no account is overdrawn, every stored line is well formed and of a stored account, and the
-- amounts of the settlements are within int64. Rails and publishers write in no table.
pub reachable-IsBank :
    {Rate : Type 0} (now : ℕ) (w v : World) → w.db ≡ seeded now → Reach Rate w v → IsBank v.db
reachable-IsBank now w v e r =
    Reach-Keeps IsBank-system (λ db h. h.amounts) (rw e (seeded-IsBank now)) r
