-- ===== src/Ledger/Repository/Books.antt =====
-- The check of the books against the exact sums.
use banking_plateform.Base.{
  ◌<◌, ◌^◌, ◌≡◌, refl, ◌↔◌, List, [], ◌∷◌, Bool, All, Bool-cases, inl, inr, arith,
}
use banking_plateform.Base.Int.{pos, int_laws}
use banking_plateform.Shared.Errors.{ok}
use banking_plateform.Ledger.Entry.{EntrySide, is_debit, is_credit}
use banking_plateform.Ledger.Transaction.Sums.{side_total}
use banking_plateform.Ledger.Repository.{stored_total, verify_global_ledger_balanced}
use banking_plateform.Ledger.Repository.Reading.{lines, IsStored}
use banking_plateform.Storage.{World, EntryRow}
use banking_plateform.Storage.Calls.{call_annotated_quiet}

stored_total-side_total :
    (on_side : EntrySide → Bool) (rows : List EntryRow)
    → All IsStored rows
    → stored_total (λ e. on_side e.side) rows ≡ pos (side_total on_side (lines rows))
unfolding stored_total
stored_total-side_total on_side [] h = refl
stored_total-side_total on_side (r ∷ rows) (s, h) = elim (Bool-cases (on_side r.entry.side)) [
  | inl e ↦ rw (e, s.posting.amount, stored_total-side_total on_side rows h) (omega int_laws)
  | inr e ↦ rw (e, stored_total-side_total on_side rows h) (omega int_laws)
]

-- When the stored lines are well formed, their totals fit an int64 and the call does not fail, the
-- check of the books answers no error exactly when the stored debits equal the stored credits.
pub verify_global_iff :
    (w : World)
    → w.script ≡ []
    → All IsStored w.db.entries
    → side_total is_debit (lines w.db.entries) < 2 ^ 63
    → side_total is_credit (lines w.db.entries) < 2 ^ 63
    → ((verify_global_ledger_balanced w).0 ≡ ok tt)
      ↔ (side_total is_debit (lines w.db.entries) ≡ side_total is_credit (lines w.db.entries))
unfolding verify_global_ledger_balanced
verify_global_iff w q h d c = (
  λ e. ground (
    arith,
    call_annotated_quiet w q,
    stored_total-side_total is_debit w.db.entries h,
    stored_total-side_total is_credit w.db.entries h,
  ),
  λ e. ground (
    arith,
    call_annotated_quiet w q,
    stored_total-side_total is_debit w.db.entries h,
    stored_total-side_total is_credit w.db.entries h,
  ),
)
