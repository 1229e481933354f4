-- ===== src/Transfer/Service/Journal.antt =====
-- The journal of a transfer: two lines, the sender's debit and the recipient's credit.
use mathlib.Core.Path.{ap₂}
use banking_plateform.Base.{ℕ, ◌≡◌, sym, subst, ◌∙◌, text, List, [], ◌∷◌, Str, All, inl, inr, arith}
use banking_plateform.Base.Int.{pos}
use banking_plateform.Shared.Errors.{Result, ok, Result-cases, ◌>>=◌}
use banking_plateform.Shared.Money.{Money}
use banking_plateform.Shared.Money.Range.{IsRiyals}
use banking_plateform.Ledger.Entry.{
  Entry, EntrySide, debit, credit, new_entry, IsLine, new_entry-IsLine,
}
use banking_plateform.Ledger.Transaction.{Transaction, new_transaction}
use banking_plateform.Transfer.Command.{Command, entry_id}
use banking_plateform.Transfer.Service.{transfer_journal}
use banking_plateform.Settlement.Processor.{compensation_journal}

abbrev pub line : Str → Str → EntrySide → Money → Entry
line id account_id side amount = record {
  id = id;
  account_id = account_id;
  side = side;
  amount = amount;
}

-- The two lines of a movement from one account to another.
abbrev pub movement : Str → Str → Str → Money → List Entry
movement tx_id from to amount =
    line (entry_id tx_id (pos 1)) from debit amount
    ∷ line (entry_id tx_id (pos 2)) to credit amount
    ∷ []

-- A journal that is returned has these lines, both well formed.
abbrev pub IsMovement : Str → Str → Str → Money → Transaction → Type 0
IsMovement tx_id from to amount t =
    (t.entries ≡ movement tx_id from to amount) × All IsLine (movement tx_id from to amount)

new_transaction_entries :
    (now : ℕ) (id description : Str) (es : List Entry) (at : ℕ) (t : Transaction)
    → new_transaction now id description es at ≡ ok t
    → t.entries ≡ es
unfolding new_transaction
new_transaction_entries now id description es at t h = ground arith

abbrev movement_journal : ℕ → Str → Str → Str → Str → Money → Result Transaction
movement_journal now tx_id description from to amount =
    new_entry (entry_id tx_id (pos 1)) from debit amount >>= λ d.
    new_entry (entry_id tx_id (pos 2)) to credit amount >>= λ c.
    new_transaction now tx_id description (d ∷ c ∷ []) now

movement_journal-IsMovement :
    (now : ℕ) (tx_id description from to : Str) (amount : Money) (t : Transaction)
    → IsRiyals amount
    → movement_journal now tx_id description from to amount ≡ ok t
    → IsMovement tx_id from to amount t
movement_journal-IsMovement now tx_id description from to amount t r h =
    elim (Result-cases (new_entry (entry_id tx_id (pos 1)) from debit amount)) [
      | inr (x, p) ↦ ground arith
      | inl (d, p) ↦ elim (Result-cases (new_entry (entry_id tx_id (pos 2)) to credit amount)) [
        | inr (x, q) ↦ ground arith
        | inl (c, q) ↦
            let (dl, di) = new_entry-IsLine _ from debit amount d r.currency r.range p in
            let (cl, ci) = new_entry-IsLine _ to credit amount c r.currency r.range q in
            (
              new_transaction_entries now tx_id description (d ∷ c ∷ []) now t (ground arith)
                  ∙ ap₂ (λ x y. x ∷ y ∷ []) dl cl,
              (subst IsLine dl di, (subst IsLine cl ci, tt)),
            )
      ]
    ]

-- A transfer's journal debits the sender and credits the recipient with the command's amount.
pub transfer_journal-IsMovement :
    (now : ℕ) (tx_id description : Str) (cmd : Command) (t : Transaction)
    → IsRiyals cmd.amount
    → transfer_journal now tx_id description cmd ≡ ok t
    → IsMovement tx_id cmd.from_account_id cmd.to_account_id cmd.amount t
unfolding transfer_journal
transfer_journal-IsMovement now tx_id description cmd t r h =
    movement_journal-IsMovement now tx_id description cmd.from_account_id cmd.to_account_id
      cmd.amount t r h

-- A compensation's journal debits the recipient and credits the sender with the settled amount.
pub compensation_journal-IsMovement :
    (now : ℕ) (tx_id : Str) (cmd : Command) (amount : Money) (t : Transaction)
    → IsRiyals amount
    → compensation_journal now tx_id cmd amount ≡ ok t
    → IsMovement tx_id cmd.to_account_id cmd.from_account_id amount t
unfolding compensation_journal
compensation_journal-IsMovement now tx_id cmd amount t r h =
    movement_journal-IsMovement now tx_id (text "compensate failed sarie settlement")
      cmd.to_account_id cmd.from_account_id amount t r h

pub IsMovement-lines :
    (tx_id from to : Str) (amount : Money) (t : Transaction)
    → IsMovement tx_id from to amount t
    → All IsLine t.entries
IsMovement-lines tx_id from to amount t (e, l) = subst (All IsLine) (sym e) l
