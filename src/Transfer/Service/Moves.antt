-- ===== src/Transfer/Service/Moves.antt =====
-- What the journals of a transfer and of its compensation do to balances.
use banking_plateform.Base.{
  ℕ, ◌≡◌, ◌++◌, Str, str_eq, str_eq_iff, str_eq_refl, arith, Bool, true, false, ◌≢◌, if◌then◌else◌,
}
use banking_plateform.Base.Int.{ℤ, pos, pos_part, ◌+ℤ◌, ◌-ℤ◌, int_laws}
use banking_plateform.Shared.Errors.{ok}
use banking_plateform.Shared.Money.{Money}
use banking_plateform.Shared.Money.Range.{IsRiyals}
use banking_plateform.Ledger.Account.{Account, is_debit_normal}
use banking_plateform.Ledger.Balance.Exact.{net}
use banking_plateform.Ledger.Transaction.{Transaction}
use banking_plateform.Transfer.Command.{Command}
use banking_plateform.Transfer.Service.{transfer_journal}
use banking_plateform.Settlement.Processor.{compensation_journal}
use banking_plateform.Transfer.Service.Journal.{
  movement, transfer_journal-IsMovement, compensation_journal-IsMovement,
}

-- What a debit and a credit of `n` add to an account's balance, by its normal side.
abbrev debited : Bool → ℕ → ℤ
debited is_debit_normal n = if is_debit_normal then pos n else pos 0 -ℤ pos n

abbrev credited : Bool → ℕ → ℤ
credited is_debit_normal n = if is_debit_normal then pos 0 -ℤ pos n else pos n

abbrev when_named : Bool → ℤ → ℤ
when_named named z = if named then z else pos 0

back_and_forth :
    (normal from to : Bool) (n : ℕ)
    → when_named from (debited normal n)
        +ℤ (when_named to (credited normal n)
            +ℤ (when_named to (debited normal n) +ℤ (when_named from (credited normal n) +ℤ pos 0)))
      ≡ pos 0
back_and_forth true true true n = omega int_laws
back_and_forth true true false n = omega int_laws
back_and_forth true false true n = omega int_laws
back_and_forth true false false n = omega int_laws
back_and_forth false true true n = omega int_laws
back_and_forth false true false n = omega int_laws
back_and_forth false false true n = omega int_laws
back_and_forth false false false n = omega int_laws

movement_back :
    (a : Account) (t c from to : Str) (m : Money)
    → net a (movement t from to m ++ movement c to from m) ≡ pos 0
movement_back a t c from to m =
    back_and_forth (is_debit_normal a) (str_eq from a.id) (str_eq to a.id) (pos_part m.halalas)

-- The lines of a transfer of a riyal amount and the lines of its compensation over the same amount
-- cancel, on every account.
pub compensation_cancels :
    (now later : ℕ) (tx_id description comp_id : Str) (cmd : Command) (t c : Transaction)
    (a : Account)
    → IsRiyals cmd.amount
    → transfer_journal now tx_id description cmd ≡ ok t
    → compensation_journal later comp_id cmd cmd.amount ≡ ok c
    → net a (t.entries ++ c.entries) ≡ pos 0
compensation_cancels now later tx_id description comp_id cmd t c a r e f =
    let (p, _) = transfer_journal-IsMovement now tx_id description cmd t r e in
    let (q, _) = compensation_journal-IsMovement later comp_id cmd cmd.amount c r f in
    rw (p, q) (movement_back a tx_id comp_id cmd.from_account_id cmd.to_account_id cmd.amount)

-- The journal of a transfer of a riyal amount between two different credit-normal accounts takes
-- the amount from the sender's balance and adds it to the recipient's.
pub transfer_moves :
    (now : ℕ) (tx_id description : Str) (cmd : Command) (t : Transaction) (from to : Account)
    → IsRiyals cmd.amount
    → transfer_journal now tx_id description cmd ≡ ok t
    → from.id ≡ cmd.from_account_id
    → to.id ≡ cmd.to_account_id
    → cmd.from_account_id ≢ cmd.to_account_id
    → is_debit_normal from ≡ false
    → is_debit_normal to ≡ false
    → (net from t.entries ≡ pos 0 -ℤ pos (pos_part cmd.amount.halalas))
      × (net to t.entries ≡ pos (pos_part cmd.amount.halalas))
transfer_moves now tx_id description cmd t from to r e f g ne nf nt =
    let (p, _) = transfer_journal-IsMovement now tx_id description cmd t r e in
    let n = pos_part cmd.amount.halalas in
    let other : str_eq cmd.from_account_id cmd.to_account_id ≡ false =
      ground (arith, str_eq_iff cmd.from_account_id cmd.to_account_id) in
    let other' : str_eq cmd.to_account_id cmd.from_account_id ≡ false =
      ground (arith, str_eq_iff cmd.to_account_id cmd.from_account_id) in
    rw
      (
        p,
        nf,
        nt,
        f,
        g,
        other,
        other',
        str_eq_refl cmd.from_account_id,
        str_eq_refl cmd.to_account_id,
      )
      (omega int_laws, omega int_laws)
