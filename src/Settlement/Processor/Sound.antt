-- ===== src/Settlement/Processor/Sound.antt =====
-- The settlement worker keeps what its writes keep: the soundness of the ledger among it.
use banking_plateform.Base.{
  ℕ, ◌+◌, ◌≡◌, List, [], ◌∷◌, All, All-selected, Str, str_eq_iff, inl, inr, Bool-cases, arith,
}
use banking_plateform.Base.Int.{ℤ}
use banking_plateform.Shared.Errors.{Result, ok, err, Result-cases}
use banking_plateform.Shared.Int64.{InRange}
use banking_plateform.Shared.Money.{Money, halalas_from_minor_units, currency_sar}
use banking_plateform.Shared.Money.Range.{IsRiyals}
use banking_plateform.Ledger.Transaction.{Transaction}
use banking_plateform.Ledger.Repository.Invariant.{IsSound}
use banking_plateform.Ledger.Keeps.{Avoids, Avoids-Keeps}
use banking_plateform.Storage.{Db, World}
use banking_plateform.Storage.Monad.{M}
use banking_plateform.Storage.Keeps.{Keeps, Keeps-same, Keeps-bind, lift_bind-Keeps}
use banking_plateform.Transfer.Saga.{
  SettlementRecord, SettlementStatus, SagaState, settling, completed, compensating, settled,
}
use banking_plateform.Transfer.Command.{Command, command_from_json}
use banking_plateform.Transfer.SagaStore.{
  Connection, get_saga, update_saga_state, update_settlement_status, no_fields,
  claim_pending_settlements,
}
use banking_plateform.Transfer.SagaStore.Claim.{claimed_selected, claim-Keeps, get_saga-db}
use banking_plateform.Transfer.Writes.{Writes, IsSound-writes}
use banking_plateform.Transfer.Coordinator.Sound.{post_compensation-Keeps}
use banking_plateform.Transfer.Service.Journal.{compensation_journal-IsMovement, IsMovement-lines}
use banking_plateform.Settlement.Processor.{
  SettlementResult, compensation_journal, compensation_id, post_reversal, compensate, give_up,
  after_compensation, reject, accept, settle_branch, process_one, process_all, process_claimed,
  process_once, with_reason,
}

-- Settled amounts are stored within int64.
abbrev pub IsStoredAmount : SettlementRecord → Type 0
IsStoredAmount stl = InRange stl.amount_halalas

minor_units-IsRiyals :
    (h : ℤ) (c : Str) (m : Money) → InRange h → halalas_from_minor_units h c ≡ ok m → IsRiyals m
unfolding halalas_from_minor_units
minor_units-IsRiyals h c m r e = ground (arith, str_eq_iff c currency_sar)

module _ {P : Db → Type 0} {Allowed : SettlementRecord → Type 0} (k : Writes P Allowed) where
  -- The reversal, of a journal that is returned.
  post_reversal-Keeps :
      (now : ℕ) (tx_id saga_id : Str) (cmd : Command) (amount : Money) (tx : Transaction)
      → IsRiyals amount
      → compensation_journal now tx_id cmd amount ≡ ok tx
      → Keeps P (post_reversal saga_id tx)
  unfolding post_reversal
  post_reversal-Keeps now tx_id saga_id cmd amount tx r j =
      let lines =
        IsMovement-lines tx_id cmd.to_account_id cmd.from_account_id amount tx
          (compensation_journal-IsMovement now tx_id cmd amount tx r j) in
      record {
        at = λ v h.
            (post_compensation-Keeps k tx saga_id lines).at
              (update_saga_state saga_id compensating no_fields v).1
              ((k.saga_state saga_id compensating no_fields).at v h);
      }

  pub compensate-Keeps :
      (stl : SettlementRecord) → InRange stl.amount_halalas → Keeps P (compensate stl)
  unfolding compensate
  compensate-Keeps stl r =
      Keeps-bind (get_saga stl.saga_id) _ (Keeps-same _ (get_saga-db stl.saga_id)) λ saga.
        lift_bind-Keeps (command_from_json saga.command_json) _ λ cmd _.
          lift_bind-Keeps (halalas_from_minor_units stl.amount_halalas stl.currency) _ λ amount e.
            record {
              at = λ w h.
                  (lift_bind-Keeps (compensation_journal w.now (compensation_id saga) cmd amount)
                      (post_reversal stl.saga_id)
                      λ tx j.
                        post_reversal-Keeps w.now (compensation_id saga) stl.saga_id cmd amount tx
                          (minor_units-IsRiyals stl.amount_halalas stl.currency amount r e) j).at
                    w h;
            }

  module _ (stl : SettlementRecord) (r : InRange stl.amount_halalas) where
    after_compensation-Keeps :
        (reason : Str) (a : Result (Unit {0})) (v : World)
        → P v.db
        → P (after_compensation stl reason a v).1.db
    unfolding after_compensation give_up
    after_compensation-Keeps reason (ok _) v h =
        (k.settlement_status stl.id SettlementStatus.failed reason).at v h
    after_compensation-Keeps reason (err e) v h =
        (k.saga_state stl.saga_id SagaState.failed (with_reason reason)).at
          (update_settlement_status stl.id SettlementStatus.failed reason v).1
          ((k.settlement_status stl.id SettlementStatus.failed reason).at v h)

    reject-Keeps : (reason : Str) (w : World) → P w.db → P (reject stl reason w).1.db
    unfolding reject
    reject-Keeps reason w h =
        after_compensation-Keeps reason (compensate stl w).0 (compensate stl w).1
          ((compensate-Keeps stl r).at w h)

    accept-Keeps : Keeps P (accept stl)
    unfolding accept
    accept-Keeps =
        Keeps-bind (update_settlement_status stl.id settled []) _
          (k.settlement_status stl.id settled [])
          λ _. record { at = λ w h. (k.saga_state stl.saga_id completed no_fields).at w h }

    settle_branch-Keeps :
        (settle : Str → M SettlementResult) (result : SettlementResult)
        → Keeps P (settle_branch settle stl result)
    unfolding settle_branch
    settle_branch-Keeps settle result = record {
      at = λ v h. elim (Bool-cases result.success) [
        | inl e ↦ rw e (accept-Keeps.at v h)
        | inr e ↦ rw e (reject-Keeps result.error v h)
      ];
    }

  module _ (settle : Str → M SettlementResult) (quiet : (id : Str) → Keeps P (settle id)) where
    process_one-Keeps :
        (stl : SettlementRecord) → InRange stl.amount_halalas → Keeps P (process_one settle stl)
    unfolding process_one
    process_one-Keeps stl r = record {
      at = λ w h.
          (Keeps-bind (settle stl.id) _ (quiet stl.id)
              λ result. settle_branch-Keeps stl r settle result).at
            (update_saga_state stl.saga_id settling no_fields w).1
            ((k.saga_state stl.saga_id settling no_fields).at w h);
    }

    -- However far the batch comes.
    process_all-Keeps :
        (batch : List SettlementRecord) (n : ℕ) (w : World)
        → All IsStoredAmount batch
        → P w.db
        → P (process_all settle n batch w).2.db
    unfolding process_all
    process_all-Keeps [] n w a h = h
    process_all-Keeps (stl ∷ rest) n w (r, a) h = elim (Result-cases (process_one settle stl w).0) [
      | inl (m, e) ↦
          rw (process_all, e)
            (process_all-Keeps rest (n + m) (process_one settle stl w).1 a
              ((process_one-Keeps stl r).at w h))
      | inr (x, e) ↦ rw (process_all, e) ((process_one-Keeps stl r).at w h)
    ]

    pub process_once-Keeps :
        (conn : Connection) (limit : ℕ) (w : World)
        → All IsStoredAmount w.db.settlements
        → P w.db
        → P (process_once settle conn limit w).2.db
    unfolding process_once process_claimed
    process_once-Keeps conn limit w a h =
        elim (Result-cases (claim_pending_settlements conn limit w).0) [
          | inr (e, p) ↦ rw p ((claim-Keeps k.attempt conn limit).at w h)
          | inl (rows, p) ↦ rw p (
              process_all-Keeps rows 0 (claim_pending_settlements conn limit w).1
                (rw (claimed_selected conn limit w rows p)
                  (All-selected _ limit _ _ w.db.settlements a))
                ((claim-Keeps k.attempt conn limit).at w h))
        ]

-- A run of the settlement worker keeps the ledger sound, wherever it ends, when the rail writes
-- nothing in the ledger and the stored amounts of the settlements are within int64.
pub process_once-IsSound :
    (settle : Str → M SettlementResult) (quiet : (id : Str) → Avoids (settle id))
    (conn : Connection) (limit : ℕ) (w : World)
    → All IsStoredAmount w.db.settlements
    → IsSound w.db
    → IsSound (process_once settle conn limit w).2.db
process_once-IsSound settle quiet conn limit w a h =
    process_once-Keeps IsSound-writes settle (λ id. Avoids-Keeps (quiet id)) conn limit w a h
