-- ===== src/Transfer/SagaStore/Rows/Agree.antt =====
-- The rows and the records agree: what is inserted is scanned, and an update of the row is the update
-- of the record.
use banking_plateform.Base.{ℕ, ◌≡◌, refl, [], ◌∷◌, Str, str_eq}
use banking_plateform.Transfer.Saga.{
  SagaState, SagaRecord, SettlementStatus, SettlementRecord, saga_state_text, saga_state_of,
  settlement_status_text, settlement_status_of, started, fraud_ok, compliance_ok, posted, settling,
  completed, compensating, compensated, pending, settled,
}
use banking_plateform.Transfer.SagaStore.{with_status}
use banking_plateform.Transfer.SagaStore.Rows.{
  null_string, or_empty, saga_to_row, scan_saga, SettlementRow, settlement_to_row, scan_settlement,
  update_status_row,
}

-- The states and statuses that have a name.
abbrev pub IsNamedState : SagaState → Type 0
IsNamedState (SagaState.unnamed s) = ⊥
IsNamedState _ = Unit {0}

abbrev pub IsNamedStatus : SettlementStatus → Type 0
IsNamedStatus (SettlementStatus.unnamed s) = ⊥
IsNamedStatus _ = Unit {0}

state_back : (s : SagaState) → IsNamedState s → saga_state_of (saga_state_text s) ≡ s
unfolding saga_state_of saga_state_text str_eq
state_back started n = refl
state_back fraud_ok n = refl
state_back compliance_ok n = refl
state_back posted n = refl
state_back settling n = refl
state_back completed n = refl
state_back compensating n = refl
state_back compensated n = refl
state_back SagaState.failed n = refl
state_back (SagaState.unnamed s) n = absurd n

status_back :
    (s : SettlementStatus) → IsNamedStatus s → settlement_status_of (settlement_status_text s) ≡ s
unfolding settlement_status_of settlement_status_text str_eq
status_back pending n = refl
status_back settled n = refl
status_back SettlementStatus.failed n = refl
status_back (SettlementStatus.unnamed s) n = absurd n

null_back : (v : Str) → or_empty (null_string v) ≡ v
unfolding null_string
null_back [] = refl
null_back (c ∷ v) = refl

-- A saga whose state has a name is scanned as it was inserted.
pub scan_saga-saga_to_row : (s : SagaRecord) → IsNamedState s.state → scan_saga (saga_to_row s) ≡ s
unfolding scan_saga saga_to_row
scan_saga-saga_to_row s n =
    rw
      (
        state_back s.state n,
        null_back s.transaction_id,
        null_back s.settlement_id,
        null_back s.failure_reason,
      )
      refl

-- A settlement whose status has a name is scanned as it was inserted.
pub scan_settlement-settlement_to_row :
    (s : SettlementRecord) → IsNamedStatus s.status → scan_settlement (settlement_to_row s) ≡ s
unfolding scan_settlement settlement_to_row
scan_settlement-settlement_to_row s n = rw (status_back s.status n, null_back s.last_error) refl

-- The SQL update of a settlement's row is scanned as the update of the record.
pub scan_settlement-update_status_row :
    (status : SettlementStatus) (last_error : Str) (now : ℕ) (row : SettlementRow)
    → IsNamedStatus status
    → scan_settlement (update_status_row status last_error now row)
      ≡ with_status status last_error now (scan_settlement row)
unfolding scan_settlement update_status_row
scan_settlement-update_status_row status last_error now row n =
    rw (status_back status n, null_back last_error) refl
