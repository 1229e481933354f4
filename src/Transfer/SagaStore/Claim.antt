-- ===== src/Transfer/SagaStore/Claim.antt =====
-- What a claim of pending settlements returns, and what it keeps.
use banking_plateform.Base.{ℕ, ◌≡◌, refl, sym, ap, ◌∙◌, List, [], ◌∷◌, Str, arith}
use banking_plateform.Shared.Errors.{Result, ok}
use banking_plateform.Storage.{Db, World}
use banking_plateform.Storage.Monad.{call}
use banking_plateform.Storage.Calls.{call-db, bind_ok, in_tx_commits}
use banking_plateform.Storage.Keeps.{
  Keeps, Keeps-same, Keeps-pure, Keeps-bind, Keeps-KeepsOk, KeepsOk-in_tx,
}
use banking_plateform.Transfer.Saga.{SettlementRecord}
use banking_plateform.Transfer.SagaStore.{
  Connection, shared, busy, over_open_rows, get_saga, claim_pending_settlements, claim_rows,
  count_attempt, count_attempts, pending_settlements,
}

rows_of :
    {r : Result (List SettlementRecord)} {rows claimed : List SettlementRecord}
    → r ≡ ok rows
    → r ≡ ok claimed
    → rows ≡ claimed
rows_of p q = cc

claim_rows_selected :
    (conn : Connection) (limit : ℕ) (w : World) (rows : List SettlementRecord)
    → (claim_rows conn limit w).0 ≡ ok rows
    → rows ≡ pending_settlements limit w.db
unfolding claim_rows
claim_rows_selected conn limit w rows h =
    let (u, q, step) = bind_ok call _ w h in
    let k = ap (λ r. r.0) (sym step) ∙ h in
    let (u', q', step') =
      bind_ok (count_attempts conn (pending_settlements limit (call w).1.db)) _ (call w).1 k in
    rows_of k (ap (λ r. r.0) step') ∙ ap (pending_settlements limit) (call-db w)

-- A claim that succeeds returns the pending rows of before.
pub claimed_selected :
    (conn : Connection) (limit : ℕ) (w : World) (rows : List SettlementRecord)
    → (claim_pending_settlements conn limit w).0 ≡ ok rows
    → rows ≡ pending_settlements limit w.db
unfolding claim_pending_settlements
claimed_selected conn limit w rows h =
    claim_rows_selected conn limit (call w).1 rows
      (in_tx_commits call (claim_rows conn limit) w rows call-db h).0
    ∙ ap (pending_settlements limit) (call-db w)

pub get_saga-db : (id : Str) (w : World) → (get_saga id w).1.db ≡ w.db
unfolding get_saga
get_saga-db id w = ground (arith, call-db w)

-- What the count of one attempt keeps, the claim keeps.
module _ {P : Db → Type 0} (k : (id : Str) → Keeps P (count_attempt id)) where
  over_open_rows-Keeps :
      (conn : Connection) (id : Str) → Keeps P (over_open_rows conn (count_attempt id))
  over_open_rows-Keeps shared id = k id
  over_open_rows-Keeps busy id = record { at = λ w h. h }

  count_attempts-Keeps :
      (conn : Connection) (rows : List SettlementRecord) → Keeps P (count_attempts conn rows)
  unfolding count_attempts
  count_attempts-Keeps conn [] = Keeps-pure tt
  count_attempts-Keeps conn (s ∷ rest) =
      Keeps-bind (over_open_rows conn (count_attempt s.id)) _ (over_open_rows-Keeps conn s.id)
        λ _. count_attempts-Keeps conn rest

  claim_rows-Keeps : (conn : Connection) (limit : ℕ) → Keeps P (claim_rows conn limit)
  unfolding claim_rows
  claim_rows-Keeps conn limit = Keeps-bind call _ (Keeps-same call call-db) λ _. record {
    at = λ w h.
        (Keeps-bind (count_attempts conn (pending_settlements limit w.db)) _
            (count_attempts-Keeps conn (pending_settlements limit w.db))
            λ _. Keeps-pure (pending_settlements limit w.db)).at
          w h;
  }

  pub claim-Keeps : (conn : Connection) (limit : ℕ) → Keeps P (claim_pending_settlements conn limit)
  unfolding claim_pending_settlements
  claim-Keeps conn limit =
      KeepsOk-in_tx call (claim_rows conn limit) call-db
        (Keeps-KeepsOk (claim_rows-Keeps conn limit))

-- Over a busy connection a claim changes no table, and fails when there is a row to claim.
over_busy-db : (rows : List SettlementRecord) (w : World) → (count_attempts busy rows w).1.db ≡ w.db
unfolding count_attempts
over_busy-db [] w = refl
over_busy-db (s ∷ rest) w = refl

over_busy_none :
    (rows : List SettlementRecord) (w : World) {u : Unit {0}}
    → (count_attempts busy rows w).0 ≡ ok u
    → rows ≡ []
unfolding count_attempts
over_busy_none [] w e = refl
over_busy_none (s ∷ rest) w e = cc

pub busy_claim-db : (limit : ℕ) (w : World) → (claim_pending_settlements busy limit w).1.db ≡ w.db
unfolding claim_pending_settlements claim_rows
busy_claim-db limit w =
    (KeepsOk-in_tx {P = λ db. db ≡ w.db} call (claim_rows busy limit) call-db (
        Keeps-KeepsOk (
          Keeps-bind call _ (Keeps-same call call-db) λ _. record {
            at = λ v h.
                (Keeps-bind {P = λ db. db ≡ w.db}
                    (count_attempts busy (pending_settlements limit v.db)) _
                    (Keeps-same _ (over_busy-db (pending_settlements limit v.db)))
                    λ _. Keeps-pure (pending_settlements limit v.db)).at
                  v h;
          }))).at
      w refl

pub busy_claim_empty :
    (limit : ℕ) (w : World) (rows : List SettlementRecord)
    → (claim_pending_settlements busy limit w).0 ≡ ok rows
    → rows ≡ []
unfolding claim_pending_settlements claim_rows count_attempts
busy_claim_empty limit w rows h =
    let v = (call w).1 in
    let k = (in_tx_commits call (claim_rows busy limit) w rows call-db h).0 in
    let (u, q, step) = bind_ok call _ v k in
    let (u', q', step') =
      bind_ok (count_attempts busy (pending_settlements limit (call v).1.db)) _ (call v).1
        (ap (λ r. r.0) (sym step) ∙ k) in
    claimed_selected busy limit w rows h
    ∙ ap (pending_settlements limit) (sym (call-db v ∙ call-db w))
    ∙ over_busy_none (pending_settlements limit (call v).1.db) (call v).1 q'
