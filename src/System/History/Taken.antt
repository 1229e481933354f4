-- ===== src/System/History/Taken.antt =====
-- A transfer is committed only where no saga has its idempotency key, and leaves one.
use banking_plateform.Base.{
  ◌≡◌, refl, sym, ap, ◌∙◌, Bool, true, false, ◌||◌, List, [], ◌∷◌, ◌++◌, map, exists, Str, str_eq,
  str_eq_refl, arith,
}
use banking_plateform.Ledger.Repository.{post_transaction_in_tx}
use banking_plateform.Storage.{Db}
use banking_plateform.Storage.Calls.{call-db, call_annotated-db}
use banking_plateform.Storage.Keeps.{Keeps, Keeps-bind}
use banking_plateform.Storage.Marks.{Marks, Marks-before, Marks-in_tx}
use banking_plateform.Storage.Monad.{M, call_annotated}
use banking_plateform.System.History.{IsLater, IsLater-refl, command_of}
use banking_plateform.System.History.Writes.{
  IsLater-writes, insert_settlement-IsLater, posting-IsLater,
}
use banking_plateform.Transfer.Coordinator.{
  TransferCommit, insert_events, transfer_writes, post_transfer,
}
use banking_plateform.Transfer.Coordinator.Sound.{insert_events-Keeps}
use banking_plateform.Transfer.Saga.{SagaRecord}
use banking_plateform.Transfer.SagaStore.{insert_saga, insert_settlement}

-- Whether a saga is stored under the key.
abbrev pub has_saga : Str → Db → Bool
has_saga key db = exists (λ s. str_eq s.idempotency_key key) db.sagas

abbrev pub Free : Str → Db → Type 0
Free key db = has_saga key db ≡ false

abbrev pub Taken : Str → Db → Type 0
Taken key db = has_saga key db ≡ true

-- The keys of the sagas, read from the columns that are never updated.
keys_viewed :
    (key : Str) (rows : List SagaRecord)
    → exists (λ s. str_eq s.idempotency_key key) rows
      ≡ exists (λ v. str_eq v.1 key) (map command_of rows)
keys_viewed key [] = refl
keys_viewed key (s ∷ rows) = ground (arith, keys_viewed key rows)

pub exists-append {ℓ} :
    {A : Type ℓ} (p : A → Bool) (xs ys : List A) → exists p xs ≡ true → exists p (xs ++ ys) ≡ true
exists-append p [] ys h = cc
exists-append p (x ∷ xs) ys h = ground (arith, exists-append p xs ys)

pub later-Taken : (key : Str) (base db : Db) → IsLater base db → Taken key base → Taken key db
later-Taken key base db l h =
    keys_viewed key db.sagas
    ∙ ap (exists (λ v. str_eq v.1 key)) l.sagas.1
    ∙ exists-append (λ v. str_eq v.1 key) (map command_of base.sagas) l.sagas.0
        (sym (keys_viewed key base.sagas) ∙ h)

module _ (key : Str) where
  Taken-Keeps {ℓ} :
      {A : Type ℓ} {m : M A} → ((base : Db) → Keeps (IsLater base) m) → Keeps (Taken key) m
  Taken-Keeps {m} k = record {
    at = λ w h. later-Taken key w.db (m w).1.db ((k w.db).at w (IsLater-refl w.db)) h;
  }

either_free :
    (s : SagaRecord) (rows : List SagaRecord)
    → exists (λ r. str_eq r.id s.id || str_eq r.idempotency_key s.idempotency_key) rows ≡ false
    → exists (λ r. str_eq r.idempotency_key s.idempotency_key) rows ≡ false
either_free s [] h = refl
either_free s (r ∷ rows) h = ground (arith, either_free s rows)

last_taken :
    (s : SagaRecord) (rows : List SagaRecord)
    → exists (λ r. str_eq r.idempotency_key s.idempotency_key) (rows ++ s ∷ []) ≡ true
last_taken s [] = rw (str_eq_refl s.idempotency_key) refl
last_taken s (r ∷ rows) = ground (arith, last_taken s rows)

insert_saga-Marks :
    (s : SagaRecord) → Marks (Free s.idempotency_key) (Taken s.idempotency_key) (insert_saga s)
unfolding insert_saga
insert_saga-Marks s = record {
  at = λ w e. (
    ground (arith, call-db w, either_free s w.db.sagas),
    ground (arith, call-db w, last_taken s w.db.sagas),
  );
}

-- The commit of a transfer.
pub post_transfer-Marks :
    (c : TransferCommit)
    → Marks (Free c.saga.idempotency_key) (Taken c.saga.idempotency_key) (post_transfer c)
unfolding post_transfer transfer_writes
post_transfer-Marks c =
    let key = c.saga.idempotency_key in
    Marks-in_tx call_annotated _ call_annotated-db (
      Marks-before (insert_saga c.saga) _ (insert_saga-Marks c.saga) λ _.
        Keeps-bind (post_transaction_in_tx c.ledger_tx) _
          (Taken-Keeps key (λ base. posting-IsLater base c.ledger_tx))
          λ _.
            Keeps-bind (insert_events c.events) _
              (Taken-Keeps key (λ base. insert_events-Keeps (IsLater-writes base) c.events))
              λ _.
                Keeps-bind (insert_settlement c.settlement) _
                  (Taken-Keeps key (λ base. insert_settlement-IsLater base c.settlement))
                  λ _. Taken-Keeps key (λ base. (IsLater-writes base).saga_state _ _ _))
