-- ===== src/System/History/Updates.antt =====
-- Updates of stored rows leave the columns alone that are never updated.
use banking_plateform.Base.{
  ◌≡◌, refl, ap, List, [], ◌∷◌, map, Str, str_eq, Bool-cases, inl, inr, if◌then◌else◌,
}
use banking_plateform.Outbox.Event.{Event}
use banking_plateform.Outbox.Repository.{set_status}
use banking_plateform.System.History.{terms, command_of, message}
use banking_plateform.Transfer.Saga.{SagaRecord, SettlementRecord}
use banking_plateform.Transfer.SagaStore.{update_sagas, update_settlements}

-- An update of the rows of one name that leaves the columns of a view alone.
viewed_updated :
    {A B : Type 0} (name : A → Str) (view : A → B) (f : A → A) (upd : List A → List A) (id : Str)
    → upd [] ≡ []
    → ((r : A) (rows : List A)
        → upd (r ∷ rows) ≡ (if str_eq (name r) id then f r else r) ∷ upd rows)
    → ((r : A) → view (f r) ≡ view r)
    → (rows : List A) → map view (upd rows) ≡ map view rows
viewed_updated name view f upd id nil cons same [] = ap (map view) nil
viewed_updated name view f upd id nil cons same (r ∷ rows) =
    let rest = viewed_updated name view f upd id nil cons same rows in
    elim (Bool-cases (str_eq (name r) id)) [
      | inl e ↦ rw (cons r rows, e) (λ i. same r i ∷ rest i)
      | inr e ↦ rw (cons r rows, e) (ap (λ l. view r ∷ l) rest)
    ]

pub sagas_updated :
    (f : SagaRecord → SagaRecord) (id : Str) (rows : List SagaRecord)
    → ((s : SagaRecord) → command_of (f s) ≡ command_of s)
    → map command_of (update_sagas f id rows) ≡ map command_of rows
unfolding update_sagas
sagas_updated f id rows same =
    viewed_updated (λ (s : SagaRecord). s.id) command_of f (update_sagas f id) id refl
      (λ r rest. refl) same rows

pub settlements_updated :
    (f : SettlementRecord → SettlementRecord) (id : Str) (rows : List SettlementRecord)
    → ((s : SettlementRecord) → terms (f s) ≡ terms s)
    → map terms (update_settlements f id rows) ≡ map terms rows
unfolding update_settlements
settlements_updated f id rows same =
    viewed_updated (λ (s : SettlementRecord). s.id) terms f (update_settlements f id) id refl
      (λ r rest. refl) same rows

pub events_updated :
    (f : Event → Event) (id : Str) (rows : List Event)
    → ((e : Event) → message (f e) ≡ message e)
    → map message (set_status f id rows) ≡ map message rows
unfolding set_status
events_updated f id rows same =
    viewed_updated (λ (e : Event). e.id) message f (set_status f id) id refl (λ r rest. refl) same
      rows
