-- ===== src/System/Outside.antt =====
-- The relay and the check of the books keep the invariant of the database.
use banking_plateform.Base.{◌≡◌, refl, ℕ, ◌+◌, List, [], ◌∷◌, Str, arith}
use banking_plateform.Ledger.Repository.{verify_global_ledger_balanced}
use banking_plateform.Outbox.Event.{Event}
use banking_plateform.Outbox.Relay.{Relay, relay_once}
use banking_plateform.Outbox.Repository.{
  mark_published_in_tx, mark_failed_in_tx, mark_answer, publish_one, publish_all, claim_and_publish,
  process_pending_batch, pending_events,
}
use banking_plateform.Settlement.Reconcile.{reconcile}
use banking_plateform.Shared.Errors.{Result, ok, err}
use banking_plateform.Storage.{Db, World}
use banking_plateform.Storage.Calls.{call-db, call_annotated-db}
use banking_plateform.Storage.Keeps.{
  Keeps, Keeps-same, Keeps-bind, Keeps-pure, Keeps-KeepsOk, KeepsOk-in_tx,
}
use banking_plateform.Storage.Monad.{M, call, call_annotated}

verify-db : (w : World) → (verify_global_ledger_balanced w).1.db ≡ w.db
unfolding verify_global_ledger_balanced
verify-db w = ground (arith, call_annotated-db w)

pub reconcile-db : (w : World) → (reconcile w).1.db ≡ w.db
unfolding reconcile
reconcile-db w = verify-db w

-- What keeps the outbox unread, the marks of the relay keep.
module _ {P : Db → Type 0}
    (blind : (db : Db) (events : List Event) → P db → P (record db { outbox = events })) where
  pub mark_published-Keeps : (id : Str) → Keeps P (mark_published_in_tx id)
  unfolding mark_published_in_tx
  mark_published-Keeps id =
      Keeps-bind call _ (Keeps-same call call-db) λ _. record { at = λ w h. blind w.db _ h }

  pub mark_failed-Keeps : (id : Str) → Keeps P (mark_failed_in_tx id)
  unfolding mark_failed_in_tx
  mark_failed-Keeps id =
      Keeps-bind call _ (Keeps-same call call-db) λ _. record { at = λ w h. blind w.db _ h }

-- What the two marks keep, and the publisher, stays while the relay runs; a mark as published comes
-- behind a success of the publisher.
module _ {P : Db → Type 0} (publish : Event → M (Unit {0}))
    (published : (e : Event) (w : World)
      → (publish e w).0 ≡ ok tt
      → Keeps P (mark_published_in_tx e.id))
    (failed : (id : Str) → Keeps P (mark_failed_in_tx id))
    (outside : (e : Event) → Keeps P (publish e)) where
  mark_answer-Keeps :
      (e : Event) (w : World) (r : Result (Unit {0}))
      → (publish e w).0 ≡ r
      → Keeps P (mark_answer publish e r)
  unfolding mark_answer
  mark_answer-Keeps e w (ok _) q =
      Keeps-bind (mark_published_in_tx e.id) _ (published e w q) λ _. Keeps-pure 1
  mark_answer-Keeps e w (err _) q =
      Keeps-bind (mark_failed_in_tx e.id) _ (failed e.id) λ _. Keeps-pure 0

  publish_one-Keeps : (e : Event) → Keeps P (publish_one publish e)
  unfolding publish_one
  publish_one-Keeps e = record {
    at =
        λ w h. (mark_answer-Keeps e w (publish e w).0 refl).at (publish e w).1 ((outside e).at w h);
  }

  publish_all-Keeps : (n : ℕ) (es : List Event) → Keeps P (publish_all publish n es)
  unfolding publish_all
  publish_all-Keeps n [] = Keeps-pure n
  publish_all-Keeps n (e ∷ es) =
      Keeps-bind (publish_one publish e) _ (publish_one-Keeps e) λ m. publish_all-Keeps (n + m) es

  claim_and_publish-Keeps : (limit : ℕ) → Keeps P (claim_and_publish publish limit)
  unfolding claim_and_publish
  claim_and_publish-Keeps limit =
      Keeps-bind call_annotated _ (Keeps-same call_annotated call_annotated-db)
        λ _. record { at = λ w h. (publish_all-Keeps 0 (pending_events limit w.db)).at w h }

  pub relay_once-Keeps : (relay : Relay) → Keeps P (relay_once publish relay)
  unfolding relay_once process_pending_batch
  relay_once-Keeps relay =
      KeepsOk-in_tx call_annotated _ call_annotated-db (Keeps-KeepsOk (claim_and_publish-Keeps _))
