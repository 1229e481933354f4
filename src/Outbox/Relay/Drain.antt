-- ===== src/Outbox/Relay/Drain.antt =====
-- A turn of the relay works off a batch of what is pending (internal/outbox/app/relay.go with
-- adapters/postgres/repository.go).
use banking_plateform.Base.{
  ℕ, ◌+◌, ◌-◌, ◌≤◌, ◌<◌, ◌≡◌, refl, sym, ap, subst, ◌∙◌, Bool, false, List, [], ◌∷◌, length, keep,
  order_by, arith,
}
use banking_plateform.Outbox.Event.{Event}
use banking_plateform.Outbox.Relay.{Relay, relay_once}
use banking_plateform.Outbox.Repository.{
  is_pending, older, pending_events, set_status, to_published, to_failed, mark_published_in_tx,
  mark_failed_in_tx, mark_answer, publish_one, publish_all, claim_and_publish,
  process_pending_batch, or_ten,
}
use banking_plateform.Shared.Errors.{Result, ok, err}
use banking_plateform.Storage.{World}
use banking_plateform.Storage.Queue.{
  count, take_all, length-order_by, left, left-updated, left-nothing, left-selected, none_left,
}
use banking_plateform.Storage.Calls.{call_annotated_quiet, finish_quiet}
use banking_plateform.Storage.Monad.{M, call, call_annotated, in_tx}

abbrev pub waits : Event → Bool
waits e = is_pending e.status

abbrev pub pending_rows : List Event → List Event
pending_rows rows = keep waits rows

abbrev pub with_outbox : List Event → World → World
with_outbox rows w = record w { db = record w.db { outbox = rows } }

-- What still waits when some events have been marked.
abbrev left_over : List Event → World → ℕ
left_over es w = left (λ e. e.id) waits es w.db.outbox

-- An event is marked, and waits no more.
record IsMarked (e : Event) (w : World) (answer : Result ℕ × World) (n : ℕ) : Type 0 where
  rows : List Event
  same : answer ≡ (ok n, with_outbox rows w)
  fewer : (es : List Event) → left_over es (with_outbox rows w) ≡ left_over (e ∷ es) w

module _ (e : Event) (w : World) (quiet : w.script ≡ []) where
  marked :
      (f : Event → Event) (n : ℕ) (answer : Result ℕ × World)
      → ((r : Event) → waits (f r) ≡ false)
      → answer ≡ (ok n, with_outbox (set_status f e.id w.db.outbox) w)
      → IsMarked e w answer n
  unfolding set_status
  marked f n answer closes same = record {
    rows = set_status f e.id w.db.outbox;
    same = same;
    fewer = λ es.
        left-updated (λ r. r.id) waits f (set_status f e.id) e refl (λ r rest. refl) closes es
          w.db.outbox;
  }

  mark_answer-IsMarked :
      (publish : Event → M (Unit {0})) (r : Result (Unit {0}))
      → (n : ℕ) × IsMarked e w (mark_answer publish e r w) n × (r ≡ ok tt → n ≡ 1)
  unfolding mark_answer mark_published_in_tx mark_failed_in_tx call
  mark_answer-IsMarked publish (ok _) =
      (1, marked (to_published w.now) 1 _ (λ r. refl) (rw quiet refl), λ p. refl)
  mark_answer-IsMarked publish (err x) =
      (0, marked to_failed 0 _ (λ r. refl) (rw quiet refl), λ p. cc)

-- The publisher changes nothing, whatever it answers.
module _ (publish : Event → M (Unit {0}))
    (still : (e : Event) (w : World) → (publish e w).1 ≡ w) where
  abbrev pub Succeeds : Type 0
  Succeeds = (e : Event) (w : World) → (publish e w).0 ≡ ok tt

  publish_one-IsMarked :
      (e : Event) (w : World)
      → w.script ≡ []
      → (n : ℕ) × IsMarked e w (publish_one publish e w) n × (Succeeds → n ≡ 1)
  unfolding publish_one
  publish_one-IsMarked e w q =
      let (n, m, s) = mark_answer-IsMarked e w q publish (publish e w).0 in
      (
        n,
        subst (λ v. IsMarked e w (mark_answer publish e (publish e w).0 v) n) (sym (still e w)) m,
        λ always. s (always e w),
      )

  -- A batch that was worked off, from `w`.
  pub record IsBatch (w : World) (answer : Result ℕ × World) (n more most : ℕ) : Type 0 where
    pub total : ℕ
    pub rows : List Event
    pub same : answer ≡ (ok total, with_outbox rows w)
    pub fewer : count waits rows ≤ most
    pub counted : Succeeds → total ≡ n + more

  publish_all-IsBatch :
      (n : ℕ) (es : List Event) (w : World)
      → w.script ≡ []
      → IsBatch w (publish_all publish n es w) n (length es) (left_over es w)
  unfolding publish_all
  publish_all-IsBatch n [] w q = record {
    total = n;
    rows = w.db.outbox;
    same = refl;
    fewer = omega (arith, left-nothing (λ (e : Event). e.id) waits w.db.outbox);
    counted = λ s. omega arith;
  }
  publish_all-IsBatch n (e ∷ es) w q =
      let (m, one, s) = publish_one-IsMarked e w q in
      let rest = publish_all-IsBatch (n + m) es (with_outbox one.rows w) q in
      record {
        total = rest.total;
        rows = rest.rows;
        same = rw one.same rest.same;
        fewer = omega (arith, rest.fewer, one.fewer es);
        counted = λ always. omega (arith, rest.counted always, s always);
      }

  -- A turn of the relay in quiet surroundings takes a batch off what is pending.
  pub relay_once-IsBatch :
      (relay : Relay) (w : World)
      → w.script ≡ []
      → IsBatch w
          (relay_once publish relay w)
          0
          (length (pending_events (or_ten relay.batch_size) w.db))
          (count waits w.db.outbox - relay.batch_size)
  unfolding relay_once process_pending_batch claim_and_publish in_tx
  relay_once-IsBatch relay w q =
      let es = pending_events (or_ten relay.batch_size) w.db in
      let run = publish_all-IsBatch 0 es w q in
      let v = with_outbox run.rows w in
      let all =
        left-selected (λ (e : Event). e.id) waits older (or_ten relay.batch_size) w.db.outbox in
      record {
        total = run.total;
        rows = run.rows;
        same =
            rw (call_annotated_quiet w q, call_annotated_quiet w q, run.same)
              (finish_quiet call_annotated w.db run.total v (call_annotated_quiet v q));
        fewer = ground (arith, run.fewer, all);
        counted = run.counted;
      }

module _ (publish : Event → M (Unit {0}))
    (succeeds : (e : Event) (w : World) → publish e w ≡ (ok tt, w)) where
  -- In quiet surroundings, and with a publisher that succeeds and changes nothing, a turn of the
  -- relay whose batch takes all that is pending answers their number and leaves none pending.
  pub relay_drains :
      (relay : Relay) (w : World)
      → w.script ≡ []
      → 0 < relay.batch_size
      → length (pending_rows w.db.outbox) ≤ relay.batch_size
      → ((relay_once publish relay w).0 ≡ ok (length (pending_rows w.db.outbox)))
        × (pending_rows (relay_once publish relay w).1.db.outbox ≡ [])
  relay_drains relay w q p l =
      let still = λ (e : Event) (v : World). ap (λ a. a.1) (succeeds e v) in
      let batch = relay_once-IsBatch publish still relay w q in
      let es = order_by older (pending_rows w.db.outbox) in
      let size = length-order_by older (pending_rows w.db.outbox) in
      let whole = take_all (or_ten relay.batch_size) es (ground (arith, size)) in
      let number : batch.total ≡ length (pending_rows w.db.outbox) =
        batch.counted (λ e v. ap (λ a. a.0) (succeeds e v))
        ∙ omega (arith, ap length whole, size) in
      (
        ap (λ a. a.0) batch.same ∙ ap ok number,
        ap (λ a. pending_rows a.1.db.outbox) batch.same
            ∙ none_left waits batch.rows (omega (arith, batch.fewer)),
      )
