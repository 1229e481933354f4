-- ===== src/Idempotency/Guard/Race/Invariant.antt =====
-- At most one client is in its operation, and at most one outcome is final.
use banking_plateform.Base.{ℕ, ◌+◌, ◌≤◌, ◌≡◌, refl, ap, ◌∙◌, Bool, true, false, Str, arith}
use banking_plateform.Shared.Errors.{Result, ok, err}
use banking_plateform.Idempotency.Record.{Record}
use banking_plateform.Idempotency.Store.{get}
use banking_plateform.Idempotency.Guard.Calm.{
  Calm, has_record-Same, get-Same, wait-Same, Acquires, try_acquire-Acquires, finish-Ends, is_there,
}
use banking_plateform.Idempotency.Guard.Race.{
  Pc, waiting, done, after_read, after_acquire, Move, read, grab, operate, close, wait, Race,
  update, Step, client, surroundings, Reach, start, later,
}
use banking_plateform.Storage.{World}
use banking_plateform.Idempotency.Guard.Race.Moves.{
  Inv, holds, moves_aside, moves_in, moves_on, moves_out,
}

module _ (scope key : Str) where
  after_read-holds : (r : Result Record) → holds (after_read r) ≡ false
  after_read-holds (ok x) = refl
  after_read-holds (err e) = ground arith

  acquire-Inv :
      (s : Race) (i : ℕ) (r : Result Bool) (v : World)
      → Inv scope key s
      → Acquires scope key s.world r v
      → Inv scope key
          (record { world = v; pc = update s.pc i (after_acquire r); finals = s.finals + 0 })
  acquire-Inv s i (ok true) v inv a =
      moves_in scope key s i v inv a.calm (a.won refl).0 (a.won refl).1
  acquire-Inv s i (ok false) v inv a = moves_aside scope key s i v waiting inv refl a.calm a.kept
  acquire-Inv s i (err e) v inv a = moves_aside scope key s i v done inv refl a.calm a.kept

  Move-Inv :
      (s : Race) (i : ℕ) {q p : Pc} {v : World} {n : ℕ}
      → Inv scope key s
      → s.pc i ≡ q
      → Move scope key s.world q v p n
      → Inv scope key (record { world = v; pc = update s.pc i p; finals = s.finals + n })
  Move-Inv s i inv e read =
      let same = get-Same scope key s.world inv.calm in
      moves_aside scope key s i _ _ inv (after_read-holds (get scope key s.world).0) same.calm
        λ h. has_record-Same scope key same ∙ h
  Move-Inv s i inv e (grab f) =
      acquire-Inv s i _ _ inv (try_acquire-Acquires scope key f s.world inv.calm)
  Move-Inv s i inv e (operate fn c same) =
      moves_on scope key s i (fn s.world).1 (fn s.world).0 inv e c (ap is_there same)
  Move-Inv s i inv e (close f fn r) =
      moves_out scope key s i _ r inv e (finish-Ends scope key f fn r s.world inv.calm)
  Move-Inv s i inv e (wait f) =
      let same = wait-Same scope key f s.world inv.calm in
      moves_aside scope key s i _ done inv refl same.calm λ h. has_record-Same scope key same ∙ h

  Step-Inv : {s t : Race} → Inv scope key s → Step scope key s t → Inv scope key t
  Step-Inv {s} inv (client i m) = Move-Inv s i inv refl m
  Step-Inv inv (surroundings v c same) = record {
    calm = c;
    unique = inv.unique;
    held = λ i h. ap is_there same ∙ inv.held i h;
    spent = inv.spent;
    kept = λ l. ap is_there same ∙ inv.kept l;
    once = inv.once;
  }

  Reach-Inv : {w : World} {s : Race} → Calm w → Reach scope key w s → Inv scope key s
  Reach-Inv c start = record {
    calm = c;
    unique = λ i j h. cc;
    held = λ i h. cc;
    spent = λ i h. cc;
    kept = λ l. elim l [ ];
    once = omega arith;
  }
  Reach-Inv c (later r m) = Step-Inv (Reach-Inv c r) m

  -- However the clients of one key are interleaved, and whatever calls of the store fail: two of
  -- them are never between the acquisition of the key and the end of their run. Nobody else writes
  -- the record of the key, it does not expire, and the operations leave it alone.
  pub one_owner :
      {w : World} {s : Race}
      → Calm w
      → Reach scope key w s
      → (i j : ℕ) → holds (s.pc i) ≡ true
      → holds (s.pc j) ≡ true
      → i ≡ j
  one_owner c r i j hi hj = (Reach-Inv c r).unique i j hi hj

  -- However the clients of one key are interleaved, and whatever calls of the store fail: at most
  -- one operation ends with a result or with an error that is not safe to retry. Nobody else writes
  -- the record of the key, it does not expire, and the operations leave it alone.
  pub one_final_outcome : {w : World} {s : Race} → Calm w → Reach scope key w s → s.finals ≤ 1
  one_final_outcome c r = (Reach-Inv c r).once
