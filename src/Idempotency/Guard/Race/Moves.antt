-- ===== src/Idempotency/Guard/Race/Moves.antt =====
-- What the moves of one client do to the invariant: aside, in, on and out.
use banking_plateform.Base.{
  ℕ, ◌+◌, ◌≤◌, ◌<◌, ◌==◌, ==_iff, ◌≡◌, ◌⊎◌, refl, sym, ap, ◌∙◌, Bool, true, false, Str, Bool-cases,
  ltb, inl, inr, arith,
}
use banking_plateform.Shared.Errors.{Result}
use banking_plateform.Idempotency.Record.{Outcome}
use banking_plateform.Idempotency.Guard.Calm.{Calm, is_final, has_record, Ends}
use banking_plateform.Idempotency.Guard.Race.{Pc, owner, done, ended, weight, Race, update}
use banking_plateform.Storage.{World}

-- The client has acquired the key and not yet given its record back.
abbrev pub holds : Pc → Bool
holds owner = true
holds (ended r) = true
holds _ = false

abbrev pub used : Pc → ℕ
used (ended r) = weight r
used _ = 0

module _ (scope key : Str) where
  pub record Inv (s : Race) : Type 0 where
    pub calm : Calm s.world
    pub unique : (i j : ℕ) → holds (s.pc i) ≡ true → holds (s.pc j) ≡ true → i ≡ j
    pub held : (i : ℕ) → holds (s.pc i) ≡ true → has_record scope key s.world ≡ true
    pub spent : (i : ℕ) → holds (s.pc i) ≡ true → s.finals ≡ used (s.pc i)
    pub kept : 0 < s.finals → has_record scope key s.world ≡ true
    pub once : s.finals ≤ 1

update_same : (f : ℕ → Pc) (i : ℕ) (p : Pc) → update f i p i ≡ p
update_same f i p = rw ((==_iff i i).1 refl) refl

-- The other clients stay where they are.
update_cases : (f : ℕ → Pc) (i : ℕ) (p : Pc) (j : ℕ) → (i ≡ j) ⊎ (update f i p j ≡ f j)
update_cases f i p j = elim (Bool-cases (i == j)) [
  | inl e ↦ inl ((==_iff i j).0 e)
  | inr e ↦ inr (rw e refl)
]

module _ (f : ℕ → Pc) (i : ℕ) (p : Pc) where
  -- When the moving client does not hold afterwards, one that holds has not moved.
  left_behind : (j : ℕ) → holds p ≡ false → holds (update f i p j) ≡ true → update f i p j ≡ f j
  left_behind j n h = elim (update_cases f i p j) [
    | inl e ↦
        let x : holds p ≡ true = ap holds (sym (update_same f i p) ∙ ap (update f i p) e) ∙ h in cc
    | inr e ↦ e
  ]

module _ (scope key : Str) where
  -- A move to a state that does not hold, which leaves a record under the key.
  pub moves_aside :
      (s : Race) (i : ℕ) (v : World) (p : Pc)
      → Inv scope key s
      → holds p ≡ false
      → Calm v
      → (has_record scope key s.world ≡ true → has_record scope key v ≡ true)
      → Inv scope key (record { world = v; pc = update s.pc i p; finals = s.finals + 0 })
  moves_aside s i v p inv n c k = record {
    calm = c;
    unique = λ a b ha hb.
        inv.unique a b (ap holds (sym (left_behind s.pc i p a n ha)) ∙ ha)
          (ap holds (sym (left_behind s.pc i p b n hb)) ∙ hb);
    held = λ a ha. k (inv.held a (ap holds (sym (left_behind s.pc i p a n ha)) ∙ ha));
    spent = λ a ha.
        omega arith
        ∙ inv.spent a (ap holds (sym (left_behind s.pc i p a n ha)) ∙ ha)
        ∙ ap used (sym (left_behind s.pc i p a n ha));
    kept = λ l. k (inv.kept (omega (arith, l)));
    once = omega (arith, inv.once);
  }

  -- Nobody holds while no record stands under the key.
  nobody :
      (s : Race) (i : ℕ)
      → Inv scope key s
      → has_record scope key s.world ≡ false
      → holds (s.pc i) ≡ false
  nobody s i inv n = elim (Bool-cases (holds (s.pc i))) [
    | inl h ↦ let x = inv.held i h in cc
    | inr h ↦ h
  ]

  none_final : (s : Race) → Inv scope key s → has_record scope key s.world ≡ false → s.finals ≡ 0
  none_final s inv n = elim (Bool-cases (ltb 0 s.finals)) [
    | inl l ↦ let x = inv.kept (ground arith) in cc
    | inr l ↦ ground arith
  ]

  -- The client that has found the key free and taken it.
  pub moves_in :
      (s : Race) (i : ℕ) (v : World)
      → Inv scope key s
      → Calm v
      → has_record scope key s.world ≡ false
      → has_record scope key v ≡ true
      → Inv scope key (record { world = v; pc = update s.pc i owner; finals = s.finals + 0 })
  moves_in s i v inv c free taken = record {
    calm = c;
    unique = λ a b ha hb. sym (only a ha) ∙ only b hb;
    held = λ a ha. taken;
    spent = λ a ha.
        omega (arith, none_final s inv free)
        ∙ ap used (sym (update_same s.pc i owner) ∙ ap (update s.pc i owner) (only a ha));
    kept = λ l. taken;
    once = omega (arith, none_final s inv free);
  }
    where
      only : (a : ℕ) → holds (update s.pc i owner a) ≡ true → i ≡ a
      only a ha = elim (update_cases s.pc i owner a) [
        | inl e ↦ e
        | inr e ↦
            let x : holds (s.pc a) ≡ true = ap holds (sym e) ∙ ha in
            let y = nobody s a inv free in cc
      ]

  -- The holder, at the end of its operation.
  pub moves_on :
      (s : Race) (i : ℕ) (v : World) (r : Result Outcome)
      → Inv scope key s
      → s.pc i ≡ owner
      → Calm v
      → has_record scope key v ≡ has_record scope key s.world
      → Inv scope key
          (record { world = v; pc = update s.pc i (ended r); finals = s.finals + weight r })
  moves_on s i v r inv at_owner c same = record {
    calm = c;
    unique = λ a b ha hb. sym (only a ha) ∙ only b hb;
    held = λ a ha. there;
    spent = λ a ha.
        ap (λ n. n + weight r) zero_before
        ∙ omega arith
        ∙ ap used (sym (update_same s.pc i (ended r)) ∙ ap (update s.pc i (ended r)) (only a ha));
    kept = λ l. there;
    once = ground (arith, zero_before);
  }
    where
      mine : holds (s.pc i) ≡ true
      mine = ap holds at_owner

      zero_before : s.finals ≡ 0
      zero_before = inv.spent i mine ∙ ap used at_owner

      there : has_record scope key v ≡ true
      there = same ∙ inv.held i mine

      only : (a : ℕ) → holds (update s.pc i (ended r) a) ≡ true → i ≡ a
      only a ha = elim (update_cases s.pc i (ended r) a) [
        | inl e ↦ e
        | inr e ↦ inv.unique i a mine (ap holds (sym e) ∙ ha)
      ]

  -- The holder, giving its record back.
  pub moves_out :
      (s : Race) (i : ℕ) (v : World) (r : Result Outcome)
      → Inv scope key s
      → s.pc i ≡ ended r
      → Ends scope key s.world r v
      → Inv scope key (record { world = v; pc = update s.pc i done; finals = s.finals + 0 })
  moves_out s i v r inv at_end e = record {
    calm = e.calm;
    unique = λ a b ha hb. elim (nobody_left a ha) [ ];
    held = λ a ha. elim (nobody_left a ha) [ ];
    spent = λ a ha. elim (nobody_left a ha) [ ];
    kept = λ l. e.kept (final l) (inv.held i mine);
    once = omega (arith, inv.once);
  }
    where
      mine : holds (s.pc i) ≡ true
      mine = ap holds at_end

      final : 0 < s.finals + 0 → is_final r ≡ true
      final l = let x : s.finals ≡ weight r = inv.spent i mine ∙ ap used at_end in ground (arith, l)

      nobody_left : (a : ℕ) → holds (update s.pc i done a) ≡ true → ⊥
      nobody_left a ha =
          let stays = left_behind s.pc i done a refl ha in
          let same : i ≡ a = inv.unique i a mine (ap holds (sym stays) ∙ ha) in
          let x : holds done ≡ true =
            ap holds (sym (update_same s.pc i done) ∙ ap (update s.pc i done) same) ∙ ha in
          cc
