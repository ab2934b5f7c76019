-- ===== src/Effects/Scheduler/Order.antt =====
-- m2b.ts, `runM2BScheduler`: which slots a run executes, and what resuming it does.
use malign_ai.Base.{
  ℕ, zero, suc, ◌+◌, ◌≤◌, true, false, List, [], ◌∷◌, ◌++◌, ◌≡◌, refl, ◌∙◌, ap, sym, arith, length,
  drop, subst, ◌⊎◌, inl, inr,
}
use malign_ai.Effects.Scheduler.{
  SlotResult, resolved, suspended, SchedulerRun, run_slots, after_slot, run_m2b_scheduler, pushed,
}

-- `n` indices from `index` on.
abbrev pub from_index : ℕ → ℕ → List ℕ
from_index index zero = []
from_index index (suc n) = index ∷ from_index (suc index) n

zero_right : (n : ℕ) → n + 0 ≡ n
zero_right n = omega arith

zero_left : (n : ℕ) → 0 + n ≡ n
zero_left n = omega arith

suc_right : (a n : ℕ) → a + suc n ≡ suc a + n
suc_right a n = omega arith

suc_left : (n m : ℕ) → suc n + m ≡ suc (n + m)
suc_left n m = omega arith

from_index-append :
    (index n m : ℕ) → from_index index n ++ from_index (index + n) m ≡ from_index index (n + m)
from_index-append index zero m = rw (zero_right index, zero_left m) refl
from_index-append index (suc n) m =
    rw (suc_left n m, suc_right index n) (ap (λ x. index ∷ x) (from_index-append (suc index) n m))

-- The caller's state after the first `n` of the slots, one after the other.
abbrev pub after_slots : {S T : Type 0} → (S → T → ℕ → SlotResult × S) → ℕ → ℕ → List T → S → S
after_slots execute index zero slots s = s
after_slots execute index (suc n) [] s = s
after_slots execute index (suc n) (slot ∷ slots) s =
    after_slots execute (suc index) n slots (execute s slot index).1

-- The run ended at the end, or was suspended by a slot that it executed.
abbrev Ended : ℕ → ℕ → SchedulerRun → Type 0
Ended n m r = ((r.is_complete ≡ true) × (n ≡ m)) ⊎ ((r.is_complete ≡ false) × (1 ≤ n) × (n ≤ m))

module _ {S T : Type 0} (execute : S → T → ℕ → SlotResult × S) where
  -- A run that has executed `gone` of the slots that were left.
  record Goes (index : ℕ) (slots : List T) (s : S) (r : SchedulerRun × S) : Type 0 where
    gone : ℕ
    order : (r.0).execution_order ≡ from_index index gone
    stop : (r.0).next_index ≡ index + gone
    state : r.1 ≡ after_slots execute index gone slots s
    ended : Ended gone (length slots) (r.0)

  one_more :
      (index n m : ℕ) (r : SchedulerRun) → Ended n m r → Ended (suc n) (suc m) (pushed index r)
  one_more index n m r (inl (e, same)) = inl (e, ap suc same)
  one_more index n m r (inr (e, lo, hi)) = inr (e, omega arith, omega arith)

  slot-Goes :
      (index : ℕ) (slot : T) (slots : List T) (s : S) (result : SlotResult × S)
      (later : SchedulerRun × S)
      → result ≡ execute s slot index
      → Goes (suc index) slots (result.1) later
      → Goes index (slot ∷ slots) s (after_slot index result later)
  slot-Goes index slot slots s (suspended, t) later e g = record {
    gone = 1;
    order = refl;
    stop = omega arith;
    state = ap (λ r. r.1) e;
    ended = inr (refl, omega arith, omega arith);
  }
  slot-Goes index slot slots s (resolved, t) later e g = record {
    gone = suc g.gone;
    order = ap (λ x. index ∷ x) g.order;
    stop = omega (arith, g.stop);
    state = g.state ∙ ap (after_slots execute (suc index) g.gone slots) (ap (λ r. r.1) e);
    ended = one_more index g.gone (length slots) (later.0) g.ended;
  }

  run_slots-Goes :
      (index : ℕ) (slots : List T) (s : S) → Goes index slots s (run_slots execute index slots s)
  unfolding run_slots
  run_slots-Goes index [] s = record {
    gone = 0;
    order = refl;
    stop = omega arith;
    state = refl;
    ended = inl (refl, refl);
  }
  run_slots-Goes index (slot ∷ slots) s =
      slot-Goes index slot slots s (execute s slot index) _ refl
        (run_slots-Goes (suc index) slots (execute s slot index).1)

  length-drop : (n : ℕ) (xs : List T) → n ≤ length xs → n + length (drop n xs) ≡ length xs
  length-drop zero xs h = omega arith
  length-drop (suc n) [] h = absurd (omega arith)
  length-drop (suc n) (x ∷ xs) h = omega (arith, length-drop n xs (omega arith))

  -- A run of the scheduler from an index within the slots executes the slots from there on one after
  -- the other, each once, and reports their indices in that order, the index after the last one
  -- executed, and the caller's state that they leave; it is complete just at the end of the slots,
  -- and has otherwise executed a slot.
  pub run_m2b_scheduler_executes :
      (slots : List T) (start : ℕ) (s : S)
      → start ≤ length slots
      → (n : ℕ) × (r : SchedulerRun) × (t : S) × (run_m2b_scheduler slots execute start s ≡ (r, t))
        × (r.execution_order ≡ from_index start n)
        × (r.next_index ≡ start + n)
        × (t ≡ after_slots execute start n (drop start slots) s)
        × (((r.is_complete ≡ true) × (r.next_index ≡ length slots))
            ⊎ ((r.is_complete ≡ false) × (1 ≤ n) × (r.next_index ≤ length slots)))
  unfolding run_m2b_scheduler
  run_m2b_scheduler_executes slots start s h =
      let g = run_slots-Goes start (drop start slots) s in
      let len = length-drop start slots h in
      (
        g.gone,
        _,
        _,
        refl,
        g.order,
        g.stop,
        g.state,
        ends (run_slots execute start (drop start slots) s).0 g.ended g.stop len,
      )
    where
      ends :
          {n m : ℕ} (r : SchedulerRun)
          → Ended n m r
          → r.next_index ≡ start + n
          → start + m ≡ length slots
          → ((r.is_complete ≡ true) × (r.next_index ≡ length slots))
            ⊎ ((r.is_complete ≡ false) × (1 ≤ n) × (r.next_index ≤ length slots))
      ends r (inl (e, same)) stop len = inl (e, omega (arith, stop, len, same))
      ends r (inr (e, lo, hi)) stop len = inr (e, lo, omega (arith, stop, len))

  -- A run that is resumed where an earlier one stopped executes just the slots that come next: the
  -- two orders together are the indices without a gap and without a repetition.
  pub run_m2b_scheduler_resumes :
      (slots : List T) (start : ℕ) (s t : S) (r : SchedulerRun)
      → start ≤ length slots
      → run_m2b_scheduler slots execute start s ≡ (r, t)
      → (n : ℕ) × (q : SchedulerRun) × (u : S) × (run_m2b_scheduler slots execute r.next_index t
          ≡ (q, u))
        × (r.execution_order ++ q.execution_order ≡ from_index start n)
        × (q.next_index ≡ start + n)
        × (q.next_index ≤ length slots)
  run_m2b_scheduler_resumes slots start s t r h e =
      let (n, r1, t1, e1, order1, stop1, _, end1) = run_m2b_scheduler_executes slots start s h in
      let same : r1 ≡ r = ap (λ x. x.0) (sym e1 ∙ e) in
      let stop : r.next_index ≡ start + n =
        ap (λ (x : SchedulerRun). x.next_index) (sym same) ∙ stop1 in
      let order : r.execution_order ≡ from_index start n =
        ap (λ (x : SchedulerRun). x.execution_order) (sym same) ∙ order1 in
      let le : r.next_index ≤ length slots =
        subst (λ x. x.next_index ≤ length slots) same (ended_le r1 end1) in
      let (m, q, u, e2, order2, stop2, _, end2) =
        run_m2b_scheduler_executes slots r.next_index t le in
      (
        n + m,
        q,
        u,
        e2,
        rw (order, order2, stop) (from_index-append start n m),
        omega (arith, stop, stop2),
        ended_le q end2,
      )
    where
      ended_le :
          {k : ℕ} (x : SchedulerRun)
          → ((x.is_complete ≡ true) × (x.next_index ≡ length slots))
            ⊎ ((x.is_complete ≡ false) × (1 ≤ k) × (x.next_index ≤ length slots))
          → x.next_index ≤ length slots
      ended_le x (inl (e, same)) = omega (arith, same)
      ended_le x (inr (e, lo, hi)) = hi
