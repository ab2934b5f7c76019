-- ===== src/Reactions/Turns.antt =====
-- m2b-reaction.ts: who gets the priority, and what passing in turn leads to.
use malign_ai.Base.{
  ℕ, suc, ◌+◌, ◌≡◌, refl, ◌∙◌, sym, ap, String, true, false, Option, some, List, [], ◌∷◌, ◌++◌,
  ◌==◌, string_eq, arith, if◌then◌else◌, leb, length, index_of, get_elem?, take, drop, Result, ok,
  ◌>>=◌, contains, Bool-cases, inl, inr, eq_iff, length-append,
}
use mathlib.Core.List.{append_assoc}
use malign_ai.Reactions.Window.{
  ReactionWindow, ReactionError, ReactionTrigger, closed, is_closed, rotated_at, reaction_priority,
  open_reaction_window, passed_on, pass_reaction_priority,
}

index_lem :
    (a : String) (xs : List String)
    → contains a xs ≡ true
    → (i : ℕ) × (index_of a xs ≡ some i)
      × (xs ≡ take i xs ++ a ∷ drop (suc i) xs)
      × (contains a (take i xs) ≡ false)
index_lem a [] h = cc
index_lem a (x ∷ xs) h = elim (Bool-cases (x == a)) [
  | inl hit ↦ (0, rw hit refl, ap (λ y. y ∷ xs) ((eq_iff x a).0 hit), refl)
  | inr miss ↦
      let (i, e, split, fresh) = index_lem a xs (rw miss at h) in
      (suc i, rw (miss, e) refl, ap (λ ys. x ∷ ys) split, rw (miss, fresh) refl)
]

-- Everyone else gets the priority once: for a participant in the initiative the order of priority
-- is those after them in the initiative and then those before them.
pub reaction_priority_rotates :
    (initiative : List String) (actor_id : String)
    → contains actor_id initiative ≡ true
    → (before : List String) × (after : List String) × (initiative ≡ before ++ actor_id ∷ after)
      × (contains actor_id before ≡ false)
      × (reaction_priority initiative actor_id ≡ after ++ before)
unfolding reaction_priority
reaction_priority_rotates initiative actor_id h =
    let (i, e, split, fresh) = index_lem actor_id initiative h in
    (take i initiative, drop (suc i) initiative, split, fresh, ap (λ o. rotated_at o initiative) e)

-- The participants pass one after the other.
abbrev pub pass_each : List String → ReactionWindow → Result ReactionError ReactionWindow
pass_each [] window = ok window
pass_each (id ∷ ids) window = pass_reaction_priority window id >>= λ w. pass_each ids w

at_priority :
    (passed : List String) (id : String) (rest : List String)
    → get_elem? (passed ++ id ∷ rest) (length passed) ≡ some id
at_priority [] id rest = refl
at_priority (p ∷ passed) id rest = at_priority passed id rest

-- A window in which those of `passed` have passed and it is the turn of the first of `rest`.
record Waits (passed rest : List String) (w : ReactionWindow) : Type 0 where
  still_open : is_closed w.status ≡ false
  order : w.priority_participant_ids ≡ passed ++ rest
  turn : w.priority_index ≡ length passed

pass_turn :
    (passed : List String) (id : String) (rest : List String) (w : ReactionWindow)
    → Waits passed (id ∷ rest) w
    → pass_reaction_priority w id ≡ ok (passed_on w id)
unfolding pass_reaction_priority
pass_turn passed id rest w h =
    rw (h.still_open, h.order, h.turn, at_priority passed id rest, same id) refl
  where
    same : (k : String) → (k == k) ≡ true
    same k = ground (arith, eq_iff k k)

-- After all have passed: closed, with their passes on record and nothing played.
abbrev AllPassed : List String → ReactionWindow → ReactionWindow → Type 0
AllPassed ids w u =
    (u.status ≡ closed)
    × (u.passes ≡ w.passes ++ ids)
    × (u.plays ≡ w.plays)
    × (u.priority_index ≡ w.priority_index + length ids)

length-middle :
    (passed : List String) (id : String) (rest : List String)
    → length (passed ++ id ∷ rest) ≡ length passed + 1 + length rest
length-middle [] id rest = omega arith
length-middle (p ∷ passed) id rest = omega (arith, length-middle passed id rest)

ends_turn :
    (passed rest : List String) (id : String) (w : ReactionWindow)
    → Waits passed (id ∷ rest) w
    → leb (length w.priority_participant_ids) (w.priority_index + 1) ≡ leb (length rest) 0
ends_turn passed rest id w h =
    rw (h.order, h.turn, length-middle passed id rest) (shift (length passed) (length rest))
  where
    shift : (m n : ℕ) → leb (m + 1 + n) (m + 1) ≡ leb n 0
    shift m n = ground arith

not_yet : (n : ℕ) → leb (suc n) 0 ≡ false
not_yet n = ground arith

pass_each_lem :
    (passed : List String) (id : String) (rest : List String) (w : ReactionWindow)
    → Waits passed (id ∷ rest) w
    → (u : ReactionWindow) × (pass_each (id ∷ rest) w ≡ ok u) × AllPassed (id ∷ rest) w u
pass_each_lem passed id [] w h = (
  passed_on w id,
  ap (λ r. r >>= λ v. pass_each [] v) (pass_turn passed id [] w h),
  (ap (λ b. if b then closed else w.status) (ends_turn passed [] id w h), refl, refl, refl),
)
pass_each_lem passed id (next ∷ rest) w h =
    let v = passed_on w id in
    let stays : v.status ≡ w.status =
      ap (λ b. if b then closed else w.status)
        (ends_turn passed (next ∷ rest) id w h ∙ not_yet (length rest)) in
    let k : Waits (passed ++ id ∷ []) (next ∷ rest) v = record {
      still_open = ap is_closed stays ∙ h.still_open;
      order = h.order ∙ sym (append_assoc passed (id ∷ []) (next ∷ rest));
      turn = ap (λ n. n + 1) h.turn ∙ sym (length-append passed (id ∷ []));
    } in
    let (u, e, (shut, passes, plays, turn)) = pass_each_lem (passed ++ id ∷ []) next rest v k in
    (
      u,
      ap (λ r. r >>= λ x. pass_each (next ∷ rest) x) (pass_turn passed id (next ∷ rest) w h) ∙ e,
      (shut, passes ∙ append_assoc w.passes (id ∷ []) (next ∷ rest), plays, omega (arith, turn)),
    )

-- A window that has just been opened for someone of the initiative who is not alone in it is closed
-- once the others have passed in the order of priority, and their passes are on record in that
-- order, and nothing has been played.
pub pass_each_closes :
    (id actor_id : String) (trigger : ReactionTrigger) (initiative : List String)
    (parent campaign_id card_id : Option String) (first : String) (rest : List String)
    → reaction_priority initiative actor_id ≡ first ∷ rest
    → let w = open_reaction_window id trigger actor_id initiative parent campaign_id card_id in
      (u : ReactionWindow) × (pass_each (first ∷ rest) w ≡ ok u)
      × (u.status ≡ closed)
      × (u.passes ≡ first ∷ rest)
      × (u.plays ≡ [])
unfolding open_reaction_window
pass_each_closes id actor_id trigger initiative parent campaign_id card_id first rest e =
    let w = open_reaction_window id trigger actor_id initiative parent campaign_id card_id in
    let h : Waits [] (first ∷ rest) w = record { still_open = refl; order = e; turn = refl } in
    let (u, f, (shut, passes, plays, _)) = pass_each_lem [] first rest w h in
    (u, f, shut, passes, plays)
