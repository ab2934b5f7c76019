-- ===== src/Effects/Handlers/Collection.antt =====
-- m2b.ts, the collection from everyone whose die allows it: who pays, and what it does.
use malign_ai.Base.{
  String, Bool, true, false, Option, none, some, List, [], ◌∷◌, ◌==◌, string_eq, ◌≡◌, refl, ◌∙◌, ap,
  eq_iff, if◌then◌else◌, arith, ◌||◌, not, contains, Bool-cases, inl, inr, filter, All, sort_by,
  insert_by,
}
use malign_ai.Base.Int.{ℤ, pos, ◌+ℤ◌, ◌≤ℤ◌, ltb_ℤ, leb_ℤ}
use malign_ai.Base.Dict.{Dict, lookup, modify, apply?, lookup-modify, keys, HasUniqueKeys}
use malign_ai.Base.Text.{string_leb, join}
use malign_ai.Effects.Types.{
  State, Participant, EffectContext, invalid_effect_input, invalid_die_value, Fields,
}
use malign_ai.Effects.Resources.{actor, audit, add_resources, take_resources}
use malign_ai.Effects.Ends.{Ends, gives, need, unless, next}
use malign_ai.Effects.Moves.{Keeps}
use malign_ai.Effects.Steps.{Keeps-audit, Keeps-audited, Keeps-same, both_steps, handover-Keeps}
use malign_ai.Effects.Steps.{still_there}
use malign_ai.Effects.Handlers.{
  multi_roll_resource_transfer, passing, audit_roll, audit_rolls, collect, has_resources,
  holds_some, die_in, rolls_parameter, other_ids, field_keys,
}

-- No id is listed twice.
abbrev NoTwice : List String → Type 0
NoTwice [] = Unit
NoTwice (x ∷ xs) = (contains x xs ≡ false) × NoTwice xs

contains-insert_by :
    (a x : String) (xs : List String)
    → contains a (insert_by string_leb x xs) ≡ (x == a || contains a xs)
contains-insert_by a x [] = refl
contains-insert_by a x (y ∷ ys) = ground (arith, contains-insert_by a x ys)

pub contains-sort_by :
    (a : String) (xs : List String) → contains a (sort_by string_leb xs) ≡ contains a xs
contains-sort_by a [] = refl
contains-sort_by a (x ∷ xs) =
    contains-insert_by a x (sort_by string_leb xs) ∙ ap (λ b. x == a || b) (contains-sort_by a xs)

insert_by-NoTwice :
    (x : String) (xs : List String)
    → contains x xs ≡ false
    → NoTwice xs
    → NoTwice (insert_by string_leb x xs)
insert_by-NoTwice x [] e n = (refl, tt)
insert_by-NoTwice x (y ∷ ys) e n =
    ground (arith, eq_iff x y, eq_iff y x, contains-insert_by y x ys, insert_by-NoTwice x ys)

sort_by-NoTwice : (xs : List String) → NoTwice xs → NoTwice (sort_by string_leb xs)
sort_by-NoTwice [] n = tt
sort_by-NoTwice (x ∷ xs) n =
    insert_by-NoTwice x (sort_by string_leb xs) (contains-sort_by x xs ∙ n.0)
      (sort_by-NoTwice xs n.1)

contains-filter :
    (p : String → Bool) (a : String) (xs : List String)
    → contains a xs ≡ false
    → contains a (filter p xs) ≡ false
contains-filter p a [] e = refl
contains-filter p a (x ∷ xs) e = ground (arith, contains-filter p a xs)

filter-NoTwice : (p : String → Bool) (xs : List String) → NoTwice xs → NoTwice (filter p xs)
filter-NoTwice p [] n = tt
filter-NoTwice p (x ∷ xs) n = elim (Bool-cases (p x)) [
  | inl hit ↦ rw hit (contains-filter p x xs n.0, filter-NoTwice p xs n.1)
  | inr miss ↦ rw miss (filter-NoTwice p xs n.1)
]

filter-All : (p : String → Bool) (xs : List String) → All (λ x. p x ≡ true) (filter p xs)
filter-All p [] = tt
filter-All p (x ∷ xs) = elim (Bool-cases (p x)) [
  | inl hit ↦ rw hit (hit, filter-All p xs)
  | inr miss ↦ rw miss (filter-All p xs)
]

contains-keys :
    {V : Type 0} (k : String) (d : Dict V) → lookup k d ≡ none → contains k (keys d) ≡ false
contains-keys k [] e = refl
contains-keys k ((j, v) ∷ d) e = elim (Bool-cases (j == k)) [
  | inl hit ↦ cc_absurd (rw hit at e)
  | inr miss ↦ rw miss (contains-keys k d (rw miss at e))
]
  where
    cc_absurd : {P : Type 0} → some v ≡ none → P
    cc_absurd e = cc

keys-NoTwice : {V : Type 0} (d : Dict V) → HasUniqueKeys d → NoTwice (keys d)
keys-NoTwice [] u = tt
keys-NoTwice ((k, v) ∷ d) u = (contains-keys k d u.0, keys-NoTwice d u.1)

-- Those who pay are among those who rolled, each once.
record PaysOnce (ids payers : List String) : Type 0 where
  once : NoTwice payers
  among : (a : String) → contains a ids ≡ false → contains a payers ≡ false

kept :
    (b : Bool) (id : String) (ids payers : List String)
    → contains id ids ≡ false
    → PaysOnce ids payers
    → PaysOnce (id ∷ ids) (if b then id ∷ payers else payers)
kept true id ids payers e k = record {
  once = (k.among id e, k.once);
  among = λ a f. ground (arith, k.among a);
}
kept false id ids payers e k = record { once = k.once; among = λ a f. ground (arith, k.among a) }

passing-PaysOnce :
    (ids : List String) (rolls : Fields) → NoTwice ids → Ends (PaysOnce ids) (passing ids rolls)
unfolding passing
passing-PaysOnce [] rolls n = gives (record { once = tt; among = λ a e. refl })
passing-PaysOnce (id ∷ ids) rolls n = need (die_in id rolls) invalid_die_value _ λ roll _.
    next (passing ids rolls) _ (passing-PaysOnce ids rolls n.1)
      λ payers k. gives (kept (leb_ℤ roll (pos 4)) id ids payers n.0 k)

audit_roll-Keeps :
    (id : String) (roll : Option ℤ) (c : EffectContext) (s : State)
    → Keeps s (pos 0) (audit_roll id roll c s)
unfolding audit_roll
audit_roll-Keeps id none c s = Keeps-same refl refl refl refl
audit_roll-Keeps id (some roll) c s = Keeps-audit s c _ _

audit_rolls-Keeps :
    (ids : List String) (rolls : Fields) (c : EffectContext) (s : State)
    → Keeps s (pos 0) (audit_rolls ids rolls c s)
unfolding audit_rolls
audit_rolls-Keeps [] rolls c s = Keeps-same refl refl refl refl
audit_rolls-Keeps (id ∷ ids) rolls c s =
    both_steps (audit_roll-Keeps id (die_in id rolls) c s)
      (audit_rolls-Keeps ids rolls c (audit_roll id (die_in id rolls) c s))

-- The entry is there and holds resources.
abbrev is_rich : String → Dict Participant → Bool
is_rich k d = holds_some (lookup k d)

rich_entry :
    (o : Option Participant)
    → holds_some o ≡ true
    → (p : Participant) × (o ≡ some p) × (pos 1 ≤ℤ p.resources)
rich_entry none h = cc
rich_entry (some p) h = (p, refl, ground arith)

more : (a : ℤ) → ltb_ℤ (pos 0) a ≡ true → ltb_ℤ (pos 0) (a +ℤ pos 1) ≡ true
unfolding ◌+ℤ◌
more a h = ground arith

richer :
    (o : Option Participant)
    → holds_some o ≡ true
    → holds_some (apply? (add_resources (pos 1)) o) ≡ true
richer none h = h
richer (some p) h = more p.resources h

-- Who is rich stays so when another pays and anyone is paid.
stays_rich :
    (k to j : String) (d : Dict Participant)
    → (k == j) ≡ false
    → is_rich j d ≡ true
    → is_rich j (modify to (add_resources (pos 1)) (modify k (take_resources (pos 1)) d)) ≡ true
stays_rich k to j d other h =
    ap holds_some (lookup-modify to j (add_resources (pos 1)) (modify k (take_resources (pos 1)) d))
    ∙ go (to == j)
  where
    untouched : lookup j (modify k (take_resources (pos 1)) d) ≡ lookup j d
    untouched = rw (lookup-modify k j (take_resources (pos 1)) d, other) refl

    go :
        (b : Bool)
        → holds_some (
            if b
            then apply? (add_resources (pos 1)) (lookup j (modify k (take_resources (pos 1)) d))
            else lookup j (modify k (take_resources (pos 1)) d))
          ≡ true
    go true = rw untouched (richer (lookup j d) h)
    go false = ap holds_some untouched ∙ h

they_stay_rich :
    (k to : String) (js : List String) (d : Dict Participant)
    → contains k js ≡ false
    → All (λ j. is_rich j d ≡ true) js
    → All
        (λ j.
          is_rich j (modify to (add_resources (pos 1)) (modify k (take_resources (pos 1)) d))
          ≡ true)
        js
they_stay_rich k to [] d e h = tt
they_stay_rich k to (j ∷ js) d e h = (
  stays_rich k to j d (ground (arith, eq_iff k j, eq_iff j k)) h.0,
  they_stay_rich k to js d (ground arith) h.1,
)

-- Every payer hands over one resource, which it holds.
collect-Keeps :
    (payers : List String) (recipient p : Participant) (c : EffectContext) (s : State)
    → NoTwice payers
    → All (λ j. is_rich j s.participants ≡ true) payers
    → actor s c ≡ some p
    → Keeps s (pos 0) (collect payers recipient c s)
unfolding collect audit
collect-Keeps [] recipient p c s n h e = Keeps-same refl refl refl refl
collect-Keeps (k ∷ payers) recipient p c s n h e =
    let to = c.actor_participant_id in
    let (q, f, rich) = rich_entry (lookup k s.participants) h.0 in
    let (r, g) = still_there k to (take_resources (pos 1)) s.participants p e in
    let (u, v) =
      still_there to to (add_resources (pos 1)) (modify k (take_resources (pos 1)) s.participants) r
        g in
    both_steps (Keeps-audited c _ _ (handover-Keeps s k to q r (pos 1) f g rich (λ _. omega arith)))
      (collect-Keeps payers recipient u c _ n.1 (they_stay_rich k to payers s.participants n.0 h.1)
        v)

-- The audit trail does not change who is there.
audit_roll-participants :
    (id : String) (roll : Option ℤ) (c : EffectContext) (s : State)
    → (audit_roll id roll c s).participants ≡ s.participants
unfolding audit_roll audit
audit_roll-participants id none c s = refl
audit_roll-participants id (some roll) c s = refl

audit_rolls-participants :
    (ids : List String) (rolls : Fields) (c : EffectContext) (s : State)
    → (audit_rolls ids rolls c s).participants ≡ s.participants
unfolding audit_rolls
audit_rolls-participants [] rolls c s = refl
audit_rolls-participants (id ∷ ids) rolls c s =
    audit_rolls-participants ids rolls c (audit_roll id (die_in id rolls) c s)
    ∙ audit_roll-participants id (die_in id rolls) c s

pub multi_roll_resource_transfer-Keeps :
    (s : State) (c : EffectContext)
    → HasUniqueKeys s.participants
    → Ends (Keeps s (pos 0)) (multi_roll_resource_transfer s c)
unfolding multi_roll_resource_transfer
multi_roll_resource_transfer-Keeps s c unique = need (actor s c) invalid_effect_input _ λ p e.
    need (rolls_parameter c) invalid_effect_input _ λ rolls _.
      unless (not (join "|" (sort_by string_leb (field_keys rolls)) == join "|" (other_ids s c)))
        invalid_effect_input _
        λ _.
          next (passing (other_ids s c) rolls) _
            (passing-PaysOnce (other_ids s c) rolls (others-NoTwice s c unique))
            λ payers k.
              let t = audit_rolls (other_ids s c) rolls c s in
              gives (
                both_steps (audit_rolls-Keeps (other_ids s c) rolls c s) (
                  collect-Keeps (filter (has_resources t) payers) p p c t
                    (filter-NoTwice (has_resources t) payers k.once)
                    (filter-All (has_resources t) payers)
                    (ap (λ d. lookup c.actor_participant_id d)
                        (audit_rolls-participants (other_ids s c) rolls c s)
                      ∙ e)))
  where
    others-NoTwice :
        (s : State) (c : EffectContext) → HasUniqueKeys s.participants → NoTwice (other_ids s c)
    others-NoTwice s c u = sort_by-NoTwice _ (filter-NoTwice _ _ (keys-NoTwice s.participants u))
