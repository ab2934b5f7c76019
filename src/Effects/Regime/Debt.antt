-- ===== src/Effects/Regime/Debt.antt =====
-- m2b.ts, the exchange of Ursaria: attributions that are named more than once.
use malign_ai.Base.{
  ℕ, zero, suc, ◌-◌, ◌<◌, ◌≤◌, String, Bool, true, false, some, List, [], ◌∷◌, ◌++◌, ◌≡◌, refl, ◌∙◌,
  sym, ap, arith, all, All, length, all_distinct, ltb, ok, Option-cases, inl, inr, string_eq, ◌>>◌,
  not,
}
use malign_ai.Base.Dict.{lookup}
use malign_ai.Base.Text.{starts_with}
use malign_ai.Base.Int.{ℤ, pos, negsuc, ◌-ℤ◌, int_laws}
use malign_ai.Effects.Types.{
  State, EffectContext, Participant, InfluenceStack, ursaria, EffectError, invalid_effect_input,
}
use malign_ai.Effects.Cards.{discard_all, discard_with_lifecycle, or_same}
use malign_ai.Effects.Parameters.{string_parameter, string_array_parameter}
use malign_ai.Effects.Resources.{actor, audit, reject_if}
use malign_ai.Effects.Regime.{
  is_malign_of, has_malign_of, take_cube, take_malign, may_give_up, use_ability, ursaria_exchange,
  regime_ursaria,
}

-- The same attribution, `n` times.
abbrev pub repeat : ℕ → String → List String
repeat zero x = []
repeat (suc n) x = x ∷ repeat n x

minus_zero : (c : ℤ) → c -ℤ pos 0 ≡ c
minus_zero c = grind int_laws

minus_one : (c : ℤ) (n : ℕ) → (c -ℤ pos 1) -ℤ pos n ≡ c -ℤ pos (suc n)
unfolding ◌-ℤ◌
minus_one c n = ground arith

below_zero : (c n : ℕ) → c < n → pos c -ℤ pos n ≡ negsuc (n - c - 1)
unfolding ◌-ℤ◌
below_zero c n h = ground arith

-- The stacks before hold no cubes of the kind.
abbrev NoneOf : (InfluenceStack → Bool) → List InfluenceStack → Type 0
NoneOf test stacks = All (λ x. test x ≡ false) stacks

take_hit :
    (test : InfluenceStack → Bool) (before : List InfluenceStack) (stack : InfluenceStack)
    (stacks : List InfluenceStack)
    → NoneOf test before
    → test stack ≡ true
    → take_cube test (before ++ stack ∷ stacks)
      ≡ before ++ record stack { count = stack.count -ℤ pos 1 } ∷ stacks
unfolding take_cube
take_hit test [] stack stacks none_of h = rw h refl
take_hit test (x ∷ before) stack stacks none_of h =
    rw none_of.0 (ap (λ xs. x ∷ xs) (take_hit test before stack stacks none_of.1 h))

take_repeat :
    (pd_id attribution : String) (n : ℕ) (before : List InfluenceStack) (stack : InfluenceStack)
    (stacks : List InfluenceStack)
    → NoneOf (is_malign_of pd_id attribution) before
    → is_malign_of pd_id attribution stack ≡ true
    → take_malign pd_id (repeat n attribution) (before ++ stack ∷ stacks)
      ≡ before ++ record stack { count = stack.count -ℤ pos n } ∷ stacks
unfolding take_malign take_cube
take_repeat pd_id attribution zero before stack stacks none_of h =
    ap (λ c. before ++ record stack { count = c } ∷ stacks) (sym (minus_zero stack.count))
take_repeat pd_id attribution (suc n) before stack stacks none_of h =
    ap (take_malign pd_id (repeat n attribution))
      (take_hit (is_malign_of pd_id attribution) before stack stacks none_of h)
    ∙ (take_repeat pd_id attribution n before (record stack { count = stack.count -ℤ pos 1 }) stacks
          none_of h
        ∙ ap (λ c. before ++ record stack { count = c } ∷ stacks) (minus_one stack.count n))

passes :
    (pd_id attribution : String) (n : ℕ) (stacks : List InfluenceStack)
    → has_malign_of pd_id attribution stacks ≡ true
    → all (λ a. has_malign_of pd_id a stacks) (repeat n attribution) ≡ true
passes pd_id attribution zero stacks h = refl
passes pd_id attribution (suc n) stacks h = rw (h, passes pd_id attribution n stacks h)

has_one :
    (pd_id attribution : String) (c : ℕ) (before : List InfluenceStack) (stack : InfluenceStack)
    (stacks : List InfluenceStack)
    → is_malign_of pd_id attribution stack ≡ true
    → stack.count ≡ pos (suc c)
    → has_malign_of pd_id attribution (before ++ stack ∷ stacks) ≡ true
has_one pd_id attribution c [] stack stacks h e = ground (arith, h, e)
has_one pd_id attribution c (x ∷ before) stack stacks h e =
    ground (arith, has_one pd_id attribution c before stack stacks h e)

discard_all-influence :
    (ids : List String) (s : State) → (discard_all ids s).influence ≡ s.influence
unfolding discard_all discard_with_lifecycle
discard_all-influence [] s = refl
discard_all-influence (id ∷ ids) s =
    discard_all-influence ids (or_same s (discard_with_lifecycle s id)) ∙ one
  where
    one : (or_same s (discard_with_lifecycle s id)).influence ≡ s.influence
    one = elim (Option-cases (lookup id s.cards)) [
      | inl missing ↦ rw missing refl
      | inr (card, e) ↦ rw e refl
    ]

length-repeat : (n : ℕ) (x : String) → length (repeat n x) ≡ n
length-repeat zero x = refl
length-repeat (suc n) x = ap suc (length-repeat n x)

goes_through :
    (b : Bool) (e : EffectError) (t : State) (P : State → Type 0)
    → b ≡ false
    → P t
    → (u : State) × ((reject_if b e >> ok t) ≡ ok u) × P u
goes_through true e t P h p = absurd (cc)
goes_through false e t P h p = (t, refl, p)

exchange_overdraws :
    (s : State) (context : EffectContext) (card_ids : List String) (pd_id attribution : String)
    (c n : ℕ) (before : List InfluenceStack) (stack : InfluenceStack) (stacks : List InfluenceStack)
    → s.influence ≡ before ++ stack ∷ stacks
    → NoneOf (is_malign_of pd_id attribution) before
    → is_malign_of pd_id attribution stack ≡ true
    → stack.count ≡ pos (suc c)
    → suc c < n
    → (t : State) × (ursaria_exchange s context card_ids pd_id (repeat n attribution) ≡ ok t)
      × (t.influence ≡ before ++ record stack { count = negsuc (n - suc c - 1) } ∷ stacks)
unfolding ursaria_exchange audit
exchange_overdraws s context card_ids pd_id attribution c n before stack stacks i none_of h e lt =
    let accepted : all (λ a. has_malign_of pd_id a s.influence) (repeat n attribution) ≡ true =
      rw i (passes pd_id attribution n _ (has_one pd_id attribution c before stack stacks h e)) in
    goes_through (not (all (λ a. has_malign_of pd_id a s.influence) (repeat n attribution)))
      invalid_effect_input _
      (λ t. t.influence ≡ before ++ record stack { count = negsuc (n - suc c - 1) } ∷ stacks)
      (rw accepted refl)
      (ap (take_malign pd_id (repeat n attribution)) (discard_all-influence card_ids s ∙ i)
        ∙ take_repeat pd_id attribution n before stack stacks none_of h
        ∙ ap (λ x. before ++ record stack { count = x } ∷ stacks)
            (ap (λ x. x -ℤ pos n) e ∙ below_zero (suc c) n lt))

-- `REGIME_URSARIA` may leave a negative number of cubes. It goes through for an actor of Ursaria whose
-- ability is unused, two malign cards of the actor's hand, a demographic of Ursaria, and an
-- attribution that is named up to three times, but more often than its first stack there has cubes;
-- that stack is then as many cubes below zero as it is named too often, and no other changes.
pub regime_ursaria_overdraws :
    (s : State) (context : EffectContext) (participant : Participant) (card_ids : List String)
    (pd_id attribution : String) (c n : ℕ) (before : List InfluenceStack) (stack : InfluenceStack)
    (stacks : List InfluenceStack)
    → actor s context ≡ some participant
    → participant.country_id ≡ ursaria
    → participant.regime_ability_used ≡ false
    → string_array_parameter context "cardIds" ≡ some card_ids
    → length card_ids ≡ 2
    → all_distinct card_ids ≡ true
    → all (may_give_up s participant.id) card_ids ≡ true
    → string_parameter context "pdId" ≡ some pd_id
    → starts_with pd_id "URSARIA_PD_" ≡ true
    → string_array_parameter context "attributionCountryIds" ≡ some (repeat n attribution)
    → n ≤ 3
    → s.influence ≡ before ++ stack ∷ stacks
    → NoneOf (is_malign_of pd_id attribution) before
    → is_malign_of pd_id attribution stack ≡ true
    → stack.count ≡ pos (suc c)
    → suc c < n
    → (t : State) × (regime_ursaria s context ≡ ok t)
      × (t.influence ≡ before ++ record stack { count = negsuc (n - suc c - 1) } ∷ stacks)
unfolding regime_ursaria
regime_ursaria_overdraws s context participant card_ids pd_id attribution c n before stack stacks
      acts from unused cards two distinct give pd starts names few i none_of h e lt =
    let few_names : ltb 3 (length (repeat n attribution)) ≡ false =
      rw (length-repeat n attribution) (ground arith) in
    rw (acts, from, cards, distinct, two, pd, starts, names, few_names, unused, give)
      (exchange_overdraws (use_ability s context.actor_participant_id) context card_ids pd_id
        attribution c n before stack stacks i none_of h e lt)
