-- ===== src/Effects/Regime/Balance.antt =====
-- What each regime ability does to the participants' resources and to the map.
use malign_ai.Base.{
  ℕ, ◌+◌, any, zero, suc, String, Bool, true, Option, none, some, List, [], ◌∷◌, ◌==◌, string_eq,
  nat_eq, ◌≡◌, refl, sym, subst, if◌then◌else◌, arith, ok, Result, ◌&&◌, ◌||◌, not, Bool-cases, inl,
  inr, All, leb, length, all, all_distinct, ltb,
}
use malign_ai.Base.Int.{ℤ, pos, ◌-ℤ◌, ◌≤ℤ◌, ltb_ℤ, leb_ℤ, pos_part, int_eq}
use malign_ai.Base.Dict.{lookup, has_key}
use malign_ai.Base.Text.{starts_with}
use malign_ai.Rules.Types.{malign, resiliency}
use malign_ai.Effects.Types.{
  State, Participant, EffectContext, Failure, InfluenceStack, ResourceSpend, invalid_effect_input,
  invalid_die_value, regime_ability_already_used, arden, fluma, ursaria, presque, dinesia,
}
use malign_ai.Effects.Resources.{actor, pay, or_throw}
use malign_ai.Effects.Influence.{apply_direct_influence, IsCounted}
use malign_ai.Effects.Parameters.{string_parameter, integer_parameter, string_array_parameter}
use malign_ai.Effects.Ends.{Ends, gives, refuses, need, unless, next, pick}
use malign_ai.Effects.Moves.{Keeps, Moves, Moves-same, Moves-trans, Moves-audit}
use malign_ai.Effects.Steps.{
  Keeps-audited, Keeps-same, Keeps-use, Keeps-log, both_steps, free_first, discard_all-Keeps, minus,
  influence-Keeps, pay-Keeps, add_zero, then-Keeps,
}
use malign_ai.Effects.Regime.{
  is_from, is_die, has_malign_of, is_malign_of, take_cube, use_ability, arden_removal,
  regime_die_remove, give_up_marker, presque_replacement, regime_presque, regime_dinesia,
  spend_units, spend_each, resolve_fluma_regime_spends, regime_fluma, owned_markers, regime_of,
  eligible_spends, total_amount, ursaria_exchange, regime_ursaria, may_give_up,
}

sub_one : (b : Bool) (c : ℤ) → (b && ltb_ℤ (pos 0) c) ≡ true → pos 0 ≤ℤ c -ℤ pos 1
unfolding ◌-ℤ◌
sub_one b c h = ground arith

-- A cube that is there is taken.
take_cube-IsCounted :
    (pd_id attribution : String) (stacks : List InfluenceStack)
    → All IsCounted stacks
    → All IsCounted (
        take_cube
          (λ stack. is_malign_of pd_id attribution stack && ltb_ℤ (pos 0) stack.count)
          stacks)
unfolding take_cube
take_cube-IsCounted pd_id attribution [] h = tt
take_cube-IsCounted pd_id attribution (stack ∷ stacks) h =
    elim (Bool-cases (is_malign_of pd_id attribution stack && ltb_ℤ (pos 0) stack.count)) [
      | inl hit ↦ rw hit (sub_one (is_malign_of pd_id attribution stack) stack.count hit, h.1)
      | inr miss ↦ rw miss (h.0, take_cube-IsCounted pd_id attribution stacks h.1)
    ]

pub arden_removal-Keeps :
    (s : State) (c : EffectContext) → Ends (Keeps s (pos 0)) (arden_removal s c)
unfolding arden_removal
arden_removal-Keeps s c = need (string_parameter c "pdId") invalid_effect_input _ λ pd_id _.
    unless (not (starts_with pd_id "ARDEN_PD_")) invalid_effect_input _ λ _.
      need (string_parameter c "attributionCountryId") invalid_effect_input _ λ a _.
        unless (not (has_malign_of pd_id a s.influence)) invalid_effect_input _ λ _. gives (
          Keeps-audited c _ _ (record {
            moves = Moves-same refl refl refl;
            counted = take_cube-IsCounted pd_id a s.influence;
          }))

pub regime_die_remove-Keeps :
    (s : State) (c : EffectContext) → Ends (Keeps s (pos 0)) (regime_die_remove s c)
unfolding regime_die_remove
regime_die_remove-Keeps s c = unless (not (is_from arden (actor s c))) invalid_die_value _ λ _.
    need (actor s c) invalid_die_value _ λ p e.
      need (integer_parameter c "roll") invalid_die_value _ λ roll _.
        unless (not (is_die roll)) invalid_die_value _ λ _.
          unless p.regime_ability_used regime_ability_already_used _ λ _.
            let rolled = Keeps-audited c "DIE_ROLLED" _ (Keeps-use s c.actor_participant_id) in
            pick (leb_ℤ roll (pos 4)) (λ _. then-Keeps rolled (arden_removal-Keeps _ c))
              (λ _. gives rolled)

give_up_marker-Keeps :
    (s : State) (id pd_id : String) (own : Option String)
    → Ends (Keeps s (pos 0)) (give_up_marker s id pd_id own)
give_up_marker-Keeps s id pd_id none = refuses
give_up_marker-Keeps s id pd_id (some own) =
    pick _ (λ _. refuses) (λ _. gives (Keeps-same refl refl refl refl))

pub presque_replacement-Keeps :
    (s : State) (c : EffectContext) (p : Participant)
    → Ends (Keeps s (pos 0)) (presque_replacement s c p)
unfolding presque_replacement
presque_replacement-Keeps s c p = need (string_parameter c "pdId") invalid_effect_input _ λ pd_id _.
    unless (not (has_key pd_id s.legitimacy_by_pd)) invalid_effect_input _ λ _.
      next
        (if leb 3 (length (owned_markers s p.id))
          then give_up_marker s p.id pd_id (string_parameter c "removeOwnPdId")
          else ok s)
        _
        (pick (leb 3 (length (owned_markers s p.id)))
          (λ _. give_up_marker-Keeps s p.id pd_id (string_parameter c "removeOwnPdId"))
          (λ _. gives (Keeps-same refl refl refl refl)))
        λ t k. gives (Keeps-audited c _ _ (both_steps k (Keeps-same refl refl refl refl)))

pub regime_presque-Keeps :
    (s : State) (c : EffectContext) → Ends (Keeps s (pos 0)) (regime_presque s c)
unfolding regime_presque
regime_presque-Keeps s c = unless (not (is_from presque (actor s c))) invalid_die_value _ λ _.
    need (actor s c) invalid_die_value _ λ p e.
      need (integer_parameter c "roll") invalid_die_value _ λ roll _.
        unless (not (is_die roll)) invalid_die_value _ λ _.
          unless p.regime_ability_used regime_ability_already_used _ λ _.
            let rolled = Keeps-audited c "DIE_ROLLED" _ (Keeps-use s c.actor_participant_id) in
            pick (ltb_ℤ (pos 4) roll) (λ _. gives rolled)
              (λ _. then-Keeps rolled (presque_replacement-Keeps _ c p))

pub regime_dinesia-Keeps :
    (s : State) (c : EffectContext) → Ends (Keeps s (minus (pos 2))) (regime_dinesia s c)
unfolding regime_dinesia
regime_dinesia-Keeps s c = unless (not (is_from dinesia (actor s c))) invalid_effect_input _ λ _.
    need (actor s c) invalid_effect_input _ λ p e.
      need (string_parameter c "pdId") invalid_effect_input _ λ pd_id _.
        unless (not (starts_with pd_id "DINESIA_PD_")) invalid_effect_input _ λ _.
          unless p.regime_ability_used regime_ability_already_used _ λ _.
            next (pay (use_ability s c.actor_participant_id) c (pos 2)) _ (pay-Keeps _ c (pos 2))
              λ t k.
                next (or_throw (apply_direct_influence t pd_id resiliency dinesia (pos 1))) _
                  (influence-Keeps t pd_id resiliency dinesia 1)
                  λ r l. gives (
                    Keeps-audited c _ _
                      (both_steps (free_first (Keeps-use s c.actor_participant_id) k) l))

-- A later part's change counts from the start.
widen_pair :
    {s t : State} {A : Type 0} {m : Result Failure (A × State)}
    → Keeps s (pos 0) t
    → Ends (λ r. Keeps t (pos 0) r.1) m
    → Ends (λ r. Keeps s (pos 0) r.1) m
widen_pair k (gives l) = gives (both_steps k l)
widen_pair k refuses = refuses

spend_units-Keeps :
    (rounds unit : ℕ) (actor_id spend_id : String) (targets : List String) (s : State)
    → Ends (λ r. Keeps s (pos 0) r.1) (spend_units rounds unit actor_id spend_id targets s)
unfolding spend_units
spend_units-Keeps zero unit actor_id spend_id targets s = gives (Keeps-same refl refl refl refl)
spend_units-Keeps (suc rounds) unit actor_id spend_id [] s = gives (Keeps-same refl refl refl refl)
spend_units-Keeps (suc rounds) unit actor_id spend_id (pd_id ∷ targets) s =
    next (or_throw (apply_direct_influence s pd_id malign fluma (pos 2))) _
      (influence-Keeps s pd_id malign fluma 2)
      λ r k.
        widen_pair (both_steps k (Keeps-log r.1 _))
          (spend_units-Keeps rounds (unit + 1) actor_id spend_id targets _)

spend_each-Keeps :
    (actor_id : String) (spends : List ResourceSpend) (targets : List String) (s : State)
    → Ends (Keeps s (pos 0)) (spend_each actor_id spends targets s)
unfolding spend_each
spend_each-Keeps actor_id [] targets s = gives (Keeps-same refl refl refl refl)
spend_each-Keeps actor_id (spend ∷ spends) targets s =
    next (spend_units (pos_part spend.amount) 0 actor_id spend.id targets s) _
      (spend_units-Keeps (pos_part spend.amount) 0 actor_id spend.id targets s)
      λ r k.
        then-Keeps (both_steps k (Keeps-same refl refl refl refl))
          (spend_each-Keeps actor_id spends r.0 _)

-- The state in which the regime starts.
abbrev start : State → State
start s = record s { fluma_regime = some (regime_of s) }

resolve_fluma-Keeps :
    (s : State) (id : String) (targets : List String)
    → Ends (Keeps s (pos 0)) (resolve_fluma_regime_spends s id targets)
unfolding resolve_fluma_regime_spends
resolve_fluma-Keeps s id targets =
    unless (not (is_from fluma (lookup id s.participants))) invalid_effect_input _ λ _.
      unless
        (not (pos (length targets) == total_amount (eligible_spends s id))
          || any (λ pd_id. not (starts_with pd_id "ARDEN_PD_")) targets)
        invalid_effect_input _
        λ _.
          next (spend_each id (eligible_spends s id) targets (start s)) _
            (spend_each-Keeps id (eligible_spends s id) targets (start s))
            λ t k. gives (
              both_steps (free_first (Keeps-same refl refl refl refl) k)
                (Keeps-same refl refl refl refl))

pub regime_fluma-Keeps : (s : State) (c : EffectContext) → Ends (Keeps s (pos 0)) (regime_fluma s c)
unfolding regime_fluma
regime_fluma-Keeps s c = unless (not (is_from fluma (actor s c))) invalid_effect_input _ λ _.
    need (actor s c) invalid_effect_input _ λ p e.
      need (string_array_parameter c "targetPdIds") invalid_effect_input _ λ targets _.
        unless (p.regime_ability_used && not (regime_of s).active) regime_ability_already_used _
          λ _.
            next (resolve_fluma_regime_spends s p.id targets) _ (resolve_fluma-Keeps s p.id targets)
              λ t k. gives (Keeps-audited c _ _ (both_steps k (Keeps-use t c.actor_participant_id)))

free-Moves : {s t u : State} → Moves s (pos 0) t → Moves t (pos 0) u → Moves s (pos 0) u
free-Moves {s} {t} {u} m n = subst (λ x. Moves s x u) (sym (add_zero (pos 0))) (Moves-trans m n)

pub then-Moves :
    {s t : State} {r : Result Failure State}
    → Moves s (pos 0) t
    → Ends (Moves t (pos 0)) r
    → Ends (Moves s (pos 0)) r
then-Moves m (gives n) = gives (free-Moves m n)
then-Moves m refuses = refuses

pub ursaria_exchange-Moves :
    (s : State) (c : EffectContext) (ids : List String) (pd_id : String) (owners : List String)
    → Ends (Moves s (pos 0)) (ursaria_exchange s c ids pd_id owners)
unfolding ursaria_exchange
ursaria_exchange-Moves s c ids pd_id owners =
    unless (not (all (λ a. has_malign_of pd_id a s.influence) owners)) invalid_effect_input _ λ _.
      gives (
        free-Moves (discard_all-Keeps ids s).moves (
          free-Moves (Moves-same refl refl refl)
            (free-Moves (Moves-audit _ c _ _) (Moves-audit _ c _ _))))

-- The ability of the fifth country, which may leave a stack below zero.
pub regime_ursaria-Moves :
    (s : State) (c : EffectContext) → Ends (Moves s (pos 0)) (regime_ursaria s c)
unfolding regime_ursaria
regime_ursaria-Moves s c = unless (not (is_from ursaria (actor s c))) invalid_effect_input _ λ _.
    need (actor s c) invalid_effect_input _ λ p e.
      need (string_array_parameter c "cardIds") invalid_effect_input _ λ ids _.
        unless (not (length ids == 2) || not (all_distinct ids)) invalid_effect_input _ λ _.
          need (string_parameter c "pdId") invalid_effect_input _ λ pd_id _.
            unless (not (starts_with pd_id "URSARIA_PD_")) invalid_effect_input _ λ _.
              need (string_array_parameter c "attributionCountryIds") invalid_effect_input _
                λ owners _. unless (ltb 3 (length owners)) invalid_effect_input _ λ _.
                  unless p.regime_ability_used regime_ability_already_used _ λ _.
                    let used = (Keeps-use s c.actor_participant_id).moves in
                    pick (all (may_give_up (use_ability s c.actor_participant_id) p.id) ids)
                      (λ _. then-Moves used (ursaria_exchange-Moves _ c ids pd_id owners))
                      (λ _. gives used)
