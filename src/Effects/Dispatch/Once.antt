-- ===== src/Effects/Dispatch/Once.antt =====
-- m2b.ts, the regime abilities that a participant has once: those of every country but Fluma.
use malign_ai.Base.{
  String, Bool, true, false, Option, none, some, List, ◌==◌, string_eq, nat_eq, ◌≡◌, refl, ◌∙◌, sym,
  ap, arith, Result, ◌||◌, not, length, all, all_distinct, ltb, eq_iff, ◌⊎◌, inl, inr, some_inj,
}
use malign_ai.Base.Int.{ℤ, pos, ltb_ℤ, leb_ℤ}
use malign_ai.Base.Dict.{lookup, modify, lookup-modify}
use malign_ai.Base.Text.{starts_with}
use malign_ai.Rules.Types.{resiliency}
use malign_ai.Effects.Types.{
  State, Participant, EffectContext, AuditRecord, EffectError, Failure, invalid_effect_input,
  invalid_die_value, regime_ability_already_used, arden, ursaria, presque, dinesia,
}
use malign_ai.Effects.Resources.{actor, pay, or_throw}
use malign_ai.Effects.Influence.{apply_direct_influence}
use malign_ai.Effects.Parameters.{string_parameter, integer_parameter, string_array_parameter}
use malign_ai.Effects.Ends.{Ends, gives, refuses, need, unless, next, pick}
use malign_ai.Effects.Moves.{Keeps, Moves, Moves-same, is_used}
use malign_ai.Effects.Steps.{
  Keeps-audit, Keeps-audited, both_steps, then-Keeps, influence-Keeps, pay-Keeps,
}
use malign_ai.Effects.Regime.{
  is_from, is_die, use_ability, regime_die_remove, regime_presque, regime_dinesia, regime_ursaria,
  may_give_up,
}
use malign_ai.Effects.Regime.Balance.{
  arden_removal-Keeps, presque_replacement-Keeps, ursaria_exchange-Moves,
}
use malign_ai.Effects.Dispatch.Safety.{handler_of, handler_in, run_found_lem}
use malign_ai.Effects.Dispatch.{
  definition_of, finish, EffectDefinition, Handler, handle, Block, EffectResult, done, failed,
  dispatch, in_arden, in_ursaria, in_presque, in_dinesia,
}

-- The actor's ability was there before, and is used up afterwards.
abbrev pub Once : State → EffectContext → State → Type 0
Once s c t = (is_used c.actor_participant_id s ≡ false) × (is_used c.actor_participant_id t ≡ true)

abbrev holder_used : Option Participant → Bool
holder_used none = false
holder_used (some p) = p.regime_ability_used

holder_lem :
    (o : Option Participant)
    → elim o [ none ↦ false | some p ↦ p.regime_ability_used ] ≡ holder_used o
holder_lem none = refl
holder_lem (some p) = refl

before :
    (s : State) (c : EffectContext) (p : Participant)
    → actor s c ≡ some p
    → p.regime_ability_used ≡ false
    → is_used c.actor_participant_id s ≡ false
before s c p e u = holder_lem (actor s c) ∙ ap holder_used e ∙ u

marked :
    (s : State) (c : EffectContext) (p : Participant)
    → actor s c ≡ some p
    → is_used c.actor_participant_id (use_ability s c.actor_participant_id) ≡ true
marked s c p e =
    let k = c.actor_participant_id in
    let mark : Participant → Participant = λ r. record r { regime_ability_used = true } in
    holder_lem (lookup k (modify k mark s.participants))
    ∙ ap holder_used (lookup-modify k k mark s.participants)
    ∙ rw (same k, e) refl
  where
    same : (k : String) → (k == k) ≡ true
    same k = ground (arith, eq_iff k k)

-- What comes after the ability is marked as used leaves it so.
Once-then :
    (s : State) (c : EffectContext) {p : Participant} {r : Result Failure State} {d : ℤ}
    → actor s c ≡ some p
    → p.regime_ability_used ≡ false
    → Ends (Moves (use_ability s c.actor_participant_id) d) r
    → Ends (Once s c) r
Once-then s c {p} e u (gives m) =
    gives (before s c p e u, m.used c.actor_participant_id (marked s c p e))
Once-then s c e u refuses = refuses

Moves-of : {s : State} {d : ℤ} {r : Result Failure State} → Ends (Keeps s d) r → Ends (Moves s d) r
Moves-of (gives k) = gives k.moves
Moves-of refuses = refuses

arden-Once : (s : State) (c : EffectContext) → Ends (Once s c) (regime_die_remove s c)
unfolding regime_die_remove
arden-Once s c = unless (not (is_from arden (actor s c))) invalid_die_value _ λ _.
    need (actor s c) invalid_die_value _ λ p e.
      need (integer_parameter c "roll") invalid_die_value _ λ roll _.
        unless (not (is_die roll)) invalid_die_value _ λ _.
          unless p.regime_ability_used regime_ability_already_used _ λ u.
            let rolled = Keeps-audit (use_ability s c.actor_participant_id) c "DIE_ROLLED" _ in
            Once-then s c e u (
              Moves-of (
                pick (leb_ℤ roll (pos 4)) (λ _. then-Keeps rolled (arden_removal-Keeps _ c))
                  (λ _. gives rolled)))

presque-Once : (s : State) (c : EffectContext) → Ends (Once s c) (regime_presque s c)
unfolding regime_presque
presque-Once s c = unless (not (is_from presque (actor s c))) invalid_die_value _ λ _.
    need (actor s c) invalid_die_value _ λ p e.
      need (integer_parameter c "roll") invalid_die_value _ λ roll _.
        unless (not (is_die roll)) invalid_die_value _ λ _.
          unless p.regime_ability_used regime_ability_already_used _ λ u.
            let rolled = Keeps-audit (use_ability s c.actor_participant_id) c "DIE_ROLLED" _ in
            Once-then s c e u (
              Moves-of (
                pick (ltb_ℤ (pos 4) roll) (λ _. gives rolled)
                  (λ _. then-Keeps rolled (presque_replacement-Keeps _ c p))))

dinesia-Once : (s : State) (c : EffectContext) → Ends (Once s c) (regime_dinesia s c)
unfolding regime_dinesia
dinesia-Once s c = unless (not (is_from dinesia (actor s c))) invalid_effect_input _ λ _.
    need (actor s c) invalid_effect_input _ λ p e.
      need (string_parameter c "pdId") invalid_effect_input _ λ pd_id _.
        unless (not (starts_with pd_id "DINESIA_PD_")) invalid_effect_input _ λ _.
          unless p.regime_ability_used regime_ability_already_used _ λ u.
            let start = use_ability s c.actor_participant_id in
            Once-then s c e u (
              Moves-of (
                next (pay start c (pos 2)) _ (pay-Keeps start c (pos 2)) λ t k.
                  next (or_throw (apply_direct_influence t pd_id resiliency dinesia (pos 1))) _
                    (influence-Keeps t pd_id resiliency dinesia 1)
                    λ r l. gives (Keeps-audited c _ _ (both_steps k l))))

ursaria-Once : (s : State) (c : EffectContext) → Ends (Once s c) (regime_ursaria s c)
unfolding regime_ursaria
ursaria-Once s c = unless (not (is_from ursaria (actor s c))) invalid_effect_input _ λ _.
    need (actor s c) invalid_effect_input _ λ p e.
      need (string_array_parameter c "cardIds") invalid_effect_input _ λ ids _.
        unless (not (length ids == 2) || not (all_distinct ids)) invalid_effect_input _ λ _.
          need (string_parameter c "pdId") invalid_effect_input _ λ pd_id _.
            unless (not (starts_with pd_id "URSARIA_PD_")) invalid_effect_input _ λ _.
              need (string_array_parameter c "attributionCountryIds") invalid_effect_input _
                λ owners _. unless (ltb 3 (length owners)) invalid_effect_input _ λ _.
                  unless p.regime_ability_used regime_ability_already_used _ λ u.
                    Once-then s c e u (
                      pick (all (may_give_up (use_ability s c.actor_participant_id) p.id) ids)
                        (λ _. ursaria_exchange-Moves _ c ids pd_id owners)
                        (λ _. gives (Moves-same refl refl refl)))

-- The handlers of the abilities that are there once.
abbrev pub is_once : Handler → Bool
is_once in_arden = true
is_once in_ursaria = true
is_once in_presque = true
is_once in_dinesia = true
is_once _ = false

handle-Once :
    (h : Handler) (s : State) (c : EffectContext)
    → is_once h ≡ true
    → Ends (Once s c) (handle h s c)
unfolding handle
handle-Once in_arden s c e = arden-Once s c
handle-Once in_ursaria s c e = ursaria-Once s c
handle-Once in_presque s c e = presque-Once s c
handle-Once in_dinesia s c e = dinesia-Once s c
handle-Once _ s c e = cc

-- An error, or a state in which the ability that was there is used up.
abbrev pub OnceOutcome : State → EffectContext → EffectResult → Type 0
OnceOutcome s c r =
    ((e : EffectError) × (r ≡ failed s e))
    ⊎ ((t : State) × (es : List AuditRecord) × (r ≡ done t es) × Once s c t)

finish-Once :
    (s : State) (c : EffectContext) {r : Result Failure State}
    → Ends (Once s c) r
    → OnceOutcome s c (finish s r)
finish-Once s c (gives o) = inr (_, _, refl, o)
finish-Once s c (refuses {e}) = inl (e, refl)

handler_in_lem :
    (o : Option EffectDefinition) (h : Handler)
    → handler_in o ≡ some h
    → (d : EffectDefinition) → o ≡ some d
    → d.handler ≡ h
handler_in_lem o h e d f = some_inj (ap handler_in (sym f) ∙ e)

-- A dispatch of a regime ability other than Fluma's ends with an error and the caller's state, or
-- the actor's ability was not used up before and is used up afterwards.
pub dispatch_once :
    (b : Block) (s : State) (c : EffectContext) (h : Handler)
    → handler_of c ≡ some h
    → is_once h ≡ true
    → OnceOutcome s c (dispatch b s c)
unfolding dispatch
dispatch_once b s c h e o =
    run_found_lem (OnceOutcome s c) b s c (λ x. inl (x, refl)) (definition_of c)
      λ d f.
        finish-Once s c
          (handle-Once d.handler s c (ap is_once (handler_in_lem (definition_of c) h e d f) ∙ o))

refused_when_used :
    (s : State) (c : EffectContext) (r : EffectResult)
    → is_used c.actor_participant_id s ≡ true
    → OnceOutcome s c r
    → (x : EffectError) × (r ≡ failed s x)
refused_when_used s c r u (inl refused) = refused
refused_when_used s c r u (inr (t, es, e, o)) = absurd (true_ne_false (sym u ∙ o.0))
  where
    true_ne_false : true ≡ false → ⊥
    true_ne_false e = cc

used_after :
    (s t : State) (c : EffectContext) (es : List AuditRecord) (r : EffectResult)
    → r ≡ done t es
    → OnceOutcome s c r
    → is_used c.actor_participant_id t ≡ true
used_after s t c es r d (inl (x, e)) = absurd (done_ne_failed (sym d ∙ e))
  where
    done_ne_failed : done t es ≡ failed s x → ⊥
    done_ne_failed e = cc
used_after s t c es r d (inr (u, fs, e, o)) =
    ap (is_used c.actor_participant_id) (state_inj (sym d ∙ e)) ∙ o.1
  where
    state_inj : done t es ≡ done u fs → t ≡ u
    state_inj e = cc

-- Once a regime ability other than Fluma's has gone through for a participant, each further
-- dispatch of such an ability by the same participant ends with an error and leaves the state.
pub dispatch_twice :
    (b b2 : Block) (s t : State) (c c2 : EffectContext) (h h2 : Handler) (es : List AuditRecord)
    → handler_of c ≡ some h
    → is_once h ≡ true
    → handler_of c2 ≡ some h2
    → is_once h2 ≡ true
    → c2.actor_participant_id ≡ c.actor_participant_id
    → dispatch b s c ≡ done t es
    → (x : EffectError) × (dispatch b2 t c2 ≡ failed t x)
dispatch_twice b b2 s t c c2 h h2 es e o e2 o2 same d =
    refused_when_used t c2 (dispatch b2 t c2)
      (ap (λ k. is_used k t) same
        ∙ used_after s t c es (dispatch b s c) d (dispatch_once b s c h e o))
      (dispatch_once b2 t c2 h2 e2 o2)
