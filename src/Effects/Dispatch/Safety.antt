-- ===== src/Effects/Dispatch/Safety.antt =====
-- m2b.ts, `M2BEffectDispatcher.dispatch`: what a call may do to the state, over all effects.
use malign_ai.Base.{
  ◌+◌, String, Bool, true, false, Option, none, some, List, [], ◌∷◌, ◌++◌, ◌==◌, string_eq, ◌≡◌,
  refl, ◌∙◌, sym, ap, subst, ◌≢◌, Result, All, Bool-cases, inl, inr, ◌&&◌, not, drop, length,
}
use malign_ai.Base.Int.{ℤ, pos, ◌+ℤ◌}
use malign_ai.Base.Dict.{AllValues, HasUniqueKeys}
use malign_ai.Effects.Types.{State, EffectContext, AuditRecord, EffectError, Failure}
use malign_ai.Effects.Names.{HasOwnNames}
use malign_ai.Effects.Influence.{IsCounted}
use malign_ai.Effects.Wealth.{wealth, IsSolvent}
use malign_ai.Effects.Moves.{Moves, Keeps, is_used}
use malign_ai.Effects.Steps.{minus, pay-Keeps}
use malign_ai.Effects.Ends.{Ends, gives, refuses}
use malign_ai.Effects.Handlers.Balance.{
  fixed_gain_4-Keeps, trade_agreements-Keeps, target_dt_set-Keeps, direct_influence-Keeps,
  corruption-Keeps, cost_of_effect, pay_and_direct_influence-Keeps, pay_and_discard_campaign-Keeps,
  double_action-Keeps, sanctions-Keeps, registered_pair_bonus-Keeps, random_hand_review-Keeps,
}
use malign_ai.Effects.Handlers.Collection.{multi_roll_resource_transfer-Keeps}
use malign_ai.Effects.Regime.Balance.{
  regime_die_remove-Keeps, regime_fluma-Keeps, regime_ursaria-Moves, regime_presque-Keeps,
  regime_dinesia-Keeps,
}
use malign_ai.Effects.Dispatch.{
  Block, Handler, handle, EffectDefinition, EffectResult, done, failed, raised, dispatch,
  definition_of, run_found, run_definition, finish, effect_version, is_m2_3, pair_bonus, trades,
  influences, pays_for_influence, discards_campaign, sanctions_target, doubles_action, spends_1,
  reviews_hand, spends_3, gains_4, collects, sets_target, corrupts, in_arden, in_fluma, in_ursaria,
  in_presque, in_dinesia,
}

-- By how much a handler that goes through changes the resources of all participants together.
abbrev pub change_by : Handler → EffectContext → ℤ
change_by trades c = pos 4
change_by gains_4 c = pos 4
change_by pays_for_influence c = minus (cost_of_effect c)
change_by discards_campaign c = minus (pos 1)
change_by doubles_action c = minus (pos 1)
change_by spends_1 c = minus (pos 1)
change_by corrupts c = minus (pos 1)
change_by spends_3 c = minus (pos 3)
change_by in_dinesia c = minus (pos 2)
change_by _ c = pos 0

-- No handler but the fifth country's may leave a stack below zero.
abbrev counts : Handler → Bool
counts in_ursaria = false
counts _ = true

-- A handler's change, and the map's where the handler counts.
record Does (h : Handler) (s : State) (c : EffectContext) (t : State) : Type 0 where
  moves : Moves s (change_by h c) t
  counted : counts h ≡ true → All IsCounted s.influence → All IsCounted t.influence

from-Keeps :
    {h : Handler} {s : State} {c : EffectContext} {r : Result Failure State}
    → Ends (Keeps s (change_by h c)) r
    → Ends (Does h s c) r
from-Keeps (gives k) = gives (record { moves = k.moves; counted = λ _. k.counted })
from-Keeps refuses = refuses

from-Moves :
    {s : State} {c : EffectContext} {r : Result Failure State}
    → Ends (Moves s (pos 0)) r
    → Ends (Does in_ursaria s c) r
from-Moves (gives m) = gives (record { moves = m; counted = λ e. absurd (no e) })
  where
    no : false ≡ true → ⊥
    no e = cc
from-Moves refuses = refuses

handle-Does :
    (h : Handler) (s : State) (c : EffectContext)
    → HasUniqueKeys s.participants
    → Ends (Does h s c) (handle h s c)
unfolding handle
handle-Does pair_bonus s c u = from-Keeps (registered_pair_bonus-Keeps s c)
handle-Does trades s c u = from-Keeps (trade_agreements-Keeps s c)
handle-Does influences s c u = from-Keeps (direct_influence-Keeps s c)
handle-Does pays_for_influence s c u = from-Keeps (pay_and_direct_influence-Keeps s c)
handle-Does discards_campaign s c u = from-Keeps (pay_and_discard_campaign-Keeps s c)
handle-Does sanctions_target s c u = from-Keeps (sanctions-Keeps s c)
handle-Does doubles_action s c u = from-Keeps (double_action-Keeps s c)
handle-Does spends_1 s c u = from-Keeps (pay-Keeps s c (pos 1))
handle-Does reviews_hand s c u = from-Keeps (random_hand_review-Keeps s c)
handle-Does spends_3 s c u = from-Keeps (pay-Keeps s c (pos 3))
handle-Does gains_4 s c u = from-Keeps (fixed_gain_4-Keeps s c)
handle-Does collects s c u = from-Keeps (multi_roll_resource_transfer-Keeps s c u)
handle-Does sets_target s c u = from-Keeps (target_dt_set-Keeps s c)
handle-Does corrupts s c u = from-Keeps (corruption-Keeps s c)
handle-Does in_arden s c u = from-Keeps (regime_die_remove-Keeps s c)
handle-Does in_fluma s c u = from-Keeps (regime_fluma-Keeps s c)
handle-Does in_ursaria s c u = from-Moves (regime_ursaria-Moves s c)
handle-Does in_presque s c u = from-Keeps (regime_presque-Keeps s c)
handle-Does in_dinesia s c u = from-Keeps (regime_dinesia-Keeps s c)

-- How a call may end: with an error and the caller's state, or with a new state that is one
-- version on, whose audit trail has just the emitted records more, and whose participants'
-- resources have changed in all by what the handler of the effect says; no exception gets out.
pub data Outcome (h : Option Handler) (s : State) (c : EffectContext) : EffectResult → Type 0 where
  refused : {e : EffectError} → Outcome h s c (failed s e)
  applied :
      {t : State} {es : List AuditRecord} {k : Handler}
      → h ≡ some k
      → t.version ≡ s.version + 1
      → t.audit ≡ s.audit ++ es
      → wealth t.participants ≡ wealth s.participants +ℤ change_by k c
      → Outcome h s c (done t es)

drop-append : (xs ys : List AuditRecord) → drop (length xs) (xs ++ ys) ≡ ys
drop-append [] ys = refl
drop-append (x ∷ xs) ys = drop-append xs ys

finish_lem :
    (h : Handler) (s : State) (c : EffectContext) {r : Result Failure State}
    → Ends (Does h s c) r
    → Outcome (some h) s c (finish s r)
finish_lem h s c refuses = refused
finish_lem h s c (gives {a} d) =
    let (es, e) = d.moves.history in
    applied refl (ap (λ n. n + 1) d.moves.same_version)
      (e
        ∙ ap (λ x. s.audit ++ x)
            (sym (drop-append s.audit es) ∙ ap (drop (length s.audit)) (sym e)))
      d.moves.balance

-- What holds of a handler's result holds of what the dispatcher makes of it.
module _ (P : EffectResult → Type 0) (b : Block) (s : State) (c : EffectContext)
    (refused_ok : (e : EffectError) → P (failed s e)) where
  run_definition_lem :
      (d : EffectDefinition) → P (finish s (handle d.handler s c)) → P (run_definition b s c d)
  run_definition_lem d h = elim (Bool-cases (not (c.effect_version == effect_version))) [
    | inl old ↦ rw old (refused_ok _)
    | inr current ↦ elim (Bool-cases (is_m2_3 b && not (is_m2_3 d.enabled_block))) [
      | inl off ↦ rw (current, off) (refused_ok _)
      | inr on ↦ rw (current, on) h
    ]
  ]

  pub run_found_lem :
      (o : Option EffectDefinition)
      → ((d : EffectDefinition) → o ≡ some d → P (finish s (handle d.handler s c)))
      → P (run_found b s c o)
  run_found_lem none h = refused_ok _
  run_found_lem (some d) h = run_definition_lem d (h d refl)

abbrev pub handler_in : Option EffectDefinition → Option Handler
handler_in none = none
handler_in (some d) = some d.handler

-- The handler that the effect is registered with.
abbrev pub handler_of : EffectContext → Option Handler
handler_of c = handler_in (definition_of c)

-- For a state whose participants have one entry each, and ids in the call and the state that are no
-- names of members that every object inherits (`constructor`, say), a dispatch ends with an error and
-- the caller's state, or with a state that is one version on, whose audit trail is the old one and then
-- the emitted records, and in which the sum of all participants' resources has changed by just the
-- amount of the effect's handler; no exception gets out.
pub dispatch-Outcome :
    (b : Block) (s : State) (c : EffectContext)
    → HasUniqueKeys s.participants
    → HasOwnNames s c
    → Outcome (handler_of c) s c (dispatch b s c)
unfolding dispatch
dispatch-Outcome b s c u names =
    run_found_lem (Outcome (handler_of c) s c) b s c (λ e. refused) (definition_of c)
      λ d e.
        subst (λ h. Outcome h s c (finish s (handle d.handler s c))) (sym (ap handler_in e))
          (finish_lem d.handler s c (handle-Does d.handler s c u))

-- The state that a call leaves the caller with.
abbrev pub state_after : State → EffectResult → State
state_after s (done t es) = t
state_after s (failed t e) = t
state_after s (raised x) = s

-- A property of states that every handler keeps.
module _ (P : State → Type 0) where
  finish_preserves :
      (h : Handler) (s : State) (c : EffectContext) {r : Result Failure State}
      → P s
      → ((t : State) → Does h s c t → P (record t { version = t.version + 1 }))
      → Ends (Does h s c) r
      → P (state_after s (finish s r))
  finish_preserves h s c p f (gives {a} d) = f a d
  finish_preserves h s c p f refuses = p

  dispatch_preserves :
      (b : Block) (s : State) (c : EffectContext)
      → HasUniqueKeys s.participants
      → P s
      → ((h : Handler) (t : State)
          → handler_of c ≡ some h
          → Does h s c t
          → P (record t { version = t.version + 1 }))
      → P (state_after s (dispatch b s c))
  unfolding dispatch
  dispatch_preserves b s c u p f =
      run_found_lem (λ r. P (state_after s r)) b s c (λ e. p) (definition_of c)
        λ d e.
          finish_preserves d.handler s c p (λ t k. f d.handler t (ap handler_in e) k)
            (handle-Does d.handler s c u)

-- Whatever effect is dispatched, and however the call ends, participants without negative
-- resources and victory points stay such.
pub dispatch-IsSolvent :
    (b : Block) (s : State) (c : EffectContext)
    → HasUniqueKeys s.participants
    → AllValues IsSolvent s.participants
    → AllValues IsSolvent (state_after s (dispatch b s c)).participants
dispatch-IsSolvent b s c u v =
    dispatch_preserves (λ t. AllValues IsSolvent t.participants) b s c u v
      λ h t e d. d.moves.solvent v

-- A map without negative stacks stays such under every dispatch, unless the effect is registered
-- with the handler of the country Ursaria.
pub dispatch-IsCounted :
    (b : Block) (s : State) (c : EffectContext)
    → HasUniqueKeys s.participants
    → handler_of c ≢ some in_ursaria
    → All IsCounted s.influence
    → All IsCounted (state_after s (dispatch b s c)).influence
dispatch-IsCounted b s c u other v =
    dispatch_preserves (λ t. All IsCounted t.influence) b s c u v
      λ h t e d. d.counted (only_ursaria h (λ f. other (e ∙ ap some f))) v
  where
    only_ursaria : (h : Handler) → h ≢ in_ursaria → counts h ≡ true
    only_ursaria in_ursaria ne = absurd (ne refl)
    only_ursaria _ ne = refl

-- A participant whose regime ability is used up stays so under every dispatch.
pub dispatch_keeps_used :
    (b : Block) (s : State) (c : EffectContext) (k : String)
    → HasUniqueKeys s.participants
    → is_used k s ≡ true
    → is_used k (state_after s (dispatch b s c)) ≡ true
dispatch_keeps_used b s c k u v =
    dispatch_preserves (λ t. is_used k t ≡ true) b s c u v λ h t e d. d.moves.used k v
