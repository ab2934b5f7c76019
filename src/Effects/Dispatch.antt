-- ===== src/Effects/Dispatch.antt =====
-- m2b.ts: the table of effect definitions and `M2BEffectDispatcher`.
pub mod Safety
pub mod Once
use malign_ai.Base.{
  ℕ, ◌+◌, String, Bool, true, false, Option, none, some, List, [], ◌∷◌, ◌++◌, ◌==◌, ◌&&◌, not,
  string_eq, if◌then◌else◌, Result, ok, err, Exception, find, map, contains, length, drop,
}
use malign_ai.Base.Int.{pos}
use malign_ai.Effects.Types.{
  State, EffectContext, AuditRecord, EffectError, effect_unknown, effect_disabled,
  effect_version_mismatch, Failure, rejected, thrown,
}
use malign_ai.Effects.Resources.{pay}
use malign_ai.Effects.Regime.{
  regime_die_remove, regime_fluma, regime_ursaria, regime_presque, regime_dinesia,
}
use malign_ai.Effects.Registry.{
  effect, pair_bonus_effect_ids, target_dt_effect_ids, effect_manifest,
}
use malign_ai.Effects.Handlers.{
  registered_pair_bonus, trade_agreements, direct_influence, pay_and_direct_influence,
  pay_and_discard_campaign, sanctions, double_action, random_hand_review, fixed_gain_4,
  multi_roll_resource_transfer, target_dt_set, corruption,
}

pub data Block : Type 0 where
  m2_3 m2_4 : Block

-- The handlers that a definition names.
pub data Handler : Type 0 where
  pair_bonus trades influences pays_for_influence discards_campaign sanctions_target : Handler
  doubles_action spends_1 reviews_hand spends_3 gains_4 collects sets_target corrupts : Handler
  in_arden in_fluma in_ursaria in_presque in_dinesia : Handler

unfoldable pub handle : Handler → State → EffectContext → Result Failure State
handle pair_bonus = registered_pair_bonus
handle trades = trade_agreements
handle influences = direct_influence
handle pays_for_influence = pay_and_direct_influence
handle discards_campaign = pay_and_discard_campaign
handle sanctions_target = sanctions
handle doubles_action = double_action
handle spends_1 = λ state context. pay state context (pos 1)
handle reviews_hand = random_hand_review
handle spends_3 = λ state context. pay state context (pos 3)
handle gains_4 = fixed_gain_4
handle collects = multi_roll_resource_transfer
handle sets_target = target_dt_set
handle corrupts = corruption
handle in_arden = regime_die_remove
handle in_fluma = regime_fluma
handle in_ursaria = regime_ursaria
handle in_presque = regime_presque
handle in_dinesia = regime_dinesia

pub record EffectDefinition : Type 0 where
  pub effect_id : String
  pub enabled_block : Block
  pub handler : Handler

abbrev definition : Block → Handler → String → EffectDefinition
definition block handler effect_id = record {
  effect_id = effect_id;
  enabled_block = block;
  handler = handler;
}

-- Every definition has version 0.1.
abbrev pub effect_version : String
effect_version = "0.1"

unfoldable pub definitions : List EffectDefinition
unfolding pair_bonus_effect_ids target_dt_effect_ids
definitions =
    map (definition m2_3 pair_bonus) pair_bonus_effect_ids
    ++ definition m2_4 trades (effect "001")
      ∷ definition m2_4 influences (effect "014")
      ∷ definition m2_4 pays_for_influence (effect "015")
      ∷ definition m2_4 discards_campaign (effect "017")
      ∷ definition m2_4 sanctions_target (effect "019")
      ∷ definition m2_4 doubles_action (effect "025")
      ∷ definition m2_4 spends_1 (effect "026")
      ∷ definition m2_4 reviews_hand (effect "028")
      ∷ definition m2_4 spends_3 (effect "039")
      ∷ definition m2_4 gains_4 (effect "042")
      ∷ definition m2_4 collects (effect "046")
      ∷ []
    ++ map (definition m2_4 sets_target) target_dt_effect_ids
    ++ definition m2_4 corrupts (effect "051")
      ∷ definition m2_4 in_arden "REGIME_EFFECT_ARDEN"
      ∷ definition m2_4 in_fluma "REGIME_EFFECT_FLUMA"
      ∷ definition m2_4 in_ursaria "REGIME_EFFECT_URSARIA"
      ∷ definition m2_4 in_presque "REGIME_EFFECT_PRESQUE"
      ∷ definition m2_4 in_dinesia "REGIME_EFFECT_DINESIA"
      ∷ []

-- `M2BEffectResult`, and the exception of a handler.
pub data EffectResult : Type 0 where
  done : State → List AuditRecord → EffectResult
  failed : State → EffectError → EffectResult
  raised : Exception → EffectResult

abbrev pub is_m2_3 : Block → Bool
is_m2_3 m2_3 = true
is_m2_3 m2_4 = false

-- The handler ran on a copy: on an error the caller's state comes back.
abbrev pub finish : State → Result Failure State → EffectResult
finish state (ok draft) =
    done (record draft { version = draft.version + 1 }) (drop (length state.audit) draft.audit)
finish state (err (rejected e)) = failed state e
finish state (err (thrown x)) = raised x

abbrev pub run_definition : Block → State → EffectContext → EffectDefinition → EffectResult
run_definition enabled_through state context definition =
    if not (context.effect_version == effect_version)
    then failed state effect_version_mismatch
    else if is_m2_3 enabled_through && not (is_m2_3 definition.enabled_block)
    then failed state effect_disabled
    else finish state (handle definition.handler state context)

-- What happens once the definition is looked up.
abbrev pub run_found : Block → State → EffectContext → Option EffectDefinition → EffectResult
run_found enabled_through state context none = failed state (
    if contains context.effect_id (map (λ e. e.0) effect_manifest)
    then effect_disabled
    else effect_unknown)
run_found enabled_through state context (some definition) =
    run_definition enabled_through state context definition

abbrev pub definition_of : EffectContext → Option EffectDefinition
definition_of context = find (λ d. d.effect_id == context.effect_id) definitions

unfoldable pub dispatch : Block → State → EffectContext → EffectResult
dispatch enabled_through state context =
    run_found enabled_through state context (definition_of context)
