-- ===== src/Effects/Resources.antt =====
-- m2b.ts: resources that are spent, handed over and recorded, and the audit trail.
use malign_ai.Base.{
  String, Bool, Option, none, some, List, [], ◌∷◌, ◌++◌, ◌==◌, ◌||◌, not, string_eq, nat_eq,
  if◌then◌else◌, Result, ok, err, Exception, ◌>>=◌, ◌>>◌, or_fail, fail_if, any, length,
}
use malign_ai.Base.Int.{ℤ, pos, ◌+ℤ◌, ◌-ℤ◌, ltb_ℤ, leb_ℤ, min_ℤ, int_eq}
use malign_ai.Base.Dict.{Dict, lookup, modify, has_key}
use malign_ai.Base.Text.{◌<>◌, decimal}
use malign_ai.Effects.Types.{
  State, Participant, EffectContext, Scalar, text, number, ResourceSpend, card_cost, country_eq,
  EffectError, invalid_effect_input, insufficient_resources, Failure, rejected, thrown,
}

-- `or_fail` with an error code of a handler.
abbrev pub or_reject {ℓ} : {A : Type ℓ} → Option A → EffectError → Result Failure A
or_reject o e = or_fail o (rejected e)

abbrev pub reject_if : Bool → EffectError → Result Failure (Unit {0})
reject_if test e = fail_if test (rejected e)

-- An exception passes through a handler.
abbrev pub or_throw {ℓ} : {A : Type ℓ} → Result Exception A → Result Failure A
or_throw (ok a) = ok a
or_throw (err e) = err (thrown e)

abbrev pub actor : State → EffectContext → Option Participant
actor state context = lookup context.actor_participant_id state.participants

unfoldable pub audit : State → EffectContext → String → Dict Scalar → State
audit state context type payload = record state {
  audit =
      state.audit
      ++ record {
        type = type;
        actor_participant_id = context.actor_participant_id;
        payload = payload;
      }
        ∷ [];
}

abbrev pub spends_of : State → List ResourceSpend
spends_of state = elim state.resource_spends [ none ↦ [] | some spends ↦ spends ]

-- Also the refused record leaves the list of spends defined.
unfoldable pub record_qualifying_resource_spend : State → ResourceSpend → Option EffectError × State
record_qualifying_resource_spend state spend =
    let spends = spends_of state in
    if leb_ℤ spend.amount (pos 0)
      || not (has_key spend.participant_id state.participants)
      || any (λ s. s.id == spend.id) spends
    then (some invalid_effect_input, record state { resource_spends = some spends })
    else (none, record state { resource_spends = some (spends ++ spend ∷ []) })

abbrev pub add_resources : ℤ → Participant → Participant
add_resources amount p = record p { resources = p.resources +ℤ amount }

abbrev pub take_resources : ℤ → Participant → Participant
take_resources amount p = record p { resources = p.resources -ℤ amount }

unfoldable pub pay : State → EffectContext → ℤ → Result Failure State
pay state context amount = do
  participant ← or_reject (actor state context) invalid_effect_input
  reject_if (ltb_ℤ participant.resources amount) insufficient_resources
  let paid = record state {
    participants = modify context.actor_participant_id (take_resources amount) state.participants;
  }
  let noted =
      audit paid context "RESOURCE_SPENT" (
        ("amount", number amount) ∷ ("balanceAfter", number (participant.resources -ℤ amount)) ∷ [])
  ok (
      (record_qualifying_resource_spend noted (record {
        id = "spend:" <> decimal noted.version <> ":" <> decimal (length noted.audit);
        participant_id = participant.id;
        amount = amount;
        reason = card_cost;
      })).1)

unfoldable pub transfer : State → EffectContext → String → ℤ → Result Failure State
transfer state context target_id amount = do
  source ← or_reject (actor state context) invalid_effect_input
  _ ← or_reject (lookup target_id state.participants) invalid_effect_input
  reject_if (ltb_ℤ amount (pos 0)) invalid_effect_input
  let effective = min_ℤ source.resources amount
  let given = modify context.actor_participant_id (take_resources effective) state.participants
  ok (
      audit (record state { participants = modify target_id (add_resources effective) given })
        context "RESOURCE_TRANSFERRED"
        (("targetParticipantId", text target_id) ∷ ("amount", number effective) ∷ []))
