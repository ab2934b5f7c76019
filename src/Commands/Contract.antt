-- ===== src/Commands/Contract.antt =====
-- packages/contracts/src/index.ts: envelopes, results and errors of commands.
use Prim.Native.Nat.{◌-◌}
use Prim.Native.String.{len}
use text.Mathlib.Text.{find?, get?}
use malign_ai.Base.{
  ℕ, String, Bool, true, false, Option, none, some, List, ◌==◌, ◌||◌, string_eq, if◌then◌else◌,
  is_some,
}
use malign_ai.Base.Number.{Number}
use malign_ai.Base.Text.{starts_with}

pub data ActorType : Type 0 where
  player facilitator system : ActorType

abbrev pub is_player : ActorType → Bool
is_player player = true
is_player facilitator = false
is_player system = false

pub record ActorContext : Type 0 where
  pub actor_id : String
  pub actor_type : ActorType
  pub participant_id : Option String
  pub player_seat_id : Option String
  pub country_id : Option String
  pub authenticated_session_id : String
  pub permissions : List String

pub record CommandEnvelope (T P : Type 0) : Type 0 where
  pub engine_contract_version : String
  pub command_id : String
  pub idempotency_key : String
  pub game_id : String
  pub actor_context : ActorContext
  pub expected_game_version : Number
  pub command_type : T
  pub payload_schema_version : String
  pub payload : P

-- The codes are the strings of the source: a category goes by how they begin.
abbrev pub ErrorCode : Type 0
ErrorCode = String

pub data ErrorCategory : Type 0 where
  authorization phase_state concurrency resource card campaign targeting : ErrorCategory
  choice rule_invariant contract : ErrorCategory

-- Without `safeMessageKey`, which is the code in lower case after a fixed prefix.
pub record EngineError : Type 0 where
  pub code : ErrorCode
  pub category : ErrorCategory
  pub retryable : Bool

abbrev includes : String → String → Bool
includes s t = is_some (find? s t)

abbrev is_suffix : String → Option String → Bool
is_suffix t none = false
is_suffix t (some u) = u == t

abbrev pub ends_with : String → String → Bool
ends_with s t = is_suffix t (get? s (len s - len t) (len s))

unfoldable pub category_of : ErrorCode → ErrorCategory
category_of code =
    if code == "STALE_STATE_VERSION" || code == "IDEMPOTENCY_KEY_REUSED"
    then concurrency
    else if code == "NOT_AUTHORIZED"
        || code == "INVALID_ACTOR_CONTEXT"
        || code == "PARTICIPANT_NOT_FOUND"
    then authorization
    else if code == "INSUFFICIENT_AP" || code == "INSUFFICIENT_RESOURCES"
    then resource
    else if starts_with code "CARD_"
        || starts_with code "STRATEGY_"
        || code == "DUPLICATE_CARD_INSTANCE"
    then card
    else if starts_with code "INVALID_DT" || starts_with code "INVALID_TARGET"
    then targeting
    else if starts_with code "CHOICE_"
        || code == "INVALID_CHOICE_OPTION"
        || code == "NARRATIVE_NOT_AUTHORIZED"
    then choice
    else if starts_with code "REALTIME_CURSOR_"
    then (if ends_with code "SCOPE_MISMATCH" then authorization else contract)
    else if starts_with code "REACTION_" || code == "VETO_ABUSE" || code == "STALE_CONTINUATION"
    then rule_invariant
    else if starts_with code "EFFECT_"
        || code == "INVALID_EFFECT_INPUT"
        || code == "REGIME_ABILITY_ALREADY_USED"
        || code == "ROLL_MODIFIER_ALREADY_USED"
        || code == "INVALID_DIE_VALUE"
    then rule_invariant
    else if starts_with code "CAMPAIGN_" || code == "INVALID_SLOT"
    then campaign
    else if code == "COST_PAYMENT_FAILED"
    then resource
    else if starts_with code "UNSUPPORTED_" || code == "INVALID_COMMAND_PAYLOAD"
    then contract
    else if code == "INVALID_MAINTENANCE_SELECTION"
    then card
    else if includes code "ALREADY_ASSIGNED"
        || includes code "ALREADY_SEATED"
        || code == "PARTICIPANT_ALREADY_EXISTS"
        || code == "SETUP_INVALID"
    then rule_invariant
    else phase_state

unfoldable pub engine_error_for : ErrorCode → EngineError
engine_error_for code = record {
  code = code;
  category = category_of code;
  retryable = code == "STALE_STATE_VERSION";
}

pub data CommandStatus : Type 0 where
  command_resolved requires_choice command_rejected : CommandStatus

pub record CommandResult (R : Type 0) : Type 0 where
  pub command_id : String
  pub game_id : String
  pub status : CommandStatus
  pub game_version_before : ℕ
  pub game_version_after : ℕ
  pub result_code : String
  pub result_payload : Option R
  pub emitted_event_refs : List String
  pub adjudication_trace_refs : List String
  pub error : Option EngineError
  pub resolved_at : String
