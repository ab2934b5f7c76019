-- ===== src/Sessions/Authority.antt =====
-- packages/authz/src/session-authority.ts: the bindings of sessions to games and who they act as.
pub mod Access
pub mod Exclusion
use malign_ai.Base.{
  ℕ, String, Bool, true, false, Option, none, some, List, [], ◌∷◌, ◌==◌, string_eq, nat_eq, ◌||◌,
  ◌&&◌, not, if◌then◌else◌, ◌≡◌, ◌↔◌, Result, ok, err, ◌>>=◌, ◌>>◌, fail_if, or_fail, arith, Eq,
}
use malign_ai.Base.Dict.{map_values, Dict, lookup, insert, erase, has_key}
use malign_ai.Commands.Contract.{ActorContext, ActorType, player, facilitator, ErrorCode}
use malign_ai.Effects.Types.{CountryId, country_text}

-- packages/domain/src/m1-setup.ts
pub data ParticipantRole : Type 0 where
  role_facilitator role_player : ParticipantRole

abbrev pub role_index : ParticipantRole → ℕ
role_index role_facilitator = 0
role_index role_player = 1

abbrev pub role_beq : ParticipantRole → ParticipantRole → Bool
role_beq a b = role_index a == role_index b

pub role_beq_iff : (a b : ParticipantRole) → (role_beq a b ≡ true) ↔ (a ≡ b)
role_beq_iff a b = ground arith

instance abbrev pub role_eq : Eq ParticipantRole
role_eq = record { are_same = role_beq; are_same_iff = role_beq_iff }

abbrev pub is_facilitator : ParticipantRole → Bool
is_facilitator role_facilitator = true
is_facilitator role_player = false

abbrev pub actor_type_of : ParticipantRole → ActorType
actor_type_of role_facilitator = facilitator
actor_type_of role_player = player

pub record TrustedSessionBinding : Type 0 where
  pub authenticated_session_id : String
  pub user_id : String
  pub game_id : String
  pub participant_id : String
  pub role : ParticipantRole

pub record GameSessionMembership : Type 0 where
  pub game_id : String
  pub participant_id : String
  pub authenticated_session_id : String
  pub connected : Bool

pub record GameSession : Type 0 where
  pub game_id : String
  pub memberships : Dict GameSessionMembership

-- What is read of a game: its id, who takes part in it, and the seats.
pub record Member : Type 0 where
  pub user_id : String
  pub role : ParticipantRole

pub record Seat : Type 0 where
  pub id : String
  pub country_id : CountryId

pub record GameView : Type 0 where
  pub id : String
  pub participants : Dict Member
  pub seats : Dict Seat

pub record SessionAuthority : Type 0 where
  pub bindings : Dict TrustedSessionBinding
  pub sessions : Dict GameSession

-- The constructor, `none` where it throws on a session that is bound twice.
unfoldable pub bind_all :
    List TrustedSessionBinding → Dict TrustedSessionBinding → Option (Dict TrustedSessionBinding)
bind_all [] bound = some bound
bind_all (b ∷ bs) bound =
    let rest = bind_all bs (insert b.authenticated_session_id b bound) in
    if has_key b.authenticated_session_id bound then none else rest

abbrev no_sessions : Option (Dict TrustedSessionBinding) → Option SessionAuthority
no_sessions none = none
no_sessions (some bindings) = some (record { bindings = bindings; sessions = [] })

unfoldable pub new_authority : List TrustedSessionBinding → Option SessionAuthority
unfolding bind_all
new_authority bindings = no_sessions (bind_all bindings [])

abbrev pub context_from :
    TrustedSessionBinding → List String → Option String → Option String → ActorContext
context_from binding permissions seat_id country_id = record {
  actor_id = binding.user_id;
  actor_type = actor_type_of binding.role;
  participant_id = some binding.participant_id;
  player_seat_id = seat_id;
  country_id = country_id;
  authenticated_session_id = binding.authenticated_session_id;
  permissions = permissions;
}

-- The binding of a session, for its own game.
abbrev pub bound_to : SessionAuthority → String → String → Result ErrorCode TrustedSessionBinding
bound_to authority session_id game_id = do
  binding ← or_fail (lookup session_id authority.bindings) "INVALID_ACTOR_CONTEXT"
  fail_if (not (binding.game_id == game_id)) "GAME_ID_MISMATCH"
  ok binding

unfoldable pub verify_game_scope : SessionAuthority → String → String → Result ErrorCode (Unit {0})
verify_game_scope authority session_id game_id = do _ ← bound_to authority session_id game_id; ok tt

unfoldable pub resolve_bound_actor_id : SessionAuthority → String → String → Result ErrorCode String
resolve_bound_actor_id authority session_id game_id = do
  binding ← bound_to authority session_id game_id
  ok binding.user_id

-- `binding.role !== 'FACILITATOR' || binding.participantId !== 'F1'`
abbrev pub is_not_creator : TrustedSessionBinding → Bool
is_not_creator binding = not (is_facilitator binding.role) || not (binding.participant_id == "F1")

abbrev pub creator_permissions : List String
creator_permissions = "game:create" ∷ "game:facilitate" ∷ "game:project" ∷ []

unfoldable pub resolve_for_create :
    SessionAuthority → String → String → Result ErrorCode ActorContext
resolve_for_create authority session_id game_id = do
  binding ← bound_to authority session_id game_id
  fail_if (is_not_creator binding) "NOT_AUTHORIZED"
  ok (context_from binding creator_permissions none none)

unfoldable pub authorize_allocated_game_creation :
    SessionAuthority → String → Result ErrorCode ActorContext
authorize_allocated_game_creation authority session_id = do
  binding ← or_fail (lookup session_id authority.bindings) "INVALID_ACTOR_CONTEXT"
  fail_if (is_not_creator binding) "NOT_AUTHORIZED"
  ok (context_from binding ("game:create" ∷ []) none none)

-- Every binding to the provisional game becomes one to the allocated game.
abbrev pub rebind : String → String → Dict TrustedSessionBinding → Dict TrustedSessionBinding
rebind provisional allocated [] = []
rebind provisional allocated ((k, b) ∷ rest) =
    (k, if b.game_id == provisional then record b { game_id = allocated } else b)
    ∷ rebind provisional allocated rest

abbrev pub bind_found :
    SessionAuthority
    → String
    → Option TrustedSessionBinding
    → Result ErrorCode ActorContext × SessionAuthority
bind_found authority allocated none = (err "INVALID_ACTOR_CONTEXT", authority)
bind_found authority allocated (some binding) =
    if is_not_creator binding then (err "NOT_AUTHORIZED", authority) else (
      ok (context_from (record binding { game_id = allocated }) creator_permissions none none),
      record authority { bindings = rebind binding.game_id allocated authority.bindings },
    )

unfoldable pub bind_allocated_game_for_create :
    SessionAuthority → String → String → Result ErrorCode ActorContext × SessionAuthority
bind_allocated_game_for_create authority session_id allocated =
    bind_found authority allocated (lookup session_id authority.bindings)

abbrev is_player_role : ParticipantRole → Bool
is_player_role role_facilitator = false
is_player_role role_player = true

-- The binding of a session for the game whose state is given.
abbrev pub bound_in :
    SessionAuthority → String → String → GameView → Result ErrorCode TrustedSessionBinding
bound_in authority session_id game_id state = do
  binding ← or_fail (lookup session_id authority.bindings) "INVALID_ACTOR_CONTEXT"
  fail_if (not (binding.game_id == game_id) || not (state.id == game_id)) "GAME_ID_MISMATCH"
  ok binding

unfoldable pub resolve_for_join :
    SessionAuthority → String → String → GameView → Result ErrorCode ActorContext
resolve_for_join authority session_id game_id state = do
  binding ← bound_in authority session_id game_id state
  fail_if (not (is_player_role binding.role)) "NOT_AUTHORIZED"
  ok (context_from binding ("game:join" ∷ []) none none)

abbrev pub membership_in : Option GameSession → String → Option GameSessionMembership
membership_in none participant_id = none
membership_in (some session) participant_id = lookup participant_id session.memberships

abbrev pub is_connected : String → Option GameSessionMembership → Bool
is_connected session_id none = false
is_connected session_id (some m) = m.connected && m.authenticated_session_id == session_id

abbrev pub takes_part : TrustedSessionBinding → Option Member → Bool
takes_part binding none = false
takes_part binding (some p) = p.user_id == binding.user_id && p.role == binding.role

abbrev pub seat_id_of : Option Seat → Option String
seat_id_of none = none
seat_id_of (some seat) = some seat.id

abbrev pub country_text_of : Option Seat → Option String
country_text_of none = none
country_text_of (some seat) = some (country_text seat.country_id)

abbrev pub permissions_of : ParticipantRole → List String
permissions_of role_facilitator = "game:facilitate" ∷ "game:project" ∷ []
permissions_of role_player = "game:play" ∷ "game:project" ∷ []

unfoldable pub resolve :
    SessionAuthority → String → String → GameView → Result ErrorCode ActorContext
resolve authority session_id game_id state = do
  binding ← bound_in authority session_id game_id state
  let membership = membership_in (lookup game_id authority.sessions) binding.participant_id
  let participant = lookup binding.participant_id state.participants
  fail_if (not (is_connected session_id membership && takes_part binding participant))
      "NOT_AUTHORIZED"
  let seat = lookup binding.participant_id state.seats
  ok (context_from binding (permissions_of binding.role) (seat_id_of seat) (country_text_of seat))

abbrev pub is_verified : String → String → Option TrustedSessionBinding → Bool
is_verified game_id participant_id none = false
is_verified game_id participant_id (some b) =
    b.game_id == game_id && b.participant_id == participant_id

abbrev pub session_or_new : String → Option GameSession → GameSession
session_or_new game_id none = record { game_id = game_id; memberships = [] }
session_or_new game_id (some session) = session

abbrev pub joined : String → String → String → GameSession → GameSession
joined session_id game_id participant_id session = record session {
  memberships =
      insert participant_id
        (record {
          game_id = game_id;
          participant_id = participant_id;
          authenticated_session_id = session_id;
          connected = true;
        })
        session.memberships;
}

-- `none` where the method throws.
unfoldable pub materialize_membership :
    SessionAuthority → String → String → String → Option SessionAuthority
materialize_membership authority session_id game_id participant_id =
    if is_verified game_id participant_id (lookup session_id authority.bindings)
    then some (record authority {
      sessions =
          insert game_id
            (joined session_id game_id participant_id
              (session_or_new game_id (lookup game_id authority.sessions)))
            authority.sessions;
    })
    else none

abbrev pub coded : Result ErrorCode ActorContext → Result (Option ErrorCode) ActorContext
coded (ok c) = ok c
coded (err e) = err (some e)

-- What the method throws is an `err none`.
abbrev pub rejoined :
    SessionAuthority
    → String
    → String
    → GameView
    → Option SessionAuthority
    → Result (Option ErrorCode) ActorContext × SessionAuthority
rejoined authority session_id game_id state none = (err none, authority)
rejoined authority session_id game_id state (some after) =
    (coded (resolve after session_id game_id state), after)

abbrev pub persisted :
    SessionAuthority
    → String
    → String
    → GameView
    → Result ErrorCode TrustedSessionBinding
    → Result (Option ErrorCode) ActorContext × SessionAuthority
persisted authority session_id game_id state (err e) = (err (some e), authority)
persisted authority session_id game_id state (ok binding) =
    if takes_part binding (lookup binding.participant_id state.participants)
    then rejoined authority session_id game_id state
        (materialize_membership authority session_id game_id binding.participant_id)
    else (err (some "NOT_AUTHORIZED"), authority)

unfoldable pub resolve_persisted_membership :
    SessionAuthority
    → String
    → String
    → GameView
    → Result (Option ErrorCode) ActorContext × SessionAuthority
resolve_persisted_membership authority session_id game_id state =
    persisted authority session_id game_id state (bound_in authority session_id game_id state)

abbrev disconnect_member : String → GameSessionMembership → GameSessionMembership
disconnect_member session_id m =
    if m.authenticated_session_id == session_id then record m { connected = false } else m

unfoldable pub invalidate_session : SessionAuthority → String → SessionAuthority
invalidate_session authority session_id = record {
  bindings = erase session_id authority.bindings;
  sessions =
      map_values
        (λ (s : GameSession). record s {
          memberships = map_values (disconnect_member session_id) s.memberships;
        })
        authority.sessions;
}
