-- ===== src/Sessions/Authority/Access.antt =====
-- session-authority.ts: who gets an actor's context, and who is shut out.
use malign_ai.Base.{
  List, [], ◌∷◌, String, true, Option, none, some, ◌≡◌, refl, string_eq, nat_eq, arith, eq_iff, ok,
}
use malign_ai.Base.Dict.{lookup}
use malign_ai.Commands.Contract.{ActorContext, ActorType, player, facilitator}
use malign_ai.Sessions.Authority.{
  actor_type_of, seat_id_of, country_text_of, role_facilitator, role_player, SessionAuthority,
  TrustedSessionBinding, GameSessionMembership, GameView, Member, ParticipantRole, role_eq,
  role_beq_iff, permissions_of, membership_in, resolve,
}

-- The type and the permissions of an actor in a role.
pub data ActsIn : ParticipantRole → ActorType → List String → Type 0 where
  as_facilitator : ActsIn role_facilitator facilitator ("game:facilitate" ∷ "game:project" ∷ [])
  as_player : ActsIn role_player player ("game:play" ∷ "game:project" ∷ [])

-- What stands behind a context that a session gets for a game.
pub record Authorized (a : SessionAuthority) (session_id game_id : String) (state : GameView)
    (c : ActorContext) : Type 0 where
  pub binding : TrustedSessionBinding
  pub membership : GameSessionMembership
  pub participant : Member
  pub bound : lookup session_id a.bindings ≡ some binding
  pub its_game : binding.game_id ≡ game_id
  pub state_game : state.id ≡ game_id
  pub joined : membership_in (lookup game_id a.sessions) binding.participant_id ≡ some membership
  pub connected : membership.connected ≡ true
  pub by_session : membership.authenticated_session_id ≡ session_id
  pub known : lookup binding.participant_id state.participants ≡ some participant
  pub same_user : participant.user_id ≡ binding.user_id
  pub same_role : participant.role ≡ binding.role
  pub acts_as : c.participant_id ≡ some binding.participant_id
  pub acts_for : c.actor_id ≡ binding.user_id
  pub of_session : c.authenticated_session_id ≡ binding.authenticated_session_id
  pub in_role : ActsIn binding.role c.actor_type c.permissions
  pub at_seat : c.player_seat_id ≡ seat_id_of (lookup binding.participant_id state.seats)
  pub for_country : c.country_id ≡ country_text_of (lookup binding.participant_id state.seats)

role_allows : (r : ParticipantRole) → ActsIn r (actor_type_of r) (permissions_of r)
role_allows ParticipantRole.role_facilitator = as_facilitator
role_allows ParticipantRole.role_player = as_player

-- A session gets a context for a game only when it is bound to that game and its state, its
-- membership there is connected and its own, and the participant is the binding's user in the
-- binding's role. It then acts as that participant and user, for the binding's session, from the
-- participant's seat and for its country if there is one: a facilitator as a facilitator, who may facilitate and project
-- and nothing else, and a player as a player, who may play and project and nothing else.
pub resolve_authorizes :
    (a : SessionAuthority) (session_id game_id : String) (state : GameView) (c : ActorContext)
    → resolve a session_id game_id state ≡ ok c
    → Authorized a session_id game_id state c
unfolding resolve
resolve_authorizes a session_id game_id state c e = by_binding (lookup session_id a.bindings) refl
  where
    by_binding :
        (o : Option TrustedSessionBinding)
        → lookup session_id a.bindings ≡ o
        → Authorized a session_id game_id state c
    by_binding none q = absurd (ground arith)
    by_binding (some b) q =
        by_member (membership_in (lookup game_id a.sessions) b.participant_id) refl
          (lookup b.participant_id state.participants) refl
      where
        by_member :
            (m : Option GameSessionMembership)
            → membership_in (lookup game_id a.sessions) b.participant_id ≡ m
            → (p : Option Member) → lookup b.participant_id state.participants ≡ p
            → Authorized a session_id game_id state c
        by_member none x p y = absurd (ground arith)
        by_member (some m) x none y = absurd (ground arith)
        by_member (some m) x (some p) y = record {
          binding = b;
          membership = m;
          participant = p;
          bound = q;
          its_game = ground (arith, eq_iff b.game_id game_id);
          state_game = ground (arith, eq_iff state.id game_id);
          joined = x;
          connected = ground arith;
          by_session = ground (arith, eq_iff m.authenticated_session_id session_id);
          known = y;
          same_user = ground (arith, eq_iff p.user_id b.user_id);
          same_role = ground (arith, role_beq_iff p.role b.role);
          acts_as = ground arith;
          acts_for = ground arith;
          of_session = ground arith;
          at_seat = ground arith;
          for_country = ground arith;
          in_role =
              let type : c.actor_type ≡ actor_type_of b.role = ground arith in
              let allowed : c.permissions ≡ permissions_of b.role = ground arith in
              rw type (rw allowed (role_allows b.role));
        }
