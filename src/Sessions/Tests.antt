-- ===== src/Sessions/Tests.antt =====
-- packages/authz: two sessions of one player.
use malign_ai.Base.{
  eq_iff, String, true, none, some, [], ◌∷◌, ◌≡◌, ◌≢◌, refl, ok, err, string_eq, if◌then◌else◌,
}
use malign_ai.Base.Dict.{lookup}
use malign_ai.Commands.Contract.{ActorContext}
use malign_ai.Sessions.Registry.{
  VerifiedExternalIdentity, SessionRegistry, session_invalid, token_expired, resolve, invalidate,
  create, invalidate_external_subject, invalidate_external_identity_digest, has_subject, has_digest,
  is_digest,
}
use malign_ai.Sessions.Registry.Revocation.{
  creates, resolves, run_calls, no_registry, revoked_for_good, invalidate_exactly, unless,
}
use malign_ai.Sessions.Authority as Authority
use malign_ai.Sessions.Authority.{
  SessionAuthority, TrustedSessionBinding, GameView, role_player, materialize_membership,
  permissions_of, context_from, invalidate_session, resolve_persisted_membership, resolve_for_join,
  verify_game_scope, authorize_allocated_game_creation, resolve_for_create, resolve_bound_actor_id,
  bind_allocated_game_for_create,
}
use malign_ai.Sessions.Authority.Access.{Authorized, resolve_authorizes}
use malign_ai.Sessions.Authority.Exclusion as Exclusion
use malign_ai.Sessions.Authority.Exclusion.{resumes, invalidated_for_good, materialize_takes_over}

abbrev identity : VerifiedExternalIdentity
identity = record {
  subject = "u";
  issuer = "i/";
  audience = [];
  client_binding = "c";
  scopes = [];
  expires_at_epoch_seconds = 10;
}

abbrev digest_of : String → String
digest_of t = t

abbrev one_session : SessionRegistry
unfolding create
one_session = (create "s" identity 1 no_registry).1

revoked_for_good_example :
    (resolve "s" 5 (run_calls digest_of (resolves "s" 4 ∷ []) (invalidate "s" one_session)) ≡ (
      err session_invalid,
      run_calls digest_of (resolves "s" 4 ∷ []) (invalidate "s" one_session),
    ))
    × ((resolve "s" 10000 one_session).0 ≡ err token_expired
        → resolve "s" 5
            (run_calls digest_of (resolves "s" 4 ∷ []) (resolve "s" 10000 one_session).1)
          ≡ (
            err session_invalid,
            run_calls digest_of (resolves "s" 4 ∷ []) (resolve "s" 10000 one_session).1,
          ))
revoked_for_good_example =
    revoked_for_good digest_of one_session "s" 10000 5 (resolves "s" 4 ∷ []) (λ e. cc, tt)

invalidate_exactly_example :
    let r = run_calls digest_of (creates "s" identity 1 ∷ []) no_registry in
    (lookup "s" (invalidate_external_subject "u" r).sessions
      ≡ unless (has_subject "u") (lookup "s" r.sessions))
    × (lookup "s" (invalidate_external_identity_digest digest_of "x" r).sessions ≡ (
        if is_digest "x"
        then unless (has_digest digest_of "x") (lookup "s" r.sessions)
        else lookup "s" r.sessions))
invalidate_exactly_example = invalidate_exactly digest_of (creates "s" identity 1 ∷ []) "u" "x" "s"

abbrev binding : String → TrustedSessionBinding
binding s = record {
  authenticated_session_id = s;
  user_id = "u";
  game_id = "g";
  participant_id = "P1";
  role = role_player;
}

abbrev two_bindings : SessionAuthority
two_bindings = record { bindings = ("s", binding "s") ∷ ("t", binding "t") ∷ []; sessions = [] }

abbrev game : GameView
game = record {
  id = "g";
  participants = ("P1", record { user_id = "u"; role = role_player }) ∷ [];
  seats = [];
}

abbrev joined_once : SessionAuthority
joined_once = record two_bindings {
  sessions =
      (
        "g",
        record {
          game_id = "g";
          memberships =
              (
                "P1",
                record {
                  game_id = "g";
                  participant_id = "P1";
                  authenticated_session_id = "s";
                  connected = true;
                },
              )
              ∷ [];
        },
      )
      ∷ [];
}

abbrev context : ActorContext
context = context_from (binding "s") (permissions_of role_player) none none

joins : materialize_membership two_bindings "s" "g" "P1" ≡ some joined_once
unfolding materialize_membership
joins = refl

answered : Authority.resolve joined_once "s" "g" game ≡ ok context
unfolding Authority.resolve
answered = refl

resolve_authorizes_example : Authorized joined_once "s" "g" game context
resolve_authorizes_example = resolve_authorizes joined_once "s" "g" game context answered

materialize_takes_over_example : Authority.resolve joined_once "t" "g" game ≢ ok context
materialize_takes_over_example =
    materialize_takes_over two_bindings joined_once "s" "g" "P1" "t" (binding "t") game context
      joins (λ e. cc ((eq_iff "t" "s").1 e)) refl refl

invalidated_for_good_example :
    let b = Exclusion.run_calls (resumes "s" "g" game ∷ []) (invalidate_session joined_once "s") in
    (verify_game_scope b "s" "g" ≡ err "INVALID_ACTOR_CONTEXT")
    × (resolve_bound_actor_id b "s" "g" ≡ err "INVALID_ACTOR_CONTEXT")
    × (resolve_for_create b "s" "g" ≡ err "INVALID_ACTOR_CONTEXT")
    × (authorize_allocated_game_creation b "s" ≡ err "INVALID_ACTOR_CONTEXT")
    × ((bind_allocated_game_for_create b "s" "g").0 ≡ err "INVALID_ACTOR_CONTEXT")
    × (resolve_for_join b "s" "g" game ≡ err "INVALID_ACTOR_CONTEXT")
    × (Authority.resolve b "s" "g" game ≡ err "INVALID_ACTOR_CONTEXT")
    × ((resolve_persisted_membership b "s" "g" game).0 ≡ err (some "INVALID_ACTOR_CONTEXT"))
    × (materialize_membership b "s" "g" "P1" ≡ none)
invalidated_for_good_example =
    invalidated_for_good joined_once "s" "g" "P1" game (resumes "s" "g" game ∷ [])
