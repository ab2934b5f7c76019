-- ===== src/Sessions/Authority/Exclusion.antt =====
-- session-authority.ts: a session that is invalidated, or whose place another one takes.
use malign_ai.Base.{
  String, true, Option, none, some, List, [], ◌∷◌, ◌≡◌, ◌≢◌, refl, sym, ap, ◌∙◌, string_eq, nat_eq,
  arith, eq_iff, some_inj, Result, ok, err, Option-cases, Bool-cases, inl, inr,
}
use malign_ai.Base.Dict.{Dict, lookup, lookup-insert, lookup-erase}
use malign_ai.Commands.Contract.{ActorContext, ErrorCode}
use malign_ai.Sessions.Authority.Access.{Authorized, resolve_authorizes}
use malign_ai.Sessions.Authority.{
  SessionAuthority, TrustedSessionBinding, GameSessionMembership, GameSession, GameView, role_eq,
  membership_in, takes_part, resolve, verify_game_scope, authorize_allocated_game_creation,
  resolve_for_join, resolve_for_create, bound_in, resolve_bound_actor_id, rebind, bind_found,
  bind_allocated_game_for_create, materialize_membership, resolve_persisted_membership,
  invalidate_session, persisted, rejoined, session_or_new, joined, is_verified, coded,
}

-- A call of the authority's methods that change it.
pub data Call : Type 0 where
  binds_game : String → String → Call
  resumes : String → String → GameView → Call
  materializes : String → String → String → Call
  invalidates : String → Call

abbrev pub or_unchanged : SessionAuthority → Option SessionAuthority → SessionAuthority
or_unchanged a none = a
or_unchanged a (some b) = b

abbrev pub run_call : Call → SessionAuthority → SessionAuthority
run_call (binds_game session_id allocated) a =
    (bind_allocated_game_for_create a session_id allocated).1
run_call (resumes session_id game_id state) a =
    (resolve_persisted_membership a session_id game_id state).1
run_call (materializes session_id game_id participant_id) a =
    or_unchanged a (materialize_membership a session_id game_id participant_id)
run_call (invalidates session_id) a = invalidate_session a session_id

unfoldable pub run_calls : List Call → SessionAuthority → SessionAuthority
run_calls [] a = a
run_calls (c ∷ cs) a = run_calls cs (run_call c a)

abbrev Unbound : String → SessionAuthority → Type 0
Unbound session_id a = lookup session_id a.bindings ≡ none

rebind-none :
    (p q k : String) (d : Dict TrustedSessionBinding)
    → lookup k d ≡ none
    → lookup k (rebind p q d) ≡ none
rebind-none p q k [] e = refl
rebind-none p q k ((j, b) ∷ d) e = ground (arith, rebind-none p q k d)

materialize-bindings :
    (a : SessionAuthority) (s g p : String)
    → (or_unchanged a (materialize_membership a s g p)).bindings ≡ a.bindings
unfolding materialize_membership
materialize-bindings a s g p = ground arith

persisted-bindings :
    (a : SessionAuthority) (s g : String) (state : GameView)
    → (resolve_persisted_membership a s g state).1.bindings ≡ a.bindings
unfolding resolve_persisted_membership
persisted-bindings a s g state = by_binding (bound_in a s g state)
  where
    by_materialized :
        (o : Option SessionAuthority)
        → (or_unchanged a o).bindings ≡ a.bindings
        → (rejoined a s g state o).1.bindings ≡ a.bindings
    by_materialized none e = refl
    by_materialized (some b) e = e

    by_binding :
        (r : Result ErrorCode TrustedSessionBinding)
        → (persisted a s g state r).1.bindings ≡ a.bindings
    by_binding (err e) = refl
    by_binding (ok b) =
        elim (Bool-cases (takes_part b (lookup b.participant_id state.participants))) [
          | inl e ↦ rw e (
              by_materialized (materialize_membership a s g b.participant_id)
                (materialize-bindings a s g b.participant_id))
          | inr e ↦ rw e refl
        ]

run_call-Unbound :
    (k : String) (c : Call) (a : SessionAuthority) → Unbound k a → Unbound k (run_call c a)
unfolding bind_allocated_game_for_create invalidate_session
run_call-Unbound k (binds_game s q) a u = by_found (lookup s a.bindings)
  where
    by_found : (o : Option TrustedSessionBinding) → Unbound k (bind_found a q o).1
    by_found none = u
    by_found (some b) = ground (arith, rebind-none b.game_id q k a.bindings u)
run_call-Unbound k (resumes s g state) a u =
    ap (λ (d : Dict TrustedSessionBinding). lookup k d) (persisted-bindings a s g state) ∙ u
run_call-Unbound k (materializes s g p) a u =
    ap (λ (d : Dict TrustedSessionBinding). lookup k d) (materialize-bindings a s g p) ∙ u
run_call-Unbound k (invalidates s) a u = ground (arith, lookup-erase s k a.bindings)

run_calls-Unbound :
    (k : String) (cs : List Call) (a : SessionAuthority) → Unbound k a → Unbound k (run_calls cs a)
unfolding run_calls
run_calls-Unbound k [] a u = u
run_calls-Unbound k (c ∷ cs) a u = run_calls-Unbound k cs (run_call c a) (run_call-Unbound k c a u)

invalidate-Unbound : (a : SessionAuthority) (k : String) → Unbound k (invalidate_session a k)
unfolding invalidate_session
invalidate-Unbound a k = ground (arith, lookup-erase k k a.bindings, eq_iff k k)

-- Once a session is invalidated, no calls of the methods bring it back: whichever of the authority's
-- methods it calls, to resume or materialize a membership included, for whatever game and participant,
-- it is refused with `INVALID_ACTOR_CONTEXT`, or by an exception if it materializes a membership.
pub invalidated_for_good :
    (a : SessionAuthority) (k game_id participant_id : String) (state : GameView) (cs : List Call)
    → let b = run_calls cs (invalidate_session a k) in
      (verify_game_scope b k game_id ≡ err "INVALID_ACTOR_CONTEXT")
      × (resolve_bound_actor_id b k game_id ≡ err "INVALID_ACTOR_CONTEXT")
      × (resolve_for_create b k game_id ≡ err "INVALID_ACTOR_CONTEXT")
      × (authorize_allocated_game_creation b k ≡ err "INVALID_ACTOR_CONTEXT")
      × ((bind_allocated_game_for_create b k game_id).0 ≡ err "INVALID_ACTOR_CONTEXT")
      × (resolve_for_join b k game_id state ≡ err "INVALID_ACTOR_CONTEXT")
      × (resolve b k game_id state ≡ err "INVALID_ACTOR_CONTEXT")
      × ((resolve_persisted_membership b k game_id state).0 ≡ err (some "INVALID_ACTOR_CONTEXT"))
      × (materialize_membership b k game_id participant_id ≡ none)
unfolding resolve resolve_for_join resolve_for_create resolve_bound_actor_id verify_game_scope
    authorize_allocated_game_creation resolve_persisted_membership bind_allocated_game_for_create
    materialize_membership
invalidated_for_good a k game_id participant_id state cs =
    let b : SessionAuthority = run_calls cs (invalidate_session a k) in
    let u : lookup k b.bindings ≡ none =
      run_calls-Unbound k cs (invalidate_session a k) (invalidate-Unbound a k) in
    (rw u, rw u, rw u, rw u, rw u, rw u, rw u, rw u, rw u)

abbrev membership_of : String → String → String → GameSessionMembership
membership_of s g p = record {
  game_id = g;
  participant_id = p;
  authenticated_session_id = s;
  connected = true;
}

materialized :
    (a after : SessionAuthority) (s g p : String)
    → materialize_membership a s g p ≡ some after
    → (membership_in (lookup g after.sessions) p ≡ some (membership_of s g p))
      × (after.bindings ≡ a.bindings)
unfolding materialize_membership
materialized a after s g p e =
    let session : GameSession = session_or_new g (lookup g a.sessions) in
    let added : GameSession = joined s g p session in
    (
      ground (
        arith,
        lookup-insert g g added a.sessions,
        lookup-insert p p (membership_of s g p) session.memberships,
        eq_iff g g,
        eq_iff p p,
      ),
      ground arith,
    )

-- A membership that is materialized for a session takes the place of any other session in it: right
-- afterwards `resolve` gives no context for the game to another session that is bound to the same
-- participant.
pub materialize_takes_over :
    (a after : SessionAuthority) (s g p other : String) (b : TrustedSessionBinding)
    (state : GameView) (c : ActorContext)
    → materialize_membership a s g p ≡ some after
    → other ≢ s
    → lookup other a.bindings ≡ some b
    → b.participant_id ≡ p
    → resolve after other g state ≢ ok c
materialize_takes_over a after s g p other b state c e different bound place answered =
    let held : Authorized after other g state c =
      resolve_authorizes after other g state c answered in
    let (joined_at, kept) = materialized a after s g p e in
    let same : held.binding ≡ b =
      some_inj
        (sym held.bound ∙ ap (λ (d : Dict TrustedSessionBinding). lookup other d) kept ∙ bound) in
    let mine : held.membership ≡ membership_of s g p = some_inj (
      sym held.joined
      ∙ ap (λ (q : String). membership_in (lookup g after.sessions) q)
          (ap (λ (x : TrustedSessionBinding). x.participant_id) same ∙ place)
      ∙ joined_at) in
    different
      (sym held.by_session ∙ ap (λ (m : GameSessionMembership). m.authenticated_session_id) mine)

coded-ne : (r : Result ErrorCode ActorContext) → coded r ≢ err none
coded-ne (ok c) e = cc
coded-ne (err x) e = cc

verified_some :
    (a : SessionAuthority) (s g p : String)
    → is_verified g p (lookup s a.bindings) ≡ true
    → materialize_membership a s g p ≢ none
unfolding materialize_membership
verified_some a s g p v e = ground arith

bound_in-verified :
    (a : SessionAuthority) (s g : String) (state : GameView) (b : TrustedSessionBinding)
    → bound_in a s g state ≡ ok b
    → is_verified g b.participant_id (lookup s a.bindings) ≡ true
bound_in-verified a s g state b e = elim (Option-cases (lookup s a.bindings)) [
  | inl q ↦ absurd (ground arith)
  | inr (d, q) ↦ ground (arith, eq_iff b.participant_id b.participant_id)
]

-- Resuming a membership never throws: the membership is only materialized for the session that the
-- binding verifies.
resolve_persisted_membership_answers :
    (a : SessionAuthority) (s g : String) (state : GameView)
    → (resolve_persisted_membership a s g state).0 ≢ err none
unfolding resolve_persisted_membership
resolve_persisted_membership_answers a s g state = by_binding (bound_in a s g state) refl
  where
    by_materialized :
        (o : Option SessionAuthority) → o ≢ none → (rejoined a s g state o).0 ≢ err none
    by_materialized none n e = n refl
    by_materialized (some b) n e = coded-ne (resolve b s g state) e

    by_binding :
        (r : Result ErrorCode TrustedSessionBinding)
        → bound_in a s g state ≡ r
        → (persisted a s g state r).0 ≢ err none
    by_binding (err x) q = λ e. cc
    by_binding (ok b) q =
        elim (Bool-cases (takes_part b (lookup b.participant_id state.participants))) [
          | inl t ↦ rw t (
              by_materialized (materialize_membership a s g b.participant_id)
                (verified_some a s g b.participant_id (bound_in-verified a s g state b q)))
          | inr f ↦ rw f (λ e. cc)
        ]
