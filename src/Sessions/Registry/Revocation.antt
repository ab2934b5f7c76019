-- ===== src/Sessions/Registry/Revocation.antt =====
-- productive-authn.ts: a session that is revoked stays revoked.
use malign_ai.Base.{
  ◌≢◌, ℕ, String, Bool, Option, none, some, List, [], ◌∷◌, All, ◌≡◌, refl, ◌==◌, string_eq, arith,
  eq_iff, err, if◌then◌else◌, contains, ap, ◌∙◌, Bool-cases, inl, inr, ◌≢◌,
}
use malign_ai.Base.Dict.{
  lookup, lookup-insert, lookup-erase, HasUniqueKeys, insert-HasUniqueKeys, erase-HasUniqueKeys,
  has_key,
}
use malign_ai.Base.Named.{IsNamed, insert-IsNamed, erase-IsNamed, contains-ids}
use malign_ai.Sessions.Registry.{
  session_invalid, token_expired, VerifiedExternalIdentity, ProductiveSession, SessionRegistry,
  create, invalidate, resolve, invalidate_each, matching, has_subject, has_digest, is_digest,
  invalidate_external_subject, invalidate_external_identity_digest, is_expired, resolved,
}

-- A call of the registry's methods.
pub data Call : Type 0 where
  creates : String → VerifiedExternalIdentity → ℕ → Call
  resolves : String → ℕ → Call
  invalidates : String → Call
  invalidates_subject : String → Call
  invalidates_digest : String → Call

abbrev pub created_id : Call → Option String
created_id (creates id identity now) = some id
created_id (resolves id now) = none
created_id (invalidates id) = none
created_id (invalidates_subject subject) = none
created_id (invalidates_digest digest) = none

module _ (sha256 : String → String) where
  abbrev pub run_call : Call → SessionRegistry → SessionRegistry
  run_call (creates id identity now) r = (create id identity now r).1
  run_call (resolves id now) r = (resolve id now r).1
  run_call (invalidates id) r = invalidate id r
  run_call (invalidates_subject subject) r = invalidate_external_subject subject r
  run_call (invalidates_digest digest) r = invalidate_external_identity_digest sha256 digest r

  unfoldable pub run_calls : List Call → SessionRegistry → SessionRegistry
  run_calls [] r = r
  run_calls (c ∷ cs) r = run_calls cs (run_call c r)

abbrev Absent : String → SessionRegistry → Type 0
Absent id r = lookup id r.sessions ≡ none

lookup-invalidate :
    (id k : String) (r : SessionRegistry)
    → lookup k (invalidate id r).sessions ≡ (if id == k then none else lookup k r.sessions)
unfolding invalidate
lookup-invalidate id k r = ground (arith, eq_iff id k, lookup-erase id k r.sessions)

lookup-invalidate_each :
    (ids : List String) (k : String) (r : SessionRegistry)
    → lookup k (invalidate_each ids r).sessions
      ≡ (if contains k ids then none else lookup k r.sessions)
unfolding invalidate_each
lookup-invalidate_each [] k r = refl
lookup-invalidate_each (id ∷ ids) k r =
    ground (arith, lookup-invalidate_each ids k (invalidate id r), lookup-invalidate id k r)

run_call-Absent :
    (sha256 : String → String) (id : String) (c : Call) (r : SessionRegistry)
    → created_id c ≢ some id
    → Absent id r
    → Absent id (run_call sha256 c r)
unfolding create resolve invalidate_external_subject invalidate_external_identity_digest
run_call-Absent sha256 id (creates j identity now) r n a = elim (Bool-cases (j == id)) [
  | inl e ↦ absurd (n (ap some ((eq_iff j id).0 e)))
  | inr e ↦
      lookup-insert j id
        (record { session_id = j; identity = identity; created_at_epoch_milliseconds = now })
        r.sessions
      ∙ rw e a
]
run_call-Absent sha256 id (resolves j now) r n a = ground (arith, lookup-invalidate j id r)
run_call-Absent sha256 id (invalidates j) r n a = ground (arith, lookup-invalidate j id r)
run_call-Absent sha256 id (invalidates_subject subject) r n a =
    ground (arith, lookup-invalidate_each (matching (has_subject subject) r) id r)
run_call-Absent sha256 id (invalidates_digest digest) r n a =
    ground (arith, lookup-invalidate_each (matching (has_digest sha256 digest) r) id r)

run_calls-Absent :
    (sha256 : String → String) (id : String) (cs : List Call) (r : SessionRegistry)
    → All (λ c. created_id c ≢ some id) cs
    → Absent id r
    → Absent id (run_calls sha256 cs r)
unfolding run_calls
run_calls-Absent sha256 id [] r n a = a
run_calls-Absent sha256 id (c ∷ cs) r n a =
    run_calls-Absent sha256 id cs (run_call sha256 c r) n.1 (run_call-Absent sha256 id c r n.0 a)

resolve-Absent :
    (id : String) (now : ℕ) (r : SessionRegistry)
    → Absent id r
    → resolve id now r ≡ (err session_invalid, r)
unfolding resolve
resolve-Absent id now r a = rw a

invalidate-Absent : (id : String) (r : SessionRegistry) → Absent id (invalidate id r)
invalidate-Absent id r = ground (arith, lookup-invalidate id id r, eq_iff id id)

expired-Absent :
    (id : String) (now : ℕ) (r : SessionRegistry)
    → (resolve id now r).0 ≡ err token_expired
    → Absent id (resolve id now r).1
unfolding resolve
expired-Absent id now r e = ground (arith, lookup-invalidate id id r, eq_iff id id)

-- A session that was invalidated, or that a resolution found expired, stays invalid: after any calls
-- of the registry's methods, among which no session is created under its id, it is resolved at no
-- time, and the attempt leaves the registry as it is.
pub revoked_for_good :
    (sha256 : String → String) (r : SessionRegistry) (id : String) (now later : ℕ) (cs : List Call)
    → All (λ c. created_id c ≢ some id) cs
    → (resolve id later (run_calls sha256 cs (invalidate id r))
        ≡ (err session_invalid, run_calls sha256 cs (invalidate id r)))
      × ((resolve id now r).0 ≡ err token_expired
          → resolve id later (run_calls sha256 cs (resolve id now r).1)
            ≡ (err session_invalid, run_calls sha256 cs (resolve id now r).1))
revoked_for_good sha256 r id now later cs n = (
  resolve-Absent id later (run_calls sha256 cs (invalidate id r))
      (run_calls-Absent sha256 id cs _ n (invalidate-Absent id r)),
  λ e.
      resolve-Absent id later (run_calls sha256 cs (resolve id now r).1)
        (run_calls-Absent sha256 id cs _ n (expired-Absent id now r e)),
)

abbrev session_id_of : ProductiveSession → String
session_id_of s = s.session_id

-- Sessions stand under their own ids, once each.
pub record IsKeyed (r : SessionRegistry) : Type 0 where
  pub named : IsNamed session_id_of r.sessions
  pub unique : HasUniqueKeys r.sessions

invalidate-IsKeyed : (id : String) (r : SessionRegistry) → IsKeyed r → IsKeyed (invalidate id r)
unfolding invalidate
invalidate-IsKeyed id r h = elim (Bool-cases (has_key id r.sessions)) [
  | inl e ↦ rw e (record {
    named = erase-IsNamed session_id_of id r.sessions h.named;
    unique = erase-HasUniqueKeys id r.sessions h.unique;
  })
  | inr e ↦ rw e h
]

invalidate_each-IsKeyed :
    (ids : List String) (r : SessionRegistry) → IsKeyed r → IsKeyed (invalidate_each ids r)
unfolding invalidate_each
invalidate_each-IsKeyed [] r h = h
invalidate_each-IsKeyed (id ∷ ids) r h =
    invalidate_each-IsKeyed ids (invalidate id r) (invalidate-IsKeyed id r h)

run_call-IsKeyed :
    (sha256 : String → String) (c : Call) (r : SessionRegistry)
    → IsKeyed r
    → IsKeyed (run_call sha256 c r)
unfolding create resolve invalidate_external_subject invalidate_external_identity_digest
run_call-IsKeyed sha256 (creates id identity now) r h = record {
  named = insert-IsNamed session_id_of _ r.sessions h.named;
  unique = insert-HasUniqueKeys id _ r.sessions h.unique;
}
run_call-IsKeyed sha256 (resolves id now) r h = resolved_keyed (lookup id r.sessions)
  where
    resolved_keyed : (o : Option ProductiveSession) → IsKeyed (resolved id now r o).1
    resolved_keyed none = h
    resolved_keyed (some s) = elim (Bool-cases (is_expired s now)) [
      | inl e ↦ rw e (invalidate-IsKeyed id r h)
      | inr e ↦ rw e h
    ]
run_call-IsKeyed sha256 (invalidates id) r h = invalidate-IsKeyed id r h
run_call-IsKeyed sha256 (invalidates_subject subject) r h =
    invalidate_each-IsKeyed (matching (has_subject subject) r) r h
run_call-IsKeyed sha256 (invalidates_digest digest) r h = elim (Bool-cases (is_digest digest)) [
  | inl e ↦ rw e (invalidate_each-IsKeyed (matching (has_digest sha256 digest) r) r h)
  | inr e ↦ rw e h
]

run_calls-IsKeyed :
    (sha256 : String → String) (cs : List Call) (r : SessionRegistry)
    → IsKeyed r
    → IsKeyed (run_calls sha256 cs r)
unfolding run_calls
run_calls-IsKeyed sha256 [] r h = h
run_calls-IsKeyed sha256 (c ∷ cs) r h =
    run_calls-IsKeyed sha256 cs (run_call sha256 c r) (run_call-IsKeyed sha256 c r h)

abbrev pub no_registry : SessionRegistry
no_registry = record { sessions = []; told = [] }

-- What stays under a key when the sessions with a property go.
abbrev pub unless : (ProductiveSession → Bool) → Option ProductiveSession → Option ProductiveSession
unless p none = none
unless p (some s) = if p s then none else some s

each-unless :
    (p : ProductiveSession → Bool) (r : SessionRegistry) (k : String)
    → IsKeyed r
    → lookup k (invalidate_each (matching p r) r).sessions ≡ unless p (lookup k r.sessions)
each-unless p r k h = ground (
  arith,
  lookup-invalidate_each (matching p r) k r,
  contains-ids session_id_of p k r.sessions h.unique h.named,
)

-- In every registry that calls of its methods can reach, invalidating a subject ends the sessions of
-- that subject and no others, and invalidating a digest ends, if it has the form of a digest, the
-- sessions whose issuer and subject have that digest and no others, and else none.
pub invalidate_exactly :
    (sha256 : String → String) (cs : List Call) (subject digest k : String)
    → let r = run_calls sha256 cs no_registry in
      (lookup k (invalidate_external_subject subject r).sessions
        ≡ unless (has_subject subject) (lookup k r.sessions))
      × (lookup k (invalidate_external_identity_digest sha256 digest r).sessions ≡ (
          if is_digest digest
          then unless (has_digest sha256 digest) (lookup k r.sessions)
          else lookup k r.sessions))
unfolding invalidate_external_subject invalidate_external_identity_digest
invalidate_exactly sha256 cs subject digest k =
    let r : SessionRegistry = run_calls sha256 cs no_registry in
    let h : IsKeyed r =
      run_calls-IsKeyed sha256 cs no_registry (record { named = tt; unique = tt }) in
    (
      each-unless (has_subject subject) r k h,
      ground (arith, each-unless (has_digest sha256 digest) r k h),
    )
