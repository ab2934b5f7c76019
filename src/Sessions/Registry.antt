-- ===== src/Sessions/Registry.antt =====
-- packages/authz/src/productive-authn.ts: the sessions of verified identities.
pub mod Revocation
use Prim.Native.Char.{code}
use malign_ai.Base.{
  ℕ, ◌*◌, String, Bool, true, false, Option, none, some, List, [], ◌∷◌, ◌++◌, map, filter, all,
  length, ◌==◌, string_eq, nat_eq, ◌&&◌, ◌||◌, leb, if◌then◌else◌, Result, ok, err,
}
use malign_ai.Base.Dict.{Dict, lookup, insert, erase, values, has_key}
use malign_ai.Base.Text.{◌<>◌}
use malign_ai.Commands.Contract.{ends_with}

pub data AuthnError : Type 0 where
  configuration_missing token_invalid token_expired policy_rejected : AuthnError
  provider_unavailable session_invalid membership_rejected : AuthnError

-- Times are natural numbers, the seconds and milliseconds since the epoch.
pub record VerifiedExternalIdentity : Type 0 where
  pub subject : String
  pub issuer : String
  pub audience : List String
  pub client_binding : String
  pub scopes : List String
  pub expires_at_epoch_seconds : ℕ

pub record ProductiveSession : Type 0 where
  pub session_id : String
  pub identity : VerifiedExternalIdentity
  pub created_at_epoch_milliseconds : ℕ

-- The sessions, and the session ids that the observers have been told of, the latest last: what an
-- observer throws is caught.
pub record SessionRegistry : Type 0 where
  pub sessions : Dict ProductiveSession
  pub told : List String

unfoldable pub normalized_external_issuer : String → String
normalized_external_issuer issuer = if ends_with issuer "/" then issuer else issuer <> "/"

-- `sha256` gives the hash of a text in hexadecimal digits.
unfoldable pub external_identity_digest : (String → String) → String → String → String
external_identity_digest sha256 issuer subject =
    sha256 (normalized_external_issuer issuer <> "\0" <> subject)

-- `session_id` is what `randomUUID()` gives.
unfoldable pub create :
    String → VerifiedExternalIdentity → ℕ → SessionRegistry → ProductiveSession × SessionRegistry
create session_id identity now registry =
    let session : ProductiveSession = record {
      session_id = session_id;
      identity = identity;
      created_at_epoch_milliseconds = now;
    } in
    (session, record registry { sessions = insert session_id session registry.sessions })

unfoldable pub invalidate : String → SessionRegistry → SessionRegistry
invalidate session_id registry =
    if has_key session_id registry.sessions
    then record {
      sessions = erase session_id registry.sessions;
      told = registry.told ++ session_id ∷ [];
    }
    else registry

abbrev pub is_expired : ProductiveSession → ℕ → Bool
is_expired session now = leb ((session.identity).expires_at_epoch_seconds * 1000) now

abbrev pub resolved :
    String
    → ℕ
    → SessionRegistry
    → Option ProductiveSession
    → Result AuthnError ProductiveSession × SessionRegistry
resolved session_id now registry none = (err session_invalid, registry)
resolved session_id now registry (some session) =
    if is_expired session now
    then (err token_expired, invalidate session_id registry)
    else (ok session, registry)

unfoldable pub resolve :
    String → ℕ → SessionRegistry → Result AuthnError ProductiveSession × SessionRegistry
resolve session_id now registry =
    resolved session_id now registry (lookup session_id registry.sessions)

unfoldable pub invalidate_each : List String → SessionRegistry → SessionRegistry
invalidate_each [] registry = registry
invalidate_each (id ∷ ids) registry = invalidate_each ids (invalidate id registry)

abbrev pub matching : (ProductiveSession → Bool) → SessionRegistry → List String
matching test registry =
    map (λ (s : ProductiveSession). s.session_id) (filter test (values registry.sessions))

abbrev pub has_subject : String → ProductiveSession → Bool
has_subject subject session = (session.identity).subject == subject

unfoldable pub invalidate_external_subject : String → SessionRegistry → SessionRegistry
invalidate_external_subject subject registry =
    invalidate_each (matching (has_subject subject) registry) registry

-- The code points of a text.
abbrev codes : String → List ℕ
codes String.[] = []
codes (String.◌∷◌ c s) = code c ∷ codes s

abbrev is_hex : ℕ → Bool
is_hex c = (leb b'a' c && leb c b'f') || (leb b'0' c && leb c b'9')

-- `/^[a-f0-9]{64}$/.test(digest)`
unfoldable pub is_digest : String → Bool
is_digest digest = length (codes digest) == 64 && all is_hex (codes digest)

abbrev pub has_digest : (String → String) → String → ProductiveSession → Bool
has_digest sha256 digest session =
    external_identity_digest sha256 (session.identity).issuer (session.identity).subject == digest

unfoldable pub invalidate_external_identity_digest :
    (String → String) → String → SessionRegistry → SessionRegistry
invalidate_external_identity_digest sha256 digest registry =
    let after = invalidate_each (matching (has_digest sha256 digest) registry) registry in
    if is_digest digest then after else registry
