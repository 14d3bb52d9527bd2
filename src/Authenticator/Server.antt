-- ===== src/Authenticator/Server.antt =====
-- internal/authenticator/server.go: the ext_authz handler `Check` and the responses it builds.
-- Logging is left out. The mutable state of a CheckServer is the cache of its token manager.
pub mod Decision
pub mod Values
pub mod Upstream
pub mod Order
use holos_substrate.Base.{
  ℕ, Bool, true, false, not, ◌||◌, Option, none, some, List, [], ◌∷◌, ◌++◌, Result, ok, err, ◌>>=◌,
  map_err, if◌then◌else◌, map,
}
use holos_substrate.Base.Text.{Text, text, ◌==◌, to_lower, equal_fold}
use holos_substrate.Base.Dict.{Dict, lookup}
use holos_substrate.Base.Split.{join}
use holos_substrate.Authenticator.Entry.{Entry, ResolvedImpersonation, groups_separator}
use holos_substrate.Authenticator.Identity.{Identity, authenticate, resolve_impersonation_extra}
use holos_substrate.Authenticator.Store.{Store, get}
use holos_substrate.Authenticator.TokenManager.{Call}
use holos_substrate.Authenticator.Credentials.{
  Reader, TokenManager, CredentialError, resolve_credential, text_or,
}
use holos_substrate.Authenticator.Headers.{
  header_authorization, header_impersonate_user, header_impersonate_uid, header_impersonate_group,
  header_impersonate_extra_prefix, first_inbound_impersonation_extra_header,
  first_impersonation_header, first_unrecognized_impersonation_header, split_inbound_groups,
  groups_intersect, first_unsafe_group, bearer_token, sorted_extra_keys,
}

abbrev pub default_groups_header : Text
default_groups_header = text "x-impersonate-groups"

-- `quote` is the verb `%q` of fmt.
pub record CheckServer : Type 0 where
  pub store : Store
  pub reader : Reader
  pub token_manager : Option TokenManager
  pub namespace : Text
  pub groups_header : Text
  pub quote : Text → Text

unfoldable pub groups_header_name : CheckServer → Text
unfolding text_or
groups_header_name s = text_or s.groups_header default_groups_header

-- The attributes of a CheckRequest that the handler reads. Envoy's header keys are in lower case.
pub record Request : Type 0 where
  pub host : Text
  pub headers : Dict Text

-- A HeaderValueOption with the action OVERWRITE_IF_EXISTS_OR_ADD, the only one that is built.
abbrev pub HeaderValueOption : Type 0
HeaderValueOption = Text × Text

pub data StatusCode : Type 0 where
  unauthorized : StatusCode
  forbidden : StatusCode

-- The arguments of `deniedResponse`.
pub record Denial : Type 0 where
  pub code : StatusCode
  pub message : Text
  pub headers : List HeaderValueOption

-- The gRPC status is OK for the first and PermissionDenied for the second. The fields of the first
-- are the headers to set and the names of the headers to remove; those of the second are the HTTP
-- status, the message of the gRPC status, the headers and the body.
pub data CheckResponse : Type 0 where
  ok_response : List HeaderValueOption → List Text → CheckResponse
  denied : StatusCode → Text → List HeaderValueOption → Text → CheckResponse

unfoldable pub denied_response : Denial → CheckResponse
denied_response d =
    denied d.code (text "holos-authenticator: " ++ d.message) d.headers
      (text "holos-authenticator: " ++ d.message ++ text "\n")

abbrev pub overwrite_header : Text → Text → HeaderValueOption
overwrite_header name value = (name, value)

unfoldable pub value_or_empty : Option Text → Text
value_or_empty none = []
value_or_empty (some v) = v

unfoldable pub extra_headers : Dict Text → List Text → List HeaderValueOption
unfolding lookup value_or_empty
extra_headers extra [] = []
extra_headers extra (key ∷ keys) =
    overwrite_header (header_impersonate_extra_prefix ++ key) (value_or_empty (lookup key extra))
    ∷ extra_headers extra keys

unfoldable pub append_extra_headers : List HeaderValueOption → Dict Text → List HeaderValueOption
unfolding extra_headers sorted_extra_keys
append_extra_headers headers extra = headers ++ extra_headers extra (sorted_extra_keys extra)

-- The header with this value, unless the value is empty.
unfoldable pub nonempty_header : Text → Text → List HeaderValueOption
unfolding ◌==◌
nonempty_header name value = if value == [] then [] else overwrite_header name value ∷ []

unfoldable pub joined_groups : Text → List Text → Text → List HeaderValueOption
unfolding join
joined_groups name [] sep = []
joined_groups name (g ∷ gs) sep = overwrite_header name (join (g ∷ gs) sep) ∷ []

abbrev pub authorization : Text → HeaderValueOption
authorization impersonator_token =
    overwrite_header header_authorization (text "Bearer " ++ impersonator_token)

unfoldable pub ok_response_self : CheckServer → Identity → Text → Text → CheckResponse
unfolding nonempty_header joined_groups append_extra_headers groups_header_name
ok_response_self s identity sep impersonator_token =
    let headers =
      overwrite_header header_impersonate_user identity.username
      ∷ (nonempty_header header_impersonate_uid identity.uid
          ++ joined_groups (groups_header_name s) identity.groups sep) in
    ok_response
      (append_extra_headers headers identity.extra ++ (authorization impersonator_token ∷ [])) []

-- The inbound header, forwarded under this name if it is there.
unfoldable pub forwarded : Text → Dict Text → List HeaderValueOption
unfolding lookup to_lower
forwarded name headers = elim (lookup (to_lower name) headers) [
  | none ↦ []
  | some v ↦ overwrite_header name v ∷ []
]

unfoldable pub removed : Dict Text → List Text
unfolding lookup to_lower
removed headers = elim (lookup (to_lower header_impersonate_group) headers) [
  | none ↦ []
  | some _ ↦ header_impersonate_group ∷ []
]

unfoldable pub delegated_response :
    CheckServer → Identity → Dict Text → List Text → Text → Text → CheckResponse
unfolding forwarded removed joined_groups append_extra_headers groups_header_name
delegated_response s identity headers passthrough_groups sep impersonator_token =
    let out =
      forwarded header_impersonate_user headers
      ++ (forwarded header_impersonate_uid headers
          ++ joined_groups (groups_header_name s) passthrough_groups sep) in
    ok_response
      (append_extra_headers out identity.impersonation_extra
        ++ (authorization impersonator_token ∷ []))
      (removed headers)

-- A value that the handler goes on with, or the denial it returns early.
abbrev pub Step {ℓ} : Type ℓ → Type ℓ
Step = Result Denial

abbrev pub deny : StatusCode → Text → Denial
deny code message = record { code = code; message = message; headers = [] }

unfoldable pub required {ℓ} : {A : Type ℓ} → Option A → Denial → Step A
required none r = err r
required (some a) r = ok a

unfoldable pub forbid {ℓ} : {A : Type ℓ} → Option A → Denial → Step Bool
forbid none r = ok true
forbid (some _) r = err r

unfoldable pub refuse_if : Bool → Denial → Step Bool
refuse_if b r = if b then err r else ok true

unfoldable pub otherwise {ℓ κ} : {E : Type ℓ} {A : Type κ} → Result E A → Denial → Step A
unfolding map_err
otherwise r denial = map_err (λ _. denial) r

abbrev missing_bearer_token : Denial
missing_bearer_token = record {
  code = unauthorized;
  message = text "missing bearer token";
  headers = overwrite_header (text "WWW-Authenticate") (text "Bearer") ∷ [];
}

abbrev pub unsafe_derived : CheckServer → Text → Denial
unsafe_derived s sep = deny forbidden (
    text "mapped group contains the groups separator "
    ++ s.quote sep
    ++ text " or surrounding whitespace")

abbrev pub unsafe_passthrough : CheckServer → Text → Denial
unsafe_passthrough s sep = deny forbidden (
    text "impersonated group contains the groups separator "
    ++ s.quote sep
    ++ text " or surrounding whitespace")

-- Steps 1 to 5b of `Check`: the entry of the host and the identity of the actor.
unfoldable pub admit : CheckServer → Request → Step (Entry × Identity)
unfolding forbid required otherwise groups_header_name
admit s req = do
  entry ← required (get req.host s.store) (deny forbidden (text "unknown host"))
  _ ←
      forbid (lookup (to_lower (groups_header_name s)) req.headers)
        (deny forbidden (text "inbound impersonation header not allowed"))
  _ ←
      forbid (first_inbound_impersonation_extra_header req.headers)
        (deny forbidden (text "inbound impersonation header not allowed"))
  raw ← required (bearer_token req.headers) missing_bearer_token
  identity ←
      otherwise (authenticate entry.authenticator raw) (deny unauthorized (text "invalid token"))
  _ ←
      forbid (first_unsafe_group identity.groups (groups_separator entry))
        (unsafe_derived s (groups_separator entry))
  ok (entry, identity)

-- Whether the backend lets an actor with these groups impersonate.
unfoldable pub may_impersonate : List Text → Option ResolvedImpersonation → Bool
unfolding groups_intersect
may_impersonate groups none = false
may_impersonate groups (some imp) = groups_intersect groups imp.groups

unfoldable pub with_actor_extra : Identity → Dict Text → Identity
with_actor_extra i extra = record {
  username = i.username;
  groups = i.groups;
  uid = i.uid;
  extra = i.extra;
  impersonation_extra = extra;
  claims = i.claims;
}

-- The delegated half of step 7.
unfoldable pub delegate : CheckServer → Dict Text → Entry → Identity → Text → Step CheckResponse
unfolding refuse_if forbid otherwise may_impersonate with_actor_extra
delegate s headers entry identity impersonator_token = do
  let target = value_or_empty (lookup (to_lower header_impersonate_user) headers)
  let groups = split_inbound_groups headers
  let sep = groups_separator entry
  _ ←
      refuse_if (not (may_impersonate identity.groups entry.impersonation))
        (deny forbidden (text "actor not authorized to impersonate"))
  _ ←
      forbid (first_unrecognized_impersonation_header headers)
        (deny forbidden (text "unrecognized impersonation header not allowed"))
  _ ←
      refuse_if (target == [])
        (deny forbidden (text "delegated impersonation requires Impersonate-User"))
  _ ← forbid (first_unsafe_group groups sep) (unsafe_passthrough s sep)
  extra ←
      otherwise (resolve_impersonation_extra entry.authenticator (some identity))
        (deny forbidden (text "invalid impersonation extra"))
  ok (delegated_response s (with_actor_extra identity extra) headers groups sep impersonator_token)

-- Step 7, with the mode switch of step 3.
unfoldable pub respond : CheckServer → Dict Text → Entry → Identity → Text → Step CheckResponse
unfolding delegate
respond s headers entry identity impersonator_token = elim (first_impersonation_header headers) [
  | none ↦ ok (ok_response_self s identity (groups_separator entry) impersonator_token)
  | some _ ↦ delegate s headers entry identity impersonator_token
]

unfoldable pub response_of : Step CheckResponse → CheckResponse
unfolding denied_response
response_of (ok r) = r
response_of (err d) = denied_response d

unfoldable pub with_token_manager : Option TokenManager → CheckServer → CheckServer
with_token_manager tm s = record {
  store = s.store;
  reader = s.reader;
  token_manager = tm;
  namespace = s.namespace;
  groups_header = s.groups_header;
  quote = s.quote;
}

-- Steps 6 and 7.
unfoldable pub act : CheckServer → Call → Dict Text → Entry → Identity → CheckResponse × CheckServer
unfolding respond with_token_manager otherwise
act s w headers entry identity =
    let (credential, tm) = resolve_credential s.reader w s.token_manager s.namespace entry in
    (
      response_of (
          otherwise credential (deny forbidden (text "credential unavailable"))
          >>= respond s headers entry identity),
      with_token_manager tm s,
    )

-- `Check`, with the server after the call.
unfoldable pub check : CheckServer → Call → Request → CheckResponse × CheckServer
unfolding admit act denied_response
check s w req = elim (admit s req) [
  | err denial ↦ (denied_response denial, s)
  | ok (entry, identity) ↦ act s w req.headers entry identity
]

-- `redactHeaderValue`, with the number printed by `print`.
unfoldable pub redact_header_value : (Text → Text) → Text → Text → Text
unfolding equal_fold
redact_header_value size_of name value =
    if equal_fold name header_authorization
    then text "<redacted " ++ size_of value ++ text "-byte credential>"
    else value
