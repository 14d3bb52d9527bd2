-- ===== src/Authenticator/Backend.antt =====
-- internal/controller/authenticator: the reconciler that validates a Backend, reports its status
-- and fills the store. The object that it mutates in memory, the store, the events and the status
-- writes are the record `Run`, passed from call to call. The libraries it calls are in `World`.
mod Resource
mod Conditions
pub mod Registration
pub mod Effect
pub mod Status
pub mod Sharing
use holos_substrate.Base.{
  ℕ, Bool, true, false, not, ◌&&◌, ◌||◌, Option, none, some, List, [], ◌∷◌, ◌++◌, Result, ok, err,
  ◌>>=◌, map_err, if◌then◌else◌,
}
use holos_substrate.Base.Text.{Text, text, ◌==◌}
use holos_substrate.Base.Int.{int_eq, ℤ, pos, ltb_ℤ}
use holos_substrate.Authenticator.Claims.{ExtraMapping}
use holos_substrate.Authenticator.Mapping.{
  Cel, GroupMapper, MapperError, new_group_mapper, default_group_expression,
}
use holos_substrate.Authenticator.Identity.{TokenVerifier, new_authenticator}
use holos_substrate.Authenticator.Entry.{
  SecretReference, ServiceAccountReference, ResolvedImpersonation, Entry, default_groups_separator,
}
use holos_substrate.Authenticator.Store.{Store, set, owner, delete_by_key}
use holos_substrate.Authenticator.TokenManager.{
  default_impersonator_service_account_name, default_token_expiration_seconds,
}
use holos_substrate.Authenticator.Credentials.{ApiError, text_or}
use holos_substrate.Authenticator.Headers.{
  HeaderError, validate_groups_separator, validate_extra_key,
}
unfoldable pub use Resource.*
unfoldable pub use Conditions.*

-- `normalizeServiceAccountRef`.
normal_expiration : Option ℤ → ℤ
normal_expiration none = default_token_expiration_seconds
normal_expiration (some s) = if ltb_ℤ (pos 0) s then s else default_token_expiration_seconds

unfoldable pub normalize_service_account_ref :
    Option ServiceAccountReference → Option ServiceAccountReference
unfolding normal_expiration text_or
normalize_service_account_ref none = none
normalize_service_account_ref (some ref) = some (record {
  name = text_or ref.name default_impersonator_service_account_name;
  audience = ref.audience;
  expiration_seconds = some (normal_expiration ref.expiration_seconds);
})

secret_ref : Option SecretReference → SecretReference
secret_ref none = record { name = []; key = [] }
secret_ref (some ref) = ref

impersonation_extra : Option ImpersonationSpec → List ExtraMapping
impersonation_extra none = []
impersonation_extra (some imp) = imp.extra

resolved_impersonation : Option ImpersonationSpec → Option ResolvedImpersonation
resolved_impersonation none = none
resolved_impersonation (some imp) = some (record { groups = imp.groups; extra = imp.extra })

unfoldable pub first_bad_extra_key : List ExtraMapping → Option HeaderError
unfolding validate_extra_key
first_bad_extra_key [] = none
first_bad_extra_key (m ∷ ms) = elim (validate_extra_key m.key) [
  | none ↦ first_bad_extra_key ms
  | some e ↦ some e
]

unfoldable pub entry_of : BackendSpec → TokenVerifier → GroupMapper → Text → Entry
unfolding secret_ref impersonation_extra resolved_impersonation normalize_service_account_ref
    new_authenticator
entry_of spec verifier mapper separator = record {
  host = spec.host;
  authenticator =
      new_authenticator verifier mapper spec.oidc.username_claim spec.oidc.username_prefix
        spec.oidc.uid_claim spec.oidc.extra (impersonation_extra spec.impersonation);
  username_claim = spec.oidc.username_claim;
  server_url = spec.server_url;
  server_ca_bundle = spec.server_ca_bundle;
  credentials_secret_ref = secret_ref spec.credentials_secret_ref;
  service_account_ref = normalize_service_account_ref spec.service_account_ref;
  groups_separator = separator;
  impersonation = resolved_impersonation spec.impersonation;
}

module _ (world : World) where
  -- The parsed URL has a supported scheme and a host.
  unfoldable pub check_url : Text → Text × Text → Option Text
  unfolding ◌==◌
  check_url raw (scheme, host) =
      if not (scheme == text "http") && not (scheme == text "https")
      then some (
          text "scheme "
          ++ world.quote scheme
          ++ text " is not http or https (url "
          ++ world.quote raw
          ++ text ")")
      else if host == []
      then some (text "missing host in " ++ world.quote raw)
      else none

  unfoldable pub validate_server_url : Text → Option Text
  unfolding check_url
  validate_server_url raw = elim (world.url_parse raw) [
    | err e ↦ some (text "parsing " ++ world.quote raw ++ text ": " ++ e)
    | ok parsed ↦ check_url raw parsed
  ]

  -- Every rejection and every failure before the registration drops the backend from the store.
  drop : Run → Run
  unfolding on_store object_key
  drop r = on_store (delete_by_key (object_key r.backend.namespace r.backend.name)) r

  valid_or : Text → Option Text → Result Text Bool
  valid_or prefix none = ok true
  valid_or prefix (some e) = err (prefix ++ e)

  printed : Option HeaderError → Option Text
  printed none = none
  printed (some e) = some (world.print_header_error e)

  unfoldable pub expression_of : BackendSpec → Text
  unfolding ◌==◌
  expression_of spec =
      if spec.cel_expression == []
      then default_group_expression world.quote spec.oidc.groups_claim spec.oidc.groups_prefix
      else spec.cel_expression

  -- The checks that reject a spec, in their order.
  unfoldable pub check_spec : BackendSpec → Result Text (GroupMapper × Text)
  unfolding map_err valid_or printed text_or expression_of impersonation_extra
  check_spec spec = do
    let separator = text_or spec.groups_header_separator default_groups_separator
    mapper ←
        map_err (λ e. text "compiling group-mapping CEL expression: " ++ world.print_mapper_error e)
          (new_group_mapper world.cel (expression_of spec))
    _ ← valid_or (text "invalid spec.server.url: ") (validate_server_url spec.server_url)
    _ ←
        valid_or (text "invalid spec.groupsHeaderSeparator: ")
          (printed (validate_groups_separator separator))
    _ ←
        valid_or (text "invalid spec.oidc.extra key: ")
          (printed (first_bad_extra_key spec.oidc.extra))
    _ ←
        valid_or (text "invalid spec.impersonation.extra key: ")
          (printed (first_bad_extra_key (impersonation_extra spec.impersonation)))
    ok (mapper, separator)

  pub data VerifierError : Type 0 where
    invalid_jwks : Text → VerifierError
    no_discovery : Text → VerifierError

  unfoldable pub verifier_of : OidcSpec → Result VerifierError TokenVerifier
  unfolding map_err ◌==◌
  verifier_of oidc =
      if oidc.jwks == []
      then map_err no_discovery (world.discover oidc.issuer_url oidc.client_id oidc.ca_bundle)
      else map_err invalid_jwks (world.static_verifier oidc.issuer_url oidc.client_id oidc.jwks)

  owner_name : Option Text → Text
  owner_name none = []
  owner_name (some k) = k

  unfoldable pub conflict : Run → Text
  unfolding owner_name
  conflict r =
      text "host "
      ++ world.quote r.backend.spec.host
      ++ text " is already claimed by another Backend ("
      ++ owner_name (owner r.backend.spec.host r.store)
      ++ text "); the lexicographically-smallest Backend key owns a shared host"

  unfoldable pub registered : Bool → Run → Outcome
  unfolding succeed fail conflict
  registered won r = if won then succeed world r else fail world host_conflict (conflict r) r

  unfoldable pub register : Entry → Run → Outcome
  unfolding registered on_store object_key
  register entry r =
      let (store, won) = set (object_key r.backend.namespace r.backend.name) entry r.store in
      registered won (on_store (λ _. store) r)

  unfoldable pub program : GroupMapper → Text → Run → Outcome
  unfolding register verifier_of entry_of drop reject fail
  program mapper separator r = elim (verifier_of r.backend.spec.oidc) [
    | err (invalid_jwks e) ↦
        reject world invalid_spec (text "invalid spec.oidc.jwks: " ++ e) (drop r)
    | err (no_discovery e) ↦
        fail world discovery_failed
          (text "OIDC discovery for issuer "
            ++ world.quote r.backend.spec.oidc.issuer_url
            ++ text ": "
            ++ e)
          (drop r)
    | ok verifier ↦ register (entry_of r.backend.spec verifier mapper separator) r
  ]

  unfoldable pub reconcile_normal : Run → Outcome
  unfolding program check_spec drop reject mark_accepted
  reconcile_normal r = elim (check_spec r.backend.spec) [
    | err message ↦ reject world invalid_spec message (drop r)
    | ok (mapper, separator) ↦
        program mapper separator
          (mark_accepted world reconciled
            (text "spec accepted and group-mapping expression compiled") r).1
  ]

  -- The error, the store, the events and the status writes of a reconciliation.
  pub record Reconciled : Type 0 where
    pub error : Option Text
    pub store : Store
    pub events : List Event
    pub writes : List Backend

  abbrev finished : Outcome → Reconciled
  finished (error, r) = record {
    error = error;
    store = r.store;
    events = r.events;
    writes = r.writes;
  }

  abbrev quiet : Option Text → Store → Reconciled
  quiet error s = record { error = error; store = s; events = []; writes = [] }

  -- `Reconcile` of a key, for what the cached client answers.
  unfoldable pub reconcile : Text → Text → Result ApiError Backend → Store → Reconciled
  unfolding reconcile_normal object_key
  reconcile namespace name (err ApiError.not_found) s =
      quiet none (delete_by_key (object_key namespace name) s)
  reconcile namespace name (err (ApiError.transient e)) s = quiet (some e) s
  reconcile namespace name (ok b) s =
      let run = reconcile_normal (record { store = s; backend = b; events = []; writes = [] }) in
      if b.deleting then quiet none (delete_by_key (object_key namespace name) s) else finished run

-- The loop of `backendsSharingHost`: the keys of the listed backends to reconcile.
unfoldable pub requests_sharing_host : Backend → List Backend → List (Text × Text)
unfolding ◌==◌
requests_sharing_host changed [] = []
requests_sharing_host changed (b ∷ bs) =
    let rest = requests_sharing_host changed bs in
    if not (b.spec.host == changed.spec.host)
    then rest
    else if b.namespace == changed.namespace && b.name == changed.name
    then rest
    else (b.namespace, b.name) ∷ rest

-- The requests when a Backend changes, from the answer of `List`. An error of it is only logged.
unfoldable pub backends_sharing_host : Backend → Result Text (List Backend) → List (Text × Text)
unfolding requests_sharing_host
backends_sharing_host changed (err e) = []
backends_sharing_host changed (ok bs) = requests_sharing_host changed bs
