-- ===== src/Authenticator/Credentials.antt =====
-- internal/authenticator/credentials.go: which impersonator token backs a request. A reader is the
-- data of a Secret by namespace and name, or the error of the API server.
pub mod Sources
use holos_substrate.Base.{Option, none, some, [], Result, ok, err, map_err, if◌then◌else◌}
use holos_substrate.Base.Text.{Text, text, ◌==◌}
use holos_substrate.Base.Dict.{Dict, lookup}
use holos_substrate.Base.Int.{ℤ, pos}
use holos_substrate.Authenticator.Entry.{Entry, SecretReference, ServiceAccountReference}
use holos_substrate.Authenticator.TokenManager.{Cache, Call, MintError, token}

abbrev pub credential_key_token : Text
credential_key_token = text "token"

abbrev pub default_credentials_secret_name : Text
default_credentials_secret_name = text "holos-authenticator-backend-creds"

pub data ApiError : Type 0 where
  not_found : ApiError
  transient : Text → ApiError

abbrev pub Reader : Type 0
Reader = Text → Text → Result ApiError (Dict Text)

pub data CredentialError : Type 0 where
  missing_secret : Text → Text → CredentialError
  missing_key : Text → Text → Text → CredentialError
  missing_token_manager : CredentialError
  reading : Text → Text → Text → CredentialError
  minting : MintError → CredentialError

-- A TokenManager, with its mutable cache. `fraction` multiplies a duration by 0.2.
pub record TokenManager : Type 0 where
  pub namespace : Text
  pub fraction : ℤ → ℤ
  pub cache : Cache

unfoldable pub text_or : Text → Text → Text
unfolding ◌==◌
text_or s default = if s == [] then default else s

-- A key that the Secret lacks reads as the empty text.
value_of : Option Text → Text
value_of none = []
value_of (some v) = v

token_of : Text → Text → Text → Text → Result CredentialError Text
token_of namespace name key v = if v == [] then err (missing_key namespace name key) else ok v

unfoldable pub resolve_impersonator_token :
    Reader → Text → SecretReference → Result CredentialError Text
unfolding text_or value_of token_of
resolve_impersonator_token reader namespace ref =
    let name = text_or ref.name default_credentials_secret_name in
    let key = text_or ref.key credential_key_token in
    elim (reader namespace name) [
      | err not_found ↦ err (missing_secret namespace name)
      | err (transient e) ↦ err (reading namespace name e)
      | ok secret ↦ token_of namespace name key (value_of (lookup key secret))
    ]

unfoldable pub expiration_of : Option ℤ → ℤ
expiration_of none = pos 0
expiration_of (some s) = s

unfoldable pub mint_credential :
    TokenManager
    → Call
    → ServiceAccountReference
    → Result CredentialError Text × Option TokenManager
unfolding expiration_of map_err
mint_credential tm w ref =
    let (r, cache) =
      token tm.fraction tm.namespace w ref.name ref.audience (expiration_of ref.expiration_seconds)
        tm.cache in
    (
      map_err minting r,
      some (record { namespace = tm.namespace; fraction = tm.fraction; cache = cache }),
    )

-- `resolveCredential`, with the token manager after the call.
unfoldable pub resolve_credential :
    Reader
    → Call
    → Option TokenManager
    → Text
    → Entry
    → Result CredentialError Text × Option TokenManager
unfolding mint_credential resolve_impersonator_token
resolve_credential reader w tm namespace entry = elim entry.service_account_ref [
  | none ↦ (resolve_impersonator_token reader namespace entry.credentials_secret_ref, tm)
  | some ref ↦ elim tm [
    | none ↦ (err missing_token_manager, none)
    | some m ↦ mint_credential m w ref
  ]
]
