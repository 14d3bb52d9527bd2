-- ===== src/Authenticator/Identity.antt =====
-- internal/authenticator/authenticator.go: the identity that a validated token stands for. The
-- token verifier, which wraps go-oidc, is the field `verifier`.
pub mod Resolved
use holos_substrate.Base.{
  Option, none, some, List, [], ◌++◌, Result, ok, err, ◌>>=◌, map_err, if◌then◌else◌,
}
use holos_substrate.Base.Text.{Text, text, ◌==◌}
use holos_substrate.Base.Dict.{Dict}
use holos_substrate.Authenticator.Claims.{
  Claims, ClaimError, ExtraMapping, ExtraError, string_claim, resolve_extra,
}
use holos_substrate.Authenticator.Mapping.{GroupMapper, GroupsError, groups}

pub record Identity : Type 0 where
  pub username : Text
  pub groups : List Text
  pub uid : Text
  pub extra : Dict Text
  pub impersonation_extra : Dict Text
  pub claims : Claims

-- `Verify` of a TokenVerifier: the claims of a valid token, or the message of the failure.
abbrev pub TokenVerifier : Type 0
TokenVerifier = Text → Result Text Claims

pub record Authenticator : Type 0 where
  pub verifier : TokenVerifier
  pub mapper : GroupMapper
  pub username_claim : Text
  pub username_prefix : Text
  pub uid_claim : Text
  pub extra : List ExtraMapping
  pub impersonation_extra : List ExtraMapping

unfoldable pub new_authenticator :
    TokenVerifier
    → GroupMapper
    → Text
    → Text
    → Text
    → List ExtraMapping
    → List ExtraMapping
    → Authenticator
unfolding ◌==◌
new_authenticator verifier mapper username_claim username_prefix uid_claim extra imp = record {
  verifier = verifier;
  mapper = mapper;
  username_claim = if username_claim == [] then text "sub" else username_claim;
  username_prefix = username_prefix;
  uid_claim = uid_claim;
  extra = extra;
  impersonation_extra = imp;
}

pub data AuthError : Type 0 where
  verifying : Text → AuthError
  username_claim : ClaimError → AuthError
  mapping_groups : GroupsError → AuthError
  uid_claim : ClaimError → AuthError
  extra_claim : ExtraError → AuthError
  nil_identity : AuthError

read_uid : Claims → Text → Result AuthError Text
unfolding map_err ◌==◌
read_uid claims claim =
    if claim == [] then ok [] else map_err AuthError.uid_claim (string_claim claims claim)

abbrev pub extra_label : Text
extra_label = text "extra"

abbrev pub impersonation_label : Text
impersonation_label = text "impersonation.extra"

unfoldable pub authenticate : Authenticator → Text → Result AuthError Identity
unfolding read_uid map_err string_claim resolve_extra groups
authenticate a raw_token = do
  claims ← map_err verifying (a.verifier raw_token)
  username ← map_err AuthError.username_claim (string_claim claims a.username_claim)
  gs ← map_err mapping_groups (groups a.mapper claims)
  uid ← read_uid claims a.uid_claim
  extra ← map_err extra_claim (resolve_extra claims a.extra extra_label)
  ok (record {
    username = a.username_prefix ++ username;
    groups = gs;
    uid = uid;
    extra = extra;
    impersonation_extra = [];
    claims = claims;
  })

unfoldable pub resolve_impersonation_extra :
    Authenticator → Option Identity → Result AuthError (Dict Text)
unfolding map_err resolve_extra
resolve_impersonation_extra a none = err nil_identity
resolve_impersonation_extra a (some identity) =
    map_err extra_claim (resolve_extra identity.claims a.impersonation_extra impersonation_label)
