-- ===== src/Tests/Serving.antt =====
-- Requests that the handler answers.
use holos_substrate.Authenticator.Credentials.{resolve_credential}
use holos_substrate.Authenticator.Entry.{groups_separator}
use holos_substrate.Authenticator.Store.{get}
use holos_substrate.Base.{◌≡◌, false, ◌↔◌, refl, ℕ, zero, none, some, List, [], ◌∷◌, ok, err}
use holos_substrate.Base.Text.{◌==◌, Text, text, to_lower, equal_fold}
use holos_substrate.Authenticator.Server.{
  check, ok_response, denied, forbidden, HeaderValueOption, Request, groups_header_name,
  response_of, ok_response_self, value_or_empty, delegated_response,
}
use holos_substrate.Authenticator.Server.Decision.{IsAllowed, check_iff}
use holos_substrate.Base.{Has}
use holos_substrate.Base.Dict.{lookup, insert}
use holos_substrate.Base.Split.{join}
use holos_substrate.Authenticator.Claims.{
  ExtraMapping, ExtraError, str, number, resolve_extra, Claims,
}
use holos_substrate.Authenticator.Claims.Reading.{IsMalformed}
use holos_substrate.Authenticator.Claims.Extra.{lookup-resolve_extra, resolve_extra-err_iff}
use holos_substrate.Authenticator.Mapping.{RefVal, lister, string_val, ref_val_to_string_slice}
use holos_substrate.Authenticator.Mapping.Strings.{IsStringList, ref_val_to_string_slice_iff}
use holos_substrate.Authenticator.Identity.{
  Identity, authenticate, extra_label, resolve_impersonation_extra,
}
use holos_substrate.Authenticator.Identity.Resolved.{IsResolved, authenticate_iff}
use holos_substrate.Authenticator.Headers.{
  invalid_character, first_unsafe_group, validate_groups_header, nonempty_parts,
  first_inbound_impersonation_extra_header, bearer_token, first_impersonation_header,
  first_unrecognized_impersonation_header, split_inbound_groups,
}
use holos_substrate.Authenticator.Headers.Groups.{split_filter, split_filter-join}
use holos_substrate.Authenticator.Server.Upstream.{Overwrites, effective_user, check-Overwrites}
use holos_substrate.Base.{◌⊎◌}
use holos_substrate.Base.Dict.{Dict}
use holos_substrate.Authenticator.Entry.{ServiceAccountReference}
use holos_substrate.Authenticator.Credentials.Sources.{
  IsStored, IsMintedFor, resolve_credential_iff,
}
use holos_substrate.Authenticator.Headers.Names.{
  IsGroupsHeader, validate_groups_header_iff, validate_groups_header-folded,
}
use holos_substrate.Authenticator.Headers.Extras.{exchange}
use holos_substrate.Authenticator.Server.{append_extra_headers}
use holos_substrate.Authenticator.Server.Order.{append_extra_headers-Reordered}
use holos_substrate.Tests.{api}
use holos_substrate.Tests.{server, call, own_request, authenticator, alice_claims, email_mapping}

abbrev delegated_request : Request
delegated_request = record {
  host = text "api";
  headers =
      (text "authorization", text "bearer tok")
      ∷ (text "impersonate-user", text "bob")
      ∷ (text "impersonate-group", text "dev,")
      ∷ [];
}

abbrev smuggling_request : Request
smuggling_request = record {
  host = text "api";
  headers =
      (text "authorization", text "Bearer tok") ∷ (text "x-groups", text "system:masters") ∷ [];
}

abbrev alice : Identity
alice = record {
  username = text "oidc:alice";
  groups = text "dev" ∷ text "ops" ∷ [];
  uid = [];
  extra = (text "email", text "a@x") ∷ [];
  impersonation_extra = [];
  claims = alice_claims;
}

abbrev number_claims : Claims
number_claims = (text "email", number (text "7")) ∷ []

abbrev group_at : ℕ → RefVal
group_at zero = string_val (text "dev")
group_at _ = string_val (text "ops")

abbrev groups_list : RefVal
groups_list = lister (some 2) group_at

abbrev own_headers : List HeaderValueOption
own_headers =
    (text "Impersonate-User", text "oidc:alice")
    ∷ (text "x-groups", text "dev|ops")
    ∷ (text "Impersonate-Extra-email", text "a@x")
    ∷ (text "Authorization", text "Bearer imp")
    ∷ []

check_own : check server call own_request ≡ (ok_response own_headers [], server)
unfolding check get lookup to_lower first_inbound_impersonation_extra_header bearer_token
    authenticate first_unsafe_group groups_separator response_of resolve_credential
    first_impersonation_header ok_response_self insert
check_own = refl

check_iff_example :
    (check server call own_request ≡ (ok_response own_headers [], server))
    ↔ IsAllowed server call own_request (ok_response own_headers []) server
check_iff_example = check_iff server server call own_request own_headers []

groups_header_valid : validate_groups_header (groups_header_name server) ≡ ok (text "x-groups")
unfolding validate_groups_header groups_header_name
groups_header_valid = refl

abbrev delegated_headers : List HeaderValueOption
delegated_headers =
    (text "Impersonate-User", text "bob")
    ∷ (text "x-groups", text "dev")
    ∷ (text "Impersonate-Extra-email", text "a@x")
    ∷ (text "Authorization", text "Bearer imp")
    ∷ []

check_delegated :
    check server call delegated_request
    ≡ (ok_response delegated_headers (text "Impersonate-Group" ∷ []), server)
unfolding check get lookup to_lower first_inbound_impersonation_extra_header bearer_token
    authenticate first_unsafe_group groups_separator response_of resolve_credential
    first_impersonation_header first_unrecognized_impersonation_header value_or_empty
    split_inbound_groups resolve_impersonation_extra delegated_response insert
check_delegated = refl

check-Overwrites_example :
    (a : IsAllowed server call delegated_request
      (ok_response delegated_headers (text "Impersonate-Group" ∷ []))
      server)
    × Overwrites delegated_headers a.credential
        (effective_user delegated_request.headers a.identity)
check-Overwrites_example =
    check-Overwrites server server call delegated_request (text "x-groups") delegated_headers
      (text "Impersonate-Group" ∷ []) groups_header_valid check_delegated

check_smuggled : check server call smuggling_request ≡ (
  denied forbidden
      (text "holos-authenticator: inbound impersonation header not allowed")
      []
      (text "holos-authenticator: inbound impersonation header not allowed\n"),
  server,
)
unfolding check get lookup to_lower
check_smuggled = refl

abbrev two_groups : List Text
two_groups = text "cn=bob,o=x" ∷ text "dev" ∷ []

two_groups_safe : first_unsafe_group two_groups (text "|") ≡ none
unfolding first_unsafe_group
two_groups_safe = refl

split_filter-join_example :
    split_filter b'|' (join two_groups (text "|")) ≡ nonempty_parts two_groups
split_filter-join_example = split_filter-join b'|' two_groups two_groups_safe

authenticate_iff_example :
    (authenticate authenticator (text "tok") ≡ ok alice)
    ↔ IsResolved authenticator (text "tok") alice
authenticate_iff_example = authenticate_iff authenticator (text "tok") alice

alice_authenticated : authenticate authenticator (text "tok") ≡ ok alice
unfolding authenticate lookup insert
alice_authenticated = refl

email_resolved :
    resolve_extra alice_claims (email_mapping ∷ []) extra_label
    ≡ ok ((text "email", text "a@x") ∷ [])
unfolding resolve_extra lookup insert
email_resolved = refl

lookup-resolve_extra_example :
    (lookup (text "email") ((text "email", text "a@x") ∷ []) ≡ some (text "a@x")) ↔ (
      (m : ExtraMapping) × Has m (email_mapping ∷ [])
      × (m.key ≡ text "email")
      × (lookup m.value_claim alice_claims ≡ some (str (text "a@x"))))
lookup-resolve_extra_example =
    lookup-resolve_extra alice_claims (email_mapping ∷ []) extra_label
      ((text "email", text "a@x") ∷ []) (text "email") (text "a@x") (tt, tt) email_resolved

resolve_extra-err_iff_example :
    ((x : ExtraError) × (resolve_extra number_claims (email_mapping ∷ []) extra_label ≡ err x))
    ↔ ((m : ExtraMapping) × Has m (email_mapping ∷ []) × IsMalformed number_claims m)
resolve_extra-err_iff_example = resolve_extra-err_iff number_claims (email_mapping ∷ []) extra_label

ref_val_to_string_slice_iff_example :
    (ref_val_to_string_slice groups_list ≡ ok (text "dev" ∷ text "ops" ∷ []))
    ↔ IsStringList groups_list (text "dev" ∷ text "ops" ∷ [])
ref_val_to_string_slice_iff_example =
    ref_val_to_string_slice_iff groups_list (text "dev" ∷ text "ops" ∷ [])

keys_differ : (text "b" == text "a") ≡ false
unfolding ◌==◌
keys_differ = refl

abbrev two_extras : Dict Text
two_extras = (text "b", text "2") ∷ (text "a", text "1") ∷ []

abbrev exchanged_extras : Dict Text
exchanged_extras = (text "a", text "1") ∷ (text "b", text "2") ∷ []

append_extra_headers-Reordered_example :
    append_extra_headers [] two_extras ≡ append_extra_headers [] exchanged_extras
append_extra_headers-Reordered_example =
    append_extra_headers-Reordered [] two_extras exchanged_extras
      (exchange (text "b") (text "2") (text "a") (text "1") keys_differ)

resolve_credential_iff_example :
    ((resolve_credential server.reader call none (text "holos") api).0 ≡ ok (text "imp")) ↔ (
      ((api.service_account_ref ≡ none)
        × IsStored server.reader (text "holos") api.credentials_secret_ref (text "imp"))
      ⊎ ((ref : ServiceAccountReference) × (api.service_account_ref ≡ some ref)
          × IsMintedFor call none ref (text "imp")))
resolve_credential_iff_example =
    resolve_credential_iff server.reader call none (text "holos") api (text "imp")

mixed_case : validate_groups_header (text "X-Groups") ≡ ok (text "x-groups")
unfolding validate_groups_header
mixed_case = refl

validate_groups_header_iff_example :
    (validate_groups_header (text "X-Groups") ≡ ok (text "x-groups"))
    ↔ (IsGroupsHeader (text "X-Groups") × (text "x-groups" ≡ to_lower (text "X-Groups")))
validate_groups_header_iff_example = validate_groups_header_iff (text "X-Groups") (text "x-groups")

colon_refused : validate_groups_header (text "x:groups") ≡ err (invalid_character (text "x:groups"))
unfolding validate_groups_header
colon_refused = refl

validate_groups_header-folded_example :
    (validate_groups_header (text "x-GROUPS") ≡ ok (text "x-groups"))
    × (to_lower (text "x-groups") ≡ text "x-groups")
unfolding equal_fold
validate_groups_header-folded_example =
    validate_groups_header-folded (text "X-Groups") (text "x-GROUPS") (text "x-groups") refl
      mixed_case
