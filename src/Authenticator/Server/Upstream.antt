-- ===== src/Authenticator/Server/Upstream.antt =====
-- What the headers of an OK response do to a request on its way to the API server.
use holos_substrate.Base.{
  ◌≡◌, ◌≢◌, inl, inr, refl, ap, ◌∙◌, false, none, some, List, [], ◌∷◌, ◌++◌, arith, ok,
}
use holos_substrate.Base.Text.{Text, text, ◌==◌, to_lower, equal_fold}
use holos_substrate.Base.Dict.{Dict, lookup}
use holos_substrate.Authenticator.Entry.{groups_separator}
use holos_substrate.Authenticator.TokenManager.{Call}
use holos_substrate.Authenticator.Server.Decision.{IsAllowed, check_iff}
use holos_substrate.Authenticator.Identity.{Identity}
use holos_substrate.Authenticator.Headers.{
  header_authorization, header_impersonate_user, header_impersonate_uid, first_impersonation_header,
  validate_groups_header, split_inbound_groups,
}
use holos_substrate.Authenticator.Server.{
  Request, check, CheckServer, CheckResponse, ok_response, denied, groups_header_name,
  HeaderValueOption, overwrite_header, value_or_empty, append_extra_headers, nonempty_header,
  joined_groups, authorization, ok_response_self, with_actor_extra, forwarded, delegated_response,
}
use holos_substrate.Authenticator.Server.Values.{
  values_named, values_named-++, values_named-joined_groups, values_named-nonempty_header,
  values_named-forwarded, extra_not_authorization, extra_not_user, groups_not_authorization,
  groups_not_user, values_named-stamped,
}

-- The options of one header.
abbrev pub options : CheckResponse → List HeaderValueOption
options (ok_response headers removed) = headers
options (denied _ _ headers _) = headers

module _ (v : Text) (rest : List HeaderValueOption) where
  user-then-authorization :
      values_named header_authorization (overwrite_header header_impersonate_user v ∷ rest)
      ≡ values_named header_authorization rest
  unfolding values_named equal_fold to_lower ◌==◌
  user-then-authorization = refl

  user-then-user :
      values_named header_impersonate_user (overwrite_header header_impersonate_user v ∷ rest)
      ≡ v ∷ values_named header_impersonate_user rest
  unfolding values_named equal_fold to_lower ◌==◌
  user-then-user = refl

module _ (credential : Text) where
  authorization-authorization :
      values_named header_authorization (authorization credential ∷ [])
      ≡ (text "Bearer " ++ credential) ∷ []
  unfolding values_named equal_fold to_lower ◌==◌
  authorization-authorization = refl

  authorization-user : values_named header_impersonate_user (authorization credential ∷ []) ≡ []
  unfolding values_named equal_fold to_lower ◌==◌
  authorization-user = refl

uid_not_authorization : equal_fold header_impersonate_uid header_authorization ≡ false
unfolding equal_fold to_lower ◌==◌
uid_not_authorization = refl

uid_not_user : equal_fold header_impersonate_uid header_impersonate_user ≡ false
unfolding equal_fold to_lower ◌==◌
uid_not_user = refl

-- The options between the user and the extras, in either mode.
module _ (name groups_name : Text) (groups : List Text) (sep : Text)
    (uid_other : equal_fold header_impersonate_uid name ≡ false)
    (groups_other : equal_fold groups_name name ≡ false) where
  middle_self :
      (uid : Text)
      → values_named name
          (nonempty_header header_impersonate_uid uid ++ joined_groups groups_name groups sep)
        ≡ []
  middle_self uid =
      values_named-++ name (nonempty_header header_impersonate_uid uid)
        (joined_groups groups_name groups sep)
      ∙ ap (λ xs. xs ++ values_named name (joined_groups groups_name groups sep))
          (values_named-nonempty_header name header_impersonate_uid uid uid_other)
      ∙ values_named-joined_groups name groups_name groups sep groups_other

  middle_delegated :
      (headers : Dict Text)
      → values_named name
          (forwarded header_impersonate_uid headers ++ joined_groups groups_name groups sep)
        ≡ []
  middle_delegated headers =
      values_named-++ name (forwarded header_impersonate_uid headers)
        (joined_groups groups_name groups sep)
      ∙ ap (λ xs. xs ++ values_named name (joined_groups groups_name groups sep))
          (values_named-forwarded name header_impersonate_uid headers uid_other)
      ∙ values_named-joined_groups name groups_name groups sep groups_other

-- A user, options that name neither of the two headers, extras and the credential.
module _ (v : Text) (middle : List HeaderValueOption) (extra : Dict Text) (credential : Text) where
  abbrev whole : List HeaderValueOption
  whole =
      append_extra_headers (overwrite_header header_impersonate_user v ∷ middle) extra
      ++ (authorization credential ∷ [])

  whole-authorization :
      values_named header_authorization middle ≡ []
      → values_named header_authorization whole ≡ (text "Bearer " ++ credential) ∷ []
  whole-authorization m =
      values_named-stamped header_authorization
        (overwrite_header header_impersonate_user v ∷ middle) extra credential
        extra_not_authorization
      ∙ ap (λ xs. xs ++ values_named header_authorization (authorization credential ∷ []))
          (user-then-authorization v middle ∙ m)
      ∙ authorization-authorization credential

  whole-user :
      values_named header_impersonate_user middle ≡ []
      → values_named header_impersonate_user whole ≡ v ∷ []
  whole-user m =
      values_named-stamped header_impersonate_user
        (overwrite_header header_impersonate_user v ∷ middle) extra credential extra_not_user
      ∙ ap (λ xs. xs ++ values_named header_impersonate_user (authorization credential ∷ []))
          (user-then-user v middle ∙ ap (λ xs. v ∷ xs) m)
      ∙ ap (λ xs. (v ∷ []) ++ xs) (authorization-user credential)

-- The user that an allowed request acts as.
unfoldable pub effective_user : Dict Text → Identity → Text
effective_user headers i = elim (first_impersonation_header headers) [
  | none ↦ i.username
  | some _ ↦ value_or_empty (lookup (to_lower header_impersonate_user) headers)
]

module _ (headers : Dict Text) (i : Identity) where
  acting_as_self : first_impersonation_header headers ≡ none → effective_user headers i ≡ i.username
  unfolding effective_user
  acting_as_self h = ground (arith, h)

  targeted :
      first_impersonation_header headers ≢ none
      → effective_user headers i
        ≡ value_or_empty (lookup (to_lower header_impersonate_user) headers)
  unfolding effective_user
  targeted h = ground arith

forwarded_target :
    (headers : Dict Text)
    → value_or_empty (lookup (to_lower header_impersonate_user) headers) ≢ []
    → forwarded header_impersonate_user headers
      ≡ overwrite_header header_impersonate_user
          (value_or_empty (lookup (to_lower header_impersonate_user) headers))
        ∷ []
unfolding forwarded value_or_empty
forwarded_target headers h = ground arith

pub record Overwrites (options : List HeaderValueOption) (credential name : Text) : Type 0 where
  pub credentials : values_named header_authorization options ≡ (text "Bearer " ++ credential) ∷ []
  pub user : values_named header_impersonate_user options ≡ name ∷ []

abbrev pub SetsBoth : CheckResponse → Text → Text → Type 0
SetsBoth r credential name = Overwrites (options r) credential name

module _ (s : CheckServer) (lower : Text)
    (valid : validate_groups_header (groups_header_name s) ≡ ok lower) (i : Identity)
    (sep credential : Text) where
  abbrev groups_name : Text
  groups_name = groups_header_name s

  self-Overwrites : SetsBoth (ok_response_self s i sep credential) credential i.username
  unfolding ok_response_self
  self-Overwrites =
      let middle =
        nonempty_header header_impersonate_uid i.uid ++ joined_groups groups_name i.groups sep in
      record {
        credentials = whole-authorization i.username middle i.extra credential (
            middle_self header_authorization groups_name i.groups sep uid_not_authorization
              (groups_not_authorization groups_name lower valid) i.uid);
        user = whole-user i.username middle i.extra credential (
            middle_self header_impersonate_user groups_name i.groups sep uid_not_user
              (groups_not_user groups_name lower valid) i.uid);
      }

  delegated-Overwrites :
      (headers : Dict Text) (groups : List Text)
      → let target = value_or_empty (lookup (to_lower header_impersonate_user) headers) in
        target ≢ []
        → SetsBoth (delegated_response s i headers groups sep credential) credential target
  unfolding delegated_response
  delegated-Overwrites headers groups named =
      let target = value_or_empty (lookup (to_lower header_impersonate_user) headers) in
      let middle =
        forwarded header_impersonate_uid headers ++ joined_groups groups_name groups sep in
      rw (forwarded_target headers named) (record {
        credentials = whole-authorization target middle i.impersonation_extra credential (
            middle_delegated header_authorization groups_name groups sep uid_not_authorization
              (groups_not_authorization groups_name lower valid) headers);
        user = whole-user target middle i.impersonation_extra credential (
            middle_delegated header_impersonate_user groups_name groups sep uid_not_user
              (groups_not_user groups_name lower valid) headers);
      })

module _ (s s' : CheckServer) (w : Call) (req : Request) (lower : Text) (r : CheckResponse)
    (valid : validate_groups_header (groups_header_name s) ≡ ok lower) where
  allowed-SetsBoth :
      (a : IsAllowed s w req r s') → SetsBoth r a.credential (effective_user req.headers a.identity)
  allowed-SetsBoth a = elim a.mode [
    | inl (own, same) ↦
        rw (acting_as_self req.headers a.identity own, same)
          (self-Overwrites s lower valid a.identity (groups_separator a.entry) a.credential)
    | inr (other, d) ↦
        let (extra, _, same) = d.stamped in
        let target = value_or_empty (lookup (to_lower header_impersonate_user) req.headers) in
        let user : effective_user req.headers a.identity ≡ target =
          targeted req.headers a.identity other in
        rw (user, same)
          (delegated-Overwrites s lower valid (with_actor_extra a.identity extra)
            (groups_separator a.entry) a.credential req.headers (split_inbound_groups req.headers)
            d.target)
  ]

-- However a request is allowed, its Authorization header is overwritten exactly once, with the
-- impersonator's credential, and so is Impersonate-User: with the actor's own name if the request
-- carries no impersonation header, else with the non-empty target that it names. No other option
-- touches either header. The configured name of the groups header has passed its validation.
pub check-Overwrites :
    (s s' : CheckServer) (w : Call) (req : Request) (lower : Text)
    (headers : List HeaderValueOption) (removed : List Text)
    → validate_groups_header (groups_header_name s) ≡ ok lower
    → check s w req ≡ (ok_response headers removed, s')
    → (a : IsAllowed s w req (ok_response headers removed) s') × Overwrites headers a.credential
        (effective_user req.headers a.identity)
check-Overwrites s s' w req lower headers removed valid h =
    let r = ok_response headers removed in
    let a = (check_iff s s' w req headers removed).0 h in
    (a, allowed-SetsBoth s s' w req lower r valid a)
