-- ===== src/Keycloak/Links.antt =====
-- internal/controller/keycloak/user_controller.go: the link to an identity provider that a User keeps
-- on its Keycloak user. `S` is the state of the realm: a call takes it and returns the next one.
pub mod Kept
pub mod Linked
use holos_substrate.Base.{
  Bool, true, false, not, ◌&&◌, ◌||◌, Option, none, some, List, [], ◌∷◌, ◌++◌, Result, ok, err,
  if◌then◌else◌, num_eq, ℕ,
}
use holos_substrate.Base.Text.{Text, text, ◌==◌}
use holos_substrate.Keycloak.Membership.{ApiError}

pub record FederatedIdentity : Type 0 where
  pub identity_provider : Text
  pub user_id : Text
  pub user_name : Text

pub record IdentityProviderLink : Type 0 where
  pub alias : Text
  pub user_id : Text
  pub user_name : Text

-- The methods of `UserClient` on federated identities.
pub record LinkClient (S : Type 0) : Type 0 where
  pub list_federated_identities : Text → S → Result ApiError (List FederatedIdentity) × S
  pub create_federated_identity_if_not_exists :
      Text → Text → FederatedIdentity → S → Option ApiError × S
  pub delete_federated_identity_if_exists : Text → Text → S → Option ApiError × S

-- The alias that an error names, and its cause.
pub data LinkError : Type 0 where
  listing_links : Text → ApiError → LinkError
  removing_link : Text → ApiError → LinkError
  creating_link : Text → ApiError → LinkError

-- `strings.Cut(entry, "|")` without its last result.
unfoldable pub parse_managed_identity_provider : Text → Text × Text
parse_managed_identity_provider [] = ([], [])
parse_managed_identity_provider (c ∷ entry) =
    let (alias, subject) = parse_managed_identity_provider entry in
    if num_eq c b'|' then ([], entry) else (c ∷ alias, subject)

unfoldable pub serialize_managed_identity_provider : Text → Text → Text
serialize_managed_identity_provider alias subject = alias ++ (text "|" ++ subject)

-- Whether the loop over the links ends with the deletion: `found` is its variable.
unfoldable pub may_delete : Text → Text → Bool → List FederatedIdentity → Bool
unfolding ◌==◌
may_delete alias subject found [] = found
may_delete alias subject found (l ∷ links) =
    let skipped = may_delete alias subject found links in
    let matched = may_delete alias subject true links in
    if not (l.identity_provider == alias)
    then skipped
    else if not (l.user_id == subject)
    then false
    else matched

-- What the function changes: the realm, and the entry of the status.
pub record LinkSync (S : Type 0) : Type 0 where
  pub realm : S
  pub managed : Text
  pub mutated : Bool

-- A link without a subject is left to the login flow of the realm.
unfoldable pub desired_link : Option IdentityProviderLink → Option IdentityProviderLink
unfolding ◌==◌
desired_link none = none
desired_link (some l) = if l.user_id == [] then none else some l

unfoldable pub desired_entry : Option IdentityProviderLink → Text × Text
desired_entry none = ([], [])
desired_entry (some l) = (l.alias, l.user_id)

unfoldable pub is_stale : Text × Text → Text × Text → Bool
unfolding ◌==◌
is_stale (alias, subject) (wanted, wanted_subject) =
    not (alias == []) && (not (alias == wanted) || not (subject == wanted_subject))

module _ {S : Type 0} (kc : LinkClient S) (user_id : Text) where
  unfoldable pub delete_federated : Text → S → Option LinkError × S
  delete_federated alias s =
      let (e, next) = kc.delete_federated_identity_if_exists user_id alias s in
      elim e [ some x ↦ (some (removing_link alias x), next) | none ↦ (none, next) ]

  unfoldable pub delete_federated_if_subject_matches : Text → Text → S → Option LinkError × S
  unfolding delete_federated may_delete ◌==◌
  delete_federated_if_subject_matches alias subject s =
      if subject == []
      then delete_federated alias s
      else let (r, next) = kc.list_federated_identities user_id s in
        elim r [
          | err x ↦ (some (listing_links alias x), next)
          | ok links ↦
              if may_delete alias subject false links
              then delete_federated alias next
              else (none, next)
        ]

  unfoldable pub create_federated :
      IdentityProviderLink → LinkSync S → Option LinkError × LinkSync S
  unfolding serialize_managed_identity_provider ◌==◌
  create_federated l sync =
      let identity : FederatedIdentity = record {
        identity_provider = l.alias;
        user_id = l.user_id;
        user_name = l.user_name;
      } in
      let (e, next) =
        kc.create_federated_identity_if_not_exists user_id l.alias identity sync.realm in
      let entry = serialize_managed_identity_provider l.alias l.user_id in
      elim e [
        | some x ↦ (some (creating_link l.alias x), record sync { realm = next })
        | none ↦ (
          none,
          record {
            realm = next;
            managed = entry;
            mutated = sync.mutated || not (sync.managed == entry);
          },
        )
      ]

  unfoldable pub establish :
      Option IdentityProviderLink → LinkSync S → Option LinkError × LinkSync S
  unfolding create_federated ◌==◌
  establish none sync = (none, sync)
  establish (some l) sync = if l.alias == [] then (none, sync) else create_federated l sync

  -- The deletion of the link that the entry records.
  unfoldable pub withdraw_entry : Text × Text → LinkSync S → Option LinkError × LinkSync S
  unfolding delete_federated_if_subject_matches
  withdraw_entry (alias, subject) sync =
      let (e, next) = delete_federated_if_subject_matches alias subject sync.realm in
      elim e [
        | some x ↦ (some x, record sync { realm = next })
        | none ↦ (none, record { realm = next; managed = []; mutated = true })
      ]

  unfoldable pub withdraw_link : LinkSync S → Option LinkError × LinkSync S
  unfolding withdraw_entry parse_managed_identity_provider
  withdraw_link sync = withdraw_entry (parse_managed_identity_provider sync.managed) sync

  unfoldable pub reconcile_identity_provider_link :
      Option IdentityProviderLink → LinkSync S → Option LinkError × LinkSync S
  unfolding is_stale desired_entry desired_link parse_managed_identity_provider withdraw_link
      establish
  reconcile_identity_provider_link link sync =
      let wanted = desired_link link in
      if is_stale (parse_managed_identity_provider sync.managed) (desired_entry wanted)
      then (let (e, next) = withdraw_link sync in
          elim e [ some x ↦ (some x, next) | none ↦ establish wanted next ])
      else establish wanted sync
