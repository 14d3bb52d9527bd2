-- ===== src/Authenticator/Entry.antt =====
-- The resolved configuration of one Backend (internal/authenticator/store.go), with the references
-- of api/authenticator/v1alpha1/common_types.go that it holds.
use holos_substrate.Base.{Option, List, [], if◌then◌else◌}
use holos_substrate.Base.Text.{Text, text, ◌==◌}
use holos_substrate.Base.Int.{ℤ}
use holos_substrate.Authenticator.Claims.{ExtraMapping}
use holos_substrate.Authenticator.Identity.{Authenticator}

pub record SecretReference : Type 0 where
  pub name : Text
  pub key : Text

pub record ServiceAccountReference : Type 0 where
  pub name : Text
  pub audience : Text
  pub expiration_seconds : Option ℤ

-- The set of groups is the list of its members.
pub record ResolvedImpersonation : Type 0 where
  pub groups : List Text
  pub extra : List ExtraMapping

pub record Entry : Type 0 where
  pub host : Text
  pub authenticator : Authenticator
  pub username_claim : Text
  pub server_url : Text
  pub server_ca_bundle : Text
  pub credentials_secret_ref : SecretReference
  pub service_account_ref : Option ServiceAccountReference
  pub groups_separator : Text
  pub impersonation : Option ResolvedImpersonation

abbrev pub default_groups_separator : Text
default_groups_separator = text "|"

unfoldable pub groups_separator : Entry → Text
unfolding ◌==◌
groups_separator e =
    if e.groups_separator == [] then default_groups_separator else e.groups_separator
