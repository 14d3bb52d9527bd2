-- ===== src/Keycloak/Resource.antt =====
-- The GroupMembership resource of api/keycloak/v1alpha1/groupmembership_types.go, what a
-- reconciliation of it reads, and what it leaves behind.
use holos_substrate.Base.{Bool, Option, List, Result}
use holos_substrate.Base.Text.{Text}
use holos_substrate.Base.Int.{ℤ}
use holos_substrate.Grant.{ReferenceGrant}
use holos_substrate.Shared.{Condition}
use holos_substrate.Keycloak.Membership.{ApiError, ManagedGroupMember, MembershipClient, SyncError}

-- `InstanceReference` and `GroupReference`.
pub record Reference : Type 0 where
  pub name : Text
  pub namespace : Text

-- `members` are the emails.
pub record GroupMembershipSpec : Type 0 where
  pub instance_ref : Reference
  pub group_ref : Reference
  pub members : List Text
  pub deletion_policy : Text

pub record GroupMembershipStatus : Type 0 where
  pub conditions : List Condition
  pub observed_generation : ℤ
  pub group_id : Text
  pub managed_members : List ManagedGroupMember
  pub last_validated_time : Option ℤ
  pub last_mutated_time : Option ℤ
  pub last_mutation_reason : Text
  pub last_drift_time : Option ℤ

pub record GroupMembership : Type 0 where
  pub namespace : Text
  pub name : Text
  pub generation : ℤ
  pub deleting : Bool
  pub finalizers : List Text
  pub spec : GroupMembershipSpec
  pub status : GroupMembershipStatus

-- What the code reads of an Instance.
pub record Instance : Type 0 where
  pub generation : ℤ
  pub conditions : List Condition
  pub url : Text
  pub realm : Text
  pub ca_bundle : Text
  pub credentials_secret_ref : Text

-- What the code reads of a Group.
pub record GroupResource : Type 0 where
  pub namespace : Text
  pub name : Text
  pub generation : ℤ
  pub conditions : List Condition
  pub instance_ref : Reference
  pub path : Text

pub data GetError : Type 0 where
  not_found : GetError
  failed : Text → GetError

-- `isMissingCredential` tells the two apart.
pub data CredentialError : Type 0 where
  missing_credential : Text → CredentialError
  unread_credential : Text → CredentialError

pub data ReconcileError : Type 0 where
  reading : Text → ReconcileError
  adding_finalizer : Text → ReconcileError
  removing_finalizer : Text → ReconcileError
  checking_grant : Text → ReconcileError
  resolving_instance : Text → ReconcileError
  resolving_group : Text → ReconcileError
  no_credential : CredentialError → ReconcileError
  bad_ca_bundle : Text → ReconcileError
  resolving_path : ApiError → ReconcileError
  syncing : SyncError → ReconcileError
  finalizing_list : Text → ApiError → ReconcileError
  finalizing : Text → ApiError → ReconcileError
  writing_status : Text → ReconcileError

-- The API server, as one reconciliation finds it, and the libraries. `update` and `patch_status` are
-- the outcomes of the writes, `print` puts an error into words.
pub record World (S : Type 0) : Type 0 where
  pub get : Result GetError GroupMembership
  pub get_instance : Text → Text → Result GetError Instance
  pub get_group : Text → Text → Result GetError GroupResource
  pub list_grants : Text → Result Text (List ReferenceGrant)
  pub list_memberships : Text → Result Text (List GroupMembership)
  pub resolve_credential : Text → Result CredentialError Text
  pub validate_ca_bundle : Text → Option Text
  pub new_client : Text → Text → Text → Text → MembershipClient S
  pub update : GroupMembership → Option Text
  pub patch_status : GroupMembership → Option Text
  pub set_status_condition : List Condition → Condition → List Condition × Bool
  pub print : ReconcileError → Text
  pub now : ℤ

-- The realm and the object, with the reasons of the events.
pub record Run (S : Type 0) : Type 0 where
  pub realm : S
  pub membership : GroupMembership
  pub events : List Text

-- `none` is `ctrl.Result{}`, else the time to requeue after.
abbrev pub Requeue : Type 0
Requeue = Option ℤ

abbrev pub Outcome : Type 0 → Type 0
Outcome S = Result ReconcileError Requeue × Run S
