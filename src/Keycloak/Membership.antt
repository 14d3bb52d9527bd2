-- ===== src/Keycloak/Membership.antt =====
-- internal/controller/keycloak/membership_controller.go: the members that a GroupMembership adds to
-- a group and removes from it. `S` is the state of the realm: a call takes it and returns the next
-- one, so a call that fails may have had its effect all the same.
pub mod Laws
pub mod Edits
pub mod Outcome
pub mod Managed
pub mod Converged
pub mod Pruned
pub mod Complete
use holos_substrate.Base.{
  ℕ, Bool, true, false, not, ◌&&◌, ◌||◌, Option, none, some, List, [], ◌∷◌, ◌++◌, Result, ok, err,
  num_eq, if◌then◌else◌, some_of,
}
use holos_substrate.Base.Text.{Text, ◌==◌}
use holos_substrate.Base.Loop.{each}
use holos_substrate.Base.Dict.{Dict, lookup, insert, erase}

-- The errors of the client: an API response, or any other failure.
pub data ApiError : Type 0 where
  api_error : ℕ → Text → ApiError
  other_error : Text → ApiError

unfoldable pub is_not_found : ApiError → Bool
is_not_found (api_error status message) = num_eq status 404
is_not_found (other_error message) = false

pub record Group : Type 0 where
  pub id : Text
  pub path : Text

-- The methods of `MembershipClient`. A user is its id.
pub record MembershipClient (S : Type 0) : Type 0 where
  pub get_group_by_path : Text → S → Result ApiError Group × S
  pub find_user_by_email : Text → S → Result ApiError (Option Text) × S
  pub list_user_groups : Text → S → Result ApiError (List Group) × S
  pub add_user_to_group : Text → Text → S → Option ApiError × S
  pub remove_user_from_group_if_member : Text → Text → S → Option ApiError × S

pub record ManagedGroupMember : Type 0 where
  pub email : Text
  pub user_id : Text

pub data SyncError : Type 0 where
  looking_up : Text → ApiError → SyncError
  listing_groups : Text → ApiError → SyncError
  adding : Text → Text → ApiError → SyncError
  listing_managed : Text → ApiError → SyncError
  removing : Text → Text → ApiError → SyncError

pub record MembershipMutation : Type 0 where
  pub mutated : Bool
  pub healed_drift : Bool

-- The variables of `reconcileMembers`, and the realm.
pub record Sync (S : Type 0) : Type 0 where
  pub realm : S
  pub managed : Dict Text
  pub changed : Bool
  pub mutation : MembershipMutation
  pub missing : List Text

-- A step's error ends the run.
abbrev pub Step : Type 0 → Type 0
Step S = Sync S → Option SyncError × Sync S

unfoldable pub contains_group_id : List Group → Text → Bool
unfolding some_of ◌==◌
contains_group_id groups group_id = some_of (λ (g : Group). g.id == group_id) groups

unfoldable pub managed_members_by_email : List ManagedGroupMember → Dict Text → Dict Text
unfolding ◌==◌ insert
managed_members_by_email [] out = out
managed_members_by_email (e ∷ entries) out =
    managed_members_by_email entries
      (if e.email == [] || e.user_id == [] then out else insert e.email e.user_id out)

-- `managed[email] == userID`, where a missing key reads as the empty string.
unfoldable pub is_managed : Dict Text → Text → Text → Bool
unfolding lookup ◌==◌
is_managed managed email user_id = elim (lookup email managed) [
  | none ↦ [] == user_id
  | some id ↦ id == user_id
]

unfoldable pub is_desired : List Text → Text → Bool
unfolding some_of ◌==◌
is_desired members email = some_of (λ (m : Text). m == email) members

-- The conditions under which a user that is no longer desired stays in the group all the same.
unfoldable pub stays : Text → (Text → Bool) → Text → Text → Bool
unfolding ◌==◌
stays group_id peer_desires previous_group_id email =
    peer_desires email || (not (previous_group_id == []) && not (previous_group_id == group_id))

module _ {S : Type 0} where
  -- The last lines of the first loop's body.
  record_member : Text → Text → Sync S → Sync S
  unfolding is_managed insert
  record_member email user_id sync = record sync {
    changed = sync.changed || not (is_managed sync.managed email user_id);
    managed = insert email user_id sync.managed;
  }

  with_drift : Text → Text → Sync S → Sync S
  unfolding is_managed
  with_drift email user_id sync = record sync {
    mutation = record sync.mutation {
      healed_drift = sync.mutation.healed_drift || is_managed sync.managed email user_id;
    };
  }

  with_mutation : Sync S → Sync S
  with_mutation sync = record sync { mutation = record sync.mutation { mutated = true } }

  release : Text → Sync S → Sync S
  unfolding erase
  release email sync = record sync { managed = erase email sync.managed; changed = true }

module _ {S : Type 0} (kc : MembershipClient S) (group_id : Text) where
  add_user : Text → Text → Step S
  unfolding record_member with_mutation
  add_user email user_id sync =
      let (e, realm) = kc.add_user_to_group user_id group_id sync.realm in
      let after = record sync { realm = realm } in
      elim e [
        | some x ↦ (some (adding email group_id x), after)
        | none ↦ (none, record_member email user_id (with_mutation after))
      ]

  ensure_user : Text → Text → Step S
  unfolding contains_group_id with_drift add_user record_member
  ensure_user email user_id sync =
      let (r, realm) = kc.list_user_groups user_id sync.realm in
      let after = record sync { realm = realm } in
      elim r [
        | err x ↦ (some (listing_groups email x), after)
        | ok groups ↦
            if not (contains_group_id groups group_id)
            then add_user email user_id (with_drift email user_id after)
            else (none, record_member email user_id after)
      ]

  -- One round of the loop over the members of the spec.
  unfoldable pub ensure_member : Text → Step S
  unfolding ensure_user
  ensure_member email sync =
      let (r, realm) = kc.find_user_by_email email sync.realm in
      let after = record sync { realm = realm } in
      elim r [
        | err x ↦ (some (looking_up email x), after)
        | ok none ↦ (none, record after { missing = after.missing ++ (email ∷ []) })
        | ok (some user_id) ↦ ensure_user email user_id after
      ]

  remove_user : Text → Text → Step S
  unfolding release with_mutation
  remove_user email user_id sync =
      let (e, realm) = kc.remove_user_from_group_if_member user_id group_id sync.realm in
      let after = record sync { realm = realm } in
      elim e [
        | some x ↦ (some (removing email group_id x), after)
        | none ↦ (none, release email (with_mutation after))
      ]

  withdraw : Text → Text → Step S
  unfolding contains_group_id release remove_user is_not_found
  withdraw email user_id sync =
      let (r, realm) = kc.list_user_groups user_id sync.realm in
      let after = record sync { realm = realm } in
      elim r [
        | err x ↦
            if is_not_found x
            then (none, release email after)
            else (some (listing_managed email x), after)
        | ok groups ↦
            if contains_group_id groups group_id
            then remove_user email user_id after
            else (none, release email after)
      ]

  -- One round of the loop over the managed members. `peer_desires` is `peerStillDesires`.
  unfoldable pub prune_member : (Text → Bool) → List Text → Text → Text × Text → Step S
  unfolding is_desired stays release withdraw
  prune_member peer_desires members previous_group_id (email, user_id) sync =
      if is_desired members email
      then (none, sync)
      else if stays group_id peer_desires previous_group_id email
      then (none, release email sync)
      else withdraw email user_id sync

  prune_after :
      (Text → Bool) → List Text → Text → Option SyncError × Sync S → Option SyncError × Sync S
  unfolding each prune_member
  prune_after peer_desires members previous_group_id (some e, sync) = (some e, sync)
  prune_after peer_desires members previous_group_id (none, sync) =
      each (prune_member peer_desires members previous_group_id) sync.managed sync

  unfoldable pub sync_members : (Text → Bool) → List Text → Text → Step S
  unfolding prune_after ensure_member each
  sync_members peer_desires members previous_group_id sync =
      prune_after peer_desires members previous_group_id (each ensure_member members sync)
