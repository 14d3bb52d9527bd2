-- ===== src/Quay/Teams.antt =====
-- internal/controller/quay/teams.go: the teams that an Organization synchronises. `S` is the state of
-- the registry: a call takes it and returns the next one, so a call that fails may have had its
-- effect all the same. A Go map whose values are all `true` is the list of its keys.
pub mod About
pub mod Sync
use holos_substrate.Base.{
  ℕ, Bool, true, false, not, ◌&&◌, ◌||◌, Option, none, some, List, [], ◌∷◌, ◌++◌, Result, ok, err,
  num_eq, if◌then◌else◌, some_of,
}
use holos_substrate.Base.Text.{Text, text, ◌==◌, has_prefix}
use holos_substrate.Base.Dict.{Dict, lookup}
use holos_substrate.Base.Order.{sort_strings}
use holos_substrate.Base.Loop.{each, then_step}

pub data QuayError : Type 0 where
  status_error : ℕ → Text → QuayError
  transport_error : Text → QuayError

unfoldable pub is_missing : QuayError → Bool
is_missing (status_error status message) = num_eq status 404
is_missing (transport_error message) = false

pub record Team : Type 0 where
  pub role : Text
  pub description : Text

pub record Prototype : Type 0 where
  pub id : Text
  pub role : Text
  pub delegate_kind : Text
  pub delegate_name : Text

-- The methods of `OrgClient` on teams, in the organization at hand. A team's binding is the name of
-- its group.
pub record TeamClient (S : Type 0) : Type 0 where
  pub list_teams : S → Result QuayError (Dict Team) × S
  pub upsert_team : Text → Text → Text → S → Option QuayError × S
  pub delete_team_if_exists : Text → S → Option QuayError × S
  pub get_team_members : Text → S → Result QuayError (Option Text) × S
  pub enable_team_sync : Text → Text → S → Option QuayError × S
  pub disable_team_sync : Text → S → Option QuayError × S
  pub list_prototypes : S → Result QuayError (List Prototype) × S
  pub create_prototype : Text → Text → S → Option QuayError × S
  pub update_prototype : Text → Text → S → Option QuayError × S
  pub delete_prototype_if_exists : Text → S → Option QuayError × S

pub record SyncedTeam : Type 0 where
  pub name : Text
  pub oidc_group : Text
  pub role : Text
  pub adopt : Bool
  pub repository_permission : Option Text

-- What the code reads of an Organization, and `organizationReady` of it.
pub record Organization : Type 0 where
  pub uid : Text
  pub synced_teams : List SyncedTeam
  pub managed_teams : List Text
  pub is_ready : Bool

pub data TeamError : Type 0 where
  quay_failed : Text → QuayError → TeamError
  foreign_team : Text → TeamError
  unclaimed_team : Text → TeamError

pub record QuayMutation : Type 0 where
  pub mutated : Bool
  pub healed_drift : Bool

pub record TeamSync (S : Type 0) : Type 0 where
  pub registry : S
  pub managed : List Text
  pub mutation : QuayMutation

abbrev pub Step : Type 0 → Type 0
Step S = TeamSync S → Option TeamError × TeamSync S

abbrev pub managed_team_prefix : Text
managed_team_prefix = text "managed by holos-controller "

unfoldable pub managed_team_marker : Organization → Text
managed_team_marker org = managed_team_prefix ++ org.uid

unfoldable pub carries_foreign_marker : Text → Organization → Bool
unfolding managed_team_marker has_prefix ◌==◌
carries_foreign_marker description org =
    has_prefix description managed_team_prefix && not (description == managed_team_marker org)

unfoldable pub is_key : Text → List Text → Bool
unfolding some_of ◌==◌
is_key name names = some_of (λ (n : Text). n == name) names

-- `m[name] = true` and `delete(m, name)`.
unfoldable pub put_key : Text → List Text → List Text
unfolding is_key
put_key name names = if is_key name names then names else name ∷ names

unfoldable pub drop_key : Text → List Text → List Text
unfolding ◌==◌
drop_key name [] = []
drop_key name (n ∷ names) = let rest = drop_key name names in if n == name then rest else n ∷ rest

unfoldable pub keys_of : List Text → List Text
unfolding put_key
keys_of [] = []
keys_of (n ∷ names) = put_key n (keys_of names)

unfoldable pub find_team_prototype : List Prototype → Text → Option Prototype
unfolding ◌==◌
find_team_prototype [] team = none
find_team_prototype (p ∷ prototypes) team =
    let rest = find_team_prototype prototypes team in
    if p.delegate_kind == text "team" && p.delegate_name == team then some p else rest

unfoldable pub is_desired_team : List SyncedTeam → Text → Bool
unfolding some_of ◌==◌
is_desired_team teams name = some_of (λ (t : SyncedTeam). t.name == name) teams

-- `present` and `existing` are one option.
up_to_date : Organization → SyncedTeam → Option Team → Bool
unfolding managed_team_marker ◌==◌
up_to_date org t none = false
up_to_date org t (some team) = team.role == t.role && team.description == managed_team_marker org

unfoldable pub is_ours : Organization → Option Team → Bool
unfolding managed_team_marker ◌==◌
is_ours org none = false
is_ours org (some team) = team.description == managed_team_marker org

is_present : Option Team → Bool
is_present none = false
is_present (some team) = true

module _ {S : Type 0} where
  -- A call that changes the registry, what it fails as, and what it counts as.
  unfoldable pub call : Text → Bool → Bool → (S → Option QuayError × S) → Step S
  call team mutated healed f sync =
      let (e, registry) = f sync.registry in
      elim e [
        | some x ↦ (some (quay_failed team x), record sync { registry = registry })
        | none ↦ (
          none,
          record sync {
            registry = registry;
            mutation = record {
              mutated = sync.mutation.mutated || mutated;
              healed_drift = sync.mutation.healed_drift || healed;
            };
          },
        )
      ]

  -- A call that reads, and what is done with its answer.
  unfoldable pub query :
      {A : Type 0} → (S → Result QuayError A × S) → (QuayError → Step S) → (A → Step S) → Step S
  query f on_error go sync =
      let (r, registry) = f sync.registry in
      elim r [
        | err x ↦ on_error x (record sync { registry = registry })
        | ok a ↦ go a (record sync { registry = registry })
      ]

  unfoldable pub failed : Text → QuayError → Step S
  failed team x sync = (some (quay_failed team x), sync)

  unfoldable pub skip : Step S
  skip sync = (none, sync)

module _ {S : Type 0} (qc : TeamClient S) where
  rebind : Text → Text → Bool → Bool → Option Text → Step S
  unfolding call skip then_step ◌==◌
  rebind team oidc_group owned_before can_mark_drift none =
      call team true (can_mark_drift && owned_before) (qc.enable_team_sync team oidc_group)
  rebind team oidc_group owned_before can_mark_drift (some group_name) =
      if group_name == oidc_group
      then skip
      else then_step (call team true can_mark_drift (qc.disable_team_sync team))
          (call team true (can_mark_drift && owned_before) (qc.enable_team_sync team oidc_group))

  unfoldable pub bind_team_sync : Text → Text → Bool → Bool → Step S
  unfolding query failed rebind
  bind_team_sync team oidc_group owned_before can_mark_drift =
      query (qc.get_team_members team) (failed team)
        (rebind team oidc_group owned_before can_mark_drift)

  prototype_step : SyncedTeam → Bool → Bool → Option Text → Option Prototype → Step S
  unfolding call skip ◌==◌
  prototype_step t owned_before can_mark_drift none none = skip
  prototype_step t owned_before can_mark_drift none (some p) =
      call t.name true can_mark_drift (qc.delete_prototype_if_exists p.id)
  prototype_step t owned_before can_mark_drift (some role) none =
      call t.name true (can_mark_drift && owned_before) (qc.create_prototype role t.name)
  prototype_step t owned_before can_mark_drift (some role) (some p) =
      if not (p.role == role)
      then call t.name true can_mark_drift (qc.update_prototype p.id role)
      else skip

  unfoldable pub reconcile_team_prototype : SyncedTeam → Bool → Bool → Step S
  unfolding query failed prototype_step find_team_prototype
  reconcile_team_prototype t owned_before can_mark_drift =
      query qc.list_prototypes (failed t.name) (λ prototypes.
        prototype_step t owned_before can_mark_drift t.repository_permission
          (find_team_prototype prototypes t.name))

  unfoldable pub ensure_team_sync_and_prototype : SyncedTeam → Bool → Bool → Step S
  unfolding bind_team_sync reconcile_team_prototype then_step
  ensure_team_sync_and_prototype t owned_before can_mark_drift =
      then_step (bind_team_sync t.name t.oidc_group owned_before can_mark_drift)
        (reconcile_team_prototype t owned_before can_mark_drift)

  unfoldable pub ensure_team_upserted :
      Organization → SyncedTeam → Option Team → Bool → Bool → Step S
  unfolding up_to_date is_ours is_present call skip managed_team_marker
  ensure_team_upserted org t existing owned can_mark_drift =
      if up_to_date org t existing
      then skip
      else call t.name true
          (can_mark_drift && is_present existing && (owned || is_ours org existing))
          (qc.upsert_team t.name t.role (managed_team_marker org))
