-- ===== src/Quay/Teams/Sync.antt =====
-- internal/controller/quay/teams.go: `reconcileSyncedTeams`, over the steps of the parent module.
pub mod Single
pub mod Safe
use holos_substrate.Base.{
  Bool, true, false, not, ◌&&◌, ◌||◌, Option, none, some, List, [], ◌∷◌, Result, ok, err,
  if◌then◌else◌,
}
use holos_substrate.Base.Text.{Text, ◌==◌}
use holos_substrate.Base.Dict.{Dict, lookup}
use holos_substrate.Base.Order.{sort_strings}
use holos_substrate.Base.Loop.{each, then_step}
use holos_substrate.Quay.Teams.{
  QuayError, is_missing, Team, Prototype, TeamClient, SyncedTeam, Organization, TeamError,
  quay_failed, foreign_team, unclaimed_team, TeamSync, Step, carries_foreign_marker, is_key,
  put_key, drop_key, keys_of, find_team_prototype, is_desired_team, call, query, failed, skip,
  ensure_team_sync_and_prototype, ensure_team_upserted, is_ours,
}

module _ {S : Type 0} where
  unfoldable pub claim_key : Text → Step S
  unfolding put_key
  claim_key name sync = (none, record sync { managed = put_key name sync.managed })

  unfoldable pub release_key : Text → Step S
  unfolding drop_key
  release_key name sync = (none, record sync { managed = drop_key name sync.managed })

  unfoldable pub start : Organization → S → TeamSync S
  unfolding keys_of
  start org registry = record {
    registry = registry;
    managed = keys_of org.managed_teams;
    mutation = record { mutated = false; healed_drift = false };
  }

-- The guards on a team that is there and not recorded as managed. `none` lets it pass.
unfoldable pub claim_error : Organization → SyncedTeam → Option Team → Bool → Option TeamError
unfolding is_ours carries_foreign_marker
claim_error org t none owned = none
claim_error org t (some team) owned =
    if owned
    then none
    else if is_ours org (some team)
    then none
    else if carries_foreign_marker team.description org
    then some (foreign_team t.name)
    else if not t.adopt
    then some (unclaimed_team t.name)
    else none

module _ {S : Type 0} (qc : TeamClient S) where
  drop_prototype : Text → Option Prototype → Step S
  unfolding call skip
  drop_prototype team none = skip
  drop_prototype team (some p) = call team true false (qc.delete_prototype_if_exists p.id)

  delete_team : Text → Bool → Step S
  unfolding call
  delete_team team present = call team present false (qc.delete_team_if_exists team)

  unbind : Text → Option Text → Step S
  unfolding delete_team call then_step
  unbind team none = delete_team team true
  unbind team (some group_name) =
      then_step (call team true false (qc.disable_team_sync team)) (delete_team team true)

  unread : Text → QuayError → Step S
  unfolding is_missing delete_team failed
  unread team x = if is_missing x then delete_team team false else failed team x

  remove_team : Text → Bool → Step S
  unfolding query unread unbind delete_team
  remove_team team present =
      if present
      then query (qc.get_team_members team) (unread team) (unbind team)
      else delete_team team false

  unfoldable pub deprovision_team : Text → Bool → Step S
  unfolding query failed drop_prototype find_team_prototype remove_team then_step
  deprovision_team team present =
      then_step
        (query qc.list_prototypes (failed team)
          (λ prototypes. drop_prototype team (find_team_prototype prototypes team)))
        (remove_team team present)

  -- One round of the loop over the managed teams.
  unfoldable pub deprovision_step : Organization → Dict Team → Text → Step S
  unfolding is_desired_team skip deprovision_team release_key then_step lookup
  deprovision_step org teams name =
      if is_desired_team org.synced_teams name
      then skip
      else then_step
          (deprovision_team name (elim (lookup name teams) [ none ↦ false | some team ↦ true ]))
          (release_key name)

  heal : Organization → SyncedTeam → Option Team → Bool → Step S
  unfolding is_ours claim_key skip
  heal org t existing owned = if not owned && is_ours org existing then claim_key t.name else skip

  -- What one round of the loop over the spec does with a team that it may have.
  unfoldable pub claimed_step : Organization → SyncedTeam → Option Team → Bool → Step S
  unfolding heal ensure_team_upserted claim_key ensure_team_sync_and_prototype then_step is_ours
  claimed_step org t existing owned = then_step (heal org t existing owned) (
      then_step (ensure_team_upserted qc org t existing owned org.is_ready) (
        then_step (claim_key t.name)
          (ensure_team_sync_and_prototype qc t (owned || is_ours org existing) org.is_ready)))

  unfoldable pub team_step : Organization → Dict Team → SyncedTeam → Step S
  unfolding claim_error claimed_step lookup is_key
  team_step org teams t sync =
      let existing = lookup t.name teams in
      let owned = is_key t.name sync.managed in
      elim (claim_error org t existing owned) [
        | some e ↦ (some e, sync)
        | none ↦ claimed_step org t existing owned sync
      ]

  -- The two loops, on the teams that were listed.
  unfoldable pub sync_listed : Organization → Dict Team → Step S
  unfolding each then_step deprovision_step team_step
  sync_listed org teams sync =
      then_step (each (deprovision_step org teams) sync.managed)
        (each (team_step org teams) org.synced_teams) sync

normalized : List Text → List Text → List Text
unfolding is_key ◌==◌
normalized seen [] = []
normalized seen (name ∷ names) =
    let rest = normalized (name ∷ seen) names in
    let skipped = normalized seen names in
    if name == [] || is_key name seen then skipped else name ∷ rest

unfoldable pub normalize_managed_teams : List Text → List Text
unfolding normalized sort_strings
normalize_managed_teams names = sort_strings (normalized [] names)

unfoldable pub write_managed_teams : List Text → List Text
unfolding normalize_managed_teams sort_strings
write_managed_teams managed = normalize_managed_teams (sort_strings managed)

-- `reconcileSyncedTeams`: the error, the registry, and the managed teams for the status, which a
-- failed listing leaves as they are.
unfoldable pub reconcile_synced_teams :
    {S : Type 0} → TeamClient S → Organization → S → Option TeamError × TeamSync S × List Text
unfolding start sync_listed write_managed_teams
reconcile_synced_teams qc org registry =
    let (r, next) = qc.list_teams registry in
    elim r [
      | err x ↦ (some (quay_failed [] x), start org next, org.managed_teams)
      | ok teams ↦
          let (e, sync) = sync_listed qc org teams (start org next) in
          (e, sync, write_managed_teams sync.managed)
    ]
