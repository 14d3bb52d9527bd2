-- ===== src/Quay/Teams/Sync/Single.antt =====
-- Each round of the loops of `reconcileSyncedTeams` touches one team only.
use holos_substrate.Base.{refl, Bool, true, false, not, ◌&&◌, ◌||◌, Option, none, some}
use holos_substrate.Base.Text.{Text}
use holos_substrate.Base.Dict.{Dict}
use holos_substrate.Base.Loop.{then_step}
use holos_substrate.Quay.Teams.{
  QuayError, Team, Prototype, TeamClient, SyncedTeam, Organization, find_team_prototype, is_ours,
  call, query, failed, skip, ensure_team_sync_and_prototype, ensure_team_upserted,
}
use holos_substrate.Quay.Teams.About.{
  IsRegistry, AboutTeam, IsAbout, is_key-put, is_key-drop, then_step-IsAbout, call-IsAbout,
  query-IsAbout, skip-IsAbout, failed-IsAbout, if-IsAbout, ensure_team_sync_and_prototype-IsAbout,
  ensure_team_upserted-IsAbout,
}
use holos_substrate.Quay.Teams.Sync.{
  claim_key, release_key, drop_prototype, delete_team, unbind, unread, remove_team,
  deprovision_team, deprovision_step, heal, claimed_step,
}

module _ {S : Type 0} {V : Type 0} (qc : TeamClient S) (view : S → Text → V)
    (laws : IsRegistry qc view) where
  claim_key-IsAbout : (t : Text) → IsAbout qc view laws t (claim_key t)
  unfolding claim_key AboutTeam
  claim_key-IsAbout t s n d = (refl, is_key-put t n s.managed d)

  release_key-IsAbout : (t : Text) → IsAbout qc view laws t (release_key t)
  unfolding release_key AboutTeam
  release_key-IsAbout t s n d = (refl, is_key-drop t n s.managed)

  delete_team-IsAbout :
      (t : Text) (present : Bool) → IsAbout qc view laws t (delete_team qc t present)
  unfolding delete_team
  delete_team-IsAbout t present =
      call-IsAbout qc view laws t t present false (qc.delete_team_if_exists t)
        (λ s n d. laws.removed t s n d)

  drop_prototype-IsAbout :
      (t : Text) (p : Option Prototype) → IsAbout qc view laws t (drop_prototype qc t p)
  unfolding drop_prototype
  drop_prototype-IsAbout t none = skip-IsAbout qc view laws t
  drop_prototype-IsAbout t (some p) =
      call-IsAbout qc view laws t t true false (qc.delete_prototype_if_exists p.id)
        (λ s n d. laws.deleted p.id s n)

  unbind-IsAbout : (t : Text) (g : Option Text) → IsAbout qc view laws t (unbind qc t g)
  unfolding unbind
  unbind-IsAbout t none = delete_team-IsAbout t true
  unbind-IsAbout t (some g) =
      then_step-IsAbout qc view laws t (call t true false (qc.disable_team_sync t))
        (delete_team qc t true)
        (call-IsAbout qc view laws t t true false (qc.disable_team_sync t)
          (λ s n d. laws.disabled t s n d))
        (delete_team-IsAbout t true)

  unread-IsAbout : (t : Text) (x : QuayError) → IsAbout qc view laws t (unread qc t x)
  unfolding unread
  unread-IsAbout t x =
      if-IsAbout qc view laws t _ (delete_team qc t false) (failed t x)
        (delete_team-IsAbout t false) (failed-IsAbout qc view laws t x)

  remove_team-IsAbout :
      (t : Text) (present : Bool) → IsAbout qc view laws t (remove_team qc t present)
  unfolding remove_team
  remove_team-IsAbout t present =
      if-IsAbout qc view laws t present _ (delete_team qc t false)
        (query-IsAbout qc view laws t (qc.get_team_members t) (unread qc t) (unbind qc t)
          (laws.members t) (unread-IsAbout t) (unbind-IsAbout t))
        (delete_team-IsAbout t false)

  deprovision_team-IsAbout :
      (t : Text) (present : Bool) → IsAbout qc view laws t (deprovision_team qc t present)
  unfolding deprovision_team
  deprovision_team-IsAbout t present =
      then_step-IsAbout qc view laws t
        (query qc.list_prototypes (failed t)
          (λ prototypes. drop_prototype qc t (find_team_prototype prototypes t)))
        (remove_team qc t present)
        (query-IsAbout qc view laws t qc.list_prototypes (failed t)
          (λ prototypes. drop_prototype qc t (find_team_prototype prototypes t)) laws.prototypes
          (failed-IsAbout qc view laws t)
          (λ prototypes. drop_prototype-IsAbout t (find_team_prototype prototypes t)))
        (remove_team-IsAbout t present)

  pub deprovision_step-IsAbout :
      (org : Organization) (teams : Dict Team) (t : Text)
      → IsAbout qc view laws t (deprovision_step qc org teams t)
  unfolding deprovision_step
  deprovision_step-IsAbout org teams t =
      if-IsAbout qc view laws t _ skip _ (skip-IsAbout qc view laws t) (
        then_step-IsAbout qc view laws t (deprovision_team qc t _) (release_key t)
          (deprovision_team-IsAbout t _) (release_key-IsAbout t))

  pub claimed_step-IsAbout :
      (org : Organization) (t : SyncedTeam) (existing : Option Team) (owned : Bool)
      → IsAbout qc view laws t.name (claimed_step qc org t existing owned)
  unfolding claimed_step heal
  claimed_step-IsAbout org t existing owned =
      then_step-IsAbout qc view laws t.name (heal qc org t existing owned)
        (then_step (ensure_team_upserted qc org t existing owned org.is_ready) (
          then_step (claim_key t.name)
            (ensure_team_sync_and_prototype qc t (owned || is_ours org existing) org.is_ready)))
        (if-IsAbout qc view laws t.name (not owned && is_ours org existing) (claim_key t.name) skip
          (claim_key-IsAbout t.name) (skip-IsAbout qc view laws t.name))
        (then_step-IsAbout qc view laws t.name
          (ensure_team_upserted qc org t existing owned org.is_ready)
          (then_step (claim_key t.name)
            (ensure_team_sync_and_prototype qc t (owned || is_ours org existing) org.is_ready))
          (ensure_team_upserted-IsAbout qc view laws t org existing owned org.is_ready)
          (then_step-IsAbout qc view laws t.name (claim_key t.name)
            (ensure_team_sync_and_prototype qc t (owned || is_ours org existing) org.is_ready)
            (claim_key-IsAbout t.name)
            (ensure_team_sync_and_prototype-IsAbout qc view laws t (owned || is_ours org existing)
              org.is_ready)))
