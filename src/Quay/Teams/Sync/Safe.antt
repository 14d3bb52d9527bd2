-- ===== src/Quay/Teams/Sync/Safe.antt =====
-- Which teams of the organization `reconcileSyncedTeams` touches.
use holos_substrate.Base.{
  ◌≡◌, ◌⊎◌, inl, inr, refl, sym, subst, ◌∙◌, Bool, true, false, Option, none, some, List, [], ◌∷◌,
  arith, ok, Bool-cases, clash, Option-cases, Result-cases, Has, here, there, some_of-of-Has,
}
use holos_substrate.Base.Text.{Text, ◌==◌, ==_iff, ==-self, has_prefix}
use holos_substrate.Base.Dict.{Dict, lookup}
use holos_substrate.Base.Loop.{each, each-keeps, then_step-keeps}
use holos_substrate.Quay.Teams.{
  Team, TeamClient, SyncedTeam, Organization, TeamSync, Step, managed_team_prefix,
  managed_team_marker, carries_foreign_marker, is_key, keys_of, is_ours,
}
use holos_substrate.Quay.Teams.About.{IsRegistry, AboutTeam, IsAbout, is_key-put}
use holos_substrate.Quay.Teams.Sync.{
  start, claim_error, deprovision_step, claimed_step, team_step, sync_listed,
  reconcile_synced_teams,
}
use holos_substrate.Quay.Teams.Sync.Single.{deprovision_step-IsAbout, claimed_step-IsAbout}

-- What lets the resource have a team of its spec that it does not record as managed: there is none
-- yet, or it carries this resource's marker, or the spec adopts it and it carries no other marker.
pub data Claimable (org : Organization) (t : SyncedTeam) (existing : Option Team) : Type 0 where
  absent : existing ≡ none → Claimable org t existing
  marked :
      (team : Team)
      → existing ≡ some team
      → team.description ≡ managed_team_marker org
      → Claimable org t existing
  adopted :
      (team : Team)
      → existing ≡ some team
      → t.adopt ≡ true
      → has_prefix team.description managed_team_prefix ≡ false
      → Claimable org t existing

claim_error-Claimable :
    (org : Organization) (t : SyncedTeam) (existing : Option Team)
    → claim_error org t existing false ≡ none
    → Claimable org t existing
unfolding claim_error carries_foreign_marker is_ours
claim_error-Claimable org t none h = absent refl
claim_error-Claimable org t (some team) h =
    elim (Bool-cases (team.description == managed_team_marker org)) [
      | inl e ↦ marked team refl ((==_iff team.description (managed_team_marker org)).0 e)
      | inr e ↦ elim (Bool-cases (has_prefix team.description managed_team_prefix)) [
        | inl p ↦ ground arith
        | inr p ↦ adopted team refl (ground arith) p
      ]
    ]

-- The resource may touch the team: it records the team as managed, or may claim it for its spec.
pub data MayTouch (org : Organization) (teams : Dict Team) (n : Text) : Type 0 where
  recorded : Has n org.managed_teams → MayTouch org teams n
  claimed :
      (t : SyncedTeam)
      → Has t org.synced_teams
      → t.name ≡ n
      → Claimable org t (lookup n teams)
      → MayTouch org teams n

Has-keys_of : (names : List Text) (n : Text) → is_key n (keys_of names) ≡ true → Has n names
unfolding keys_of is_key
Has-keys_of [] n h = cc
Has-keys_of (m ∷ names) n h = elim (Bool-cases (m == n)) [
  | inl e ↦ here (sym ((==_iff m n).0 e))
  | inr e ↦ there (
      Has-keys_of names n
        (is_key-put m n (keys_of names) (λ q. clash (m == n) ((==_iff m n).1 (sym q)) e) h))
]

is_key-of-Has : (names : List Text) {n : Text} → Has n names → is_key n names ≡ true
unfolding is_key
is_key-of-Has names {n} m = some_of-of-Has (λ (k : Text). k == n) names m (==-self n)

module _ {S : Type 0} {V : Type 0} (qc : TeamClient S) (view : S → Text → V)
    (laws : IsRegistry qc view) (org : Organization) (teams : Dict Team) (before : S) where
  -- What has changed may be touched, and so may what is managed.
  Inv : TeamSync S → Type 0
  Inv at =
      ((n : Text) → (view at.registry n ≡ view before n) ⊎ MayTouch org teams n)
      × ((n : Text) → is_key n at.managed ≡ true → MayTouch org teams n)

  step-Inv :
      (t : Text) (f : Step S)
      → IsAbout qc view laws t f
      → MayTouch org teams t
      → (at : TeamSync S) → Inv at
      → Inv (f at).1
  unfolding Inv AboutTeam
  step-Inv t f about may at (seen, known) = (
    λ n. elim (Bool-cases (n == t)) [
      | inl e ↦ inr (subst (MayTouch org teams) (sym ((==_iff n t).0 e)) may)
      | inr e ↦
          let (p, q) = about at n (λ d. clash (n == t) ((==_iff n t).1 d) e) in
          elim (seen n) [ inl k ↦ inl (p ∙ k) | inr k ↦ inr k ]
    ],
    λ n h. elim (Bool-cases (n == t)) [
      | inl e ↦ subst (MayTouch org teams) (sym ((==_iff n t).0 e)) may
      | inr e ↦ let (p, q) = about at n (λ d. clash (n == t) ((==_iff n t).1 d) e) in known n (q h)
    ],
  )

  team_step-Inv :
      (t : SyncedTeam)
      → Has t org.synced_teams
      → (at : TeamSync S) → Inv at
      → Inv (team_step qc org teams t at).1
  unfolding team_step Inv
  team_step-Inv t m at inv =
      let existing = lookup t.name teams in
      let owned = is_key t.name at.managed in
      elim (Option-cases (claim_error org t existing owned)) [
        | inr (e, q) ↦
            let same : at ≡ (team_step qc org teams t at).1 = ground arith in subst Inv same inv
        | inl q ↦
            let may : MayTouch org teams t.name = elim (Bool-cases owned) [
              | inl o ↦ inv.1 t.name o
              | inr o ↦ claimed t m refl (
                  claim_error-Claimable org t existing
                    (subst (λ (b : Bool). claim_error org t existing b ≡ none) o q))
            ] in
            let same : (claimed_step qc org t existing owned at).1
                ≡ (team_step qc org teams t at).1 =
              ground arith in
            subst Inv same (
              step-Inv t.name (claimed_step qc org t existing owned)
                (claimed_step-IsAbout qc view laws org t existing owned) may at inv)
      ]

  sync_listed-Inv :
      (sync : TeamSync S)
      → ((n : Text) → Has n sync.managed → MayTouch org teams n)
      → Inv sync
      → Inv (sync_listed qc org teams sync).1
  unfolding sync_listed
  sync_listed-Inv sync known inv =
      then_step-keeps Inv (each (deprovision_step qc org teams) sync.managed)
        (each (team_step qc org teams) org.synced_teams) sync
        (λ at i.
          each-keeps Inv (deprovision_step qc org teams) sync.managed at
            (λ n m.
              step-Inv n (deprovision_step qc org teams n)
                (deprovision_step-IsAbout qc view laws org teams n) (known n m))
            i)
        (λ at i. each-keeps Inv (team_step qc org teams) org.synced_teams at team_step-Inv i) inv

  start-MayTouch : (n : Text) → is_key n (keys_of org.managed_teams) ≡ true → MayTouch org teams n
  start-MayTouch n h = recorded (Has-keys_of org.managed_teams n h)

module _ {S : Type 0} {V : Type 0} (qc : TeamClient S) (view : S → Text → V)
    (laws : IsRegistry qc view) where
  -- `reconcileSyncedTeams`, whether it fails or not, leaves a team of the organization as it is,
  -- unless the status records the team as managed, or the spec has it and, when the teams were
  -- listed, it was absent, carried this resource's marker, or carried no resource's marker while the
  -- spec adopts it.
  pub reconcile_synced_teams-MayTouch :
      (org : Organization) (registry : S) (n : Text)
      → (view (reconcile_synced_teams qc org registry).1.registry n ≡ view registry n)
        ⊎ ((teams : Dict Team) × ((qc.list_teams registry).0 ≡ ok teams) × MayTouch org teams n)
  unfolding reconcile_synced_teams start Inv
  reconcile_synced_teams-MayTouch org registry n =
      let next = (qc.list_teams registry).1 in
      elim (Result-cases (qc.list_teams registry).0) [
        | inr (x, e) ↦ inl (ground (arith, laws.list_teams registry n))
        | inl (teams, e) ↦
            let inv =
              sync_listed-Inv qc view laws org teams registry (start org next)
                (λ k m.
                  start-MayTouch qc view laws org teams registry k
                    (is_key-of-Has (keys_of org.managed_teams) m))
                (
                  λ k. inl (laws.list_teams registry k),
                  start-MayTouch qc view laws org teams registry,
                ) in
            elim (inv.0 n) [ inl q ↦ inl (ground arith) | inr q ↦ inr (teams, e, q) ]
      ]
