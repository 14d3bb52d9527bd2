-- ===== src/Tests/Teams.antt =====
-- The theorem about internal/controller/quay/teams.go at a registry that is a map of teams. The
-- organization records "old", and its spec has the new team "dev" and the foreign team "ops".
use holos_substrate.Base.{
  ◌≡◌, ◌≢◌, ◌⊎◌, inl, inr, refl, sym, true, false, Option, none, some, [], ◌∷◌, arith, ok,
  Bool-cases,
}
use holos_substrate.Base.Text.{Text, text, ◌==◌, ==_iff}
use holos_substrate.Base.Dict.{Dict, lookup, insert, erase, lookup-insert, lookup-erase}
use holos_substrate.Quay.Teams.{Team, TeamClient, SyncedTeam, Organization, foreign_team}
use holos_substrate.Quay.Teams.About.{IsRegistry}
use holos_substrate.Quay.Teams.Sync.{reconcile_synced_teams}
use holos_substrate.Quay.Teams.Sync.Safe.{MayTouch, reconcile_synced_teams-MayTouch}

abbrev Registry : Type 0
Registry = Dict Team

unfoldable pub client : TeamClient Registry
client = record {
  list_teams = λ s. (ok s, s);
  upsert_team = λ name role description s.
      (none, insert name (record { role = role; description = description }) s);
  delete_team_if_exists = λ name s. (none, erase name s);
  get_team_members = λ _ s. (ok none, s);
  enable_team_sync = λ _ _ s. (none, s);
  disable_team_sync = λ _ s. (none, s);
  list_prototypes = λ s. (ok [], s);
  create_prototype = λ _ _ s. (none, s);
  update_prototype = λ _ _ s. (none, s);
  delete_prototype_if_exists = λ _ s. (none, s);
}

abbrev view : Registry → Text → Option Team
view s n = lookup n s

differs : (n t : Text) → n ≢ t → (t == n) ≡ false
differs n t d = elim (Bool-cases (t == n)) [
  | inl e ↦ elim (d (sym ((==_iff t n).0 e))) [ ]
  | inr e ↦ e
]

laws : IsRegistry client view
unfolding client
laws = record {
  list_teams = λ s n. refl;
  members = λ t s n. refl;
  prototypes = λ s n. refl;
  created = λ r t s n. refl;
  updated = λ i r s n. refl;
  deleted = λ i s n. refl;
  upserted = λ t r d s n e.
      ground (arith, lookup-insert n t (record { role = r; description = d }) s, differs n t e);
  removed = λ t s n e. ground (arith, lookup-erase n t s, differs n t e);
  enabled = λ t g s n e. refl;
  disabled = λ t s n e. refl;
}

abbrev wanted : Text → SyncedTeam
wanted name = record {
  name = name;
  oidc_group = name;
  role = text "member";
  adopt = true;
  repository_permission = none;
}

abbrev org : Organization
org = record {
  uid = text "1";
  synced_teams = wanted (text "dev") ∷ wanted (text "ops") ∷ [];
  managed_teams = text "old" ∷ [];
  is_ready = true;
}

abbrev team : Text → Team
team description = record { role = text "member"; description = description }

abbrev registry : Registry
registry = (text "old", team []) ∷ (text "ops", team (text "managed by holos-controller 2")) ∷ []

test_teams : reconcile_synced_teams client org registry ≡ (
  some (foreign_team (text "ops")),
  record {
    registry =
        (text "ops", team (text "managed by holos-controller 2"))
        ∷ (text "dev", team (text "managed by holos-controller 1"))
        ∷ [];
    managed = text "dev" ∷ [];
    mutation = record { mutated = true; healed_drift = false };
  },
  text "dev" ∷ [],
)
unfolding reconcile_synced_teams client insert erase
test_teams = refl

reconcile_synced_teams-MayTouch_example :
    (view (reconcile_synced_teams client org registry).1.registry (text "dev")
      ≡ view registry (text "dev"))
    ⊎ ((teams : Dict Team) × ((client.list_teams registry).0 ≡ ok teams)
        × MayTouch org teams (text "dev"))
reconcile_synced_teams-MayTouch_example =
    reconcile_synced_teams-MayTouch client view laws org registry (text "dev")
