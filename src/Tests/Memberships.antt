-- ===== src/Tests/Memberships.antt =====
-- One GroupMembership "team/devs" in its own namespace, reconciled against the realm of Members.
use holos_substrate.Base.{◌≡◌, ◌⊎◌, refl, true, false, none, some, List, [], ◌∷◌, ok}
use holos_substrate.Base.Text.{Text, text}
use holos_substrate.Base.Int.{pos}
use holos_substrate.Shared.{Condition}
use holos_substrate.Keycloak.Resource.{Reference, GroupMembership, World, Outcome}
use holos_substrate.Keycloak.Reconcile.{reconcile, reconcile_found}
use holos_substrate.Keycloak.Reconcile.Safe.{MayEdit, reconcile-MayEdit}
use holos_substrate.Tests.Members.{Realm, client, find_user, groups_of, without, is_edge}

abbrev team : Text
team = text "team"

abbrev instance_ref : Reference
instance_ref = record { name = text "main"; namespace = [] }

abbrev devs : GroupMembership
devs = record {
  namespace = team;
  name = text "devs";
  generation = pos 1;
  deleting = false;
  finalizers = text "membership.keycloak.holos.run/finalizer" ∷ [];
  spec = record {
    instance_ref = instance_ref;
    group_ref = record { name = text "dev"; namespace = [] };
    members = text "b@x" ∷ [];
    deletion_policy = [];
  };
  status = record {
    conditions = [];
    observed_generation = pos 0;
    group_id = text "dev";
    managed_members = record { email = text "a@x"; user_id = text "a" } ∷ [];
    last_validated_time = none;
    last_mutated_time = none;
    last_mutation_reason = [];
    last_drift_time = none;
  };
}

abbrev ready : List Condition
ready =
    record {
      condition_type = text "Ready";
      status = text "True";
      reason = [];
      message = [];
      observed_generation = pos 1;
    }
    ∷ []

abbrev world : World Realm
world = record {
  get = ok devs;
  get_instance = λ _ _. ok (record {
    generation = pos 1;
    conditions = ready;
    url = [];
    realm = [];
    ca_bundle = [];
    credentials_secret_ref = [];
  });
  get_group = λ _ _. ok (record {
    namespace = team;
    name = text "dev";
    generation = pos 1;
    conditions = ready;
    instance_ref = instance_ref;
    path = text "/dev";
  });
  list_grants = λ _. ok [];
  list_memberships = λ _. ok [];
  resolve_credential = λ _. ok [];
  validate_ca_bundle = λ _. none;
  new_client = λ _ _ _ _. client;
  update = λ _. none;
  patch_status = λ _. none;
  set_status_condition = λ conditions _. (conditions, true);
  print = λ _. [];
  now = pos 9;
}

abbrev realm : Realm
realm = (text "a", text "dev") ∷ []

abbrev outcome : Outcome Realm
outcome = reconcile_found world (record { realm = realm; membership = devs; events = [] })

test_realm : outcome.1.realm ≡ (text "b", text "dev") ∷ []
unfolding reconcile_found client find_user groups_of without is_edge
test_realm = refl

test_managed :
    outcome.1.membership.status.managed_members
    ≡ record { email = text "b@x"; user_id = text "b" } ∷ []
unfolding reconcile_found client find_user groups_of
test_managed = refl

test_reconcile : reconcile world realm ≡ ok (some (outcome.0, outcome.1))
unfolding reconcile
test_reconcile = refl

reconcile-MayEdit_example : (outcome.1.realm ≡ realm) ⊎ MayEdit world devs
reconcile-MayEdit_example =
    reconcile-MayEdit world realm devs outcome.0 outcome.1 refl test_reconcile
