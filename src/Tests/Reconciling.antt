-- ===== src/Tests/Reconciling.antt =====
-- A valid Backend, reconciled into an empty store.
use holos_substrate.Authenticator.Headers.{validate_groups_separator}
use holos_substrate.Base.Dict.{lookup, insert}
use holos_substrate.Base.{◌≡◌, refl, arith, true, false, none, some, List, [], ◌∷◌, ok, err}
use holos_substrate.Base.Text.{Text, text}
use holos_substrate.Base.Int.{pos}
use holos_substrate.Authenticator.Mapping.{
  Cel, list_kind, string_kind, slice, end, new_group_mapper, default_group_expression,
}
use holos_substrate.Authenticator.Entry.{Entry}
use holos_substrate.Authenticator.Store.{new_store, get, owner, set}
use holos_substrate.Authenticator.Store.Coherent.{IsCoherent, new_store-IsCoherent}
use holos_substrate.Authenticator.Backend.{
  Backend, Condition, ready, World, Run, object_key, reconcile, reconcile_normal,
  validate_server_url, first_bad_extra_key,
}
use holos_substrate.Authenticator.Backend.Registration.{IsEntryOf, reconciled-owner}
use holos_substrate.Authenticator.Backend.Effect.{Effect, reconcile-Effect}
use holos_substrate.Authenticator.Backend.Status.{status_of, SetsStatus, ready-owner}
use holos_substrate.Authenticator.Backend.Sharing.{Listed, backends_sharing_host_iff}
use holos_substrate.Base.{Has, ◌↔◌, ok-injective, Result}
use holos_substrate.Authenticator.Credentials.{ApiError}
use holos_substrate.Authenticator.Backend.{backends_sharing_host}
use holos_substrate.Tests.{alice_claims, email_mapping}

abbrev cel : Cel
cel = record {
  Ast = Text;
  new_env = ok tt;
  compile = λ e. ok e;
  output_type = λ _. some (record { kind = list_kind; parameters = string_kind ∷ [] });
  program = λ _. ok (λ _. ok (slice end));
}

abbrev world : World
world = record {
  cel = cel;
  quote = λ s. s;
  set_status_condition = λ cs c. (c ∷ cs, true);
  url_parse = λ _. ok (text "https", text "kube");
  static_verifier = λ _ _ _. err (text "no keys");
  discover = λ _ _ _. ok (λ _. ok alice_claims);
  write = λ _. none;
  print_mapper_error = λ _. [];
  print_header_error = λ _. [];
}

abbrev backend : Backend
backend = record {
  namespace = text "ns";
  name = text "b";
  generation = pos 1;
  deleting = false;
  spec = record {
    host = text "api";
    server_url = text "https://kube";
    server_ca_bundle = [];
    oidc = record {
      issuer_url = text "https://issuer";
      client_id = text "holos";
      ca_bundle = [];
      jwks = [];
      username_claim = [];
      username_prefix = [];
      groups_claim = [];
      groups_prefix = [];
      uid_claim = [];
      extra = email_mapping ∷ [];
    };
    cel_expression = [];
    credentials_secret_ref = none;
    service_account_ref = none;
    groups_header_separator = [];
    impersonation = none;
  };
  conditions = [];
  observed_generation = pos 0;
}

abbrev other : Backend
other = record backend { name = text "c" }

abbrev begun : Run
begun = record { store = new_store; backend = backend; events = []; writes = [] }

abbrev found : Result ApiError Backend
found = ok backend

asked : (b : Backend) → found ≡ ok b → (b.namespace ≡ text "ns") × (b.name ≡ text "b")
asked b e = rw (← ok-injective e) (refl, refl)

reconcile-Effect_example :
    Effect world
      (object_key (text "ns") (text "b"))
      found
      new_store
      (reconcile world (text "ns") (text "b") found new_store).store
    × IsCoherent (reconcile world (text "ns") (text "b") found new_store).store
reconcile-Effect_example =
    reconcile-Effect world (text "ns") (text "b") found new_store new_store-IsCoherent asked

owns_api :
    owner (text "api") (reconcile world (text "ns") (text "b") (ok backend) new_store).store
    ≡ some (object_key (text "ns") (text "b"))
unfolding reconcile owner lookup new_group_mapper default_group_expression validate_server_url
    validate_groups_separator first_bad_extra_key set insert
owns_api = refl

reconciled-owner_example :
    (text "api" ≡ text "api")
    × ((e : Entry) × IsEntryOf world backend.spec e
        × (get (text "api") (reconcile world (text "ns") (text "b") (ok backend) new_store).store
            ≡ some e))
reconciled-owner_example =
    reconciled-owner world backend new_store (text "api") new_store-IsCoherent refl owns_api

sets : SetsStatus world.set_status_condition
unfolding status_of
sets = record { sets = newest }
  where
    newest :
        (cs : List Condition) (c : Condition) → status_of c.condition_type (c ∷ cs) ≡ some c.status
    newest cs c = ground arith

is_ready : status_of ready (reconcile_normal world begun).1.backend.conditions ≡ some true
unfolding reconcile_normal status_of new_group_mapper default_group_expression validate_server_url
    validate_groups_separator first_bad_extra_key set lookup
is_ready = refl

ready-owner_example :
    owner (text "api") (reconcile_normal world begun).1.store
    ≡ some (object_key (text "ns") (text "b"))
ready-owner_example = ready-owner world begun sets new_store-IsCoherent is_ready

abbrev listing : Result Text (List Backend)
listing = ok (backend ∷ other ∷ [])

backends_sharing_host_iff_example :
    Has (text "ns", text "c") (backends_sharing_host backend listing)
    ↔ ((bs : List Backend) × (listing ≡ ok bs) × Listed backend bs (text "ns", text "c"))
backends_sharing_host_iff_example = backends_sharing_host_iff backend listing (text "ns", text "c")

shared : backends_sharing_host backend listing ≡ (text "ns", text "c") ∷ []
unfolding backends_sharing_host
shared = refl
