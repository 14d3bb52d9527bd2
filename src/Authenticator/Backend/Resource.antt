-- ===== src/Authenticator/Backend/Resource.antt =====
-- The Backend resource of api/authenticator/v1alpha1/backend_types.go and what a reconciliation
-- works on.
use holos_substrate.Base.{Bool, Option, List, ◌∷◌, ◌++◌, Result}
use holos_substrate.Base.Text.{Text, text}
use holos_substrate.Base.Int.{ℤ}
use holos_substrate.Authenticator.Claims.{ExtraMapping}
use holos_substrate.Authenticator.Mapping.{Cel, MapperError}
use holos_substrate.Authenticator.Identity.{TokenVerifier}
use holos_substrate.Authenticator.Entry.{SecretReference, ServiceAccountReference}
use holos_substrate.Authenticator.Store.{Store}
use holos_substrate.Authenticator.Headers.{HeaderError}

pub record OidcSpec : Type 0 where
  pub issuer_url : Text
  pub client_id : Text
  pub ca_bundle : Text
  pub jwks : Text
  pub username_claim : Text
  pub username_prefix : Text
  pub groups_claim : Text
  pub groups_prefix : Text
  pub uid_claim : Text
  pub extra : List ExtraMapping

pub record ImpersonationSpec : Type 0 where
  pub groups : List Text
  pub extra : List ExtraMapping

pub record BackendSpec : Type 0 where
  pub host : Text
  pub server_url : Text
  pub server_ca_bundle : Text
  pub oidc : OidcSpec
  pub cel_expression : Text
  pub credentials_secret_ref : Option SecretReference
  pub service_account_ref : Option ServiceAccountReference
  pub groups_header_separator : Text
  pub impersonation : Option ImpersonationSpec

pub data Reason : Type 0 where
  reconciled invalid_spec credentials_not_found discovery_failed host_conflict : Reason

pub data ConditionType : Type 0 where
  accepted programmed ready : ConditionType

pub record Condition : Type 0 where
  pub condition_type : ConditionType
  pub status : Bool
  pub reason : Reason
  pub message : Text
  pub observed_generation : ℤ

pub record Backend : Type 0 where
  pub namespace : Text
  pub name : Text
  pub generation : ℤ
  pub deleting : Bool
  pub spec : BackendSpec
  pub conditions : List Condition
  pub observed_generation : ℤ

pub data WriteError : Type 0 where
  not_found : WriteError
  failed : Text → WriteError

pub data EventType : Type 0 where
  normal warning : EventType

pub record Event : Type 0 where
  pub event_type : EventType
  pub reason : Reason
  pub message : Text

-- `set_status_condition` is `meta.SetStatusCondition`; `url_parse` gives the scheme and the host;
-- `write` is the status update behind its retry on conflict; `print` puts an error into words.
pub record World : Type 1 where
  pub cel : Cel
  pub quote : Text → Text
  pub set_status_condition : List Condition → Condition → List Condition × Bool
  pub url_parse : Text → Result Text (Text × Text)
  pub static_verifier : Text → Text → Text → Result Text TokenVerifier
  pub discover : Text → Text → Text → Result Text TokenVerifier
  pub write : Backend → Option WriteError
  pub print_mapper_error : MapperError → Text
  pub print_header_error : HeaderError → Text

pub record Run : Type 0 where
  pub store : Store
  pub backend : Backend
  pub events : List Event
  pub writes : List Backend

-- The error that Reconcile returns, which requeues the request.
abbrev pub Outcome : Type 0
Outcome = Option Text × Run

unfoldable pub object_key : Text → Text → Text
object_key namespace name = namespace ++ text "/" ++ name

unfoldable pub with_conditions : List Condition → Backend → Backend
with_conditions conditions b = record {
  namespace = b.namespace;
  name = b.name;
  generation = b.generation;
  deleting = b.deleting;
  spec = b.spec;
  conditions = conditions;
  observed_generation = b.observed_generation;
}

unfoldable pub stamped : Backend → Backend
stamped b = record {
  namespace = b.namespace;
  name = b.name;
  generation = b.generation;
  deleting = b.deleting;
  spec = b.spec;
  conditions = b.conditions;
  observed_generation = b.generation;
}

unfoldable pub on_store : (Store → Store) → Run → Run
on_store f r = record {
  store = f r.store;
  backend = r.backend;
  events = r.events;
  writes = r.writes;
}

unfoldable pub on_backend : (Backend → Backend) → Run → Run
on_backend f r = record {
  store = r.store;
  backend = f r.backend;
  events = r.events;
  writes = r.writes;
}

unfoldable pub emit : Event → Run → Run
emit e r = record { store = r.store; backend = r.backend; events = e ∷ r.events; writes = r.writes }

unfoldable pub written : Run → Run
written r = record {
  store = r.store;
  backend = r.backend;
  events = r.events;
  writes = r.backend ∷ r.writes;
}
