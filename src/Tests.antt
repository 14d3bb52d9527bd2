-- ===== src/Tests.antt =====
-- Concrete inputs: one backend at `api.example`, whose tokens are read by a stub verifier.
pub mod Serving
pub mod Access
pub mod Reconciling
pub mod Signing
pub mod Members
pub mod Memberships
pub mod Teams
pub mod Markers
pub mod Links
use holos_substrate.Base.{
  ℕ, Bool, true, false, Option, none, some, List, [], ◌∷◌, Result, ok, err, if◌then◌else◌,
}
use holos_substrate.Base.Text.{Text, text, ◌==◌}
use holos_substrate.Base.Int.{ℤ, pos}
use holos_substrate.Authenticator.Claims.{Claims, ExtraMapping, str}
use holos_substrate.Authenticator.Mapping.{GroupMapper, end, elem, slice, string_val}
use holos_substrate.Authenticator.Identity.{Authenticator}
use holos_substrate.Authenticator.Entry.{Entry}
use holos_substrate.Authenticator.Store.{Store, new_store}
use holos_substrate.Authenticator.TokenManager.{Call}
use holos_substrate.Authenticator.Server.{CheckServer, Request}

abbrev pub alice_claims : Claims
alice_claims = (text "sub", str (text "alice")) ∷ (text "email", str (text "a@x")) ∷ []

abbrev pub email_mapping : ExtraMapping
email_mapping = record { key = text "email"; value_claim = text "email" }

abbrev pub authenticator : Authenticator
authenticator = record {
  verifier = λ raw. ok alice_claims;
  mapper = record {
    expression = text "groups";
    program = λ _. ok (slice (elem (string_val (text "dev")) (elem (string_val (text "ops")) end)));
  };
  username_claim = text "sub";
  username_prefix = text "oidc:";
  uid_claim = [];
  extra = email_mapping ∷ [];
  impersonation_extra = email_mapping ∷ [];
}

abbrev pub entry_at : Text → Entry
entry_at host = record {
  host = host;
  authenticator = authenticator;
  username_claim = text "sub";
  server_url = text "https://kube";
  server_ca_bundle = [];
  credentials_secret_ref = record { name = []; key = [] };
  service_account_ref = none;
  groups_separator = text "|";
  impersonation = some (record { groups = text "ops" ∷ []; extra = email_mapping ∷ [] });
}

abbrev pub api : Entry
api = entry_at (text "api")

abbrev pub serving : Store
serving = record {
  entries = (text "api", api) ∷ [];
  owner_by_host = (text "api", text "a/b") ∷ [];
  host_by_key = (text "a/b", text "api") ∷ [];
}

abbrev pub server : CheckServer
server = record {
  store = serving;
  reader = λ _ _. ok ((text "token", text "imp") ∷ []);
  token_manager = none;
  namespace = text "holos";
  groups_header = text "x-groups";
  quote = λ s. s;
}

abbrev pub call : Call
call = record { read_at = pos 0; minted_at = pos 0; create = λ _ _ _. err (text "no API") }

abbrev pub own_request : Request
own_request = record { host = text "api"; headers = (text "authorization", text "Bearer tok") ∷ [] }
