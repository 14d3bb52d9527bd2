-- ===== src/Lib.antt =====
-- Holos Substrate: the authorizer that lets OIDC users into Kubernetes API servers, the grants that
-- let a reference cross namespaces, and the controllers of
-- Keycloak group memberships and of the synchronised teams of a Quay organization.
--
-- The authorizer (cmd/holos-authenticator) is one process of two parts that share a store. The
-- reconciler of internal/controller/authenticator turns Backend resources into entries of the
-- store, keyed by host. The ext_authz handler of internal/authenticator answers Envoy: it finds the
-- entry of the request's host, validates the bearer token, maps its claims to a user and groups,
-- resolves the privileged credential of an impersonator and returns the headers that make the API
-- server act as the user, or as the target that an entitled actor names. The groups travel in one
-- joined header that a Lua filter, given in docs/runbooks/holos-authenticator.md, splits again.
--
-- Base: Go's strings (lists of code points), maps (association lists, whose order is one iteration
-- order), integers, errors, and the functions of strings and sort that the code calls. Letter case
-- is that of ASCII. Integers are unbounded: the code only subtracts times and compares.
-- Grant: internal/referencegrant/authorize.go with the types of api/security/v1alpha1. Authorize:
-- what the decision means.
-- Authenticator: the authorizer.
-- - Claims (Reading, Extra) and Identity (Resolved): internal/authenticator/authenticator.go, that
--   is stringClaim, optionalStringClaim, resolveExtra, Authenticate, ResolveImpersonationExtra.
-- - Mapping (Strings): internal/authenticator/mapping.go. The calls of cel-go are the record Cel, a
--   CEL value is a RefVal, and the text of an evaluation error is what the code searches.
-- - KeySet (Bound; Verify with Called, Sound, Refresh; Discover with Trusted):
--   internal/authenticator/oidc.go, that is reduceJWKS, hardenedKeySet.VerifySignature with
--   tryRefresh, StaticVerifier and DiscoverVerifier. A Moment is what one call meets outside: the
--   clock before and after a fetch and the answers to GET. go-jose's parsed token is a Jws, which
--   holds its protected headers and the verification by one key; go-oidc's discovery and the
--   decoding of JSON are fields of Oidc. A refetch holds its lock, so it is one step.
-- - Entry and Store (Maps, Coherent, Ownership, Settled, Converge): internal/authenticator/store.go.
--   Its mutex makes each operation one step, so an interleaving is a list of operations.
-- - TokenManager (Rotation, Calls): internal/authenticator/token_manager.go. The cache is passed
--   along; a call takes what it meets outside as a Call: two readings of the clock and the answers
--   of the TokenRequest API. The product with the floating fraction 0.2 is a parameter, of which
--   IsFraction says what the proofs need. The mutex is held over a mint, so a call is one step.
-- - Credentials (Sources): internal/authenticator/credentials.go, with the API server's reader as a
--   parameter.
-- - Headers (Groups, Extras, Names) and Server (Decision, Values, Upstream, Order):
--   internal/authenticator/server.go. The early returns of Check are the err of a Result whose errors are denials; admit, act, respond and
--   delegate are its consecutive parts.
-- - Backend (Resource, Conditions, Registration, Effect, Status, Sharing):
--   internal/controller/authenticator/backend_controller.go and conditions.go. The libraries
--   (url.Parse, meta.SetStatusCondition, OIDC discovery, the static
--   key set, the status write behind its retry on conflict, fmt's %q) are fields of World.
-- Shared: internal/controller/shared/status.go, GenerationReady and MutationStamp.
-- Keycloak: the GroupMembership controller of cmd/holos-controller, which keeps the members of a
-- Keycloak group as a resource says.
-- - Membership (Laws, Edits, Outcome, Managed, Converged, Pruned, Complete): reconcileMembers of
--   internal/controller/keycloak/membership_controller.go. The realm is an opaque state that each
--   call of MembershipClient takes and returns, so a failed call may have had its effect; Laws says
--   what the proofs need of it. The Go map is a list in one iteration order.
-- - Resource: the resource of api/keycloak/v1alpha1/groupmembership_types.go, and World, the API
--   server and the libraries as one reconciliation finds them: PatchStatus, resolveCredential and
--   ValidateCABundle are outcomes in it, and the list of memberships is read again for each email.
--   Peers: the references and peerStillDesires. Status: the
--   endings, with internal/controller/keycloak/conditions.go. Resolve: resolveInstance and
--   resolveGroup. Finalize (Released): reconcileDelete. Reconcile (Granted, Safe): Reconcile and
--   reconcileNormal.
-- - Links (Kept, Linked): reconcileIdentityProviderLink of
--   internal/controller/keycloak/user_controller.go. IsFederation says what the proofs need of the links in the realm.
-- Quay: Teams (About; Sync with Single, Safe) is internal/controller/quay/teams.go, which
-- synchronises the teams of an Organization. The registry is an opaque state, as the realm is;
-- IsRegistry says what the proofs need of it. Teams has the steps, Sync is reconcileSyncedTeams.
-- Marker (Described) is the owner marker in the description of a repository, of
-- internal/controller/quay/repository_controller.go.
-- Tests: concrete inputs on which the definitions run and the results apply.
--
-- No definition uses fuel: every loop of the code runs over a list or counts up to a known size.
--
-- Not modelled: logging, which does not take part in a decision; the life cycle of the gRPC server
-- and of the controller manager; oidcVerifier.Verify, which only calls go-oidc; AuthorizerNamespace,
-- which reads the environment; the rest of repository_controller.go and of user_controller.go, which
-- call what Marker and Links have; the other controllers of internal/controller/keycloak and
-- internal/controller/quay; SetupWithManager and the other mappings of watch events, which say when
-- a reconciliation runs; the REST clients (internal/keycloak, internal/quay).
pub mod Base
pub mod Grant
pub mod Authenticator
pub mod Shared
pub mod Keycloak
pub mod Quay
mod Tests
