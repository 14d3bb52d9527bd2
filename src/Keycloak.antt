-- ===== src/Keycloak.antt =====
-- internal/controller/keycloak: the controllers that keep a Keycloak realm as the resources say.
pub mod Membership
pub mod Resource
pub mod Peers
pub mod Status
pub mod Resolve
pub mod Finalize
pub mod Links
pub mod Reconcile
