-- ===== src/Authenticator.antt =====
-- internal/authenticator and internal/controller/authenticator: the ext_authz service that maps
-- OIDC tokens to Kubernetes impersonation headers, and the reconciler that configures it.
pub mod Claims
pub mod Mapping
pub mod KeySet
pub mod Identity
pub mod Entry
pub mod Store
pub mod TokenManager
pub mod Credentials
pub mod Headers
pub mod Server
pub mod Backend
