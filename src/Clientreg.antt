-- ===== src/Clientreg.antt =====
-- pkg/clientreg: registering OIDC clients at Keycloak, and Keycloak's API for administrators.
pub mod Codec
pub mod Retry
pub mod Client
pub mod Admin
pub mod Oidc
