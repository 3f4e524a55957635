-- ===== src/Tests.antt =====
-- Concrete worlds for the parameters of the model, tests, and instances of the theorems.
pub mod Memory
mod Fga
mod Tuples
mod Accounts
mod Stores
mod Policies
mod Idp
mod Invites
mod Models
mod Registrations
mod Admission
mod AuthorizationModels
mod Workspaces
mod Converging
mod Keycloak
mod Realms
mod Controllers
mod Bootstrap
mod Creators
