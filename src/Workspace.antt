-- ===== src/Workspace.antt =====
-- internal/subroutine and internal/controller/orglogicalcluster_controller.go: what is set up for
-- the workspace of an organisation.
pub mod Initializer
pub mod CreatorInvite
pub mod Authentication
use security_operator.Prelude.{Bool, List, [], ◌∷◌, ◌++◌, if◌then◌else◌}

pub data Subroutine : Type 0 where
  workspace_initializer idp invite workspace_auth_configuration : Subroutine

pub record InitializerConfig : Type 0 where
  pub workspace_initializer_enabled : Bool
  pub idp_enabled : Bool
  pub invite_enabled : Bool
  pub workspace_auth_enabled : Bool

abbrev enabled : Bool → Subroutine → List Subroutine
enabled b s = if b then s ∷ [] else []

-- The subroutines of a LogicalCluster in their order.
unfoldable pub subroutines_of : InitializerConfig → List Subroutine
subroutines_of cfg =
    enabled cfg.workspace_initializer_enabled workspace_initializer
    ++ enabled cfg.idp_enabled idp
    ++ enabled cfg.invite_enabled invite
    ++ enabled cfg.workspace_auth_enabled workspace_auth_configuration
