-- ===== src/Config.antt =====
-- internal/config/config.go: names of clusters across providers.
use security_operator.Prelude.{String, [], ◌∷◌}
use security_operator.Prelude.Text.{concat}

abbrev pub core_provider_name : String
core_provider_name = "core"

abbrev pub system_provider_name : String
system_provider_name = "system"

abbrev pub provider_separator : String
provider_separator = "#"

abbrev pub multi_provider_name : String → String → String
multi_provider_name provider_name cluster_name =
    concat (provider_name ∷ provider_separator ∷ cluster_name ∷ [])

abbrev pub orgs_cluster_path : String
orgs_cluster_path = "root:orgs"

-- The names of the initializer and of the terminator, which are the same text.
abbrev pub initializer_name : String → String → String
initializer_name workspace_path workspace_type_name =
    concat (workspace_path ∷ ":" ∷ workspace_type_name ∷ [])

abbrev pub terminator_name : String → String → String
terminator_name workspace_path workspace_type_name =
    concat (workspace_path ∷ ":" ∷ workspace_type_name ∷ [])
