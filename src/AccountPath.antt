-- ===== src/AccountPath.antt =====
-- internal/platformmesh/account_path.go: workspace paths below root:orgs.
pub mod Laws
use security_operator.Prelude.{
  String, Bool, List, [], ◌∷◌, Option, none, some, Result, ok, err, crash, fail, ◌&&◌, ◌==◌, ◌≡◌,
  false, true, if◌then◌else◌, length, nat_eq,
}
use security_operator.Prelude.Text.{split, join}
use security_operator.Kube.{LogicalCluster}

-- github.com/kcp-dev/logicalcluster, as a parameter: `P` is its type of paths.
pub record PathLib (P : Type 0) : Type 0 where
  pub new_path : String → P
  pub to_string : P → String
  pub is_valid : String → Bool
  pub base : P → String
  pub parent : P → P × Bool

-- A path made from a text is written as that text.
pub record PathLaws {P : Type 0} (lib : PathLib P) : Type 0 where
  pub to_string-new_path : (value : String) → lib.to_string (lib.new_path value) ≡ value

-- The test of the parts: more than two of them, of which the first are root and orgs.
abbrev pub is_below_orgs : List String → Bool
is_below_orgs (a ∷ b ∷ c ∷ rest) = a == "root" && b == "orgs"
is_below_orgs _ = false

-- parts[:3]
abbrev pub first_three : List String → Result (List String)
first_three (a ∷ b ∷ c ∷ rest) = ok (a ∷ b ∷ c ∷ [])
first_three _ = crash "slice bounds out of range"

module _ {P : Type 0} (lib : PathLib P) where
  unfoldable pub is_platform_mesh_account_path : String → Bool
  is_platform_mesh_account_path value = lib.is_valid value && is_below_orgs (split value b':')

  unfoldable pub new_account_path : String → Result P
  unfolding is_platform_mesh_account_path
  new_account_path value =
      if is_platform_mesh_account_path value
      then ok (lib.new_path value)
      else err (fail "not a valid platform mesh path")

  unfoldable pub new_account_path_from_logical_cluster : LogicalCluster → Result P
  unfolding new_account_path
  new_account_path_from_logical_cluster lc = elim lc.path [
    | none ↦ err (fail "LogicalCluster does not contain the path annotation")
    | some p ↦ new_account_path p
  ]

  unfoldable pub is_org : P → Bool
  is_org a = nat_eq (length (split (lib.to_string a) b':')) 3

  abbrev joined : Result (List String) → Result P
  joined (ok parts) = ok (lib.new_path (join parts ":"))
  joined (err e) = err e
  joined (crash s) = crash s

  unfoldable pub org : P → Result P
  org a = joined (first_three (split (lib.to_string a) b':'))
