-- ===== src/Fga/Tuples.antt =====
-- internal/fga/tuples.go: the tuples that stand for an account and its owner.
pub mod Laws
use security_operator.Prelude.{
  String, Bool, List, [], ◌∷◌, ◌++◌, Error, Result, ok, err, crash, fail, ◌==◌, ◌&&◌, ◌||◌, not,
  if◌then◌else◌,
}
use security_operator.Prelude.Text.{concat, contains, replace_all}
use security_operator.Prelude.Text
use security_operator.Api.{Tuple}
use security_operator.Fga.Service.{ReadKey}

pub record BaseTuplesInput : Type 0 where
  pub creator : String
  pub account_origin_cluster_id : String
  pub account_name : String
  pub creator_relation : String
  pub object_type : String

pub record InitialTuplesForAccountInput : Type 0 where
  pub base : BaseTuplesInput
  pub parent_origin_cluster_id : String
  pub parent_name : String
  pub parent_relation : String

-- Colons become dots.
unfoldable pub format_user : String → String
format_user user = replace_all user b':' "."

unfoldable pub render_account_entity : String → String → String → String
render_account_entity object_type origin_cluster_id name =
    concat (object_type ∷ ":" ∷ origin_cluster_id ∷ "/" ∷ name ∷ [])

unfoldable pub render_creator_user : String → String
render_creator_user creator = concat ("user:" ∷ format_user creator ∷ [])

unfoldable pub render_role_prefix : String → String → String → String
render_role_prefix object_type origin_cluster_id name =
    concat ("role:" ∷ object_type ∷ "/" ∷ origin_cluster_id ∷ "/" ∷ name ∷ "/" ∷ [])

unfoldable pub render_owner_role : String → String → String → String
render_owner_role object_type origin_cluster_id name =
    concat (render_role_prefix object_type origin_cluster_id name ∷ "owner" ∷ [])

unfoldable pub render_owner_role_assignee_group : String → String → String → String
render_owner_role_assignee_group object_type origin_cluster_id name =
    concat (render_role_prefix object_type origin_cluster_id name ∷ "owner#assignee" ∷ [])

-- The creator is assigned the owners' role of the account.
abbrev pub creator_tuple : BaseTuplesInput → Tuple
creator_tuple i = record {
  user = render_creator_user i.creator;
  relation = "assignee";
  object = render_owner_role i.object_type i.account_origin_cluster_id i.account_name;
}

-- Who has the owners' role has the creator's relation to the account.
abbrev pub group_tuple : BaseTuplesInput → Tuple
group_tuple i = record {
  user = render_owner_role_assignee_group i.object_type i.account_origin_cluster_id i.account_name;
  relation = i.creator_relation;
  object = render_account_entity i.object_type i.account_origin_cluster_id i.account_name;
}

abbrev pub parent_tuple : InitialTuplesForAccountInput → Tuple
parent_tuple i = record {
  user = render_account_entity i.base.object_type i.parent_origin_cluster_id i.parent_name;
  relation = i.parent_relation;
  object =
      render_account_entity i.base.object_type i.base.account_origin_cluster_id i.base.account_name;
}

unfoldable pub base_tuples : BaseTuplesInput → Result (List Tuple)
base_tuples i =
    if i.creator == ""
    then err (fail "account creator is empty")
    else ok (creator_tuple i ∷ group_tuple i ∷ [])

unfoldable pub initial_tuples_for_account : InitialTuplesForAccountInput → Result (List Tuple)
unfolding base_tuples
initial_tuples_for_account i = elim (base_tuples i.base) [
  | ok base ↦ ok (base ++ parent_tuple i ∷ [])
  | err e ↦ err e
  | crash s ↦ crash s
]

unfoldable pub tuples_for_organization : BaseTuplesInput → Result (List Tuple)
unfolding base_tuples
tuples_for_organization i = base_tuples i

unfoldable pub is_tuple_of_account_filter : String → Tuple → Bool
is_tuple_of_account_filter generated_cluster_id t =
    not (generated_cluster_id == "")
    && (contains t.object generated_cluster_id || contains t.user generated_cluster_id)

unfoldable pub referencing_account_tuple_key : String → String → String → ReadKey
unfolding render_account_entity
referencing_account_tuple_key object_type account_origin_cluster_id account_name = record {
  object = render_account_entity object_type account_origin_cluster_id account_name;
  relation = "";
  user = "";
}

unfoldable pub referencing_owner_role_tuple_key : String → String → String → ReadKey
unfolding render_owner_role
referencing_owner_role_tuple_key object_type account_origin_cluster_id account_name = record {
  object = render_owner_role object_type account_origin_cluster_id account_name;
  relation = "";
  user = "";
}
