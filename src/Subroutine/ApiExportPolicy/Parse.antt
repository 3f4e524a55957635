-- ===== src/Subroutine/ApiExportPolicy/Parse.antt =====
-- What an allow expression means.
use Prim.Native.String.{◌++◌}
use mathlib.Core.Bool.{false≢true}
use security_operator.Prelude.{String, ok, ◌≡◌, ◌⊎◌, inl, inr, arith, true, false}
use security_operator.Prelude.Text.{
  strip_prefix, trim_prefix, has_prefix, has_suffix, strip_suffix_sound,
}
use security_operator.Subroutine.ApiExportPolicy.{
  parse_allow_expression, bind_relation, bind_inherited_relation, orgs_workspace_path,
}

-- An expression that is accepted starts with root:orgs:, after one colon at most. Either it does not
-- end in :*, and then it is the path itself and the relation is bind; or it ends in :*, and then it
-- is the path and :*, and the relation is bind_inherited.
pub parse_sound :
    (expression path relation : String)
    → parse_allow_expression expression ≡ ok (path, relation)
    → (has_prefix (trim_prefix expression ":") "root:orgs:" ≡ true)
      × (((has_suffix (trim_prefix expression ":") ":*" ≡ false)
            × (path ≡ trim_prefix expression ":")
            × (relation ≡ bind_relation))
          ⊎ ((has_suffix (trim_prefix expression ":") ":*" ≡ true)
              × (trim_prefix expression ":" ≡ path ++ ":*")
              × (relation ≡ bind_inherited_relation)))
unfolding parse_allow_expression
parse_sound expression path relation h =
    ground (arith, strip_suffix_sound (trim_prefix expression ":") ":*" path)

-- Only the wildcard on root:orgs reaches all organisations, and its relation is bind_inherited.
pub parse_orgs :
    (expression relation : String)
    → parse_allow_expression expression ≡ ok (orgs_workspace_path, relation)
    → (trim_prefix expression ":" ≡ "root:orgs:*") × (relation ≡ bind_inherited_relation)
parse_orgs expression relation h =
    let (starts, reads) = parse_sound expression orgs_workspace_path relation h in
    elim reads [
      | inl (plain, path, r) ↦ absurd (too_short (rw (← path) at starts))
      | inr (ends, path, r) ↦ (path, r)
    ]
  where
    too_short : has_prefix orgs_workspace_path "root:orgs:" ≡ true → ⊥
    too_short e = unfold strip_prefix in false≢true e
