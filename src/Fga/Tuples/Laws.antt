-- ===== src/Fga/Tuples/Laws.antt =====
-- What the rendered names of internal/fga/tuples.go keep apart, and how a role's name is read back.
use Prim.Native.String.{◌++◌, []}
use text.Mathlib.TextLemmas.{append_assoc, append_cancel_left, cons-append, nil-append}
use security_operator.Prelude.{String, true, some, ◌≡◌, sym, ap, ◌∙◌, arith}
use security_operator.Prelude.Text.{
  Lacks, strip_prefix, strip_prefix-append, strip_suffix-append, has_prefix, trim_suffix,
  replace_all-Lacks, append-sep_injective, is_some,
}
use security_operator.Fga.Tuples.{
  render_account_entity, render_creator_user, format_user, render_role_prefix, render_owner_role,
  render_owner_role_assignee_group,
}

slash_first : (p s : String) → p ++ ("/" ++ s) ≡ p ++ (String.◌∷◌ "/" s)
slash_first p s = rw (cons-append "/" [] s, nil-append s)

-- Under one object type, two accounts whose cluster IDs hold no slash have the same entity only if
-- their cluster IDs and their names are the same.
pub render_account_entity-injective :
    (object_type c c' n n' : String)
    → Lacks b'/' c
    → Lacks b'/' c'
    → render_account_entity object_type c n ≡ render_account_entity object_type c' n'
    → (c ≡ c') × (n ≡ n')
unfolding render_account_entity
render_account_entity-injective object_type c c' n n' hc hc' e =
    append-sep_injective c c' "/" n n' hc hc' (
      sym (slash_first c n)
      ∙ append_cancel_left ":" _ _ (append_cancel_left object_type _ _ e)
      ∙ slash_first c' n')

-- The rendered user of a creator is "user:" and a part without a colon.
pub render_creator_user-Lacks :
    (creator : String)
    → (u : String) × (strip_prefix (render_creator_user creator) "user:" ≡ some u) × Lacks b':' u
unfolding render_creator_user format_user
render_creator_user-Lacks creator =
    (_, strip_prefix-append "user:" _, replace_all-Lacks creator b':' "." (omega arith))

module _ (object_type cluster name : String) where
  -- The group of the owners' role is found by the prefix of the account's roles.
  pub has_prefix-owner_group :
      has_prefix
        (render_owner_role_assignee_group object_type cluster name)
        (render_role_prefix object_type cluster name)
      ≡ true
  unfolding render_owner_role_assignee_group
  has_prefix-owner_group =
      ap is_some
        (strip_prefix-append (render_role_prefix object_type cluster name) "owner#assignee")

  group-eq-append :
      render_owner_role_assignee_group object_type cluster name
      ≡ render_owner_role object_type cluster name ++ "#assignee"
  unfolding render_owner_role_assignee_group render_owner_role
  group-eq-append =
      sym (append_assoc (render_role_prefix object_type cluster name) "owner" "#assignee")

  -- Without "#assignee" the group is the owners' role.
  pub trim_suffix-owner_group :
      trim_suffix (render_owner_role_assignee_group object_type cluster name) "#assignee"
      ≡ render_owner_role object_type cluster name
  trim_suffix-owner_group = rw (
    group-eq-append,
    strip_suffix-append (render_owner_role object_type cluster name) "#assignee",
  )
