-- ===== src/Controllers/Policies.antt =====
-- Which policies are reconciled again, and which apply to all organisations.
use mathlib.Core.Path.{subst}
use security_operator.Prelude.{
  String, List, [], ◌∷◌, ok, ◌≡◌, ◌↔◌, inl, inr, refl, ◌∙◌, ap, eq_iff, true, any, Listed,
  any-Listed, Listed-any, Bool-cases,
}
use security_operator.Prelude.Text.{trim_prefix, strip_prefix, strip_suffix}
use security_operator.Controllers.{Located, Request, is_wildcard, request_of, requests_for}
use security_operator.Subroutine.ApiExportPolicy.{
  parse_allow_expression, orgs_workspace_path, bind_inherited_relation,
}
use security_operator.Subroutine.ApiExportPolicy.Parse.{parse_orgs}

-- An expression that the subroutine of the policies reads as one for all organisations.
abbrev pub IsForAll : String → Type 0
IsForAll expression =
    parse_allow_expression expression ≡ ok (orgs_workspace_path, bind_inherited_relation)

is_wildcard-IsForAll : (expression : String) → is_wildcard expression ≡ true → IsForAll expression
unfolding is_wildcard parse_allow_expression strip_prefix strip_suffix
is_wildcard-IsForAll expression h =
    let trimmed = (eq_iff (trim_prefix expression ":") "root:orgs:*").0 h in rw trimmed refl

IsForAll-is_wildcard : (expression : String) → IsForAll expression → is_wildcard expression ≡ true
unfolding is_wildcard
IsForAll-is_wildcard expression h =
    (eq_iff (trim_prefix expression ":") "root:orgs:*").1
      (parse_orgs expression bind_inherited_relation h).0

-- The request is for a policy of the list that has such an expression.
abbrev pub IsDue : Request → List Located → Type 0
IsDue r ls =
    (l : Located) × Listed l ls
    × (r ≡ request_of l)
    × (e : String) × Listed e l.policy.allow_path_expressions
    × IsForAll e

requests_for-IsDue : (r : Request) (ls : List Located) → Listed r (requests_for ls) → IsDue r ls
unfolding requests_for
requests_for-IsDue r [] h = absurd h
requests_for-IsDue r (l ∷ ls) h =
    elim (Bool-cases (any is_wildcard l.policy.allow_path_expressions)) [
      | inl due ↦ elim (rw due at h) [
        | inl here ↦
            let (e, listed, wild) = any-Listed is_wildcard l.policy.allow_path_expressions due in
            (l, inl refl, here, e, listed, is_wildcard-IsForAll e wild)
        | inr later ↦
            let (k, listed, same, e, inside, wide) = requests_for-IsDue r ls later in
            (k, inr listed, same, e, inside, wide)
      ]
      | inr idle ↦
          let (k, listed, same, e, inside, wide) = requests_for-IsDue r ls (rw idle at h) in
          (k, inr listed, same, e, inside, wide)
    ]

IsDue-requests_for : (r : Request) (ls : List Located) → IsDue r ls → Listed r (requests_for ls)
unfolding requests_for
IsDue-requests_for r [] (l, listed, same, e, inside, wide) = absurd listed
IsDue-requests_for r (l ∷ ls) (k, inl here, same, e, inside, wide) =
    let due : any is_wildcard k.policy.allow_path_expressions ≡ true =
      Listed-any is_wildcard e k.policy.allow_path_expressions inside
        (IsForAll-is_wildcard e wide) in
    let due' : any is_wildcard l.policy.allow_path_expressions ≡ true =
      subst (λ (x : Located). any is_wildcard x.policy.allow_path_expressions ≡ true) here due in
    rw due' (inl (same ∙ ap request_of here))
IsDue-requests_for r (l ∷ ls) (k, inr later, same, e, inside, wide) =
    let rest = IsDue-requests_for r ls (k, later, same, e, inside, wide) in
    elim (Bool-cases (any is_wildcard l.policy.allow_path_expressions)) [
      | inl due ↦ rw due (inr rest)
      | inr idle ↦ rw idle rest
    ]

-- When an organisation has become ready, exactly the policies are reconciled again that have an
-- expression which their own subroutine reads as one for all organisations.
pub requests_for_iff : (r : Request) (ls : List Located) → Listed r (requests_for ls) ↔ IsDue r ls
requests_for_iff r ls = (requests_for-IsDue r ls, IsDue-requests_for r ls)
