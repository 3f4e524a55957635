-- ===== src/Predicates.antt =====
-- internal/predicates: which logical clusters are reconciled.
use security_operator.Prelude.{
  String, Bool, List, [], ◌∷◌, ◌≡◌, sym, ◌∙◌, ap, ◌==◌, ◌&&◌, not, any, arith, eq_iff, true, false,
}
use security_operator.Prelude.Text.{
  split, join, join-split, split-join, split-AllLack, AllLack, Lacks, or_else,
}
use security_operator.Kube.{LogicalCluster}

abbrev three : List String → Bool
three (a ∷ b ∷ c ∷ []) = a == "root" && b == "orgs"
three parts = false

-- A path that is not annotated is read as the empty one.
unfoldable pub is_account_type_org : LogicalCluster → Bool
is_account_type_org lc = three (split (or_else lc.path "") 58)

unfoldable pub should_reconcile : String → LogicalCluster → Bool
should_reconcile initializer lc =
    any (λ x. x == initializer) lc.initializers
    && not (any (λ x. x == initializer) lc.status_initializers)

three_sound :
    (parts : List String)
    → three parts ≡ true
    → AllLack 58 parts
    → (name : String) × Lacks 58 name × (parts ≡ "root" ∷ "orgs" ∷ name ∷ [])
three_sound [] h lacks = cc
three_sound (a ∷ []) h lacks = cc
three_sound (a ∷ b ∷ []) h lacks = cc
three_sound (a ∷ b ∷ c ∷ []) h lacks =
    (c, lacks.1.1.0, ground (arith, eq_iff a "root", eq_iff b "orgs"))
three_sound (a ∷ b ∷ c ∷ d ∷ parts) h lacks = cc

three-Lacks : (name : String) → Lacks 58 name → AllLack 58 ("root" ∷ "orgs" ∷ name ∷ [])
unfolding split
three-Lacks name h =
    ((split-AllLack "root:orgs" 58).0, ((split-AllLack "root:orgs" 58).1.0, (h, tt)))

-- The predicate holds exactly of the logical clusters whose path is root:orgs: and one further part
-- without a colon.
pub is_account_type_org_lem :
    (lc : LogicalCluster)
    → (is_account_type_org lc ≡ true
        → (name : String) × Lacks 58 name
          × (or_else lc.path "" ≡ join ("root" ∷ "orgs" ∷ name ∷ []) ":"))
      × ((name : String)
          → Lacks 58 name
          → or_else lc.path "" ≡ join ("root" ∷ "orgs" ∷ name ∷ []) ":"
          → is_account_type_org lc ≡ true)
unfolding is_account_type_org
is_account_type_org_lem lc = (
  λ h.
      let path = or_else lc.path "" in
      let (name, lacks, parts) = three_sound (split path 58) h (split-AllLack path 58) in
      (name, lacks, sym (join-split path ":") ∙ ap (λ p. join p ":") parts),
  λ name lacks at.
      ap (λ p. three (split p 58)) at
      ∙ ap three (split-join ("root" ∷ "orgs" ∷ name ∷ []) ":" (λ e. cc) (three-Lacks name lacks)),
)
