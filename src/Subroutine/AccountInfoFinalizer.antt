-- ===== src/Subroutine/AccountInfoFinalizer.antt =====
-- internal/subroutine/accountinfo_finalizer.go: an AccountInfo stays while an APIBinding of its
-- workspace still has to be cleaned up.
use security_operator.Prelude.{
  String, Bool, List, [], ◌∷◌, Exec, pure, ◌>>=◌, ◌==◌, any, if◌then◌else◌,
}
use security_operator.Kube.{Outcome, done, requeue}

abbrev pub account_info_finalizer : String
account_info_finalizer = "security.platform-mesh.io/accountinfo-finalizer"

abbrev pub api_binding_finalizer : String
api_binding_finalizer = "core.platform-mesh.io/apibinding-finalizer"

pub record ApiBinding : Type 0 where
  pub name : String
  pub finalizers : List String

abbrev pub contains_finalizer : ApiBinding → String → Bool
contains_finalizer b finalizer = any (λ x. x == finalizer) b.finalizers

unfoldable pub check_bindings : List ApiBinding → Outcome
check_bindings [] = done
check_bindings (b ∷ bs) =
    if contains_finalizer b api_binding_finalizer
    then requeue 5 "APIBinding still has finalizer, requeuing AccountInfo deletion"
    else check_bindings bs

-- The argument is the cluster of the context, as its list of APIBindings.
unfoldable pub finalize : {W : Type 0} → Exec W (Exec W (List ApiBinding)) → Exec W Outcome
unfolding check_bindings
finalize cluster_from_context = do
  list ← cluster_from_context
  bindings ← list
  pure (check_bindings bindings)
