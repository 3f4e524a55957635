-- ===== src/Tests/Creators.antt =====
-- internal/subroutine/invite.go and accountinfo_finalizer.go at concrete inputs.
use security_operator.Prelude.{
  String, Bool, List, [], ◌∷◌, some, Exec, ok, fail, pure, raise, ◌>>=◌, ◌≡◌, refl, true, false,
  if◌then◌else◌,
}
use security_operator.Prelude.Text.{split}
use security_operator.Kube.{LogicalCluster, Account, org, account, Outcome, done, requeue, Limiter}
use security_operator.Idp.{get_workspace_name}
use security_operator.Workspace.CreatorInvite.{WorkspaceClient, invite_creator, reconcile}
use security_operator.Subroutine.AccountInfoFinalizer.{
  ApiBinding, api_binding_finalizer, check_bindings,
}

-- The world is the invites that were written: name and address.
abbrev World : Type 0
World = List (String × String)

abbrev client : Bool → WorkspaceClient World
client ready = record {
  create_or_update_invite = λ name email w. (ok tt, (name, email) ∷ w);
  get_invite_ready = λ name. pure ready;
}

abbrev wait_once : Exec World Bool → Exec World (Unit {0})
wait_once condition = do
  ready ← condition
  if ready then pure tt else raise (fail "timed out waiting for the condition")

abbrev limiter : Limiter World
limiter = record { when = λ item. pure 7; forget = λ item. pure tt }

abbrev lc : LogicalCluster
lc = record {
  path = some "root:orgs:acme";
  cluster = some "c1";
  owner_cluster = "c0";
  owner_name = "acme";
  initializers = [];
  status_initializers = [];
}

abbrev run : Bool → Account → Exec World Outcome
run ready acc =
    reconcile (pure (client ready)) (pure (λ name. pure acc)) wait_once limiter (λ l. "c1") lc

abbrev owned : Account
owned = record { account_type = org; creator = some "ada@test" }

invited :
    (run true owned [] ≡ (ok done, ("acme", "ada@test") ∷ []))
    × (run false owned []
        ≡ (ok (requeue 7 "invite resource is not ready yet"), ("acme", "ada@test") ∷ []))
    × (run true (record { account_type = account; creator = some "ada@test" }) [] ≡ (ok done, []))
unfolding reconcile invite_creator get_workspace_name split
invited = (refl, refl, refl)

abbrev binding : List String → ApiBinding
binding finalizers = record { name = "b"; finalizers = finalizers }

finalized :
    (check_bindings (binding [] ∷ binding ("other" ∷ []) ∷ []) ≡ done)
    × (check_bindings (binding [] ∷ binding ("other" ∷ api_binding_finalizer ∷ []) ∷ [])
        ≡ requeue 5 "APIBinding still has finalizer, requeuing AccountInfo deletion")
unfolding check_bindings
finalized = (refl, refl)
