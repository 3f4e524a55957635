-- ===== src/Workspace/CreatorInvite.antt =====
-- internal/subroutine/invite.go: inviting the creator of an organisation to its realm.
use security_operator.Prelude.{
  String, Bool, Option, none, some, Exec, Result, fail, pure, raise, panic, context, attempt, ◌>>=◌,
  ◌>>◌, ◌==◌, if◌then◌else◌,
}
use security_operator.Kube.{
  LogicalCluster, Account, AccountType, org, account, Outcome, done, requeue, Limiter,
}
use security_operator.Idp.{get_workspace_name}

-- The client of the workspace. An Invite is created or updated with an address; to get it is to ask
-- whether its condition Ready is true.
pub record WorkspaceClient (W : Type 0) : Type 0 where
  pub create_or_update_invite : String → String → Exec W (Unit {0})
  pub get_invite_ready : String → Exec W Bool

module _ {W : Type 0} (client_from_context : Exec W (WorkspaceClient W))
    (get_account_from_orgs : Exec W (String → Exec W Account))
    (exponential_backoff : Exec W Bool → Exec W (Unit {0})) (limiter : Limiter W)
    (cluster_name : LogicalCluster → String) where
  abbrev not_ready : LogicalCluster → Exec W Outcome
  not_ready lc = do
    delay ← limiter.when (cluster_name lc)
    pure (requeue delay "invite resource is not ready yet")

  -- Whether the Invite became ready while it was looked at again and again.
  abbrev after_wait : LogicalCluster → Result (Unit {0}) → Exec W Outcome
  after_wait lc (Result.ok u) = do limiter.forget (cluster_name lc); pure done
  after_wait lc (Result.err e) = not_ready lc
  after_wait lc (Result.crash s) = panic s

  unfoldable pub invite_creator : WorkspaceClient W → LogicalCluster → String → Exec W Outcome
  invite_creator cl lc creator = do
    context "failed to create invite resource"
        (cl.create_or_update_invite (get_workspace_name lc) creator)
    waited ← attempt (exponential_backoff (cl.get_invite_ready (get_workspace_name lc)))
    after_wait lc waited

  -- Only the creator of an organisation is invited.
  abbrev invite_for :
      WorkspaceClient W → LogicalCluster → AccountType → Option String → Exec W Outcome
  invite_for cl lc account creator = pure done
  invite_for cl lc org none = pure done
  invite_for cl lc org (some creator) = invite_creator cl lc creator

  -- `get_account_from_orgs` is the client of root:orgs.
  unfoldable pub reconcile : LogicalCluster → Exec W Outcome
  reconcile lc =
      if get_workspace_name lc == "" then raise (fail "failed to get workspace name") else (do
        cl ← context "getting client" client_from_context
        get_account ← context "getting orgs client" get_account_from_orgs
        acc ← context "failed to get account resource" (get_account (get_workspace_name lc))
        invite_for cl lc acc.account_type acc.creator)
