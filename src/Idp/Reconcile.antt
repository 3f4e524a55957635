-- ===== src/Idp/Reconcile.antt =====
-- What a finished run of `reconcile` has read and leaves.
use mathlib.Core.Path.{subst, subst⁻¹}
use security_operator.Prelude.{
  String, Bool, Exec, ok, Result, ◌≡◌, ◌⊎◌, inl, inr, refl, ◌∙◌, ap, sym, ◌==◌, arith, pure,
  context, bind-eq-ok, Bool-cases, true, ◌||◌, ◌>>=◌, some, if◌then◌else◌, Keeps, bind-Keeps,
  context-Keeps,
}
use security_operator.Api.{IdentityProviderConfiguration}
use security_operator.Kube.{
  LogicalCluster, Account, AccountInfo, AccountType, org, account, Outcome, done, Limiter,
}
use security_operator.Idp.{
  Idp, OrgsClient, WorkspaceClient, get_workspace_name, is_empty, check_clients, patch_account_info,
  finish, reconcile, provide, mutate, oidc_equal, desired_oidc,
}
use security_operator.Idp.Clients.{named, named-mutate, wanted}
use security_operator.Idp.Laws.{
  AllManaged, check_clients-AllManaged, InfoLaws, HasOidc, patch_account_info-HasOidc,
}

module _ {W : Type 0} (i : Idp) (cl : WorkspaceClient W) (laws : InfoLaws cl)
    (limiter : Limiter W) where
  open laws use {info}

  abbrev pub Provided : String → IdentityProviderConfiguration → W → Type 0
  Provided name idp w =
      (idp.ready ≡ true)
      × (is_empty idp.clients ≡ Bool.false)
      × AllManaged idp.managed_clients idp.clients
      × HasOidc i name idp (info w)

  finish-Provided :
      (name : String) (idp : IdentityProviderConfiguration) (w : W)
      → (finish i limiter cl name idp w).0 ≡ ok done
      → Provided name idp (finish i limiter cl name idp w).1
        × ((finish i limiter cl name idp w).1
            ≡ (patch_account_info i cl name idp (limiter.forget idp.name w).1).1)
  unfolding finish
  finish-Provided name idp w h = elim (Bool-cases idp.ready) [
    | inl ready ↦ elim (Bool-cases (is_empty idp.clients || is_empty idp.managed_clients)) [
      | inl none_left ↦ ground (arith, ready, none_left)
      | inr some_left ↦
          let checks : Exec W (Unit {0}) = check_clients idp.managed_clients idp.clients in
          let all = check_clients-AllManaged idp.managed_clients idp.clients w in
          let forget = limiter.forget idp.name in
          let patch = patch_account_info i cl name idp in
          let w₁ = (forget w).1 in
          let checked : (checks w).0 ≡ ok tt = ground (arith, ready, some_left) in
          let patched_ok : (patch w₁).0 ≡ ok tt = ground (arith, ready, some_left, all checked) in
          let last : (finish i limiter cl name idp w).1 ≡ (patch w₁).1 =
            ground (arith, ready, some_left, all checked) in
          (
            (
              ready,
              ground (arith, some_left),
              (all checked).0,
              rw last (patch_account_info-HasOidc i cl laws name idp w₁ patched_ok).0,
            ),
            last,
          )
    ]
    | inr waiting ↦ ground (arith, waiting)
  ]

  org_or_account : (t : AccountType) → (t ≡ org) ⊎ (t ≡ account)
  org_or_account org = inl refl
  org_or_account account = inr refl

  carry : {r s : Result Outcome × W} {x : Result Outcome} → r ≡ s → r.0 ≡ x → s.0 ≡ x
  carry e h = sym (ap (λ r. r.0) e) ∙ h

  patch-Keeps :
      (stored : W → IdentityProviderConfiguration) (name : String)
      (idp : IdentityProviderConfiguration)
      → Keeps stored (cl.get_account_info "account")
      → ((a : AccountInfo) → Keeps stored (cl.patch_account_info a))
      → Keeps stored (patch_account_info i cl name idp)
  unfolding patch_account_info
  patch-Keeps stored name idp reads patches =
      bind-Keeps stored (context "failed to get accountInfo" (cl.get_account_info "account")) rest
        (context-Keeps stored "failed to get accountInfo" (cl.get_account_info "account") reads)
        rest-Keeps
    where
      settled : AccountInfo → AccountInfo
      settled a = record a { oidc = some (desired_oidc i name idp) }

      rest : AccountInfo → Exec W (Unit {0})
      rest a =
          if oidc_equal a.oidc (desired_oidc i name idp)
          then pure tt
          else context "failed to patch accountInfo" (cl.patch_account_info (settled a))

      rest-Keeps : (a : AccountInfo) → Keeps stored (rest a)
      rest-Keeps a w = elim (Bool-cases (oidc_equal a.oidc (desired_oidc i name idp))) [
        | inl same ↦ rw same refl
        | inr other ↦ rw other (
            context-Keeps stored "failed to patch accountInfo" (cl.patch_account_info (settled a))
              (patches (settled a)) w)
      ]

  abbrev with_account : String → WorkspaceClient W → OrgsClient W → Account → Exec W Outcome
  with_account name c orgs a = elim a.account_type [
    | org ↦ provide i limiter c orgs name
    | account ↦ pure done
  ]

  abbrev with_orgs : String → WorkspaceClient W → OrgsClient W → Exec W Outcome
  with_orgs name c orgs = do
    a ← context "failed to get account resource" (orgs.get_account name)
    with_account name c orgs a

  abbrev with_cluster :
      (String → Exec W (OrgsClient W)) → String → WorkspaceClient W → Exec W Outcome
  with_cluster new_client name c = do
    orgs ← context "getting orgs client" (new_client "root:orgs")
    with_orgs name c orgs

  -- The configuration of an organisation while reconcile runs, and nothing else writes it: the two
  -- clients are always the same, the account is always read the same, `create_or_patch` applies the
  -- function to the configuration, which is read as it is, and no other call changes it. Before the
  -- configuration is created it is the empty one.
  pub record World (cluster_from_context : Exec W (WorkspaceClient W))
      (new_client : String → Exec W (OrgsClient W)) (name : String) : Type 0 where
    pub orgs : OrgsClient W
    pub acc : Account
    pub stored : W → IdentityProviderConfiguration
    pub cluster_ok : (u : W) (c : WorkspaceClient W) → (cluster_from_context u).0 ≡ ok c → c ≡ cl
    pub orgs_ok : (u : W) (o : OrgsClient W) → (new_client "root:orgs" u).0 ≡ ok o → o ≡ orgs
    pub account_ok : (u : W) (a : Account) → (orgs.get_account name u).0 ≡ ok a → a ≡ acc
    pub written :
        (f : IdentityProviderConfiguration → IdentityProviderConfiguration) (u : W)
        → (orgs.create_or_patch name f u).0 ≡ ok tt
        → stored (orgs.create_or_patch name f u).1 ≡ f (stored u)
    pub read :
        (u : W) (x : IdentityProviderConfiguration) → (orgs.get_idp name u).0 ≡ ok x → x ≡ stored u
    pub cluster_quiet : Keeps stored cluster_from_context
    pub orgs_quiet : Keeps stored (new_client "root:orgs")
    pub account_quiet : Keeps stored (orgs.get_account name)
    pub read_quiet : Keeps stored (orgs.get_idp name)
    pub forget_quiet : (n : String) → Keeps stored (limiter.forget n)
    pub info_quiet : Keeps stored (cl.get_account_info "account")
    pub patch_quiet : (a : AccountInfo) → Keeps stored (cl.patch_account_info a)

  module _ (cluster_from_context : Exec W (WorkspaceClient W))
      (new_client : String → Exec W (OrgsClient W)) (name : String)
      (world : World cluster_from_context new_client name) where
    open world use {orgs, stored, written, read, read_quiet, forget_quiet, info_quiet, patch_quiet}

    provide-Provided :
        (w : W)
        → (provide i limiter cl orgs name w).0 ≡ ok done
        → let after = (provide i limiter cl orgs name w).1 in
          Provided name (stored after) after × (stored after ≡ mutate i name (stored w))
    provide-Provided w h =
        let write : Exec W (Unit {0}) =
          context "failed to create idp resource" (orgs.create_or_patch name (mutate i name)) in
        let get = context "failed to get idp resource" (orgs.get_idp name) in
        let rest : Unit {0} → Exec W Outcome = λ x. get >>= finish i limiter cl name in
        let (x, wrote, step₁) = bind-eq-ok write rest w h in
        let w₁ = (write w).1 in
        let (idp, got, step₂) = bind-eq-ok get (finish i limiter cl name) w₁ (carry step₁ h) in
        let w₂ = (get w₁).1 in
        let last = step₁ ∙ step₂ in
        let (provided, ends) = finish-Provided name idp w₂ (carry last h) in
        let set : stored w₁ ≡ mutate i name (stored w) =
          ground (arith, wrote, written (mutate i name) w) in
        let is_stored : idp ≡ stored w₁ = ground (arith, got, read w₁ idp) in
        let kept : stored (provide i limiter cl orgs name w).1 ≡ stored w₁ =
          ap (λ r. stored r.1) last
          ∙ ap stored ends
          ∙ patch-Keeps stored name idp info_quiet patch_quiet (limiter.forget idp.name w₂).1
          ∙ forget_quiet idp.name w₂
          ∙ context-Keeps stored "failed to get idp resource" (orgs.get_idp name) read_quiet w₁ in
        (
          subst (λ x. Provided name x (provide i limiter cl orgs name w).1) (is_stored ∙ sym kept)
              (subst⁻¹ (λ (r : Result Outcome × W). Provided name idp r.1) last provided),
          kept ∙ set,
        )

  -- For a client of the workspace that reads the AccountInfo there is and writes what it is given,
  -- and an organisation's configuration that nothing else writes: after a run of reconcile that is
  -- done, either the account is not an organisation; or its configuration has the clients of the
  -- portal and of kubectl, and all other clients that it had, is ready, all its clients are managed
  -- and have an ID, and the AccountInfo of the workspace has the OIDC settings of the configuration.
  pub reconcile-Provided :
      (cluster_from_context : Exec W (WorkspaceClient W))
      (new_client : String → Exec W (OrgsClient W)) (lc : LogicalCluster) (w : W)
      (world : World cluster_from_context new_client (get_workspace_name lc))
      → let name = get_workspace_name lc in
        let run = reconcile i cluster_from_context new_client limiter lc w in
        run.0 ≡ ok done
        → ((world.acc).account_type ≡ account)
          ⊎ (Provided name (world.stored run.1) run.1
              × ((n : String)
                  → named n (world.stored run.1).clients
                    ≡ wanted i name n (named n (world.stored w).clients)))
  unfolding reconcile
  reconcile-Provided cluster_from_context new_client lc w world h =
      elim (Bool-cases (get_workspace_name lc == "")) [
        | inl empty ↦ ground (arith, empty)
        | inr named_ws ↦
            let name = get_workspace_name lc in
            let stored = world.stored in
            let orgs = world.orgs in
            let run = reconcile i cluster_from_context new_client limiter lc w in
            let m₁ = context "failed to get cluster from context" cluster_from_context in
            let m₂ = context "getting orgs client" (new_client "root:orgs") in
            let m₃ = context "failed to get account resource" (orgs.get_account name) in
            let start : run ≡ (m₁ >>= with_cluster new_client name) w = rw named_ws refl in
            let (c, got_cluster, step₁) =
              bind-eq-ok m₁ (with_cluster new_client name) w (carry start h) in
            let w₁ = (m₁ w).1 in
            let reached₁ : run ≡ (m₂ >>= with_orgs name cl) w₁ =
              start
              ∙ step₁
              ∙ ap (λ x. with_cluster new_client name x w₁)
                  (world.cluster_ok w c (ground (arith, got_cluster))) in
            let (o, got_orgs, step₂) = bind-eq-ok m₂ (with_orgs name cl) w₁ (carry reached₁ h) in
            let w₂ = (m₂ w₁).1 in
            let reached₂ : run ≡ (m₃ >>= with_account name cl orgs) w₂ =
              reached₁
              ∙ step₂
              ∙ ap (λ x. with_orgs name cl x w₂) (world.orgs_ok w₁ o (ground (arith, got_orgs))) in
            let (a, got_account, step₃) =
              bind-eq-ok m₃ (with_account name cl orgs) w₂ (carry reached₂ h) in
            let w₃ = (m₃ w₂).1 in
            let is_acc : a ≡ world.acc = world.account_ok w₂ a (ground (arith, got_account)) in
            let reached₃ : run ≡ with_account name cl orgs world.acc w₃ =
              reached₂ ∙ step₃ ∙ ap (λ x. with_account name cl orgs x w₃) is_acc in
            elim (org_or_account (world.acc).account_type) [
              | inr is_account ↦ inl is_account
              | inl is_org ↦
                  let whole : run ≡ provide i limiter cl orgs name w₃ =
                    reached₃ ∙ ground (arith, is_org) in
                  let (provided, set) =
                    provide-Provided cluster_from_context new_client name world w₃
                      (carry whole h) in
                  let kept : stored w₃ ≡ stored w =
                    context-Keeps stored "failed to get account resource" (orgs.get_account name)
                      world.account_quiet w₂
                    ∙ context-Keeps stored "getting orgs client" (new_client "root:orgs")
                        world.orgs_quiet w₁
                    ∙ context-Keeps stored "failed to get cluster from context" cluster_from_context
                        world.cluster_quiet w in
                  let final : stored run.1 ≡ mutate i name (stored w) =
                    ap (λ r. stored r.1) whole ∙ set ∙ ap (mutate i name) kept in
                  inr (
                    subst⁻¹ (λ (r : Result Outcome × W). Provided name (stored r.1) r.1) whole
                        provided,
                    λ n.
                        ap (λ (x : IdentityProviderConfiguration). named n x.clients) final
                        ∙ (named-mutate i name n (stored w)).0,
                  )
            ]
      ]
