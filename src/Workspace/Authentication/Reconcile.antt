-- ===== src/Workspace/Authentication/Reconcile.antt =====
-- What a run leaves behind: the configuration, and the types that refer to it.
use mathlib.Core.Path.{subst, subst⁻¹}
use security_operator.Prelude.{
  String, List, [], ◌∷◌, ◌++◌, Option, some, Exec, ok, ◌≡◌, ◌≢◌, refl, ◌∙◌, ap, arith, ◌==◌, eq_iff,
  context, ◌>>◌, bind-eq-ok, carry, Keeps, Ends, bind-Ends, bind-Keeps, context-Keeps, Bool-cases,
  Option-cases, inl, inr, Listed,
}
use security_operator.Kube.{LogicalCluster, AccountInfo}
use security_operator.Idp.{get_workspace_name}
use security_operator.Workspace.Authentication.{
  WorkspaceType, OrgsClient, Config, JwtAuthenticator, with_configurations, same_names, patch_each,
  patch_workspace_types, jwt_authentication_configuration, audiences_of, audiences, certificate,
  oidc_clients, reconcile,
}
use security_operator.Workspace.Authentication.Types.{TypeLaws, patch_workspace_types-Accepts}

-- Every client has an ID, and the audiences are these IDs.
audiences_of_lem :
    (cs : List (String × String)) (ids : List String)
    → audiences_of cs ≡ some ids
    → (c : String × String) → Listed c cs
    → (c.1 ≢ "") × Listed c.1 ids
unfolding audiences_of
audiences_of_lem [] ids h c listed = absurd listed
audiences_of_lem (x ∷ cs) ids h c listed = elim (Option-cases (audiences_of cs)) [
  | inl failed ↦ ground (arith, failed, h)
  | inr (rest, e) ↦
      let same : ids ≡ x.1 ∷ rest = ground (arith, e, h) in
      let given : x.1 ≢ "" = λ none_given. ground (arith, h, eq_iff x.1 "", none_given) in
      elim listed [
        | inl here ↦ (
          subst⁻¹ (λ (y : String × String). y.1 ≢ "") here given,
          subst⁻¹ (λ is. Listed c.1 is) same (inl (ap (λ (y : String × String). y.1) here)),
        )
        | inr later ↦
            let (given', inside) = audiences_of_lem cs rest e c later in
            (given', subst⁻¹ (λ is. Listed c.1 is) same (inr inside))
      ]
]

audiences_lem :
    {W : Type 0} (additional : List String) (cs : List (String × String)) (accepted : List String)
    (w : W)
    → (audiences additional cs w).0 ≡ ok accepted
    → (ids : List String) × (audiences_of cs ≡ some ids) × (accepted ≡ ids ++ additional)
audiences_lem additional [] accepted w h = cc
audiences_lem additional (c ∷ cs) accepted w h = elim (Option-cases (audiences_of (c ∷ cs))) [
  | inl failed ↦ ground (arith, failed, h)
  | inr (ids, e) ↦ (ids, e, ground (arith, e, h))
]

-- What is documented of the configurations: one that was written is there, and neither the listing
-- nor the patch of a type changes it.
pub record AuthenticationLaws {W : Type 0} (cl : OrgsClient W) : Type 0 where
  pub on_types : TypeLaws cl
  pub configured : W → String → Option (List JwtAuthenticator)
  pub created :
      (name : String) (spec : List JwtAuthenticator) (w : W)
      → (cl.create_or_update_authentication name spec w).0 ≡ ok tt
      → configured (cl.create_or_update_authentication name spec w).1 name ≡ some spec
  pub kept_by_list :
      (org name : String) → Keeps (λ w. configured w name) (cl.list_workspace_types org)
  pub kept_by_patch :
      (t : WorkspaceType) (name : String)
      → Keeps (λ w. configured w name) (cl.patch_workspace_type t)

module _ {W : Type 0} (cl : OrgsClient W) (laws : AuthenticationLaws cl) where
  open laws use {configured, on_types}

  patch_each-Keeps :
      (desired : List String) (ts : List WorkspaceType) (name : String)
      → Keeps (λ w. configured w name) (patch_each cl desired ts)
  unfolding patch_each
  patch_each-Keeps desired [] name w = refl
  patch_each-Keeps desired (t ∷ ts) name w =
      elim (Bool-cases (same_names t.authentication_configurations desired)) [
        | inl same ↦ rw same (patch_each-Keeps desired ts name w)
        | inr other ↦ rw other (
            bind-Keeps (λ v. configured v name)
              (context "failed to patch WorkspaceType"
                (cl.patch_workspace_type (with_configurations desired t)))
              (λ _. patch_each cl desired ts)
              (context-Keeps (λ v. configured v name) "failed to patch WorkspaceType"
                (cl.patch_workspace_type (with_configurations desired t))
                (laws.kept_by_patch (with_configurations desired t) name))
              (λ _. patch_each-Keeps desired ts name) w)
      ]

  patch_workspace_types-Keeps :
      (org name : String) → Keeps (λ w. configured w name) (patch_workspace_types cl org)
  unfolding patch_workspace_types
  patch_workspace_types-Keeps org name =
      bind-Keeps (λ v. configured v name)
        (context "failed to list WorkspaceTypes" (cl.list_workspace_types org))
        (patch_each cl (org ∷ []))
        (context-Keeps (λ v. configured v name) "failed to list WorkspaceTypes"
          (cl.list_workspace_types org) (laws.kept_by_list org name))
        (λ ts. patch_each-Keeps (org ∷ []) ts name)

  -- The configuration of the name accepts these audiences, and the types refer to it alone.
  abbrev pub Accepts : String → JwtAuthenticator → W → Type 0
  Accepts name jwt w =
      (configured w name ≡ some (jwt ∷ []))
      × ((u : WorkspaceType)
          → Listed u (on_types.types w name)
          → u.authentication_configurations ≡ name ∷ [])

  finish-Accepts :
      (name : String) (jwt : JwtAuthenticator)
      → Ends (Accepts name jwt) (
          context "failed to create WorkspaceAuthConfiguration resource"
            (cl.create_or_update_authentication name (jwt ∷ []))
          >> context "failed to patch workspace types" (patch_workspace_types cl name))
  finish-Accepts name jwt w unit h =
      let create =
        context "failed to create WorkspaceAuthConfiguration resource"
          (cl.create_or_update_authentication name (jwt ∷ [])) in
      let patch = context "failed to patch workspace types" (patch_workspace_types cl name) in
      let (unit₁, made, step) = bind-eq-ok create (λ _. patch) w h in
      let v = (create w).1 in
      let sent : (cl.create_or_update_authentication name (jwt ∷ []) w).0 ≡ ok tt =
        ground (arith, made) in
      let reached : v ≡ (cl.create_or_update_authentication name (jwt ∷ []) w).1 =
        ground (arith, sent) in
      let stored = ap (λ x. configured x name) reached ∙ laws.created name (jwt ∷ []) w sent in
      let patched : (patch_workspace_types cl name v).0 ≡ ok tt = ground (arith, carry step h) in
      let end : ((create >> patch) w).1 ≡ (patch_workspace_types cl name v).1 =
        ground (arith, step, patched) in
      subst⁻¹ (λ x. Accepts name jwt x) end
        (
          patch_workspace_types-Keeps name name v ∙ stored,
          patch_workspace_types-Accepts cl on_types name v patched,
        )

  module _ (cfg : Config) (get_domain_ca : Exec W String)
      (get_account_info : Exec W (String → Exec W AccountInfo))
      (new_client_for_logical_cluster : String → Exec W (OrgsClient W)) where
    -- What a run that succeeds has done with the clients of the account.
    abbrev pub Done : LogicalCluster → AccountInfo → W → Type 0
    Done lc info v =
        (ca : String) × (ids : List String) × ((c : String × String)
          → Listed c (oidc_clients info.oidc)
          → (c.1 ≢ "") × Listed c.1 ids)
        × Accepts (get_workspace_name lc)
            (jwt_authentication_configuration cfg (get_workspace_name lc) ca
              (ids ++ cfg.additional_audiences))
            v

    abbrev finish : String → String → List String → OrgsClient W → Exec W (Unit {0})
    finish name ca accepted o =
        context "failed to create WorkspaceAuthConfiguration resource" (
          o.create_or_update_authentication name
            (jwt_authentication_configuration cfg name ca accepted ∷ []))
        >> context "failed to patch workspace types" (patch_workspace_types o name)

    finish-Done :
        (lc : LogicalCluster) (info : AccountInfo) (ca : String) (accepted ids : List String)
        (o : OrgsClient W)
        → audiences_of (oidc_clients info.oidc) ≡ some ids
        → accepted ≡ ids ++ cfg.additional_audiences
        → o ≡ cl
        → Ends (Done lc info) (finish (get_workspace_name lc) ca accepted o)
    finish-Done lc info ca accepted ids o found same opened =
        let name = get_workspace_name lc in
        subst⁻¹ (λ x. Ends (Done lc info) (finish name ca accepted x)) opened
          (subst⁻¹ (λ xs. Ends (Done lc info) (finish name ca xs cl)) same
            (λ v unit h. (
              ca,
              ids,
              audiences_of_lem (oidc_clients info.oidc) ids found,
              finish-Accepts name
                  (jwt_authentication_configuration cfg name ca (ids ++ cfg.additional_audiences)) v
                  unit h,
            )))

    pub reconcile-Accepts :
        (lc : LogicalCluster) (info : AccountInfo)
        → ((get : String → Exec W AccountInfo) (i : AccountInfo) (u v : W)
            → (get_account_info u).0 ≡ ok get
            → (get "account" v).0 ≡ ok i
            → i ≡ info)
        → ((o : OrgsClient W) (u : W)
            → (new_client_for_logical_cluster "root:orgs" u).0 ≡ ok o
            → o ≡ cl)
        → (w : W)
        → (reconcile cfg get_domain_ca get_account_info new_client_for_logical_cluster lc w).0
          ≡ ok tt
        → Done lc info
            (reconcile cfg get_domain_ca get_account_info new_client_for_logical_cluster lc w).1
    unfolding reconcile
    reconcile-Accepts lc info reads opens w h =
        let name = get_workspace_name lc in
        let P = Done lc info in
        elim (Bool-cases (name == "")) [
          | inl empty ↦ ground (arith, empty, h)
          | inr given ↦ rw given (
              bind-Ends P
                (certificate cfg get_domain_ca get_account_info new_client_for_logical_cluster) _
                (λ ca u _.
                  bind-Ends P (context "failed to get cluster from context" get_account_info) _
                    (λ get u₁ got.
                      bind-Ends P (context "failed to get AccountInfo" (get "account")) _
                        (λ i u₂ read.
                          bind-Ends P (audiences cfg.additional_audiences (oidc_clients i.oidc)) _
                            (λ accepted u₃ made.
                              bind-Ends P
                                (context "getting orgs client"
                                  (new_client_for_logical_cluster "root:orgs"))
                                (λ o. finish name ca accepted o)
                                (λ o u₄ opened.
                                  let same : i ≡ info =
                                    reads get i u₁ u₂ (ground (arith, got))
                                      (ground (arith, read)) in
                                  let (ids, found, all) =
                                    audiences_lem cfg.additional_audiences (oidc_clients i.oidc)
                                      accepted u₃ made in
                                  finish-Done lc info ca accepted ids o
                                    (subst
                                      (λ (x : AccountInfo).
                                        audiences_of (oidc_clients x.oidc) ≡ some ids)
                                      same found)
                                    all (opens o u₄ (ground (arith, opened))))))))
                w tt (rw given at h))
        ]
