-- ===== src/Idp/Laws.antt =====
-- What a run of the subroutine leaves.
use security_operator.Prelude.{
  String, List, [], ◌∷◌, ◌++◌, Option, none, some, map, Exec, ok, ◌≡◌, ◌≢◌, inl, inr, refl, ◌∙◌, ap,
  ◌==◌, eq_iff, arith, pure, context, bind-eq-ok, Option-cases, Bool-cases, true, if◌then◌else◌,
}
use security_operator.Prelude.Text.{split-join, join, concat, AllLack}
use security_operator.Api.{
  IdentityProviderClientConfig, IdentityProviderConfiguration, ManagedClient,
}
use security_operator.Kube.{LogicalCluster, AccountInfo, OidcInfo}
use security_operator.Idp.{
  Idp, WorkspaceClient, get_workspace_name, last_or, lookup, check_clients, oidc_equal,
  desired_oidc, patch_account_info,
}
use security_operator.Idp.Clients.{sub_map_both}

last_or-snoc : (d name : String) (xs : List String) → last_or d (xs ++ name ∷ []) ≡ name
last_or-snoc d name [] = refl
last_or-snoc d name (x ∷ xs) = last_or-snoc x name xs

snoc-ne-nil : (name : String) (xs : List String) → (xs ++ name ∷ []) ≢ []
snoc-ne-nil name [] h = cc
snoc-ne-nil name (x ∷ xs) h = cc

-- The name of a workspace is the last part of its path, however many parts without a colon precede
-- it.
pub get_workspace_name-join :
    (lc : LogicalCluster) (parents : List String) (name : String)
    → AllLack 58 (parents ++ name ∷ [])
    → lc.path ≡ some (join (parents ++ name ∷ []) ":")
    → get_workspace_name lc ≡ name
unfolding get_workspace_name
get_workspace_name-join lc parents name lacks at = rw at (
    ap (last_or "") (split-join (parents ++ name ∷ []) ":" (snoc-ne-nil name parents) lacks)
    ∙ last_or-snoc "" name parents)

-- Every client of the spec is managed, with an ID.
abbrev pub AllManaged : List (String × ManagedClient) → List IdentityProviderClientConfig → Type 0
AllManaged managed [] = Unit
AllManaged managed (c ∷ cs) =
    ((m : ManagedClient) × (lookup c.client_name managed ≡ some m) × (m.client_id ≢ ""))
    × AllManaged managed cs

pub check_clients-AllManaged :
    {W : Type 0} (managed : List (String × ManagedClient)) (cs : List IdentityProviderClientConfig)
    (w : W)
    → (check_clients managed cs w).0 ≡ ok tt
    → AllManaged managed cs × ((check_clients managed cs w).1 ≡ w)
unfolding check_clients
check_clients-AllManaged managed [] w h = (tt, refl)
check_clients-AllManaged managed (c ∷ cs) w h = elim (Option-cases (lookup c.client_name managed)) [
  | inl e ↦ ground arith
  | inr (m, e) ↦
      let rest = check_clients-AllManaged managed cs w in
      elim (Bool-cases (m.client_id == "")) [
        | inl f ↦ ground (arith, e, f)
        | inr f ↦
            let managed_rest = rest (ground (arith, e, f)) in
            (
              ((m, e, λ g. ground (arith, eq_iff m.client_id "")), managed_rest.0),
              ground (arith, e, f),
            )
      ]
]

-- The client of the workspace: it reads the AccountInfo that there is, and a patch that succeeds
-- leaves the AccountInfo it was given.
pub record InfoLaws {W : Type 0} (cl : WorkspaceClient W) : Type 0 where
  pub info : W → AccountInfo
  pub got :
      (w : W) (a : AccountInfo)
      → (cl.get_account_info "account" w).0 ≡ ok a
      → (a ≡ info w) × (info (cl.get_account_info "account" w).1 ≡ info w)
  pub patched :
      (w : W) (a : AccountInfo)
      → (cl.patch_account_info a w).0 ≡ ok tt
      → info (cl.patch_account_info a w).1 ≡ a

abbrev pub id_of : Option ManagedClient → Option String
id_of none = none
id_of (some m) = some m.client_id

-- The AccountInfo has the OIDC settings of the configuration: the issuer is Keycloak's realm of the
-- name, and each name has the ID of the managed client, if there is one.
abbrev pub HasOidc : Idp → String → IdentityProviderConfiguration → AccountInfo → Type 0
HasOidc i name idp a =
    (o : OidcInfo) × (a.oidc ≡ some o)
    × (o.issuer_url ≡ concat ("https://" ∷ i.base_domain ∷ "/keycloak/realms/" ∷ name ∷ []))
    × ((k : String) → lookup k o.clients ≡ id_of (lookup k idp.managed_clients))

lookup-desired_oidc :
    (k : String) (ms : List (String × ManagedClient))
    → lookup k (map (λ (e : String × ManagedClient). (e.0, (e.1).client_id)) ms)
      ≡ id_of (lookup k ms)
lookup-desired_oidc k [] = refl
lookup-desired_oidc k (m ∷ ms) = ground (arith, lookup-desired_oidc k ms)

oidc_equal-HasOidc :
    (i : Idp) (name : String) (idp : IdentityProviderConfiguration) (a : AccountInfo)
    → oidc_equal a.oidc (desired_oidc i name idp) ≡ true
    → HasOidc i name idp a
unfolding oidc_equal desired_oidc
oidc_equal-HasOidc i name idp a h = elim (Option-cases a.oidc) [
  | inl e ↦ ground arith
  | inr (o, e) ↦
      let d = desired_oidc i name idp in
      let same = eq_iff o.issuer_url d.issuer_url in
      (
        o,
        e,
        ground (arith, e, same),
        λ k.
            sub_map_both o.clients d.clients k (ground (arith, e)) (ground (arith, e))
            ∙ lookup-desired_oidc k idp.managed_clients,
      )
]

module _ {W : Type 0} (i : Idp) (cl : WorkspaceClient W) (laws : InfoLaws cl) where
  open laws use {info, got, patched}

  -- For a client that reads the AccountInfo there is and writes what it is given: when
  -- patchAccountInfo succeeds, the AccountInfo has the OIDC settings of the configuration, which
  -- are the URL of the issuer and, for every name, the ID of the managed client; its account and
  -- its organisation are what they were.
  pub patch_account_info-HasOidc :
      (name : String) (idp : IdentityProviderConfiguration) (w : W)
      → (patch_account_info i cl name idp w).0 ≡ ok tt
      → let after = info (patch_account_info i cl name idp w).1 in
        HasOidc i name idp after
        × (after.account ≡ (info w).account)
        × (after.organization ≡ (info w).organization)
  unfolding patch_account_info desired_oidc
  patch_account_info-HasOidc name idp w h =
      let call = cl.get_account_info "account" in
      let desired = desired_oidc i name idp in
      let rest : AccountInfo → Exec W (Unit {0}) = λ a.
        if oidc_equal a.oidc desired
        then pure tt
        else context "failed to patch accountInfo"
            (cl.patch_account_info (record a { oidc = some desired })) in
      let (a, called, step) = bind-eq-ok (context "failed to get accountInfo" call) rest w h in
      elim (Bool-cases (oidc_equal a.oidc desired)) [
        | inl e ↦
            let unchanged : info (patch_account_info i cl name idp w).1 ≡ info w =
              ground (arith, got w a, step, e) in
            (
              rw unchanged (oidc_equal-HasOidc i name idp (info w) (ground (arith, got w a, e))),
              ap AccountInfo.account unchanged,
              ap AccountInfo.organization unchanged,
            )
        | inr e ↦
            let final : AccountInfo = record a { oidc = some desired } in
            let written : info (patch_account_info i cl name idp w).1 ≡ final =
              ground (arith, got w a, step, e, patched (call w).1 final) in
            (
              rw written (desired, refl, refl, λ k. lookup-desired_oidc k idp.managed_clients),
              ground (arith, written, got w a),
              ground (arith, written, got w a),
            )
      ]
