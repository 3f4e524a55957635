-- ===== src/Idp/Clients.antt =====
-- The clients that `ensureClient` leaves, and the maps that are compared.
use security_operator.Prelude.{
  String, Bool, List, [], ◌∷◌, ◌++◌, Option, some, ◌≡◌, refl, ◌==◌, eq_iff, arith, find,
  if◌then◌else◌, true, false, Option-cases, inl, inr, ap,
}
use security_operator.Api.{
  IdentityProviderClientConfig, IdentityProviderConfiguration, confidential, public,
}
use security_operator.Prelude.Text.{concat}
use security_operator.Idp.{
  Idp, ensure_client, mutate, portal_client, kubectl_client, lookup, sub_map,
}

-- The client of a name.
abbrev pub named : String → List IdentityProviderClientConfig → Option IdentityProviderClientConfig
named n cs = find (λ c. c.client_name == n) cs

updated :
    (c d : IdentityProviderClientConfig)
    → c.client_name ≡ d.client_name
    → ◌≡◌ {A = IdentityProviderClientConfig} (record d { client_name = c.client_name }) d
updated c d e = ap (λ n. record d { client_name = n }) e

pub named-ensure_client :
    (n : String) (cs : List IdentityProviderClientConfig) (d : IdentityProviderClientConfig)
    → named n (ensure_client cs d) ≡ (if d.client_name == n then some d else named n cs)
unfolding ensure_client
named-ensure_client n [] d = refl
named-ensure_client n (c ∷ cs) d =
    step (named-ensure_client n cs d) (c.client_name == d.client_name) refl
  where
    step :
        named n (ensure_client cs d) ≡ (if d.client_name == n then some d else named n cs)
        → (b : Bool) → (c.client_name == d.client_name) ≡ b
        → named n (ensure_client (c ∷ cs) d)
          ≡ (if d.client_name == n then some d else named n (c ∷ cs))
    step rest true e =
        let same = (eq_iff c.client_name d.client_name).0 e in
        rw (e, updated c d same) (rw same (ground arith))
    step rest false e = rw e (
        ground (
          arith,
          rest,
          eq_iff c.client_name n,
          eq_iff d.client_name n,
          eq_iff c.client_name d.client_name,
        ))

-- The client of a name in a configuration that was set for an organisation: kubectl's is public and
-- redirects to its own URLs; the portal's, which has the name of the organisation, is confidential
-- and redirects to the additional URLs and to the organisation's host. Each has a secret that is
-- named after the organisation and the client. Other clients are as they were.
abbrev pub wanted :
    Idp
    → String
    → String
    → Option IdentityProviderClientConfig
    → Option IdentityProviderClientConfig
wanted i name n old =
    let kubectl : IdentityProviderClientConfig = record {
      client_type = public;
      client_name = "kubectl";
      redirect_uris = i.kubectl_client_redirect_urls;
      post_logout_redirect_uris = [];
      secret_ref = record {
        name = concat ("portal-client-secret-" ∷ name ∷ "-" ∷ "kubectl" ∷ []);
        namespace = "default";
      };
    } in
    let portal : IdentityProviderClientConfig = record {
      client_type = confidential;
      client_name = name;
      redirect_uris =
          i.additional_redirect_urls
          ++ concat ("https://" ∷ name ∷ "." ∷ i.base_domain ∷ "/*" ∷ []) ∷ [];
      post_logout_redirect_uris =
          concat ("https://" ∷ name ∷ "." ∷ i.base_domain ∷ "/logout*" ∷ []) ∷ [];
      secret_ref = record {
        name = concat ("portal-client-secret-" ∷ name ∷ "-" ∷ name ∷ []);
        namespace = "default";
      };
    } in
    if "kubectl" == n then some kubectl else if name == n then some portal else old

-- After the configuration was set, kubectl names the public kubectl client; the organisation's name
-- names the confidential portal client, unless that name is kubectl too; and any other name names
-- the client that it named before. Registration is allowed as the operator's configuration has it.
pub named-mutate :
    (i : Idp) (name n : String) (idp : IdentityProviderConfiguration)
    → (named n (mutate i name idp).clients ≡ wanted i name n (named n idp.clients))
      × ((mutate i name idp).registration_allowed ≡ i.registration_allowed)
unfolding mutate portal_client kubectl_client
named-mutate i name n idp = ground (
  arith,
  named-ensure_client n (ensure_client idp.clients (portal_client i name)) (kubectl_client i name),
  named-ensure_client n idp.clients (portal_client i name),
)

ensure_client_twice :
    (cs : List IdentityProviderClientConfig) (d : IdentityProviderClientConfig)
    → ensure_client (ensure_client cs d) d ≡ ensure_client cs d
unfolding ensure_client
ensure_client_twice [] d = ground (arith, eq_iff d.client_name d.client_name)
ensure_client_twice (c ∷ cs) d = ground (arith, ensure_client_twice cs d)

sub_map-lookup :
    (a b : List (String × String)) (k v : String)
    → sub_map a b ≡ true
    → lookup k a ≡ some v
    → lookup k b ≡ some v
unfolding sub_map
sub_map-lookup [] b k v s h = cc
sub_map-lookup (e ∷ es) b k v s h = elim (Option-cases (lookup e.0 b)) [
  | inl n ↦ ground arith
  | inr (u, m) ↦ ground (arith, sub_map-lookup es b k v, eq_iff u e.1, eq_iff e.0 k)
]

pub sub_map_both :
    (a b : List (String × String)) (k : String)
    → sub_map a b ≡ true
    → sub_map b a ≡ true
    → lookup k a ≡ lookup k b
sub_map_both a b k s t = elim (Option-cases (lookup k a)) [
  | inl n ↦ elim (Option-cases (lookup k b)) [
    | inl m ↦ cc
    | inr (v, m) ↦ ground (arith, sub_map-lookup b a k v t m)
  ]
  | inr (v, m) ↦ ground (arith, sub_map-lookup a b k v s m)
]
