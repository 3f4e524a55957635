-- ===== src/Workspace/Authentication/Types.antt =====
-- The workspace types and the configuration after a run.
use mathlib.Core.Path.{subst, subst⁻¹}
use security_operator.Prelude.{
  Listed, Listed-map, eq_refl, String, Bool, List, [], ◌∷◌, Result, ok, ◌≡◌, refl, sym, ◌∙◌, ap,
  arith, ◌==◌, ◌&&◌, eq_iff, not, map, if◌then◌else◌, true, false, context, bind-eq-ok, carry,
  Bool-cases, inl, inr,
}
use security_operator.Workspace.Authentication.{
  WorkspaceType, OrgsClient, with_configurations, same_names, patch_each, patch_workspace_types,
}

same_names_sound : (xs ys : List String) → same_names xs ys ≡ true → xs ≡ ys
unfolding same_names
same_names_sound [] [] h = refl
same_names_sound [] (y ∷ ys) h = cc
same_names_sound (x ∷ xs) [] h = cc
same_names_sound (x ∷ xs) (y ∷ ys) h =
    let rest = same_names_sound xs ys in ground (arith, rest, eq_iff x y)

-- What is documented of the client of root:orgs. `types` are the workspace types with the label of
-- an organisation, `accepted` the configuration of a name. A patch changes the types of its name.
pub record TypeLaws {W : Type 0} (cl : OrgsClient W) : Type 0 where
  pub types : W → String → List WorkspaceType
  pub listed :
      (org : String) (ts : List WorkspaceType) (w : W)
      → (cl.list_workspace_types org w).0 ≡ ok ts
      → (ts ≡ types w org) × (types (cl.list_workspace_types org w).1 org ≡ types w org)
  pub patched :
      (org : String) (names : List String) (t : WorkspaceType) (w : W)
      → (cl.patch_workspace_type (with_configurations names t) w).0 ≡ ok tt
      → types (cl.patch_workspace_type (with_configurations names t) w).1 org
        ≡ map (λ u. if u.name == t.name then with_configurations names u else u) (types w org)

module _ (desired : List String) where
  abbrev needs : WorkspaceType → Bool
  needs t = not (same_names t.authentication_configurations desired)

  -- What the patches of a list of types make of a type.
  abbrev patch_of : WorkspaceType → WorkspaceType → WorkspaceType
  patch_of t u = if needs t && u.name == t.name then with_configurations desired u else u

  abbrev patches_of : List WorkspaceType → WorkspaceType → WorkspaceType
  patches_of [] u = u
  patches_of (t ∷ ts) u = patches_of ts (patch_of t u)

  abbrev Accepts : WorkspaceType → Type 0
  Accepts u = u.authentication_configurations ≡ desired

  patch_of-Accepts : (t u : WorkspaceType) → Accepts u → Accepts (patch_of t u)
  patch_of-Accepts t u h = ground (arith, h)

  patches_of-Accepts :
      (ts : List WorkspaceType) (u : WorkspaceType) → Accepts u → Accepts (patches_of ts u)
  patches_of-Accepts [] u h = h
  patches_of-Accepts (t ∷ ts) u h = patches_of-Accepts ts (patch_of t u) (patch_of-Accepts t u h)

  patch_of_self : (t : WorkspaceType) → Accepts (patch_of t t)
  patch_of_self t =
      ground (arith, same_names_sound t.authentication_configurations desired, eq_refl t.name)

  patch_of_kept : (t u : WorkspaceType) → (needs t && u.name == t.name) ≡ false → patch_of t u ≡ u
  patch_of_kept t u h = rw h refl

  -- A listed type has the configurations in the end, whether it was patched or had them already.
  patches_of-Listed :
      (ts : List WorkspaceType) (u : WorkspaceType) → Listed u ts → Accepts (patches_of ts u)
  patches_of-Listed [] u h = absurd h
  patches_of-Listed (t ∷ ts) u (inl here) =
      patches_of-Accepts ts (patch_of t u)
        (subst⁻¹ (λ v. Accepts (patch_of t v)) here (patch_of_self t))
  patches_of-Listed (t ∷ ts) u (inr later) = elim (Bool-cases (needs t && u.name == t.name)) [
    | inl changed ↦ patches_of-Accepts ts (patch_of t u) (ground (arith, changed))
    | inr kept ↦
        subst⁻¹ (λ v. Accepts (patches_of ts v)) (patch_of_kept t u kept)
          (patches_of-Listed ts u later)
  ]

module _ {W : Type 0} (cl : OrgsClient W) (laws : TypeLaws cl) where
  patch_each_lem :
      (org : String) (desired : List String) (ts : List WorkspaceType) (w : W)
      → (patch_each cl desired ts w).0 ≡ ok tt
      → (u : WorkspaceType) → Listed u (laws.types (patch_each cl desired ts w).1 org)
      → (v : WorkspaceType) × Listed v (laws.types w org) × (u ≡ patches_of desired ts v)
  unfolding patch_each
  patch_each_lem org desired [] w h u listed = (u, listed, refl)
  patch_each_lem org desired (t ∷ ts) w h u listed =
      elim (Bool-cases (same_names t.authentication_configurations desired)) [
        | inl same ↦
            let (v, before, e) =
              patch_each_lem org desired ts w (rw same at h) u (rw same at listed) in
            (v, before, ground (arith, e, same))
        | inr other ↦
            let patch =
              context "failed to patch WorkspaceType"
                (cl.patch_workspace_type (with_configurations desired t)) in
            let (unit, called, step) =
              bind-eq-ok patch (λ _. patch_each cl desired ts) w (rw other at h) in
            let u₁ = (patch w).1 in
            let run : (patch_each cl desired (t ∷ ts) w) ≡ patch_each cl desired ts u₁ =
              ground (arith, other, step) in
            let (v, between, e) =
              patch_each_lem org desired ts u₁ (carry run h) u
                (subst (λ (r : Result (Unit {0}) × W). Listed u (laws.types r.1 org)) run listed) in
            let sent : (cl.patch_workspace_type (with_configurations desired t) w).0 ≡ ok tt =
              ground (arith, called) in
            let reached : u₁ ≡ (cl.patch_workspace_type (with_configurations desired t) w).1 =
              ground (arith, sent) in
            let changed = ap (λ x. laws.types x org) reached ∙ laws.patched org desired t w sent in
            let (x, before, from) =
              Listed-map (λ u. if u.name == t.name then with_configurations desired u else u) v
                (laws.types w org) (subst (λ us. Listed v us) changed between) in
            (x, before, e ∙ ap (patches_of desired ts) (from ∙ ground (arith, other)))
      ]

  -- Every type with the label of the organisation has its configuration, and no other.
  pub patch_workspace_types-Accepts :
      (org : String) (w : W)
      → (patch_workspace_types cl org w).0 ≡ ok tt
      → (u : WorkspaceType) → Listed u (laws.types (patch_workspace_types cl org w).1 org)
      → u.authentication_configurations ≡ org ∷ []
  unfolding patch_workspace_types
  patch_workspace_types-Accepts org w h u listed =
      let list = context "failed to list WorkspaceTypes" (cl.list_workspace_types org) in
      let (ts, found, step) = bind-eq-ok list (patch_each cl (org ∷ [])) w h in
      let answer : (cl.list_workspace_types org w).0 ≡ ok ts = ground (arith, found) in
      let reached : (list w).1 ≡ (cl.list_workspace_types org w).1 = ground (arith, answer) in
      let (all, kept) = laws.listed org ts w answer in
      let (v, before, e) =
        patch_each_lem org (org ∷ []) ts (list w).1 (carry step h) u
          (subst (λ (r : Result (Unit {0}) × W). Listed u (laws.types r.1 org)) step listed) in
      let inside =
        subst (λ us. Listed v us) (ap (λ x. laws.types x org) reached ∙ kept ∙ sym all) before in
      ap (λ (x : WorkspaceType). x.authentication_configurations) e
      ∙ patches_of-Listed (org ∷ []) ts v inside
