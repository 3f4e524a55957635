-- ===== src/Subroutine/AuthorizationModel/Rendering.antt =====
-- Discovery compared with a description of its files as one list.
use mathlib.Core.Path.{subst}
use security_operator.Prelude.{
  String, List, [], ◌∷◌, ◌++◌, Exec, Result, ok, ◌≡◌, ◌≢◌, refl, ◌==◌, eq_iff, arith, not, map,
  filter, flat_map, pure, lift, context, bind-ok, ◌>>=◌, Bool-cases, Result-cases, inl, inr,
  if◌then◌else◌,
}
use security_operator.Prelude.Text.{contains, concat, replace_all}
use security_operator.ModelGeneration.{cap_group_to_relation_length}
use security_operator.ModelGeneration.Names.{IsCapped, cap_group-IsCapped}
use security_operator.Subroutine.AuthorizationModel.{
  ModuleFile, ApiResource, ApiResourceList, Template, process_api_resource_into_model, file_name,
  with_group, render_resources, discover_and_render,
}

-- The group that a resource is shown with: its own, or else that of its list, as far as 50 bytes
-- allow for the relation; or else core.
abbrev pub IsGroupOf : String → ApiResource → String → Type 0
IsGroupOf list_group r g =
    (r.group ≢ "" → IsCapped 50 r.name r.group g)
    × (r.group ≡ "" → list_group ≢ "" → IsCapped 50 r.name list_group g)
    × (r.group ≡ "" → list_group ≡ "" → g ≡ "core")

-- The text of a resource is the template's for its names, scope and group.
abbrev pub IsTextOf : Template → String → ApiResource → String → Type 0
IsTextOf execute list_group r text =
    (g : String) × IsGroupOf list_group r g
    × (execute (record {
      name = r.name;
      group = replace_all g 46 "_";
      singular = r.singular_name;
      scope = if r.namespaced then "Namespaced" else "Cluster";
    })
        ≡ ok text)

-- One file for each resource of a list in a group, in that order.
abbrev pub AreFiles : Template → List (String × ApiResource) → List ModuleFile → Type 0
AreFiles execute [] [] = Unit
AreFiles execute [] (f ∷ fs) = ⊥
AreFiles execute (x ∷ xs) [] = ⊥
AreFiles execute (x ∷ xs) (f ∷ fs) =
    (f.name ≡ concat ("internal_core_types_" ∷ (x.1).name ∷ ".fga" ∷ []))
    × IsTextOf execute x.0 x.1 f.contents
    × AreFiles execute xs fs

AreFiles-append :
    (execute : Template) (xs ys : List (String × ApiResource)) (fs gs : List ModuleFile)
    → AreFiles execute xs fs
    → AreFiles execute ys gs
    → AreFiles execute (xs ++ ys) (fs ++ gs)
AreFiles-append execute [] ys [] gs h later = later
AreFiles-append execute [] ys (f ∷ fs) gs h later = absurd h
AreFiles-append execute (x ∷ xs) ys [] gs h later = absurd h
AreFiles-append execute (x ∷ xs) ys (f ∷ fs) gs h later =
    let (named, made, others) = h in (named, made, AreFiles-append execute xs ys fs gs others later)

-- The resources of a list that are no subresources, with the group of the list.
abbrev pub resources_of : String → List ApiResource → List (String × ApiResource)
resources_of group rs = map (λ r. (group, r)) (filter (λ r. not (contains r.name "/")) rs)

process_api_resource-IsTextOf :
    (execute : Template) (r : ApiResource) (text : String)
    → process_api_resource_into_model execute r ≡ ok text
    → (g : String) × (r.group ≢ "" → IsCapped 50 r.name r.group g)
      × (r.group ≡ "" → g ≡ "core")
      × (execute (record {
        name = r.name;
        group = replace_all g 46 "_";
        singular = r.singular_name;
        scope = if r.namespaced then "Namespaced" else "Cluster";
      })
          ≡ ok text)
unfolding process_api_resource_into_model
process_api_resource-IsTextOf execute r text h = elim (Bool-cases (r.group == "")) [
  | inl empty ↦ (
    "core",
    λ named. absurd (named ((eq_iff r.group "").0 empty)),
    λ e. refl,
    rw (process_api_resource_into_model, empty) at h,
  )
  | inr own ↦
      let nonempty : r.group ≢ "" = ground (arith, own, eq_iff r.group "") in
      elim (Result-cases (cap_group_to_relation_length r.group r.name 50)) [
        | inl (g, capped) ↦ (
          g,
          λ named. cap_group-IsCapped r.group r.name g 50 named capped,
          λ e. absurd (nonempty e),
          rw (process_api_resource_into_model, own, capped) at h,
        )
        | inr (inl (e, failed)) ↦ ground (arith, h, own, failed)
        | inr (inr (x, panicked)) ↦ ground (arith, h, own, panicked)
      ]
]

with_group-IsTextOf :
    (execute : Template) (list_group : String) (r : ApiResource) (text : String)
    → process_api_resource_into_model execute (with_group list_group r) ≡ ok text
    → IsTextOf execute list_group r text
with_group-IsTextOf execute list_group r text h =
    let (g, named, plain, made) =
      process_api_resource-IsTextOf execute (with_group list_group r) text h in
    elim (Bool-cases (list_group == "")) [
      | inl l ↦ (
        g,
        (rw l at named, λ e n. absurd (n ((eq_iff list_group "").0 l)), λ e n. rw l at plain e),
        made,
      )
      | inr l ↦
          let listed : list_group ≢ "" = ground (arith, l, eq_iff list_group "") in
          elim (Bool-cases (r.group == "")) [
            | inl o ↦ (
              g,
              (
                λ n. absurd (n ((eq_iff r.group "").0 o)),
                λ e. rw (l, o) at named,
                λ e n. absurd (listed n),
              ),
              made,
            )
            | inr o ↦ (
              g,
              (
                rw (l, o) at named,
                λ e. absurd (ground (arith, o, e, eq_iff r.group "")),
                λ e n. absurd (listed n),
              ),
              made,
            )
          ]
    ]

ok_inj : {A : Type 0} {a b : A} → ok a ≡ ok b → a ≡ b
ok_inj h = cc

module _ {W : Type 0} (discovery : String → Exec W ApiResourceList)
    (parse_group : String → Result String) where
  render_resources_lem :
      (execute : Template) (group : String) (rs : List ApiResource) (w : W)
      (files : List ModuleFile)
      → (render_resources discovery parse_group execute group rs w).0 ≡ ok files
      → AreFiles execute (resources_of group rs) files
  unfolding render_resources
  render_resources_lem execute group [] w files h = subst (AreFiles execute []) (ok_inj h) tt
  render_resources_lem execute group (r ∷ rs) w files h =
      let rest = render_resources discovery parse_group execute group rs in
      elim (Bool-cases (contains r.name "/")) [
        | inl sub ↦ rw sub (render_resources_lem execute group rs w files (rw sub at h))
        | inr own ↦
            let text = process_api_resource_into_model execute (with_group group r) in
            let file : String → ModuleFile = λ t. record { name = file_name r; contents = t } in
            let (t, rendered, h₁) =
              bind-ok (context "process api resource" (lift text))
                (λ t. rest >>= λ fs. pure (file t ∷ fs)) w {b = files} (ground (arith, own)) in
            let (fs, others, h₂) =
              bind-ok rest (λ fs. pure (file t ∷ fs)) w {b = files}
                (ground (arith, rendered, h₁)) in
            let made : text ≡ ok t = ground (arith, rendered) in
            rw own (
              subst (AreFiles execute ((group, r) ∷ resources_of group rs)) (ok_inj h₂) (
                refl,
                with_group-IsTextOf execute group r t made,
                render_resources_lem execute group rs w fs others,
              ))
      ]

  -- Where discovery answers with the same list whenever it answers for a group and version, a
  -- successful run gives one file for each resource that is no subresource, in the order of the
  -- groups and versions, and of each list. Its text is the template's for the names, the scope and
  -- the group of the resource, where dots in the group become underscores. The group is the
  -- resource's own, or else that of its list, with its longest end that keeps the relation within
  -- 50 bytes; without both it is core.
  pub discover_and_render_equiv :
      (execute : Template) (answer : String → ApiResourceList) (group : String → String)
      (gvs : List String) (w : W) (files : List ModuleFile)
      → ((gv : String) (u : W) (l : ApiResourceList) → (discovery gv u).0 ≡ ok l → l ≡ answer gv)
      → ((gv g : String) → parse_group gv ≡ ok g → g ≡ group gv)
      → (discover_and_render discovery parse_group execute gvs w).0 ≡ ok files
      → AreFiles execute
          (flat_map
            (λ gv. resources_of (group (answer gv).group_version) (answer gv).api_resources)
            gvs)
          files
  unfolding discover_and_render
  discover_and_render_equiv execute answer group [] w files answers groups h =
      subst (AreFiles execute []) (ok_inj h) tt
  discover_and_render_equiv execute answer group (gv ∷ gvs) w files answers groups h =
      let find = context "discover resources" (discovery gv) in
      let parse : ApiResourceList → Exec W String =
        λ l. context "parse group version" (lift (parse_group l.group_version)) in
      let render : String → ApiResourceList → Exec W (List ModuleFile) =
        λ g l. render_resources discovery parse_group execute g l.api_resources in
      let rest = discover_and_render discovery parse_group execute gvs in
      let join : List ModuleFile → Exec W (List ModuleFile) =
        λ fs. rest >>= λ more. pure (fs ++ more) in
      let (l, found, h₁) = bind-ok find (λ l. parse l >>= λ g. render g l >>= join) w h in
      let w₁ = (find w).1 in
      let (g, parsed, h₂) = bind-ok (parse l) (λ g. render g l >>= join) w₁ h₁ in
      let w₂ = (parse l w₁).1 in
      let (fs, rendered, h₃) = bind-ok (render g l) join w₂ h₂ in
      let w₃ = (render g l w₂).1 in
      let (more, others, h₄) = bind-ok rest (λ more. pure (fs ++ more)) w₃ h₃ in
      let wanted : String → List (String × ApiResource) =
        λ gv. resources_of (group (answer gv).group_version) (answer gv).api_resources in
      let listed : l ≡ answer gv = answers gv w l (ground (arith, found)) in
      let in_group : g ≡ group (answer gv).group_version =
        ground (arith, parsed, groups l.group_version g, listed) in
      let here : resources_of g l.api_resources ≡ wanted gv = ground (arith, in_group, listed) in
      subst (AreFiles execute (wanted gv ++ flat_map wanted gvs)) (ok_inj h₄) (
        AreFiles-append execute (wanted gv) (flat_map wanted gvs) fs more
          (subst (λ xs. AreFiles execute xs fs) here
            (render_resources_lem execute g l.api_resources w₂ fs rendered))
          (discover_and_render_equiv execute answer group gvs w₃ more answers groups others))
