-- ===== src/ModelGeneration/Names.antt =====
-- The names of models and of their relations.
use Prim.Native.String.{◌++◌}
use text.Mathlib.TextLemmas.{nil-append}
use security_operator.Prelude.{
  ℕ, ◌+◌, ◌-◌, ◌≤◌, ◌<◌, String, ok, crash, ◌≡◌, ◌≢◌, arith, ltb, eq_iff, Bool-cases, inl, inr, ap,
  false, Option, none, some, ◌↔◌, ◌==◌,
}
use security_operator.Prelude.Text.{
  size, slice_from, slice_from_sound, slice_from-some, slice_from-none, slice_from_cut, size-append,
}
use security_operator.ModelGeneration.{
  relation_name, cap_group_to_relation_length, ResourceSchema, model_group, sliced,
}

size-relation_name : (g r : String) → size (relation_name g r) ≡ 8 + size g + size r
size-relation_name g r =
    omega
      (arith, size-append "create_" (g ++ ("_" ++ r)), size-append g ("_" ++ r), size-append "_" r)

unsliced : (o : Option String) (g : String) → sliced o ≡ ok g → o ≡ some g
unsliced none g h = cc
unsliced (some r) g h = cc

-- CapGroupToRelationLength, for a group that is not empty, returns a group exactly if the resource
-- and the eight bytes of create_ and _ fit the limit; what it then returns keeps the relation within
-- the limit.
pub cap_group_lem :
    (group resource : String) (max_length : ℕ)
    → group ≢ ""
    → (8 + size resource ≤ max_length
        → (g : String) × (cap_group_to_relation_length group resource max_length ≡ ok g)
          × (size (relation_name g resource) ≤ max_length))
      × (max_length < 8 + size resource
          → cap_group_to_relation_length group resource max_length
            ≡ crash "slice bounds out of range")
unfolding cap_group_to_relation_length
cap_group_lem group resource max_length nonempty = (fits, too_long)
  where
    fits :
        8 + size resource ≤ max_length
        → (g : String) × (cap_group_to_relation_length group resource max_length ≡ ok g)
          × (size (relation_name g resource) ≤ max_length)
    fits h = elim (Bool-cases (ltb max_length (size (relation_name group resource)))) [
      | inl longer ↦
          let cut = size (relation_name group resource) - max_length in
          let (g, sliced_to) =
            slice_from-some cut group (omega (arith, size-relation_name group resource)) in
          (
            g,
            ground (arith, longer, sliced_to, eq_iff group ""),
            omega (
              arith,
              slice_from_sound cut group g sliced_to,
              size-relation_name group resource,
              size-relation_name g resource,
            ),
          )
      | inr shorter ↦ (group, ground (arith, shorter, eq_iff group ""), ground (arith, shorter))
    ]

    too_long :
        max_length < 8 + size resource
        → cap_group_to_relation_length group resource max_length ≡ crash "slice bounds out of range"
    too_long h =
        let cut = size (relation_name group resource) - max_length in
        ground (
          arith,
          eq_iff group "",
          size-relation_name group resource,
          slice_from-none cut group (omega (arith, size-relation_name group resource)),
        )

-- The group is the longest end of the whole group with which the relation of the resource keeps the
-- limit.
abbrev pub IsCapped : ℕ → String → String → String → Type 0
IsCapped max_length resource whole g =
    (p : String) × (whole ≡ p ++ g)
    × (max_length < size (relation_name whole resource)
        → size (relation_name g resource) ≡ max_length)
    × (size (relation_name whole resource) ≤ max_length → g ≡ whole)

pub cap_group-IsCapped :
    (group resource g : String) (max_length : ℕ)
    → group ≢ ""
    → cap_group_to_relation_length group resource max_length ≡ ok g
    → IsCapped max_length resource group g
unfolding cap_group_to_relation_length
cap_group-IsCapped group resource g max_length nonempty returned =
    let named : (group == "") ≡ false = ground (arith, eq_iff group "") in
    elim (Bool-cases (ltb max_length (size (relation_name group resource)))) [
      | inl longer ↦
          let cut = size (relation_name group resource) - max_length in
          let beyond : max_length < size (relation_name group resource) = ground (arith, longer) in
          let sliced_to : slice_from cut group ≡ some g =
            unsliced (slice_from cut group) g (rw (longer, named) at returned) in
          let (p, split, len) = slice_from_cut cut group g sliced_to in
          (
            p,
            split,
            λ long. omega (
              arith,
              beyond,
              slice_from_sound cut group g sliced_to,
              size-relation_name group resource,
              size-relation_name g resource,
            ),
            λ fit. absurd (omega (arith, fit, beyond)),
          )
      | inr shorter ↦
          let whole : g ≡ group = ground (arith, shorter, named) in
          (
            "",
            ground (arith, nil-append group, whole),
            λ long. ground (arith, shorter),
            λ fit. whole,
          )
    ]

core_lem :
    (resource g : String) (max_length : ℕ)
    → cap_group_to_relation_length "" resource max_length ≡ ok g
    → size g + ((8 + size resource) - max_length) ≡ 4
unfolding cap_group_to_relation_length
core_lem resource g max_length returned =
    elim (Bool-cases (ltb max_length (size (relation_name "" resource)))) [
      | inl longer ↦
          let cut = size (relation_name "" resource) - max_length in
          let sliced_to : slice_from cut "core" ≡ some g =
            unsliced (slice_from cut "core") g (rw longer at returned) in
          omega (arith, slice_from_sound cut "core" g sliced_to, size-relation_name "" resource)
      | inr shorter ↦
          let core : g ≡ "core" = ground (arith, shorter) in
          let room : size (relation_name "" resource) ≤ max_length = ground (arith, shorter) in
          omega (arith, ap size core, room, size-relation_name "" resource)
    ]

-- With the group that CapGroupToRelationLength returns, the relation exceeds the limit exactly if the
-- given group is empty and the relation of the group core, which is taken then, exceeds the limit.
pub cap_group_exceeds_iff :
    (group resource g : String) (max_length : ℕ)
    → cap_group_to_relation_length group resource max_length ≡ ok g
    → (max_length < size (relation_name g resource))
      ↔ ((group ≡ "") × (max_length < 12 + size resource))
cap_group_exceeds_iff group resource g max_length returned = elim (Bool-cases (group == "")) [
  | inl empty ↦
      let nil = (eq_iff group "").0 empty in
      let core = core_lem resource g max_length (rw nil at returned) in
      let len = size-relation_name g resource in
      (λ h. (nil, omega (arith, len, core, h)), λ h. omega (arith, len, core, h.1))
  | inr named ↦
      let nonempty : group ≢ "" = ground (arith, eq_iff group "", named) in
      (
        λ h. absurd (within (cap_group_lem group resource max_length nonempty) h),
        λ h. absurd (nonempty h.0),
      )
]
  where
    within :
        ((8 + size resource ≤ max_length
            → (g : String) × (cap_group_to_relation_length group resource max_length ≡ ok g)
              × (size (relation_name g resource) ≤ max_length))
          × (max_length < 8 + size resource
              → cap_group_to_relation_length group resource max_length
                ≡ crash "slice bounds out of range"))
        → max_length < size (relation_name g resource)
        → ⊥
    within (fits, panics) h = elim (Bool-cases (ltb max_length (8 + size resource))) [
      | inl long ↦ ground (arith, long, panics)
      | inr room ↦
          let (g', returned', fit) = fits (ground (arith, room)) in
          let same : g' ≡ g = cc in omega (arith, rw same at fit)
    ]

-- If the plural name has at most 42 bytes, the group of a model is an end of the group of its schema:
-- the whole group where the relation that the model is made for has then at most 50 bytes, and
-- otherwise the end with which it has exactly 50. If the plural name has more, computing the group
-- panics.
pub model_group_lem :
    (schema : ResourceSchema)
    → (size schema.plural ≤ 42
        → (g p : String) × (model_group schema ≡ ok g)
          × (schema.group ≡ p ++ g)
          × (50 < size (relation_name schema.group schema.plural)
              → size (relation_name g schema.plural) ≡ 50)
          × (size (relation_name schema.group schema.plural) ≤ 50 → g ≡ schema.group))
      × (42 < size schema.plural → model_group schema ≡ crash "slice bounds out of range")
unfolding model_group
model_group_lem schema = (fits, too_long)
  where
    cut : ℕ
    cut = size (relation_name schema.group schema.plural) - 50

    fits :
        size schema.plural ≤ 42
        → (g p : String) × (model_group schema ≡ ok g)
          × (schema.group ≡ p ++ g)
          × (50 < size (relation_name schema.group schema.plural)
              → size (relation_name g schema.plural) ≡ 50)
          × (size (relation_name schema.group schema.plural) ≤ 50 → g ≡ schema.group)
    fits h = elim (Bool-cases (ltb 50 (size (relation_name schema.group schema.plural)))) [
      | inl longer ↦
          let (g, sliced_to) =
            slice_from-some cut schema.group
              (omega (arith, size-relation_name schema.group schema.plural)) in
          let (p, split, len) = slice_from_cut cut schema.group g sliced_to in
          let beyond : 50 < size (relation_name schema.group schema.plural) =
            ground (arith, longer) in
          (
            g,
            p,
            ground (arith, longer, sliced_to),
            split,
            λ long. omega (
              arith,
              beyond,
              slice_from_sound cut schema.group g sliced_to,
              size-relation_name schema.group schema.plural,
              size-relation_name g schema.plural,
            ),
            λ fit. ground (arith, longer),
          )
      | inr shorter ↦ (
        schema.group,
        "",
        ground (arith, shorter),
        ground (arith, nil-append schema.group),
        λ long. ground (arith, shorter),
        λ fit. λ i. schema.group,
      )
    ]

    too_long : 42 < size schema.plural → model_group schema ≡ crash "slice bounds out of range"
    too_long h = ground (
      arith,
      size-relation_name schema.group schema.plural,
      slice_from-none cut schema.group
          (omega (arith, size-relation_name schema.group schema.plural)),
    )
