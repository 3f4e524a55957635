-- ===== src/Subroutine/AuthorizationModel/Current.antt =====
-- The model that a store's status names after a run.
use mathlib.Core.Path.{subst⁻¹}
use security_operator.Prelude.{
  String, List, Option, some, Exec, Result, ok, ◌≡◌, ◌∙◌, arith, ◌==◌, eq_iff, pure, lift,
  bind-eq-ok, carry, ◌>>=◌, Bool-cases, inl, inr, if◌then◌else◌,
}
use security_operator.Api.{Store}
use security_operator.Kube.{Lister}
use security_operator.Subroutine.AuthorizationModel.{
  ModuleFile, ApiResourceList, Libraries, Models, module_files, write_model, update_model, process,
  schema_version, set_model_id,
}

-- What is documented of the models in OpenFGA: each is kept under an ID of its store, a read gives
-- the model that is there and changes none, and a write returns the ID under which the model is then
-- kept, the text of which is that of the model that was sent.
pub record ModelLaws {W U M : Type 0} (lib : Libraries U M) (fga : Models W M) : Type 0 where
  pub kept : W → String → String → Option M
  pub read_ok :
      (store id : String) (w : W) (m : M)
      → (fga.read_authorization_model store id w).0 ≡ ok m
      → (kept w store id ≡ some m)
        × (kept (fga.read_authorization_model store id w).1 store id ≡ some m)
  pub written :
      (store id : String) (m : M) (w : W)
      → (fga.write_authorization_model store m schema_version w).0 ≡ ok id
      → (m' : M) × (kept (fga.write_authorization_model store m schema_version w).1 store id
          ≡ some m')
        × ((raw : String) → lib.marshal m ≡ ok raw → lib.marshal (lib.clear_id m') ≡ ok raw)

module _ {W U M : Type 0} (lib : Libraries U M) (fga : Models W M) (laws : ModelLaws lib fga) where
  -- The model under the store's IDs has the text of the given one, but for its ID.
  abbrev pub Holds : Store → M → W → Type 0
  Holds o desired w =
      (m : M) × (laws.kept w o.status.store_id o.status.authorization_model_id ≡ some m)
      × ((raw : String) → lib.marshal desired ≡ ok raw → lib.marshal (lib.clear_id m) ≡ ok raw)

  write_model-Holds :
      (o o' : Store) (desired : M) (w : W)
      → (write_model lib fga o desired w).0 ≡ ok o'
      → Holds o' desired (write_model lib fga o desired w).1
  unfolding write_model
  write_model-Holds o o' desired w h =
      let store = o.status.store_id in
      let write = fga.write_authorization_model store desired schema_version in
      let (id, sent, step) = bind-eq-ok write (λ id. pure (set_model_id id o)) w h in
      let (m, kept, text) = laws.written store id desired w sent in
      let same : o' ≡ set_model_id id o = ground (arith, step) in
      (m, ground (arith, step, same, kept), text)

  update_model-Holds :
      (o o' : Store) (desired : M) (w : W)
      → (update_model lib fga o desired w).0 ≡ ok o'
      → Holds o' desired (update_model lib fga o desired w).1
  unfolding update_model
  update_model-Holds o o' desired w h =
      let read = fga.read_authorization_model o.status.store_id o.status.authorization_model_id in
      let decide : String → String → Exec W Store =
        λ a b. if a == b then pure o else write_model lib fga o desired in
      let raw : M → Exec W String = λ m. lift (lib.marshal m) in
      let (m, found, s₁) =
        bind-eq-ok read (λ m. raw (lib.clear_id m) >>= λ a. raw desired >>= decide a) w h in
      let u = (read w).1 in
      let (a, current, s₂) =
        bind-eq-ok (raw (lib.clear_id m)) (λ a. raw desired >>= decide a) u (carry s₁ h) in
      let (b, wanted, s₃) = bind-eq-ok (raw desired) (decide a) u (carry (s₁ ∙ s₂) h) in
      let last = s₁ ∙ s₂ ∙ s₃ in
      let kept = laws.read_ok o.status.store_id o.status.authorization_model_id w m found in
      elim (Bool-cases (a == b)) [
        | inl same ↦
            let text : lib.marshal (lib.clear_id m) ≡ lib.marshal desired =
              ground (arith, current, wanted, eq_iff a b) in
            (m, ground (arith, last, same, kept), λ r e. text ∙ e)
        | inr other ↦
            let end : update_model lib fga o desired w ≡ write_model lib fga o desired u =
              ground (arith, last, other) in
            subst⁻¹ (λ (r : Result Store × W). Holds o' desired r.1) end
              (write_model-Holds o o' desired u (carry end h))
      ]

  -- When Process succeeds, the IDs in the returned status name a model in OpenFGA whose text is, but
  -- for its ID, that of the model made of the store's module files: it was written now, or it was
  -- there and had the same text.
  pub process-Holds :
      (cluster : Option String) (lister : Lister W) (host : String)
      (new_discovery_client : String → String → Exec W ApiResourceList) (o o' : Store) (w : W)
      → (process lib fga cluster lister host new_discovery_client o w).0 ≡ ok o'
      → (files : List ModuleFile) × (desired : M) × ((module_files lib fga cluster lister host
            new_discovery_client o w).0
          ≡ ok files)
        × (lib.transform files schema_version ≡ ok desired)
        × Holds o' desired (process lib fga cluster lister host new_discovery_client o w).1
  unfolding process
  process-Holds cluster lister host new_discovery_client o o' w h =
      let collect = module_files lib fga cluster lister host new_discovery_client o in
      let make : List ModuleFile → Exec W M = λ files. lift (lib.transform files schema_version) in
      let put : M → Exec W Store = λ m.
        if o.status.authorization_model_id == ""
        then write_model lib fga o m
        else update_model lib fga o m in
      let run = process lib fga cluster lister host new_discovery_client o w in
      let (files, collected, s₁) = bind-eq-ok collect (λ fs. make fs >>= put) w h in
      let u = (collect w).1 in
      let (desired, made, s₂) = bind-eq-ok (make files) put u (carry s₁ h) in
      let last = s₁ ∙ s₂ in
      (
        files,
        desired,
        collected,
        made,
        elim (Bool-cases (o.status.authorization_model_id == "")) [
          | inl new ↦
              let end : run ≡ write_model lib fga o desired u = last ∙ ground (arith, new) in
              subst⁻¹ (λ (r : Result Store × W). Holds o' desired r.1) end
                (write_model-Holds o o' desired u (carry end h))
          | inr old ↦
              let end : run ≡ update_model lib fga o desired u = last ∙ ground (arith, old) in
              subst⁻¹ (λ (r : Result Store × W). Holds o' desired r.1) end
                (update_model-Holds o o' desired u (carry end h))
        ],
      )
