-- ===== src/ModelGeneration/Calls.antt =====
-- The clients that a binding is finalized with, and what two operations get from them: the
-- organisation of another binding, and the deletion of a model.
use security_operator.Prelude.{
  String, Bool, List, Option, none, some, Exec, Error, ok, err, ◌≡◌, ◌==◌, ◌&&◌, ◌||◌, not, arith,
  bind-eq-ok, context, Bool-cases, inl, inr, true, false, Result-cases, is_not_found, is_no_match,
  eq_iff, carry,
}
use security_operator.Kube.{AccountInfo}
use security_operator.ModelGeneration.{
  ApiBinding, ResourceSchema, Texts, Clusters, ExportClient, org_of_binding, asked, delete_model,
}

module _ {W : Type 0} (texts : Texts) (clusters : Clusters W) where
  -- The calls on clients while a binding is finalized: what is read twice is the same, reading leaves
  -- the models, an AccountInfo is not found exactly where there is none, a model whose deletion
  -- succeeds is gone, and a deletion finds no model only if there is none.
  pub record Env : Type 0 where
    pub has : W → String → Bool
    pub here : AccountInfo
    pub here_ok :
        (w u : W) (get : Exec W AccountInfo)
        → (clusters.cluster_from_context w).0 ≡ ok get
        → ((info : AccountInfo) → (get u).0 ≡ ok info → info ≡ here)
          × ((n : String) → has (get u).1 n ≡ has u n)
    pub here_quiet : (w : W) (n : String) → has (clusters.cluster_from_context w).1 n ≡ has w n
    pub bindings : List ApiBinding
    pub bindings_ok :
        (w : W) (bs : List ApiBinding) → (clusters.list_bindings w).0 ≡ ok bs → bs ≡ bindings
    pub bindings_quiet : (w : W) (n : String) → has (clusters.list_bindings w).1 n ≡ has w n
    pub account_at : String → Option AccountInfo
    pub getter_quiet :
        (c : String) (w : W) (n : String) → has (clusters.account_cluster c w).1 n ≡ has w n
    pub account_ok :
        (c : String) (w u : W) (get : Exec W AccountInfo)
        → (clusters.account_cluster c w).0 ≡ ok get
        → ((info : AccountInfo) → (get u).0 ≡ ok info → account_at c ≡ some info)
          × ((e : Error)
              → (get u).0 ≡ err e
              → (is_not_found e || is_no_match e) ≡ true
              → account_at c ≡ none)
          × ((n : String) → has (get u).1 n ≡ has u n)
    pub exports : ExportClient W
    pub exports_ok :
        (name : String) (w : W) (cl : ExportClient W)
        → (clusters.export_cluster name w).0 ≡ ok cl
        → cl ≡ exports
    pub exports_quiet :
        (name : String) (w : W) (n : String) → has (clusters.export_cluster name w).1 n ≡ has w n
    pub resources : String → List String
    pub resources_ok :
        (name : String) (w : W) (rs : List String)
        → (exports.get_api_export name w).0 ≡ ok rs
        → rs ≡ resources name
    pub resources_quiet :
        (name : String) (w : W) (n : String) → has (exports.get_api_export name w).1 n ≡ has w n
    pub schema : String → ResourceSchema
    pub schema_ok :
        (name : String) (w : W) (r : ResourceSchema)
        → (exports.get_resource_schema name w).0 ≡ ok r
        → r ≡ schema name
    pub schema_quiet :
        (name : String) (w : W) (n : String)
        → has (exports.get_resource_schema name w).1 n ≡ has w n
    pub deleted :
        (name : String) (w : W) (n : String)
        → (exports.delete_model name w).0 ≡ ok tt
        → has (exports.delete_model name w).1 n ≡ (not (n == name) && has w n)
    pub absent :
        (name : String) (w : W) (e : Error)
        → (exports.delete_model name w).0 ≡ err e
        → is_not_found e ≡ true
        → (has w name ≡ false) × ((n : String) → has (exports.delete_model name w).1 n ≡ has w n)

  module _ (env : Env) where
    -- The organisation in whose workspace the cluster of a binding lies.
    abbrev pub org_at : ApiBinding → Option String
    org_at b = elim (env.account_at b.cluster) [
      | none ↦ none
      | some info ↦ some (info.organization).generated_cluster_id
    ]

    asked-cases :
        (b : ApiBinding) (get : Exec W AccountInfo) (w u : W)
        → (clusters.account_cluster b.cluster w).0 ≡ ok get
        → ((o : Option String) → (asked texts clusters get u).0 ≡ ok o → o ≡ org_at b)
          × ((n : String) → env.has (asked texts clusters get u).1 n ≡ env.has u n)
    asked-cases b get w u found =
        let (reads, fails, quiet) = env.account_ok b.cluster w u get found in
        elim (Result-cases (get u).0) [
          | inl (info, read) ↦
              (λ o h. ground (arith, h, read, reads info read), λ n. ground (arith, read, quiet n))
          | inr (inl (e, failed)) ↦ elim (Bool-cases (is_not_found e || is_no_match e)) [
            | inl gone ↦ (
              λ o h. ground (arith, h, failed, gone, fails e failed gone),
              λ n. ground (arith, failed, gone, quiet n),
            )
            | inr other ↦ (
              λ o h. ground (arith, h, failed, other),
              λ n. ground (arith, failed, other, quiet n),
            )
          ]
          | inr (inr (x, panicked)) ↦
              (λ o h. ground (arith, h, panicked), λ n. ground (arith, panicked, quiet n))
        ]

    pub org_ok :
        (b : ApiBinding) (w : W) (o : Option String)
        → (org_of_binding texts clusters b w).0 ≡ ok o
        → o ≡ org_at b
    unfolding org_of_binding
    org_ok b w o h =
        let call = context "getting cluster for binding" (clusters.account_cluster b.cluster) in
        let (get, found, step) = bind-eq-ok call (asked texts clusters) w h in
        let same : (clusters.account_cluster b.cluster w).0 ≡ ok get = ground (arith, found) in
        (asked-cases b get w (call w).1 same).0 o (carry step h)

    pub org_quiet :
        (b : ApiBinding) (w : W) (n : String)
        → env.has (org_of_binding texts clusters b w).1 n ≡ env.has w n
    unfolding org_of_binding
    org_quiet b w n = elim (Result-cases (clusters.account_cluster b.cluster w).0) [
      | inl (get, found) ↦
          let u = (clusters.account_cluster b.cluster w).1 in
          ground (arith, found, (asked-cases b get w u found).1 n, env.getter_quiet b.cluster w n)
      | inr (inl (e, failed)) ↦ ground (arith, failed, env.getter_quiet b.cluster w n)
      | inr (inr (x, panicked)) ↦ ground (arith, panicked, env.getter_quiet b.cluster w n)
    ]

    -- A model whose deletion succeeds, or finds none, is gone.
    pub delete_model_lem :
        (name : String) (w : W) (n : String)
        → (delete_model texts clusters env.exports name w).0 ≡ ok tt
        → env.has (delete_model texts clusters env.exports name w).1 n
          ≡ (not (n == name) && env.has w n)
    delete_model_lem name w n h = elim (Result-cases (env.exports.delete_model name w).0) [
      | inl (x, done) ↦ ground (arith, done, env.deleted name w n done)
      | inr (inl (e, failed)) ↦ elim (Bool-cases (is_not_found e)) [
        | inl gone ↦
            let (none_left, same) = env.absent name w e failed gone in
            elim (Bool-cases (n == name)) [
              | inl it ↦
                  let at : env.has w n ≡ false = rw ((eq_iff n name).0 it) none_left in
                  ground (arith, failed, gone, same n, it, at)
              | inr other ↦ ground (arith, failed, gone, same n, other)
            ]
        | inr kept ↦ ground (arith, h, failed, kept)
      ]
      | inr (inr (x, panicked)) ↦ ground (arith, h, panicked)
    ]
