-- ===== src/Subroutine/AccountTuples/Laws.antt =====
-- Terminating an account removes what initialising it wrote.
use security_operator.Prelude.{
  ℕ, String, Bool, List, [], ◌∷◌, ◌++◌, Exec, ok, ◌≡◌, refl, sym, ap, ◌∙◌, ◌==◌, ◌&&◌, ◌||◌, not,
  true, false, if◌then◌else◌, arith, any, any-append, context, Bool-cases, inl, inr, eq_iff,
  eq_refl, ◌⊎◌,
}
use security_operator.Prelude.Text.{has_prefix, trim_suffix}
use security_operator.Api.{Tuple, contains_tuple, tuple_eq, tuple_eq_iff}
use security_operator.AccountPath.{PathLib}
use security_operator.Kube.{KcpClientGetter}
use security_operator.Fga.Service.{OpenFga, WriteLaws}
use security_operator.Fga.Tuples.{
  InitialTuplesForAccountInput, initial_tuples_for_account, render_role_prefix,
  referencing_account_tuple_key, render_account_entity, render_owner_role,
  render_owner_role_assignee_group, creator_tuple, group_tuple, parent_tuple,
}
use security_operator.Fga.Tuples.Laws.{has_prefix-owner_group, trim_suffix-owner_group}
use security_operator.Fga.Manager.{TupleManager, apply, delete, list_with_key}
use security_operator.Fga.Manager.Laws.{holds-apply, holds-delete}
use security_operator.Fga.Manager.Listing.{object_key, ReadLaws, list_with_key-Pages}
use security_operator.Subroutine.AccountTuples.{Config, role_references, delete_account_tuples}

-- The tuple is of a role that one of the listed tuples names.
abbrev pub of_role : String → List Tuple → Tuple → Bool
of_role role_prefix ts t =
    any (λ u. has_prefix u.user role_prefix && t.object == trim_suffix u.user "#assignee") ts

module _ {W P : Type 0} (fga : OpenFga W) (lib : PathLib P) (kcp : KcpClientGetter W)
    (get_store_id : String → Exec W String) (cfg : Config) (laws : WriteLaws fga) (fuel : ℕ)
    (reads : ReadLaws fga laws fuel) where
  open laws use {holds, counted}

  abbrev pub after_list : TupleManager → String → W → W
  after_list tm object w = fga.count "list" "success" (reads.left w tm.store_id object)

  list_lem :
      (tm : TupleManager) (object : String) (w : W)
      → list_with_key fga fuel tm (object_key object) w
        ≡ (ok (reads.found w tm.store_id object), after_list tm object w)
  list_lem tm object w =
      list_with_key-Pages fga tm (object_key object) fuel (reads.pages tm object w)
        (reads.room w tm.store_id object)

  after_list-holds :
      (tm : TupleManager) (object : String) (w : W) (s : String) (t : Tuple)
      → holds (after_list tm object w) s t ≡ holds w s t
  after_list-holds tm object w s t =
      counted "list" "success" _ s t ∙ reads.quiet w tm.store_id object s t

  record Collected (tm : TupleManager) (role_prefix : String) (ts : List Tuple) (w : W)
      : Type 0 where
    tuples : List Tuple
    world : W
    answer :
        role_references fga lib kcp get_store_id cfg fuel tm role_prefix ts w ≡ (ok tuples, world)
    quiet : (s : String) (t : Tuple) → holds world s t ≡ holds w s t
    exact :
        (t : Tuple) → contains_tuple t tuples ≡ (of_role role_prefix ts t && holds w tm.store_id t)

  collect :
      (tm : TupleManager) (role_prefix : String) (ts : List Tuple) (w : W)
      → Collected tm role_prefix ts w
  unfolding role_references
  collect tm role_prefix [] w = record {
    tuples = [];
    world = w;
    answer = refl;
    quiet = λ s t. refl;
    exact = λ t. refl;
  }
  collect tm role_prefix (u ∷ us) w = elim (Bool-cases (has_prefix u.user role_prefix)) [
    | inr other ↦
        let c = collect tm role_prefix us w in
        record {
          tuples = c.tuples;
          world = c.world;
          answer = rw other c.answer;
          quiet = c.quiet;
          exact = λ t. rw other (c.exact t);
        }
    | inl role ↦
        let object = trim_suffix u.user "#assignee" in
        let c = collect tm role_prefix us (after_list tm object w) in
        record {
          tuples = reads.found w tm.store_id object ++ c.tuples;
          world = c.world;
          answer = rw role (rw (list_lem tm object w) (rw c.answer refl));
          quiet = λ s t. c.quiet s t ∙ after_list-holds tm object w s t;
          exact = λ t. ground (
            arith,
            role,
            any-append (tuple_eq t) (reads.found w tm.store_id object) c.tuples,
            c.exact t,
            reads.exact w tm.store_id object t,
            after_list-holds tm object w tm.store_id t,
          );
        }
  ]

  module _ (tm : TupleManager) (cluster name : String) (w : W) where
    abbrev pub entity : String
    entity = render_account_entity cfg.object_type cluster name

    abbrev pub prefix : String
    prefix = render_role_prefix cfg.object_type cluster name

    abbrev pub listed : List Tuple
    listed = reads.found w tm.store_id entity

    collected : Collected tm prefix listed (after_list tm entity w)
    collected = collect tm prefix listed (after_list tm entity w)

    delete_account_tuples-step :
        delete_account_tuples fga lib kcp get_store_id cfg fuel tm cluster name w
        ≡ context "deleting tuples for Account"
            (delete fga tm (listed ++ collected.tuples))
            collected.world
    unfolding delete_account_tuples referencing_account_tuple_key
    delete_account_tuples-step = rw (list_lem tm entity w) (rw collected.answer refl)

    gone-exact :
        (t : Tuple)
        → contains_tuple t (listed ++ collected.tuples)
          ≡ ((t.object == entity || of_role prefix listed t) && holds w tm.store_id t)
    gone-exact t = ground (
      arith,
      any-append (tuple_eq t) listed collected.tuples,
      collected.exact t,
      reads.exact w tm.store_id entity t,
      after_list-holds tm entity w tm.store_id t,
    )

    pub delete_account_tuples_lem :
        (s : String) (t : Tuple)
        → (delete_account_tuples fga lib kcp get_store_id cfg fuel tm cluster name w).0 ≡ ok tt
        → holds (delete_account_tuples fga lib kcp get_store_id cfg fuel tm cluster name w).1 s t
          ≡ (if s == tm.store_id
              then not (t.object == entity || of_role prefix listed t) && holds w s t
              else holds w s t)
    delete_account_tuples_lem s t done =
        let gone = listed ++ collected.tuples in
        ground (
          arith,
          delete_account_tuples-step,
          done,
          holds-delete fga laws tm gone collected.world s t,
          gone-exact t,
          collected.quiet s t,
          after_list-holds tm entity w s t,
          eq_iff s tm.store_id,
        )

  -- A held tuple that names a role of the account brings in the tuples of that role.
  of_role-found :
      (s object role_prefix : String) (u t : Tuple) (w : W)
      → holds w s u ≡ true
      → u.object ≡ object
      → has_prefix u.user role_prefix ≡ true
      → t.object ≡ trim_suffix u.user "#assignee"
      → of_role role_prefix (reads.found w s object) t ≡ true
  of_role-found s object role_prefix u t w held at role eq =
      any-found u (reads.found w s object)
        (ground (arith, reads.exact w s object u, eq_iff u.object object))
        (ground (arith, role, eq_iff t.object (trim_suffix u.user "#assignee")))
    where
      any-found :
          (u : Tuple) (us : List Tuple)
          → contains_tuple u us ≡ true
          → (has_prefix u.user role_prefix && t.object == trim_suffix u.user "#assignee") ≡ true
          → of_role role_prefix us t ≡ true
      any-found u [] h k = cc
      any-found u (v ∷ vs) h k = elim (Bool-cases (tuple_eq u v)) [
        | inl same ↦ rw (← (tuple_eq_iff u v).0 same) (ground (arith, k))
        | inr other ↦ ground (arith, any-found u vs (rw other at h) k)
      ]

  module _ (i : InitialTuplesForAccountInput) (tm : TupleManager) where
    abbrev pub deletion : Exec W (Unit {0})
    deletion =
        delete_account_tuples fga lib kcp get_store_id cfg fuel tm i.base.account_origin_cluster_id
          i.base.account_name

    gone_entity :
        (w : W) (t : Tuple)
        → (deletion w).0 ≡ ok tt
        → t.object
          ≡ render_account_entity cfg.object_type i.base.account_origin_cluster_id
              i.base.account_name
        → holds (deletion w).1 tm.store_id t ≡ false
    gone_entity w t done at = ground (
      arith,
      delete_account_tuples_lem tm i.base.account_origin_cluster_id i.base.account_name w
          tm.store_id t done,
      eq_refl tm.store_id,
      eq_iff t.object (
          render_account_entity cfg.object_type i.base.account_origin_cluster_id
            i.base.account_name),
    )

    gone_creator :
        (w : W)
        → i.base.object_type ≡ cfg.object_type
        → (deletion w).0 ≡ ok tt
        → holds w tm.store_id (group_tuple i.base) ≡ true
        → holds (deletion w).1 tm.store_id (creator_tuple i.base) ≡ false
    gone_creator w same done held =
        let o = cfg.object_type in
        let c = i.base.account_origin_cluster_id in
        let n = i.base.account_name in
        let at_group : (group_tuple i.base).object ≡ render_account_entity o c n =
          ap (λ x. render_account_entity x c n) same in
        let group : (group_tuple i.base).user ≡ render_owner_role_assignee_group o c n =
          ap (λ x. render_owner_role_assignee_group x c n) same in
        let role : has_prefix (group_tuple i.base).user (render_role_prefix o c n) ≡ true =
          rw group (has_prefix-owner_group o c n) in
        let named : (creator_tuple i.base).object
            ≡ trim_suffix (group_tuple i.base).user "#assignee" =
          rw group (ap (λ x. render_owner_role x c n) same ∙ sym (trim_suffix-owner_group o c n)) in
        ground (
          arith,
          delete_account_tuples_lem tm c n w tm.store_id (creator_tuple i.base) done,
          eq_refl tm.store_id,
          of_role-found tm.store_id (render_account_entity o c n) (render_role_prefix o c n)
              (group_tuple i.base) (creator_tuple i.base) w held at_group role named,
        )

  one_of_three :
      (i : InitialTuplesForAccountInput) (ts : List Tuple) (t : Tuple)
      → initial_tuples_for_account i ≡ ok ts
      → contains_tuple t ts ≡ true
      → (t ≡ creator_tuple i.base) ⊎ (t.object ≡ (group_tuple i.base).object)
  unfolding initial_tuples_for_account
  one_of_three i ts t built member = ground (
    arith,
    tuple_eq_iff t (creator_tuple i.base),
    tuple_eq_iff t (group_tuple i.base),
    tuple_eq_iff t (parent_tuple i),
  )

  group_member :
      (i : InitialTuplesForAccountInput) (ts : List Tuple)
      → initial_tuples_for_account i ≡ ok ts
      → contains_tuple (group_tuple i.base) ts ≡ true
  unfolding initial_tuples_for_account
  group_member i ts built = ground (arith, tuple_eq_iff (group_tuple i.base) (group_tuple i.base))

  pub delete-apply :
      (i : InitialTuplesForAccountInput) (ts : List Tuple) (tm : TupleManager) (w : W) (t : Tuple)
      → i.base.object_type ≡ cfg.object_type
      → initial_tuples_for_account i ≡ ok ts
      → (apply fga tm ts w).0 ≡ ok tt
      → (deletion i tm (apply fga tm ts w).1).0 ≡ ok tt
      → contains_tuple t ts ≡ true
      → holds (deletion i tm (apply fga tm ts w).1).1 tm.store_id t ≡ false
  delete-apply i ts tm w t same built written gone member =
      let w1 = (apply fga tm ts w).1 in
      let held : holds w1 tm.store_id (group_tuple i.base) ≡ true = ground (
        arith,
        holds-apply fga laws tm ts w tm.store_id (group_tuple i.base) written,
        eq_refl tm.store_id,
        group_member i ts built,
      ) in
      elim (one_of_three i ts t built member) [
        | inl creator ↦ rw creator (gone_creator i tm w1 same gone held)
        | inr at ↦ gone_entity i tm w1 t gone (
            at
            ∙ ap (λ x. render_account_entity x i.base.account_origin_cluster_id i.base.account_name)
                same)
      ]
