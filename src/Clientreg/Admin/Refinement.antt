-- ===== src/Clientreg/Admin/Refinement.antt =====
-- Sequences of calls on realms, and the map from names to representations that they work on.
use security_operator.Prelude.{
  String, Bool, List, [], ◌∷◌, Option, none, some, Exec, Result, ok, pure, ◌>>=◌, ◌>>◌, ◌≡◌, ◌≢◌,
  ap, ◌∙◌, arith, ◌==◌, if◌then◌else◌, true, false, bind-eq-ok, carry,
}
use mathlib.Core.Path.{subst⁻¹}
use security_operator.Realm.{RealmConfig}
use security_operator.Clientreg.Codec.{Codec}
use security_operator.Clientreg.Admin.{
  AdminClient, realm_exists, create_or_update_realm, delete_realm,
}
use security_operator.Clientreg.Admin.Realms.{RealmApi, realm_exists_lem, delete_realm_lem}
use security_operator.Clientreg.Admin.Create.{create_or_update_realm_lem}

pub data RealmCall : Type 0 where
  create_or_update : RealmConfig → RealmCall
  remove exists : String → RealmCall

abbrev pub Realms : Type 0
Realms = String → Option String

-- What a call does to the map, and what it answers: a call that creates or updates answers whether
-- the realm was new, a deletion answers nothing.
abbrev pub Step : Codec → RealmCall → Bool → Realms → Realms → Type 0
Step codec (create_or_update config) new m m' =
    (body : String) × (codec.marshal_realm config ≡ ok body)
    × (new ≡ true → m config.realm ≡ none)
    × (new ≡ false → m config.realm ≢ none)
    × ((x : String) → m' x ≡ (if x == config.realm then some body else m x))
Step codec (remove r) b m m' = (x : String) → m' x ≡ (if x == r then none else m x)
Step codec (exists r) b m m' =
    (b ≡ true → m r ≢ none) × (b ≡ false → m r ≡ none) × ((x : String) → m' x ≡ m x)

-- Calls with their answers, from one map to another.
pub data Steps (codec : Codec) : List RealmCall → List Bool → Realms → Realms → Type 0 where
  stop : (m : Realms) → Steps codec [] [] m m
  go :
      (call : RealmCall) (calls : List RealmCall) (b : Bool) (bs : List Bool) (m m' m'' : Realms)
      → Step codec call b m m'
      → Steps codec calls bs m' m''
      → Steps codec (call ∷ calls) (b ∷ bs) m m''

module _ {W : Type 0} (codec : Codec) (c : AdminClient W) where
  abbrev pub perform : RealmCall → Exec W Bool
  perform (create_or_update config) = create_or_update_realm codec c config
  perform (remove r) = do delete_realm codec c r; pure true
  perform (exists r) = realm_exists codec c r

  unfoldable pub perform_all : List RealmCall → Exec W (List Bool)
  perform_all [] = pure []
  perform_all (call ∷ calls) = do b ← perform call; bs ← perform_all calls; pure (b ∷ bs)

  module _ (api : RealmApi codec c) where
    perform-Step :
        (call : RealmCall) (b : Bool) (w : W)
        → (perform call w).0 ≡ ok b
        → Step codec call b (api.realms w) (api.realms (perform call w).1)
    perform-Step (create_or_update config) b w h =
        let (body, text, (absent, there, after)) =
          create_or_update_realm_lem codec c api config b w h in
        (body, text, absent, there, after)
    perform-Step (exists r) b w h = realm_exists_lem codec c api r b w h
    perform-Step (remove r) b w h =
        let (unit, removed, step) = bind-eq-ok (delete_realm codec c r) (λ _. pure true) w h in
        λ x.
          ap (λ (s : Result Bool × W). api.realms s.1 x) step
          ∙ delete_realm_lem codec c api r w removed x

    -- Calls that all succeed are steps on the map of realms, with the answers that were given.
    pub perform_all-Steps :
        (calls : List RealmCall) (bs : List Bool) (w : W)
        → (perform_all calls w).0 ≡ ok bs
        → Steps codec calls bs (api.realms w) (api.realms (perform_all calls w).1)
    unfolding perform_all
    perform_all-Steps [] bs w h =
        let none_left : bs ≡ [] = ground (arith, h) in
        subst⁻¹ (λ xs. Steps codec [] xs (api.realms w) (api.realms w)) none_left
          (stop (api.realms w))
    perform_all-Steps (call ∷ calls) bs w h =
        let rest = λ (b : Bool). (perform_all calls >>= λ bs. pure (b ∷ bs)) in
        let (b, called, s₁) = bind-eq-ok (perform call) rest w h in
        let u = (perform call w).1 in
        let (cs, done, s₂) = bind-eq-ok (perform_all calls) (λ bs. pure (b ∷ bs)) u (carry s₁ h) in
        let steps = s₁ ∙ s₂ in
        let answers : bs ≡ b ∷ cs = ground (arith, steps, h) in
        let end : (perform_all (call ∷ calls) w).1 ≡ (perform_all calls u).1 =
          ap (λ (r : Result (List Bool) × W). r.1) steps in
        subst⁻¹
          (λ xs.
            Steps codec (call ∷ calls) xs (api.realms w)
              (api.realms (perform_all (call ∷ calls) w).1))
          answers
          (subst⁻¹ (λ v. Steps codec (call ∷ calls) (b ∷ cs) (api.realms w) (api.realms v)) end
            (go call calls b cs (api.realms w) (api.realms u) (api.realms (perform_all calls u).1)
              (perform-Step call b w called) (perform_all-Steps calls cs u done)))
