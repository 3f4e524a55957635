-- ===== src/AccountPath/Laws.antt =====
-- The organisation of an account's path.
use security_operator.Prelude.{String, List, [], ◌∷◌, ok, ◌≡◌, true, arith, eq_iff}
use security_operator.Prelude.Text.{split, join, split-join, AllLack, split-AllLack}
use security_operator.AccountPath.{PathLib, PathLaws, is_below_orgs, new_account_path, is_org, org}

module _ {P : Type 0} (lib : PathLib P) (laws : PathLaws lib) where
  -- What the first three parts of a split text are, as a text.
  parts_of :
      (parts : List String)
      → is_below_orgs parts ≡ true
      → (name : String) × (rest : List String) × (parts ≡ "root" ∷ "orgs" ∷ name ∷ rest)
  parts_of [] h = cc
  parts_of (a ∷ []) h = cc
  parts_of (a ∷ b ∷ []) h = cc
  parts_of (a ∷ b ∷ c ∷ rest) h = (c, rest, ground (arith, eq_iff a "root", eq_iff b "orgs"))

  split_three :
      (a b c : String) (rest : List String)
      → AllLack b':' (a ∷ b ∷ c ∷ rest)
      → split (join (a ∷ b ∷ c ∷ []) ":") b':' ≡ a ∷ b ∷ c ∷ []
  split_three a b c rest h = split-join (a ∷ b ∷ c ∷ []) ":" (λ e. cc) (h.0, (h.1.0, (h.1.1.0, tt)))

  org_of :
      {value : String} {a : P} (name : String) (rest : List String)
      → lib.new_path value ≡ a
      → split value b':' ≡ "root" ∷ "orgs" ∷ name ∷ rest
      → org lib a ≡ ok (lib.new_path (join ("root" ∷ "orgs" ∷ name ∷ []) ":"))
  unfolding org
  org_of {value} name rest made parts = rw (← made) (rw (laws.to_string-new_path value, parts))

  -- For every account path there is an organisation: taking it does not panic, its parts are root,
  -- orgs and the third part of the account's path, and it is an organisation's path whose own
  -- organisation is itself.
  pub org-new_account_path :
      (value : String) (a : P)
      → new_account_path lib value ≡ ok a
      → (name : String) × (rest : List String) × (o : P) × (split value b':'
          ≡ "root" ∷ "orgs" ∷ name ∷ rest)
        × (org lib a ≡ ok o)
        × (split (lib.to_string o) b':' ≡ "root" ∷ "orgs" ∷ name ∷ [])
        × (is_org lib o ≡ true)
        × (org lib o ≡ ok o)
  unfolding new_account_path org is_org
  org-new_account_path value a h =
      let below : is_below_orgs (split value b':') ≡ true = ground arith in
      let made : lib.new_path value ≡ a = ground arith in
      let (name, rest, parts) = parts_of (split value b':') below in
      let lack = rw parts at (split-AllLack value b':') in
      let back = split_three "root" "orgs" name rest lack in
      let text = laws.to_string-new_path in
      (
        name,
        rest,
        lib.new_path (join ("root" ∷ "orgs" ∷ name ∷ []) ":"),
        parts,
        org_of name rest made parts,
        rw (text, back),
        rw (text, back),
        rw (text, back),
      )
