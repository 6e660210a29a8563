-- ===== src/Profile/Repository/Names.antt =====
-- No two profiles have one identifier or one name.
use Prim.Native.String.{String}
use lab_remote_go.Common.{
  ℕ, ◌≡◌, refl, sym, false, not, [], ◌∷◌, none, map, arith, Bool-cases, inl, inr, if-rule,
}
use mathlib.Core.Path.{subst}
use lab_remote_go.Common.Maps.{str_eq, str_eq_iff}
use lab_remote_go.Common.Results.{Result-cases}
use lab_remote_go.Common.Texts.{Text, text_eq, trim_space}
use lab_remote_go.Model.Files.{Disk}
use lab_remote_go.Model.Profiles.{ConnectionProfile}
use lab_remote_go.Profile.Repository.{
  Profiles, with_defaults, find_id, replace_or_append, without_id, delete_profile, same_name,
  name_taken, upsert_profile,
}
use lab_remote_go.Profile.Repository.Lookup.{
  find_id-replace, find_id-without, upsert_profile-ok, upsert_profile-err, delete_profile-ok,
  delete_profile-err,
}

text_eq-sym : (s t : Text) → text_eq s t ≡ text_eq t s
text_eq-sym [] [] = refl
text_eq-sym [] (d ∷ t) = refl
text_eq-sym (c ∷ s) [] = refl
text_eq-sym (c ∷ s) (d ∷ t) = ground (arith, text_eq-sym s t)

find_id-defaults :
    (id : String) (xs : Profiles) → find_id id xs ≡ none → find_id id (map with_defaults xs) ≡ none
find_id-defaults id [] h = refl
find_id-defaults id (x ∷ xs) h = ground (arith, find_id-defaults id xs)

module _ (fold : ℕ → ℕ) where
  -- no identifier and no name stands twice
  abbrev pub Distinct : Profiles → Type 0
  Distinct [] = Unit {0}
  Distinct (x ∷ xs) = (find_id x.id xs ≡ none) × (name_taken fold x xs ≡ false) × Distinct xs

  same_name-sym : (s t : Text) → same_name fold s t ≡ same_name fold t s
  same_name-sym s t = text_eq-sym (map fold (trim_space s)) (map fold (trim_space t))

  name_taken-replace :
      (x value : ConnectionProfile) (xs : Profiles)
      → name_taken fold x xs ≡ false
      → same_name fold value.display_name x.display_name ≡ false
      → name_taken fold x (replace_or_append value xs) ≡ false
  name_taken-replace x value [] h ne = ground arith
  name_taken-replace x value (y ∷ ys) h ne = ground (arith, name_taken-replace x value ys)

  replace-Distinct :
      (value : ConnectionProfile) (xs : Profiles)
      → Distinct xs
      → name_taken fold value xs ≡ false
      → Distinct (replace_or_append value xs)
  replace-Distinct value [] h free = (refl, refl, tt)
  replace-Distinct value (x ∷ xs) h free = elim (Bool-cases (str_eq x.id value.id)) [
    | inl same ↦ rw same (ground (arith, h.0, str_eq_iff x.id value.id), ground arith, h.2)
    | inr other ↦
        let later : name_taken fold value xs ≡ false = ground arith in
        let apart : same_name fold value.display_name x.display_name ≡ false =
          ground (arith, same_name-sym value.display_name x.display_name) in
        rw other (
          ground (
            arith,
            h.0,
            find_id-replace x.id value xs,
            str_eq_iff x.id value.id,
            str_eq_iff value.id x.id,
          ),
          name_taken-replace x value xs h.1 apart,
          replace-Distinct value xs h.2 later,
        )
  ]

  name_taken-without :
      (id : String) (x : ConnectionProfile) (xs : Profiles)
      → name_taken fold x xs ≡ false
      → name_taken fold x (without_id id xs) ≡ false
  name_taken-without id x [] h = refl
  name_taken-without id x (y ∷ ys) h = ground (arith, name_taken-without id x ys)

  without-Distinct : (id : String) (xs : Profiles) → Distinct xs → Distinct (without_id id xs)
  without-Distinct id [] h = tt
  without-Distinct id (x ∷ xs) h =
      if-rule Distinct (not (str_eq x.id id)) (x ∷ without_id id xs) (without_id id xs)
        (λ b. (
          ground (arith, h.0, find_id-without x.id id xs),
          name_taken-without id x xs h.1,
          without-Distinct id xs h.2,
        ))
        (λ b. without-Distinct id xs h.2)

  name_taken-defaults :
      (x : ConnectionProfile) (xs : Profiles)
      → name_taken fold x xs ≡ false
      → name_taken fold (with_defaults x) (map with_defaults xs) ≡ false
  name_taken-defaults x [] h = refl
  name_taken-defaults x (y ∷ ys) h = ground (arith, name_taken-defaults x ys)

  defaults-Distinct : (xs : Profiles) → Distinct xs → Distinct (map with_defaults xs)
  defaults-Distinct [] h = tt
  defaults-Distinct (x ∷ xs) h =
      (find_id-defaults x.id xs h.0, name_taken-defaults x xs h.1, defaults-Distinct xs h.2)

  -- `Upsert` and `Delete`, whether they succeed or fail and whatever the disk does, keep the
  -- identifiers distinct, and the names, up to case and the space around them.
  pub upsert_profile-Distinct :
      (disk : Disk) (given : ConnectionProfile) (gone : String) (file : Profiles)
      → Distinct file
      → Distinct (upsert_profile fold disk given file).0
        × Distinct (delete_profile disk gone file).0
  upsert_profile-Distinct disk given gone file h = (
    elim (Result-cases (upsert_profile fold disk given file).1) [
      | inr (e, failed) ↦ subst Distinct (sym (upsert_profile-err fold disk given file e failed)) h
      | inl done ↦
          let (reads, same, free, valid) = upsert_profile-ok fold disk given file done in
          subst Distinct (sym same) (
            replace-Distinct (with_defaults given) (map with_defaults file)
              (defaults-Distinct file h) free)
    ],
    elim (Result-cases (delete_profile disk gone file).1) [
      | inr (e, failed) ↦ subst Distinct (sym (delete_profile-err disk gone file e failed)) h
      | inl done ↦
          let (reads, same) = delete_profile-ok disk gone file done in
          subst Distinct (sym same)
            (without-Distinct gone (map with_defaults file) (defaults-Distinct file h))
    ],
  )
