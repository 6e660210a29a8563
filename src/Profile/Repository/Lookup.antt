-- ===== src/Profile/Repository/Lookup.antt =====
-- The repository as a map from identifiers to profiles.
use Prim.Native.String.{String}
use lab_remote_go.Common.{
  ℕ, ◌≡◌, refl, ap₂, Bool, true, false, [], ◌∷◌, Option, none, some, map, if◌then◌else◌, arith,
  Bool-cases, inl, inr,
}
use lab_remote_go.Common.Maps.{str_eq, str_eq_iff}
use lab_remote_go.Common.Results.{Result, err, ok}
use lab_remote_go.Model.Errors.{AppError}
use lab_remote_go.Model.Files.{Disk}
use lab_remote_go.Model.Profiles.{
  ConnectionProfile, ConnectionMode, SshAuthMethod, effective_connection_mode,
  effective_auth_method, validate, mode_unset, isolated_tunnel, direct_ssh, mode_other, auth_unset,
  auth_password, auth_private_key, auth_other,
}
use lab_remote_go.Profile.Repository.{
  RepositoryError, Profiles, with_defaults, read_profiles, find_id, or_not_found, get_profile,
  replace_or_append, without_id, delete_profile, name_taken, upsert_into, upsert_valid,
  upsert_profile,
}

effective_connection_mode-twice :
    (m : ConnectionMode)
    → effective_connection_mode (effective_connection_mode m) ≡ effective_connection_mode m
unfolding effective_connection_mode
effective_connection_mode-twice mode_unset = refl
effective_connection_mode-twice isolated_tunnel = refl
effective_connection_mode-twice direct_ssh = refl
effective_connection_mode-twice (mode_other t) = refl

effective_auth_method-twice :
    (m : SshAuthMethod) → effective_auth_method (effective_auth_method m) ≡ effective_auth_method m
unfolding effective_auth_method
effective_auth_method-twice auth_unset = refl
effective_auth_method-twice auth_password = refl
effective_auth_method-twice auth_private_key = refl
effective_auth_method-twice (auth_other t) = refl

pub with_defaults-twice :
    (p : ConnectionProfile) → with_defaults (with_defaults p) ≡ with_defaults p
with_defaults-twice p =
    rw
      (
        effective_connection_mode-twice p.connection_mode,
        effective_auth_method-twice p.ssh.auth_method,
      )
      refl

pub find_id-replace :
    (id : String) (value : ConnectionProfile) (xs : Profiles)
    → find_id id (replace_or_append value xs)
      ≡ (if str_eq value.id id then some value else find_id id xs)
find_id-replace id value [] = refl
find_id-replace id value (x ∷ xs) = ground (
  arith,
  find_id-replace id value xs,
  str_eq_iff x.id value.id,
  str_eq_iff x.id id,
  str_eq_iff value.id id,
)

pub find_id-without :
    (id gone : String) (xs : Profiles)
    → find_id id (without_id gone xs) ≡ (if str_eq gone id then none else find_id id xs)
find_id-without id gone [] = ground arith
find_id-without id gone (x ∷ xs) = ground (
  arith,
  find_id-without id gone xs,
  str_eq_iff x.id gone,
  str_eq_iff x.id id,
  str_eq_iff gone id,
)

map-replace :
    (value : ConnectionProfile) (xs : Profiles)
    → map with_defaults (replace_or_append value xs)
      ≡ replace_or_append (with_defaults value) (map with_defaults xs)
map-replace value [] = refl
map-replace value (x ∷ xs) = ground (arith, map-replace value xs)

map-without :
    (id : String) (xs : Profiles)
    → map with_defaults (without_id id xs) ≡ without_id id (map with_defaults xs)
map-without id [] = refl
map-without id (x ∷ xs) = ground (arith, map-without id xs)

map-twice : (xs : Profiles) → map with_defaults (map with_defaults xs) ≡ map with_defaults xs
map-twice [] = refl
map-twice (x ∷ xs) = ap₂ (λ p ps. p ∷ ps) (with_defaults-twice x) (map-twice xs)

or_not_found-if :
    (b : Bool) (value : ConnectionProfile) (o : Option ConnectionProfile)
    → or_not_found (if b then some value else o) ≡ (if b then ok value else or_not_found o)
or_not_found-if true value o = refl
or_not_found-if false value o = refl

or_not_found-if_none :
    (b : Bool) (o : Option ConnectionProfile)
    → or_not_found (if b then none else o) ≡ (if b then or_not_found none else or_not_found o)
or_not_found-if_none true o = refl
or_not_found-if_none false o = refl

get_profile-read :
    (disk : Disk) (id : String) (file : Profiles)
    → disk.reads ≡ true
    → get_profile disk id file ≡ or_not_found (find_id id (map with_defaults file))
unfolding get_profile read_profiles
get_profile-read disk id file reads = rw reads refl

module _ (fold : ℕ → ℕ) where
  upsert_into-ok :
      (disk : Disk) (value : ConnectionProfile) (file : Profiles)
      → (upsert_into fold disk value file (read_profiles disk file)).1 ≡ ok tt
      → (disk.reads ≡ true)
        × ((upsert_into fold disk value file (read_profiles disk file)).0
            ≡ replace_or_append value (map with_defaults file))
        × (name_taken fold value (map with_defaults file) ≡ false)
  unfolding read_profiles
  upsert_into-ok disk value file h = elim (Bool-cases disk.reads) [
    | inl reads ↦ (reads, ground arith, ground arith)
    | inr broken ↦ absurd (ground arith)
  ]

  upsert_valid-ok :
      (disk : Disk) (value : ConnectionProfile) (file : Profiles) (r : Result AppError (Unit {0}))
      → (upsert_valid fold disk value file r).1 ≡ ok tt
      → (disk.reads ≡ true)
        × ((upsert_valid fold disk value file r).0
            ≡ replace_or_append value (map with_defaults file))
        × (name_taken fold value (map with_defaults file) ≡ false)
        × (r ≡ ok tt)
  upsert_valid-ok disk value file (err e) h = absurd (cc)
  upsert_valid-ok disk value file (ok u) h =
      let (reads, same, free) = upsert_into-ok disk value file h in (reads, same, free, refl)

  upsert_valid-err :
      (disk : Disk) (value : ConnectionProfile) (file : Profiles) (r : Result AppError (Unit {0}))
      (e : RepositoryError)
      → (upsert_valid fold disk value file r).1 ≡ err e
      → (upsert_valid fold disk value file r).0 ≡ file
  unfolding read_profiles
  upsert_valid-err disk value file (err why) e h = refl
  upsert_valid-err disk value file (ok u) e h = elim (Bool-cases disk.reads) [
    | inl reads ↦ ground arith
    | inr broken ↦ ground arith
  ]

  pub upsert_profile-ok :
      (disk : Disk) (given : ConnectionProfile) (file : Profiles)
      → (upsert_profile fold disk given file).1 ≡ ok tt
      → (disk.reads ≡ true)
        × ((upsert_profile fold disk given file).0
            ≡ replace_or_append (with_defaults given) (map with_defaults file))
        × (name_taken fold (with_defaults given) (map with_defaults file) ≡ false)
        × (validate (with_defaults given) ≡ ok tt)
  unfolding upsert_profile
  upsert_profile-ok disk given file h =
      upsert_valid-ok disk (with_defaults given) file (validate (with_defaults given)) h

  pub upsert_profile-err :
      (disk : Disk) (given : ConnectionProfile) (file : Profiles) (e : RepositoryError)
      → (upsert_profile fold disk given file).1 ≡ err e
      → (upsert_profile fold disk given file).0 ≡ file
  unfolding upsert_profile
  upsert_profile-err disk given file e h =
      upsert_valid-err disk (with_defaults given) file (validate (with_defaults given)) e h

  -- An `Upsert` that succeeds makes `Get` return the profile, its defaults filled in, under its
  -- identifier, and what it returned before under every other one; an `Upsert` that fails changes
  -- nothing.
  pub get_profile-upsert_profile :
      (disk : Disk) (given : ConnectionProfile) (file : Profiles) (id : String)
      → let (file', outcome) = upsert_profile fold disk given file in
        (outcome ≡ ok tt
          → get_profile disk id file'
            ≡ (if str_eq given.id id then ok (with_defaults given) else get_profile disk id file))
        × ((e : RepositoryError) → outcome ≡ err e → file' ≡ file)
  get_profile-upsert_profile disk given file id = (
    (λ h.
        let (reads, same, free, valid) = upsert_profile-ok disk given file h in
        rw
          (
            same,
            get_profile-read disk id
                (replace_or_append (with_defaults given) (map with_defaults file)) reads,
            get_profile-read disk id file reads,
            map-replace (with_defaults given) (map with_defaults file),
            with_defaults-twice given,
            map-twice file,
            find_id-replace id (with_defaults given) (map with_defaults file),
          )
          (or_not_found-if (str_eq given.id id) (with_defaults given)
            (find_id id (map with_defaults file)))),
    (λ e h. upsert_profile-err disk given file e h),
  )

pub delete_profile-ok :
    (disk : Disk) (gone : String) (file : Profiles)
    → (delete_profile disk gone file).1 ≡ ok tt
    → (disk.reads ≡ true)
      × ((delete_profile disk gone file).0 ≡ without_id gone (map with_defaults file))
unfolding delete_profile read_profiles
delete_profile-ok disk gone file h = elim (Bool-cases disk.reads) [
  | inr broken ↦ absurd (ground arith)
  | inl reads ↦ (reads, ground arith)
]

pub delete_profile-err :
    (disk : Disk) (gone : String) (file : Profiles) (e : RepositoryError)
    → (delete_profile disk gone file).1 ≡ err e
    → (delete_profile disk gone file).0 ≡ file
unfolding delete_profile read_profiles
delete_profile-err disk gone file e h = elim (Bool-cases disk.reads) [
  | inr broken ↦ ground arith
  | inl reads ↦ ground arith
]

-- A `Delete` that succeeds makes `Get` fail under the identifier, and leaves the other profiles; one
-- that fails changes nothing.
pub get_profile-delete_profile :
    (disk : Disk) (gone id : String) (file : Profiles)
    → let (file', outcome) = delete_profile disk gone file in
      (outcome ≡ ok tt
        → get_profile disk id file'
          ≡ (if str_eq gone id then or_not_found none else get_profile disk id file))
      × ((e : RepositoryError) → outcome ≡ err e → file' ≡ file)
get_profile-delete_profile disk gone id file = (
  (λ h.
      let (reads, same) = delete_profile-ok disk gone file h in
      rw
        (
          same,
          get_profile-read disk id (without_id gone (map with_defaults file)) reads,
          get_profile-read disk id file reads,
          map-without gone (map with_defaults file),
          map-twice file,
          find_id-without id gone (map with_defaults file),
        )
        (or_not_found-if_none (str_eq gone id) (find_id id (map with_defaults file)))),
  (λ e h. delete_profile-err disk gone file e h),
)
