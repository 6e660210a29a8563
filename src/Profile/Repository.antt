-- ===== src/Profile/Repository.antt =====
-- internal/profile/json_repository.go: the profiles in one file, which is the list `values`. `fold` is
-- the case folding of `strings.EqualFold`, a table of Unicode.
pub mod Lookup
pub mod Names
mod Tests
use Prim.Native.String.{String}
use lab_remote_go.Common.{
  ℕ, Bool, true, false, not, ◌&&◌, ◌||◌, List, [], ◌∷◌, Option, none, some, map, if◌then◌else◌,
}
use lab_remote_go.Common.Maps.{str_eq}
use lab_remote_go.Common.Results.{Result, err, ok, ◌>>=◌, ◌>>◌, fail_if}
use lab_remote_go.Common.Texts.{Text, trim_space, text_eq, text_lt}
use lab_remote_go.Model.Errors.{AppError, new_app_error}
use lab_remote_go.Model.Files.{Disk}
use lab_remote_go.Model.Profiles.{
  ConnectionProfile, effective_auth_method, effective_connection_mode, validate, profile_invalid,
}

pub data RepositoryError : Type 0 where
  app : AppError → RepositoryError
  file_failed : RepositoryError

abbrev pub Profiles : Type 0
Profiles = List ConnectionProfile

-- the two defaults that `read` and `Upsert` fill in
abbrev pub with_defaults : ConnectionProfile → ConnectionProfile
with_defaults p = record p {
  connection_mode = effective_connection_mode p.connection_mode;
  ssh = record p.ssh { auth_method = effective_auth_method p.ssh.auth_method };
}

unfoldable pub read_profiles : Disk → Profiles → Result RepositoryError Profiles
read_profiles disk values = if disk.reads then ok (map with_defaults values) else err file_failed

-- `r.write(values)`: the file after it, and the error
abbrev pub write_profiles :
    Disk → Profiles → Profiles → Profiles × Result RepositoryError (Unit {0})
write_profiles disk old values = if disk.writes then (values, ok tt) else (old, err file_failed)

abbrev pub find_id : String → Profiles → Option ConnectionProfile
find_id id [] = none
find_id id (value ∷ rest) =
    let later = find_id id rest in if str_eq value.id id then some value else later

abbrev pub or_not_found : Option ConnectionProfile → Result RepositoryError ConnectionProfile
or_not_found none = err (app (new_app_error "PROFILE_NOT_FOUND" "profile" false))
or_not_found (some value) = ok value

unfoldable pub get_profile : Disk → String → Profiles → Result RepositoryError ConnectionProfile
get_profile disk id file = read_profiles disk file >>= λ values. or_not_found (find_id id values)

-- `sort.Slice` by display name
abbrev pub insert_sorted : ConnectionProfile → Profiles → Profiles
insert_sorted p [] = p ∷ []
insert_sorted p (q ∷ rest) =
    let later = insert_sorted p rest in
    if text_lt q.display_name p.display_name then q ∷ later else p ∷ q ∷ rest

abbrev pub sort_profiles : Profiles → Profiles
sort_profiles [] = []
sort_profiles (p ∷ rest) = insert_sorted p (sort_profiles rest)

unfoldable pub list_profiles : Disk → Profiles → Result RepositoryError Profiles
list_profiles disk file = read_profiles disk file >>= λ values. ok (sort_profiles values)

-- The loop replaces the first value with the id; if there is none, the value is appended.
abbrev pub replace_or_append : ConnectionProfile → Profiles → Profiles
replace_or_append value [] = value ∷ []
replace_or_append value (existing ∷ rest) =
    let later = replace_or_append value rest in
    if str_eq existing.id value.id then value ∷ rest else existing ∷ later

abbrev pub without_id : String → Profiles → Profiles
without_id id [] = []
without_id id (value ∷ rest) =
    let later = without_id id rest in if not (str_eq value.id id) then value ∷ later else later

abbrev pub delete_from :
    Disk
    → String
    → Profiles
    → Result RepositoryError Profiles
    → Profiles × Result RepositoryError (Unit {0})
delete_from disk id file (err e) = (file, err e)
delete_from disk id file (ok values) = write_profiles disk file (without_id id values)

unfoldable pub delete_profile :
    Disk → String → Profiles → Profiles × Result RepositoryError (Unit {0})
delete_profile disk id file = delete_from disk id file (read_profiles disk file)

module _ (fold : ℕ → ℕ) where
  abbrev pub same_name : Text → Text → Bool
  same_name s t = text_eq (map fold (trim_space s)) (map fold (trim_space t))

  -- another profile has the name
  abbrev pub name_taken : ConnectionProfile → Profiles → Bool
  name_taken value [] = false
  name_taken value (existing ∷ rest) =
      (not (str_eq existing.id value.id) && same_name existing.display_name value.display_name)
      || name_taken value rest

  abbrev pub upsert_into :
      Disk
      → ConnectionProfile
      → Profiles
      → Result RepositoryError Profiles
      → Profiles × Result RepositoryError (Unit {0})
  upsert_into disk value file (err e) = (file, err e)
  upsert_into disk value file (ok values) =
      if name_taken value values
      then (file, err (app profile_invalid))
      else write_profiles disk file (replace_or_append value values)

  abbrev pub upsert_valid :
      Disk
      → ConnectionProfile
      → Profiles
      → Result AppError (Unit {0})
      → Profiles × Result RepositoryError (Unit {0})
  upsert_valid disk value file (err e) = (file, err (app e))
  upsert_valid disk value file (ok u) = upsert_into disk value file (read_profiles disk file)

  unfoldable pub upsert_profile :
      Disk → ConnectionProfile → Profiles → Profiles × Result RepositoryError (Unit {0})
  upsert_profile disk given file =
      let value = with_defaults given in upsert_valid disk value file (validate value)
