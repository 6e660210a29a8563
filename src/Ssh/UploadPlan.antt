-- ===== src/Ssh/UploadPlan.antt =====
-- internal/sshclient/upload.go, `addUploadEntry`: the plan of an upload, entry by entry as the scan of
-- the local paths finds them. The scan itself stands for its entries.
pub mod Totals
mod Tests
use Prim.Native.String.{String}
use lab_remote_go.Common.{
  ℕ, ◌+◌, ◌-◌, ◌^◌, Bool, true, false, ◌&&◌, ◌||◌, List, [], ◌∷◌, ◌++◌, if◌then◌else◌, ltb,
}
use lab_remote_go.Common.Maps.{str_eq}
use lab_remote_go.Common.Results.{Result, err, ok, ◌>>=◌, ◌>>◌, fail_if}
use lab_remote_go.Model.Errors.{AppError, new_app_error}

pub record UploadEntry : Type 0 where
  pub local_path : String
  pub relative_path : String
  pub display_name : String
  pub size : ℕ
  pub mod_time : ℕ
  pub is_directory : Bool

pub record UploadPlan : Type 0 where
  pub directories : List UploadEntry
  pub files : List UploadEntry
  pub total_bytes : ℕ

abbrev pub empty_plan : UploadPlan
empty_plan = record { directories = []; files = []; total_bytes = 0 }

abbrev pub max_int64 : ℕ
max_int64 = 2 ^ 63 - 1

abbrev pub mark_seen : String → (String → Bool) → String → Bool
mark_seen path seen = λ p. str_eq path p || seen p

abbrev pub Planning : Type 0
Planning = Result AppError (UploadPlan × (String → Bool))

abbrev pub add_file : UploadEntry → UploadPlan → (String → Bool) → Planning
add_file entry plan seen =
    if ltb 0 entry.size && ltb (max_int64 - entry.size) plan.total_bytes
    then err (new_app_error "UPLOAD_TOO_LARGE" "file_upload" false)
    else ok (
      record plan {
        total_bytes = plan.total_bytes + entry.size;
        files = plan.files ++ (entry ∷ []);
      },
      seen,
    )

abbrev pub add_new : UploadEntry → UploadPlan → (String → Bool) → Planning
add_new entry plan seen =
    if entry.is_directory
    then ok (record plan { directories = plan.directories ++ (entry ∷ []) }, seen)
    else add_file entry plan seen

unfoldable pub add_upload_entry : UploadEntry → UploadPlan → (String → Bool) → Planning
add_upload_entry entry plan seen =
    if seen entry.relative_path
    then err (new_app_error "UPLOAD_DESTINATION_CONFLICT" "file_upload" false)
    else add_new entry plan (mark_seen entry.relative_path seen)

-- the entries of a scan, in its order; the first error ends it
unfoldable pub add_entries : List UploadEntry → UploadPlan → (String → Bool) → Planning
add_entries [] plan seen = ok (plan, seen)
add_entries (entry ∷ rest) plan seen =
    add_upload_entry entry plan seen >>= λ (r : UploadPlan × (String → Bool)).
    add_entries rest r.0 r.1
