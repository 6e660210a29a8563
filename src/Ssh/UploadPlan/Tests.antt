-- ===== src/Ssh/UploadPlan/Tests.antt =====
-- A scan of a folder with a file, and its witness.
use Prim.Native.String.{String}
use lab_remote_go.Common.{◌≤◌, ◌≡◌, refl, Bool, true, false, [], ◌∷◌, arith}
use lab_remote_go.Ssh.UploadPlan.{
  UploadEntry, UploadPlan, max_int64, mark_seen, add_upload_entry, add_entries,
}
use lab_remote_go.Ssh.UploadPlan.Totals.{of_kind, file_bytes, DistinctPaths, add_entries-total}

abbrev folder : UploadEntry
folder = record {
  local_path = "/a";
  relative_path = "a";
  display_name = "a";
  size = 0;
  mod_time = 0;
  is_directory = true;
}

abbrev file : UploadEntry
file = record folder { local_path = "/a/b"; relative_path = "a/b"; size = 7; is_directory = false }

abbrev made : UploadPlan × (String → Bool)
made = (
  record { directories = folder ∷ []; files = file ∷ []; total_bytes = 7 },
  mark_seen "a/b" (mark_seen "a" (λ p. false)),
)

add_entries-total_example :
    let es = folder ∷ file ∷ [] in
    (made.0.files ≡ of_kind false es)
    × (made.0.directories ≡ of_kind true es)
    × (made.0.total_bytes ≡ file_bytes es)
    × (made.0.total_bytes ≤ max_int64)
    × DistinctPaths es
unfolding add_entries add_upload_entry
add_entries-total_example =
    add_entries-total (folder ∷ file ∷ []) made (omega arith, (omega arith, tt)) refl
