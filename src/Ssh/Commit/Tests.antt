-- ===== src/Ssh/Commit/Tests.antt =====
-- Runs and witnesses for the upload of one file to a server in memory.
use lab_remote_go.Common.{
  ℕ, ◌+◌, ◌≡◌, ◌≢◌, refl, ap, append-nil, true, false, [], ◌∷◌, ◌++◌, none, some, arith, ◌==◌,
  Bytes,
}
use lab_remote_go.Common.Results.{ok}
use lab_remote_go.Common.Texts.{Text, member, split_on}
use lab_remote_go.Common.Paths.{slash, codes, path_join, path_dir}
use lab_remote_go.Ssh.Sftp.{Node}
use lab_remote_go.Ssh.Upload.{
  dispatch, result, returned, run_transfer, step_transfer, conclude, write_upload_file, collect,
  acknowledge, flush_progress, advance, request_concurrency,
}
use lab_remote_go.Ssh.Commit.{
  LocalFile, FileUpload, Course, local_file_fingerprint, part_prefix, resumable_upload_path,
  remove_stale, clean_stale_upload_parts, prepare,
}
use lab_remote_go.Ssh.Commit.Transfer.{transfer_part}
use lab_remote_go.Ssh.Commit.Rename.{commit, upload_file}
use lab_remote_go.Ssh.Commit.Parts.{IsSpared}
use lab_remote_go.Ssh.Commit.Whole.{IsOutcome, upload_file-Outcome}
use lab_remote_go.Ssh.Commit.Others.{upload_file-others}
use lab_remote_go.Ssh.Commit.Memory.{Files, put, text_node, memory_sftp, memory_sftp-IsLawful}

abbrev digest : Bytes → Bytes
digest bytes = 1 ∷ 2 ∷ 3 ∷ 4 ∷ 5 ∷ 6 ∷ 7 ∷ []

abbrev report : LocalFile
report = record {
  is_regular = true;
  opens = true;
  size = 3;
  mod_time = 9;
  bytes = λ p. p + 65;
  reads_head = true;
  reads_tail = true;
  seeks = true;
}

abbrev target : Text
target = codes "/r/a"

abbrev replacing : FileUpload
replacing = record {
  size = 3;
  mod_time = 9;
  destination = target;
  overwrite = true;
  resume = true;
  parallel_files = 1;
}

abbrev smooth : Course
smooth = record {
  ended_before = false;
  events = dispatch ∷ result 0 true (returned 2 false) ∷ [];
  reached = 0;
  ended_in_transfer = false;
  ended_after = false;
}

abbrev part : Text
part = codes "/r/.labremote-010203040506-010203040506.part"

abbrev prefix : Text
prefix = codes ".labremote-010203040506-"

abbrev bystander : Node
bystander = text_node 2 (λ p. 7)

-- an old file, its first byte under the temporary name, and another file
abbrev before : Files
before =
    put target (some (text_node 5 (λ p. 0)))
      (put part (some (text_node 1 (λ p. 65))) (put (codes "/r/b") (some bystander) (λ q. none)))

part_named : resumable_upload_path digest report target ≡ ok (part, prefix)
unfolding resumable_upload_path local_file_fingerprint part_prefix path_dir path_join
part_named = refl

-- The upload goes on behind the byte that is there, and replaces the old file.
replaced : (upload_file memory_sftp digest report replacing smooth before).1 ≡ ok 3
unfolding upload_file resumable_upload_path local_file_fingerprint part_prefix path_dir path_join
    prepare clean_stale_upload_parts remove_stale transfer_part commit write_upload_file
    run_transfer step_transfer conclude collect acknowledge flush_progress advance
    request_concurrency
replaced = refl

split_on-plain : (name : Text) → member slash name ≡ false → split_on slash name ≡ name ∷ []
split_on-plain [] h = refl
split_on-plain (c ∷ s) h = ground (arith, split_on-plain s)

joined_at :
    (name : Text)
    → member slash name ≡ false
    → path_join (codes "/r") (46 ∷ 108 ∷ name) ≡ codes "/r/" ++ 46 ∷ 108 ∷ name
unfolding path_join
joined_at name plain =
    rw (split_on-plain name plain) (ap (λ t. codes "/r/" ++ 46 ∷ 108 ∷ t) (append-nil name))

third_differs :
    (letter : ℕ) (name : Text)
    → (letter == 46) ≡ false
    → codes "/r/" ++ letter ∷ [] ≢ codes "/r/" ++ 46 ∷ 108 ∷ name
third_differs letter name no_dot e = ground arith

-- A part's name begins with a dot, so it is no file of one letter.
spared :
    (letter : ℕ)
    → (letter == 46) ≡ false
    → IsSpared (codes "/r") prefix part (codes "/r/" ++ letter ∷ [])
spared letter no_dot [] plain p other = absurd (cc)
spared letter no_dot (c ∷ []) plain p other = absurd (ground arith)
spared letter no_dot (c ∷ e ∷ name) plain p other =
    let first : c ≡ 46 = ground arith in
    let second : e ≡ 108 = ground arith in
    rw (first, second) (rw (joined_at name (ground arith)) (third_differs letter name no_dot))

part_ne-target : part ≢ target
part_ne-target e = ground arith

b_ne-part : codes "/r/b" ≢ part
b_ne-part e = ground arith

b_ne-target : codes "/r/b" ≢ target
b_ne-target e = ground arith

-- The old file is replaced by the whole new one.
upload_file-Outcome_example :
    let out = upload_file memory_sftp digest report replacing smooth before in
    IsOutcome report replacing (before target) (before part) (out.0 target) out.1
unfolding path_dir
upload_file-Outcome_example =
    upload_file-Outcome memory_sftp memory_sftp-IsLawful report replacing smooth part prefix digest
      before part_named part_ne-target (spared 97 refl) (omega arith) (omega arith)

upload_file-others_example :
    (upload_file memory_sftp digest report replacing smooth before).0 (codes "/r/b")
    ≡ some bystander
unfolding path_dir
upload_file-others_example =
    upload_file-others memory_sftp memory_sftp-IsLawful report replacing smooth part prefix
      (codes "/r/b") bystander b_ne-part b_ne-target (spared 98 refl) digest before part_named refl
