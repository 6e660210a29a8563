-- ===== src/Ssh/RemoteRoot/Tests.antt =====
-- Runs and witnesses for the remote root and the preflight of an upload.
use lab_remote_go.Common.{◌≡◌, refl, false, true, [], ◌∷◌, none, some}
use lab_remote_go.Common.Results.{ok, err}
use lab_remote_go.Common.Texts.{Text}
use lab_remote_go.Common.Paths.{codes, path_clean, path_join}
use lab_remote_go.Ssh.Commit.{app, upload_conflict}
use lab_remote_go.Ssh.Commit.Memory.{Files, put, text_node, memory_sftp, memory_sftp-IsLawful}
use lab_remote_go.Ssh.RemoteRoot.{
  resolve_root, path_refused, prepare_remote_root, check_entries, preflight_upload,
}
use lab_remote_go.Ssh.RemoteRoot.Preflight.{Passed, preflight_upload-Passed}

abbrev home : Text
home = codes "/home/u"

roots :
    (resolve_root home (codes "~/a/../b") ≡ ok (codes "/home/u/b"))
    × (resolve_root home (codes "x") ≡ ok (codes "/home/u/x"))
    × (resolve_root home (codes "/srv//data/") ≡ ok (codes "/srv/data"))
    × (resolve_root home (codes "~root") ≡ err path_refused)
unfolding resolve_root path_join path_clean
roots = (refl, refl, refl, refl)

prepared : (prepare_remote_root memory_sftp false (codes " ~ ") (λ q. none)).1 ≡ ok (codes "/home")
unfolding prepare_remote_root resolve_root path_clean
prepared = refl

abbrev one_file : Files
one_file = put (codes "/r/a") (some (text_node 1 (λ p. 0))) (λ q. none)

in_the_way :
    (preflight_upload memory_sftp
      (codes "/r")
      []
      (codes "b" ∷ codes "a" ∷ [])
      false
      (λ p. false)
      one_file).1
    ≡ err (app upload_conflict)
unfolding preflight_upload check_entries path_join
in_the_way = refl

preflight_upload-Passed_example :
    let out =
      preflight_upload memory_sftp
        (codes "/r")
        (codes "d" ∷ [])
        (codes "a" ∷ [])
        true
        (λ p. false)
        one_file in
    ((q : Text) → out.0 q ≡ one_file q)
    × Passed memory_sftp one_file (codes "/r") (codes "d" ∷ []) (codes "a" ∷ []) true out.1
preflight_upload-Passed_example =
    preflight_upload-Passed memory_sftp memory_sftp-IsLawful (codes "/r") (codes "d" ∷ [])
      (codes "a" ∷ []) true (λ p. false) one_file
