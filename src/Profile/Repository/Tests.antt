-- ===== src/Profile/Repository/Tests.antt =====
-- Witnesses for the repository.
use lab_remote_go.Common.{ℕ, ◌≡◌, refl, true, false, [], ◌∷◌, if◌then◌else◌, none}
use lab_remote_go.Common.Maps.{str_eq}
use lab_remote_go.Common.Results.{ok, err}
use lab_remote_go.Model.Files.{Disk}
use lab_remote_go.Model.Profiles.{ConnectionProfile, mode_unset, softether, auth_unset}
use lab_remote_go.Profile.Repository.{
  RepositoryError, with_defaults, get_profile, upsert_profile, delete_profile, or_not_found,
}
use lab_remote_go.Profile.Repository.Lookup.{get_profile-upsert_profile, get_profile-delete_profile}
use lab_remote_go.Profile.Repository.Names.{Distinct, upsert_profile-Distinct}

abbrev disk : Disk
disk = record { reads = true; writes = true }

-- an old profile without a mode
abbrev profile : ConnectionProfile
profile = record {
  id = "p";
  display_name = 112 ∷ [];
  group = [];
  connection_mode = mode_unset;
  vpn = record {
    connection_name = 118 ∷ [];
    server_address = 97 ∷ 45 ∷ 98 ∷ 46 ∷ 99 ∷ [];
    server_port = 0;
    hub_name = [];
    server_certificate = "";
    type = softether;
    username = 117 ∷ [];
    credential_ref = "";
    split_tunnel = true;
  };
  ssh = record {
    server_address = 97 ∷ 45 ∷ 98 ∷ 46 ∷ 99 ∷ [];
    port = 22;
    username = 117 ∷ [];
    auth_method = auth_unset;
    credential_ref = "";
    host_key = "";
  };
  mcp_policy = record {
    enabled_for_profile = true;
    allow_exec = false;
    allow_interactive = false;
    allow_file_upload = false;
    allow_file_download = false;
    allow_disconnect = false;
  };
  created_at = 0;
  updated_at = 0;
}

abbrev fold_none : ℕ → ℕ
fold_none c = c

get_profile-upsert_profile_example :
    let (file, outcome) = upsert_profile fold_none disk profile [] in
    (outcome ≡ ok tt
      → get_profile disk "p" file
        ≡ (if str_eq "p" "p" then ok (with_defaults profile) else get_profile disk "p" []))
    × ((e : RepositoryError) → outcome ≡ err e → file ≡ [])
get_profile-upsert_profile_example = get_profile-upsert_profile fold_none disk profile [] "p"

get_profile-delete_profile_example :
    let (file, outcome) = delete_profile disk "p" (profile ∷ []) in
    (outcome ≡ ok tt
      → get_profile disk "p" file
        ≡ (if str_eq "p" "p" then or_not_found none else get_profile disk "p" (profile ∷ [])))
    × ((e : RepositoryError) → outcome ≡ err e → file ≡ profile ∷ [])
get_profile-delete_profile_example = get_profile-delete_profile disk "p" "p" (profile ∷ [])

upsert_profile-Distinct_example :
    Distinct fold_none (upsert_profile fold_none disk profile (profile ∷ [])).0
    × Distinct fold_none (delete_profile disk "p" (profile ∷ [])).0
upsert_profile-Distinct_example =
    upsert_profile-Distinct fold_none disk profile "p" (profile ∷ []) (refl, refl, tt)
