-- ===== src/Ssh/KnownHosts/Tests.antt =====
-- Runs and witnesses for the known hosts.
use Prim.Native.String.{String}
use lab_remote_go.Common.{◌≡◌, refl, ◌≢◌, ◌⊎◌, true, [], ◌∷◌, some}
use mathlib.Core.Bool.{false≢true}
use lab_remote_go.Common.Maps.{str_eq_iff, make_map}
use lab_remote_go.Common.Results.{err, ok}
use lab_remote_go.Ssh.KnownHosts.{
  HostKeyRecord, KnownHosts, Disk, new_known_hosts, host_key_error, callback, accept_pending,
}
use lab_remote_go.Ssh.KnownHosts.Trust.{
  handshake, accept, perform, perform_all, SomeGrants, perform_all-trusted, accept-callback,
}

abbrev disk : Disk
disk = record { reads = true; writes = true }

abbrev empty : KnownHosts
empty = new_known_hosts make_map

abbrev key : HostKeyRecord
key = record {
  profile_id = "p";
  address = "h:22";
  key_type = "ed25519";
  fingerprint = "F";
  accepted_at = 7;
}

perform_all-trusted_example :
    let ops = handshake disk "p" "h:22" "ed25519" "F" ∷ accept disk 7 "p" "F" ∷ [] in
    (empty.trusted "p" ≡ some key) ⊎ SomeGrants ops "p" "F"
unfolding perform_all perform callback accept_pending
perform_all-trusted_example =
    perform_all-trusted (handshake disk "p" "h:22" "ed25519" "F" ∷ accept disk 7 "p" "F" ∷ []) empty
      "p" key refl

unknown_refused : (callback disk "p" "h:22" "ed25519" "F" empty).1 ≢ ok tt
unfolding callback
unknown_refused e = absurd (cc)

abbrev seen : String
seen = "F"

abbrev another : String
another = "G"

other_key : another ≢ seen
other_key e = absurd (false≢true ((str_eq_iff "G" "F").1 e))

accept-callback_example :
    let k₁ = (callback disk "p" "h:22" "ed25519" "F" empty).0 in
    let k₂ = (accept_pending disk 7 "p" "F" k₁).0 in
    (accept_pending disk 7 "p" "G" k₁ ≡ (k₁, err (host_key_error "SSH_HOST_KEY_UNKNOWN")))
    × ((accept_pending disk 7 "p" "F" k₁).1 ≡ ok tt)
    × ((callback disk "p" "h:22" "ed25519" "F" k₂).1 ≡ ok tt)
accept-callback_example =
    accept-callback disk 7 "p" "h:22" "ed25519" "F" "G" "h:22" empty refl refl unknown_refused
      other_key
