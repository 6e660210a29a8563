-- ===== src/Ssh/KnownHosts.antt =====
-- internal/sshclient/known_hosts.go: the trusted SSH host keys. `trusted` is what the file holds, and
-- `Disk` says whether the file can be read and replaced when an operation runs; a replacement is a
-- rename, so one that fails leaves the file. A time is a number, 0 the zero time.
pub mod Trust
mod Tests
use Prim.Native.String.{String}
use lab_remote_go.Common.{ℕ, Bool, true, false, not, ◌||◌, Option, none, some, ◌==◌, if◌then◌else◌}
use lab_remote_go.Common.Maps.{GoMap, make_map, set_key, delete_key, str_eq}
use lab_remote_go.Common.Results.{Result, err, ok}
use lab_remote_go.Model.Errors.{AppError, new_app_error}
pub use lab_remote_go.Model.Files.{Disk}

pub record HostKeyRecord : Type 0 where
  pub profile_id : String
  pub address : String
  pub key_type : String
  pub fingerprint : String
  pub accepted_at : ℕ

pub record KnownHosts : Type 0 where
  pub trusted : GoMap HostKeyRecord
  pub pending : GoMap HostKeyRecord

abbrev pub new_known_hosts : GoMap HostKeyRecord → KnownHosts
new_known_hosts file = record { trusted = file; pending = make_map }

pub data HostError : Type 0 where
  app : AppError → HostError
  file_failed : HostError

abbrev pub Outcome : Type 0 → Type 0
Outcome A = KnownHosts × Result HostError A

abbrev pub host_key_error : String → HostError
host_key_error code = app (new_app_error code "ssh_host_key" false)

-- `k.read()`, and `f` on what it returns
abbrev pub with_records :
    {A : Type 0} → Disk → KnownHosts → (GoMap HostKeyRecord → Outcome A) → Outcome A
with_records disk k f = if disk.reads then f k.trusted else (k, err file_failed)

-- `k.write(records)`; `done` is what follows a success
abbrev pub write_records :
    Disk → GoMap HostKeyRecord → (KnownHosts → KnownHosts) → KnownHosts → Outcome Unit
write_records disk records done k =
    if disk.writes then (done (record k { trusted = records }), ok tt) else (k, err file_failed)

abbrev pub check_known : Option HostKeyRecord → HostKeyRecord → KnownHosts → Outcome Unit
check_known none observed k = (
  record k { pending = set_key observed.profile_id observed k.pending },
  err (host_key_error "SSH_HOST_KEY_UNKNOWN"),
)
check_known (some known) observed k =
    if not (str_eq known.fingerprint observed.fingerprint)
    then (
      record k { pending = set_key observed.profile_id observed k.pending },
      err (host_key_error "SSH_HOST_KEY_CHANGED"),
    )
    else (record k { pending = delete_key observed.profile_id k.pending }, ok tt)

-- The handshake's check of the key; `fingerprint` is `ssh.FingerprintSHA256` of it.
unfoldable pub callback : Disk → String → String → String → String → KnownHosts → Outcome Unit
callback disk id hostname key_type fingerprint k =
    let observed : HostKeyRecord = record {
      profile_id = id;
      address = hostname;
      key_type = key_type;
      fingerprint = fingerprint;
      accepted_at = 0;
    } in
    with_records disk k (λ records. check_known (records id) observed k)

abbrev pub accept_record : Disk → ℕ → String → HostKeyRecord → KnownHosts → Outcome Unit
accept_record disk now id candidate k = with_records disk k (λ records.
    write_records disk (set_key id (record candidate { accepted_at = now }) records)
      (λ k'. record k' { pending = delete_key id k'.pending }) k)

unfoldable pub accept_pending : Disk → ℕ → String → String → KnownHosts → Outcome Unit
accept_pending disk now id fingerprint k = elim (k.pending id) [
  | none ↦ (k, err (host_key_error "SSH_HOST_KEY_UNKNOWN"))
  | some candidate ↦
      if not (str_eq candidate.fingerprint fingerprint)
      then (k, err (host_key_error "SSH_HOST_KEY_UNKNOWN"))
      else accept_record disk now id candidate k
]

unfoldable pub lookup : Disk → String → KnownHosts → Outcome (Option HostKeyRecord)
lookup disk id k = with_records disk k (λ records. (k, ok (records id)))

abbrev pub stamped : ℕ → HostKeyRecord → HostKeyRecord
stamped now r = if r.accepted_at == 0 then record r { accepted_at = now } else r

abbrev pub record_invalid : HostKeyRecord → Bool
record_invalid r = str_eq r.profile_id "" || (str_eq r.address "" || str_eq r.fingerprint "")

unfoldable pub store_record : Disk → ℕ → HostKeyRecord → KnownHosts → Outcome Unit
store_record disk now r k =
    if record_invalid r
    then (k, err (host_key_error "SSH_HOST_KEY_INVALID"))
    else with_records disk k
        (λ records. write_records disk (set_key r.profile_id (stamped now r) records) (λ k'. k') k)

-- The pending record goes before the file is replaced, so also when that fails.
unfoldable pub remove_host : Disk → String → KnownHosts → Outcome Unit
remove_host disk id k = with_records disk k (λ records.
    write_records disk (delete_key id records) (λ k'. k')
      (record k { pending = delete_key id k.pending }))
