-- ===== src/Vpn/Access/Targets.antt =====
-- Where connections go.
use Prim.Native.String.{String}
use lab_remote_go.Common.{ℕ, ◌≡◌, refl, true, false, Option, none, some, arith}
use lab_remote_go.Common.Results.{Result, err, ok, ◌>>◌, ◌>>=◌, >>-ok, >>=-ok}
use lab_remote_go.Common.Texts.{Text, text_eq_sound}
use lab_remote_go.Model.Files.{Disk}
use lab_remote_go.Model.Errors.{AppError}
use lab_remote_go.Model.Profiles.{ConnectionProfile, uses_isolated_tunnel, validate}
use lab_remote_go.Profile.Repository.{RepositoryError, Profiles, get_profile}
use lab_remote_go.Vpn.Access.{
  valid_profile, lift_check, ssh_target, is_tcp, Route, from_host, through_link, route_of,
  dial_context,
}

lift_check-ok : (r : Result AppError (Unit {0})) → lift_check r ≡ ok tt → r ≡ ok tt
lift_check-ok (err e) h = absurd (cc)
lift_check-ok (ok u) h = refl

-- The route goes to the profile's own SSH server, by TCP; a profile of the tunnel only takes its link.
abbrev pub Permitted : Option ℕ → Text → ConnectionProfile → Route → Type 0
Permitted link address p (from_host network target) =
    (uses_isolated_tunnel p ≡ false) × (is_tcp network ≡ true) × (target ≡ ssh_target p)
Permitted link address p (through_link l target) =
    (uses_isolated_tunnel p ≡ true) × (link ≡ some l) × (target ≡ ssh_target p)

route_of-Permitted :
    (link : Option ℕ) (network address : Text) (p : ConnectionProfile) (r : Route)
    → route_of link network address p ≡ ok r
    → Permitted link address p r
route_of-Permitted none network address p (from_host n t) h =
    let same = text_eq_sound address (ssh_target p) in
    (ground arith, ground arith, ground (arith, same))
route_of-Permitted none network address p (through_link l t) h = absurd (ground arith)
route_of-Permitted (some k) network address p (from_host n t) h =
    let same = text_eq_sound address (ssh_target p) in
    (ground arith, ground arith, ground (arith, same))
route_of-Permitted (some k) network address p (through_link l t) h =
    let same = text_eq_sound address (ssh_target p) in
    (ground arith, ground arith, ground (arith, same))

checked-ok :
    (m : Result RepositoryError ConnectionProfile) (p : ConnectionProfile)
    → (m >>= λ value. (lift_check (validate value) >> ok value)) ≡ ok p
    → (m ≡ ok p) × (validate p ≡ ok tt)
checked-ok (err e) p h = absurd (cc)
checked-ok (ok value) p h =
    let (valid, same) = >>-ok (lift_check (validate value)) (ok value) h in
    (same, lift_check-ok (validate p) (ground (arith, valid, same)))

valid_profile-ok :
    (disk : Disk) (id : String) (file : Profiles) (p : ConnectionProfile)
    → valid_profile disk id file ≡ ok p
    → (get_profile disk id file ≡ ok p) × (validate p ≡ ok tt)
unfolding valid_profile
valid_profile-ok disk id file p h = checked-ok (get_profile disk id file) p h

-- Whatever a caller asks for, `DialContext` dials only the SSH server of the profile that is stored, if
-- that profile is valid, and only by TCP; a profile that uses the tunnel is never dialed around its
-- link.
pub dial_context-Permitted :
    (disk : Disk) (id : String) (file : Profiles) (link : Option ℕ) (network address : Text)
    (r : Route)
    → dial_context disk id file link network address ≡ ok r
    → (p : ConnectionProfile) × (get_profile disk id file ≡ ok p)
      × (validate p ≡ ok tt)
      × Permitted link address p r
unfolding dial_context
dial_context-Permitted disk id file link network address r h =
    let (p, found, routed) =
      >>=-ok (valid_profile disk id file) (route_of link network address) h in
    let (stored, valid) = valid_profile-ok disk id file p found in
    (p, stored, valid, route_of-Permitted link network address p r routed)
