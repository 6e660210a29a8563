-- ===== src/Vpn/Access/Pins.antt =====
-- How a certificate comes to be pinned.
use Prim.Native.String.{String}
use lab_remote_go.Common.{
  ℕ, ◌≡◌, ◌≢◌, refl, ◌∙◌, false, not, ◌||◌, [], ◌∷◌, Option, none, some, arith, if-rule, ◌⊎◌, inl,
  inr,
}
use mathlib.Core.Path.{subst}
use lab_remote_go.Common.Maps.{str_eq, str_eq_iff, str_eq_refl}
use lab_remote_go.Common.Results.{Result, err, ok, >>=-ok}
use lab_remote_go.Model.Errors.{new_app_error}
use lab_remote_go.Model.Files.{Disk}
use lab_remote_go.Model.Profiles.{ConnectionProfile, uses_isolated_tunnel}
use lab_remote_go.Profile.Repository.{
  RepositoryError, app, Profiles, find_id, get_profile, read_profiles, or_not_found, upsert_profile,
  with_defaults,
}
use lab_remote_go.Profile.Repository.Lookup.{get_profile-upsert_profile}
use lab_remote_go.Vpn.Access.{
  Certificates, or_empty, pinned, after_upsert, accept_for, accept_certificate,
}

abbrev not_required : RepositoryError
not_required = app (new_app_error "TUNNEL_NOT_REQUIRED" "tunnel_certificate" false)

abbrev cert_unknown : RepositoryError
cert_unknown = app (new_app_error "TUNNEL_CERT_UNKNOWN" "tunnel_certificate" false)

Result-or :
    (r : Result RepositoryError ConnectionProfile)
    → ((v : ConnectionProfile) × (r ≡ ok v)) ⊎ ((e : RepositoryError) × (r ≡ err e))
Result-or (ok v) = inl (v, refl)
Result-or (err e) = inr (e, refl)

str_eq_other : (a b : String) → a ≢ b → str_eq a b ≡ false
str_eq_other a b ne = ground (arith, str_eq_iff a b)

find_id-id :
    (id : String) (xs : Profiles) (v : ConnectionProfile) → find_id id xs ≡ some v → v.id ≡ id
find_id-id id [] v h = absurd (cc)
find_id-id id (x ∷ xs) v h = ground (arith, find_id-id id xs v, str_eq_iff x.id id)

or_not_found-ok :
    (o : Option ConnectionProfile) (v : ConnectionProfile) → or_not_found o ≡ ok v → o ≡ some v
or_not_found-ok none v h = absurd (cc)
or_not_found-ok (some w) v h = ground arith

get_profile-id :
    (disk : Disk) (id : String) (file : Profiles) (v : ConnectionProfile)
    → get_profile disk id file ≡ ok v
    → v.id ≡ id
unfolding get_profile
get_profile-id disk id file v h =
    let (values, read, found) =
      >>=-ok (read_profiles disk file) (λ values. or_not_found (find_id id values)) h in
    find_id-id id values v (or_not_found-ok (find_id id values) v found)

waiting-some :
    (o : Option String) (fp : String)
    → (str_eq (or_empty o) "" || not (str_eq (or_empty o) fp)) ≡ false
    → o ≡ some fp
waiting-some none fp h = absurd (ground (arith, str_eq_refl ""))
waiting-some (some s) fp h = ground (arith, str_eq_iff s fp)

module _ (fold : ℕ → ℕ) where
  after_upsert-ok :
      (id : String) (c : Certificates) (out : Profiles × Result RepositoryError (Unit {0}))
      → (after_upsert fold id c out).1 ≡ ok tt
      → (out.1 ≡ ok tt)
        × ((after_upsert fold id c out).0.file ≡ out.0)
        × ((after_upsert fold id c out).0.pending id ≡ none)
  after_upsert-ok id c (file, err e) h = absurd (cc)
  after_upsert-ok id c (file, ok u) h = (refl, refl, rw (str_eq_refl id) refl)

  -- what the acceptance did, given the profile that was read
  record Accepted (disk : Disk) (now : ℕ) (id fp : String) (c c' : Certificates)
      (value : ConnectionProfile) : Type 0 where
    waited : c.pending id ≡ some fp
    written : (upsert_profile fold disk (pinned now fp value) c.file).1 ≡ ok tt
    stored : c'.file ≡ (upsert_profile fold disk (pinned now fp value) c.file).0
    done : c'.pending id ≡ none

  accept_for-ok :
      (disk : Disk) (now : ℕ) (id fp : String) (c : Certificates) (value : ConnectionProfile)
      → (accept_for fold disk now id fp c (ok value)).1 ≡ ok tt
      → Accepted disk now id fp c (accept_for fold disk now id fp c (ok value)).0 value
  accept_for-ok disk now id fp c value h =
      let waiting = or_empty (c.pending id) in
      let Good : Certificates × Result RepositoryError (Unit {0}) → Type 0 =
        λ out. out.1 ≡ ok tt → Accepted disk now id fp c out.0 value in
      let upserted = upsert_profile fold disk (pinned now fp value) c.file in
      let no : (e : RepositoryError) → Good (c, err e) = λ e q. absurd (cc) in
      if-rule Good (not (uses_isolated_tunnel value)) (c, err not_required) _ (λ b. no not_required)
        (λ b.
          if-rule Good (str_eq waiting "" || not (str_eq waiting fp)) (c, err cert_unknown)
            (after_upsert fold id c upserted) (λ d. no cert_unknown)
            (λ d q.
              let (written, stored, done) = after_upsert-ok id c upserted q in
              record {
                waited = waiting-some (c.pending id) fp d;
                written = written;
                stored = stored;
                done = done;
              }))
        h

  -- An `AcceptCertificate` that succeeds was given the fingerprint that waited for the profile, and not
  -- another; it makes this fingerprint the profile's certificate, takes it off the waiting ones, and
  -- leaves every other profile as it was.
  pub accept_certificate-pins :
      (disk : Disk) (now : ℕ) (id fp other : String) (c : Certificates)
      → let (c', outcome) = accept_certificate fold disk now id fp c in
        outcome ≡ ok tt
        → (c.pending id ≡ some fp)
          × ((p : ConnectionProfile) × (get_profile disk id c'.file ≡ ok p)
              × (p.vpn.server_certificate ≡ fp))
          × (c'.pending id ≡ none)
          × (id ≢ other → get_profile disk other c'.file ≡ get_profile disk other c.file)
  unfolding accept_certificate
  accept_certificate-pins disk now id fp other c h = elim (Result-or (get_profile disk id c.file)) [
    | inr (e, failed) ↦ absurd (ground arith)
    | inl (value, found) ↦
        let same = get_profile-id disk id c.file value found in
        let a =
          accept_for-ok disk now id fp c value
            (subst (λ r. (accept_for fold disk now id fp c r).1 ≡ ok tt) found h) in
        let new = pinned now fp value in
        let own = (get_profile-upsert_profile fold disk new c.file id).0 a.written in
        rw found (
          a.waited,
          (with_defaults new, rw (a.stored) (own ∙ rw (same, str_eq_refl id) refl), refl),
          a.done,
          λ ne. rw (a.stored) (
              (get_profile-upsert_profile fold disk new c.file other).0 a.written
              ∙ rw (same, str_eq_other id other ne) refl),
        )
  ]
