-- ===== src/Ssh/KnownHosts/Trust.antt =====
-- What the handshake accepts, and how a key comes to be trusted.
use Prim.Native.String.{String}
use lab_remote_go.Common.{
  ℕ, ◌≡◌, ◌≢◌, ◌↔◌, ◌⊎◌, inl, inr, true, List, [], ◌∷◌, some, Option-cases, arith,
}
use lab_remote_go.Common.Maps.{str_eq_iff, str_eq_refl}
use lab_remote_go.Common.Results.{err, ok}
use lab_remote_go.Ssh.KnownHosts.{
  HostKeyRecord, KnownHosts, Disk, host_key_error, callback, accept_pending, lookup, store_record,
  remove_host,
}

pub data Operation : Type 0 where
  handshake : Disk → String → String → String → String → Operation
  accept : Disk → ℕ → String → String → Operation
  look : Disk → String → Operation
  store : Disk → ℕ → HostKeyRecord → Operation
  remove : Disk → String → Operation

unfoldable pub perform : Operation → KnownHosts → KnownHosts
perform (handshake disk id hostname key_type fingerprint) k =
    (callback disk id hostname key_type fingerprint k).0
perform (accept disk now id fingerprint) k = (accept_pending disk now id fingerprint k).0
perform (look disk id) k = (lookup disk id k).0
perform (store disk now r) k = (store_record disk now r k).0
perform (remove disk id) k = (remove_host disk id k).0

unfoldable pub perform_all : List Operation → KnownHosts → KnownHosts
perform_all [] k = k
perform_all (op ∷ ops) k = perform_all ops (perform op k)

-- The user accepted this fingerprint for the profile, or a record with it was stored.
abbrev pub Grants : Operation → String → String → Type 0
Grants (accept disk now id fingerprint) p fp = (id ≡ p) × (fingerprint ≡ fp)
Grants (store disk now r) p fp = (r.profile_id ≡ p) × (r.fingerprint ≡ fp)
Grants _ p fp = ⊥

abbrev pub SomeGrants : List Operation → String → String → Type 0
SomeGrants [] p fp = ⊥
SomeGrants (op ∷ ops) p fp = Grants op p fp ⊎ SomeGrants ops p fp

perform-trusted :
    (op : Operation) (k : KnownHosts) (p : String) (r : HostKeyRecord)
    → (perform op k).trusted p ≡ some r
    → (k.trusted p ≡ some r) ⊎ Grants op p r.fingerprint
unfolding perform callback accept_pending lookup store_record remove_host
perform-trusted (handshake disk id hostname key_type fp) k p r h = ground arith
perform-trusted (look disk id) k p r h = ground arith
perform-trusted (remove disk id) k p r h = ground arith
perform-trusted (store disk now s) k p r h = ground (arith, str_eq_iff s.profile_id p)
perform-trusted (accept disk now id fp) k p r h = elim (Option-cases (k.pending id)) [
  | inl e ↦ ground arith
  | inr (c, e) ↦ ground (arith, str_eq_iff id p, str_eq_iff c.fingerprint fp)
]

-- Only an acceptance or a stored record makes a fingerprint trusted: whatever operations run, in any
-- order and with any disk failures, a record that is trusted in the end was trusted with it from the
-- start, or one of the operations granted its fingerprint to the profile.
pub perform_all-trusted :
    (ops : List Operation) (k : KnownHosts) (p : String) (r : HostKeyRecord)
    → (perform_all ops k).trusted p ≡ some r
    → (k.trusted p ≡ some r) ⊎ SomeGrants ops p r.fingerprint
unfolding perform_all
perform_all-trusted [] k p r h = inl h
perform_all-trusted (op ∷ ops) k p r h = elim (perform_all-trusted ops (perform op k) p r h) [
  | inr later ↦ inr (inr later)
  | inl kept ↦ elim (perform-trusted op k p r kept) [
    | inl before ↦ inl before
    | inr granted ↦ inr (inl granted)
  ]
]

-- On a disk that can be read, a handshake passes exactly if its fingerprint is the trusted one of the
-- profile.
pub callback_lem :
    (disk : Disk) (id hostname key_type fp : String) (k : KnownHosts)
    → disk.reads ≡ true
    → ((callback disk id hostname key_type fp k).1 ≡ ok tt)
      ↔ ((r : HostKeyRecord) × ((k.trusted id ≡ some r) × (r.fingerprint ≡ fp)))
unfolding callback
callback_lem disk id hostname key_type fp k h = elim (Option-cases (k.trusted id)) [
  | inl e ↦ (λ b. absurd (ground arith), λ (r, (e', f)). absurd (ground arith))
  | inr (known, e) ↦ (
    λ b. (known, (e, ground (arith, str_eq_iff known.fingerprint fp))),
    λ (r, (e', f)). ground (arith, str_eq_iff known.fingerprint fp),
  )
]

-- After a handshake that was refused, on a disk that works: accepting another fingerprint is refused
-- and changes nothing; accepting the one that was seen succeeds, and the next handshake with it passes.
pub accept-callback :
    (disk : Disk) (now : ℕ) (id hostname key_type fp other later : String) (k : KnownHosts)
    → disk.reads ≡ true
    → disk.writes ≡ true
    → (callback disk id hostname key_type fp k).1 ≢ ok tt
    → other ≢ fp
    → let k₁ = (callback disk id hostname key_type fp k).0 in
      let k₂ = (accept_pending disk now id fp k₁).0 in
      (accept_pending disk now id other k₁ ≡ (k₁, err (host_key_error "SSH_HOST_KEY_UNKNOWN")))
      × ((accept_pending disk now id fp k₁).1 ≡ ok tt)
      × ((callback disk id later key_type fp k₂).1 ≡ ok tt)
unfolding callback accept_pending
accept-callback disk now id hostname key_type fp other later k hr hw refused ne =
    elim (Option-cases (k.trusted id)) [
      | inl e ↦ ground (arith, str_eq_refl id, str_eq_refl fp, str_eq_iff fp other)
      | inr (known, e) ↦ ground (
        arith,
        str_eq_refl id,
        str_eq_refl fp,
        str_eq_iff fp other,
        str_eq_iff known.fingerprint fp,
      )
    ]
