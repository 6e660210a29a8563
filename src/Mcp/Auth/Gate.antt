-- ===== src/Mcp/Auth/Gate.antt =====
-- What a request that is served must carry.
use lab_remote_go.Common.{
  ℕ, ◌≡◌, ◌≢◌, refl, ap₂, sym, ◌∙◌, true, false, arith, ◌++◌, [], ◌∷◌, ◌⊎◌, inl, inr, take, drop,
  take-append-drop, ◌||◌, Bool-cases,
}
use lab_remote_go.Common.Texts.{Text, text_eq, text_eq_sound}
use lab_remote_go.Mcp.Auth.{
  RateLimiter, Request, Origin, no_origin, malformed, from_host, served, authorized, allow, itoa,
  check_origin, security_middleware, loopback_name, local_name, bearer,
}

either_sound : (s t u : Text) → text_eq s t || text_eq s u ≡ true → (s ≡ t) ⊎ (s ≡ u)
either_sound s t u h = elim (Bool-cases (text_eq s t)) [
  | inl same ↦ inl (text_eq_sound s t same)
  | inr other ↦ inr (text_eq_sound s u (ground arith))
]

authorized_sound : (token header : Text) → authorized token header ≡ true → header ≡ bearer ++ token
authorized_sound token header h =
    let first : take 7 header ≡ bearer = text_eq_sound (take 7 header) bearer (ground arith) in
    let rest : drop 7 header ≡ token = text_eq_sound (drop 7 header) token (ground arith) in
    sym (take-append-drop 7 header) ∙ ap₂ (λ s t. s ++ t) first rest

module _ (to_lower : Text → Text) where
  abbrev pub LocalOrigin : Origin → Type 0
  LocalOrigin no_origin = Unit {0}
  LocalOrigin malformed = ⊥
  LocalOrigin (from_host host) = (to_lower host ≡ loopback_name) ⊎ (to_lower host ≡ local_name)

  check_origin-served :
      (now : ℕ) (token : Text) (r : Request) (o : Origin) (l : RateLimiter)
      → (check_origin to_lower now token r o l).1 ≡ served
      → LocalOrigin o × (authorized token r.authorization ≡ true) × ((allow now l).1 ≡ true)
  check_origin-served now token r malformed l h = absurd (cc)
  check_origin-served now token r no_origin l h = (tt, ground arith, ground arith)
  check_origin-served now token r (from_host host) l h = (
    either_sound (to_lower host) loopback_name local_name (ground arith),
    ground arith,
    ground arith,
  )

  check_origin-unauthorized :
      (now : ℕ) (token : Text) (r : Request) (o : Origin) (l : RateLimiter)
      → authorized token r.authorization ≡ false
      → (check_origin to_lower now token r o l).0 ≡ l
  check_origin-unauthorized now token r malformed l h = refl
  check_origin-unauthorized now token r no_origin l h = rw h refl
  check_origin-unauthorized now token r (from_host host) l h = rw h (ground arith)

  -- A request that is served comes from a loopback address, names the server as `127.0.0.1` or
  -- `localhost` with its port, has no Origin or one with such a host, and was admitted by the limiter;
  -- its Authorization is "Bearer " and the token, and nothing else. A request whose Authorization is
  -- anything else is not served and never uses up the limiter.
  pub security_middleware-served :
      (now : ℕ) (token : Text) (port : ℕ) (r : Request) (l : RateLimiter)
      → let (l', response) = security_middleware to_lower now token port r l in
        let bearer_token : Text = (66 ∷ 101 ∷ 97 ∷ 114 ∷ 101 ∷ 114 ∷ 32 ∷ []) ++ token in
        (response ≡ served
          → (r.remote_loopback ≡ true)
            × ((r.host ≡ loopback_name ++ (58 ∷ itoa port))
                ⊎ (r.host ≡ local_name ++ (58 ∷ itoa port)))
            × LocalOrigin r.origin
            × (r.authorization ≡ bearer_token)
            × ((allow now l).1 ≡ true))
        × (r.authorization ≢ bearer_token → (response ≢ served) × (l' ≡ l))
  unfolding security_middleware
  security_middleware-served now token port r l = (
    (λ h.
        let (origin, token_ok, admitted) =
          check_origin-served now token r r.origin l (ground arith) in
        (
          ground arith,
          either_sound r.host (loopback_name ++ (58 ∷ itoa port)) (local_name ++ (58 ∷ itoa port))
              (ground arith),
          origin,
          authorized_sound token r.authorization token_ok,
          admitted,
        )),
    (λ other.
        let wrong : authorized token r.authorization ≡ false =
          elim (Bool-cases (authorized token r.authorization)) [
            | inl right ↦ absurd (other (authorized_sound token r.authorization right))
            | inr wrong ↦ wrong
          ] in
        (
          (λ h.
              let (origin, token_ok, admitted) =
                check_origin-served now token r r.origin l (ground arith) in
              absurd (cc)),
          ground (arith, check_origin-unauthorized now token r r.origin l wrong),
        )),
  )
