-- ===== src/SoftEther/Handshake/Pinned.antt =====
-- Whom the handshake talks to, and what becomes of its connections.
use lab_remote_go.Common.{
  ℕ, ◌+◌, ◌≡◌, refl, Bool, true, false, not, ◌||◌, List, [], ◌∷◌, ◌++◌, Option, none, some, arith,
  Bytes, length, ltb, ◌==◌, take, if◌then◌else◌,
}
use lab_remote_go.Common.Results.{Result, err, ok}
use lab_remote_go.Common.Texts.{Text, is_empty, text_eq}
use lab_remote_go.Common.Paths.{codes}
use lab_remote_go.Common.Actions.{
  Any, pure, fail, ◌>>=◌, fail_if, Triple, next-Triple, fail_if-Triple,
}
use lab_remote_go.SoftEther.Pack.{Pack, max_pack_value}
use lab_remote_go.SoftEther.Pack.Codec.{PackError, unmarshal_pack}
use lab_remote_go.SoftEther.Handshake.{
  Config, HandshakeError, Stream, Sent, dialed, posted, switched, closed, World, HttpResponse, Peer,
  Shaking, log, trim_brackets, fingerprint, verify_certificate_name, drawn, read_random,
  random_size, written, send_http, unpacked, read_sized, read_response, receive_http_pack,
  marshalled, exchange_pack, bad_length, read_failed, bad_server,
}

abbrev pub dialed_count : List Sent → ℕ
dialed_count [] = 0
dialed_count (dialed a ∷ rest) = 1 + dialed_count rest
dialed_count (posted s p t b ∷ rest) = dialed_count rest
dialed_count (switched s b ∷ rest) = dialed_count rest
dialed_count (closed ∷ rest) = dialed_count rest

abbrev pub closed_count : List Sent → ℕ
closed_count [] = 0
closed_count (dialed a ∷ rest) = closed_count rest
closed_count (posted s p t b ∷ rest) = closed_count rest
closed_count (switched s b ∷ rest) = closed_count rest
closed_count (closed ∷ rest) = 1 + closed_count rest

dialed_count-append :
    (xs ys : List Sent) → dialed_count (xs ++ ys) ≡ dialed_count xs + dialed_count ys
dialed_count-append [] ys = omega arith
dialed_count-append (dialed a ∷ rest) ys = omega (arith, dialed_count-append rest ys)
dialed_count-append (posted s p t b ∷ rest) ys = dialed_count-append rest ys
dialed_count-append (switched s b ∷ rest) ys = dialed_count-append rest ys
dialed_count-append (closed ∷ rest) ys = dialed_count-append rest ys

closed_count-append :
    (xs ys : List Sent) → closed_count (xs ++ ys) ≡ closed_count xs + closed_count ys
closed_count-append [] ys = omega arith
closed_count-append (closed ∷ rest) ys = omega (arith, closed_count-append rest ys)
closed_count-append (dialed a ∷ rest) ys = closed_count-append rest ys
closed_count-append (posted s p t b ∷ rest) ys = closed_count-append rest ys
closed_count-append (switched s b ∷ rest) ys = closed_count-append rest ys

module _ (sha256 : Bytes → Bytes) (fold : ℕ → ℕ) (config : Config) where
  -- The peer's certificate names the server, and is the one that is pinned.
  abbrev pub IsTrusted : Stream → Type 0
  IsTrusted stream =
      (verify_certificate_name sha256 fold stream.certificate (trim_brackets config.server) ≡ true)
      × (is_empty config.certificate_pin ≡ false)
      × (config.certificate_pin ≡ fingerprint sha256 fold stream.certificate)

  -- Only a trusted peer is sent anything.
  abbrev pub AllTrusted : List Sent → Type 0
  AllTrusted [] = Unit {0}
  AllTrusted (posted stream path kind body ∷ rest) = IsTrusted stream × AllTrusted rest
  AllTrusted (switched stream bytes ∷ rest) = IsTrusted stream × AllTrusted rest
  AllTrusted (dialed address ∷ rest) = AllTrusted rest
  AllTrusted (closed ∷ rest) = AllTrusted rest

  AllTrusted-append : (xs ys : List Sent) → AllTrusted xs → AllTrusted ys → AllTrusted (xs ++ ys)
  AllTrusted-append [] ys h k = k
  AllTrusted-append (posted s p t b ∷ rest) ys h k = (h.0, AllTrusted-append rest ys h.1 k)
  AllTrusted-append (switched s b ∷ rest) ys h k = (h.0, AllTrusted-append rest ys h.1 k)
  AllTrusted-append (dialed a ∷ rest) ys h k = AllTrusted-append rest ys h k
  AllTrusted-append (closed ∷ rest) ys h k = AllTrusted-append rest ys h k

  -- `n` connections are open.
  abbrev pub IsSafe : ℕ → World → Type 0
  IsSafe n w = AllTrusted w.sent × (dialed_count w.sent ≡ closed_count w.sent + n)

  pub log-IsSafe :
      (n m : ℕ) (event : Sent) (w : World)
      → AllTrusted (event ∷ [])
      → dialed_count (event ∷ []) + n ≡ closed_count (event ∷ []) + m
      → IsSafe n w
      → IsSafe m (log event w)
  log-IsSafe n m event w t e h = (
    AllTrusted-append w.sent (event ∷ []) h.0 t,
    omega (arith, dialed_count-append w.sent (event ∷ []), closed_count-append w.sent (event ∷ [])),
  )

  -- An action leaves as many connections open as there were, and is safe.
  unfoldable pub Keeps : {A : Type 0} → ℕ → Shaking A → Type 0
  Keeps n m = (w : World) → IsSafe n w → Triple (IsSafe n) Any (m w)

  pub Keeps-bind :
      {A B : Type 0} (n : ℕ) (m : Shaking A) (f : A → Shaking B)
      → Keeps n m
      → ((a : A) → Keeps n (f a))
      → Keeps n (m >>= f)
  unfolding Keeps
  Keeps-bind n m f h k w s =
      next-Triple (IsSafe n) (IsSafe n) Any Any (m w) f (h w s) (λ v i. i) (λ a v i _. k a v i)

  pub Keeps-pure : {A : Type 0} (n : ℕ) (a : A) → Keeps n (pure a)
  unfolding Keeps
  Keeps-pure n a w s = (s, tt)

  pub Keeps-fail : (A : Type 0) (n : ℕ) (e : HandshakeError) → Keeps {A = A} n (fail e)
  unfolding Keeps
  Keeps-fail A n e w s = s

  pub Keeps-fail_if : (n : ℕ) (b : Bool) (e : HandshakeError) → Keeps n (fail_if b e)
  unfolding Keeps
  Keeps-fail_if n b e w s = fail_if-Triple (IsSafe n) b e w s

  pub Keeps-if :
      {A : Type 0} (n : ℕ) (b : Bool) (m k : Shaking A)
      → Keeps n m
      → Keeps n k
      → Keeps n (if b then m else k)
  Keeps-if n true m k h g = h
  Keeps-if n false m k h g = g

  module _ (peer : Peer) (n : ℕ) where
    pub read_random-Keeps : (size : ℕ) → Keeps n (read_random peer size)
    unfolding read_random Keeps
    read_random-Keeps size w s = by_draw (peer.random w.draws size)
      where
        by_draw :
            (o : Option Bytes)
            → Triple (IsSafe n) Any (drawn peer o (record w { draws = w.draws + 1 }))
        by_draw none = s
        by_draw (some bytes) = (s, tt)

    pub random_size-Keeps : (max : ℕ) → Keeps n (random_size peer max)
    unfolding random_size
    random_size-Keeps max =
        Keeps-bind n (read_random peer 2) _ (read_random-Keeps 2) (λ value. Keeps-pure n _)

    pub written-Keeps : (b : Bool) → Keeps n (written peer b)
    unfolding Keeps
    written-Keeps true w s = (s, tt)
    written-Keeps false w s = s

    pub send_http-Keeps :
        (stream : Stream) (path kind : Text) (body : Bytes)
        → IsTrusted stream
        → Keeps n (send_http peer stream path kind body)
    unfolding send_http Keeps
    send_http-Keeps stream path kind body trusted w s =
        written-Keeps (peer.accepts_write w) (log (posted stream path kind body) w)
          (log-IsSafe n n (posted stream path kind body) w (trusted, tt) refl s)

    unpacked-Keeps : (r : Result PackError Pack) → Keeps n (unpacked peer r)
    unpacked-Keeps (err e) = Keeps-fail Pack n _
    unpacked-Keeps (ok pack) = Keeps-pure n pack

    read_sized-Keeps :
        (response : HttpResponse) (o : Option ℕ) → Keeps n (read_sized peer response o)
    read_sized-Keeps response none = Keeps-fail Pack n _
    read_sized-Keeps response (some size) =
        Keeps-if n (size == 0 || ltb max_pack_value size) _ _ (Keeps-fail Pack n bad_length) (
          Keeps-if n (ltb (length response.body) size) _ _ (Keeps-fail Pack n read_failed)
            (unpacked-Keeps (unmarshal_pack (take size response.body))))

    read_response-Keeps : (o : Option HttpResponse) → Keeps n (read_response peer o)
    read_response-Keeps none = Keeps-fail Pack n _
    read_response-Keeps (some response) =
        Keeps-if n
          (not (response.status == 200)
            || (not (text_eq response.proto (codes "HTTP/1.1"))
                || not (text_eq response.content_type (codes "application/octet-stream"))))
          _ _ (Keeps-fail Pack n bad_server) (read_sized-Keeps response response.content_length)

    pub receive_http_pack-Keeps : Keeps n (receive_http_pack peer)
    unfolding receive_http_pack Keeps
    receive_http_pack-Keeps w s = read_response-Keeps (peer.replies w) w s

    marshalled-Keeps : (r : Result PackError Bytes) → Keeps n (marshalled peer r)
    marshalled-Keeps (err e) = Keeps-fail Bytes n _
    marshalled-Keeps (ok body) = Keeps-pure n body

    pub exchange_pack-Keeps :
        (stream : Stream) (value : Pack)
        → IsTrusted stream
        → Keeps n (exchange_pack peer stream value)
    unfolding exchange_pack
    exchange_pack-Keeps stream value trusted =
        Keeps-bind n (random_size peer 1000) _ (random_size-Keeps 1000) (λ size.
          Keeps-bind n (read_random peer size) _ (read_random-Keeps size) (λ padding.
            Keeps-bind n (marshalled peer _) _ (marshalled-Keeps _) (λ body.
              Keeps-bind n (send_http peer stream _ _ body) _
                (send_http-Keeps stream _ _ body trusted) (λ _. receive_http_pack-Keeps))))
