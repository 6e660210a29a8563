-- ===== src/SoftEther/Handshake/Outcome.antt =====
-- `EnumerateHubs` and `Open` talk to the pinned peer only, and close what they do not hand on.
use lab_remote_go.Common.{
  ℕ, suc, ◌≡◌, refl, not, ◌||◌, List, [], ◌∷◌, Option, none, some, arith, Bool-cases, inl, inr,
  Bytes, length, ◌==◌,
}
use lab_remote_go.Common.Results.{Result, err, ok}
use lab_remote_go.Common.Texts.{Text, is_empty, text_eq, text_eq_sound, trim_space}
use lab_remote_go.Common.Paths.{codes}
use lab_remote_go.Common.Actions.{Any, pure, next, ◌>>=◌, fail_if, Triple, next-Triple}
use lab_remote_go.SoftEther.Pack.{Pack, get_int, get_string, get_data}
use lab_remote_go.SoftEther.Handshake.{
  Config, Certificate, HandshakeError, Stream, dialed, switched, closed, World, Peer, Shaking, log,
  trim_brackets, fingerprint, verify_certificate_name, verify_connection, stream_of, connected,
  open_stream, read_random, random_size, send_http, receive_http_pack, exchange_pack, address_of,
  protocol_error, bad_hello, bad_brand, bad_welcome, unsupported_mode, hub_count,
}
use lab_remote_go.SoftEther.Handshake.Login.{
  require_no_error, check_welcome, bad_branding, bad_mode, close_on_error, close_always, with_port,
  check_hello, exchange_signature, login, enumerate_on, enumerate_hubs, switch_over, open_on,
  only_hub, choose_hub, open_session,
}
use lab_remote_go.SoftEther.Handshake.Pinned.{
  IsTrusted, IsSafe, log-IsSafe, Keeps, Keeps-bind, Keeps-pure, Keeps-fail, Keeps-fail_if, Keeps-if,
  read_random-Keeps, random_size-Keeps, written-Keeps, send_http-Keeps, receive_http_pack-Keeps,
  exchange_pack-Keeps,
}

module _ (sha256 to_upper : Bytes → Bytes) (fold : ℕ → ℕ) (watermark arch : Bytes) (peer : Peer)
    (config : Config) where
  abbrev Trusted : Stream → Type 0
  Trusted = IsTrusted sha256 fold config

  abbrev Safe : ℕ → World → Type 0
  Safe = IsSafe sha256 fold config

  abbrev Kept : {A : Type 0} → ℕ → Shaking A → Type 0
  Kept n m = Keeps sha256 fold config n m

  -- A stream that is handed on stays open and is trusted; after an error nothing more is open.
  abbrev pub IsOpened : ℕ → World × Result HandshakeError Stream → Type 0
  IsOpened n (w, ok stream) = Safe (suc n) w × Trusted stream
  IsOpened n (w, err e) = Safe n w

  verify_connection-Trusted :
      (chain : List Certificate) (certificate : Certificate)
      → verify_connection sha256 fold config chain ≡ ok certificate
      → Trusted (record { certificate = certificate; host = address_of config })
  unfolding verify_connection
  verify_connection-Trusted [] certificate h = absurd (cc)
  verify_connection-Trusted (first ∷ rest) certificate h =
      elim (Bool-cases (verify_certificate_name sha256 fold first (trim_brackets config.server))) [
        | inr wrong ↦ absurd (ground (arith, wrong))
        | inl named ↦ elim (Bool-cases (is_empty config.certificate_pin)) [
          | inl unpinned ↦ absurd (ground (arith, named, unpinned))
          | inr pinned ↦
              elim (Bool-cases (text_eq config.certificate_pin (fingerprint sha256 fold first))) [
                | inr changed ↦ absurd (ground (arith, named, pinned, changed))
                | inl same ↦
                    let e : first ≡ certificate = ground (arith, named, pinned, same) in
                    rw (← e) (
                      named,
                      pinned,
                      text_eq_sound config.certificate_pin (fingerprint sha256 fold first) same,
                    )
              ]
        ]
      ]

  stream_of-IsOpened :
      (n : ℕ) (chain : List Certificate) (r : Result HandshakeError Certificate) (w : World)
      → verify_connection sha256 fold config chain ≡ r
      → Safe (suc n) w
      → IsOpened n (stream_of sha256 fold config r w)
  stream_of-IsOpened n chain (err e) w h s =
      log-IsSafe sha256 fold config (suc n) n closed w tt (omega arith) s
  stream_of-IsOpened n chain (ok certificate) w h s =
      (s, verify_connection-Trusted chain certificate h)

  connected-IsOpened :
      (n : ℕ) (o : Option (List Certificate)) (w : World)
      → Safe n w
      → IsOpened n (connected sha256 fold config o w)
  connected-IsOpened n none w s = s
  connected-IsOpened n (some chain) w s =
      stream_of-IsOpened n chain (verify_connection sha256 fold config chain) _ refl
        (log-IsSafe sha256 fold config n (suc n) (dialed (address_of config)) w tt (omega arith) s)

  open_stream-IsOpened :
      (n : ℕ) (w : World) → Safe n w → IsOpened n (open_stream sha256 fold peer config w)
  unfolding open_stream
  open_stream-IsOpened n w s = connected-IsOpened n (peer.presents w) w s

  require_no_error-Keeps : (n : ℕ) (response : Pack) → Kept n (require_no_error response)
  require_no_error-Keeps n response =
      Keeps-fail_if sha256 fold config n (not (get_int response (codes "error") == 0))
        (protocol_error (get_int response (codes "error")))

  check_hello-Keeps :
      (n : ℕ) (response : Pack)
      → Kept n (check_hello sha256 to_upper fold watermark arch peer response)
  check_hello-Keeps n response =
      let lacking =
        not (length (get_data response (codes "random")) == 20)
        || is_empty (get_string response (codes "hello")) in
      Keeps-bind sha256 fold config n (require_no_error response) _
        (require_no_error-Keeps n response)
        (λ _.
          Keeps-bind sha256 fold config n (fail_if lacking bad_hello) _
            (Keeps-fail_if sha256 fold config n lacking bad_hello)
            (λ _. Keeps-pure sha256 fold config n (get_data response (codes "random"))))

  exchange_signature-Keeps :
      (n : ℕ) (stream : Stream)
      → Trusted stream
      → Kept n (exchange_signature sha256 to_upper fold watermark arch peer stream)
  unfolding exchange_signature
  exchange_signature-Keeps n stream trusted =
      Keeps-bind sha256 fold config n (random_size peer 2000) _
        (random_size-Keeps sha256 fold config peer n 2000)
        (λ size.
          Keeps-bind sha256 fold config n (read_random peer size) _
            (read_random-Keeps sha256 fold config peer n size)
            (λ padding.
              Keeps-bind sha256 fold config n (send_http peer stream _ _ _) _
                (send_http-Keeps sha256 fold config peer n stream _ _ _ trusted)
                (λ _.
                  Keeps-bind sha256 fold config n (receive_http_pack peer) _
                    (receive_http_pack-Keeps sha256 fold config peer n) (check_hello-Keeps n))))

  check_welcome-Keeps : (n : ℕ) (response : Pack) → Kept n (check_welcome response)
  check_welcome-Keeps n response =
      let branded = bad_branding (get_string response (codes "branded_cfroms")) in
      let lacking =
        is_empty (get_string response (codes "session_name"))
        || not (length (get_data response (codes "session_key")) == 20) in
      Keeps-bind sha256 fold config n (require_no_error response) _
        (require_no_error-Keeps n response)
        (λ _.
          Keeps-bind sha256 fold config n (fail_if branded bad_brand) _
            (Keeps-fail_if sha256 fold config n branded bad_brand)
            (λ _.
              Keeps-bind sha256 fold config n (fail_if lacking bad_welcome) _
                (Keeps-fail_if sha256 fold config n lacking bad_welcome)
                (λ _. Keeps-pure sha256 fold config n response)))

  login-Keeps :
      (n : ℕ) (stream : Stream) (given : Config) (hub challenge : Bytes)
      → Trusted stream
      → Kept n (login sha256 to_upper fold watermark arch peer stream given hub challenge)
  unfolding login
  login-Keeps n stream given hub challenge trusted =
      Keeps-bind sha256 fold config n (read_random peer 64) _
        (read_random-Keeps sha256 fold config peer n 64)
        (λ unique.
          Keeps-bind sha256 fold config n (exchange_pack peer stream _) _
            (exchange_pack-Keeps sha256 fold config peer n stream _ trusted)
            (check_welcome-Keeps n))

  enumerate_on-Keeps :
      (n : ℕ) (stream : Stream)
      → Trusted stream
      → Kept n (enumerate_on sha256 to_upper fold watermark arch peer stream)
  enumerate_on-Keeps n stream trusted =
      Keeps-bind sha256 fold config n
        (exchange_signature sha256 to_upper fold watermark arch peer stream) _
        (exchange_signature-Keeps n stream trusted)
        (λ challenge.
          Keeps-bind sha256 fold config n (exchange_pack peer stream _) _
            (exchange_pack-Keeps sha256 fold config peer n stream _ trusted)
            (λ response.
              Keeps-bind sha256 fold config n (require_no_error response) _
                (require_no_error-Keeps n response) (λ _. Keeps-pure sha256 fold config n _)))

  close_always-Safe :
      {A : Type 0} (n : ℕ) (r : World × Result HandshakeError A)
      → Triple (Safe (suc n)) Any r
      → Triple (Safe n) Any (close_always r)
  close_always-Safe n (w, ok a) h =
      (log-IsSafe sha256 fold config (suc n) n closed w tt (omega arith) h.0, tt)
  close_always-Safe n (w, err e) h =
      log-IsSafe sha256 fold config (suc n) n closed w tt (omega arith) h

  -- What runs on an opened stream.
  on_stream :
      {A : Type 0} (n : ℕ) (r : World × Result HandshakeError Stream)
      (f : Stream → World → World × Result HandshakeError A)
      (Q : World × Result HandshakeError A → Type 0)
      → IsOpened n r
      → ((w : World) (e : HandshakeError) → Safe n w → Q (w, err e))
      → ((stream : Stream) (w : World) → Trusted stream → Safe (suc n) w → Q (f stream w))
      → Q (next r f)
  on_stream n (w, ok stream) f Q h failing going = going stream w h.1 h.0
  on_stream n (w, err e) f Q h failing going = failing w e h

module _ (sha256 to_upper : Bytes → Bytes) (fold : ℕ → ℕ) (watermark arch : Bytes) (peer : Peer)
    (config : Config) where
  enumerate_hubs-Keeps :
      (n : ℕ)
      → Keeps sha256 fold config n (enumerate_hubs sha256 to_upper fold watermark arch peer config)
  unfolding enumerate_hubs Keeps
  enumerate_hubs-Keeps n w s =
      on_stream sha256 to_upper fold watermark arch peer (with_port config) n
        (open_stream sha256 fold peer (with_port config) w)
        (λ stream v. close_always (enumerate_on sha256 to_upper fold watermark arch peer stream v))
        (Triple (IsSafe sha256 fold config n) Any)
        (open_stream-IsOpened sha256 to_upper fold watermark arch peer (with_port config) n w s)
        (λ v e h. h)
        (λ stream v trusted h.
          close_always-Safe sha256 to_upper fold watermark arch peer config n
            (enumerate_on sha256 to_upper fold watermark arch peer stream v)
            (enumerate_on-Keeps sha256 to_upper fold watermark arch peer config (suc n) stream
              trusted v h))

  only_hub-Keeps :
      (n : ℕ) (hubs : List Text)
      → Keeps sha256 fold config n (only_hub sha256 to_upper fold watermark arch peer hubs)
  only_hub-Keeps n [] = Keeps-fail sha256 fold config Text n (hub_count 0)
  only_hub-Keeps n (hub ∷ []) = Keeps-pure sha256 fold config n hub
  only_hub-Keeps n (hub ∷ other ∷ rest) =
      Keeps-fail sha256 fold config Text n (hub_count (length (hub ∷ other ∷ rest)))

  switch_over-Keeps :
      (n : ℕ) (stream : Stream)
      → IsTrusted sha256 fold config stream
      → Keeps sha256 fold config n (switch_over sha256 to_upper fold watermark arch peer stream)
  unfolding switch_over Keeps
  switch_over-Keeps n stream trusted w s =
      let bytes : Bytes = 0 ∷ 1 ∷ 2 ∷ 3 ∷ 4 ∷ [] in
      written-Keeps sha256 fold config peer n (peer.accepts_write w) (log (switched stream bytes) w)
        (log-IsSafe sha256 fold config n n (switched stream bytes) w (trusted, tt) refl s)

  -- What `Open` does on its stream keeps it, and hands on that stream.
  open_on-Triple :
      (n : ℕ) (given : Config) (hub : Text) (stream : Stream) (w : World)
      → IsTrusted sha256 fold config stream
      → IsSafe sha256 fold config n w
      → Triple
          (IsSafe sha256 fold config n)
          (λ got v. got ≡ stream)
          (open_on sha256 to_upper fold watermark arch peer given hub stream w)
  unfolding Keeps
  open_on-Triple n given hub stream w trusted s =
      let Q : Stream → World → Type 0 = λ got v. got ≡ stream in
      let Safe = IsSafe sha256 fold config n in
      next-Triple Safe Safe Any Q
        (exchange_signature sha256 to_upper fold watermark arch peer stream w)
        (λ challenge.
          login sha256 to_upper fold watermark arch peer stream given hub challenge >>= λ welcome.
          fail_if (bad_mode welcome) unsupported_mode >>= λ _.
          switch_over sha256 to_upper fold watermark arch peer stream >>= λ _. pure stream)
        (exchange_signature-Keeps sha256 to_upper fold watermark arch peer config n stream trusted w
          s)
        (λ v i. i)
        (λ challenge v i _.
          next-Triple Safe Safe Any Q
            (login sha256 to_upper fold watermark arch peer stream given hub challenge v)
            (λ welcome. fail_if (bad_mode welcome) unsupported_mode >>= λ _.
              switch_over sha256 to_upper fold watermark arch peer stream >>= λ _. pure stream)
            (login-Keeps sha256 to_upper fold watermark arch peer config n stream given hub
              challenge trusted v i)
            (λ v' i'. i')
            (λ welcome v' i' _.
              next-Triple Safe Safe Any Q (fail_if (bad_mode welcome) unsupported_mode v')
                (λ _.
                  switch_over sha256 to_upper fold watermark arch peer stream >>= λ _. pure stream)
                (Keeps-fail_if sha256 fold config n (bad_mode welcome) unsupported_mode v' i')
                (λ u j. j)
                (λ _ u j _.
                  next-Triple Safe Safe Any Q
                    (switch_over sha256 to_upper fold watermark arch peer stream u)
                    (λ _. pure stream) (switch_over-Keeps n stream trusted u j) (λ u' k. k)
                    (λ _ u' k _. (k, refl)))))

  close_on_error-IsOpened :
      (n : ℕ) (stream : Stream) (r : World × Result HandshakeError Stream)
      → IsTrusted sha256 fold config stream
      → Triple (IsSafe sha256 fold config (suc n)) (λ got v. got ≡ stream) r
      → IsOpened sha256 to_upper fold watermark arch peer config n (close_on_error r)
  close_on_error-IsOpened n stream (w, ok got) trusted h = (h.0, rw h.1 trusted)
  close_on_error-IsOpened n stream (w, err e) trusted h =
      log-IsSafe sha256 fold config (suc n) n closed w tt (omega arith) h

  choose_hub-Keeps :
      (n : ℕ)
      → Keeps sha256 fold config n (choose_hub sha256 to_upper fold watermark arch peer config)
  choose_hub-Keeps n =
      Keeps-if sha256 fold config n (is_empty (trim_space config.hub))
        (enumerate_hubs sha256 to_upper fold watermark arch peer config
          >>= only_hub sha256 to_upper fold watermark arch peer)
        (pure (trim_space config.hub))
        (Keeps-bind sha256 fold config n
          (enumerate_hubs sha256 to_upper fold watermark arch peer config)
          (only_hub sha256 to_upper fold watermark arch peer) (enumerate_hubs-Keeps n)
          (only_hub-Keeps n))
        (Keeps-pure sha256 fold config n (trim_space config.hub))

-- Whatever the peer answers, `Open` sends requests, the proof of the password among them, and the first
-- bytes of the session only to a peer whose certificate names the server and has the pinned fingerprint,
-- which is not empty. If it fails, every connection that it dialed is closed again; if it succeeds, just
-- the one of the stream that it hands on, whose peer is such a one, is still open.
pub open_session-IsOpened :
    (sha256 to_upper : Bytes → Bytes) (fold : ℕ → ℕ) (watermark arch : Bytes) (peer : Peer)
    (config : Config) (n : ℕ) (w : World)
    → IsSafe sha256 fold config n w
    → IsOpened sha256 to_upper fold watermark arch peer config n
        (open_session sha256 to_upper fold watermark arch peer config w)
unfolding open_session Keeps
open_session-IsOpened sha256 to_upper fold watermark arch peer config n w s =
    by_hub (choose_hub sha256 to_upper fold watermark arch peer (with_port config) w)
      (choose_hub-Keeps sha256 to_upper fold watermark arch peer (with_port config) n w s)
  where
    by_hub :
        (r : World × Result HandshakeError Text)
        → Triple (IsSafe sha256 fold config n) Any r
        → IsOpened sha256 to_upper fold watermark arch peer config n (
            next r (λ hub. open_stream sha256 fold peer (with_port config) >>= λ stream v.
            close_on_error
              (open_on sha256 to_upper fold watermark arch peer (with_port config) hub stream v)))
    by_hub (v, err e) h = h
    by_hub (v, ok hub) h =
        on_stream sha256 to_upper fold watermark arch peer (with_port config) n
          (open_stream sha256 fold peer (with_port config) v)
          (λ stream u.
            close_on_error
              (open_on sha256 to_upper fold watermark arch peer (with_port config) hub stream u))
          (IsOpened sha256 to_upper fold watermark arch peer config n)
          (open_stream-IsOpened sha256 to_upper fold watermark arch peer (with_port config) n v h.0)
          (λ u e i. i)
          (λ stream u trusted i.
            close_on_error-IsOpened sha256 to_upper fold watermark arch peer config n stream
              (open_on sha256 to_upper fold watermark arch peer (with_port config) hub stream u)
              trusted
              (open_on-Triple sha256 to_upper fold watermark arch peer config (suc n)
                (with_port config) hub stream u trusted i))
