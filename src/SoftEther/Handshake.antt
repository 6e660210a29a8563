-- ===== src/SoftEther/Handshake.antt =====
-- internal/softether/protocol.go, the stream below a session: `openStream`, `verifyCertificateName`,
-- `sendHTTP`, `receiveHTTPPack` and `exchangePack`. TCP, TLS, X.509 names and HTTP are what the peer does:
-- it may answer anything, depending on all that was sent before.
pub mod Login
pub mod Pinned
pub mod Outcome
mod Tests
use lab_remote_go.Common.{
  ℕ, ◌+◌, ◌*◌, ◌/◌, ◌%◌, Bool, true, false, not, ◌&&◌, ◌||◌, List, [], ◌∷◌, ◌++◌, Option, none,
  some, map, ltb, ◌==◌, if◌then◌else◌, length, take, Bytes, bytes_eq, get_or,
}
use lab_remote_go.Common.Results.{Result, err, ok}
use lab_remote_go.Common.Texts.{Text, trim, trim_space, is_empty, member, text_eq}
use lab_remote_go.Common.Paths.{codes, decimal_text}
use lab_remote_go.Common.Base64.{base64}
use lab_remote_go.Common.Actions.{Action, pure, fail, ◌>>=◌, ◌>>◌, fail_if}
use lab_remote_go.Model.Addresses.{is_ip}
use lab_remote_go.SoftEther.Pack.{Pack, max_pack_value, add_data}
use lab_remote_go.SoftEther.Pack.Codec.{PackError, marshal, unmarshal_pack}

abbrev pub default_port : ℕ
default_port = 992

pub record Config : Type 0 where
  pub server : Text
  pub port : ℕ
  pub hub : Text
  pub username : Text
  pub password : Bytes
  pub certificate_pin : Text

-- `host_verifies` is what `VerifyHostname` says of a host.
pub record Certificate : Type 0 where
  pub raw : Bytes
  pub host_verifies : Text → Bool
  pub has_dns_names : Bool
  pub common_name : Text

pub data HandshakeError : Type 0 where
  unreachable no_certificate name_mismatch : HandshakeError
  certificate_error : Bool → Text → Text → HandshakeError
  protocol_error : ℕ → HandshakeError
  no_random write_failed read_failed bad_server bad_length : HandshakeError
  bad_pack : PackError → HandshakeError
  bad_hello bad_brand bad_welcome unsupported_mode : HandshakeError
  hub_count : ℕ → HandshakeError

pub record Stream : Type 0 where
  pub certificate : Certificate
  pub host : Text

-- What the client does on the network, in its order.
pub data Sent : Type 0 where
  dialed : Text → Sent
  posted : Stream → Text → Text → Bytes → Sent
  switched : Stream → Bytes → Sent
  closed : Sent

-- `draws` counts the reads of the random source.
pub record World : Type 0 where
  pub sent : List Sent
  pub draws : ℕ

pub record HttpResponse : Type 0 where
  pub status : ℕ
  pub proto : Text
  pub content_type : Text
  pub content_length : Option ℕ
  pub body : Bytes

-- `presents` is `none` where no TCP connection comes about; a handshake that fails presents nothing.
pub record Peer : Type 0 where
  pub presents : World → Option (List Certificate)
  pub accepts_write : World → Bool
  pub replies : World → Option HttpResponse
  pub random : ℕ → ℕ → Option Bytes

abbrev pub Shaking : Type 0 → Type 0
Shaking A = Action World HandshakeError A

abbrev pub log : Sent → World → World
log event w = record w { sent = w.sent ++ (event ∷ []) }

-- `strings.Trim(s, "[]")`
abbrev pub trim_brackets : Text → Text
trim_brackets s = trim (λ c. c == 91 || c == 93) s

-- `net.JoinHostPort`
abbrev pub join_host_port : Text → ℕ → Text
join_host_port host port =
    if member 58 host
    then (91 ∷ host) ++ (93 ∷ 58 ∷ decimal_text port)
    else host ++ (58 ∷ decimal_text port)

abbrev pub address_of : Config → Text
address_of config = join_host_port (trim_brackets config.server) config.port

-- the parameters: SHA-256 and the case folding of `strings.EqualFold`
module _ (sha256 : Bytes → Bytes) (fold : ℕ → ℕ) where
  abbrev pub fingerprint : Certificate → Text
  fingerprint certificate = codes "SHA256:" ++ base64 (sha256 certificate.raw)

  -- `verifyCertificateName`
  unfoldable pub verify_certificate_name : Certificate → Text → Bool
  verify_certificate_name certificate hostname =
      certificate.host_verifies hostname
      || (not certificate.has_dns_names
          && (not (is_ip hostname)
              && text_eq (map fold (trim_space certificate.common_name)) (map fold hostname)))

  -- `VerifyConnection`
  unfoldable pub verify_connection : Config → List Certificate → Result HandshakeError Certificate
  verify_connection config [] = err no_certificate
  verify_connection config (certificate ∷ rest) =
      if not (verify_certificate_name certificate (trim_brackets config.server))
      then err name_mismatch
      else if is_empty config.certificate_pin
      then err (certificate_error false (fingerprint certificate) [])
      else if not (text_eq config.certificate_pin (fingerprint certificate))
      then err (certificate_error true (fingerprint certificate) config.certificate_pin)
      else ok certificate

  abbrev pub stream_of : Config → Result HandshakeError Certificate → Shaking Stream
  stream_of config (err e) w = (log closed w, err e)
  stream_of config (ok certificate) w =
      (w, ok (record { certificate = certificate; host = address_of config }))

  abbrev pub connected : Config → Option (List Certificate) → Shaking Stream
  connected config none w = (w, err unreachable)
  connected config (some chain) w =
      stream_of config (verify_connection config chain) (log (dialed (address_of config)) w)

  unfoldable pub open_stream : Peer → Config → Shaking Stream
  open_stream peer config w = connected config (peer.presents w) w

module _ (peer : Peer) where
  abbrev pub drawn : Option Bytes → Shaking Bytes
  drawn none = fail no_random
  drawn (some bytes) = pure bytes

  -- `rand.Read`
  unfoldable pub read_random : ℕ → Shaking Bytes
  read_random n w = drawn (peer.random w.draws n) (record w { draws = w.draws + 1 })

  -- `randomSize`, of two bytes
  unfoldable pub random_size : ℕ → Shaking ℕ
  random_size max = read_random 2 >>= λ value.
      pure (if max == 0 then 0 else (get_or value 0 0 * 256 + get_or value 1 0) % max)

  abbrev pub written : Bool → Shaking (Unit {0})
  written true = pure tt
  written false = fail write_failed

  -- What was written before an error has been sent too.
  unfoldable pub send_http : Stream → Text → Text → Bytes → Shaking (Unit {0})
  send_http stream path content_type body w =
      written (peer.accepts_write w) (log (posted stream path content_type body) w)

  abbrev pub unpacked : Result PackError Pack → Shaking Pack
  unpacked (err e) = fail (bad_pack e)
  unpacked (ok pack) = pure pack

  abbrev pub read_body : HttpResponse → ℕ → Shaking Pack
  read_body response size =
      if size == 0 || ltb max_pack_value size
      then fail bad_length
      else if ltb (length response.body) size
      then fail read_failed
      else unpacked (unmarshal_pack (take size response.body))

  abbrev pub read_sized : HttpResponse → Option ℕ → Shaking Pack
  read_sized response none = fail bad_length
  read_sized response (some size) = read_body response size

  abbrev pub read_response : Option HttpResponse → Shaking Pack
  read_response none = fail read_failed
  read_response (some response) =
      if not (response.status == 200)
        || (not (text_eq response.proto (codes "HTTP/1.1"))
            || not (text_eq response.content_type (codes "application/octet-stream")))
      then fail bad_server
      else read_sized response response.content_length

  unfoldable pub receive_http_pack : Shaking Pack
  receive_http_pack w = read_response (peer.replies w) w

  abbrev pub marshalled : Result PackError Bytes → Shaking Bytes
  marshalled (err e) = fail (bad_pack e)
  marshalled (ok body) = pure body

  unfoldable pub exchange_pack : Stream → Pack → Shaking Pack
  exchange_pack stream value = do
    size ← random_size 1000
    padding ← read_random size
    body ← marshalled (marshal (add_data value (codes "pencore") padding))
    send_http stream (codes "/vpnsvc/vpn.cgi") (codes "application/octet-stream") body
    receive_http_pack
