-- ===== src/SoftEther/Handshake/Login.antt =====
-- internal/softether/protocol.go: `exchangeSignature`, `login`, `EnumerateHubs` and `Open`. The watermark and
-- the architecture's name are parameters, and so is `strings.ToUpper`.
use Prim.Native.String.{String}
use lab_remote_go.Common.{
  ℕ, zero, suc, ◌+◌, Bool, true, false, not, ◌&&◌, ◌||◌, List, [], ◌∷◌, ◌++◌, Option, none, some,
  min, ◌==◌, if◌then◌else◌, length, replicate, Bytes,
}
use lab_remote_go.Common.Results.{Result, err, ok}
use lab_remote_go.Common.Texts.{Text, trim_space, is_empty, text_eq}
use lab_remote_go.Common.Paths.{codes}
use lab_remote_go.Common.Actions.{pure, fail, ◌>>=◌, ◌>>◌, fail_if}
use lab_remote_go.SoftEther.Pack.{
  Pack, add_int, add_bool, add_string, add_data, get_int, get_bool, get_string, get_string_at,
  string_count, get_data,
}
use lab_remote_go.SoftEther.Sha0.{sha0}
use lab_remote_go.SoftEther.Handshake.{
  Config, default_port, HandshakeError, protocol_error, bad_hello, bad_brand, bad_welcome,
  unsupported_mode, hub_count, Stream, switched, closed, World, Peer, Shaking, log, open_stream,
  read_random, random_size, written, send_http, receive_http_pack, exchange_pack,
}

abbrev pub empty_pack : Pack
empty_pack = record { elements = [] }

abbrev pub client_text : Bytes
client_text = codes "LabRemote Isolated Transport"

-- `addClientVersion`
unfoldable pub add_client_version : Pack → Pack
add_client_version p =
    add_int (add_int (add_string p (codes "client_str") client_text) (codes "client_ver") 1000)
      (codes "client_build") 1000

-- `addIPv4`
unfoldable pub add_ipv4 : Pack → Bytes → ℕ → Pack
add_ipv4 p name address =
    add_int
      (add_int
        (add_data (add_bool p (name ++ codes "@ipv6_bool") false) (name ++ codes "@ipv6_array")
          (replicate 16 0))
        (name ++ codes "@ipv6_scope_id") 0)
      name address

abbrev pub add_all : (Pack → Bytes → Pack) → List String → Pack → Pack
add_all add [] p = p
add_all add (name ∷ rest) p = add_all add rest (add p (codes name))

abbrev pub add_texts : List (String × Bytes) → Pack → Pack
add_texts [] p = p
add_texts ((name, text) ∷ rest) p = add_texts rest (add_string p (codes name) text)

abbrev pub add_bools : List (String × Bool) → Pack → Pack
add_bools [] p = p
add_bools ((name, value) ∷ rest) p = add_bools rest (add_bool p (codes name) value)

abbrev pub node_texts : Bytes → Bytes → List (String × Bytes)
node_texts arch hub =
    ("ClientProductName", codes "LabRemote")
    ∷ ("ServerProductName", codes "SoftEther VPN Server")
    ∷ ("ClientOsName", codes "Windows")
    ∷ ("ClientOsVer", arch)
    ∷ ("ClientOsProductId", codes "LabRemote")
    ∷ ("ClientHostname", codes "LabRemote")
    ∷ ("ServerHostname", [])
    ∷ ("ProxyHostname", [])
    ∷ ("HubName", hub)
    ∷ []

abbrev pub node_integers : List String
node_integers =
    "ClientProductVer" ∷ "ClientProductBuild" ∷ "ServerProductVer" ∷ "ServerProductBuild"
    ∷ "ClientPort" ∷ "ServerPort2" ∷ "ProxyPort" ∷ []

abbrev pub node_flags : List (String × Bool)
node_flags =
    ("V_IsWindows", true) ∷ ("V_IsNT", true) ∷ ("V_IsServer", false) ∷ ("V_IsBeta", false) ∷ []

-- `addNodeInfo`
unfoldable pub add_node_info : Bytes → Bytes → Pack → Pack
add_node_info arch hub p =
    let p1 = add_data (add_texts (node_texts arch hub) p) (codes "UniqueId") (replicate 16 0) in
    let p2 = add_all (λ p name. add_int p name 0) node_integers p1 in
    let p3 =
      add_all (λ p name. add_ipv4 p name 0)
        ("ClientIpAddress" ∷ "ServerIpAddress" ∷ "ProxyIpAddress" ∷ []) p2 in
    let p4 =
      add_all (λ p name. add_data p name (replicate 16 0))
        ("ClientIpAddress6" ∷ "ServerIpAddress6" ∷ "ProxyIpAddress6" ∷ []) p3 in
    let p5 = add_bools node_flags p4 in
    let p6 =
      add_all (λ p name. add_int p name 0)
        ("V_VerMajor" ∷ "V_VerMinor" ∷ "V_Build" ∷ "V_ServicePack" ∷ []) p5 in
    add_string p6 (codes "V_Title") (codes "windows/" ++ arch)

-- The digest always comes about.
abbrev pub digest_of : Option Bytes → Bytes
digest_of none = []
digest_of (some d) = d

-- the proof of the password: it depends on the server's challenge
unfoldable pub secure_password : (Bytes → Bytes) → Config → Bytes → Bytes
secure_password to_upper config challenge =
    digest_of (sha0 (digest_of (sha0 (config.password ++ to_upper config.username)) ++ challenge))

abbrev pub login_flags : List (String × Bool)
login_flags =
    ("use_encrypt", true)
    ∷ ("use_compress", false)
    ∷ ("half_connection", false)
    ∷ ("require_bridge_routing_mode", false)
    ∷ ("require_monitor_mode", false)
    ∷ ("qos", false)
    ∷ ("support_bulk_on_rudp", true)
    ∷ ("support_hmac_on_bulk_of_rudp", true)
    ∷ ("support_udp_recovery", true)
    ∷ []

-- the request up to its flags
abbrev pub login_head : (Bytes → Bytes) → Config → Bytes → Bytes → Pack
login_head to_upper config hub challenge =
    let p1 =
      add_texts (("method", codes "login") ∷ ("hubname", hub) ∷ ("username", config.username) ∷ [])
        empty_pack in
    let p2 =
      add_data (add_int p1 (codes "authtype") 1) (codes "secure_password")
        (secure_password to_upper config challenge) in
    let p3 = add_int (add_client_version p2) (codes "protocol") 0 in
    let p4 = add_int (add_string p3 (codes "hello") client_text) (codes "version") 1000 in
    let p5 = add_int (add_int p4 (codes "build") 1000) (codes "client_id") 123 in
    add_bools login_flags (add_int p5 (codes "max_connection") 1)

unfoldable pub login_request : (Bytes → Bytes) → Bytes → Config → Bytes → Bytes → Bytes → Pack
login_request to_upper arch config hub challenge unique =
    let p1 =
      add_data (login_head to_upper config hub challenge) (codes "unique_id")
        (digest_of (sha0 unique)) in
    let p2 =
      add_string (add_int p1 (codes "rudp_bulk_max_version") 2) (codes "branded_ctos")
        (codes "Branded_VPN") in
    add_node_info arch hub p2

abbrev pub bad_branding : Bytes → Bool
bad_branding branded = not (is_empty branded) && not (text_eq branded (codes "Branded_VPN"))

abbrev pub require_no_error : Pack → Shaking (Unit {0})
require_no_error response =
    let code = get_int response (codes "error") in fail_if (not (code == 0)) (protocol_error code)

abbrev pub check_welcome : Pack → Shaking Pack
check_welcome response = do
  require_no_error response
  fail_if (bad_branding (get_string response (codes "branded_cfroms"))) bad_brand
  fail_if
      (is_empty (get_string response (codes "session_name"))
        || not (length (get_data response (codes "session_key")) == 20))
      bad_welcome
  pure response

-- the modes that the session does not have
abbrev pub bad_mode : Pack → Bool
bad_mode welcome =
    not (get_bool welcome (codes "use_encrypt"))
    || (get_bool welcome (codes "use_compress")
        || (get_bool welcome (codes "half_connection") || get_bool welcome (codes "qos")))

-- the names of at most `count` hubs, from `index` on
unfoldable pub hub_names : Pack → ℕ → ℕ → List Text
hub_names response index zero = []
hub_names response index (suc count) =
    let rest = hub_names response (index + 1) count in
    let value = trim_space (get_string_at response (codes "HubName") index) in
    if is_empty value then rest else value ∷ rest

-- What `defer` does when a function returns an error, and when it returns at all.
abbrev pub close_on_error :
    {A : Type 0} → World × Result HandshakeError A → World × Result HandshakeError A
close_on_error (w, err e) = (log closed w, err e)
close_on_error (w, ok a) = (w, ok a)

abbrev pub close_always :
    {A : Type 0} → World × Result HandshakeError A → World × Result HandshakeError A
close_always (w, r) = (log closed w, r)

abbrev pub with_port : Config → Config
with_port config = record config { port = if config.port == 0 then default_port else config.port }

module _ (sha256 to_upper : Bytes → Bytes) (fold : ℕ → ℕ) (watermark arch : Bytes)
    (peer : Peer) where
  abbrev pub check_hello : Pack → Shaking Bytes
  check_hello response = do
    require_no_error response
    fail_if
        (not (length (get_data response (codes "random")) == 20)
          || is_empty (get_string response (codes "hello")))
        bad_hello
    pure (get_data response (codes "random"))

  unfoldable pub exchange_signature : Stream → Shaking Bytes
  exchange_signature stream = do
    size ← random_size peer 2000
    padding ← read_random peer size
    send_http peer stream (codes "/vpnsvc/connect.cgi") (codes "image/jpeg") (watermark ++ padding)
    response ← receive_http_pack peer
    check_hello response

  unfoldable pub login : Stream → Config → Bytes → Bytes → Shaking Pack
  login stream config hub challenge = do
    unique ← read_random peer 64
    response ← exchange_pack peer stream (login_request to_upper arch config hub challenge unique)
    check_welcome response

  abbrev pub enumerate_on : Stream → Shaking (List Text)
  enumerate_on stream = do
    challenge ← exchange_signature stream
    response ←
        exchange_pack peer stream
          (add_client_version (add_string empty_pack (codes "method") (codes "enum_hub")))
    require_no_error response
    pure (
        hub_names response 0
          (min (get_int response (codes "NumHub")) (string_count response (codes "HubName"))))

  unfoldable pub enumerate_hubs : Config → Shaking (List Text)
  enumerate_hubs config = open_stream sha256 fold peer (with_port config) >>= λ stream w.
      close_always (enumerate_on stream w)

  -- the five bytes that start the session on the plain connection
  unfoldable pub switch_over : Stream → Shaking (Unit {0})
  switch_over stream w =
      let bytes : Bytes = 0 ∷ 1 ∷ 2 ∷ 3 ∷ 4 ∷ [] in
      written peer (peer.accepts_write w) (log (switched stream bytes) w)

  abbrev pub open_on : Config → Text → Stream → Shaking Stream
  open_on config hub stream = do
    challenge ← exchange_signature stream
    welcome ← login stream config hub challenge
    fail_if (bad_mode welcome) unsupported_mode
    switch_over stream
    pure stream

  abbrev pub only_hub : List Text → Shaking Text
  only_hub (hub ∷ []) = pure hub
  only_hub hubs = fail (hub_count (length hubs))

  abbrev pub choose_hub : Config → Shaking Text
  choose_hub config =
      if is_empty (trim_space config.hub)
      then (enumerate_hubs config >>= only_hub)
      else pure (trim_space config.hub)

  -- `Open`, up to the two goroutines of the session: the stream that it runs on
  unfoldable pub open_session : Config → Shaking Stream
  open_session given = choose_hub (with_port given) >>= λ hub.
      open_stream sha256 fold peer (with_port given) >>= λ stream w.
      close_on_error (open_on (with_port given) hub stream w)
