-- ===== src/SoftEther/Handshake/Tests.antt =====
-- A run of the handshake, and the witness.
use lab_remote_go.Common.{
  ℕ, ◌≡◌, refl, Bool, true, false, List, [], ◌∷◌, Option, none, some, length, replicate, Bytes,
  put_u32, put_u64, get_u32, read_full, bytes_eq,
}
use lab_remote_go.Common.Results.{Result, err, ok}
use lab_remote_go.Common.Paths.{codes}
use lab_remote_go.Common.Base64.{base64}
use lab_remote_go.SoftEther.Pack.{
  Pack, add_element, has_name, equal_fold, add_int, add_bool, add_string, add_data, get_int,
  get_bool, get_string, get_string_at, get_data, element, find_element,
}
use lab_remote_go.SoftEther.Pack.Codec.{
  PackError, marshal, unmarshal_pack, write_elements, write_element, write_values,
  write_pack_string, write_pack_value, read_elements, read_element, read_values, read_pack_string,
  read_pack_value, read_u32, read_bytes, read_sized, trim_nul,
}
use lab_remote_go.SoftEther.Sha0.{
  sha0, sum, pad_zeros, write, write_from, store, transform, compress, rounds, mix, schedule,
  extend_words, block_words, rotate_left, new_sha0,
}
use lab_remote_go.SoftEther.Handshake.{
  Config, Certificate, HandshakeError, certificate_error, Sent, dialed, posted, closed, World,
  HttpResponse, Peer, verify_certificate_name, verify_connection, open_stream, exchange_pack,
  random_size, read_random, send_http, receive_http_pack,
}
use lab_remote_go.SoftEther.Handshake.Login.{
  empty_pack, open_session, exchange_signature, login, switch_over, login_request, secure_password,
  add_client_version, add_node_info, add_ipv4,
}
use lab_remote_go.SoftEther.Handshake.Outcome.{IsOpened, open_session-IsOpened}

abbrev digest : Bytes → Bytes
digest bytes = 1 ∷ 2 ∷ 3 ∷ []

abbrev same : ℕ → ℕ
same c = c

abbrev as_is : Bytes → Bytes
as_is bytes = bytes

abbrev certificate : Certificate
certificate = record {
  raw = 9 ∷ [];
  host_verifies = λ host. true;
  has_dns_names = true;
  common_name = [];
}

abbrev content : Result PackError Bytes → Bytes
content (ok bytes) = bytes
content (err e) = []

abbrev hello : Pack
hello =
    add_string (add_data empty_pack (codes "random") (replicate 20 7)) (codes "hello") (codes "hi")

abbrev welcome : Pack
welcome =
    add_bool
      (add_string (add_data empty_pack (codes "session_key") (replicate 20 5))
        (codes "session_name") (codes "s"))
      (codes "use_encrypt") true

abbrev respond : Bytes → HttpResponse
respond body = record {
  status = 200;
  proto = codes "HTTP/1.1";
  content_type = codes "application/octet-stream";
  content_length = some (length body);
  body = body;
}

-- by the last thing that was sent: the image, or a request
abbrev reply : List Sent → Option HttpResponse
reply (dialed address ∷ posted stream path kind body ∷ []) =
    some (respond (content (marshal hello)))
reply (dialed address ∷ _ ∷ _ ∷ []) = some (respond (content (marshal welcome)))
reply _ = none

abbrev peer : Peer
peer = record {
  presents = λ w. some (certificate ∷ []);
  accepts_write = λ w. true;
  replies = λ w. reply w.sent;
  random = λ draw n. some (replicate n 0);
}

abbrev config : Config
config = record {
  server = codes "vpn.example";
  port = 0;
  hub = codes " LAB ";
  username = codes "u";
  password = codes "p";
  certificate_pin = codes "SHA256:AQID";
}

abbrev start : World
start = record { sent = []; draws = 0 }

-- The certificate is not the pinned one: the connection is closed, and nothing was sent on it.
changed_pin :
    (open_session digest as_is same [] [] peer
      (record config { certificate_pin = codes "x" })
      start)
    ≡ (
      record { sent = dialed (codes "vpn.example:992") ∷ closed ∷ []; draws = 0 },
      err (certificate_error true (codes "SHA256:AQID") (codes "x")),
    )
unfolding open_session open_stream verify_connection verify_certificate_name base64
changed_pin = refl

open_session-IsOpened_example :
    IsOpened digest as_is same [] [] peer config 0
      (open_session digest as_is same [] [] peer config start)
open_session-IsOpened_example =
    open_session-IsOpened digest as_is same [] [] peer config 0 start (tt, refl)

abbrev is_ok : {A : Type 0} → Result HandshakeError A → Bool
is_ok (ok a) = true
is_ok (err e) = false

-- Two requests and the start of the session, to the pinned peer.
opened : is_ok (open_session digest as_is same [] [] peer config start).1 ≡ true
unfolding open_session open_stream verify_connection verify_certificate_name base64
    exchange_signature login exchange_pack random_size read_random send_http receive_http_pack
    switch_over login_request secure_password add_client_version add_node_info add_ipv4 sha0 marshal
    unmarshal_pack write_elements write_element write_values write_pack_string write_pack_value
    read_elements read_element read_values read_pack_string read_pack_value add_element has_name
    equal_fold add_int add_bool add_string add_data get_int get_bool get_string get_string_at
    get_data element find_element put_u32 put_u64 get_u32 read_full bytes_eq sum pad_zeros write
    write_from store transform compress rounds mix schedule extend_words block_words rotate_left
    new_sha0 read_u32 read_bytes read_sized trim_nul
opened = refl
