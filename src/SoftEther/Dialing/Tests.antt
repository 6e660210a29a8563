-- ===== src/SoftEther/Dialing/Tests.antt =====
-- A run and the witness for the dials of a link: the first of the public name servers does not answer.
use lab_remote_go.Common.{
  ◌≡◌, refl, Option, Bool, true, false, [], ◌∷◌, none, some, if◌then◌else◌, bytes_eq,
}
use lab_remote_go.Common.Results.{err, ok}
use lab_remote_go.Common.Paths.{codes}
use lab_remote_go.Common.Actions.{Triple}
use lab_remote_go.SoftEther.Link.{Ip, ip_eq}
use lab_remote_go.SoftEther.Session.{StopReason}
use lab_remote_go.SoftEther.Dhcp.{Lease}
use lab_remote_go.SoftEther.Dialing.{
  link_closed, Event, queried, dialed_ip, dialed, Network, tunnel_dns_servers, distinct,
  validate_ipv4_route, lookup_at, lookup_servers, lookup_ipv4, connect, dial_addresses,
  dial_context,
}
use lab_remote_go.SoftEther.Dialing.Lookups.{AllAllowed}
use lab_remote_go.SoftEther.Dialing.Routed.{IsLast, dial_context-IsAllowed}

abbrev leased : Ip
leased = record { a = 10; b = 0; c = 0; d = 20 }

abbrev lease : Lease
lease = record {
  address = leased;
  mask = record { a = 255; b = 255; c = 255; d = 0 };
  gateway = some (record { a = 10; b = 0; c = 0; d = 1 });
  dns = none;
  lease_time = 0;
}

abbrev ali : Ip
ali = record { a = 223; b = 5; c = 5; d = 5 }

abbrev cloudflare : Ip
cloudflare = record { a = 1; b = 1; c = 1; d = 1 }

abbrev first : Ip
first = record { a = 192; b = 0; c = 2; d = 1 }

abbrev second : Ip
second = record { a = 192; b = 0; c = 2; d = 2 }

abbrev is_first : Event → Bool
is_first (dialed_ip ip port) = ip_eq ip first
is_first (queried server host) = false
is_first (dialed network address) = false

abbrev tunnel : Network
tunnel = record {
  split_host_port = λ address. some (codes "git.lan", codes "22");
  parse_ip = λ host. none;
  look_up = λ events server host.
      if ip_eq server ali then none else some (some first ∷ none ∷ some first ∷ some second ∷ []);
  connects = λ events event. if is_first event then false else true;
}

dials_in_turn : dial_context tunnel lease none (codes "tcp") (codes "git.lan:22") [] ≡ (
  queried ali (codes "git.lan.")
      ∷ queried cloudflare (codes "git.lan.")
      ∷ dialed_ip first (codes "22")
      ∷ dialed_ip second (codes "22")
      ∷ [],
  ok (some (dialed_ip second (codes "22"))),
)
unfolding dial_context lookup_ipv4 lookup_servers lookup_at distinct tunnel_dns_servers
    dial_addresses connect validate_ipv4_route bytes_eq
dials_in_turn = refl

dial_context-IsAllowed_example :
    ((reason : Option StopReason)
      → none ≡ some reason
      → dial_context tunnel lease none (codes "tcp") (codes "git.lan:22") []
        ≡ ([], err (link_closed reason)))
    × Triple
        (AllAllowed tunnel lease)
        (IsLast tunnel lease)
        (dial_context tunnel lease none (codes "tcp") (codes "git.lan:22") [])
dial_context-IsAllowed_example =
    dial_context-IsAllowed tunnel lease none (codes "tcp") (codes "git.lan:22")
