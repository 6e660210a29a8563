-- ===== src/SoftEther/Dialing.antt =====
-- internal/softether/link.go, `DialContext` and `validateIPv4Route`, and internal/softether/resolver.go:
-- how a connection is made through a link. What the user-space network and Go's resolver answer may
-- depend on all that was asked and dialed before; the deadlines are theirs.
pub mod Lookups
pub mod Routed
mod Tests
use lab_remote_go.Common.{
  ℕ, Bool, true, false, not, ◌||◌, List, [], ◌∷◌, ◌++◌, Option, none, some, if◌then◌else◌, ◌==◌,
}
use lab_remote_go.Common.Results.{Result, err, ok}
use lab_remote_go.Common.Texts.{Text, trim_space, text_eq}
use lab_remote_go.Common.Paths.{codes}
use lab_remote_go.Common.Actions.{Action, pure, fail, ◌>>=◌, fail_if}
use lab_remote_go.Model.Profiles.{trim_brackets}
use lab_remote_go.SoftEther.Session.{StopReason}
use lab_remote_go.SoftEther.Link.{Ip, ip_eq, zero_ip, same_subnet}
use lab_remote_go.SoftEther.Dhcp.{Lease}

-- `look_up` is `LookupNetIP` of a resolver whose queries all go to one server; an answer that is no
-- IPv4 address is `none`. `parse_ip` is `net.ParseIP`, with `none` inside for an address that has no
-- IPv4 form, and `split_host_port` is `net.SplitHostPort`.
pub data Event : Type 0 where
  queried : Ip → Text → Event
  dialed_ip : Ip → Text → Event
  dialed : Text → Text → Event

pub record Network : Type 0 where
  pub split_host_port : Text → Option (Text × Text)
  pub parse_ip : Text → Option (Option Ip)
  pub look_up : List Event → Ip → Text → Option (List (Option Ip))
  pub connects : List Event → Event → Bool

pub data DialError : Type 0 where
  link_closed : Option StopReason → DialError
  bad_address no_dns not_resolved no_ipv4 no_route not_connected : DialError

abbrev pub Dialing : Type 0 → Type 0
Dialing A = Action (List Event) DialError A

abbrev pub noted : Event → Dialing (Unit {0})
noted event events = (events ++ (event ∷ []), ok tt)

-- an address that is there and not 0.0.0.0
abbrev pub is_specified : Option Ip → Bool
is_specified none = false
is_specified (some ip) = not (ip_eq ip zero_ip)

abbrev pub public_servers : List Ip
public_servers =
    record { a = 223; b = 5; c = 5; d = 5 } ∷ record { a = 1; b = 1; c = 1; d = 1 } ∷ []

abbrev pub own_server : Option Ip → List Ip
own_server none = []
own_server (some dns) = dns ∷ []

unfoldable pub tunnel_dns_servers : Lease → Result DialError (List Ip)
tunnel_dns_servers lease =
    if is_specified lease.dns
    then ok (own_server lease.dns)
    else if not (is_specified lease.gateway)
    then err no_dns
    else ok public_servers

-- `strings.TrimSuffix(s, ".")`
abbrev pub trim_dot : Text → Text
trim_dot [] = []
trim_dot (c ∷ []) = if c == 46 then [] else c ∷ []
trim_dot (c ∷ d ∷ rest) = c ∷ trim_dot (d ∷ rest)

abbrev pub query_host : Text → Text
query_host host = trim_dot (trim_space host) ++ (46 ∷ [])

abbrev pub has_seen : Ip → List Ip → Bool
has_seen ip [] = false
has_seen ip (seen ∷ rest) = ip_eq ip seen || has_seen ip rest

-- the IPv4 addresses of an answer, each once, behind those that were seen
unfoldable pub distinct : List Ip → List (Option Ip) → List Ip
distinct seen [] = seen
distinct seen (none ∷ values) = distinct seen values
distinct seen (some ip ∷ values) =
    distinct (if has_seen ip seen then seen else seen ++ (ip ∷ [])) values

abbrev pub checked : List Ip → Dialing (List Ip)
checked [] = fail no_ipv4
checked (ip ∷ rest) = pure (ip ∷ rest)

abbrev pub resolved : Option (List (Option Ip)) → Dialing (List Ip)
resolved none = fail not_resolved
resolved (some values) = checked (distinct [] values)

abbrev pub is_none {ℓ} : {A : Type ℓ} → Option A → Bool
is_none none = true
is_none (some a) = false

unfoldable pub validate_ipv4_route : Lease → Ip → Result DialError (Unit {0})
validate_ipv4_route lease destination =
    if same_subnet lease.address destination lease.mask
    then ok tt
    else if is_none lease.gateway
    then err no_route
    else ok tt

abbrev pub is_tcp : Text → Bool
is_tcp network = text_eq network (codes "tcp") || text_eq network (codes "tcp4")

-- a connection, or Go's `nil`
abbrev pub Connection : Type 0
Connection = Option Event

module _ (net : Network) where
  -- `lookupIPv4` of one server
  unfoldable pub lookup_at : Text → Ip → Dialing (List Ip)
  lookup_at host server events =
      (noted (queried server (query_host host)) >>= λ _.
      resolved (net.look_up events server (query_host host)))
        events

  abbrev pub or_next :
      List Event × Result DialError (List Ip)
      → (Result DialError (List Ip) → Dialing (List Ip))
      → List Event × Result DialError (List Ip)
  or_next (events, ok addresses) later = (events, ok addresses)
  or_next (events, err why) later = later (err why) events

  -- the servers in turn; `last` is the failure of the one before
  unfoldable pub lookup_servers : Text → Result DialError (List Ip) → List Ip → Dialing (List Ip)
  lookup_servers host last [] events = (events, last)
  lookup_servers host last (server ∷ rest) events =
      or_next (lookup_at host server events) (λ why. lookup_servers host why rest)

  abbrev pub lookup_each : Text → Result DialError (List Ip) → Dialing (List Ip)
  lookup_each host (err why) = fail why
  lookup_each host (ok servers) = lookup_servers host (ok []) servers

  unfoldable pub lookup_ipv4 : Lease → Text → Dialing (List Ip)
  lookup_ipv4 lease host = lookup_each host (tunnel_dns_servers lease)

  -- the user-space network dials
  unfoldable pub connect : Event → Dialing Connection
  connect event events =
      (noted event >>= λ _.
      (if net.connects events event then pure (some event) else fail not_connected))
        events

  abbrev pub or_other :
      List Event × Result DialError Connection
      → (Result DialError Connection → Dialing Connection)
      → List Event × Result DialError Connection
  or_other (events, ok connection) later = (events, ok connection)
  or_other (events, err why) later = later (err why) events

  abbrev pub dial_routed : Text → Ip → Result DialError (Unit {0}) → Dialing Connection
  dial_routed port ip (err why) = fail why
  dial_routed port ip (ok tt) = connect (dialed_ip ip port)

  -- the addresses in turn; `last` is the failure of the one before
  unfoldable pub dial_addresses :
      Lease → Text → Result DialError Connection → List Ip → Dialing Connection
  dial_addresses lease port last [] events = (events, last)
  dial_addresses lease port last (ip ∷ rest) events =
      or_other (dial_routed port ip (validate_ipv4_route lease ip) events)
        (λ why. dial_addresses lease port why rest)

  abbrev pub dial_name : Lease → Text → Text → Dialing Connection
  dial_name lease host port = lookup_ipv4 lease host >>= dial_addresses lease port (ok none)

  -- an address that is written as numbers; without an IPv4 form it is not checked
  abbrev pub dial_literal : Text → Text → Result DialError (Unit {0}) → Dialing Connection
  dial_literal network address (err why) = fail why
  dial_literal network address (ok tt) = connect (dialed network address)

  abbrev pub route_of_literal : Lease → Option Ip → Result DialError (Unit {0})
  route_of_literal lease none = ok tt
  route_of_literal lease (some ip) = validate_ipv4_route lease ip

  abbrev pub dial_host : Lease → Text → Text → Text → Text → Option (Option Ip) → Dialing Connection
  dial_host lease network address host port none = dial_name lease host port
  dial_host lease network address host port (some ip) =
      dial_literal network address (route_of_literal lease ip)

  abbrev pub dial_split : Lease → Text → Text → Option (Text × Text) → Dialing Connection
  dial_split lease network address none = fail bad_address
  dial_split lease network address (some (host, port)) =
      dial_host lease network address host port (net.parse_ip (trim_brackets host))

  -- `stopped` is the reason of a link that has stopped.
  unfoldable pub dial_context :
      Lease → Option (Option StopReason) → Text → Text → Dialing Connection
  dial_context lease (some reason) network address = fail (link_closed reason)
  dial_context lease none network address =
      if is_tcp network
      then dial_split lease network address (net.split_host_port address)
      else connect (dialed network address)
