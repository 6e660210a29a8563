-- ===== src/SoftEther/Dialing/Routed.antt =====
-- Where the connections of a link go to.
use lab_remote_go.Common.{
  ap, some-inj, ◌≡◌, refl, Bool, true, false, List, [], ◌∷◌, ◌++◌, Option, none, some,
  if◌then◌else◌,
}
use lab_remote_go.Common.Results.{Result, err, ok}
use lab_remote_go.Common.Texts.{Text, is_empty}
use lab_remote_go.Common.Actions.{pure, fail, Triple, next-Triple}
use lab_remote_go.Model.Profiles.{trim_brackets}
use lab_remote_go.SoftEther.Session.{StopReason}
use lab_remote_go.SoftEther.Link.{Ip}
use lab_remote_go.SoftEther.Dhcp.{Lease}
use lab_remote_go.SoftEther.Dialing.{
  Event, dialed_ip, dialed, Network, DialError, link_closed, not_connected, Connection,
  validate_ipv4_route, route_of_literal, is_tcp, lookup_ipv4, connect, or_other, dial_routed,
  dial_addresses, dial_name, dial_literal, dial_host, dial_split, dial_context,
}
use lab_remote_go.SoftEther.Dialing.Lookups.{
  MayReach, validate_ipv4_route-MayReach, IsAllowed, AllAllowed, AllAllowed-snoc, Found,
  lookup_ipv4-Found,
}

module _ (net : Network) (lease : Lease) where
  -- The connection is there, and it is the one that was dialed last.
  abbrev pub IsLast : Connection → List Event → Type 0
  IsLast connection events =
      (event : Event) × (before : List Event) × (connection ≡ some event)
      × (events ≡ before ++ (event ∷ []))

  abbrev Dialed : List Event × Result DialError Connection → Type 0
  Dialed r = Triple (AllAllowed net lease) IsLast r

  connect-Dialed :
      (event : Event) (events : List Event)
      → (AllAllowed net lease) events
      → IsAllowed net lease event
      → Dialed (connect net event events)
  unfolding connect
  connect-Dialed event events h a = answered (net.connects events event)
    where
      answered :
          (b : Bool)
          → Dialed ((if b then pure (some event) else fail not_connected) (events ++ (event ∷ [])))
      answered true = (AllAllowed-snoc net lease events event h a, (event, events, refl, refl))
      answered false = AllAllowed-snoc net lease events event h a

  or_other-Dialed :
      (r : List Event × Result DialError Connection)
      (later : Result DialError Connection → List Event → List Event × Result DialError Connection)
      → Dialed r
      → ((why : DialError) (events : List Event)
          → (AllAllowed net lease) events
          → Dialed (later (err why) events))
      → Dialed (or_other net r later)
  or_other-Dialed (events, ok connection) later t k = t
  or_other-Dialed (events, err why) later t k = k why events t

  dial_routed-Dialed :
      (port : Text) (ip : Ip) (events : List Event)
      → (AllAllowed net lease) events
      → Dialed (dial_routed net port ip (validate_ipv4_route lease ip) events)
  dial_routed-Dialed port ip events h = checked_route (validate_ipv4_route lease ip) refl
    where
      checked_route :
          (r : Result DialError (Unit {0}))
          → validate_ipv4_route lease ip ≡ r
          → Dialed (dial_routed net port ip r events)
      checked_route (err why) e = h
      checked_route (ok tt) e =
          connect-Dialed (dialed_ip ip port) events h (validate_ipv4_route-MayReach lease ip e)

  dial_rest-Dialed :
      (port : Text) (rest : List Ip) (why : DialError) (events : List Event)
      → (AllAllowed net lease) events
      → Dialed (dial_addresses net lease port (err why) rest events)
  unfolding dial_addresses
  dial_rest-Dialed port [] why events h = h
  dial_rest-Dialed port (ip ∷ rest) why events h =
      or_other-Dialed (dial_routed net port ip (validate_ipv4_route lease ip) events)
        (λ last. dial_addresses net lease port last rest) (dial_routed-Dialed port ip events h)
        (dial_rest-Dialed port rest)

  dial_addresses-Dialed :
      (port : Text) (addresses : List Ip) (events : List Event)
      → (AllAllowed net lease) events
      → is_empty addresses ≡ false
      → Dialed (dial_addresses net lease port (ok none) addresses events)
  unfolding dial_addresses
  dial_addresses-Dialed port [] events h e = absurd (cc)
  dial_addresses-Dialed port (ip ∷ rest) events h e =
      or_other-Dialed (dial_routed net port ip (validate_ipv4_route lease ip) events)
        (λ last. dial_addresses net lease port last rest) (dial_routed-Dialed port ip events h)
        (dial_rest-Dialed port rest)

  dial_name-Dialed :
      (host port : Text) (events : List Event)
      → (AllAllowed net lease) events
      → Dialed (dial_name net lease host port events)
  dial_name-Dialed host port events h =
      next-Triple (AllAllowed net lease) (AllAllowed net lease) (Found net lease) IsLast
        (lookup_ipv4 net lease host events) (dial_addresses net lease port (ok none))
        (lookup_ipv4-Found net lease host events h) (λ t i. i)
        (λ addresses t i found. dial_addresses-Dialed port addresses t i found)

  route_of_literal-MayReach :
      (literal : Option Ip)
      → route_of_literal net lease literal ≡ ok tt
      → (ip : Ip) → literal ≡ some ip
      → MayReach lease ip
  route_of_literal-MayReach none e ip f = absurd (cc)
  route_of_literal-MayReach (some i) e ip f =
      rw (← some-inj f) (validate_ipv4_route-MayReach lease i e)

  dial_split-Dialed :
      (network address : Text) (events : List Event)
      → (AllAllowed net lease) events
      → Dialed (dial_split net lease network address (net.split_host_port address) events)
  dial_split-Dialed network address events h = at (net.split_host_port address) refl
    where
      literal :
          (host port : Text) (ip : Option Ip) (r : Result DialError (Unit {0}))
          → net.split_host_port address ≡ some (host, port)
          → net.parse_ip (trim_brackets host) ≡ some ip
          → route_of_literal net lease ip ≡ r
          → Dialed (dial_literal net network address r events)
      literal host port ip (err why) split parsed e = h
      literal host port ip (ok tt) split parsed e =
          connect-Dialed (dialed network address) events h (λ tcp. record {
            host = host;
            port = port;
            literal = ip;
            split = split;
            parsed = parsed;
            routed = route_of_literal-MayReach ip e;
          })

      host_at :
          (host port : Text) (parsed : Option (Option Ip))
          → net.split_host_port address ≡ some (host, port)
          → net.parse_ip (trim_brackets host) ≡ parsed
          → Dialed (dial_host net lease network address host port parsed events)
      host_at host port none split e = dial_name-Dialed host port events h
      host_at host port (some ip) split e =
          literal host port ip (route_of_literal net lease ip) split e refl

      at :
          (target : Option (Text × Text))
          → net.split_host_port address ≡ target
          → Dialed (dial_split net lease network address target events)
      at none e = h
      at (some (host, port)) e = host_at host port (net.parse_ip (trim_brackets host)) e refl

  -- A link that has stopped asks and dials nothing. Of one that runs, every query goes to a DNS server
  -- that it may ask, and every dial of a name or of an IPv4 address to one that it may reach; a
  -- connection is the last dial.
  pub dial_context-IsAllowed :
      (stopped : Option (Option StopReason)) (network address : Text)
      → ((reason : Option StopReason)
          → stopped ≡ some reason
          → dial_context net lease stopped network address [] ≡ ([], err (link_closed reason)))
        × Triple (AllAllowed net lease) IsLast (dial_context net lease stopped network address [])
  unfolding dial_context
  dial_context-IsAllowed (some reason) network address =
      ((λ r e. ap (λ k. ([], err (link_closed k))) (some-inj e)), tt)
  dial_context-IsAllowed none network address =
      ((λ r e. absurd (cc)), by_network (is_tcp network) refl)
    where
      by_network :
          (tcp : Bool)
          → is_tcp network ≡ tcp
          → Dialed (
              (if tcp
                  then dial_split net lease network address (net.split_host_port address)
                  else connect net (dialed network address))
                [])
      by_network true e = dial_split-Dialed network address [] tt
      by_network false e = connect-Dialed (dialed network address) [] tt (λ tcp. absurd (cc))
