-- ===== src/SoftEther/Dialing/Lookups.antt =====
-- Whom a link may ask and dial, and that a lookup asks only those.
use lab_remote_go.Common.{
  ap, ◌||◌, ◌⊎◌, inl, inr, some-inj, bytes_eq_sound, ◌≡◌, refl, Bool, true, false, not, List, [],
  ◌∷◌, ◌++◌, Option, none, some, if◌then◌else◌, bytes_eq_refl, arith,
}
use lab_remote_go.Common.Results.{Result, err, ok, ok-inj}
use lab_remote_go.Common.Texts.{Text, is_empty}
use lab_remote_go.Common.Actions.{Triple}
use lab_remote_go.Model.Profiles.{trim_brackets}
use lab_remote_go.SoftEther.Link.{Ip, ip_eq, ip_bytes, ip_at, zero_ip, same_subnet}
use lab_remote_go.SoftEther.Dhcp.{Lease}
use lab_remote_go.SoftEther.Dialing.{
  no_route, is_none, Event, queried, dialed_ip, dialed, Network, DialError, no_dns, own_server,
  public_servers, is_specified, tunnel_dns_servers, query_host, has_seen, distinct, checked,
  resolved, validate_ipv4_route, is_tcp, lookup_at, or_next, lookup_servers, lookup_each,
  lookup_ipv4,
}

ip_eq_refl : (ip : Ip) → ip_eq ip ip ≡ true
ip_eq_refl ip = bytes_eq_refl (ip_bytes ip)

ip_eq_sound : (i j : Ip) → ip_eq i j ≡ true → i ≡ j
ip_eq_sound i j e = ap (ip_at 0) (bytes_eq_sound (ip_bytes i) (ip_bytes j) e)

-- The address is in the subnet of the lease, or there is a gateway.
abbrev pub MayReach : Lease → Ip → Type 0
MayReach lease ip =
    (same_subnet lease.address ip lease.mask ≡ true) ⊎ ((g : Ip) × (lease.gateway ≡ some g))

-- The server is the one of the lease, or one of the two public ones if the lease has none but a gateway.
abbrev pub MayAsk : Lease → Ip → Type 0
MayAsk lease server =
    ((lease.dns ≡ some server) × (ip_eq server zero_ip ≡ false))
    ⊎ (((ip : Ip) → lease.dns ≡ some ip → ip_eq ip zero_ip ≡ true)
        × ((g : Ip) × (lease.gateway ≡ some g) × (ip_eq g zero_ip ≡ false))
        × ((server ≡ record { a = 223; b = 5; c = 5; d = 5 })
            ⊎ (server ≡ record { a = 1; b = 1; c = 1; d = 1 })))

-- `validateIPv4Route` passes only what can be reached.
pub validate_ipv4_route-MayReach :
    (lease : Lease) (ip : Ip) → validate_ipv4_route lease ip ≡ ok tt → MayReach lease ip
unfolding validate_ipv4_route
validate_ipv4_route-MayReach lease ip e =
    by_subnet (same_subnet lease.address ip lease.mask) refl lease.gateway refl e
  where
    by_subnet :
        (near : Bool)
        → same_subnet lease.address ip lease.mask ≡ near
        → (gateway : Option Ip) → lease.gateway ≡ gateway
        → ◌≡◌ {A = Result DialError (Unit {0})}
            (if near then ok tt else if is_none gateway then err no_route else ok tt)
            (ok tt)
        → MayReach lease ip
    by_subnet true near gateway there e = inl near
    by_subnet false near none there e = absurd (cc)
    by_subnet false near (some g) there e = inr (g, there)

module _ (net : Network) (lease : Lease) where
  -- A TCP address that the network gets as a text is written as numbers, and can be reached if it is
  -- an IPv4 address.
  pub record IsLiteral (address : Text) : Type 0 where
    pub host : Text
    pub port : Text
    pub literal : Option Ip
    pub split : net.split_host_port address ≡ some (host, port)
    pub parsed : net.parse_ip (trim_brackets host) ≡ some literal
    pub routed : (ip : Ip) → literal ≡ some ip → MayReach lease ip

  abbrev pub IsAllowed : Event → Type 0
  IsAllowed (queried server host) = MayAsk lease server
  IsAllowed (dialed_ip ip port) = MayReach lease ip
  IsAllowed (dialed network address) = is_tcp network ≡ true → IsLiteral address

  abbrev pub AllAllowed : List Event → Type 0
  AllAllowed [] = Unit {0}
  AllAllowed (event ∷ events) = IsAllowed event × AllAllowed events

  pub AllAllowed-snoc :
      (events : List Event) (event : Event)
      → AllAllowed events
      → IsAllowed event
      → AllAllowed (events ++ (event ∷ []))
  AllAllowed-snoc [] event h a = (a, tt)
  AllAllowed-snoc (e ∷ events) event h a = (h.0, AllAllowed-snoc events event h.1 a)

  abbrev pub Found : List Ip → List Event → Type 0
  Found addresses events = is_empty addresses ≡ false

  resolved-Found :
      (answer : Option (List (Option Ip))) (events : List Event)
      → AllAllowed events
      → Triple AllAllowed Found (resolved answer events)
  resolved-Found none events h = h
  resolved-Found (some values) events h = kept (distinct [] values)
    where
      kept : (ips : List Ip) → Triple AllAllowed Found (checked ips events)
      kept [] = h
      kept (ip ∷ ips) = (h, refl)

  or_next-Found :
      (r : List Event × Result DialError (List Ip))
      (later : Result DialError (List Ip) → List Event → List Event × Result DialError (List Ip))
      → Triple AllAllowed Found r
      → ((why : DialError) (events : List Event)
          → AllAllowed events
          → Triple AllAllowed Found (later (err why) events))
      → Triple AllAllowed Found (or_next net r later)
  or_next-Found (events, ok addresses) later t k = t
  or_next-Found (events, err why) later t k = k why events t

  servers_of : Option Ip → Bool → Bool → Result DialError (List Ip)
  servers_of dns specified routed =
      if specified
      then ok (own_server dns)
      else if not routed
      then err no_dns
      else ok public_servers

  servers_there :
      (servers : List Ip) → tunnel_dns_servers lease ≡ ok servers → is_empty servers ≡ false
  unfolding tunnel_dns_servers servers_of
  servers_there servers e =
      chosen lease.dns (is_specified lease.dns) (is_specified lease.gateway) refl e
    where
      full :
          {ips : List Ip}
          → is_empty ips ≡ false
          → ◌≡◌ {A = Result DialError (List Ip)} (ok ips) (ok servers)
          → is_empty servers ≡ false
      full f e = rw (← ok-inj e) f

      chosen :
          (dns : Option Ip) (specified routed : Bool)
          → is_specified dns ≡ specified
          → servers_of dns specified routed ≡ ok servers
          → is_empty servers ≡ false
      chosen none true routed s e = absurd (cc)
      chosen (some ip) true routed s e = full refl e
      chosen dns false true s e = full refl e
      chosen dns false false s e = absurd (cc)

  is_specified-some :
      (address : Option Ip)
      → is_specified address ≡ true
      → (ip : Ip) × (address ≡ some ip) × (ip_eq ip zero_ip ≡ false)
  is_specified-some none e = absurd (cc)
  is_specified-some (some ip) e = (ip, refl, ground arith)

  unspecified :
      (address : Option Ip)
      → is_specified address ≡ false
      → (ip : Ip) → address ≡ some ip
      → ip_eq ip zero_ip ≡ true
  unspecified none e ip f = absurd (cc)
  unspecified (some i) e ip f = rw (← some-inj f) (ground arith)

  server-MayAsk :
      (servers : List Ip) (server : Ip)
      → tunnel_dns_servers lease ≡ ok servers
      → has_seen server servers ≡ true
      → MayAsk lease server
  unfolding tunnel_dns_servers servers_of
  server-MayAsk servers server e there =
      chosen (is_specified lease.dns) (is_specified lease.gateway) refl refl e
    where
      seen :
          {ips : List Ip}
          → ◌≡◌ {A = Result DialError (List Ip)} (ok ips) (ok servers)
          → has_seen server ips ≡ true
      seen e = rw (ok-inj e) there

      own :
          (dns : Option Ip)
          → lease.dns ≡ dns
          → is_specified dns ≡ true
          → has_seen server (own_server dns) ≡ true
          → MayAsk lease server
      own none d s h = absurd (cc)
      own (some ip) d s h =
          let same : server ≡ ip = ip_eq_sound server ip (ground arith) in
          inl (rw same d, rw same (ground arith))

      public :
          has_seen server public_servers ≡ true
          → (server ≡ record { a = 223; b = 5; c = 5; d = 5 })
            ⊎ (server ≡ record { a = 1; b = 1; c = 1; d = 1 })
      public h = first (ip_eq server (record { a = 223; b = 5; c = 5; d = 5 })) refl h
        where
          first :
              (b : Bool)
              → ip_eq server (record { a = 223; b = 5; c = 5; d = 5 }) ≡ b
              → (b || (ip_eq server (record { a = 1; b = 1; c = 1; d = 1 }) || false)) ≡ true
              → (server ≡ record { a = 223; b = 5; c = 5; d = 5 })
                ⊎ (server ≡ record { a = 1; b = 1; c = 1; d = 1 })
          first true e h = inl (ip_eq_sound server (record { a = 223; b = 5; c = 5; d = 5 }) e)
          first false e h =
              inr (ip_eq_sound server (record { a = 1; b = 1; c = 1; d = 1 }) (ground arith))

      chosen :
          (specified routed : Bool)
          → is_specified lease.dns ≡ specified
          → is_specified lease.gateway ≡ routed
          → servers_of lease.dns specified routed ≡ ok servers
          → MayAsk lease server
      chosen true routed s r e = own lease.dns refl s (seen e)
      chosen false true s r e =
          inr (unspecified lease.dns s, is_specified-some lease.gateway r, public (seen e))
      chosen false false s r e = absurd (cc)

  module _ (servers : List Ip) (chosen : tunnel_dns_servers lease ≡ ok servers) (host : Text) where
    lookup_at-Found :
        (server : Ip) (events : List Event)
        → AllAllowed events
        → has_seen server servers ≡ true
        → Triple AllAllowed Found (lookup_at net host server events)
    unfolding lookup_at
    lookup_at-Found server events h there =
        resolved-Found (net.look_up events server (query_host host))
          (events ++ (queried server (query_host host) ∷ []))
          (AllAllowed-snoc events (queried server (query_host host)) h
            (server-MayAsk servers server chosen there))

    abbrev AllIn : List Ip → Type 0
    AllIn rest = (s : Ip) → has_seen s rest ≡ true → has_seen s servers ≡ true

    lookup_rest-Found :
        (rest : List Ip) (why : DialError) (events : List Event)
        → AllAllowed events
        → AllIn rest
        → Triple AllAllowed Found (lookup_servers net host (err why) rest events)
    unfolding lookup_servers
    lookup_rest-Found [] why events h all = h
    lookup_rest-Found (server ∷ rest) why events h all =
        or_next-Found (lookup_at net host server events) (λ last. lookup_servers net host last rest)
          (lookup_at-Found server events h (all server (rw (ip_eq_refl server) refl)))
          (λ why' events' h'.
            lookup_rest-Found rest why' events' h' (λ s there. all s (ground arith)))

    lookup_servers-Found :
        (server : Ip) (rest : List Ip) (events : List Event)
        → AllAllowed events
        → AllIn (server ∷ rest)
        → Triple AllAllowed Found (lookup_servers net host (ok []) (server ∷ rest) events)
    unfolding lookup_servers
    lookup_servers-Found server rest events h all =
        or_next-Found (lookup_at net host server events) (λ last. lookup_servers net host last rest)
          (lookup_at-Found server events h (all server (rw (ip_eq_refl server) refl)))
          (λ why events' h'.
            lookup_rest-Found rest why events' h' (λ s there. all s (ground arith)))

  pub lookup_ipv4-Found :
      (host : Text) (events : List Event)
      → AllAllowed events
      → Triple AllAllowed Found (lookup_ipv4 net lease host events)
  unfolding lookup_ipv4
  lookup_ipv4-Found host events h = each (tunnel_dns_servers lease) refl
    where
      each :
          (r : Result DialError (List Ip))
          → tunnel_dns_servers lease ≡ r
          → Triple AllAllowed Found (lookup_each net host r events)
      each (err why) e = h
      each (ok []) e = absurd (let there : true ≡ false = servers_there [] e in cc)
      each (ok (server ∷ rest)) e =
          lookup_servers-Found (server ∷ rest) e host server rest events h (λ s there. there)
