-- ===== src/SoftEther/Dhcp/Exchange.antt =====
-- internal/softether/link.go, `acquireDHCP` and `waitDHCP`: what a lease rests on.
use mathlib.Core.Path.{subst}
use lab_remote_go.Common.{
  ℕ_discrete, ℕ, ◌≡◌, refl, sym, ap, ◌∙◌, inl, inr, ◌⊎◌, List, [], ◌∷◌, ◌++◌, Option, none, some,
  Bytes, arith,
}
use lab_remote_go.Common.Results.{Result, err, ok, ok-inj}
use lab_remote_go.SoftEther.Session.{Session, SendError, send}
use lab_remote_go.SoftEther.Link.{Mac, Ip}
use lab_remote_go.SoftEther.Dhcp.{DhcpMessage, Lease, build_dhcp_frame, parse_dhcp_frame}
use lab_remote_go.SoftEther.Dhcp.Requests.{Asks, request_fields, build_dhcp_frame-Asks}
use lab_remote_go.SoftEther.Dhcp.Leasing.{
  Course, Arrival, received, session_ended, context_ended, Waited, awaited, taken, wait_dhcp,
  lease_of, acknowledged, requested, offered, discovered, begin, acquire_dhcp,
}

-- The first frame that answers the transaction with this type of message is among the arrivals.
pub record Found (transaction message_type : ℕ) (arrivals : List Arrival) (m : DhcpMessage)
    (rest : List Arrival) : Type 0 where
  pub frame : Bytes
  pub passed : List Arrival
  pub arrived : arrivals ≡ passed ++ (received frame ∷ rest)
  pub parsed : parse_dhcp_frame transaction frame ≡ some m
  pub typed : m.message_type ≡ message_type

awaited_lem :
    (message_type : ℕ) (message : Option DhcpMessage)
    → (awaited message_type message ≡ none)
      ⊎ ((m : DhcpMessage) × (message ≡ some m)
          × (awaited message_type message ≡ some m)
          × (m.message_type ≡ message_type))
awaited_lem message_type none = inl refl
awaited_lem message_type (some m) = elim (ℕ_discrete m.message_type message_type) [
  | yes e ↦ inr (m, refl, ground arith, e)
  | no different ↦ inl (ground arith)
]

module _ (transaction message_type : ℕ) where
  wait_dhcp-Found :
      (arrivals : List Arrival) {m : DhcpMessage} {rest : List Arrival}
      → wait_dhcp transaction message_type arrivals ≡ ok (m, rest)
      → Found transaction message_type arrivals m rest
  unfolding wait_dhcp
  wait_dhcp-Found [] e = absurd (cc)
  wait_dhcp-Found (session_ended reason ∷ rest) e = absurd (cc)
  wait_dhcp-Found (context_ended ∷ rest) e = absurd (cc)
  wait_dhcp-Found (received frame ∷ later) {m} {rest} e =
      elim (awaited_lem message_type (parse_dhcp_frame transaction frame)) [
        | inl skipped ↦
            let f = wait_dhcp-Found later (
              subst (λ k. taken k later (wait_dhcp transaction message_type later) ≡ ok (m, rest))
                skipped e) in
            record {
              frame = f.frame;
              passed = received frame ∷ f.passed;
              arrived = ap (λ k. received frame ∷ k) f.arrived;
              parsed = f.parsed;
              typed = f.typed;
            }
        | inr (m', parsed, found, typed) ↦
            let same : (m', later) ≡ (m, rest) = ok-inj (
              subst (λ k. taken k later (wait_dhcp transaction message_type later) ≡ ok (m, rest))
                found e) in
            subst (λ k. Found transaction message_type (received frame ∷ later) k.0 k.1) same
              (record {
                frame = frame;
                passed = [];
                arrived = refl;
                parsed = parsed;
                typed = typed;
              })
      ]

-- The lease says what the acknowledgement said, its mask included.
pub record IsLeased (ack : DhcpMessage) (lease : Lease) : Type 0 where
  pub address : lease.address ≡ ack.address
  pub mask : ack.mask ≡ some lease.mask
  pub gateway : lease.gateway ≡ ack.gateway
  pub dns : lease.dns ≡ ack.dns
  pub lease_time : lease.lease_time ≡ ack.lease_time

lease_of-IsLeased :
    (ack : DhcpMessage) {lease : Lease} → lease_of ack ack.mask ≡ ok lease → IsLeased ack lease
lease_of-IsLeased ack {lease} e = masked ack.mask refl e
  where
    masked :
        (mask : Option Ip) → ack.mask ≡ mask → lease_of ack mask ≡ ok lease → IsLeased ack lease
    masked none m e = absurd (cc)
    masked (some mask) m e =
        let same = ok-inj e in
        record {
          address = sym (ap (λ l. l.address) same);
          mask = m ∙ ap (λ l. some l.mask) same;
          gateway = sym (ap (λ l. l.gateway) same);
          dns = sym (ap (λ l. l.dns) same);
          lease_time = sym (ap (λ l. l.lease_time) same);
        }

-- What a lease comes from: the answers to a discovery and to the request for the offered address.
pub record Granted (course : Course) (mac : Mac) (arrivals : List Arrival) (s s' : Session)
    (lease : Lease) : Type 0 where
  pub transaction : ℕ
  pub drawn : course.random ≡ some transaction
  pub offer : DhcpMessage
  pub ack : DhcpMessage
  pub between : List Arrival
  pub rest : List Arrival
  pub offer_found : Found transaction 2 arrivals offer between
  pub ack_found : Found transaction 5 between ack rest
  pub discovering : Session
  pub discovery : Bytes
  pub discovers : Asks discovery mac transaction (request_fields mac 1 none none)
  pub discovered : send course.prefers_done discovery s ≡ (discovering, ok tt)
  pub request : Bytes
  pub requests :
      Asks request mac transaction (request_fields mac 3 (some offer.address) offer.server_id)
  pub requested : send course.prefers_done request (course.meanwhile discovering) ≡ (s', ok tt)
  pub leased : IsLeased ack lease

module _ (course : Course) (mac : Mac) (transaction : ℕ) {s' : Session} {lease : Lease} where
  acknowledged-ok :
      (s : Session) (waited : Waited)
      → acknowledged s waited ≡ (s', ok lease)
      → (ack : DhcpMessage) × (rest : List Arrival) × (waited ≡ ok (ack, rest))
        × (s ≡ s')
        × (lease_of ack ack.mask ≡ ok lease)
  acknowledged-ok s (err why) e = absurd (cc)
  acknowledged-ok s (ok (ack, rest)) e = (ack, rest, refl, ap (λ k. k.0) e, ap (λ k. k.1) e)

  requested-ok :
      (arrivals : List Arrival) (sent : Session × Result SendError (Unit {0}))
      → requested transaction arrivals sent ≡ (s', ok lease)
      → (s : Session) × (sent ≡ (s, ok tt))
        × (acknowledged s (wait_dhcp transaction 5 arrivals) ≡ (s', ok lease))
  requested-ok arrivals (s, err why) e = absurd (cc)
  requested-ok arrivals (s, ok tt) e = (s, refl, e)

  offered-ok :
      (s : Session) (waited : Waited)
      → offered course mac transaction s waited ≡ (s', ok lease)
      → (offer : DhcpMessage) × (rest : List Arrival) × (waited ≡ ok (offer, rest))
        × (requested transaction rest (
              send course.prefers_done
                (build_dhcp_frame mac transaction 3 (some offer.address) offer.server_id)
                (course.meanwhile s))
            ≡ (s', ok lease))
  offered-ok s (err why) e = absurd (cc)
  offered-ok s (ok (offer, rest)) e = (offer, rest, refl, e)

  discovered-ok :
      (arrivals : List Arrival) (sent : Session × Result SendError (Unit {0}))
      → discovered course mac transaction arrivals sent ≡ (s', ok lease)
      → (s : Session) × (sent ≡ (s, ok tt))
        × (offered course mac transaction s (wait_dhcp transaction 2 arrivals) ≡ (s', ok lease))
  discovered-ok arrivals (s, err why) e = absurd (cc)
  discovered-ok arrivals (s, ok tt) e = (s, refl, e)

module _ (course : Course) (mac : Mac) (arrivals : List Arrival) (s : Session) where
  -- A lease is granted only after the answers to both messages, which were sent in this order.
  pub acquire_dhcp-Granted :
      {s' : Session} {lease : Lease}
      → acquire_dhcp course mac arrivals s ≡ (s', ok lease)
      → Granted course mac arrivals s s' lease
  unfolding acquire_dhcp
  acquire_dhcp-Granted {s'} {lease} e = begun course.random refl e
    where
      begun :
          (random : Option ℕ)
          → course.random ≡ random
          → begin course mac arrivals s random ≡ (s', ok lease)
          → Granted course mac arrivals s s' lease
      begun none drawn e = absurd (cc)
      begun (some transaction) drawn e =
          let (s1, first, e1) = discovered-ok course mac transaction arrivals discovery e in
          let (offer, between, found, e2) =
            offered-ok course mac transaction s1 (wait_dhcp transaction 2 arrivals) e1 in
          let (s2, second, e3) =
            requested-ok course mac transaction between (request s1 offer) e2 in
          let (ack, rest, found', same, leased) =
            acknowledged-ok course mac transaction s2 (wait_dhcp transaction 5 between) e3 in
          record {
            transaction = transaction;
            drawn = drawn;
            offer = offer;
            ack = ack;
            between = between;
            rest = rest;
            offer_found = wait_dhcp-Found transaction 2 arrivals found;
            ack_found = wait_dhcp-Found transaction 5 between found';
            discovering = s1;
            discovery = build_dhcp_frame mac transaction 1 none none;
            discovers = build_dhcp_frame-Asks mac transaction 1 none none;
            discovered = first;
            request = build_dhcp_frame mac transaction 3 (some offer.address) offer.server_id;
            requests = build_dhcp_frame-Asks mac transaction 3 (some offer.address) offer.server_id;
            requested = second ∙ ap (λ k. (k, ok tt)) same;
            leased = lease_of-IsLeased ack leased;
          }
        where
          discovery : Session × Result SendError (Unit {0})
          discovery = send course.prefers_done (build_dhcp_frame mac transaction 1 none none) s

          request : Session → DhcpMessage → Session × Result SendError (Unit {0})
          request s1 offer =
              send course.prefers_done
                (build_dhcp_frame mac transaction 3 (some offer.address) offer.server_id)
                (course.meanwhile s1)
