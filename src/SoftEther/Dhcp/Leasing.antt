-- ===== src/SoftEther/Dhcp/Leasing.antt =====
-- internal/softether/link.go, `acquireDHCP` and `waitDHCP`: how a link gets its address before it runs.
-- What the server and the session do meanwhile is a list of arrivals; the timer is all that is left when
-- it ends.
use lab_remote_go.Common.{
  ℕ, Bool, false, List, [], ◌∷◌, Option, none, some, if◌then◌else◌, ◌==◌, Bytes,
}
use lab_remote_go.Common.Results.{Result, err, ok}
use lab_remote_go.SoftEther.Session.{Session, SendError, StopReason, send}
use lab_remote_go.SoftEther.Link.{Mac, Ip}
use lab_remote_go.SoftEther.Dhcp.{DhcpMessage, Lease, build_dhcp_frame, parse_dhcp_frame}

pub data Arrival : Type 0 where
  received : Bytes → Arrival
  session_ended : StopReason → Arrival
  context_ended : Arrival

pub data DhcpError : Type 0 where
  no_random no_mask deadline_exceeded context_error : DhcpError
  not_sent : SendError → DhcpError
  ended : StopReason → DhcpError

abbrev pub Waited : Type 0
Waited = Result DhcpError (DhcpMessage × List Arrival)

abbrev pub is_awaited : ℕ → Option DhcpMessage → Bool
is_awaited message_type none = false
is_awaited message_type (some m) = m.message_type == message_type

abbrev pub taken : Option DhcpMessage → List Arrival → Waited → Waited
taken none rest later = later
taken (some m) rest later = ok (m, rest)

abbrev pub awaited : ℕ → Option DhcpMessage → Option DhcpMessage
awaited message_type message = if is_awaited message_type message then message else none

unfoldable pub wait_dhcp : ℕ → ℕ → List Arrival → Waited
wait_dhcp transaction message_type [] = err deadline_exceeded
wait_dhcp transaction message_type (session_ended reason ∷ rest) = err (ended reason)
wait_dhcp transaction message_type (context_ended ∷ rest) = err context_error
wait_dhcp transaction message_type (received frame ∷ rest) =
    taken (awaited message_type (parse_dhcp_frame transaction frame)) rest
      (wait_dhcp transaction message_type rest)

-- What a lease is made of: the random source, the choice of `Send` when both its cases are ready,
-- and what the session's own loops do until the offer is there.
pub record Course : Type 0 where
  pub random : Option ℕ
  pub prefers_done : Bool
  pub meanwhile : Session → Session

abbrev pub Leasing : Type 0
Leasing = Session × Result DhcpError Lease

abbrev pub lease_of : DhcpMessage → Option Ip → Result DhcpError Lease
lease_of ack none = err no_mask
lease_of ack (some mask) = ok (record {
  address = ack.address;
  mask = mask;
  gateway = ack.gateway;
  dns = ack.dns;
  lease_time = ack.lease_time;
})

abbrev pub acknowledged : Session → Waited → Leasing
acknowledged s (err e) = (s, err e)
acknowledged s (ok (ack, rest)) = (s, lease_of ack ack.mask)

abbrev pub requested : ℕ → List Arrival → Session × Result SendError (Unit {0}) → Leasing
requested transaction rest (s, err e) = (s, err (not_sent e))
requested transaction rest (s, ok u) = acknowledged s (wait_dhcp transaction 5 rest)

abbrev pub offered : Course → Mac → ℕ → Session → Waited → Leasing
offered course mac transaction s (err e) = (s, err e)
offered course mac transaction s (ok (offer, rest)) =
    let request = build_dhcp_frame mac transaction 3 (some offer.address) offer.server_id in
    requested transaction rest (send course.prefers_done request (course.meanwhile s))

abbrev pub discovered :
    Course → Mac → ℕ → List Arrival → Session × Result SendError (Unit {0}) → Leasing
discovered course mac transaction arrivals (s, err e) = (s, err (not_sent e))
discovered course mac transaction arrivals (s, ok u) =
    offered course mac transaction s (wait_dhcp transaction 2 arrivals)

abbrev pub begin : Course → Mac → List Arrival → Session → Option ℕ → Leasing
begin course mac arrivals s none = (s, err no_random)
begin course mac arrivals s (some transaction) =
    let discover = build_dhcp_frame mac transaction 1 none none in
    discovered course mac transaction arrivals (send course.prefers_done discover s)

unfoldable pub acquire_dhcp : Course → Mac → List Arrival → Session → Leasing
acquire_dhcp course mac arrivals s = begin course mac arrivals s course.random
