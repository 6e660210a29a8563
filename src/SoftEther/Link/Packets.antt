-- ===== src/SoftEther/Link/Packets.antt =====
-- A packet from one link to another.
use lab_remote_go.Common.{
  ◌+◌, ◌<◌, ◌≤◌, ◌≡◌, refl, true, false, [], ◌∷◌, ◌++◌, none, some, length, arith, Bytes,
  bytes_eq_refl, length-append, append_assoc,
}
use lab_remote_go.Common.Results.{ok}
use lab_remote_go.SoftEther.Session.{Session, channel_size, max_ethernet_frame, bad_length}
use lab_remote_go.SoftEther.Link.{
  Mac, Ip, Link, mac_bytes, ip_bytes, mac_eq, broadcast, build_arp_request, handle_inbound,
  next_hop, ethernet, send_ipv4,
}
use lab_remote_go.SoftEther.Link.Arp.{send-running}

mac_eq_refl : (m : Mac) → mac_eq m m ≡ true
mac_eq_refl m = bytes_eq_refl (mac_bytes m)

ethernet-length :
    (to from : Mac) (packet : Bytes)
    → 20 ≤ length packet
    → length packet + 14 ≤ max_ethernet_frame
    → bad_length (length (ethernet to from packet)) ≡ false
ethernet-length to from packet lo hi = ground arith

request-length :
    (mac : Mac) (source target : Ip)
    → bad_length (length (build_arp_request mac source target)) ≡ false
unfolding build_arp_request
request-length mac source target = refl

-- A frame for this link, or for all, is handed on without its header.
handle_inbound-ethernet :
    (from : Mac) (packet : Bytes) (l : Link)
    → 20 ≤ length packet
    → ((handle_inbound false (ethernet l.mac from packet) l).0.handed ≡ l.handed ++ (packet ∷ []))
      × ((handle_inbound false (ethernet broadcast from packet) l).0.handed
          ≡ l.handed ++ (packet ∷ []))
unfolding handle_inbound
handle_inbound-ethernet from packet l lo =
    (ground (arith, mac_eq_refl l.mac), ground (arith, mac_eq_refl broadcast))

-- A packet that a running link with room sends to a next hop: if the hop's address is known, the frame
-- for it is put on the session: to the hop's address, from the link's, type IPv4. If it is not known, an
-- ARP request for the hop and then the same frame, but to all, are put there. In both cases the link at
-- the hop, when it receives the frame, hands on exactly this packet.
pub send_ipv4-delivers :
    (sender receiver : Link) (packet : Bytes) (hop : Ip)
    → 20 ≤ length packet
    → length packet + 14 ≤ max_ethernet_frame
    → sender.session.stopped ≡ none
    → length sender.session.outbound + 1 < channel_size
    → next_hop sender packet ≡ some hop
    → let everyone : Bytes = 255 ∷ 255 ∷ 255 ∷ 255 ∷ 255 ∷ 255 ∷ [] in
      let own : Bytes = mac_bytes sender.mac in
      let to_hop : Bytes = mac_bytes receiver.mac ++ (own ++ (8 ∷ 0 ∷ packet)) in
      let to_all : Bytes = everyone ++ (own ++ (8 ∷ 0 ∷ packet)) in
      let request : Bytes =
        everyone
        ++ (own
            ++ (8
                ∷ 6
                ∷ 0
                ∷ 1
                ∷ 8
                ∷ 0
                ∷ 6
                ∷ 4
                ∷ 0
                ∷ 1
                ∷ (own ++ (ip_bytes sender.address ++ (0 ∷ 0 ∷ 0 ∷ 0 ∷ 0 ∷ 0 ∷ ip_bytes hop))))) in
      let (sender', outcome) = send_ipv4 false packet sender in
      (sender.arp_table hop ≡ some receiver.mac
        → (outcome ≡ ok tt)
          × (sender'.session.outbound ≡ sender.session.outbound ++ (to_hop ∷ []))
          × ((handle_inbound false to_hop receiver).0.handed ≡ receiver.handed ++ (packet ∷ [])))
      × (sender.arp_table hop ≡ none
          → (outcome ≡ ok tt)
            × (sender'.session.outbound ≡ sender.session.outbound ++ (request ∷ to_all ∷ []))
            × ((handle_inbound false to_all receiver).0.handed ≡ receiver.handed ++ (packet ∷ [])))
unfolding send_ipv4 build_arp_request
send_ipv4-delivers sender receiver packet hop lo hi running room route = (
  (λ known.
      let f = ethernet receiver.mac sender.mac packet in
      let sent =
        send-running sender.session f (ethernet-length receiver.mac sender.mac packet lo hi) running
          (omega arith) in
      rw (route, known, sent)
        (refl, refl, (handle_inbound-ethernet sender.mac packet receiver lo).0)),
  (λ unknown.
      let request = build_arp_request sender.mac sender.address hop in
      let f = ethernet broadcast sender.mac packet in
      let s : Session = record sender.session {
        outbound = sender.session.outbound ++ (request ∷ []);
      } in
      let asked =
        send-running sender.session request (request-length sender.mac sender.address hop) running
          (omega arith) in
      let sent =
        send-running s f (ethernet-length broadcast sender.mac packet lo hi) running
          (ground (arith, length-append sender.session.outbound (request ∷ []))) in
      rw (route, unknown, asked, sent)
        (
          refl,
          append_assoc sender.session.outbound (request ∷ []) (f ∷ []),
          (handle_inbound-ethernet sender.mac packet receiver lo).1,
        )),
)
