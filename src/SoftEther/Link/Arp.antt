-- ===== src/SoftEther/Link/Arp.antt =====
-- One link resolves the address of another.
use lab_remote_go.Common.{
  ◌<◌, ◌≡◌, refl, true, false, [], ◌∷◌, ◌++◌, none, some, length, arith, Bytes, bytes_eq_refl,
}
use lab_remote_go.Common.Results.{ok}
use lab_remote_go.SoftEther.Session.{Session, send, channel_size, bad_length}
use lab_remote_go.SoftEther.Link.{
  Ip, Link, ip_bytes, ip_eq, zero_ip, arp_frame, build_arp_request, handle_arp, handle_inbound,
  learn, answer,
}

ip_eq_refl : (i : Ip) → ip_eq i i ≡ true
ip_eq_refl i = bytes_eq_refl (ip_bytes i)

-- A frame of a permitted length is put on a running session with room.
pub send-running :
    (s : Session) (f : Bytes)
    → bad_length (length f) ≡ false
    → s.stopped ≡ none
    → length s.outbound < channel_size
    → send false f s ≡ (record s { outbound = s.outbound ++ (f ∷ []) }, ok tt)
unfolding send
send-running s f n running room = ground arith

-- A running link with room on its session that receives the other's request for its address learns the
-- other's address and answers; the other, when it receives that answer, has learned this link's address.
-- Neither address is 0.0.0.0.
pub handle_inbound-resolves :
    (asker answerer : Link)
    → answerer.session.stopped ≡ none
    → length answerer.session.outbound < channel_size
    → ip_eq asker.address zero_ip ≡ false
    → ip_eq answerer.address zero_ip ≡ false
    → let request = build_arp_request asker.mac asker.address answerer.address in
      let (answerer', outcome) = handle_inbound false request answerer in
      let reply =
        arp_frame asker.mac answerer.mac 2 answerer.mac answerer.address asker.mac asker.address in
      (outcome ≡ ok tt)
      × (answerer'.arp_table asker.address ≡ some asker.mac)
      × (answerer'.session.outbound ≡ answerer.session.outbound ++ (reply ∷ []))
      × ((handle_inbound false reply asker).0.arp_table answerer.address ≡ some answerer.mac)
unfolding handle_inbound handle_arp build_arp_request
handle_inbound-resolves asker answerer running room ne₁ ne₂ =
    let request = build_arp_request asker.mac asker.address answerer.address in
    let reply =
      arp_frame asker.mac answerer.mac 2 answerer.mac answerer.address asker.mac asker.address in
    let sent = send-running answerer.session reply refl running room in
    let mine = ip_eq_refl answerer.address in
    let theirs = ip_eq_refl asker.address in
    (
      rw (answer, learn, ne₁, mine, sent) refl,
      rw (answer, learn, ne₁, mine, sent, theirs) refl,
      rw (answer, learn, ne₁, mine, sent) refl,
      rw (learn, ne₂, mine) refl,
    )
