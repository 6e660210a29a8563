-- ===== src/SoftEther/Link/Tests.antt =====
-- Witnesses for the link: two links on one network.
use lab_remote_go.Common.{
  false, ◌≡◌, refl, [], ◌∷◌, ◌++◌, none, some, Bytes, bytes_eq, arith, replicate,
}
use lab_remote_go.Common.Results.{ok}
use lab_remote_go.SoftEther.Session.{new_session}
use lab_remote_go.SoftEther.Link.{
  Link, arp_frame, build_arp_request, handle_inbound, next_hop, send_ipv4,
}
use lab_remote_go.SoftEther.Link.Arp.{handle_inbound-resolves}
use lab_remote_go.SoftEther.Link.Packets.{send_ipv4-delivers}

abbrev here : Link
here = record {
  session = new_session;
  mac = record { m0 = 94; m1 = 1; m2 = 1; m3 = 1; m4 = 1; m5 = 1 };
  address = record { a = 10; b = 0; c = 0; d = 1 };
  mask = record { a = 255; b = 255; c = 255; d = 0 };
  gateway = none;
  arp_table = λ i. none;
  handed = [];
}

abbrev there : Link
there = record here {
  mac = record { m0 = 94; m1 = 2; m2 = 2; m3 = 2; m4 = 2; m5 = 2 };
  address = record { a = 10; b = 0; c = 0; d = 2 };
}

handle_inbound-resolves_example :
    let request = build_arp_request here.mac here.address there.address in
    let (there', outcome) = handle_inbound false request there in
    let reply = arp_frame here.mac there.mac 2 there.mac there.address here.mac here.address in
    (outcome ≡ ok tt)
    × (there'.arp_table here.address ≡ some here.mac)
    × (there'.session.outbound ≡ there.session.outbound ++ (reply ∷ []))
    × ((handle_inbound false reply here).0.arp_table there.address ≡ some there.mac)
unfolding bytes_eq
handle_inbound-resolves_example = handle_inbound-resolves here there refl (omega arith) refl refl

-- to 10.0.0.2
abbrev packet : Bytes
packet = replicate 16 1 ++ (10 ∷ 0 ∷ 0 ∷ 2 ∷ [])

-- from 5e:01:01:01:01:01, for all
abbrev header : Bytes
header = 255 ∷ 255 ∷ 255 ∷ 255 ∷ 255 ∷ 255 ∷ 94 ∷ 1 ∷ 1 ∷ 1 ∷ 1 ∷ 1 ∷ []

abbrev request_frame : Bytes
request_frame =
    header
    ++ (8 ∷ 6 ∷ 0 ∷ 1 ∷ 8 ∷ 0 ∷ 6 ∷ 4 ∷ 0 ∷ 1 ∷ 94 ∷ 1 ∷ 1 ∷ 1 ∷ 1 ∷ 1 ∷ 10 ∷ 0 ∷ 0 ∷ 1 ∷ 0 ∷ 0 ∷ 0
        ∷ 0 ∷ 0 ∷ 0 ∷ 10 ∷ 0 ∷ 0 ∷ 2 ∷ [])

abbrev packet_frame : Bytes
packet_frame = header ++ (8 ∷ 0 ∷ packet)

send_ipv4-delivers_example :
    let (here', outcome) = send_ipv4 false packet here in
    (outcome ≡ ok tt)
    × (here'.session.outbound ≡ request_frame ∷ packet_frame ∷ [])
    × ((handle_inbound false packet_frame there).0.handed ≡ packet ∷ [])
unfolding next_hop
send_ipv4-delivers_example =
    (send_ipv4-delivers here there packet there.address (omega arith) (omega arith) refl
        (omega arith) refl).1
      refl
