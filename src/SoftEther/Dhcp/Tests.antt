-- ===== src/SoftEther/Dhcp/Tests.antt =====
-- Witnesses for DHCP: one server's answers.
use lab_remote_go.Common.{
  ◌≡◌, refl, false, List, [], ◌∷◌, none, some, replicate, Bytes, bytes_eq, put_u32, arith,
}
use lab_remote_go.SoftEther.Session.{Session, new_session, send}
use lab_remote_go.SoftEther.Link.{Mac, Ip}
use lab_remote_go.SoftEther.Dhcp.{
  Lease, DhcpMessage, header_before, header_after, with_checksum, checksum, set_option,
  read_options, parse_dhcp_frame, build_dhcp_frame,
}
use lab_remote_go.SoftEther.Dhcp.Leasing.{Arrival, received, Course, wait_dhcp, acquire_dhcp}
use lab_remote_go.SoftEther.Dhcp.Checksum.{checksum-with_checksum}
use lab_remote_go.SoftEther.Dhcp.Options.{Field, reply_payload, reply_frame}
use lab_remote_go.SoftEther.Dhcp.Readings.{parse_dhcp_frame-reply}
use lab_remote_go.SoftEther.Dhcp.Exchange.{Granted, acquire_dhcp-Granted}

checksum-with_checksum_example : checksum (with_checksum (header_before 328) header_after) ≡ 0
checksum-with_checksum_example =
    checksum-with_checksum (header_before 328) header_after
      (
        omega arith,
        (
          omega arith,
          (
            omega arith,
            (
              omega arith,
              (
                omega arith,
                (omega arith, (omega arith, (omega arith, (omega arith, (omega arith, tt))))),
              ),
            ),
          ),
        ),
      )
      (
        omega arith,
        (
          omega arith,
          (
            omega arith,
            (omega arith, (omega arith, (omega arith, (omega arith, (omega arith, tt))))),
          ),
        ),
      )
      refl (omega arith)

abbrev here : Mac
here = record { m0 = 94; m1 = 1; m2 = 1; m3 = 1; m4 = 1; m5 = 1 }

abbrev server : Mac
server = record { m0 = 94; m1 = 9; m2 = 9; m3 = 9; m4 = 9; m5 = 9 }

abbrev router : Ip
router = record { a = 10; b = 0; c = 0; d = 1 }

abbrev leased : Ip
leased = record { a = 10; b = 0; c = 0; d = 20 }

abbrev net_mask : Ip
net_mask = record { a = 255; b = 255; c = 255; d = 0 }

abbrev offer_fields : List Field
offer_fields = (53, 2 ∷ []) ∷ (54, 10 ∷ 0 ∷ 0 ∷ 1 ∷ []) ∷ []

abbrev ack_fields : List Field
ack_fields =
    (53, 5 ∷ [])
    ∷ (1, 255 ∷ 255 ∷ 255 ∷ 0 ∷ [])
    ∷ (3, 10 ∷ 0 ∷ 0 ∷ 1 ∷ [])
    ∷ (12, 112 ∷ 99 ∷ [])
    ∷ (51, 0 ∷ 0 ∷ 14 ∷ 16 ∷ [])
    ∷ []

abbrev reply : List Field → Bytes
reply fields =
    reply_frame here server router leased
      (reply_payload 7 leased (replicate 216 0) fields (0 ∷ 0 ∷ []))

abbrev acknowledgement : DhcpMessage
acknowledgement = record {
  message_type = 5;
  address = leased;
  server_id = none;
  mask = some net_mask;
  gateway = some router;
  dns = none;
  lease_time = 3600000000000;
}

parse_dhcp_frame-reply_example : parse_dhcp_frame 7 (reply ack_fields) ≡ some acknowledgement
unfolding set_option
parse_dhcp_frame-reply_example =
    parse_dhcp_frame-reply leased (replicate 216 0) ack_fields (0 ∷ 0 ∷ []) here server router
      leased 7 (omega arith) refl
      (
        omega arith,
        omega arith,
        (
          omega arith,
          omega arith,
          (omega arith, omega arith, (omega arith, omega arith, (omega arith, omega arith, tt))),
        ),
      )

abbrev course : Course
course = record { random = some 7; prefers_done = false; meanwhile = λ s. s }

abbrev arrivals : List Arrival
arrivals =
    received (1 ∷ 2 ∷ 3 ∷ []) ∷ received (reply offer_fields) ∷ received (reply ack_fields) ∷ []

abbrev lease : Lease
lease = record {
  address = leased;
  mask = net_mask;
  gateway = some router;
  dns = none;
  lease_time = 3600000000000;
}

abbrev after : Session
after = record new_session {
  outbound =
      build_dhcp_frame here 7 1 none none
      ∷ build_dhcp_frame here 7 3 (some leased) (some router)
      ∷ [];
}

acquire_dhcp-Granted_example : Granted course here arrivals new_session after lease
unfolding acquire_dhcp wait_dhcp parse_dhcp_frame set_option read_options send bytes_eq put_u32
    build_dhcp_frame
acquire_dhcp-Granted_example = acquire_dhcp-Granted course here arrivals new_session refl
