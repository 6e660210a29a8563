-- ===== src/SoftEther/Dhcp.antt =====
-- internal/softether/link.go: the messages of DHCP, `checksum`, `buildDHCPFrame` and `parseDHCPFrame`.
pub mod Leasing
pub mod Checksum
pub mod Options
pub mod Readings
pub mod Requests
pub mod Exchange
mod Tests
use lab_remote_go.Common.{
  ℕ, zero, suc, ◌+◌, ◌-◌, ◌*◌, ◌/◌, ◌%◌, ◌^◌, Bool, true, false, not, ◌&&◌, ◌||◌, List, [], ◌∷◌,
  ◌++◌, Option, none, some, if◌then◌else◌, ltb, ◌==◌, length, take, drop, get_or, replicate, Bytes,
  bytes_eq, put_u32,
}
use lab_remote_go.Common.Results.{Result, err, ok}
use lab_remote_go.SoftEther.Session.{Session, SendError, StopReason, send}
use lab_remote_go.SoftEther.Link.{Mac, Ip, mac_bytes, ip_bytes, ip_at, u16_at}

-- `binary.BigEndian.PutUint16`, of the value's low 16 bits
abbrev pub put_u16 : ℕ → Bytes
put_u16 v = (v / 256 % 256) ∷ (v % 256) ∷ []

-- The sum of a checksum is a `uint32`.
unfoldable pub sum_words : ℕ → Bytes → ℕ
sum_words sum [] = sum
sum_words sum (a ∷ []) = (sum + a * 256) % 2 ^ 32
sum_words sum (a ∷ b ∷ rest) = sum_words ((sum + (a * 256 + b)) % 2 ^ 32) rest

-- two turns of the loop, after which the carry is gone
unfoldable pub fold_carry : ℕ → ℕ → ℕ
fold_carry zero sum = sum
fold_carry (suc turns) sum =
    fold_carry turns (if sum / 2 ^ 16 == 0 then sum else sum % 2 ^ 16 + sum / 2 ^ 16)

unfoldable pub checksum : Bytes → ℕ
checksum bytes = 65535 - fold_carry 2 (sum_words 0 bytes)

pub record DhcpMessage : Type 0 where
  pub message_type : ℕ
  pub address : Ip
  pub server_id : Option Ip
  pub mask : Option Ip
  pub gateway : Option Ip
  pub dns : Option Ip
  pub lease_time : ℕ

pub record Lease : Type 0 where
  pub address : Ip
  pub mask : Ip
  pub gateway : Option Ip
  pub dns : Option Ip
  pub lease_time : ℕ

abbrev pub magic : Bytes
magic = 99 ∷ 130 ∷ 83 ∷ 99 ∷ []

-- an option of four bytes, if there is an address for it
abbrev pub ip_option : ℕ → Option Ip → Bytes
ip_option code none = []
ip_option code (some ip) = code ∷ 4 ∷ ip_bytes ip

abbrev pub request_options : Mac → ℕ → Option Ip → Option Ip → Bytes
request_options mac message_type requested server =
    (53 ∷ 1 ∷ message_type ∷ 61 ∷ 7 ∷ 1 ∷ mac_bytes mac)
    ++ (ip_option 50 requested
        ++ (ip_option 54 server ++ (55 ∷ 6 ∷ 1 ∷ 3 ∷ 6 ∷ 15 ∷ 28 ∷ 51 ∷ 255 ∷ [])))

abbrev pub padded : ℕ → Bytes → Bytes
padded n bytes = bytes ++ replicate (n - length bytes) 0

abbrev pub dhcp_request : Mac → ℕ → ℕ → Option Ip → Option Ip → Bytes
dhcp_request mac transaction message_type requested server = padded 300 (
    (1 ∷ 1 ∷ 6 ∷ 0 ∷ put_u32 transaction)
    ++ ((0 ∷ 0 ∷ 128 ∷ 0 ∷ replicate 16 0)
        ++ (mac_bytes mac
            ++ (replicate 202 0 ++ (magic ++ request_options mac message_type requested server)))))

abbrev pub udp_to_server : Bytes → Bytes
udp_to_server payload = (0 ∷ 68 ∷ 0 ∷ 67 ∷ put_u16 (8 + length payload)) ++ (0 ∷ 0 ∷ payload)

-- the header of an IP packet of `size` bytes up to its checksum, and what follows that
abbrev pub header_before : ℕ → Bytes
header_before size = (69 ∷ 0 ∷ put_u16 size) ++ (0 ∷ 0 ∷ 64 ∷ 0 ∷ 64 ∷ 17 ∷ [])

abbrev pub header_after : Bytes
header_after = 0 ∷ 0 ∷ 0 ∷ 0 ∷ 255 ∷ 255 ∷ 255 ∷ 255 ∷ []

abbrev pub with_checksum : Bytes → Bytes → Bytes
with_checksum before after = before ++ (put_u16 (checksum (before ++ (0 ∷ 0 ∷ after))) ++ after)

abbrev pub ipv4_header : ℕ → Bytes
ipv4_header size = with_checksum (header_before size) header_after

abbrev pub ipv4_broadcast : Bytes → Bytes
ipv4_broadcast payload = ipv4_header (20 + length payload) ++ payload

unfoldable pub build_dhcp_frame : Mac → ℕ → ℕ → Option Ip → Option Ip → Bytes
build_dhcp_frame mac transaction message_type requested server =
    (255 ∷ 255 ∷ 255 ∷ 255 ∷ 255 ∷ 255 ∷ mac_bytes mac)
    ++ (8
        ∷ 0
        ∷ ipv4_broadcast
            (udp_to_server (dhcp_request mac transaction message_type requested server)))

abbrev pub u32_at : ℕ → Bytes → ℕ
u32_at n f = u16_at n f * 65536 + u16_at (n + 2) f

-- The duration is in nanoseconds.
abbrev pub set_when : Bool → DhcpMessage → DhcpMessage → DhcpMessage
set_when fits changed m = if fits then changed else m

unfoldable pub set_option : ℕ → Bytes → DhcpMessage → DhcpMessage
set_option code value m =
    if code == 1
    then set_when (length value == 4) (record m { mask = some (ip_at 0 value) }) m
    else if code == 3
    then set_when (not (ltb (length value) 4)) (record m { gateway = some (ip_at 0 value) }) m
    else if code == 6
    then set_when (not (ltb (length value) 4)) (record m { dns = some (ip_at 0 value) }) m
    else if code == 51
    then set_when (length value == 4) (record m { lease_time = u32_at 0 value * 1000000000 }) m
    else if code == 53
    then set_when (length value == 1) (record m { message_type = get_or value 0 0 }) m
    else if code == 54
    then set_when (length value == 4) (record m { server_id = some (ip_at 0 value) }) m
    else m

-- after an option's code and length
abbrev pub next_option : ℕ → ℕ → Bytes → DhcpMessage → Bytes × DhcpMessage
next_option code size rest m =
    if code == 0 then (size ∷ rest, m) else (drop size rest, set_option code (take size rest) m)

-- Each turn of the loop takes a byte at least. A code at the end of the payload stops it or, if it is
-- zero, is the last one.
unfoldable pub read_options : ℕ → Bytes → DhcpMessage → DhcpMessage
read_options zero options m = m
read_options (suc fuel) [] m = m
read_options (suc fuel) (code ∷ []) m = m
read_options (suc fuel) (code ∷ size ∷ rest) m =
    let next = next_option code size rest m in
    let later = read_options fuel next.0 next.1 in
    if not (code == 0) && (code == 255 || ltb (length rest) size) then m else later

abbrev pub empty_message : Ip → DhcpMessage
empty_message address = record {
  message_type = 0;
  address = address;
  server_id = none;
  mask = none;
  gateway = none;
  dns = none;
  lease_time = 0;
}

abbrev pub typed : DhcpMessage → Option DhcpMessage
typed m = if m.message_type == 0 then none else some m

abbrev pub read_payload : Bytes → DhcpMessage
read_payload dhcp =
    let options = drop 240 dhcp in
    read_options (length options) options (empty_message (ip_at 16 dhcp))

abbrev pub parse_payload : ℕ → Bytes → Option DhcpMessage
parse_payload transaction dhcp =
    if not (get_or dhcp 0 0 == 2)
      || (not (u32_at 4 dhcp == transaction) || not (bytes_eq (take 4 (drop 236 dhcp)) magic))
    then none
    else typed (read_payload dhcp)

abbrev pub header_length : Bytes → ℕ
header_length frame = get_or frame 14 0 % 16 * 4

abbrev pub not_udp : Bytes → Bool
not_udp frame =
    ltb (header_length frame) 20
    || (ltb (length frame) (14 + header_length frame + 8 + 240) || not (get_or frame 23 0 == 17))

abbrev pub other_ports : ℕ → Bytes → Bool
other_ports udp frame = not (u16_at udp frame == 67) || not (u16_at (udp + 2) frame == 68)

unfoldable pub parse_dhcp_frame : ℕ → Bytes → Option DhcpMessage
parse_dhcp_frame transaction frame =
    if ltb (length frame) 282 || not (u16_at 12 frame == 0x0800)
    then none
    else if not_udp frame
    then none
    else if other_ports (14 + header_length frame) frame
    then none
    else parse_payload transaction (drop (14 + header_length frame + 8) frame)
