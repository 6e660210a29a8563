-- ===== src/SoftEther/Link.antt =====
-- internal/softether/link.go: Ethernet under the user-space network. Frames are byte strings; the
-- arrays of four and six bytes are records. `handed` are the packets that went to the network stack.
-- The loops that feed these functions are left out.
pub mod Arp
pub mod Packets
mod Tests
use Prim.Native.Nat.{bit_and}
use lab_remote_go.Common.{
  ℕ, ◌+◌, ◌-◌, ◌*◌, ◌/◌, ◌%◌, Bool, true, false, not, ◌&&◌, ◌||◌, List, [], ◌∷◌, ◌++◌, Option, none,
  some, if◌then◌else◌, ltb, ◌==◌, length, take, drop, get_or, Bytes, bytes_eq,
}
use lab_remote_go.Common.Results.{Result, err, ok}
use lab_remote_go.SoftEther.Session.{Session, SendError, send}

pub record Mac : Type 0 where
  pub m0 : ℕ
  pub m1 : ℕ
  pub m2 : ℕ
  pub m3 : ℕ
  pub m4 : ℕ
  pub m5 : ℕ

pub record Ip : Type 0 where
  pub a : ℕ
  pub b : ℕ
  pub c : ℕ
  pub d : ℕ

abbrev pub mac_bytes : Mac → Bytes
mac_bytes m = m.m0 ∷ m.m1 ∷ m.m2 ∷ m.m3 ∷ m.m4 ∷ m.m5 ∷ []

abbrev pub ip_bytes : Ip → Bytes
ip_bytes i = i.a ∷ i.b ∷ i.c ∷ i.d ∷ []

-- `copy` of six or four bytes of a frame into an array
abbrev pub mac_at : ℕ → Bytes → Mac
mac_at n f = record {
  m0 = get_or f n 0;
  m1 = get_or f (n + 1) 0;
  m2 = get_or f (n + 2) 0;
  m3 = get_or f (n + 3) 0;
  m4 = get_or f (n + 4) 0;
  m5 = get_or f (n + 5) 0;
}

abbrev pub ip_at : ℕ → Bytes → Ip
ip_at n f = record {
  a = get_or f n 0;
  b = get_or f (n + 1) 0;
  c = get_or f (n + 2) 0;
  d = get_or f (n + 3) 0;
}

abbrev pub u16_at : ℕ → Bytes → ℕ
u16_at n f = get_or f n 0 * 256 + get_or f (n + 1) 0

abbrev pub ip_eq : Ip → Ip → Bool
ip_eq i j = bytes_eq (ip_bytes i) (ip_bytes j)

abbrev pub mac_eq : Mac → Mac → Bool
mac_eq m n = bytes_eq (mac_bytes m) (mac_bytes n)

abbrev pub broadcast : Mac
broadcast = record { m0 = 255; m1 = 255; m2 = 255; m3 = 255; m4 = 255; m5 = 255 }

abbrev pub zero_ip : Ip
zero_ip = record { a = 0; b = 0; c = 0; d = 0 }

pub record Link : Type 0 where
  pub session : Session
  pub mac : Mac
  pub address : Ip
  pub mask : Ip
  pub gateway : Option Ip
  pub arp_table : Ip → Option Mac
  pub handed : List Bytes

pub data LinkError : Type 0 where
  send_failed : SendError → LinkError
  no_gateway : LinkError

abbrev pub Step : Type 0
Step = Link × Result LinkError (Unit {0})

abbrev pub sent_on : Link → Session × Result SendError (Unit {0}) → Step
sent_on l (s, err e) = (record l { session = s }, err (send_failed e))
sent_on l (s, ok u) = (record l { session = s }, ok tt)

abbrev pub set_mac : Ip → Mac → (Ip → Option Mac) → Ip → Option Mac
set_mac key value table = λ k. if ip_eq key k then some value else table k

-- an ARP message for IPv4 on Ethernet
abbrev pub arp_frame : Mac → Mac → ℕ → Mac → Ip → Mac → Ip → Bytes
arp_frame to from operation sender_mac sender_ip target_mac target_ip =
    mac_bytes to
    ++ (mac_bytes from
        ++ ((8 ∷ 6 ∷ 0 ∷ 1 ∷ 8 ∷ 0 ∷ 6 ∷ 4 ∷ 0 ∷ operation ∷ [])
            ++ (mac_bytes sender_mac
                ++ (ip_bytes sender_ip ++ (mac_bytes target_mac ++ ip_bytes target_ip)))))

abbrev pub zero_mac : Mac
zero_mac = record { m0 = 0; m1 = 0; m2 = 0; m3 = 0; m4 = 0; m5 = 0 }

unfoldable pub build_arp_request : Mac → Ip → Ip → Bytes
build_arp_request mac source target = arp_frame broadcast mac 1 mac source zero_mac target

abbrev pub not_arp : Bytes → Bool
not_arp f =
    ltb (length f) 42
    || (not (u16_at 14 f == 1)
        || (not (u16_at 16 f == 0x0800) || (not (get_or f 18 0 == 6) || not (get_or f 19 0 == 4))))

abbrev pub learn : Bytes → Link → Link
learn f l =
    if not (ip_eq (ip_at 28 f) zero_ip)
    then record l { arp_table = set_mac (ip_at 28 f) (mac_at 22 f) l.arp_table }
    else l

abbrev pub arp_reply : Bytes → Link → Bytes
arp_reply f l = arp_frame (mac_at 6 f) l.mac 2 l.mac l.address (mac_at 22 f) (ip_at 28 f)

abbrev pub answer : Bool → Bytes → Link → Step
answer prefers_done f l =
    if not (u16_at 20 f == 1) || not (ip_eq (ip_at 38 f) l.address)
    then (l, ok tt)
    else sent_on l (send prefers_done (arp_reply f l) l.session)

unfoldable pub handle_arp : Bool → Bytes → Link → Step
handle_arp prefers_done f l = if not_arp f then (l, ok tt) else answer prefers_done f (learn f l)

-- The write to the network stack succeeds.
abbrev pub hand_packet : Bytes → Link → Step
hand_packet f l =
    if ltb (length f) 34 || (not (mac_eq (mac_at 0 f) l.mac) && not (mac_eq (mac_at 0 f) broadcast))
    then (l, ok tt)
    else (record l { handed = l.handed ++ (drop 14 f ∷ []) }, ok tt)

unfoldable pub handle_inbound : Bool → Bytes → Link → Step
handle_inbound prefers_done f l =
    if ltb (length f) 14
    then (l, ok tt)
    else if u16_at 12 f == 0x0806
    then handle_arp prefers_done f l
    else if u16_at 12 f == 0x0800
    then hand_packet f l
    else (l, ok tt)

-- `sameSubnet` of three IPv4 values
abbrev pub same_subnet : Ip → Ip → Ip → Bool
same_subnet left right mask =
    bit_and left.a mask.a == bit_and right.a mask.a
    && (bit_and left.b mask.b == bit_and right.b mask.b
        && (bit_and left.c mask.c == bit_and right.c mask.c
            && bit_and left.d mask.d == bit_and right.d mask.d))

abbrev pub destination : Bytes → Ip
destination packet = ip_at 16 packet

unfoldable pub next_hop : Link → Bytes → Option Ip
next_hop l packet =
    if same_subnet l.address (destination packet) l.mask
    then some (destination packet)
    else l.gateway

abbrev pub ethernet : Mac → Mac → Bytes → Bytes
ethernet to from packet = mac_bytes to ++ (mac_bytes from ++ (8 ∷ 0 ∷ packet))

abbrev pub send_packet : Bool → Mac → Bytes → Link → Step
send_packet prefers_done to packet l =
    sent_on l (send prefers_done (ethernet to l.mac packet) l.session)

-- An unknown neighbour is asked for, whether or not that can be sent, and the packet is broadcast.
abbrev pub send_resolved : Bool → Ip → Bytes → Link → Option Mac → Step
send_resolved prefers_done hop packet l (some to) = send_packet prefers_done to packet l
send_resolved prefers_done hop packet l none =
    let asked : Session × Result SendError (Unit {0}) =
      send prefers_done (build_arp_request l.mac l.address hop) l.session in
    send_packet prefers_done broadcast packet (record l { session = asked.0 })

abbrev pub send_to : Bool → Bytes → Link → Option Ip → Step
send_to prefers_done packet l none = (l, err no_gateway)
send_to prefers_done packet l (some hop) = send_resolved prefers_done hop packet l (l.arp_table hop)

unfoldable pub send_ipv4 : Bool → Bytes → Link → Step
send_ipv4 prefers_done packet l = send_to prefers_done packet l (next_hop l packet)
