-- ===== src/SoftEther/Dhcp/Requests.antt =====
-- internal/softether/link.go, `buildDHCPFrame`: the frame of a client, read as RFC 2131 has it.
use lab_remote_go.Common.{
  ℕ, ◌≡◌, refl, List, [], ◌∷◌, ◌++◌, Option, none, some, Bytes, take, drop, put_u32, replicate,
}
use lab_remote_go.SoftEther.Link.{Mac, Ip, mac_bytes, ip_bytes}
use lab_remote_go.SoftEther.Dhcp.{build_dhcp_frame}
use lab_remote_go.SoftEther.Dhcp.Options.{Field, encode}

abbrev pub address_field : ℕ → Option Ip → List Field
address_field code none = []
address_field code (some ip) = (code, ip_bytes ip) ∷ []

-- the type, the client, the address asked for, the server, and the parameters that are wanted
abbrev pub request_fields : Mac → ℕ → Option Ip → Option Ip → List Field
request_fields mac message_type requested server =
    ((53, message_type ∷ []) ∷ (61, 1 ∷ mac_bytes mac) ∷ [])
    ++ (address_field 50 requested
        ++ (address_field 54 server ++ ((55, 1 ∷ 3 ∷ 6 ∷ 15 ∷ 28 ∷ 51 ∷ []) ∷ [])))

-- A broadcast from the client's port to the server's, for this hardware address and this transaction,
-- with these options and padding.
pub record Asks (frame : Bytes) (mac : Mac) (transaction : ℕ) (fields : List Field) : Type 0 where
  pub addressed : take 14 frame ≡ replicate 6 255 ++ (mac_bytes mac ++ (8 ∷ 0 ∷ []))
  pub broadcast : take 4 (drop 30 frame) ≡ replicate 4 255
  pub ports : take 4 (drop 34 frame) ≡ 0 ∷ 68 ∷ 0 ∷ 67 ∷ []
  pub operation : take 4 (drop 42 frame) ≡ 1 ∷ 1 ∷ 6 ∷ 0 ∷ []
  pub identifier : take 4 (drop 46 frame) ≡ put_u32 transaction
  pub hardware : take 6 (drop 70 frame) ≡ mac_bytes mac
  pub magic : take 4 (drop 278 frame) ≡ 99 ∷ 130 ∷ 83 ∷ 99 ∷ []
  pub padding : Bytes
  pub options : drop 282 frame ≡ encode fields ++ (255 ∷ padding)

pub build_dhcp_frame-Asks :
    (mac : Mac) (transaction message_type : ℕ) (requested server : Option Ip)
    → Asks
        (build_dhcp_frame mac transaction message_type requested server)
        mac
        transaction
        (request_fields mac message_type requested server)
unfolding build_dhcp_frame put_u32
build_dhcp_frame-Asks mac transaction message_type requested server = sized requested server
  where
    sized :
        (requested server : Option Ip)
        → Asks
            (build_dhcp_frame mac transaction message_type requested server)
            mac
            transaction
            (request_fields mac message_type requested server)
    sized none none = record {
      addressed = refl;
      broadcast = refl;
      ports = refl;
      operation = refl;
      identifier = refl;
      hardware = refl;
      magic = refl;
      padding = replicate 39 0;
      options = refl;
    }
    sized none (some s) = record {
      addressed = refl;
      broadcast = refl;
      ports = refl;
      operation = refl;
      identifier = refl;
      hardware = refl;
      magic = refl;
      padding = replicate 33 0;
      options = refl;
    }
    sized (some r) none = record {
      addressed = refl;
      broadcast = refl;
      ports = refl;
      operation = refl;
      identifier = refl;
      hardware = refl;
      magic = refl;
      padding = replicate 33 0;
      options = refl;
    }
    sized (some r) (some s) = record {
      addressed = refl;
      broadcast = refl;
      ports = refl;
      operation = refl;
      identifier = refl;
      hardware = refl;
      magic = refl;
      padding = replicate 27 0;
      options = refl;
    }
