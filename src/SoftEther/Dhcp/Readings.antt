-- ===== src/SoftEther/Dhcp/Readings.antt =====
-- internal/softether/link.go, `parseDHCPFrame`: what each option of a reply is good for.
use lab_remote_go.Common.{
  ℕ, ◌+◌, ◌*◌, ◌^◌, ◌<◌, ◌≡◌, refl, ap, ◌∙◌, Bool, not, ◌&&◌, List, [], ◌∷◌, Option, none, some,
  if◌then◌else◌, ltb, ◌==◌, length, get_or, Bytes, arith,
}
use lab_remote_go.SoftEther.Link.{Mac, Ip}
use lab_remote_go.SoftEther.Dhcp.{DhcpMessage, set_option, empty_message, typed, parse_dhcp_frame}
use lab_remote_go.SoftEther.Dhcp.Options.{
  Field, AreFields, set_fields, reply_payload, reply_frame, parse_dhcp_frame-fields,
}

-- The value of the last field with the code whose length fits, or `a`.
abbrev pub latest : {A : Type 0} → ℕ → (Bytes → Bool) → (Bytes → A) → A → List Field → A
latest code fits read a [] = a
latest code fits read a ((c, value) ∷ fields) =
    latest code fits read (if c == code && fits value then read value else a) fields

abbrev pub of_length : ℕ → Bytes → Bool
of_length n value = length value == n

abbrev pub at_least_four : Bytes → Bool
at_least_four value = not (ltb (length value) 4)

abbrev pub an_address : Bytes → Option Ip
an_address v =
    some (record { a = get_or v 0 0; b = get_or v 1 0; c = get_or v 2 0; d = get_or v 3 0 })

-- seconds, as nanoseconds
abbrev pub a_duration : Bytes → ℕ
a_duration v =
    (((get_or v 0 0 * 256 + get_or v 1 0) * 256 + get_or v 2 0) * 256 + get_or v 3 0) * 1000000000

abbrev pub first_byte : Bytes → ℕ
first_byte v = get_or v 0 0

-- the subnet mask, the router, the DNS server, the time of the lease, the type and the server
abbrev pub message_of : Ip → List Field → DhcpMessage
message_of address fields = record {
  message_type = latest 53 (of_length 1) first_byte 0 fields;
  address = address;
  server_id = latest 54 (of_length 4) an_address none fields;
  mask = latest 1 (of_length 4) an_address none fields;
  gateway = latest 3 at_least_four an_address none fields;
  dns = latest 6 at_least_four an_address none fields;
  lease_time = latest 51 (of_length 4) a_duration 0 fields;
}

set_fields-latest :
    {A : Type 0} (part : DhcpMessage → A) (code : ℕ) (fits : Bytes → Bool) (read : Bytes → A)
    → ((c : ℕ) (v : Bytes) (m : DhcpMessage)
        → part (set_option c v m) ≡ (if c == code && fits v then read v else part m))
    → (fields : List Field) (m : DhcpMessage)
    → part (set_fields fields m) ≡ latest code fits read (part m) fields
set_fields-latest part code fits read one [] m = refl
set_fields-latest part code fits read one ((c, v) ∷ fields) m =
    set_fields-latest part code fits read one fields (set_option c v m)
    ∙ ap (λ a. latest code fits read a fields) (one c v m)

module _ (c : ℕ) (v : Bytes) (m : DhcpMessage) where
  option-mask : (set_option c v m).mask ≡ (if c == 1 && of_length 4 v then an_address v else m.mask)
  unfolding set_option
  option-mask = ground arith

  option-gateway :
      (set_option c v m).gateway ≡ (if c == 3 && at_least_four v then an_address v else m.gateway)
  unfolding set_option
  option-gateway = ground arith

  option-dns : (set_option c v m).dns ≡ (if c == 6 && at_least_four v then an_address v else m.dns)
  unfolding set_option
  option-dns = ground arith

  option-server_id :
      (set_option c v m).server_id
      ≡ (if c == 54 && of_length 4 v then an_address v else m.server_id)
  unfolding set_option
  option-server_id = ground arith

  option-message_type :
      (set_option c v m).message_type
      ≡ (if c == 53 && of_length 1 v then first_byte v else m.message_type)
  unfolding set_option
  option-message_type = ground arith

  option-lease_time :
      (set_option c v m).lease_time
      ≡ (if c == 51 && of_length 4 v then a_duration v else m.lease_time)
  unfolding set_option
  option-lease_time = ground arith

  option-address : (set_option c v m).address ≡ m.address
  unfolding set_option
  option-address = ground arith

set_fields-address :
    (fields : List Field) (m : DhcpMessage) → (set_fields fields m).address ≡ m.address
set_fields-address [] m = refl
set_fields-address ((c, v) ∷ fields) m =
    set_fields-address fields (set_option c v m) ∙ option-address c v m

set_fields-message_of :
    (address : Ip) (fields : List Field)
    → set_fields fields (empty_message address) ≡ message_of address fields
set_fields-message_of address fields =
    let m : DhcpMessage = empty_message address in
    let e1 =
      set_fields-latest (λ m. m.message_type) 53 (of_length 1) first_byte option-message_type fields
        m in
    let e2 =
      set_fields-latest (λ m. m.server_id) 54 (of_length 4) an_address option-server_id fields m in
    let e3 = set_fields-latest (λ m. m.mask) 1 (of_length 4) an_address option-mask fields m in
    let e4 =
      set_fields-latest (λ m. m.gateway) 3 at_least_four an_address option-gateway fields m in
    let e5 = set_fields-latest (λ m. m.dns) 6 at_least_four an_address option-dns fields m in
    let e6 =
      set_fields-latest (λ m. m.lease_time) 51 (of_length 4) a_duration option-lease_time fields
        m in
    let e7 = set_fields-address fields m in
    λ i. record {
      message_type = e1 i;
      address = e7 i;
      server_id = e2 i;
      mask = e3 i;
      gateway = e4 i;
      dns = e5 i;
      lease_time = e6 i;
    }

-- a reply without a type, or with the type 0, is none
abbrev pub reply_message : Ip → List Field → Option DhcpMessage
reply_message address fields =
    if (message_of address fields).message_type == 0 then none else some (message_of address fields)

-- From a server's reply to the transaction, its address and the meaning of its options are read.
pub parse_dhcp_frame-reply :
    (address : Ip) (hardware : Bytes) (fields : List Field) (rest : Bytes) (to from : Mac)
    (source target : Ip) (transaction : ℕ)
    → transaction < 2 ^ 32
    → length hardware ≡ 216
    → AreFields fields
    → parse_dhcp_frame transaction
        (reply_frame to from source target (reply_payload transaction address hardware fields rest))
      ≡ reply_message address fields
parse_dhcp_frame-reply address hardware fields rest to from source target transaction h e p =
    parse_dhcp_frame-fields address hardware fields rest to from source target transaction h e p
    ∙ ap typed (set_fields-message_of address fields)
