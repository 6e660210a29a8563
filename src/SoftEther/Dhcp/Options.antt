-- ===== src/SoftEther/Dhcp/Options.antt =====
-- internal/softether/link.go, `parseDHCPFrame`: the reply of a server, written out as RFC 2131 has it,
-- and what is read from it.
use lab_remote_go.Common.{
  ℕ, zero, suc, ◌+◌, ◌^◌, ◌≤◌, ◌<◌, ◌≡◌, refl, ap, ◌∙◌, true, false, List, [], ◌∷◌, ◌++◌, ltb, ◌==◌,
  length, take, drop, length-append, take-length_append, drop-length_append, drop-append_of_length,
  drop-drop, sym, append_assoc, Bytes, bytes_eq, bytes_eq_refl, put_u32, arith,
}
use lab_remote_go.SoftEther.Link.{Mac, Ip, mac_bytes, ip_bytes}
use lab_remote_go.SoftEther.Dhcp.{
  DhcpMessage, set_option, read_options, empty_message, typed, parse_dhcp_frame, parse_payload,
  read_payload, u32_at, put_u16, magic, with_checksum,
}

-- an option: its code and its value
abbrev pub Field : Type 0
Field = ℕ × Bytes

abbrev pub encode : List Field → Bytes
encode [] = []
encode ((code, value) ∷ fields) = (code ∷ length value ∷ value) ++ encode fields

-- The codes are not those of the padding and of the end.
abbrev pub AreFields : List Field → Type 0
AreFields [] = Unit {0}
AreFields ((code, value) ∷ fields) = (0 < code) × (code < 255) × AreFields fields

abbrev pub set_fields : List Field → DhcpMessage → DhcpMessage
set_fields [] m = m
set_fields ((code, value) ∷ fields) m = set_fields fields (set_option code value m)

read_options-end :
    (fuel : ℕ) (rest : Bytes) (m : DhcpMessage) → read_options (suc fuel) (255 ∷ rest) m ≡ m
unfolding read_options
read_options-end fuel [] m = refl
read_options-end fuel (x ∷ rest) m = refl

read_option :
    (fuel : ℕ) (code : ℕ) (value : Bytes) (m : DhcpMessage) (later : Bytes)
    → 0 < code
    → code < 255
    → read_options (suc fuel) (code ∷ length value ∷ (value ++ later)) m
      ≡ read_options fuel later (set_option code value m)
unfolding read_options
read_option fuel code value m later positive small =
    let not_zero : (code == 0) ≡ false = ground arith in
    let not_last : (code == 255) ≡ false = ground arith in
    let fits : ltb (length (value ++ later)) (length value) ≡ false =
      ground (arith, length-append value later) in
    rw (not_zero, not_last, fits, take-length_append value later, drop-length_append value later)
      refl

pub read_options-encode :
    (fuel : ℕ) (fields : List Field) (m : DhcpMessage) (rest : Bytes)
    → AreFields fields
    → length (encode fields) < fuel
    → read_options fuel (encode fields ++ (255 ∷ rest)) m ≡ set_fields fields m
read_options-encode zero fields m rest p h = absurd (omega arith)
read_options-encode (suc fuel) [] m rest p h = read_options-end fuel rest m
read_options-encode (suc fuel) ((code, value) ∷ fields) m rest (positive, small, p) h =
    let later : Bytes = encode fields ++ (255 ∷ rest) in
    rw
      (
        append_assoc value (encode fields) (255 ∷ rest),
        read_option fuel code value m later positive small,
      )
      (read_options-encode fuel fields (set_option code value m) rest p
        (omega (arith, length-append value (encode fields))))

-- `hardware` are the 216 bytes from the server's address to the name of the boot file.
abbrev pub reply_payload : ℕ → Ip → Bytes → List Field → Bytes → Bytes
reply_payload transaction address hardware fields rest =
    (2 ∷ 1 ∷ 6 ∷ 0 ∷ put_u32 transaction)
    ++ ((0 ∷ 0 ∷ 128 ∷ 0 ∷ 0 ∷ 0 ∷ 0 ∷ 0 ∷ [])
        ++ (ip_bytes address ++ (hardware ++ (magic ++ (encode fields ++ (255 ∷ rest))))))

abbrev pub reply_header : ℕ → Ip → Ip → Bytes
reply_header size source target =
    with_checksum ((69 ∷ 0 ∷ put_u16 size) ++ (0 ∷ 0 ∷ 64 ∷ 0 ∷ 64 ∷ 17 ∷ []))
      (ip_bytes source ++ ip_bytes target)

abbrev pub reply_datagram : Bytes → Bytes
reply_datagram payload = (0 ∷ 67 ∷ 0 ∷ 68 ∷ put_u16 (8 + length payload)) ++ (0 ∷ 0 ∷ payload)

abbrev pub reply_frame : Mac → Mac → Ip → Ip → Bytes → Bytes
reply_frame to from source target payload =
    mac_bytes to
    ++ (mac_bytes from
        ++ (8 ∷ 0 ∷ (reply_header (28 + length payload) source target ++ reply_datagram payload)))

parse_dhcp_frame-reply_frame :
    (transaction : ℕ) (to from : Mac) (source target : Ip) (payload : Bytes)
    → 240 ≤ length payload
    → parse_dhcp_frame transaction (reply_frame to from source target payload)
      ≡ parse_payload transaction payload
unfolding parse_dhcp_frame
parse_dhcp_frame-reply_frame transaction to from source target payload h =
    let enough : ltb (length (reply_frame to from source target payload)) 282 ≡ false =
      ground arith in
    rw enough refl

module _ (address : Ip) (hardware : Bytes) (fields : List Field) (rest : Bytes) where
  abbrev tail : Bytes
  tail = encode fields ++ (255 ∷ rest)

  options_at : length hardware ≡ 216 → drop 220 (hardware ++ (magic ++ tail)) ≡ tail
  options_at e =
      sym (drop-drop 4 216 (hardware ++ (magic ++ tail)))
      ∙ ap (λ k. drop 4 k) (drop-append_of_length 216 hardware (magic ++ tail) e)

  parse_payload-reply :
      (transaction : ℕ)
      → transaction < 2 ^ 32
      → length hardware ≡ 216
      → AreFields fields
      → parse_payload transaction (reply_payload transaction address hardware fields rest)
        ≡ typed (set_fields fields (empty_message address))
  unfolding put_u32
  parse_payload-reply transaction h e p =
      let payload : Bytes = reply_payload transaction address hardware fields rest in
      let same : (u32_at 4 payload == transaction) ≡ true = ground arith in
      let magical : take 4 (drop 216 (hardware ++ (magic ++ tail))) ≡ magic =
        ap (λ k. take 4 k) (drop-append_of_length 216 hardware (magic ++ tail) e) in
      let shown : bytes_eq (take 4 (drop 236 payload)) magic ≡ true =
        ap (λ k. bytes_eq k magic) magical ∙ bytes_eq_refl magic in
      let whole : read_payload payload ≡ set_fields fields (empty_message address) =
        ap (λ k. read_options (length k) k (empty_message address)) (options_at e)
        ∙ read_options-encode (length tail) fields (empty_message address) rest p
            (omega (arith, length-append (encode fields) (255 ∷ rest))) in
      rw (same, shown, whole) refl

  module _ (to from : Mac) (source target : Ip) where
    pub parse_dhcp_frame-fields :
        (transaction : ℕ)
        → transaction < 2 ^ 32
        → length hardware ≡ 216
        → AreFields fields
        → parse_dhcp_frame transaction (
            reply_frame to from source target
              (reply_payload transaction address hardware fields rest))
          ≡ typed (set_fields fields (empty_message address))
    unfolding put_u32
    parse_dhcp_frame-fields transaction h e p =
        parse_dhcp_frame-reply_frame transaction to from source target
          (reply_payload transaction address hardware fields rest)
          (omega (
            arith,
            length-append hardware (magic ++ tail),
            length-append (encode fields) (255 ∷ rest),
          ))
        ∙ parse_payload-reply transaction h e p
