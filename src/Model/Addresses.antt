-- ===== src/Model/Addresses.antt =====
-- `net.ParseIP`, as internal/model/profile.go uses it: whether a text is an IP address.
mod Tests
use lab_remote_go.Common.{
  ℕ, zero, suc, ◌+◌, ◌-◌, ◌*◌, ◌≤◌, Bool, true, false, not, ◌&&◌, ◌||◌, List, [], ◌∷◌, Option, none,
  some, if◌then◌else◌, ltb, leb, ◌==◌, length, drop,
}
use lab_remote_go.Common.Texts.{Text, is_empty, member, split_on, first_is}

abbrev pub is_digit : ℕ → Bool
is_digit c = leb 48 c && leb c 57

abbrev pub is_hex : ℕ → Bool
is_hex c = is_digit c || ((leb 97 c && leb c 102) || (leb 65 c && leb c 70))

abbrev pub all_chars : (ℕ → Bool) → Text → Bool
all_chars f [] = true
all_chars f (c ∷ s) = f c && all_chars f s

abbrev pub decimal : ℕ → Text → ℕ
decimal n [] = n
decimal n (c ∷ s) = decimal (n * 10 + (c - 48)) s

-- one to three digits without a leading zero, at most 255
abbrev pub is_octet : Text → Bool
is_octet s =
    not (is_empty s)
    && (leb (length s) 3
        && (all_chars is_digit s
            && (not (first_is 48 s && ltb 1 (length s)) && leb (decimal 0 s) 255)))

abbrev pub all_octets : List Text → Bool
all_octets [] = true
all_octets (s ∷ rest) = is_octet s && all_octets rest

abbrev pub is_ipv4 : Text → Bool
is_ipv4 s = let fields = split_on 46 s in length fields == 4 && all_octets fields

-- how many hexadecimal digits stand at the front
abbrev pub hex_prefix : Text → ℕ
hex_prefix [] = 0
hex_prefix (c ∷ s) = let rest = hex_prefix s in if is_hex c then suc rest else 0

abbrev pub next_is : ℕ → ℕ → Text → Bool
next_is c n s = first_is c (drop n s)

-- The groups after `bytes` bytes are parsed, on fuel for the groups that are left; `gap` tells that
-- "::" has been seen. An address has 16 bytes, fewer with a gap.
abbrev pub ends_at : ℕ → Bool → Bool
ends_at bytes gap = if gap then ltb bytes 16 else bytes == 16

unfoldable pub ipv6_groups : ℕ → ℕ → Bool → Text → Bool
ipv6_groups zero bytes gap s = false
ipv6_groups (suc fuel) bytes gap s =
    let n = hex_prefix s in
    let rest = drop n s in
    let single = ipv6_groups fuel (bytes + 2) gap (drop 1 rest) in
    let double = ipv6_groups fuel (bytes + 2) true (drop 2 rest) in
    if n == 0 || ltb 4 n
    then false
    else if first_is 46 rest
    then (gap || bytes == 12) && (leb (bytes + 4) 16 && (is_ipv4 s && ends_at (bytes + 4) gap))
    else if is_empty rest
    then ends_at (bytes + 2) gap
    else if not (first_is 58 rest) || is_empty (drop 1 rest)
    then false
    else if next_is 58 1 rest
    then not gap && (if is_empty (drop 2 rest) then ends_at (bytes + 2) true else double)
    else single

abbrev pub is_ipv6 : Text → Bool
is_ipv6 s =
    if first_is 58 s && next_is 58 1 s
    then is_empty (drop 2 s) || ipv6_groups 8 0 true (drop 2 s)
    else ipv6_groups 8 0 false s

-- the first of '.', ':' and '%' decides
abbrev pub parse_ip : Text → Text → Bool
parse_ip whole [] = false
parse_ip whole (c ∷ s) =
    if c == 46
    then is_ipv4 whole
    else if c == 58
    then is_ipv6 whole
    else not (c == 37) && parse_ip whole s

unfoldable pub is_ip : Text → Bool
is_ip s = parse_ip s s
