-- ===== src/SoftEther/Pack/RoundTrip.antt =====
-- `unmarshalPack` reads back what `marshal` writes.
use lab_remote_go.Common.{
  put_u64, ℕ, ◌+◌, ◌-◌, ◌%◌, ◌^◌, ◌/◌, ◌≤◌, ◌<◌, ◌≡◌, refl, ap, ◌∙◌, false, ◌||◌, List, [], ◌∷◌,
  ◌++◌, Bytes, put_u32, get_u32-put_u32, read_full-append, length, length-append, ltb, ◌==◌,
  if◌then◌else◌, arith, append_assoc, append-nil, le→ltb,
}
use lab_remote_go.Common.Results.{Result, ok}
use lab_remote_go.SoftEther.Pack.{
  PackValue, PackElement, Pack, pack_int, pack_data, pack_string, pack_unicode_string, pack_int64,
  max_pack_elements, max_pack_values, max_pack_value, int_value, int64_value, data_value,
  text_value,
}
use lab_remote_go.SoftEther.Pack.Codec.{
  PackError, data_too_large, string_too_long, sized, element_invalid, Reader, write_pack_string,
  write_pack_value, write_values, write_element, write_elements, marshal, trim_nul, read_u32,
  read_u64, read_bytes, read_pack_string, read_sized, read_pack_value, read_values, read_element,
  read_elements, unmarshal_pack,
}

-- Written without an error, and read back before whatever follows.
abbrev RoundTrips {ℓ} : {A : Type ℓ} → Result PackError Bytes → Reader A → A → Type ℓ
RoundTrips written reader a =
    (bs : Bytes) × (written ≡ ok bs) × ((rest : Bytes) → reader (bs ++ rest) ≡ ok (a, rest))

-- A value with the one field that its kind carries, within the limits. A string of kind
-- `packString` is written as it is, so it cannot end in the NUL that the reader cuts off.
pub data IsWireValue (kind : ℕ) (v : PackValue) : Type 0 where
  int : (n : ℕ) → kind ≡ pack_int → v ≡ int_value n → n < 2 ^ 32 → IsWireValue kind v
  int64 : (n : ℕ) → kind ≡ pack_int64 → v ≡ int64_value n → n < 2 ^ 64 → IsWireValue kind v
  bytes :
      (bs : Bytes)
      → kind ≡ pack_data
      → v ≡ data_value bs
      → length bs ≤ max_pack_value
      → IsWireValue kind v
  string :
      (s : Bytes)
      → kind ≡ pack_string
      → v ≡ text_value s
      → length s ≤ max_pack_value
      → trim_nul s ≡ s
      → IsWireValue kind v
  unicode :
      (s : Bytes)
      → kind ≡ pack_unicode_string
      → v ≡ text_value s
      → length s < max_pack_value
      → IsWireValue kind v

read_u32-put_u32 : (v : ℕ) (rest : Bytes) → v < 2 ^ 32 → read_u32 (put_u32 v ++ rest) ≡ ok (v, rest)
unfolding read_u32
read_u32-put_u32 v rest h = rw (get_u32-put_u32 v rest h)

-- The low half is written modulo 2^32.
put_u32-mod : (v : ℕ) → put_u32 v ≡ put_u32 (v % 2 ^ 32)
unfolding put_u32
put_u32-mod v = ground arith

read_u64-put_u64 : (v : ℕ) (rest : Bytes) → v < 2 ^ 64 → read_u64 (put_u64 v ++ rest) ≡ ok (v, rest)
unfolding read_u64 put_u64
read_u64-put_u64 v rest h =
    rw
      (
        append_assoc,
        read_u32-put_u32 (v / 2 ^ 32) (put_u32 v ++ rest) (omega arith),
        put_u32-mod v,
        read_u32-put_u32 (v % 2 ^ 32) rest (omega arith),
      )
      (ap (λ k. ok (k, rest)) (omega arith))

read_bytes-append :
    (bs rest : Bytes) (n : ℕ) → n ≡ length bs → read_bytes n (bs ++ rest) ≡ ok (bs, rest)
unfolding read_bytes
read_bytes-append bs rest n e = rw (e, read_full-append bs rest)

trim_nul-append : (s : Bytes) → trim_nul (s ++ (0 ∷ [])) ≡ s
unfolding trim_nul
trim_nul-append [] = refl
trim_nul-append (c ∷ []) = refl
trim_nul-append (c ∷ d ∷ s) = ap (λ t. c ∷ t) (trim_nul-append (d ∷ s))

-- A sized field is read back with its size.
sized-RoundTrips :
    (kind : ℕ) (bs : Bytes) (e : PackError)
    → length bs ≤ max_pack_value
    → (sized e bs ≡ ok (put_u32 (length bs) ++ bs))
      × ((rest : Bytes)
          → read_sized kind ((put_u32 (length bs) ++ bs) ++ rest)
            ≡ ok (if kind == pack_data then data_value bs else text_value (trim_nul bs), rest))
unfolding read_sized
sized-RoundTrips kind bs e h = (
  rw (le→ltb max_pack_value (length bs) h),
  λ rest. rw (
    append_assoc,
    read_u32-put_u32 (length bs) (bs ++ rest) (omega arith),
    le→ltb max_pack_value (length bs) h,
    read_bytes-append bs rest (length bs) refl,
  ),
)

value-RoundTrips :
    (kind : ℕ) (v : PackValue)
    → IsWireValue kind v
    → RoundTrips (write_pack_value kind v) (read_pack_value kind) v
unfolding write_pack_value read_pack_value
value-RoundTrips kind v (int n k e h) =
    rw (k, e) (put_u32 n, refl, λ rest. rw (read_u32-put_u32 n rest h))
value-RoundTrips kind v (int64 n k e h) =
    rw (k, e) (put_u64 n, refl, λ rest. rw (read_u64-put_u64 n rest h))
value-RoundTrips kind v (bytes bs k e h) =
    let r = sized-RoundTrips pack_data bs data_too_large h in
    rw (k, e) (put_u32 (length bs) ++ bs, r.0, r.1)
value-RoundTrips kind v (string s k e h t) =
    let r = sized-RoundTrips pack_string s string_too_long h in
    rw (k, e) (put_u32 (length s) ++ s, r.0, λ rest. r.1 rest ∙ ap (λ u. ok (text_value u, rest)) t)
value-RoundTrips kind v (unicode s k e h) =
    let s' : Bytes = s ++ (0 ∷ []) in
    let r =
      sized-RoundTrips pack_unicode_string s' string_too_long
        (omega (arith, length-append s (0 ∷ []))) in
    rw (k, e)
      (
        put_u32 (length s') ++ s',
        r.0,
        λ rest. r.1 rest ∙ ap (λ u. ok (text_value u, rest)) (trim_nul-append s),
      )

abbrev AllWire : ℕ → List PackValue → Type 0
AllWire kind [] = Unit {0}
AllWire kind (v ∷ vs) = IsWireValue kind v × AllWire kind vs

values-RoundTrips :
    (kind : ℕ) (vs : List PackValue)
    → AllWire kind vs
    → RoundTrips (write_values kind vs) (read_values (length vs) kind) vs
unfolding write_values read_values
values-RoundTrips kind [] h = ([], refl, λ rest. refl)
values-RoundTrips kind (v ∷ vs) h =
    let (b, w, r) = value-RoundTrips kind v h.0 in
    let (bs, ws, rs) = values-RoundTrips kind vs h.1 in
    (b ++ bs, rw (w, ws), λ rest. rw (append_assoc, r (bs ++ rest), rs rest))

-- An element that `marshal` accepts, of values that its kind carries.
pub record IsWireElement (e : PackElement) : Type 0 where
  pub named : 0 < length e.name
  pub short : length e.name ≤ 63
  pub some_values : 0 < length e.values
  pub few_values : length e.values ≤ max_pack_values
  pub kind_small : e.kind < 2 ^ 32
  pub wire : AllWire e.kind e.values

IsWireElement-valid : (e : PackElement) → IsWireElement e → element_invalid e ≡ false
IsWireElement-valid e h = ground (arith, h.named, h.short, h.some_values, h.few_values)

name_length_ok : (n : ℕ) → n ≤ 63 → (n + 1 == 0 || ltb 64 (n + 1)) ≡ false
name_length_ok n h = ground arith

value_count_ok : (n : ℕ) → 0 < n → n ≤ max_pack_values → (n == 0 || ltb max_pack_values n) ≡ false
value_count_ok n h k = ground arith

name-RoundTrips :
    (name rest : Bytes)
    → length name ≤ 63
    → read_pack_string (write_pack_string name ++ rest) ≡ ok (name, rest)
unfolding read_pack_string write_pack_string
name-RoundTrips name rest h = rw (
  append_assoc,
  read_u32-put_u32 (length name + 1) (name ++ rest) (omega arith),
  name_length_ok (length name) h,
  read_bytes-append name rest (length name + 1 - 1) (omega arith),
)

element-RoundTrips :
    (e : PackElement) → IsWireElement e → RoundTrips (write_element e) read_element e
unfolding write_element read_element
element-RoundTrips e h =
    let (bs, ws, rs) = values-RoundTrips e.kind e.values h.wire in
    (
      write_pack_string e.name ++ (put_u32 e.kind ++ (put_u32 (length e.values) ++ bs)),
      rw (IsWireElement-valid e h, ws),
      λ rest. rw (
        append_assoc,
        name-RoundTrips e.name _ h.short,
        append_assoc,
        read_u32-put_u32 e.kind _ h.kind_small,
        append_assoc,
        read_u32-put_u32 (length e.values) (bs ++ rest) (omega (arith, h.few_values)),
        value_count_ok (length e.values) h.some_values h.few_values,
        rs rest,
      ),
    )

abbrev AllWireElements : List PackElement → Type 0
AllWireElements [] = Unit {0}
AllWireElements (e ∷ es) = IsWireElement e × AllWireElements es

elements-RoundTrips :
    (es : List PackElement)
    → AllWireElements es
    → RoundTrips (write_elements es) (read_elements (length es)) es
unfolding write_elements read_elements
elements-RoundTrips [] h = ([], refl, λ rest. refl)
elements-RoundTrips (e ∷ es) h =
    let (b, w, r) = element-RoundTrips e h.0 in
    let (bs, ws, rs) = elements-RoundTrips es h.1 in
    (b ++ bs, rw (w, ws), λ rest. rw (append_assoc, r (bs ++ rest), rs rest))

pub record IsWire (p : Pack) : Type 0 where
  pub few : length p.elements ≤ max_pack_elements
  pub all_wire : AllWireElements p.elements

-- Nothing is left after the elements.
elements_end :
    (n : ℕ) (bs : Bytes) {es : List PackElement}
    → ((rest : Bytes) → read_elements n (bs ++ rest) ≡ ok (es, rest))
    → read_elements n bs ≡ ok (es, [])
elements_end n bs r = rw append-nil at (r [])

-- A pack within the limits, whose values carry what their kinds say and none of whose `packString`
-- values ends in a NUL, which reading would cut off, is marshalled without an error, and unmarshalling
-- the bytes gives the pack back.
pub unmarshal-marshal :
    (p : Pack) → IsWire p → (bs : Bytes) × (marshal p ≡ ok bs) × (unmarshal_pack bs ≡ ok p)
unfolding marshal unmarshal_pack
unmarshal-marshal p h =
    let n : ℕ = length p.elements in
    let (bs, ws, rs) = elements-RoundTrips p.elements h.all_wire in
    (
      put_u32 n ++ bs,
      rw (le→ltb max_pack_elements n h.few, ws),
      rw (
        read_u32-put_u32 n bs (omega (arith, h.few)),
        le→ltb max_pack_elements n h.few,
        elements_end n bs rs,
      ),
    )
