-- ===== src/SoftEther/Pack/Codec.antt =====
-- internal/softether/pack.go: `marshal` and `unmarshalPack`. Writing to a bytes.Buffer cannot fail.
-- A reader is a function of the bytes left.
use lab_remote_go.Common.{
  not, ◌*◌, ℕ, zero, suc, ◌+◌, ◌-◌, ◌^◌, Bool, ◌||◌, List, [], ◌∷◌, ◌++◌, Option, none, some, Bytes,
  put_u32, put_u64, get_u32, read_full, length, ltb, ◌==◌, if◌then◌else◌,
}
use lab_remote_go.Common.Results.{Result, ok, err, fail_if, ◌>>=◌, ◌>>◌}
use lab_remote_go.SoftEther.Pack.{
  PackValue, PackElement, Pack, pack_int, pack_data, pack_string, pack_unicode_string, pack_int64,
  max_pack_elements, max_pack_values, max_pack_value, int_value, int64_value, data_value,
  text_value,
}

pub data PackError : Type 0 where
  too_many_elements bad_element data_too_large string_too_long : PackError
  count_exceeded bad_value_count trailing_data bad_name_length value_too_long eof : PackError
  unsupported_kind : ℕ → PackError

-- marshal

unfoldable pub write_pack_string : Bytes → Bytes
write_pack_string value = put_u32 (length value + 1) ++ value

abbrev pub sized : PackError → Bytes → Result PackError Bytes
sized e content =
    if ltb max_pack_value (length content) then err e else ok (put_u32 (length content) ++ content)

unfoldable pub write_pack_value : ℕ → PackValue → Result PackError Bytes
write_pack_value kind value =
    if kind == pack_int
    then ok (put_u32 value.integer)
    else if kind == pack_int64
    then ok (put_u64 value.integer64)
    else if kind == pack_data
    then sized data_too_large value.content
    else if kind == pack_string
    then sized string_too_long value.text
    else if kind == pack_unicode_string
    then sized string_too_long (value.text ++ (0 ∷ []))
    else err (unsupported_kind kind)

unfoldable pub write_values : ℕ → List PackValue → Result PackError Bytes
write_values kind [] = ok []
write_values kind (value ∷ rest) = do
  written ← write_pack_value kind value
  more ← write_values kind rest
  ok (written ++ more)

abbrev pub element_invalid : PackElement → Bool
element_invalid e =
    length e.name == 0
    || ltb 63 (length e.name)
    || length e.values == 0
    || ltb max_pack_values (length e.values)

unfoldable pub write_element : PackElement → Result PackError Bytes
write_element e = do
  fail_if (element_invalid e) bad_element
  values ← write_values e.kind e.values
  ok (write_pack_string e.name ++ (put_u32 e.kind ++ (put_u32 (length e.values) ++ values)))

unfoldable pub write_elements : List PackElement → Result PackError Bytes
write_elements [] = ok []
write_elements (e ∷ rest) = do
  written ← write_element e
  more ← write_elements rest
  ok (written ++ more)

unfoldable pub marshal : Pack → Result PackError Bytes
marshal p = do
  fail_if (ltb max_pack_elements (length p.elements)) too_many_elements
  body ← write_elements p.elements
  ok (put_u32 (length p.elements) ++ body)

-- unmarshal

abbrev pub Reader {ℓ} : Type ℓ → Type ℓ
Reader A = Bytes → Result PackError (A × Bytes)

abbrev pub or_eof {ℓ} : {A : Type ℓ} → Option A → Result PackError A
or_eof none = err eof
or_eof (some a) = ok a

unfoldable pub read_u32 : Reader ℕ
read_u32 src = or_eof (get_u32 src)

unfoldable pub read_u64 : Reader ℕ
read_u64 src = do (hi, src) ← read_u32 src; (lo, src) ← read_u32 src; ok (hi * 2 ^ 32 + lo, src)

unfoldable pub read_bytes : ℕ → Reader Bytes
read_bytes n src = or_eof (read_full n src)

unfoldable pub read_pack_string : Reader Bytes
read_pack_string src = do
  (size, src) ← read_u32 src
  fail_if (size == 0 || ltb 64 size) bad_name_length
  read_bytes (size - 1) src

-- `strings.TrimSuffix(text, "\x00")`
unfoldable pub trim_nul : Bytes → Bytes
trim_nul [] = []
trim_nul (c ∷ []) = if c == 0 then [] else c ∷ []
trim_nul (c ∷ d ∷ s) = c ∷ trim_nul (d ∷ s)

-- the cases of `packData`, `packString` and `packUnicodeString`
unfoldable pub read_sized : ℕ → Reader PackValue
read_sized kind src = do
  (size, src) ← read_u32 src
  fail_if (ltb max_pack_value size) value_too_long
  (content, src) ← read_bytes size src
  ok (if kind == pack_data then data_value content else text_value (trim_nul content), src)

unfoldable pub read_pack_value : ℕ → Reader PackValue
read_pack_value kind src =
    if kind == pack_int
    then (do (n, src) ← read_u32 src; ok (int_value n, src))
    else if kind == pack_int64
    then (do (n, src) ← read_u64 src; ok (int64_value n, src))
    else if kind == pack_data || kind == pack_string || kind == pack_unicode_string
    then read_sized kind src
    else err (unsupported_kind kind)

unfoldable pub read_values : ℕ → ℕ → Reader (List PackValue)
read_values zero kind src = ok ([], src)
read_values (suc count) kind src = do
  (value, src) ← read_pack_value kind src
  (rest, src) ← read_values count kind src
  ok (value ∷ rest, src)

unfoldable pub read_element : Reader PackElement
read_element src = do
  (name, src) ← read_pack_string src
  (kind, src) ← read_u32 src
  (value_count, src) ← read_u32 src
  fail_if (value_count == 0 || ltb max_pack_values value_count) bad_value_count
  (values, src) ← read_values value_count kind src
  ok (record { name = name; kind = kind; values = values }, src)

unfoldable pub read_elements : ℕ → Reader (List PackElement)
read_elements zero src = ok ([], src)
read_elements (suc count) src = do
  (e, src) ← read_element src
  (rest, src) ← read_elements count src
  ok (e ∷ rest, src)

unfoldable pub unmarshal_pack : Bytes → Result PackError Pack
unmarshal_pack content = do
  (count, src) ← read_u32 content
  fail_if (ltb max_pack_elements count) count_exceeded
  (elements, src) ← read_elements count src
  fail_if (not (length src == 0)) trailing_data
  ok (record { elements = elements })
