-- ===== src/SoftEther/Pack.antt =====
-- internal/softether/pack.go: the PACK container of the SoftEther handshake, its elements and
-- lookups. Strings and data are lists of bytes, integers are numbers below 2^32 or 2^64.
pub mod Codec
pub mod RoundTrip
pub mod Limits
pub mod Lookup
mod Tests
use lab_remote_go.Common.{
  ℕ, Bool, true, false, ◌+◌, ◌-◌, ◌*◌, ◌≡◌, not, ◌&&◌, ◌||◌, List, [], ◌∷◌, ◌++◌, map, Option, none,
  some, Bytes, bytes_eq, length, get_elem?, ltb, leb, ◌==◌, if◌then◌else◌,
}

pub record PackValue : Type 0 where
  pub integer : ℕ
  pub integer64 : ℕ
  pub content : Bytes
  pub text : Bytes

pub record PackElement : Type 0 where
  pub name : Bytes
  pub kind : ℕ
  pub values : List PackValue

pub record Pack : Type 0 where
  pub elements : List PackElement

abbrev pub pack_int : ℕ
pack_int = 0

abbrev pub pack_data : ℕ
pack_data = 1

abbrev pub pack_string : ℕ
pack_string = 2

abbrev pub pack_unicode_string : ℕ
pack_unicode_string = 3

abbrev pub pack_int64 : ℕ
pack_int64 = 4

abbrev pub max_pack_elements : ℕ
max_pack_elements = 4096

abbrev pub max_pack_values : ℕ
max_pack_values = 4096

abbrev pub max_pack_value : ℕ
max_pack_value = 16 * 1024 * 1024

-- the zero value of `packValue`, and a literal with one field set
abbrev pub zero_value : PackValue
zero_value = record { integer = 0; integer64 = 0; content = []; text = [] }

abbrev pub int_value : ℕ → PackValue
int_value n = record zero_value { integer = n }

abbrev pub int64_value : ℕ → PackValue
int64_value n = record zero_value { integer64 = n }

abbrev pub data_value : Bytes → PackValue
data_value bs = record zero_value { content = bs }

abbrev pub text_value : Bytes → PackValue
text_value s = record zero_value { text = s }

-- `strings.EqualFold`, exact where both names are ASCII, as all names in the source are
abbrev pub to_lower : ℕ → ℕ
to_lower c = if leb b'A' c && leb c b'Z' then c + 32 else c

unfoldable pub equal_fold : Bytes → Bytes → Bool
equal_fold s t = bytes_eq (map to_lower s) (map to_lower t)

unfoldable pub has_name : Bytes → List PackElement → Bool
has_name name [] = false
has_name name (existing ∷ rest) = equal_fold existing.name name || has_name name rest

unfoldable pub add_element : Pack → PackElement → Pack
add_element p value =
    if has_name value.name p.elements then p else record { elements = p.elements ++ (value ∷ []) }

unfoldable pub add_int : Pack → Bytes → ℕ → Pack
add_int p name value =
    add_element p (record { name = name; kind = pack_int; values = int_value value ∷ [] })

unfoldable pub add_bool : Pack → Bytes → Bool → Pack
add_bool p name value = if value then add_int p name 1 else add_int p name 0

unfoldable pub add_string : Pack → Bytes → Bytes → Pack
add_string p name value =
    add_element p (record { name = name; kind = pack_string; values = text_value value ∷ [] })

unfoldable pub add_strings : Pack → Bytes → List Bytes → Pack
add_strings p name values =
    add_element p (record { name = name; kind = pack_string; values = map text_value values })

unfoldable pub add_data : Pack → Bytes → Bytes → Pack
add_data p name value =
    add_element p (record { name = name; kind = pack_data; values = data_value value ∷ [] })

unfoldable pub find_element : Bytes → ℕ → List PackElement → Option PackElement
find_element name kind [] = none
find_element name kind (value ∷ rest) =
    if value.kind == kind && equal_fold value.name name
    then some value
    else find_element name kind rest

unfoldable pub element : Pack → Bytes → ℕ → Option PackElement
element p name kind = find_element name kind p.elements

-- the first value, or what the accessor returns without one
abbrev pub first_or {ℓ} : {A : Type ℓ} → (PackValue → A) → A → List PackValue → A
first_or f d [] = d
first_or f d (v ∷ vs) = f v

unfoldable pub get_int : Pack → Bytes → ℕ
get_int p name = elim (element p name pack_int) [
  | none ↦ 0
  | some value ↦ first_or (λ v. v.integer) 0 value.values
]

unfoldable pub get_bool : Pack → Bytes → Bool
get_bool p name = not (get_int p name == 0)

abbrev pub text_or_empty : Option PackValue → Bytes
text_or_empty none = []
text_or_empty (some v) = v.text

-- the index is an `int`; the callers pass none below 0
unfoldable pub get_string_at : Pack → Bytes → ℕ → Bytes
get_string_at p name index = elim (element p name pack_string) [
  | none ↦ []
  | some value ↦ text_or_empty (get_elem? value.values index)
]

unfoldable pub get_string : Pack → Bytes → Bytes
get_string p name = get_string_at p name 0

unfoldable pub string_count : Pack → Bytes → ℕ
string_count p name = elim (element p name pack_string) [
  | none ↦ 0
  | some value ↦ length value.values
]

unfoldable pub get_data : Pack → Bytes → Bytes
get_data p name = elim (element p name pack_data) [
  | none ↦ []
  | some value ↦ first_or (λ v. v.content) [] value.values
]
