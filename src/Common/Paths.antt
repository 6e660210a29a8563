-- ===== src/Common/Paths.antt =====
-- Slash-separated paths, as Go's package `path` reads them, and the bytes of a text.
use Prim.Native.Nat.{ℕ, zero, suc, ◌+◌, ◌/◌, ◌%◌}
use Prim.Native.String.{String}
use Prim.Native.Char.{code}
use mathlib.Core.Bool.{Bool, true, false, ◌&&◌, ◌||◌}
use mathlib.Core.List.{List, [], ◌∷◌, ◌++◌}
use lab_remote_go.Common.Tests.{◌==◌, ltb, if◌then◌else◌}
use lab_remote_go.Common.ByteStrings.{Bytes}
use lab_remote_go.Common.Texts.{Text, split_on, text_eq, is_empty, first_is}

abbrev pub codes : String → Text
codes String.[] = []
codes (String.◌∷◌ c s) = code c ∷ codes s

abbrev utf8_code : ℕ → Bytes
utf8_code c =
    if ltb c 0x80
    then c ∷ []
    else if ltb c 0x800
    then (0xc0 + c / 64) ∷ (0x80 + c % 64) ∷ []
    else if ltb c 0x10000
    then (0xe0 + c / 4096) ∷ (0x80 + c / 64 % 64) ∷ (0x80 + c % 64) ∷ []
    else (0xf0 + c / 262144) ∷ (0x80 + c / 4096 % 64) ∷ (0x80 + c / 64 % 64) ∷ (0x80 + c % 64) ∷ []

-- `[]byte(s)`
abbrev pub utf8 : Text → Bytes
utf8 [] = []
utf8 (c ∷ s) = utf8_code c ++ utf8 s

abbrev hex_digit : ℕ → ℕ
hex_digit d = if ltb d 10 then 48 + d else 87 + d

-- `%x`
abbrev pub hex : Bytes → Text
hex [] = []
hex (b ∷ bs) = hex_digit (b / 16) ∷ hex_digit (b % 16) ∷ hex bs

-- `%d`, on fuel: the digits of `n`, before `rest`
abbrev pub decimal_on : ℕ → ℕ → Text → Text
decimal_on zero n rest = rest
decimal_on (suc fuel) n rest =
    let more = decimal_on fuel (n / 10) ((48 + n % 10) ∷ rest) in
    if ltb n 10 then (48 + n) ∷ rest else more

-- of a number that an `int64` holds
abbrev pub decimal_text : ℕ → Text
decimal_text n = decimal_on 20 n []

-- `strings.HasPrefix`
abbrev pub has_prefix : Text → Text → Bool
has_prefix s [] = true
has_prefix [] (d ∷ t) = false
has_prefix (c ∷ s) (d ∷ t) = c == d && has_prefix s t

-- `strings.TrimPrefix`
abbrev strip_prefix : Text → Text → Text
strip_prefix s [] = s
strip_prefix [] (d ∷ t) = []
strip_prefix (c ∷ s) (d ∷ t) = strip_prefix s t

abbrev pub trim_prefix : Text → Text → Text
trim_prefix s t = if has_prefix s t then strip_prefix s t else s

abbrev pub slash : ℕ
slash = 47

-- `path.IsAbs`
abbrev pub is_abs : Text → Bool
is_abs s = first_is slash s

-- The elements that are kept, the last one first: `..` takes the one before it away, is dropped below
-- a root, and else stays.
abbrev parent_of : Bool → List Text → List Text
parent_of rooted [] = if rooted then [] else codes ".." ∷ []
parent_of rooted (s ∷ kept) = if text_eq s (codes "..") then codes ".." ∷ s ∷ kept else kept

abbrev clean_elements : Bool → List Text → List Text → List Text
clean_elements rooted [] kept = kept
clean_elements rooted (s ∷ rest) kept = clean_elements rooted rest (
    if is_empty s || text_eq s (codes ".")
    then kept
    else if text_eq s (codes "..")
    then parent_of rooted kept
    else s ∷ kept)

-- the elements with slashes between them, from the last one first
abbrev joined : List Text → Text → Text
joined [] rest = rest
joined (s ∷ []) rest = s ++ rest
joined (s ∷ t ∷ kept) rest = joined (t ∷ kept) (slash ∷ (s ++ rest))

abbrev or_dot : Text → Text
or_dot s = if is_empty s then codes "." else s

-- `path.Clean`
unfoldable pub path_clean : Text → Text
path_clean s =
    let rooted = is_abs s in
    let elements = joined (clean_elements rooted (split_on slash s) []) [] in
    if rooted then slash ∷ elements else or_dot elements

-- `path.Join` of two elements
unfoldable pub path_join : Text → Text → Text
unfolding path_clean
path_join [] [] = []
path_join [] (d ∷ t) = path_clean (d ∷ t)
path_join (c ∷ s) [] = path_clean (c ∷ s)
path_join (c ∷ s) (d ∷ t) = path_clean (c ∷ (s ++ slash ∷ d ∷ t))

-- up to the last slash, with it
abbrev pub up_to_slash : Text → Text
up_to_slash [] = []
up_to_slash (c ∷ s) =
    let rest = up_to_slash s in
    if is_empty rest then (if c == slash then c ∷ [] else []) else c ∷ rest

-- `path.Dir`
unfoldable pub path_dir : Text → Text
unfolding path_clean
path_dir s = path_clean (up_to_slash s)
