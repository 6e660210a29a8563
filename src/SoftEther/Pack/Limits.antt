-- ===== src/SoftEther/Pack/Limits.antt =====
-- What `unmarshalPack` accepts is within the limits that it states, whatever the peer sends.
use lab_remote_go.Common.{
  ap, not, ℕ, zero, suc, ◌-◌, ◌≤◌, ◌<◌, ◌≡◌, refl, ◌||◌, List, [], ◌∷◌, Bytes, read_full, length,
  length-take, ltb, ◌==◌, if◌then◌else◌, arith, Bool-cases, inl, inr,
}
use lab_remote_go.Common.Results.{
  ok, Ensures, >>=-Ensures, fail_if-Ensures, Ensures-elim, Ensures-mono, >>=-Ensures_any,
  if-Ensures,
}
use lab_remote_go.SoftEther.Pack.{
  PackValue, PackElement, Pack, max_pack_elements, max_pack_values, max_pack_value, data_value,
  text_value, pack_int, pack_int64, pack_data, pack_string, pack_unicode_string,
}
use lab_remote_go.SoftEther.Pack.Codec.{
  value_too_long, bad_name_length, bad_value_count, count_exceeded, trailing_data, trim_nul,
  read_u32, read_u64, read_bytes, read_pack_string, read_sized, read_pack_value, read_values,
  read_element, read_elements, unmarshal_pack,
}

pub record ValueFits (v : PackValue) : Type 0 where
  pub content_fits : length v.content ≤ max_pack_value
  pub text_fits : length v.text ≤ max_pack_value

abbrev pub AllFit : List PackValue → Type 0
AllFit [] = Unit {0}
AllFit (v ∷ vs) = ValueFits v × AllFit vs

pub record ElementFits (e : PackElement) : Type 0 where
  pub name_fits : length e.name ≤ 63
  pub some_values : 0 < length e.values
  pub few_values : length e.values ≤ max_pack_values
  pub values_fit : AllFit e.values

abbrev pub AllElementsFit : List PackElement → Type 0
AllElementsFit [] = Unit {0}
AllElementsFit (e ∷ es) = ElementFits e × AllElementsFit es

pub record PackFits (p : Pack) : Type 0 where
  pub few_elements : length p.elements ≤ max_pack_elements
  pub elements_fit : AllElementsFit p.elements

read_bytes-length :
    (n : ℕ) (src : Bytes) → Ensures (λ (r : Bytes × Bytes). length r.0 ≡ n) (read_bytes n src)
unfolding read_bytes read_full
read_bytes-length n src = elim (Bool-cases (ltb (length src) n)) [
  | inl short ↦ rw short tt
  | inr enough ↦ rw enough (ground (arith, length-take n src))
]

length-trim_nul : (s : Bytes) → length (trim_nul s) ≤ length s
unfolding trim_nul
length-trim_nul [] = omega arith
length-trim_nul (c ∷ []) = ground arith
length-trim_nul (c ∷ d ∷ s) = omega (arith, length-trim_nul (d ∷ s))

sized_value-fits :
    (kind : ℕ) (bs : Bytes)
    → length bs ≤ max_pack_value
    → ValueFits (if kind == pack_data then data_value bs else text_value (trim_nul bs))
sized_value-fits kind bs h = ground (arith, length-trim_nul bs)

read_sized-fits :
    (kind : ℕ) (src : Bytes)
    → Ensures (λ (r : PackValue × Bytes). ValueFits r.0) (read_sized kind src)
unfolding read_sized
read_sized-fits kind src = >>=-Ensures_any _ (read_u32 src) _ λ s.
    fail_if-Ensures _ (ltb max_pack_value s.0) value_too_long _ λ small.
      >>=-Ensures (λ r. length r.0 ≡ s.0) _ (read_bytes s.0 s.1) _ (read_bytes-length s.0 s.1)
        λ r n. sized_value-fits kind r.0 (ground arith)

read_pack_value-fits :
    (kind : ℕ) (src : Bytes)
    → Ensures (λ (r : PackValue × Bytes). ValueFits r.0) (read_pack_value kind src)
unfolding read_pack_value
read_pack_value-fits kind src =
    if-Ensures _ (kind == pack_int) _ _ (>>=-Ensures_any _ (read_u32 src) _ λ r. omega arith) (
      if-Ensures _ (kind == pack_int64) _ _ (>>=-Ensures_any _ (read_u64 src) _ λ r. omega arith) (
        if-Ensures _ (kind == pack_data || kind == pack_string || kind == pack_unicode_string) _ _
          (read_sized-fits kind src) tt))

read_values-fit :
    (count kind : ℕ) (src : Bytes)
    → Ensures
        (λ (r : List PackValue × Bytes). (length r.0 ≡ count) × AllFit r.0)
        (read_values count kind src)
unfolding read_values
read_values-fit zero kind src = (refl, tt)
read_values-fit (suc count) kind src =
    >>=-Ensures (λ r. ValueFits r.0) _ (read_pack_value kind src) _ (read_pack_value-fits kind src)
      λ v fits.
        >>=-Ensures (λ r. (length r.0 ≡ count) × AllFit r.0) _ (read_values count kind v.1) _
          (read_values-fit count kind v.1) λ r h. (ap suc h.0, (fits, h.1))

read_pack_string-length :
    (src : Bytes) → Ensures (λ (r : Bytes × Bytes). length r.0 ≤ 63) (read_pack_string src)
unfolding read_pack_string
read_pack_string-length src = >>=-Ensures_any _ (read_u32 src) _ λ s.
    fail_if-Ensures _ (s.0 == 0 || ltb 64 s.0) bad_name_length _ λ small.
      Ensures-mono (λ r. length r.0 ≡ s.0 - 1) (λ r. length r.0 ≤ 63) (read_bytes (s.0 - 1) s.1)
        (read_bytes-length (s.0 - 1) s.1) λ r n. ground arith

read_element-fits :
    (src : Bytes) → Ensures (λ (r : PackElement × Bytes). ElementFits r.0) (read_element src)
unfolding read_element
read_element-fits src =
    >>=-Ensures (λ r. length r.0 ≤ 63) _ (read_pack_string src) _ (read_pack_string-length src)
      λ name short. >>=-Ensures_any _ (read_u32 name.1) _ λ kind.
        >>=-Ensures_any _ (read_u32 kind.1) _ λ count.
          fail_if-Ensures _ (count.0 == 0 || ltb max_pack_values count.0) bad_value_count _
            λ ranged.
              >>=-Ensures (λ r. (length r.0 ≡ count.0) × AllFit r.0) _
                (read_values count.0 kind.0 count.1) _ (read_values-fit count.0 kind.0 count.1)
                λ values h. record {
                  name_fits = short;
                  some_values = ground arith;
                  few_values = ground arith;
                  values_fit = h.1;
                }

read_elements-fit :
    (count : ℕ) (src : Bytes)
    → Ensures
        (λ (r : List PackElement × Bytes). (length r.0 ≡ count) × AllElementsFit r.0)
        (read_elements count src)
unfolding read_elements
read_elements-fit zero src = (refl, tt)
read_elements-fit (suc count) src =
    >>=-Ensures (λ r. ElementFits r.0) _ (read_element src) _ (read_element-fits src)
      λ e fits.
        >>=-Ensures (λ r. (length r.0 ≡ count) × AllElementsFit r.0) _ (read_elements count e.1) _
          (read_elements-fit count e.1) λ r h. (ap suc h.0, (fits, h.1))

unmarshal_pack-Ensures : (content : Bytes) → Ensures PackFits (unmarshal_pack content)
unfolding unmarshal_pack
unmarshal_pack-Ensures content = >>=-Ensures_any _ (read_u32 content) _ λ count.
    fail_if-Ensures _ (ltb max_pack_elements count.0) count_exceeded _ λ few.
      >>=-Ensures (λ r. (length r.0 ≡ count.0) × AllElementsFit r.0) _
        (read_elements count.0 count.1) _ (read_elements-fit count.0 count.1)
        λ r h.
          fail_if-Ensures _ (not (length r.1 == 0)) trailing_data _
            λ done. record { few_elements = ground arith; elements_fit = h.1 }

-- Whatever bytes the peer sends, a pack that `unmarshalPack` accepts has at most 4096 elements, each
-- with a name of at most 63 bytes and 1 to 4096 values, and no value is over 16 MiB.
pub unmarshal_pack-PackFits :
    (content : Bytes) {p : Pack} → unmarshal_pack content ≡ ok p → PackFits p
unmarshal_pack-PackFits content e =
    Ensures-elim PackFits (unmarshal_pack content) (unmarshal_pack-Ensures content) e
