-- ===== src/SoftEther/Pack/Lookup.antt =====
-- `addElement` and the accessors: names are unique up to case, and the first writer wins.
use lab_remote_go.Common.{
  ℕ, ◌≡◌, refl, true, false, List, [], ◌∷◌, ◌++◌, some, Bytes, bytes_eq_refl, map, arith,
  Bool-cases, inl, inr,
}
use lab_remote_go.SoftEther.Pack.{
  PackElement, Pack, equal_fold, has_name, add_element, add_int, add_data, find_element, element,
  get_int, get_data, pack_int, pack_data, to_lower, int_value, data_value,
}

pub equal_fold_refl : (s : Bytes) → equal_fold s s ≡ true
unfolding equal_fold
equal_fold_refl s = bytes_eq_refl (map to_lower s)

-- An element added under a new name is the one found under it.
find_element-append :
    (name : Bytes) (kind : ℕ) (es more : List PackElement)
    → has_name name es ≡ false
    → find_element name kind (es ++ more) ≡ find_element name kind more
unfolding find_element has_name
find_element-append name kind [] more h = refl
find_element-append name kind (e ∷ es) more h =
    ground (arith, find_element-append name kind es more)

-- What is found stays found when elements are added behind.
find_element-append_some :
    (name : Bytes) (kind : ℕ) (es more : List PackElement) (e : PackElement)
    → find_element name kind es ≡ some e
    → find_element name kind (es ++ more) ≡ some e
unfolding find_element
find_element-append_some name kind [] more e h = absurd (cc)
find_element-append_some name kind (x ∷ es) more e h =
    ground (arith, find_element-append_some name kind es more e)

-- No addition changes what an accessor has found.
pub element-add_element :
    (p : Pack) (value : PackElement) (name : Bytes) (kind : ℕ) {e : PackElement}
    → element p name kind ≡ some e
    → element (add_element p value) name kind ≡ some e
unfolding element add_element
element-add_element p value name kind {e} h = elim (Bool-cases (has_name value.name p.elements)) [
  | inl taken ↦ simp taken h
  | inr fresh ↦ simp fresh (find_element-append_some name kind p.elements (value ∷ []) e h)
]

element-add_fresh :
    (p : Pack) (e : PackElement)
    → has_name e.name p.elements ≡ false
    → element (add_element p e) e.name e.kind ≡ some e
unfolding element add_element find_element
element-add_fresh p e h =
    ground (arith, find_element-append e.name e.kind p.elements (e ∷ []), equal_fold_refl e.name)

-- An integer added under a new name is read back, whatever is added after it, under the same name
-- in any case of letters too.
pub get_int-add_int :
    (p : Pack) (name : Bytes) (n : ℕ) (later : PackElement)
    → has_name name p.elements ≡ false
    → get_int (add_element (add_int p name n) later) name ≡ n
unfolding get_int add_int
get_int-add_int p name n later h =
    rw
      (get_int, element-add_element (add_element p e) later name pack_int (element-add_fresh p e h))
  where
    e : PackElement
    e = record { name = name; kind = pack_int; values = int_value n ∷ [] }

-- So is data.
pub get_data-add_data :
    (p : Pack) (name bs : Bytes) (later : PackElement)
    → has_name name p.elements ≡ false
    → get_data (add_element (add_data p name bs) later) name ≡ bs
unfolding get_data add_data
get_data-add_data p name bs later h =
    rw (
      get_data,
      element-add_element (add_element p e) later name pack_data (element-add_fresh p e h),
    )
  where
    e : PackElement
    e = record { name = name; kind = pack_data; values = data_value bs ∷ [] }
