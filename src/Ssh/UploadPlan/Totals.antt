-- ===== src/Ssh/UploadPlan/Totals.antt =====
-- What a plan that was made contains.
use Prim.Native.String.{String}
use lab_remote_go.Common.{
  ℕ, ◌+◌, ◌-◌, ◌≤◌, ◌≡◌, refl, sym, ◌∙◌, ap, Bool, true, false, ◌&&◌, ◌||◌, List, [], ◌∷◌, ◌++◌,
  if◌then◌else◌, ltb, arith, append_assoc, append-nil, if-rule,
}
use lab_remote_go.Common.Maps.{str_eq, str_eq_iff, str_eq_refl}
use lab_remote_go.Common.Results.{Result, err, ok, >>=-ok}
use mathlib.Core.Path.{subst}
use lab_remote_go.Model.Errors.{AppError, new_app_error}
use lab_remote_go.Ssh.UploadPlan.{
  UploadEntry, UploadPlan, empty_plan, max_int64, mark_seen, add_file, add_new, add_upload_entry,
  add_entries, Planning,
}

-- the files, or the directories, of a scan in its order, and the size of its files
abbrev pub of_kind : Bool → List UploadEntry → List UploadEntry
of_kind directories [] = []
of_kind true (e ∷ es) = let rest = of_kind true es in if e.is_directory then e ∷ rest else rest
of_kind false (e ∷ es) = let rest = of_kind false es in if e.is_directory then rest else e ∷ rest

abbrev pub file_bytes : List UploadEntry → ℕ
file_bytes [] = 0
file_bytes (e ∷ es) = (if e.is_directory then 0 else e.size) + file_bytes es

abbrev pub has_path : String → List UploadEntry → Bool
has_path path [] = false
has_path path (e ∷ es) = str_eq path e.relative_path || has_path path es

abbrev pub DistinctPaths : List UploadEntry → Type 0
DistinctPaths [] = Unit {0}
DistinctPaths (e ∷ es) = (has_path e.relative_path es ≡ false) × DistinctPaths es

-- every size is an int64
abbrev pub SmallSizes : List UploadEntry → Type 0
SmallSizes [] = Unit {0}
SmallSizes (e ∷ es) = (e.size ≤ max_int64) × SmallSizes es

-- What one entry that is not refused does.
record Added (e : UploadEntry) (plan : UploadPlan) (seen : String → Bool)
    (r : UploadPlan × (String → Bool)) : Type 0 where
  fresh : seen e.relative_path ≡ false
  marked : (p : String) → (str_eq e.relative_path p || seen p) ≡ true → r.1 p ≡ true
  files : r.0.files ≡ plan.files ++ of_kind false (e ∷ [])
  directories : r.0.directories ≡ plan.directories ++ of_kind true (e ∷ [])
  total : r.0.total_bytes ≡ plan.total_bytes + file_bytes (e ∷ [])
  bounded : e.size ≤ max_int64 → plan.total_bytes ≤ max_int64 → r.0.total_bytes ≤ max_int64

abbrev Leads :
    UploadEntry → UploadPlan → (String → Bool) → UploadPlan × (String → Bool) → Planning → Type 0
Leads e plan seen r m = m ≡ ok r → Added e plan seen r

abbrev conflict : AppError
conflict = new_app_error "UPLOAD_DESTINATION_CONFLICT" "file_upload" false

abbrev too_large : AppError
too_large = new_app_error "UPLOAD_TOO_LARGE" "file_upload" false

ok-inj : {A : Type 0} {a b : A} → Path (Result AppError A) (ok a) (ok b) → a ≡ b
ok-inj h = cc

directory-Added :
    (e : UploadEntry) (plan : UploadPlan) (seen : String → Bool)
    → seen e.relative_path ≡ false
    → e.is_directory ≡ true
    → Added e plan seen
        (record plan { directories = plan.directories ++ (e ∷ []) }, mark_seen e.relative_path seen)
directory-Added e plan seen fresh dir = record {
  fresh = fresh;
  marked = λ p q. q;
  files = ground (arith, append-nil plan.files);
  directories = ground arith;
  total = ground arith;
  bounded = λ small le. le;
}

file-Added :
    (e : UploadEntry) (plan : UploadPlan) (seen : String → Bool)
    → seen e.relative_path ≡ false
    → e.is_directory ≡ false
    → (ltb 0 e.size && ltb (max_int64 - e.size) plan.total_bytes) ≡ false
    → Added e plan seen (
      record plan { total_bytes = plan.total_bytes + e.size; files = plan.files ++ (e ∷ []) },
      mark_seen e.relative_path seen,
    )
file-Added e plan seen fresh file fits = record {
  fresh = fresh;
  marked = λ p q. q;
  files = ground arith;
  directories = ground (arith, append-nil plan.directories);
  total = ground arith;
  bounded = λ small le. ground arith;
}

add_upload_entry-Added :
    (e : UploadEntry) (plan : UploadPlan) (seen : String → Bool) (r : UploadPlan × (String → Bool))
    → add_upload_entry e plan seen ≡ ok r
    → Added e plan seen r
unfolding add_upload_entry
add_upload_entry-Added e plan seen r h =
    let marks = mark_seen e.relative_path seen in
    if-rule (Leads e plan seen r) (seen e.relative_path) (err conflict) (add_new e plan marks)
      (λ known q. absurd (cc))
      (λ fresh.
        if-rule (Leads e plan seen r) e.is_directory
          (ok (record plan { directories = plan.directories ++ (e ∷ []) }, marks))
          (add_file e plan marks)
          (λ dir q. subst (Added e plan seen) (ok-inj q) (directory-Added e plan seen fresh dir))
          (λ file.
            if-rule (Leads e plan seen r)
              (ltb 0 e.size && ltb (max_int64 - e.size) plan.total_bytes) (err too_large) _
              (λ over q. absurd (cc))
              (λ fits q.
                subst (Added e plan seen) (ok-inj q) (file-Added e plan seen fresh file fits))))
      h

later-fresh :
    (es : List UploadEntry) (plan : UploadPlan) (seen : String → Bool)
    (r : UploadPlan × (String → Bool)) (p : String)
    → add_entries es plan seen ≡ ok r
    → seen p ≡ true
    → has_path p es ≡ false
unfolding add_entries
later-fresh [] plan seen r p h known = refl
later-fresh (e ∷ es) plan seen r p h known =
    let (mid, first, rest) =
      >>=-ok (add_upload_entry e plan seen)
        (λ (r : UploadPlan × (String → Bool)). add_entries es r.0 r.1) h in
    let a = add_upload_entry-Added e plan seen mid first in
    let later = later-fresh es mid.0 mid.1 r p rest (a.marked p (ground (arith, known))) in
    ground (arith, later, a.fresh, known, str_eq_iff p e.relative_path)

of_kind-cons :
    (directories : Bool) (e : UploadEntry) (es xs : List UploadEntry)
    → (xs ++ of_kind directories (e ∷ [])) ++ of_kind directories es
      ≡ xs ++ of_kind directories (e ∷ es)
of_kind-cons true e es xs =
    ground (arith, append_assoc xs (e ∷ []) (of_kind true es), append-nil xs)
of_kind-cons false e es xs =
    ground (arith, append_assoc xs (e ∷ []) (of_kind false es), append-nil xs)

-- A plan whose making ends without an error, on top of another one.
add_entries-onto :
    (es : List UploadEntry) (plan : UploadPlan) (seen : String → Bool)
    (r : UploadPlan × (String → Bool))
    → SmallSizes es
    → plan.total_bytes ≤ max_int64
    → add_entries es plan seen ≡ ok r
    → (r.0.files ≡ plan.files ++ of_kind false es)
      × (r.0.directories ≡ plan.directories ++ of_kind true es)
      × (r.0.total_bytes ≡ plan.total_bytes + file_bytes es)
      × (r.0.total_bytes ≤ max_int64)
      × DistinctPaths es
unfolding add_entries
add_entries-onto [] plan seen r small le h =
    subst
      (λ (q : UploadPlan × (String → Bool)).
        (q.0.files ≡ plan.files ++ [])
        × (q.0.directories ≡ plan.directories ++ [])
        × (q.0.total_bytes ≡ plan.total_bytes + 0)
        × (q.0.total_bytes ≤ max_int64)
        × Unit {0})
      (ok-inj h)
      (sym (append-nil plan.files), sym (append-nil plan.directories), omega arith, le, tt)
add_entries-onto (e ∷ es) plan seen r small le h =
    let (mid, first, rest) =
      >>=-ok (add_upload_entry e plan seen)
        (λ (r : UploadPlan × (String → Bool)). add_entries es r.0 r.1) h in
    let a = add_upload_entry-Added e plan seen mid first in
    let (files, directories, total, bound, apart) =
      add_entries-onto es mid.0 mid.1 r small.1 (a.bounded small.0 le) rest in
    let own =
      later-fresh es mid.0 mid.1 r e.relative_path rest
        (a.marked e.relative_path (ground (arith, str_eq_refl e.relative_path))) in
    (
      files ∙ ap (λ t. t ++ of_kind false es) a.files ∙ of_kind-cons false e es plan.files,
      directories
          ∙ ap (λ t. t ++ of_kind true es) a.directories
          ∙ of_kind-cons true e es plan.directories,
      ground (arith, total, a.total),
      bound,
      (own, apart),
    )

-- When no entry of a scan, whose sizes are of type int64, is refused, the plan holds the files and the
-- directories of the scan, each in its order; its total is the size of its files and fits an int64; and
-- no two entries of the scan have one path.
pub add_entries-total :
    (es : List UploadEntry) (r : UploadPlan × (String → Bool))
    → SmallSizes es
    → add_entries es empty_plan (λ p. false) ≡ ok r
    → (r.0.files ≡ of_kind false es)
      × (r.0.directories ≡ of_kind true es)
      × (r.0.total_bytes ≡ file_bytes es)
      × (r.0.total_bytes ≤ max_int64)
      × DistinctPaths es
add_entries-total es r small h =
    let (files, directories, total, bound, apart) =
      add_entries-onto es empty_plan (λ p. false) r small (omega arith) h in
    (files, directories, omega (arith, total), bound, apart)
