-- ===== src/Ssh/Sftp.antt =====
-- The SFTP client as internal/sshclient uses it: github.com/pkg/sftp and the server behind it are a
-- parameter, a state with one function for each call. `IsLawful` is what SFTP says of the calls.
use lab_remote_go.Common.{
  ℕ, ◌<◌, max, ◌≡◌, ◌≢◌, ◌⊎◌, Bool, true, false, List, [], ◌∷◌, Option, none, some, length,
}
use lab_remote_go.Common.Results.{Result, err, ok}
use lab_remote_go.Common.Texts.{Text, member}
use lab_remote_go.Common.Paths.{slash}

-- the type of a file, by its mode
pub data FileKind : Type 0 where
  regular directory symlink special : FileKind

-- What stands at a path: the first `size` of `bytes` are its contents.
pub record Node : Type 0 where
  pub kind : FileKind
  pub mode : ℕ
  pub size : ℕ
  pub bytes : ℕ → ℕ

-- what `os.IsNotExist` and `FxCode` tell apart
pub data SftpError : Type 0 where
  not_exist op_unsupported failure : SftpError

-- `Call A` is one request, with its answer and what it does to the server.
abbrev pub Call : Type 0 → Type 0 → Type 0
Call S A = S → S × Result SftpError A

-- Calls on an open file name the path it was opened at; `write_bytes p f end` stands for the `WriteAt`
-- calls of a transfer, which leave `f` and reach up to `end`.
pub record Sftp : Type 1 where
  pub Server : Type 0
  pub node : Server → Text → Option Node
  pub getwd : Call Server Text
  pub lstat : Text → Call Server Node
  pub stat : Text → Call Server Node
  pub real_path : Text → Call Server Text
  pub mkdir_all : Text → Call Server (Unit {0})
  pub read_dir : Text → Call Server (List (Text × FileKind))
  pub remove : Text → Call Server (Unit {0})
  pub open_file : Text → Bool → Call Server (Unit {0})
  pub seek : Text → ℕ → Call Server (Unit {0})
  pub write_bytes : Text → (ℕ → ℕ) → ℕ → Server → Server
  pub truncate : Text → ℕ → Call Server (Unit {0})
  pub sync : Text → Call Server (Unit {0})
  pub close : Text → Call Server (Unit {0})
  pub chmod : Text → ℕ → Call Server (Unit {0})
  pub chtimes : Text → ℕ → Call Server (Unit {0})
  pub posix_rename : Text → Text → Call Server (Unit {0})
  pub rename : Text → Text → Call Server (Unit {0})

-- no link and no directory: a regular file or nothing
abbrev pub IsPlain : Option Node → Type 0
IsPlain none = Unit {0}
IsPlain (some n) = n.kind ≡ regular

-- a regular file with these contents
abbrev pub HasBytes : (ℕ → ℕ) → ℕ → Option Node → Type 0
HasBytes f size none = ⊥
HasBytes f size (some n) =
    (n.kind ≡ regular) × (n.size ≡ size) × ((p : ℕ) → p < size → n.bytes p ≡ f p)

-- the names of a directory's entries
abbrev pub NoSlash : {A : Type 0} → List (Text × A) → Type 0
NoSlash [] = Unit
NoSlash (entry ∷ rest) = (member slash entry.0 ≡ false) × NoSlash rest

-- A call's failure may leave what was asked for done or undone; it does nothing else.
pub record IsLawful (c : Sftp) : Type 0 where
  pub lstat_same : (p q : Text) (s : c.Server) → c.node (c.lstat p s).0 q ≡ c.node s q
  pub lstat_found :
      (p : Text) (s : c.Server) (n : Node)
      → (c.lstat p s).1 ≡ ok n
      → c.node (c.lstat p s).0 p ≡ some n
  pub lstat_missing :
      (p : Text) (s : c.Server) → (c.lstat p s).1 ≡ err not_exist → c.node (c.lstat p s).0 p ≡ none
  pub read_dir_same : (p q : Text) (s : c.Server) → c.node (c.read_dir p s).0 q ≡ c.node s q
  pub read_dir_names :
      (p : Text) (s : c.Server) (entries : List (Text × FileKind))
      → (c.read_dir p s).1 ≡ ok entries
      → NoSlash entries
  pub seek_same : (p q : Text) (k : ℕ) (s : c.Server) → c.node (c.seek p k s).0 q ≡ c.node s q
  pub sync_same : (p q : Text) (s : c.Server) → c.node (c.sync p s).0 q ≡ c.node s q
  pub close_same : (p q : Text) (s : c.Server) → c.node (c.close p s).0 q ≡ c.node s q
  -- only the directory and its parents are made
  pub mkdir_all_other :
      (p q : Text) (s : c.Server) → length p < length q → c.node (c.mkdir_all p s).0 q ≡ c.node s q
  -- and nothing that is there is replaced
  pub mkdir_all_found :
      (p q : Text) (s : c.Server) (n : Node)
      → c.node s q ≡ some n
      → c.node (c.mkdir_all p s).0 q ≡ some n
  pub remove_other : (p q : Text) (s : c.Server) → q ≢ p → c.node (c.remove p s).0 q ≡ c.node s q
  pub remove_self :
      (p : Text) (s : c.Server)
      → (c.node (c.remove p s).0 p ≡ c.node s p) ⊎ (c.node (c.remove p s).0 p ≡ none)
  pub remove_ok :
      (p : Text) (s : c.Server) → (c.remove p s).1 ≡ ok tt → c.node (c.remove p s).0 p ≡ none
  pub open_other :
      (p q : Text) (cut : Bool) (s : c.Server)
      → q ≢ p
      → IsPlain (c.node s p)
      → c.node (c.open_file p cut s).0 q ≡ c.node s q
  pub open_cut :
      (p : Text) (s : c.Server)
      → IsPlain (c.node s p)
      → (c.open_file p true s).1 ≡ ok tt
      → HasBytes (λ k. 0) 0 (c.node (c.open_file p true s).0 p)
  pub open_found :
      (p : Text) (s : c.Server) (n : Node)
      → c.node s p ≡ some n
      → n.kind ≡ regular
      → (c.open_file p false s).1 ≡ ok tt
      → c.node (c.open_file p false s).0 p ≡ some n
  pub write_other :
      (p q : Text) (f : ℕ → ℕ) (end : ℕ) (s : c.Server)
      → q ≢ p
      → IsPlain (c.node s p)
      → c.node (c.write_bytes p f end s) q ≡ c.node s q
  pub write_self :
      (p : Text) (f : ℕ → ℕ) (end : ℕ) (s : c.Server) (n : Node)
      → c.node s p ≡ some n
      → n.kind ≡ regular
      → c.node (c.write_bytes p f end s) p ≡ some (record n { size = max n.size end; bytes = f })
  pub truncate_other :
      (p q : Text) (k : ℕ) (s : c.Server)
      → q ≢ p
      → IsPlain (c.node s p)
      → c.node (c.truncate p k s).0 q ≡ c.node s q
  pub chmod_other :
      (p q : Text) (mode : ℕ) (s : c.Server)
      → q ≢ p
      → IsPlain (c.node s p)
      → c.node (c.chmod p mode s).0 q ≡ c.node s q
  pub chmod_self :
      (p : Text) (mode : ℕ) (s : c.Server) (f : ℕ → ℕ) (size : ℕ)
      → HasBytes f size (c.node s p)
      → HasBytes f size (c.node (c.chmod p mode s).0 p)
  pub chtimes_other :
      (p q : Text) (time : ℕ) (s : c.Server)
      → q ≢ p
      → IsPlain (c.node s p)
      → c.node (c.chtimes p time s).0 q ≡ c.node s q
  pub chtimes_self :
      (p : Text) (time : ℕ) (s : c.Server) (f : ℕ → ℕ) (size : ℕ)
      → HasBytes f size (c.node s p)
      → HasBytes f size (c.node (c.chtimes p time s).0 p)
  -- replaces what stands at the new name, at once
  pub posix_rename_other :
      (p r q : Text) (s : c.Server) → q ≢ p → q ≢ r → c.node (c.posix_rename p r s).0 q ≡ c.node s q
  pub posix_rename_self :
      (p r : Text) (s : c.Server)
      → p ≢ r
      → (c.node (c.posix_rename p r s).0 r ≡ c.node s r)
          × (c.node (c.posix_rename p r s).0 p ≡ c.node s p)
        ⊎ (c.node (c.posix_rename p r s).0 r ≡ c.node s p)
          × (c.node (c.posix_rename p r s).0 p ≡ none)
  pub posix_rename_ok :
      (p r : Text) (s : c.Server)
      → p ≢ r
      → (c.posix_rename p r s).1 ≡ ok tt
      → c.node (c.posix_rename p r s).0 r ≡ c.node s p
  -- does not replace what stands at the new name
  pub rename_other :
      (p r q : Text) (s : c.Server) → q ≢ p → q ≢ r → c.node (c.rename p r s).0 q ≡ c.node s q
  pub rename_self :
      (p r : Text) (s : c.Server)
      → p ≢ r
      → (c.node (c.rename p r s).0 r ≡ c.node s r)
        ⊎ ((c.node s r ≡ none) × (c.node (c.rename p r s).0 r ≡ c.node s p))
  pub rename_ok :
      (p r : Text) (s : c.Server)
      → p ≢ r
      → (c.rename p r s).1 ≡ ok tt
      → (n : Node) × (c.node s p ≡ some n) × (c.node (c.rename p r s).0 r ≡ some n)
