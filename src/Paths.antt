-- ===== src/Paths.antt =====
-- Directories and paths of src/knd_utils.c.
pub mod Laws
mod Tests
use knowdy.Err.{Err}
use knowdy.Base.{
  ℕ, zero, suc, ◌≤◌, ◌≡◌, List, [], ◌∷◌, ◌++◌, Bool, true, false, ◌||◌, Option, none, some, leb,
  ltb, ◌==◌, if◌then◌else◌, length, take, replicate,
}
use knowdy.Set.Walks.{and_then}
use knowdy.Utils.Ids.{id_size}
use knowdy.Output.{Output, write}

-- `KND_TEMP_BUF_SIZE`
abbrev pub temp_buf_size : ℕ
temp_buf_size = 1024

-- `KND_PATH_SIZE`
abbrev pub path_size : ℕ
path_size = 1024

-- What `stat` finds, and how `mkdir` ends.
pub data FileKind : Type 0 where
  missing dir other : FileKind

pub data Made : Type 0 where
  made exists failed : Made

-- The system calls, on the state of a file system.
pub record System {ℓ} (S : Type ℓ) : Type ℓ where
  pub stat : List ℕ → S → FileKind
  pub make : List ℕ → S → Made × S

-- The end of `knd_mkdir` after the system call `mkdir`.
unfoldable pub after_make {ℓ} : {S : Type ℓ} → Made × S → Err × S
after_make (Made.failed, s) = (Err.io_fail, s)
after_make (_, s) = (Err.ok, s)

-- `knd_mkdir`
unfoldable pub mkdir {ℓ} : {S : Type ℓ} → System S → List ℕ → S → Err × S
mkdir sys path s = elim (sys.stat path s) [
  | missing ↦ after_make (sys.make path s)
  | other ↦ (Err.fail, s)
  | dir ↦ (Err.ok, s)
]

-- The loop of `knd_mkpath`: `make` is `knd_mkdir`, `buf` what has been copied.
unfoldable pub mkpath_loop {ℓ} :
    {S : Type ℓ} → (List ℕ → S → Err × S) → List ℕ → List ℕ → S → Err × S
mkpath_loop make buf [] s = (Err.ok, s)
mkpath_loop make [] (c ∷ tail) s = mkpath_loop make (c ∷ []) tail s
mkpath_loop make (b ∷ bs) (c ∷ tail) s =
    let rest = mkpath_loop make ((b ∷ bs) ++ (c ∷ [])) tail in
    if c == 47 then and_then (make (b ∷ bs) s) rest else rest s

-- `knd_mkpath`
unfoldable pub mkpath {ℓ} : {S : Type ℓ} → System S → List ℕ → Bool → S → Err × S
mkpath sys path has_filename s =
    if leb temp_buf_size (length path) || (length path == 0)
    then (Err.limit, s)
    else and_then (mkpath_loop (mkdir sys) [] path s)
        (λ s'. if has_filename then (Err.ok, s') else mkdir sys path s')

-- A slash before each digit of an id.
abbrev pub folders : List ℕ → List ℕ
folders [] = []
folders (c ∷ id) = 47 ∷ c ∷ folders id

-- `knd_make_id_path`, the text that it leaves in the buffer: `none` is a NULL, and an id with less
-- than `KND_ID_SIZE` bytes is read behind its end.
unfoldable pub make_id_path : Option (List ℕ) → List ℕ → Option (List ℕ) → Option (List ℕ)
make_id_path path id filename =
    if ltb (length id) id_size
    then none
    else some (
        (elim path [ none ↦ [] | some p ↦ p ])
        ++ (folders (take id_size id) ++ (elim filename [ none ↦ [] | some f ↦ 47 ∷ f ])))

-- `knd_print_offset`; more spaces than its buffer takes overrun it.
unfoldable pub print_offset : Output → ℕ → Option (Err × Output)
print_offset out num_spaces =
    if ltb path_size num_spaces then none else some (write out (replicate num_spaces 32))
