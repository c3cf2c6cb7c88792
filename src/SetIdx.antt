-- ===== src/SetIdx.antt =====
-- Sets of ids as bit masks, src/knd_set_idx.c.
pub mod Masks
pub mod Laws
mod Tests
use knowdy.Err.{Err}
use knowdy.Base.{
  ℕ, zero, suc, ◌^◌, ◌==◌, Bool, true, false, not, Option, none, some, List, [], ◌∷◌, bit_and,
  bit_or, if◌then◌else◌,
}
use knowdy.Utils.Ids.{obj_id_base}
use knowdy.Set.{put}

-- `struct kndSetIdxFolder`; a pointer to one may be NULL.
pub data Folder : Type 0 where
  null : Folder
  folder : ℕ → ℕ → (ℕ → Folder) → Folder

-- `MASK_MARK_BIT`. A bit is a digit, below 62.
unfoldable pub mark_bit : ℕ → ℕ → ℕ
mark_bit mask bit = bit_or mask (2 ^ bit)

-- `MASK_TEST_BIT`
unfoldable pub test_bit : ℕ → ℕ → Bool
test_bit mask bit = not (bit_and mask (2 ^ bit) == 0)

-- A folder of zeros.
abbrev pub empty : Folder
empty = folder 0 0 (λ b. null)

-- The code, the folder, and how often `calloc` gives memory from here on.
abbrev pub Added : Type 0
Added = Err × Folder × ℕ

abbrev elems_marked : ℕ → Folder → Folder
elems_marked bit null = null
elems_marked bit (folder elems_mask folders_mask folders) =
    folder (mark_bit elems_mask bit) folders_mask folders

abbrev pub folder_at : Folder → ℕ → Folder
folder_at null bit = null
folder_at (folder elems_mask folders_mask folders) bit = folders bit

-- A folder that was there is not marked again.
abbrev pub with_folder : Bool → ℕ → Folder → Folder → Folder
with_folder new bit null next = null
with_folder new bit (folder elems_mask folders_mask folders) next =
    folder elems_mask (if new then mark_bit folders_mask bit else folders_mask)
      (put folders bit next)

abbrev pub below : Bool → ℕ → Folder → Added → Added
below new bit f (err, next, room) = (err, with_folder new bit f next, room)

-- The body of the loop of `knd_set_idx_add`; `run` goes on in the next folder, the last argument.
unfoldable pub enter : (ℕ → Folder → Option Added) → ℕ → Folder → ℕ → Folder → Option Added
enter run zero f bit null = some (Err.nomem, f, 0)
enter run (suc room) f bit null = elim (run room empty) [
  | none ↦ none
  | some r ↦ some (below true bit f r)
]
enter run room f bit (folder elems_mask folders_mask folders) =
    elim (run room (folder elems_mask folders_mask folders)) [
      | none ↦ none
      | some r ↦ some (below false bit f r)
    ]

-- `knd_set_idx_add`, in a folder on the way; `none` where an `assert` fails.
unfoldable pub add : ℕ → Folder → List ℕ → Option Added
add room f [] = none
add room f (c ∷ []) = elim (obj_id_base c) [
  | none ↦ none
  | some bit ↦ some (Err.ok, elems_marked bit f, room)
]
add room f (c ∷ d ∷ key) = elim (obj_id_base c) [
  | none ↦ none
  | some bit ↦ enter (λ room next. add room next (d ∷ key)) room f bit (folder_at f bit)
]

-- `knd_set_idx_exist`
unfoldable pub exist : Folder → List ℕ → Option Bool
exist null key = some false
exist (folder elems_mask folders_mask folders) [] = none
exist (folder elems_mask folders_mask folders) (c ∷ []) = elim (obj_id_base c) [
  | none ↦ none
  | some bit ↦ some (test_bit elems_mask bit)
]
exist (folder elems_mask folders_mask folders) (c ∷ d ∷ key) = elim (obj_id_base c) [
  | none ↦ none
  | some bit ↦ exist (folders bit) (d ∷ key)
]
