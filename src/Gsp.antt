-- ===== src/Gsp.antt =====
-- The directory of a set in a GSP file (src/knd_shared_set.c, src/knd_shared_set.gsp.c): what the
-- writer and the reader share.
pub mod Write
pub mod Read
pub mod Load
pub mod Format
pub mod Cells
pub mod Reading
pub mod Payload
pub mod Sizes
pub mod Children
pub mod Subdirs
pub mod Marks
pub mod Blocks
pub mod Whole
pub mod Notes
pub mod Footers
pub mod Writing
pub mod Trees
pub mod Directory
pub mod Growing
pub mod Marshalling
pub mod RoundTrip
mod Tests
use knowdy.Err.{Err}
use knowdy.Base.{
  ℕ, zero, suc, ◌+◌, ◌%◌, ◌≡◌, Bool, true, false, List, [], ◌∷◌, ◌++◌, length, ltb, if◌then◌else◌,
  get_or,
}
use knowdy.Result.{Result, done, failed, fault}
use knowdy.Output.Steps.{append}
use knowdy.Utils.Ids.{obj_id_seq}

-- `struct kndSharedSetDir` without its subdirectories.
pub record Info : Type 0 where
  pub elem_block_sizes : ℕ → ℕ
  pub num_elems : ℕ
  pub payload_block_size : ℕ
  pub payload_footer_size : ℕ
  pub num_subdirs : ℕ
  pub subdir_block_size : ℕ
  pub cell_max_val : ℕ
  pub total_elems : ℕ
  pub global_offset : ℕ
  pub total_size : ℕ
  pub elems_linear_scan : Bool

-- A directory may be NULL; `subdirs` is an array of directories.
pub data Dir : Type 0 where
  no_dir : Dir
  dir : Info → (ℕ → Dir) → Dir

-- `calloc`
abbrev pub new_info : Info
new_info = record {
  elem_block_sizes = λ i. 0;
  num_elems = 0;
  payload_block_size = 0;
  payload_footer_size = 0;
  num_subdirs = 0;
  subdir_block_size = 0;
  cell_max_val = 0;
  total_elems = 0;
  global_offset = 0;
  total_size = 0;
  elems_linear_scan = false;
}

-- The digit of a position.
abbrev pub seq : ℕ → ℕ
seq i = get_or obj_id_seq i 0

-- What follows a call of the output: its code is handed on.
unfoldable pub written : Err × List ℕ → Result (List ℕ)
written (Err.ok, out) = done out
written (code, out) = failed code

-- `out->write` and `out->writec`: the output stands for its text (`Output.Steps`).
unfoldable pub write : ℕ → List ℕ → List ℕ → Result (List ℕ)
write capacity bytes out = written (append capacity out bytes)

abbrev pub flag : Bool → ℕ
flag true = 1
flag false = 0
