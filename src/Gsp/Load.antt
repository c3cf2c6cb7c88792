-- ===== src/Gsp/Load.antt =====
-- The reader of a set (src/knd_shared_set.gsp.c): all directories of a file, or the way down to one
-- element. The file opens, and `calloc` and `malloc` succeed. The chain of the repository's memory
-- blocks, which keeps what was read, is left out.
use knowdy.Err.{Err}
use knowdy.Base.{
  ℕ, zero, suc, ◌+◌, ◌*◌, Bool, Option, none, some, List, [], ◌∷◌, ◌++◌, length, drop, get_or, ltb,
  leb, ◌==◌, if◌then◌else◌, not, ◌||◌, u64, sub_size,
}
use knowdy.Result.{Result, done, failed, fault, out_of_fuel, ◌>>=◌, or_fault}
use knowdy.Utils.Ids.{obj_id_base, radix_base, id_size}
use knowdy.Utils.Pack.{unpack_int}
use knowdy.Gsp.{Info, Dir, no_dir, dir, new_info}
use knowdy.Gsp.Read.{
  read, Unmarshall, cell, field_size, store_at, unmarshall_elems, fetch_elem_linear_scan,
}

-- The end of `read_payload_size`.
unfoldable pub payload_size : ℕ → ℕ → ℕ → Info → Result Info
payload_size numval footer_size block_size info =
    if ltb (sub_size block_size footer_size) numval
    then failed Err.limit
    else done (record info { payload_block_size = numval; payload_footer_size = footer_size })

-- `read_payload_size`. `size_spec` is a `char`: a negative one passes the test of its bound, and so
-- many bytes do not fit into `buf`.
unfoldable pub read_payload_size : List ℕ → ℕ → ℕ → Info → Result Info
read_payload_size file offset block_size info = do
  spec ← read file (sub_size (offset + block_size) 1) 1
  let size_spec = get_or spec 0 0
  if size_spec == 0
      then done (record info { payload_footer_size = 1 })
      else if leb 128 size_spec
      then fault
      else if ltb 4 size_spec
      then failed Err.limit
      else (do
        buf ← read file (sub_size (offset + block_size) (1 + size_spec)) size_spec
        numval ← or_fault (unpack_int buf size_spec)
        payload_size numval (1 + size_spec) block_size info)

-- The state of the caller, the directory with its subdirectories, and `block_offset`.
abbrev pub Place : Type 0 → Type 0
Place S = S × Info × (ℕ → Dir) × ℕ

abbrev pub total_of : Dir → ℕ
total_of no_dir = 0
total_of (dir info subdirs) = info.total_elems

-- The sizes of the elements before a position.
abbrev pub offset_of : (ℕ → ℕ) → ℕ → ℕ
offset_of sizes zero = 0
offset_of sizes (suc i) = u64 (offset_of sizes i + sizes i)

module _ {S : Type 0} where
  -- What the loops of `read_subdirs` do for a cell; `run` is the recursive call.
  unfoldable pub read_subdir :
      (ℕ → ℕ → List ℕ → S → Result (S × Dir))
      → ℕ
      → List ℕ
      → Place S
      → ℕ × Option ℕ × ℕ
      → Result (Place S)
  read_subdir run offset idbuf (s, info, subdirs, block_offset) (key, pos, numval) =
      if numval == 0
      then done (s, info, subdirs, block_offset)
      else if leb id_size (length idbuf)
      then fault
      else (do
        r ← run (u64 (offset + block_offset)) numval (idbuf ++ (key ∷ [])) s
        subdirs' ← store_at subdirs pos r.1
        done (
          r.0,
          record info { total_elems = u64 (info.total_elems + total_of r.1) },
          subdirs',
          u64 (block_offset + numval),
        ))

  -- The loops, `n` rounds from `i` on; `c` is the rest of the footer.
  unfoldable pub subdirs_loop :
      (ℕ → ℕ → List ℕ → S → Result (S × Dir))
      → ℕ
      → List ℕ
      → Bool
      → ℕ
      → ℕ
      → ℕ
      → List ℕ
      → Place S
      → Result (Place S)
  subdirs_loop run offset idbuf use_keys cell_size zero i c s = done s
  subdirs_loop run offset idbuf use_keys cell_size (suc n) i c s = do
    r ← cell use_keys cell_size i c
    s ← read_subdir run offset idbuf s r
    subdirs_loop run offset idbuf use_keys cell_size n (suc i)
        (drop (field_size use_keys cell_size) c) s

  -- `read_subdirs`
  unfoldable pub read_subdirs :
      (ℕ → ℕ → List ℕ → S → Result (S × Dir))
      → List ℕ
      → ℕ
      → ℕ
      → List ℕ
      → S × Info
      → Result (Place S)
  read_subdirs run file offset parent_block_size idbuf (s, info) = do
    spec ← read file (sub_size (offset + parent_block_size) 3) 3
    let use_keys = not (get_or spec 2 0 == 0)
    let cell_size = get_or spec 1 0
    let num_subdirs = if use_keys then get_or spec 0 0 else radix_base
    let subdir_footer_size = num_subdirs * field_size use_keys cell_size
    let spec_size = if use_keys then 3 else 2
    if ltb 4 cell_size || (cell_size == 0)
        then failed Err.limit
        else if ltb 1016 subdir_footer_size
        then failed Err.limit
        else (do
          buf ←
              read file (u64 (offset + sub_size parent_block_size (subdir_footer_size + spec_size)))
                subdir_footer_size
          subdirs_loop run offset idbuf use_keys cell_size num_subdirs 0 buf
              (s, info, λ i. no_dir, 0))

  -- The first half of `unmarshall_block`: the elements of the directory.
  unfoldable pub read_payload : Unmarshall S → List ℕ → List ℕ → S × Info → Result (S × Info)
  read_payload cb file idbuf (s, info) =
      if info.payload_block_size == 0 then done (s, info) else (do
        block ← read file info.global_offset info.payload_block_size
        r ← unmarshall_elems cb block idbuf (s, info)
        done (r.0, record r.1 { total_elems = r.1.num_elems }))

  -- `unmarshall_block` for a new directory at an offset; `run` is the recursive call.
  unfoldable pub read_block :
      Unmarshall S
      → (ℕ → ℕ → List ℕ → S → Result (S × Dir))
      → List ℕ
      → ℕ
      → ℕ
      → List ℕ
      → S
      → Result (S × Dir)
  read_block cb run file offset block_size idbuf s = do
    info ←
        read_payload_size file offset block_size
          (record new_info { total_size = block_size; global_offset = offset })
    r ← read_payload cb file idbuf (s, info)
    let subdir_block_size = sub_size block_size (info.payload_block_size + info.payload_footer_size)
    if subdir_block_size == 0 then done (r.0, dir r.1 (λ i. no_dir)) else (do
      x ← read_subdirs run file (u64 (offset + info.payload_block_size)) subdir_block_size idbuf r
      done (x.0, dir x.1 x.2))

  -- `unmarshall_block`, whose recursion has fuel. A subdirectory may be as large as its parent: the
  -- depth is bounded by `idbuf` only, behind which the code writes then (a fault).
  unfoldable pub unmarshall_block :
      Unmarshall S → List ℕ → ℕ → ℕ → ℕ → List ℕ → S → Result (S × Dir)
  unmarshall_block cb file zero offset block_size idbuf s = out_of_fuel
  unmarshall_block cb file (suc fuel) offset block_size idbuf s =
      read_block cb (unmarshall_block cb file fuel) file offset block_size idbuf s

  -- `knd_shared_set_unmarshall_file`: the state, `self->dir` and `self->num_elems`. The root directory
  -- has the file's size. (`filesize` is what the caller has from `stat`.)
  unfoldable pub unmarshall_file : Unmarshall S → List ℕ → ℕ → ℕ → S → Result (S × Dir × ℕ)
  unmarshall_file cb file fuel filesize s = do
    r ← unmarshall_block cb file fuel 3 (sub_size filesize 3) [] s
    done (r.0, r.1, total_of r.1)

  -- `read_elem` at the last digit: the payload block is scanned, or the element's own block is read.
  -- The callback has the last digit as the id.
  unfoldable pub read_leaf : Unmarshall S → List ℕ → Info → ℕ → ℕ → S → Result S
  read_leaf cb file info c pos s =
      if info.elems_linear_scan
      then (do
        b ← read file info.global_offset info.payload_block_size
        fetch_elem_linear_scan cb b c s)
      else (do
        b ←
            read file (u64 (info.global_offset + offset_of info.elem_block_sizes pos))
              (info.elem_block_sizes pos)
        cb s (c ∷ []) b)

  -- `read_elem`; without a directory or a digit it runs into an `assert` or behind the id.
  unfoldable pub read_elem : Unmarshall S → List ℕ → Dir → List ℕ → S → Result S
  read_elem cb file d [] s = fault
  read_elem cb file no_dir (c ∷ id) s = fault
  read_elem cb file (dir info subdirs) (c ∷ []) s = elim (obj_id_base c) [
    | none ↦ failed Err.format
    | some pos ↦ read_leaf cb file info c pos s
  ]
  read_elem cb file (dir info subdirs) (c ∷ c' ∷ id) s = elim (obj_id_base c) [
    | none ↦ failed Err.format
    | some pos ↦ elim (subdirs pos) [
      | no_dir ↦ failed Err.no_match
      | dir info' subdirs' ↦ read_elem cb file (dir info' subdirs') (c' ∷ id) s
    ]
  ]
