-- ===== src/Gsp/Write.antt =====
-- The writer of a set (src/knd_shared_set.c): the elements of a directory, then its subdirectories,
-- then the size of the elements' block. The file is the list of its bytes; `knd_append_file` is
-- taken to succeed, and so is `calloc`.
use knowdy.Base.{
  ℕ, zero, suc, ◌+◌, ◌-◌, Bool, true, false, List, [], ◌∷◌, ◌++◌, length, ltb, leb, ◌==◌,
  if◌then◌else◌, u8, u64, ◌/◌,
}
use knowdy.Result.{Result, done, fault, ◌>>=◌}
use knowdy.Utils.Ids.{radix_base, id_size}
use knowdy.Utils.Pack.{pack_int, min_bytes}
use knowdy.Set.{Idx, null, node, put}
use knowdy.Gsp.{Info, new_info, seq, write, flag}

-- What a round of the loop of `build_elems_footer` and `build_subdirs_footer` writes.
unfoldable pub footer_cell : ℕ → Bool → ℕ → ℕ → ℕ → List ℕ → Result (List ℕ)
footer_cell capacity false size cell_size i out = write capacity (pack_int size cell_size) out
footer_cell capacity true size cell_size i out =
    if size == 0
    then done out
    else (do out ← write capacity (seq i ∷ []) out; write capacity (pack_int size cell_size) out)

-- The loop, `n` rounds from `i` on.
unfoldable pub footer_loop : ℕ → (ℕ → ℕ) → Bool → ℕ → ℕ → ℕ → List ℕ → Result (List ℕ)
footer_loop capacity sizes use_keys cell_size zero i out = done out
footer_loop capacity sizes use_keys cell_size (suc n) i out =
    footer_cell capacity use_keys (sizes i) cell_size i out
    >>= footer_loop capacity sizes use_keys cell_size n (suc i)

-- `build_elems_footer`, and `build_subdirs_footer` with the sizes and the number of the subdirectories.
unfoldable pub build_footer : ℕ → (ℕ → ℕ) → ℕ → Bool → ℕ → List ℕ → Result (List ℕ)
build_footer capacity sizes num use_keys cell_size out = do
  out ← footer_loop capacity sizes use_keys cell_size radix_base 0 out
  out ← if use_keys then write capacity (u8 num ∷ []) out else done out
  out ← write capacity (u8 cell_size ∷ []) out
  write capacity (flag use_keys ∷ []) out

-- A directory and the output.
abbrev pub Job : Type 0
Job = Info × List ℕ

-- `elem_marshall_cb`: the size of what it has written, and the output.
abbrev pub Marshall : Type 0
Marshall = ℕ → List ℕ → Result (ℕ × List ℕ)

-- What comes before an element that is found by its digit; a NUL separates it from the last one.
unfoldable pub write_key : ℕ → Bool → ℕ → ℕ → List ℕ → Result (List ℕ)
write_key capacity false num_elems i out = done out
write_key capacity true num_elems i out = do
  out ← if num_elems == 0 then done out else write capacity (0 ∷ []) out
  write capacity (seq i ∷ []) out

-- What `marshall_elems` notes of an element.
abbrev pub note_elem : ℕ → ℕ → Info → Info
note_elem size i info = record info {
  cell_max_val = if ltb info.cell_max_val size then size else info.cell_max_val;
  elem_block_sizes = put info.elem_block_sizes i size;
  num_elems = u64 (info.num_elems + 1);
}

-- What `marshall_elems` does for one element.
unfoldable pub marshall_elem : ℕ → Marshall → Bool → ℕ → ℕ → Job → Result Job
marshall_elem capacity cb use_keys i elem (info, out) = do
  out ← write_key capacity use_keys info.num_elems i out
  r ← cb elem out
  done (note_elem r.0 i info, r.1)

-- A child is counted.
abbrev pub note_idx : Idx → Info → Info
note_idx null info = info
note_idx (node idxs elems) info = record info { num_subdirs = u64 (info.num_subdirs + 1) }

-- A round of the loop of `marshall_elems`.
unfoldable pub marshall_cell : ℕ → Marshall → Bool → ℕ → Idx → ℕ → Job → Result Job
marshall_cell capacity cb use_keys i idx elem (info, out) =
    if elem == 0
    then done (note_idx idx info, out)
    else marshall_elem capacity cb use_keys i elem (note_idx idx info, out)

-- The loop, `n` rounds from `i` on.
unfoldable pub marshall_elems : ℕ → Marshall → Bool → (ℕ → Idx) → (ℕ → ℕ) → ℕ → ℕ → Job → Result Job
marshall_elems capacity cb use_keys idxs elems zero i s = done s
marshall_elems capacity cb use_keys idxs elems (suc n) i s =
    marshall_cell capacity cb use_keys i (idxs i) (elems i) s
    >>= marshall_elems capacity cb use_keys idxs elems n (suc i)

-- More than half of the cells are empty.
abbrev pub is_sparse : ℕ → Bool
is_sparse num = ltb (radix_base / 2) (radix_base - num)

-- `KND_SET_MIN_FOOTER_SIZE / size > KND_MAX_IDX_OVERHEAD`: 64 / size > 1/8.
abbrev pub is_small : ℕ → Bool
is_small size = ltb size 512

-- The payload block, from the first run of `marshall_elems`: small blocks are written anew, with keys
-- and separators.
unfoldable pub payload_block : ℕ → Marshall → (ℕ → Idx) → (ℕ → ℕ) → Job → Result Job
payload_block capacity cb idxs elems (info, out) =
    if is_small (length out)
    then (do
      s ←
          marshall_elems capacity cb true idxs elems radix_base 0
            (record info { num_elems = 0 }, [])
      out ← write capacity (0 ∷ []) s.1
      out ← write capacity (1 ∷ []) out
      done (s.0, out))
    else (do
      out ←
          build_footer capacity info.elem_block_sizes info.num_elems (is_sparse info.num_elems)
            (min_bytes info.cell_max_val) out
      done (info, out))

-- A directory and the file.
unfoldable pub append_payload : List ℕ → Job → Job
append_payload file (info, out) = (
  record info {
    payload_block_size = length out;
    total_elems = info.num_elems;
    total_size = length out;
  },
  file ++ out,
)

-- The sizes of the subdirectories that have been written, the directory and the file.
abbrev pub Subdirs : Type 0
Subdirs = (ℕ → ℕ) × Info × List ℕ

-- What the loop of `marshall_subdirs` keeps of a child.
unfoldable pub add_child : ℕ → Subdirs → Job → Subdirs
add_child i (sizes, info, file) (child, file') = (
  put sizes i child.total_size,
  record info {
    cell_max_val =
        if ltb info.cell_max_val child.total_size then child.total_size else info.cell_max_val;
    total_elems = u64 (info.total_elems + child.total_elems);
    subdir_block_size = u64 (info.subdir_block_size + child.total_size);
    num_subdirs = u64 (info.num_subdirs + 1);
  },
  file',
)

-- A round of the loop; `run` is the recursive call. `depth` is the length of `idbuf`, an array of
-- `KND_ID_SIZE` bytes.
unfoldable pub marshall_child : (List ℕ → Result Job) → ℕ → ℕ → Idx → Subdirs → Result Subdirs
marshall_child run depth i null s = done s
marshall_child run depth i (node idxs elems) s =
    if leb id_size depth then fault else (do r ← run s.2; done (add_child i s r))

-- The loop, `n` rounds from `i` on.
unfoldable pub subdirs_loop :
    (ℕ → Idx) → (ℕ → List ℕ → Result Job) → ℕ → ℕ → ℕ → Subdirs → Result Subdirs
subdirs_loop idxs run depth zero i s = done s
subdirs_loop idxs run depth (suc n) i s =
    marshall_child (run i) depth i (idxs i) s >>= subdirs_loop idxs run depth n (suc i)

-- The end of `marshall_subdirs`.
unfoldable pub append_footer : Subdirs → List ℕ → Job
append_footer (sizes, info, file) out =
    let subdir_block_size = u64 (info.subdir_block_size + length out) in
    (
      record info {
        subdir_block_size = subdir_block_size;
        total_size = u64 (info.total_size + subdir_block_size);
      },
      file ++ out,
    )

-- `marshall_subdirs`
unfoldable pub marshall_subdirs : ℕ → (ℕ → Idx) → (ℕ → List ℕ → Result Job) → ℕ → Job → Result Job
marshall_subdirs capacity idxs run depth (info, file) = do
  s ←
      subdirs_loop idxs run depth radix_base 0
        (λ i. 0, record info { cell_max_val = 0; num_subdirs = 0 }, file)
  out ←
      build_footer capacity s.0 s.1.num_subdirs (is_sparse s.1.num_subdirs)
        (min_bytes s.1.cell_max_val) []
  done (append_footer s out)

-- The end of `traverse_marshall`: the size of the payload block, in as few bytes as hold it, and what
-- `total_size` grows by.
unfoldable pub write_size : ℕ → ℕ → List ℕ → Result (List ℕ)
write_size capacity size out = if size == 0 then write capacity (0 ∷ []) out else (do
  out ← write capacity (pack_int size (min_bytes size)) out
  write capacity (u8 (min_bytes size) ∷ []) out)

abbrev pub size_length : ℕ → ℕ
size_length size = if size == 0 then 1 else min_bytes size + 1

unfoldable pub append_size : ℕ → Job → Result Job
append_size capacity (info, file) = do
  out ← write_size capacity info.payload_block_size []
  done (
    record info { total_size = u64 (info.total_size + size_length info.payload_block_size) },
    file ++ out,
  )

-- What `traverse_marshall` does after the first run of `marshall_elems`.
unfoldable pub add_payload : ℕ → Marshall → (ℕ → Idx) → (ℕ → ℕ) → List ℕ → Job → Result Job
add_payload capacity cb idxs elems file s =
    if length s.1 == 0
    then done (s.0, file)
    else (do s ← payload_block capacity cb idxs elems s; done (append_payload file s))

-- Its step "sync subdirs"; `run` is the recursive call.
unfoldable pub add_subdirs : ℕ → (ℕ → Idx) → (ℕ → List ℕ → Result Job) → ℕ → Job → Result Job
add_subdirs capacity idxs run depth s =
    if s.0.num_subdirs == 0 then done s else marshall_subdirs capacity idxs run depth s

-- `traverse_marshall`
unfoldable pub traverse_marshall : ℕ → Marshall → ℕ → Idx → List ℕ → Result Job
traverse_marshall capacity cb depth null file = fault
traverse_marshall capacity cb depth (node idxs elems) file = do
  s ← marshall_elems capacity cb false idxs elems radix_base 0 (new_info, [])
  s ← add_payload capacity cb idxs elems file s
  s ← add_subdirs capacity idxs (λ i. traverse_marshall capacity cb (suc depth) (idxs i)) depth s
  append_size capacity s

-- `knd_shared_set_marshall`: the total size, and the file.
unfoldable pub marshall : ℕ → Marshall → Idx → List ℕ → Result (ℕ × List ℕ)
marshall capacity cb idx file = do
  s ← traverse_marshall capacity cb 0 idx file
  done (s.0.total_size, s.1)
