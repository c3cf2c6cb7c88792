-- ===== src/Gsp/Read.antt =====
-- The reader of a payload block (src/knd_shared_set.gsp.c). Reads of a file are of the list of its
-- bytes.
use knowdy.Err.{Err}
use knowdy.Base.{
  ℕ, zero, suc, ◌+◌, ◌-◌, ◌*◌, ◌^◌, Bool, true, false, not, Option, none, some, List, [], ◌∷◌, ◌++◌,
  length, take, drop, get_elem?, ltb, leb, ◌==◌, if◌then◌else◌, u64, sub_size,
}
use knowdy.Result.{Result, done, failed, fault, ◌>>=◌, or_fault}
use knowdy.Utils.Ids.{obj_id_base, radix_base, id_size}
use knowdy.Utils.Pack.{unpack_int}
use knowdy.Set.{put}
use knowdy.Gsp.{Info, seq}

-- `lseek` and `read`, whose count is compared with `n`. A negative offset, which `lseek` refuses and
-- the code does not see, counts as a fault.
unfoldable pub read : List ℕ → ℕ → ℕ → Result (List ℕ)
read file offset n =
    let buf = take n (drop offset file) in
    if leb (2 ^ 63) offset then fault else if length buf == n then done buf else failed Err.io_fail

-- `elem_unmarshall_cb`: the id and the bytes of an element change the state `S` of the caller.
abbrev pub Unmarshall : Type 0 → Type 0
Unmarshall S = S → List ℕ → List ℕ → Result S

module _ {S : Type 0} (cb : Unmarshall S) where
  -- The calls of the callback in the loops that fill a directory.
  abbrev pub emit : List ℕ → List ℕ → S × Info → Result (S × Info)
  emit id val (s, info) = do
    s ← cb s id val
    done (s, record info { num_elems = u64 (info.num_elems + 1) })

  -- The loop of `payload_linear_scan` and what follows it: `key` is the last byte of `idbuf`, `val` is
  -- what lies between `b` and `c`, and the list is the `remainder` bytes from `c` on. With a NUL as
  -- the last of them, `remainder -= 2` wraps around.
  unfoldable pub scan_loop : List ℕ → ℕ → List ℕ → List ℕ → S × Info → Result (S × Info)
  scan_loop idbuf key val [] s = emit (idbuf ++ (key ∷ [])) val s
  scan_loop idbuf key val (suc c ∷ rest) s = scan_loop idbuf key (val ++ (suc c ∷ [])) rest s
  scan_loop idbuf key val (zero ∷ []) s = emit (idbuf ++ (key ∷ [])) val s >>= (λ _. fault)
  scan_loop idbuf key val (zero ∷ key' ∷ rest) s =
      emit (idbuf ++ (key ∷ [])) val s >>= scan_loop idbuf key' [] rest

  -- `payload_linear_scan`; without a first byte `remainder` wraps around.
  unfoldable pub payload_linear_scan : List ℕ → List ℕ → S × Info → Result (S × Info)
  payload_linear_scan idbuf [] s = fault
  payload_linear_scan idbuf (key ∷ rest) s =
      if leb id_size (length idbuf) then fault else scan_loop idbuf key [] rest s

  -- A byte as a `signed char`, moved up by 128.
  abbrev pub signed : ℕ → ℕ
  signed c = if ltb c 128 then c + 128 else c - 128

  -- The loop of `fetch_elem_linear_scan` and what follows it.
  unfoldable pub fetch_loop : ℕ → ℕ → List ℕ → List ℕ → S → Result S
  fetch_loop id key val [] s = if key == id then cb s (id ∷ []) val else failed Err.no_match
  fetch_loop id key val (suc c ∷ rest) s = fetch_loop id key (val ++ (suc c ∷ [])) rest s
  fetch_loop id key val (zero ∷ []) s = if key == id then cb s (id ∷ []) val else fault
  fetch_loop id key val (zero ∷ key' ∷ rest) s =
      let next = fetch_loop id key' [] rest s in
      if key == id
      then cb s (id ∷ []) val
      else if ltb (signed id) (signed key')
      then failed Err.no_match
      else next

  -- `fetch_elem_linear_scan` for an id of one byte, the only length it is called with.
  unfoldable pub fetch_elem_linear_scan : List ℕ → ℕ → S → Result S
  fetch_elem_linear_scan [] id s = fault
  fetch_elem_linear_scan (key ∷ rest) id s = fetch_loop id key [] rest s

-- A cell of a footer: the digit, its position if it is one, and the size.
unfoldable pub cell : Bool → ℕ → ℕ → List ℕ → Result (ℕ × Option ℕ × ℕ)
cell false cell_size i c = do
  numval ← or_fault (unpack_int c cell_size)
  done (seq i, some i, numval)
cell true cell_size i [] = fault
cell true cell_size i (key ∷ c) = do
  numval ← or_fault (unpack_int c cell_size)
  done (key, obj_id_base key, numval)

abbrev pub field_size : Bool → ℕ → ℕ
field_size use_keys cell_size = if use_keys then suc cell_size else cell_size

-- An array of `KND_RADIX_BASE` places; -1 is none of them.
abbrev pub store_at {ℓ} : {A : Type ℓ} → (ℕ → A) → Option ℕ → A → Result (ℕ → A)
store_at f none a = fault
store_at f (some i) a = done (put f i a)

-- The byte `k` places before the end of a block.
abbrev pub from_end : List ℕ → ℕ → Result ℕ
from_end block k = or_fault (get_elem? block (sub_size (length block) k))

-- The end of a payload scan.
abbrev pub set_linear : {S : Type 0} → S × Info → S × Info
set_linear (s, info) = (s, record info { elems_linear_scan = true })

module _ {S : Type 0} (cb : Unmarshall S) where
  -- What the loop of `unmarshall_elems` does for a cell, with the `remainder` bytes `e` ahead: the
  -- state, and the bytes left.
  unfoldable pub read_cell :
      List ℕ → List ℕ → S × Info → ℕ × Option ℕ × ℕ → Result (S × Info × List ℕ)
  read_cell idbuf e (s, info) (key, pos, numval) =
      if numval == 0
      then done (s, info, e)
      else if ltb (length e) numval
      then failed Err.limit
      else (do
        sizes ← store_at info.elem_block_sizes pos numval
        s ←
            emit cb (idbuf ++ (key ∷ [])) (take numval e)
              (s, record info { elem_block_sizes = sizes })
        done (s.0, s.1, drop numval e))

  -- The loop, `n` rounds from `i` on; `c` is the rest of the block from the cell of the round on.
  unfoldable pub elems_loop :
      List ℕ → Bool → ℕ → ℕ → ℕ → List ℕ → List ℕ → S × Info → Result (S × Info)
  elems_loop idbuf use_keys cell_size zero i c e s = done s
  elems_loop idbuf use_keys cell_size (suc n) i c e s =
      if leb id_size (length idbuf) then fault else (do
        r ← cell use_keys cell_size i c
        x ← read_cell idbuf e s r
        elems_loop idbuf use_keys cell_size n (suc i) (drop (field_size use_keys cell_size) c) x.2
            (x.0, x.1))

  -- `unmarshall_elems` from "iterate over directory" on.
  unfoldable pub read_cells : List ℕ → List ℕ → Bool → ℕ → ℕ → ℕ → S × Info → Result (S × Info)
  read_cells block idbuf use_keys cell_size num_elems footer_size s =
      let dir_size = num_elems * field_size use_keys cell_size in
      let remainder = length block - (dir_size + footer_size) in
      if ltb (length block) (dir_size + footer_size)
      then failed Err.limit
      else elems_loop idbuf use_keys cell_size num_elems 0 (drop remainder block)
          (take remainder block) s

  -- `unmarshall_elems`
  unfoldable pub unmarshall_elems : List ℕ → List ℕ → S × Info → Result (S × Info)
  unmarshall_elems block idbuf s = do
    spec ← from_end block 1
    let use_keys = not (spec == 0)
    if ltb (length block) 2 then failed Err.limit else (do
      cell_size ← from_end block 2
      if ltb 4 cell_size
          then failed Err.limit
          else if not use_keys
          then read_cells block idbuf false cell_size radix_base 2 s
          else if cell_size == 0
          then (do
            s ← payload_linear_scan cb idbuf (take (length block - 2) block) s
            done (set_linear s))
          else (do
            num_elems ← from_end block 3
            if ltb radix_base num_elems
                then failed Err.limit
                else read_cells block idbuf true cell_size num_elems 3 s))
