-- ===== src/Gsp/Notes.antt =====
-- What the writer of a directory notes, and the bytes of its elements.
use knowdy.Base.{
  ℕ, zero, suc, ◌+◌, ◌≤◌, ◌<◌, ◌^◌, ◌≡◌, refl, ap, ◌∙◌, arith, Bool, true, false, List, [], ◌∷◌,
  ◌++◌, length, ltb, ◌==◌, if◌then◌else◌, Bool-cases, inl, inr, ℕ_discrete,
}
use knowdy.Set.{Idx, null, node, is_null}
use knowdy.Gsp.{Info, seq}
use knowdy.Gsp.Write.{note_elem, note_idx}
use knowdy.Gsp.Format.{Parts, sizes_of, body, count, max_from, separated, linear}
use knowdy.Gsp.Marks.{count-next}

abbrev pub note_cell : ℕ → Idx → ℕ → Info → Info
note_cell size idx i info =
    if size == 0 then note_idx idx info else note_elem size i (note_idx idx info)

unfoldable pub note : Parts → (ℕ → Idx) → ℕ → ℕ → Info → Info
note v idxs zero i info = info
note v idxs (suc n) i info = note v idxs n (suc i) (note_cell (sizes_of v i) (idxs i) i info)

abbrev pub key_bytes : Bool → ℕ → ℕ → List ℕ
key_bytes false num i = []
key_bytes true num i = if num == 0 then seq i ∷ [] else 0 ∷ seq i ∷ []

abbrev pub part_bytes : Bool → ℕ → ℕ → List ℕ → List ℕ
part_bytes keyed num i w = if length w == 0 then [] else key_bytes keyed num i ++ w

unfoldable pub stream : Bool → Parts → (ℕ → Idx) → ℕ → ℕ → Info → List ℕ
stream keyed v idxs zero i info = []
stream keyed v idxs (suc n) i info =
    part_bytes keyed info.num_elems i (v i)
    ++ stream keyed v idxs n (suc i) (note_cell (sizes_of v i) (idxs i) i info)

pub note_idx-keeps :
    (idx : Idx) (info : Info)
    → ((note_idx idx info).num_elems ≡ info.num_elems)
      × ((note_idx idx info).cell_max_val ≡ info.cell_max_val)
      × ((note_idx idx info).elem_block_sizes ≡ info.elem_block_sizes)
note_idx-keeps null info = (refl, refl, refl)
note_idx-keeps (node idxs elems) info = (refl, refl, refl)

note_cell-num_elems :
    (size i : ℕ) (idx : Idx) (info : Info)
    → info.num_elems + 1 < 2 ^ 64
    → (note_cell size idx i info).num_elems
      ≡ (if size == 0 then info.num_elems else suc info.num_elems)
note_cell-num_elems zero i idx info h = (note_idx-keeps idx info).0
note_cell-num_elems (suc n) i idx info h =
    let some_size : (suc n == 0) ≡ false = ground arith in
    rw (some_size) (omega (arith, (note_idx-keeps idx info).0))

-- The elements are counted.
pub note-num_elems :
    (v : Parts) (idxs : ℕ → Idx) (n i : ℕ) (info : Info)
    → info.num_elems + n < 2 ^ 64
    → (note v idxs n i info).num_elems ≡ info.num_elems + count (sizes_of v) n i
unfolding note count
note-num_elems v idxs zero i info h = omega arith
note-num_elems v idxs (suc n) i info h =
    let here : (note_cell (sizes_of v i) (idxs i) i info).num_elems
        ≡ (if sizes_of v i == 0 then info.num_elems else suc info.num_elems) =
      note_cell-num_elems (sizes_of v i) i (idxs i) info (omega arith) in
    note-num_elems v idxs n (suc i) (note_cell (sizes_of v i) (idxs i) i info)
      (ground (arith, here))
    ∙ (ap (λ (k : ℕ). k + count (sizes_of v) n (suc i)) here
        ∙ count-next info.num_elems (sizes_of v i) (count (sizes_of v) n (suc i)))

note_cell-cell_max_val :
    (size i : ℕ) (idx : Idx) (info : Info)
    → (note_cell size idx i info).cell_max_val
      ≡ (if ltb info.cell_max_val size then size else info.cell_max_val)
note_cell-cell_max_val zero i idx info = ground (arith, (note_idx-keeps idx info).1)
note_cell-cell_max_val (suc n) i idx info =
    let some_size : (suc n == 0) ≡ false = ground arith in
    rw (some_size, (note_idx-keeps idx info).1) refl

-- The largest size is kept.
pub note-cell_max_val :
    (v : Parts) (idxs : ℕ → Idx) (n i : ℕ) (info : Info)
    → (note v idxs n i info).cell_max_val ≡ max_from (sizes_of v) info.cell_max_val n i
unfolding note max_from
note-cell_max_val v idxs zero i info = refl
note-cell_max_val v idxs (suc n) i info =
    note-cell_max_val v idxs n (suc i) (note_cell (sizes_of v i) (idxs i) i info)
    ∙ ap (λ (m : ℕ). max_from (sizes_of v) m n (suc i))
        (note_cell-cell_max_val (sizes_of v i) i (idxs i) info)

-- The array of sizes: what a round stores at its position, where nothing was before.
note_cell-sizes :
    (size i j : ℕ) (idx : Idx) (info : Info)
    → (i ≡ j → info.elem_block_sizes j ≡ 0)
    → (note_cell size idx i info).elem_block_sizes j
      ≡ (if i == j then size else info.elem_block_sizes j)
note_cell-sizes zero i j idx info h =
    ap (λ (a : ℕ → ℕ). a j) (note_idx-keeps idx info).2 ∙ ground (arith, h)
note_cell-sizes (suc n) i j idx info h =
    let some_size : (suc n == 0) ≡ false = ground arith in
    rw (some_size, (note_idx-keeps idx info).2) refl

-- The sizes of all positions are kept.
pub note-sizes :
    (v : Parts) (idxs : ℕ → Idx) (n i : ℕ) (info : Info)
    → ((j : ℕ) → i ≤ j → info.elem_block_sizes j ≡ 0)
    → ((j : ℕ) → j < i → info.elem_block_sizes j ≡ sizes_of v j)
    → (j : ℕ) → j < i + n
    → (note v idxs n i info).elem_block_sizes j ≡ sizes_of v j
unfolding note
note-sizes v idxs zero i info after before j h = before j (omega arith)
note-sizes v idxs (suc n) i info after before j h =
    note-sizes v idxs n (suc i) (note_cell (sizes_of v i) (idxs i) i info)
      (λ k p.
        note_cell-sizes (sizes_of v i) i k (idxs i) info (λ e. after k (omega (arith, e)))
        ∙ ground (arith, after k))
      (λ k p. placed k p) j (omega arith)
  where
    placed :
        (k : ℕ)
        → k < suc i
        → (note_cell (sizes_of v i) (idxs i) i info).elem_block_sizes k ≡ sizes_of v k
    placed k p = elim (ℕ_discrete i k) [
      | yes e ↦
          let here : (i == k) ≡ true = ground (arith, e) in
          let same : sizes_of v i ≡ sizes_of v k = ap (λ (m : ℕ). sizes_of v m) e in
          note_cell-sizes (sizes_of v i) i k (idxs i) info (λ e. after k (omega (arith, e)))
          ∙ rw (here) same
      | no n ↦
          let there : (i == k) ≡ false = ground (arith, n) in
          note_cell-sizes (sizes_of v i) i k (idxs i) info (λ e. after k (omega (arith, e)))
          ∙ rw (there) (before k (omega (arith, n)))
    ]

-- A child counts as one.
abbrev pub child : (ℕ → Idx) → ℕ → ℕ
child idxs i = if is_null (idxs i) then 0 else 1

note_cell-num_subdirs :
    (size i : ℕ) (idx : Idx) (info : Info)
    → info.num_subdirs + 1 < 2 ^ 64
    → (note_cell size idx i info).num_subdirs
      ≡ (if (if is_null idx then 0 else 1) == 0 then info.num_subdirs else suc info.num_subdirs)
note_cell-num_subdirs zero i null info h = refl
note_cell-num_subdirs zero i (node idxs elems) info h = omega arith
note_cell-num_subdirs (suc n) i null info h =
    let some_size : (suc n == 0) ≡ false = ground arith in rw (some_size) refl
note_cell-num_subdirs (suc n) i (node idxs elems) info h =
    let some_size : (suc n == 0) ≡ false = ground arith in rw (some_size) (omega arith)

-- The children are counted.
pub note-num_subdirs :
    (v : Parts) (idxs : ℕ → Idx) (n i : ℕ) (info : Info)
    → info.num_subdirs + n < 2 ^ 64
    → (note v idxs n i info).num_subdirs ≡ info.num_subdirs + count (child idxs) n i
unfolding note count
note-num_subdirs v idxs zero i info h = omega arith
note-num_subdirs v idxs (suc n) i info h =
    let here : (note_cell (sizes_of v i) (idxs i) i info).num_subdirs
        ≡ (if child idxs i == 0 then info.num_subdirs else suc info.num_subdirs) =
      note_cell-num_subdirs (sizes_of v i) i (idxs i) info (omega arith) in
    note-num_subdirs v idxs n (suc i) (note_cell (sizes_of v i) (idxs i) i info)
      (ground (arith, here))
    ∙ (ap (λ (k : ℕ). k + count (child idxs) n (suc i)) here
        ∙ count-next info.num_subdirs (child idxs i) (count (child idxs) n (suc i)))

part_bytes-false : (num i : ℕ) (w : List ℕ) → part_bytes false num i w ≡ w
part_bytes-false num i [] = refl
part_bytes-false num i (x ∷ w) =
    let some_here : (length (x ∷ w) == 0) ≡ false = ground arith in rw (some_here) refl

-- Without keys the elements stand one behind the other.
pub stream-false :
    (v : Parts) (idxs : ℕ → Idx) (n i : ℕ) (info : Info) → stream false v idxs n i info ≡ body v n i
unfolding stream body
stream-false v idxs zero i info = refl
stream-false v idxs (suc n) i info =
    rw
      (
        part_bytes-false info.num_elems i (v i),
        stream-false v idxs n (suc i) (note_cell (sizes_of v i) (idxs i) i info),
      )
      refl

-- With keys there is a NUL before each record but the first.
pub stream-separated :
    (v : Parts) (idxs : ℕ → Idx) (n i : ℕ) (info : Info)
    → 0 < info.num_elems
    → info.num_elems + n < 2 ^ 64
    → stream true v idxs n i info ≡ body (separated v) n i
unfolding stream body separated
stream-separated v idxs zero i info some_elem h = refl
stream-separated v idxs (suc n) i info some_elem h =
    let here : (note_cell (sizes_of v i) (idxs i) i info).num_elems
        ≡ (if sizes_of v i == 0 then info.num_elems else suc info.num_elems) =
      note_cell-num_elems (sizes_of v i) i (idxs i) info (omega arith) in
    let more : (info.num_elems == 0) ≡ false = ground arith in
    rw
      (
        more,
        stream-separated v idxs n (suc i) (note_cell (sizes_of v i) (idxs i) i info)
            (ground (arith, here)) (ground (arith, here)),
      )
      refl

pub stream-linear :
    (v : Parts) (idxs : ℕ → Idx) (n i : ℕ) (info : Info)
    → info.num_elems ≡ 0
    → n < 2 ^ 63
    → stream true v idxs n i info ≡ linear v n i
unfolding stream linear
stream-linear v idxs zero i info first h = refl
stream-linear v idxs (suc n) i info first h =
    let here : (note_cell (sizes_of v i) (idxs i) i info).num_elems
        ≡ (if sizes_of v i == 0 then info.num_elems else suc info.num_elems) =
      note_cell-num_elems (sizes_of v i) i (idxs i) info (omega arith) in
    elim (Bool-cases (sizes_of v i == 0)) [
      | inl none_here ↦ rw (none_here) (
          stream-linear v idxs n (suc i) (note_idx (idxs i) info)
            ((note_idx-keeps (idxs i) info).0 ∙ first) (omega arith))
      | inr filled ↦
          let first_key : (info.num_elems == 0) ≡ true = ground (arith, first) in
          let number : (note_elem (sizes_of v i) i (note_idx (idxs i) info)).num_elems ≡ 1 =
            omega (arith, (note_idx-keeps (idxs i) info).0, first) in
          rw
            (
              filled,
              first_key,
              stream-separated v idxs n (suc i)
                  (note_elem (sizes_of v i) i (note_idx (idxs i) info)) (omega arith) (omega arith),
            )
            refl
    ]

note_idx-sizes :
    (idx : Idx) (info : Info)
    → ((note_idx idx info).subdir_block_size ≡ info.subdir_block_size)
      × ((note_idx idx info).payload_block_size ≡ info.payload_block_size)
      × ((note_idx idx info).total_size ≡ info.total_size)
note_idx-sizes null info = (refl, refl, refl)
note_idx-sizes (node idxs elems) info = (refl, refl, refl)

note_cell-block_sizes :
    (size i : ℕ) (idx : Idx) (info : Info)
    → ((note_cell size idx i info).subdir_block_size ≡ info.subdir_block_size)
      × ((note_cell size idx i info).payload_block_size ≡ info.payload_block_size)
      × ((note_cell size idx i info).total_size ≡ info.total_size)
note_cell-block_sizes zero i idx info = note_idx-sizes idx info
note_cell-block_sizes (suc n) i idx info =
    let some_size : (suc n == 0) ≡ false = ground arith in rw (some_size) (note_idx-sizes idx info)

-- The sizes of the blocks are not touched.
pub note-block_sizes :
    (v : Parts) (idxs : ℕ → Idx) (n i : ℕ) (info : Info)
    → ((note v idxs n i info).subdir_block_size ≡ info.subdir_block_size)
      × ((note v idxs n i info).payload_block_size ≡ info.payload_block_size)
      × ((note v idxs n i info).total_size ≡ info.total_size)
unfolding note
note-block_sizes v idxs zero i info = (refl, refl, refl)
note-block_sizes v idxs (suc n) i info =
    let (a, b, c) = note_cell-block_sizes (sizes_of v i) i (idxs i) info in
    let (a', b', c') =
      note-block_sizes v idxs n (suc i) (note_cell (sizes_of v i) (idxs i) i info) in
    (a' ∙ a, b' ∙ b, c' ∙ c)
