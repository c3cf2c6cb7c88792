-- ===== src/Gsp/Trees.antt =====
-- The subdirectories of a directory, written.
use knowdy.Base.{
  ℕ, zero, suc, ◌+◌, ◌≤◌, ◌<◌, ◌^◌, ◌≡◌, refl, sym, ap, ◌∙◌, arith, true, false, List, [], ◌++◌,
  length, length-append, ltb, ◌==◌, if◌then◌else◌, append_assoc, append-nil, Bool-cases, inl, inr,
  leb, ℕ_discrete,
}
use knowdy.Result.{Result, done, Ensures, Ensures-bind, Ensures-map}
use knowdy.Utils.Ids.{id_size, radix_base}
use knowdy.Set.{Idx, null, node}
use knowdy.Gsp.{Info}
use knowdy.Gsp.Write.{Job, Subdirs, add_child, marshall_child, subdirs_loop}
use knowdy.Gsp.Format.{Parts, sizes_of, body, count, max_from}
use knowdy.Gsp.Marks.{count-next}

-- The recursive call for a child appends its block.
abbrev pub AddsBlock : List ℕ → (List ℕ → Result Job) → Type 0
AddsBlock w run =
    (file : List ℕ) → Ensures (λ j. (j.0.total_size ≡ length w) × (j.1 ≡ file ++ w)) (run file)

-- The writer keeps these of a directory while it writes the subdirectories.
abbrev pub Same : Info → Info → Type 0
Same info info' =
    (info'.total_size ≡ info.total_size) × (info'.payload_block_size ≡ info.payload_block_size)

-- After one child, whose block is `w`.
abbrev pub OneMore : List ℕ → ℕ → Subdirs → Subdirs → Type 0
OneMore w i (sizes, info, file) (sizes', info', file') =
    (file' ≡ file ++ w)
    × (info'.num_subdirs ≡ (if length w == 0 then info.num_subdirs else suc info.num_subdirs))
    × (info'.cell_max_val
        ≡ (if ltb info.cell_max_val (length w) then length w else info.cell_max_val))
    × (info'.subdir_block_size ≡ info.subdir_block_size + length w)
    × ((j : ℕ) → (i ≡ j → sizes j ≡ 0) → sizes' j ≡ (if i == j then length w else sizes j))
    × Same info info'

marshall_child-OneMore :
    (run : List ℕ → Result Job) (depth i : ℕ) (idx : Idx) (w : List ℕ) (s : Subdirs)
    → (idx ≡ null → w ≡ [])
    → ((idxs : ℕ → Idx) (elems : ℕ → ℕ) → idx ≡ node idxs elems → 0 < length w)
    → AddsBlock w run
    → s.1.num_subdirs + 1 < 2 ^ 64
    → s.1.subdir_block_size + length w < 2 ^ 64
    → Ensures (OneMore w i s) (marshall_child run depth i idx s)
unfolding marshall_child add_child
marshall_child-OneMore run depth i null w (sizes, info, file) empty filled adds few small =
    rw (empty refl) (
      sym (append-nil file),
      refl,
      ground arith,
      omega arith,
      (λ j h. ground (arith, h)),
      (refl, refl),
    )
marshall_child-OneMore run depth i (node idxs elems) w (sizes, info, file) empty filled adds few
      small =
    elim (Bool-cases (leb id_size depth)) [
      | inl deep ↦ rw (deep) tt
      | inr room ↦
          let some_bytes : (length w == 0) ≡ false = ground (arith, filled idxs elems refl) in
          rw (room) (
            Ensures-bind (λ j. (j.0.total_size ≡ length w) × (j.1 ≡ file ++ w))
              (OneMore w i (sizes, info, file)) (run file)
              (λ r. done (add_child i (sizes, info, file) r)) (adds file)
              (λ r e. (
                e.1,
                ground arith,
                ap (λ (n : ℕ). if ltb info.cell_max_val n then n else info.cell_max_val) e.0,
                omega (arith, e.0),
                (λ j h. ap (λ (n : ℕ). if i == j then n else sizes j) e.0),
                (refl, refl),
              )))
    ]

-- After `n` children from `i` on.
abbrev pub Children : Parts → ℕ → ℕ → Subdirs → Subdirs → Type 0
Children blk n i (sizes, info, file) (sizes', info', file') =
    (file' ≡ file ++ body blk n i)
    × (info'.num_subdirs ≡ info.num_subdirs + count (sizes_of blk) n i)
    × (info'.cell_max_val ≡ max_from (sizes_of blk) info.cell_max_val n i)
    × (info'.subdir_block_size ≡ info.subdir_block_size + length (body blk n i))
    × ((j : ℕ) → j < i + n → sizes' j ≡ sizes_of blk j)
    × Same info info'

Children-next :
    (blk : Parts) (n i : ℕ) (s s1 s2 : Subdirs)
    → OneMore (blk i) i s s1
    → Children blk n (suc i) s1 s2
    → Children blk (suc n) i s s2
unfolding body count max_from
Children-next blk n i (sizes, info, file) (sizes1, info1, file1) (sizes2, info2, file2)
      (f, num, max, size, at, same) (f', num', max', size', at', same') =
    (
      f'
          ∙ (ap (λ (z : List ℕ). z ++ body blk n (suc i)) f
              ∙ append_assoc file (blk i) (body blk n (suc i))),
      num'
          ∙ (ap (λ (k : ℕ). k + count (sizes_of blk) n (suc i)) num
              ∙ count-next info.num_subdirs (length (blk i)) (count (sizes_of blk) n (suc i))),
      max' ∙ ap (λ (m : ℕ). max_from (sizes_of blk) m n (suc i)) max,
      omega (arith, size, size', length-append (blk i) (body blk n (suc i))),
      (λ j h. at' j (omega (arith, h))),
      (same'.0 ∙ same.0, same'.1 ∙ same.1),
    )

-- What a child is in the tree and in the file.
abbrev pub Blocks : (ℕ → Idx) → (ℕ → List ℕ → Result Job) → Parts → Type 0
Blocks idxs run blk =
    (i : ℕ)
    → (idxs i ≡ null → blk i ≡ [])
      × ((idxs' : ℕ → Idx) (elems : ℕ → ℕ) → idxs i ≡ node idxs' elems → 0 < length (blk i))
      × (i < radix_base → AddsBlock (blk i) (run i))

placed :
    (blk : Parts) (i j : ℕ) (sizes : ℕ → ℕ) {size : ℕ}
    → size ≡ (if i == j then length (blk i) else sizes j)
    → j < suc i
    → (j < i → sizes j ≡ sizes_of blk j)
    → size ≡ sizes_of blk j
placed blk i j sizes at h before = elim (ℕ_discrete i j) [
  | yes e ↦
      let here : (i == j) ≡ true = ground (arith, e) in
      at ∙ rw (here) (ap (λ (m : ℕ). length (blk m)) e)
  | no n ↦
      let there : (i == j) ≡ false = ground (arith, n) in
      at ∙ rw (there) (before (omega (arith, n)))
]

-- The loop over the children.
pub subdirs_loop-Children :
    (idxs : ℕ → Idx) (run : ℕ → List ℕ → Result Job) (blk : Parts) (depth n i : ℕ) (s : Subdirs)
    → Blocks idxs run blk
    → i + n ≤ radix_base
    → s.1.num_subdirs + n < 2 ^ 64
    → s.1.subdir_block_size + length (body blk n i) < 2 ^ 64
    → ((j : ℕ) → i ≤ j → s.0 j ≡ 0)
    → ((j : ℕ) → j < i → s.0 j ≡ sizes_of blk j)
    → Ensures (Children blk n i s) (subdirs_loop idxs run depth n i s)
unfolding subdirs_loop body count max_from
subdirs_loop-Children idxs run blk depth zero i (sizes, info, file) blocks b few small after
      before =
    (
      sym (append-nil file),
      omega arith,
      refl,
      omega arith,
      (λ j h. before j (omega arith)),
      (refl, refl),
    )
subdirs_loop-Children idxs run blk depth (suc n) i (sizes, info, file) blocks b few small after
      before =
    let (empty, filled, adds) = blocks i in
    let split : length (blk i ++ body blk n (suc i))
        ≡ length (blk i) + length (body blk n (suc i)) =
      length-append (blk i) (body blk n (suc i)) in
    Ensures-bind (OneMore (blk i) i (sizes, info, file))
      (Children blk (suc n) i (sizes, info, file))
      (marshall_child (run i) depth i (idxs i) (sizes, info, file))
      (λ s. subdirs_loop idxs run depth n (suc i) s)
      (marshall_child-OneMore (run i) depth i (idxs i) (blk i) (sizes, info, file) empty filled
        (adds (omega arith)) (omega arith) (omega arith))
      (λ s1 one.
        Ensures-map (Children blk n (suc i) s1) (Children blk (suc n) i (sizes, info, file))
          (subdirs_loop idxs run depth n (suc i) s1)
          (subdirs_loop-Children idxs run blk depth n (suc i) s1 blocks (omega arith)
            (ground (arith, one.1)) (omega (arith, one.3))
            (λ j h. one.4 j (λ e. after j (omega (arith, e))) ∙ ground (arith, after j))
            (λ j h. placed blk i j sizes (one.4 j (λ e. after j (omega (arith, e)))) h (before j)))
          (λ s2 rest. Children-next blk n i (sizes, info, file) s1 s2 one rest))
