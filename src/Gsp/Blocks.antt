-- ===== src/Gsp/Blocks.antt =====
-- A whole set is read back: block by block, from the file that holds it.
use knowdy.Base.{
  ℕ, zero, suc, ◌+◌, ◌≤◌, ◌<◌, ◌^◌, ◌≡◌, refl, ap, ◌∙◌, arith, Bool, true, false, List, ◌++◌,
  length, length-append, ◌==◌, if◌then◌else◌, u64, inl, inr, ℕ_discrete,
}
use knowdy.Result.{Result, done, ◌>>=◌, Gives, Gives-bind}
use knowdy.Utils.Ids.{radix_base, id_size}
use knowdy.Set.{Idx, null, node}
use knowdy.Gsp.{Info, Dir, dir, no_dir}
use knowdy.Gsp.Read.{read}
use knowdy.Gsp.Load.{read_payload, read_subdirs, total_of}
use knowdy.Gsp.Write.{is_sparse}
use knowdy.Gsp.Format.{
  Parts, sizes_of, count, whole, payload, footer, subdirs, visit, visit_children, trailer, cells,
  sum, cell_size_of,
}
use knowdy.Gsp.Cells.{AllHeld, cell_size_of-AllHeld}
use knowdy.Gsp.Reading.{calls, AllText}
use knowdy.Gsp.Payload.{unmarshall_elems-payload}
use knowdy.Gsp.Sizes.{read-append}
use knowdy.Gsp.Children.{Reached, Reads}
use knowdy.Gsp.Subdirs.{read_subdirs-footer}
use knowdy.Gsp.Marks.{loaded-Marked, visit-none, visit_children-none, payload_size_lem}

length-trailer : (keyed : Bool) (num k : ℕ) → 2 ≤ length (trailer keyed num k)
length-trailer true num k = omega arith
length-trailer false num k = omega arith

length-footer : (sizes : ℕ → ℕ) → 2 ≤ length (footer sizes)
unfolding footer
length-footer sizes =
    let num : ℕ = count sizes radix_base 0 in
    let k : ℕ = cell_size_of sizes in
    omega (
      arith,
      length-append (cells (is_sparse num) sizes k radix_base 0) (trailer (is_sparse num) num k),
      length-trailer (is_sparse num) num k,
    )

-- No directory lies deeper than `n` levels.
abbrev pub Within : ℕ → Idx → Type 0
Within n null = Unit
Within zero (node idxs elems) = ⊥
Within (suc n) (node idxs elems) = (i : ℕ) → i < radix_base → Within n (idxs i)

module _ {S : Type 0} (f : S → List ℕ → List ℕ → S) (file : List ℕ)
    (small : length file < 2 ^ 63) where
  -- The caller, the number of elements, and the sizes that were read before.
  abbrev pub Elements : S → ℕ → Info → S × Info → Type 0
  Elements s t info r =
      (r.0 ≡ s)
      × (r.1.total_elems ≡ u64 t)
      × (r.1.payload_block_size ≡ info.payload_block_size)
      × (r.1.payload_footer_size ≡ info.payload_footer_size)

  pub read_payload_lem :
      (v : Parts) (x y idbuf : List ℕ) (s : S) (info : Info)
      → length idbuf < id_size
      → AllText v
      → length (payload v) < 2 ^ 31
      → file ≡ x ++ (payload v ++ y)
      → info.payload_block_size ≡ length (payload v)
      → info.global_offset ≡ length x
      → info.num_elems ≡ 0
      → info.total_elems ≡ 0
      → Gives
          (Elements (visit f v idbuf radix_base 0 s) (count (sizes_of v) radix_base 0) info)
          (read_payload (calls f) file idbuf (s, info))
  unfolding read_payload
  read_payload_lem v x y idbuf s info room text bound split size at no_elems no_total =
      elim (payload_size_lem v) [
        | inl (empty, nothing) ↦
            let no_size : info.payload_block_size ≡ 0 =
              size ∙ ap (λ (p : List ℕ). length p) nothing in
            let (same, none_counted) = visit-none f v idbuf radix_base 0 s empty in
            rw (no_size, same, none_counted) (refl, omega (arith, no_total), refl, refl)
        | inr (full, some_bytes) ↦
            let some_size : (info.payload_block_size == 0) ≡ false = ground (arith, size) in
            let (number, kept, rest) = loaded-Marked v info no_elems in
            let has : read file info.global_offset info.payload_block_size ≡ done (payload v) =
              rw (at, size, split)
                (read-append x (payload v) y (
                  omega (
                    arith,
                    small,
                    ap (λ (b : List ℕ). length b) split,
                    length-append x (payload v ++ y),
                  ))) in
            rw (some_size, has, unmarshall_elems-payload f v idbuf s info room text full bound)
              (refl, number, kept, rest)
      ]

  -- The caller and the number of elements after a directory.
  abbrev pub Loaded : S → ℕ → S × Dir → Type 0
  Loaded s t r = (r.0 ≡ s) × (total_of r.1 ≡ u64 t)

  pub read_subdirs_lem :
      (run : ℕ → ℕ → List ℕ → S → Result (S × Dir)) (go : ℕ → List ℕ → S → S) (cnt : ℕ → ℕ)
      (blk : Parts) (x y idbuf : List ℕ) (offset t : ℕ) (s : S) (r : S × Info)
      → Reads S run go cnt blk idbuf file
      → file ≡ x ++ (subdirs blk ++ y)
      → offset ≡ length x
      → length (subdirs blk) < 2 ^ 31
      → r.0 ≡ s
      → r.1.total_elems ≡ u64 t
      → Gives (Loaded (visit_children go idbuf radix_base 0 s) (t + sum cnt radix_base 0)) (
          if length (subdirs blk) == 0
          then done (r.0, dir r.1 (λ i. no_dir))
          else (read_subdirs run file offset (length (subdirs blk)) idbuf r
              >>= (λ x. done (x.0, dir x.1 x.2))))
  unfolding subdirs footer
  read_subdirs_lem run go cnt blk x y idbuf offset t s (s', info) reads split at bound here total =
      elim (ℕ_discrete (count (sizes_of blk) radix_base 0) 0) [
        | yes empty ↦
            let (same, none_counted) =
              visit_children-none go cnt blk idbuf radix_base 0 s (λ i e. reads.skips i e) empty in
            let counts : t + 0 ≡ t = omega arith in
            rw (empty, same, none_counted, counts) (here, total)
        | no some_child ↦
            let num : ℕ = count (sizes_of blk) radix_base 0 in
            let k : ℕ = cell_size_of (sizes_of blk) in
            let filled : (num == 0) ≡ false = ground arith in
            let bytes : subdirs blk ≡ whole blk ++ footer (sizes_of blk) = rw (filled) refl in
            let size : length (subdirs blk) ≡ length (whole blk) + length (footer (sizes_of blk)) =
              ap (λ (b : List ℕ). length b) bytes
              ∙ length-append (whole blk) (footer (sizes_of blk)) in
            let some_bytes : (length (subdirs blk) == 0) ≡ false =
              ground (arith, length-footer (sizes_of blk), size) in
            let held : AllHeld k blk = cell_size_of-AllHeld blk (omega (arith, bound, size)) in
            rw (some_bytes, at, here, bytes)
              (Gives-bind
                (Reached (visit_children go idbuf radix_base 0 s) (t + sum cnt radix_base 0)
                  (0 + length (whole blk)))
                (Loaded (visit_children go idbuf radix_base 0 s) (t + sum cnt radix_base 0))
                (read_subdirs run file (length x) (length (whole blk ++ footer (sizes_of blk)))
                  idbuf (s, info))
                (λ x. done (x.0, dir x.1 x.2))
                (read_subdirs-footer run go cnt blk idbuf file reads (is_sparse num) x y k t s info
                  held total (split ∙ ap (λ (b : List ℕ). x ++ (b ++ y)) bytes))
                (λ p reached. (reached.0, reached.1)))
      ]
