-- ===== src/Gsp/Growing.antt =====
-- The subdirectories and the size of a directory: the file grows by their bytes.
use knowdy.Base.{
  ℕ, zero, suc, ◌+◌, ◌≤◌, ◌<◌, ◌^◌, ◌≡◌, refl, sym, ap, ap₂, ◌∙◌, arith, true, false, List, [], ◌∷◌,
  ◌++◌, length, length-append, ◌==◌, append_assoc, append-nil, Bool-cases, inl, inr, subst, u64, u8,
}
use knowdy.Result.{Result, done, ◌>>=◌, Ensures, Ensures-bind}
use knowdy.Utils.Ids.{radix_base}
use knowdy.Utils.Pack.{pack_int, min_bytes}
use knowdy.Utils.Pack.Laws.{length-pack_int, min_bytes_least}
use knowdy.Set.{Idx, null, node}
use knowdy.Gsp.{write}
use knowdy.Gsp.Write.{
  Job, Subdirs, is_sparse, build_footer, append_footer, marshall_subdirs, subdirs_loop, add_subdirs,
  append_size, write_size, size_length,
}
use knowdy.Gsp.Format.{Parts, sizes_of, count, footer, whole, subdirs, size_bytes}
use knowdy.Gsp.Notes.{child}
use knowdy.Gsp.Footers.{Appends, Appends-bind, write-Appends}
use knowdy.Gsp.Trees.{Blocks, Children, subdirs_loop-Children}
use knowdy.Gsp.Directory.{build_footer-footer}

-- Positions that are empty in the file are those without a child.
count-same :
    (s t : ℕ → ℕ) (n i : ℕ) → ((j : ℕ) → (s j == 0) ≡ (t j == 0)) → count s n i ≡ count t n i
unfolding count
count-same s t zero i h = refl
count-same s t (suc n) i h = rw (h i, count-same s t n (suc i) h) refl

child-same :
    (idxs : ℕ → Idx) (run : ℕ → List ℕ → Result Job) (blk : Parts) (j : ℕ)
    → Blocks idxs run blk
    → (sizes_of blk j == 0) ≡ (child idxs j == 0)
child-same idxs run blk j blocks = go (idxs j) refl
  where
    go : (idx : Idx) → idxs j ≡ idx → (sizes_of blk j == 0) ≡ (child idxs j == 0)
    go null e = rw (e, (blocks j).0 e) refl
    go (node idxs' elems) e =
        let some_bytes : (sizes_of blk j == 0) ≡ false =
          ground (arith, (blocks j).1 idxs' elems e) in
        rw (e, some_bytes) refl

size_length-size_bytes :
    (size : ℕ)
    → size < 2 ^ 31
    → (size_length size ≡ length (size_bytes size)) × (size_length size ≤ 5)
unfolding size_bytes
size_length-size_bytes zero h = (refl, omega arith)
size_length-size_bytes (suc n) h =
    let (fit, low, high, least) = min_bytes_least (suc n) (omega arith) in
    let k : ℕ = min_bytes (suc n) in
    let some_size : (suc n == 0) ≡ false = ground arith in
    rw (some_size) (
      sym (
          length-append (pack_int (suc n) k) (u8 k ∷ [])
          ∙ ap (λ (m : ℕ). m + 1) (length-pack_int (suc n) k low high)),
      omega arith,
    )

-- The directory's record and the file: `n` bytes so far, `p` of them the payload.
abbrev pub Grown : List ℕ → ℕ → ℕ → Job → Type 0
Grown file p n j = (j.1 ≡ file) × (j.0.payload_block_size ≡ p) × (j.0.total_size ≡ n)

module _ (capacity : ℕ) where
  marshall_subdirs-Grown :
      (idxs : ℕ → Idx) (run : ℕ → List ℕ → Result Job) (blk : Parts) (depth p : ℕ) (s : Job)
      → Blocks idxs run blk
      → s.0.payload_block_size ≡ p
      → s.0.total_size ≡ p
      → s.0.subdir_block_size ≡ 0
      → p + length (whole blk ++ footer (sizes_of blk)) < 2 ^ 63
      → Ensures
          (Grown
            (s.1 ++ (whole blk ++ footer (sizes_of blk)))
            p
            (p + length (whole blk ++ footer (sizes_of blk))))
          (marshall_subdirs capacity idxs run depth s)
  unfolding marshall_subdirs append_footer
  marshall_subdirs-Grown idxs run blk depth p (info, file) blocks ep et es small =
      let start : Subdirs = (λ i. 0, record info { cell_max_val = 0; num_subdirs = 0 }, file) in
      let w : List ℕ = whole blk in
      let ft : List ℕ = footer (sizes_of blk) in
      let size : length (w ++ ft) ≡ length w + length ft = length-append w ft in
      let Post : Job → Type 0 = Grown (file ++ (w ++ ft)) p (p + length (w ++ ft)) in
      Ensures-bind (Children blk radix_base 0 start) Post
        (subdirs_loop idxs run depth radix_base 0 start)
        (λ t.
          build_footer capacity t.0 t.1.num_subdirs (is_sparse t.1.num_subdirs)
            (min_bytes t.1.cell_max_val) []
          >>= (λ o. done (append_footer t o)))
        (subdirs_loop-Children idxs run blk depth radix_base 0 start blocks (omega arith)
          (omega arith) (omega (arith, es)) (λ j h. refl) (λ j h. absurd (omega arith)))
        (λ t (f, num, max, sbs, at, same).
          Ensures-bind (λ (o : List ℕ). o ≡ [] ++ ft) Post
            (build_footer capacity t.0 t.1.num_subdirs (is_sparse t.1.num_subdirs)
              (min_bytes t.1.cell_max_val) [])
            (λ o. done (append_footer t o))
            (build_footer-footer capacity (sizes_of blk) t.0 t.1.num_subdirs t.1.cell_max_val []
              (λ j h. at j (omega arith)) (num ∙ omega arith) max)
            (λ o e.
              let o_size : length o ≡ length ft = ap (λ (z : List ℕ). length z) e in
              (
                ap₂ (λ (a b : List ℕ). a ++ b) f e ∙ append_assoc file w ft,
                same.1 ∙ ep,
                omega (arith, same.0, et, sbs, es),
              )))

  pub add_subdirs-Grown :
      (idxs : ℕ → Idx) (run : ℕ → List ℕ → Result Job) (blk : Parts) (depth p : ℕ) (s : Job)
      → Blocks idxs run blk
      → s.0.payload_block_size ≡ p
      → s.0.total_size ≡ p
      → s.0.subdir_block_size ≡ 0
      → (s.0.num_subdirs == 0) ≡ (count (child idxs) radix_base 0 == 0)
      → p + length (subdirs blk) < 2 ^ 63
      → Ensures
          (Grown (s.1 ++ subdirs blk) p (p + length (subdirs blk)))
          (add_subdirs capacity idxs run depth s)
  unfolding add_subdirs subdirs
  add_subdirs-Grown idxs run blk depth p s blocks ep et es counted small =
      let same : count (sizes_of blk) radix_base 0 ≡ count (child idxs) radix_base 0 =
        count-same (sizes_of blk) (child idxs) radix_base 0
          (λ j. child-same idxs run blk j blocks) in
      elim (Bool-cases (count (sizes_of blk) radix_base 0 == 0)) [
        | inl empty ↦
            let none_there : (s.0.num_subdirs == 0) ≡ true =
              counted ∙ (ap (λ (n : ℕ). n == 0) (sym same) ∙ empty) in
            rw (empty, none_there) (sym (append-nil s.1), ep, omega (arith, et))
        | inr filled ↦
            let there : (s.0.num_subdirs == 0) ≡ false =
              counted ∙ (ap (λ (n : ℕ). n == 0) (sym same) ∙ filled) in
            let bytes : subdirs blk ≡ whole blk ++ footer (sizes_of blk) = rw (filled) refl in
            rw (filled, there)
              (marshall_subdirs-Grown idxs run blk depth p s blocks ep et es
                (subst (λ (d : List ℕ). p + length d < 2 ^ 63) bytes small))
      ]

  write_size-Appends :
      (size : ℕ) (out : List ℕ) → Appends out (size_bytes size) (write_size capacity size out)
  unfolding write_size size_bytes
  write_size-Appends size out = elim (Bool-cases (size == 0)) [
    | inl empty ↦ rw (empty) (write-Appends capacity (0 ∷ []) out)
    | inr filled ↦
        let k : ℕ = min_bytes size in
        rw (filled) (
          Appends-bind out (pack_int size k) (u8 k ∷ []) (write capacity (pack_int size k) out)
            (λ o. write capacity (u8 k ∷ []) o) (write-Appends capacity (pack_int size k) out)
            (λ o. write-Appends capacity (u8 k ∷ []) o))
  ]

  -- The size of the payload block ends a block.
  pub append_size-Grown :
      (p n : ℕ) (s : Job)
      → s.0.payload_block_size ≡ p
      → s.0.total_size ≡ n
      → p < 2 ^ 31
      → n < 2 ^ 62
      → Ensures (Grown (s.1 ++ size_bytes p) p (n + length (size_bytes p))) (append_size capacity s)
  unfolding append_size
  append_size-Grown p n (info, file) ep et small total =
      let own = size_length-size_bytes info.payload_block_size (omega (arith, ep)) in
      let size : length (size_bytes info.payload_block_size) ≡ length (size_bytes p) =
        ap (λ (b : ℕ). length (size_bytes b)) ep in
      Ensures-bind (λ (o : List ℕ). o ≡ size_bytes info.payload_block_size)
        (Grown (file ++ size_bytes p) p (n + length (size_bytes p)))
        (write_size capacity info.payload_block_size [])
        (λ o. done (
          record info { total_size = u64 (info.total_size + size_length info.payload_block_size) },
          file ++ o,
        ))
        (write_size-Appends info.payload_block_size [])
        (λ o e. (
          ap (λ (z : List ℕ). file ++ z) (e ∙ ap size_bytes ep),
          ep,
          omega (arith, et, size, own.0, own.1),
        ))
