-- ===== src/Gsp/Directory.antt =====
-- The payload block of a directory, written.
use knowdy.Base.{
  ℕ, zero, suc, ◌+◌, ◌≤◌, ◌<◌, ◌≡◌, refl, sym, ap, ap₂, ◌∙◌, arith, true, false, List, [], ◌∷◌,
  ◌++◌, length, ◌==◌, append_assoc, append-nil, Bool-cases, inl, inr, subst,
}
use knowdy.Result.{done, ◌>>=◌, Ensures, Ensures-bind}
use knowdy.Utils.Ids.{radix_base}
use knowdy.Utils.Pack.{min_bytes}
use knowdy.Set.{Idx}
use knowdy.Gsp.{Info, new_info, write}
use knowdy.Gsp.Write.{
  Job, Marshall, is_sparse, is_small, build_footer, marshall_elems, payload_block, append_payload,
  add_payload,
}
use knowdy.Gsp.Format.{
  Parts, sizes_of, body, count, max_from, entry, cells, cell_size_of, footer, linear, whole,
  payload, present,
}
use knowdy.Gsp.Cells.{count_bound}
use knowdy.Gsp.Notes.{
  note, note-num_elems, note-cell_max_val, note-sizes, note-num_subdirs, note-block_sizes, child,
  stream, stream-linear,
}
use knowdy.Gsp.Footers.{Appends, build_footer-Appends, write-Appends}
use knowdy.Gsp.Writing.{Writes, marshall_elems-Written}

pub body-ext :
    (v w : Parts) (n i : ℕ) → ((j : ℕ) → i ≤ j → j < i + n → v j ≡ w j) → body v n i ≡ body w n i
unfolding body
body-ext v w zero i h = refl
body-ext v w (suc n) i h =
    ap₂ (λ (a b : List ℕ). a ++ b) (h i (omega arith) (omega arith))
      (body-ext v w n (suc i) (λ j p q. h j (omega arith) (omega arith)))

payload-small :
    (v : Parts)
    → 0 < length (whole v)
    → is_small (length (whole v)) ≡ true
    → payload v ≡ linear v radix_base 0 ++ (0 ∷ 1 ∷ [])
unfolding payload
payload-small v full scanned =
    let filled : (length (whole v) == 0) ≡ false = ground arith in rw (filled, scanned) refl

payload-large :
    (v : Parts)
    → 0 < length (whole v)
    → is_small (length (whole v)) ≡ false
    → payload v ≡ whole v ++ footer (sizes_of v)
unfolding payload
payload-large v full large =
    let filled : (length (whole v) == 0) ≡ false = ground arith in rw (filled, large) refl

payload-none : (v : Parts) → length (whole v) ≡ 0 → payload v ≡ []
unfolding payload
payload-none v empty = rw (empty) refl

-- The footer that `sizes` calls for, from what the writer has noted.
pub build_footer-footer :
    (capacity : ℕ) (sizes noted : ℕ → ℕ) (num max : ℕ) (out : List ℕ)
    → ((j : ℕ) → j < radix_base → noted j ≡ sizes j)
    → num ≡ count sizes radix_base 0
    → max ≡ max_from sizes 0 radix_base 0
    → Appends out
        (footer sizes)
        (build_footer capacity noted num (is_sparse num) (min_bytes max) out)
unfolding footer
build_footer-footer capacity sizes noted num max out same number largest =
    let k : ℕ = cell_size_of sizes in
    let n : ℕ = count sizes radix_base 0 in
    let cells_same : cells (is_sparse n) noted k radix_base 0
        ≡ cells (is_sparse n) sizes k radix_base 0 =
      body-ext (λ i. entry (is_sparse n) (noted i) k i) (λ i. entry (is_sparse n) (sizes i) k i)
        radix_base 0 (λ j p q. ap (λ (s : ℕ). entry (is_sparse n) s k j) (same j (omega arith))) in
    rw (number, largest, ← cells_same) (build_footer-Appends capacity noted n (is_sparse n) k out)

module _ (capacity : ℕ) (cb : Marshall) (enc : ℕ → List ℕ) (writes : Writes cb enc)
    (some_bytes : (n : ℕ) → 0 < length (enc (suc n))) (idxs : ℕ → Idx) (elems : ℕ → ℕ) where
  -- The children, counted once or twice.
  abbrev pub Counted : Info → Type 0
  Counted info =
      (info.subdir_block_size ≡ 0)
      × ((info.num_subdirs == 0) ≡ (count (child idxs) radix_base 0 == 0))

  pub first_note-Counted : Counted (note (present enc elems) idxs radix_base 0 new_info)
  first_note-Counted =
      let number = note-num_subdirs (present enc elems) idxs radix_base 0 new_info (omega arith) in
      ((note-block_sizes (present enc elems) idxs radix_base 0 new_info).0, ground (arith, number))

  note-Counted :
      (info : Info)
      → Counted info
      → info.num_subdirs ≤ radix_base
      → Counted (note (present enc elems) idxs radix_base 0 info)
  note-Counted info (size, number) few =
      let counted = note-num_subdirs (present enc elems) idxs radix_base 0 info (omega arith) in
      (
        (note-block_sizes (present enc elems) idxs radix_base 0 info).0 ∙ size,
        ground (arith, counted, number),
      )

  -- The end of a payload block with keys.
  write_end :
      (p : List ℕ) (info : Info) (out : List ℕ)
      → p ≡ out ++ (0 ∷ 1 ∷ [])
      → Counted info
      → Ensures
          (λ (j : Job). (j.1 ≡ p) × Counted j.0)
          (write capacity (0 ∷ []) out
            >>= (λ o. write capacity (1 ∷ []) o >>= (λ o. done (info, o))))
  write_end p info out e counted =
      let Post : Job → Type 0 = λ j. (j.1 ≡ p) × Counted j.0 in
      Ensures-bind (λ (o : List ℕ). o ≡ out ++ (0 ∷ [])) Post (write capacity (0 ∷ []) out)
        (λ o. write capacity (1 ∷ []) o >>= (λ o. done (info, o)))
        (write-Appends capacity (0 ∷ []) out)
        (λ o1 e1.
          Ensures-bind (λ (o : List ℕ). o ≡ o1 ++ (1 ∷ [])) Post (write capacity (1 ∷ []) o1)
            (λ o. done (info, o)) (write-Appends capacity (1 ∷ []) o1)
            (λ o2 e2. (
              e2
                  ∙ (ap (λ (z : List ℕ). z ++ (1 ∷ [])) e1
                      ∙ (append_assoc out (0 ∷ []) (1 ∷ []) ∙ sym e)),
              counted,
            )))

  payload_block-small :
      (info : Info)
      → Counted info
      → info.num_subdirs ≤ radix_base
      → payload (present enc elems) ≡ linear (present enc elems) radix_base 0 ++ (0 ∷ 1 ∷ [])
      → Ensures
          (λ (j : Job). (j.1 ≡ payload (present enc elems)) × Counted j.0)
          (marshall_elems capacity cb true idxs elems radix_base 0
              (record info { num_elems = 0 }, [])
            >>= (λ s.
                write capacity (0 ∷ []) s.1
                >>= (λ o. write capacity (1 ∷ []) o >>= (λ o. done (s.0, o)))))
  payload_block-small info counted few bytes =
      let v : Parts = present enc elems in
      let infoz : Info = record info { num_elems = 0 } in
      Ensures-bind
        (λ (j : Job).
          (j.0 ≡ note v idxs radix_base 0 infoz) × (j.1 ≡ stream true v idxs radix_base 0 infoz))
        (λ (j : Job). (j.1 ≡ payload v) × Counted j.0)
        (marshall_elems capacity cb true idxs elems radix_base 0 (infoz, []))
        (λ s.
          write capacity (0 ∷ []) s.1 >>= (λ o. write capacity (1 ∷ []) o >>= (λ o. done (s.0, o))))
        (marshall_elems-Written capacity cb enc writes some_bytes true idxs elems radix_base 0 infoz
          [])
        (λ j e.
          write_end (payload v) j.0 j.1
            (bytes
              ∙ ap (λ (z : List ℕ). z ++ (0 ∷ 1 ∷ []))
                  (sym (e.1 ∙ stream-linear v idxs radix_base 0 infoz refl (omega arith))))
            (subst Counted (sym e.0) (note-Counted infoz counted few)))

  payload_block-large :
      (info : Info) (out : List ℕ)
      → info ≡ note (present enc elems) idxs radix_base 0 new_info
      → out ≡ whole (present enc elems)
      → payload (present enc elems)
        ≡ whole (present enc elems) ++ footer (sizes_of (present enc elems))
      → Counted info
      → Ensures
          (λ (j : Job). (j.1 ≡ payload (present enc elems)) × Counted j.0)
          (build_footer capacity info.elem_block_sizes info.num_elems
              (is_sparse info.num_elems)
              (min_bytes info.cell_max_val)
              out
            >>= (λ o. done (info, o)))
  payload_block-large info out ei eo bytes counted =
      let v : Parts = present enc elems in
      let first : Info = note v idxs radix_base 0 new_info in
      Ensures-bind (λ (o : List ℕ). o ≡ out ++ footer (sizes_of v))
        (λ (j : Job). (j.1 ≡ payload v) × Counted j.0)
        (build_footer capacity info.elem_block_sizes info.num_elems (is_sparse info.num_elems)
          (min_bytes info.cell_max_val) out)
        (λ o. done (info, o))
        (build_footer-footer capacity (sizes_of v) info.elem_block_sizes info.num_elems
          info.cell_max_val out
          (λ j h.
            ap (λ (d : Info). d.elem_block_sizes j) ei
            ∙ note-sizes v idxs radix_base 0 new_info (λ j p. refl) (λ j p. absurd (omega arith)) j
                (omega arith))
          (ap (λ (d : Info). d.num_elems) ei
            ∙ (note-num_elems v idxs radix_base 0 new_info (omega arith) ∙ omega arith))
          (ap (λ (d : Info). d.cell_max_val) ei ∙ note-cell_max_val v idxs radix_base 0 new_info))
        (λ o e. (e ∙ (ap (λ (z : List ℕ). z ++ footer (sizes_of v)) eo ∙ sym bytes), counted))

  pub payload_block-payload :
      (info : Info) (out : List ℕ)
      → info ≡ note (present enc elems) idxs radix_base 0 new_info
      → out ≡ whole (present enc elems)
      → 0 < length out
      → Ensures
          (λ (j : Job). (j.1 ≡ payload (present enc elems)) × Counted j.0)
          (payload_block capacity cb idxs elems (info, out))
  unfolding payload_block
  payload_block-payload info out ei eo full =
      let v : Parts = present enc elems in
      let size : length out ≡ length (whole v) = ap (λ (z : List ℕ). length z) eo in
      let counted : Counted info = subst Counted (sym ei) first_note-Counted in
      let few : info.num_subdirs ≤ radix_base = omega (
        arith,
        ap (λ (d : Info). d.num_subdirs) ei,
        note-num_subdirs v idxs radix_base 0 new_info (omega arith),
        count_bound (child idxs) radix_base 0,
      ) in
      elim (Bool-cases (is_small (length out))) [
        | inl scanned ↦ rw (scanned) (
            payload_block-small info counted few
              (payload-small v (omega arith) (ap is_small (sym size) ∙ scanned)))
        | inr large ↦ rw (large) (
            payload_block-large info out ei eo
              (payload-large v (omega arith) (ap is_small (sym size) ∙ large)) counted)
      ]

  -- After the payload block.
  abbrev pub HasPayload : List ℕ → Job → Type 0
  HasPayload file j =
      (j.1 ≡ file ++ payload (present enc elems))
      × (j.0.payload_block_size ≡ length (payload (present enc elems)))
      × (j.0.total_size ≡ length (payload (present enc elems)))
      × Counted j.0

  pub add_payload-HasPayload :
      (file : List ℕ) (info : Info) (out : List ℕ)
      → info ≡ note (present enc elems) idxs radix_base 0 new_info
      → out ≡ whole (present enc elems)
      → Ensures (HasPayload file) (add_payload capacity cb idxs elems file (info, out))
  unfolding add_payload append_payload
  add_payload-HasPayload file info out ei eo =
      let v : Parts = present enc elems in
      let size : length out ≡ length (whole v) = ap (λ (z : List ℕ). length z) eo in
      let (a, b, c) = note-block_sizes v idxs radix_base 0 new_info in
      elim (Bool-cases (length out == 0)) [
        | inl empty ↦
            let none_written : payload v ≡ [] = payload-none v (ground arith) in
            let zero_size : 0 ≡ length (payload v) =
              sym (ap (λ (z : List ℕ). length z) none_written) in
            rw (empty) (
              sym (append-nil file) ∙ ap (λ (z : List ℕ). file ++ z) (sym none_written),
              ap (λ (d : Info). d.payload_block_size) ei ∙ (b ∙ zero_size),
              ap (λ (d : Info). d.total_size) ei ∙ (c ∙ zero_size),
              subst Counted (sym ei) first_note-Counted,
            )
        | inr full ↦ rw (full) (
            Ensures-bind (λ (j : Job). (j.1 ≡ payload v) × Counted j.0) (HasPayload file)
              (payload_block capacity cb idxs elems (info, out)) (λ s. done (append_payload file s))
              (payload_block-payload info out ei eo (ground arith))
              (λ j e. (
                ap (λ (z : List ℕ). file ++ z) e.0,
                ap (λ (z : List ℕ). length z) e.0,
                ap (λ (z : List ℕ). length z) e.0,
                e.1,
              )))
      ]
