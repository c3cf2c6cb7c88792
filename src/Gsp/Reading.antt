-- ===== src/Gsp/Reading.antt =====
-- The elements of a directory, read out of the bytes of its payload block.
use knowdy.Base.{
  ℕ, zero, suc, ◌+◌, ◌≤◌, ◌<◌, ◌≡◌, refl, arith, subst, true, false, some, List, [], ◌∷◌, ◌++◌,
  length, length-append, drop-append, take-append, ltb, leb, ◌==◌, if◌then◌else◌, append_assoc,
  append-nil, u64, ◌⊎◌, inl, inr,
}
use knowdy.Result.{done}
use knowdy.Utils.Ids.{radix_base, id_size}
use knowdy.Utils.Pack.{pack_int}
use knowdy.Set.{put}
use knowdy.Gsp.{Info, seq}
use knowdy.Gsp.Read.{Unmarshall, read_cell, elems_loop, scan_loop, payload_linear_scan}
use knowdy.Gsp.Format.{Parts, sizes_of, body, count, entry, cells, separated, linear, visit}
use knowdy.Gsp.Cells.{AllHeld, Holds, cell-false, cell-true, drop-pack}

-- What the loops note of the element at a position.
abbrev pub found : ℕ → ℕ → Info → Info
found size i info = record info {
  elem_block_sizes = put info.elem_block_sizes i size;
  num_elems = u64 (info.num_elems + 1);
}

abbrev pub mark_cell : ℕ → ℕ → Info → Info
mark_cell size i info = if size == 0 then info else found size i info

unfoldable pub mark : Parts → ℕ → ℕ → Info → Info
mark v zero i info = info
mark v (suc n) i info = mark v n (suc i) (mark_cell (sizes_of v i) i info)

pub List-cases {ℓ} :
    {A : Type ℓ} (xs : List A) → (xs ≡ []) ⊎ ((x : A) × (ys : List A) × (xs ≡ x ∷ ys))
List-cases [] = inl refl
List-cases (x ∷ xs) = inr (x, xs, refl)

module _ {S : Type 0} (f : S → List ℕ → List ℕ → S) where
  -- A callback that does not fail.
  abbrev pub calls : Unmarshall S
  calls s id val = done (f s id val)

  read_cell_lem :
      (idbuf w e : List ℕ) (s : S) (info : Info) (i : ℕ)
      → read_cell calls idbuf (w ++ e) (s, info) (seq i, some i, length w)
        ≡ done (
          if length w == 0 then s else f s (idbuf ++ (seq i ∷ [])) w,
          mark_cell (length w) i info,
          e,
        )
  unfolding read_cell
  read_cell_lem idbuf [] e s info i = refl
  read_cell_lem idbuf (x ∷ w) e s info i =
      let here : (length (x ∷ w) == 0) ≡ false = ground arith in
      let fits : ltb (length (x ∷ w ++ e)) (length (x ∷ w)) ≡ false =
        ground (arith, length-append w e) in
      rw (here, fits, take-append w e, drop-append w e) refl

  -- A footer with a cell for each position.
  pub elems_loop-positional :
      (v : Parts) (idbuf tl e : List ℕ) (k n i : ℕ) (s : S) (info : Info)
      → length idbuf < id_size
      → AllHeld k v
      → i + n ≤ radix_base
      → elems_loop calls idbuf false k n i
          (cells false (sizes_of v) k n i ++ tl)
          (body v n i ++ e)
          (s, info)
        ≡ done (visit f v idbuf n i s, mark v n i info)
  unfolding elems_loop entry body visit mark
  elems_loop-positional v idbuf tl e k zero i s info h held b = refl
  elems_loop-positional v idbuf tl e k (suc n) i s info h held b =
      let room : leb id_size (length idbuf) ≡ false = ground arith in
      let hi : Holds k (sizes_of v i) = held i (omega arith) in
      rw
        (
          room,
          append_assoc (pack_int (sizes_of v i) k) (cells false (sizes_of v) k n (suc i)) tl,
          append_assoc (v i) (body v n (suc i)) e,
          cell-false i i (sizes_of v i) k (cells false (sizes_of v) k n (suc i) ++ tl) hi,
          read_cell_lem idbuf (v i) (body v n (suc i) ++ e) s info i,
          drop-pack (sizes_of v i) k (cells false (sizes_of v) k n (suc i) ++ tl) hi.0 hi.1,
        )
        (elems_loop-positional v idbuf tl e k n (suc i)
          (if sizes_of v i == 0 then s else f s (idbuf ++ (seq i ∷ [])) (v i))
          (mark_cell (sizes_of v i) i info) h held (omega arith))

  -- A footer with cells for the positions that are not empty.
  pub elems_loop-keyed :
      (v : Parts) (idbuf tl e : List ℕ) (k n i j : ℕ) (s : S) (info : Info)
      → length idbuf < id_size
      → AllHeld k v
      → i + n ≤ radix_base
      → elems_loop calls idbuf true k
          (count (sizes_of v) n i)
          j
          (cells true (sizes_of v) k n i ++ tl)
          (body v n i ++ e)
          (s, info)
        ≡ done (visit f v idbuf n i s, mark v n i info)
  unfolding elems_loop entry body visit mark count
  elems_loop-keyed v idbuf tl e k zero i j s info h held b = refl
  elems_loop-keyed v idbuf tl e k (suc n) i j s info h held b = elim (List-cases (v i)) [
    | inl none_here ↦
        rw (none_here) (elems_loop-keyed v idbuf tl e k n (suc i) j s info h held (omega arith))
    | inr (x, w, here) ↦
        let room : leb id_size (length idbuf) ≡ false = ground arith in
        let some_here : (length (x ∷ w) == 0) ≡ false = ground arith in
        let hi : Holds k (length (x ∷ w)) =
          subst (λ (y : List ℕ). Holds k (length y)) here (held i (omega arith)) in
        rw
          (
            here,
            some_here,
            room,
            append_assoc (pack_int (length (x ∷ w)) k) (cells true (sizes_of v) k n (suc i)) tl,
            append_assoc w (body v n (suc i)) e,
            cell-true i j (length (x ∷ w)) k (cells true (sizes_of v) k n (suc i) ++ tl)
                (omega arith) hi,
            read_cell_lem idbuf (x ∷ w) (body v n (suc i) ++ e) s info i,
            some_here,
            drop-pack (length (x ∷ w)) k (cells true (sizes_of v) k n (suc i) ++ tl) hi.0 hi.1,
          )
          (elems_loop-keyed v idbuf tl e k n (suc i) (suc j) (f s (idbuf ++ (seq i ∷ [])) (x ∷ w))
            (found (length (x ∷ w)) i info) h held (omega arith))
  ]

-- A scan notes the elements' number only.
abbrev pub one_more : Info → Info
one_more info = record info { num_elems = u64 (info.num_elems + 1) }

unfoldable pub tally : Parts → ℕ → ℕ → Info → Info
tally v zero i info = info
tally v (suc n) i info = tally v n (suc i) (if sizes_of v i == 0 then info else one_more info)

abbrev pub NoNul : List ℕ → Type 0
NoNul [] = Unit
NoNul (zero ∷ w) = ⊥
NoNul (suc c ∷ w) = NoNul w

abbrev pub AllText : Parts → Type 0
AllText v = (i : ℕ) → i < radix_base → NoNul (v i)

module _ {S : Type 0} (f : S → List ℕ → List ℕ → S) where
  scan_loop-text :
      (idbuf : List ℕ) (key : ℕ) (acc w rest : List ℕ) (s : S × Info)
      → NoNul w
      → scan_loop (calls f) idbuf key acc (w ++ rest) s
        ≡ scan_loop (calls f) idbuf key (acc ++ w) rest s
  unfolding scan_loop
  scan_loop-text idbuf key acc [] rest s h = rw (append-nil acc) refl
  scan_loop-text idbuf key acc (zero ∷ w) rest s h = elim h [ ]
  scan_loop-text idbuf key acc (suc c ∷ w) rest s h =
      rw (← append_assoc acc (suc c ∷ []) w)
        (scan_loop-text idbuf key (acc ++ (suc c ∷ [])) w rest s h)

  scan_loop-separated :
      (v : Parts) (idbuf : List ℕ) (key : ℕ) (acc : List ℕ) (n i : ℕ) (s : S) (info : Info)
      → AllText v
      → i + n ≤ radix_base
      → scan_loop (calls f) idbuf key acc (body (separated v) n i) (s, info)
        ≡ done (visit f v idbuf n i (f s (idbuf ++ (key ∷ [])) acc), tally v n i (one_more info))
  unfolding scan_loop body separated visit tally
  scan_loop-separated v idbuf key acc zero i s info text b = refl
  scan_loop-separated v idbuf key acc (suc n) i s info text b = elim (List-cases (v i)) [
    | inl none_here ↦
        rw (none_here) (scan_loop-separated v idbuf key acc n (suc i) s info text (omega arith))
    | inr (x, w, here) ↦
        let some_here : (length (x ∷ w) == 0) ≡ false = ground arith in
        let txt : NoNul (x ∷ w) = subst NoNul here (text i (omega arith)) in
        let s' : S = f s (idbuf ++ (key ∷ [])) acc in
        rw
          (
            here,
            some_here,
            scan_loop-text idbuf (seq i) [] (x ∷ w) (body (separated v) n (suc i))
                (s', one_more info) txt,
          )
          (scan_loop-separated v idbuf (seq i) (x ∷ w) n (suc i) s' (one_more info) text
            (omega arith))
  ]

  -- Records that are scanned.
  pub scan_lem :
      (v : Parts) (idbuf : List ℕ) (n i : ℕ) (s : S) (info : Info)
      → length idbuf < id_size
      → AllText v
      → i + n ≤ radix_base
      → 0 < length (body v n i)
      → payload_linear_scan (calls f) idbuf (linear v n i) (s, info)
        ≡ done (visit f v idbuf n i s, tally v n i info)
  unfolding payload_linear_scan linear visit tally body
  scan_lem v idbuf zero i s info h text b full = absurd (omega arith)
  scan_lem v idbuf (suc n) i s info h text b full = elim (List-cases (v i)) [
    | inl none_here ↦ rw (none_here) (
        scan_lem v idbuf n (suc i) s info h text (omega arith)
          (subst (λ (y : List ℕ). 0 < length (y ++ body v n (suc i))) none_here full))
    | inr (x, w, here) ↦
        let some_here : (length (x ∷ w) == 0) ≡ false = ground arith in
        let room : leb id_size (length idbuf) ≡ false = ground arith in
        let txt : NoNul (x ∷ w) = subst NoNul here (text i (omega arith)) in
        rw
          (
            here,
            some_here,
            room,
            scan_loop-text idbuf (seq i) [] (x ∷ w) (body (separated v) n (suc i)) (s, info) txt,
          )
          (scan_loop-separated v idbuf (seq i) (x ∷ w) n (suc i) s info text (omega arith))
  ]
