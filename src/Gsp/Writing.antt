-- ===== src/Gsp/Writing.antt =====
-- The elements of a directory, written.
use knowdy.Base.{
  ℕ, zero, suc, ◌<◌, ◌≡◌, refl, sym, ap, ◌∙◌, arith, Bool, true, false, List, [], ◌∷◌, ◌++◌, length,
  ◌==◌, subst, if◌then◌else◌, append_assoc, append-nil, Bool-cases, inl, inr,
}
use knowdy.Result.{Result, done, ◌>>=◌, Ensures, Ensures-bind}
use knowdy.Set.{Idx}
use knowdy.Gsp.{Info, write, seq}
use knowdy.Gsp.Write.{
  Job, Marshall, write_key, marshall_elem, marshall_cell, marshall_elems, note_elem, note_idx,
}
use knowdy.Gsp.Format.{Parts, sizes_of, present}
use knowdy.Gsp.Notes.{note_cell, note, key_bytes, part_bytes, stream, note_idx-keeps}
use knowdy.Gsp.Footers.{Appends, Appends-bind, Appends-none, write-Appends}

-- The callback appends the bytes of an element and returns their number.
abbrev pub Writes : Marshall → (ℕ → List ℕ) → Type 0
Writes cb enc =
    (elem : ℕ) (out : List ℕ)
    → Ensures (λ r. (r.0 ≡ length (enc elem)) × (r.1 ≡ out ++ enc elem)) (cb elem out)

-- A directory's record and an output.
abbrev pub Written : Info → List ℕ → Result Job → Type 0
Written info out r = Ensures (λ j. (j.0 ≡ info) × (j.1 ≡ out)) r

module _ (capacity : ℕ) (cb : Marshall) (enc : ℕ → List ℕ) (writes : Writes cb enc)
    (some_bytes : (n : ℕ) → 0 < length (enc (suc n))) where
  write_key-Appends :
      (keyed : Bool) (num i : ℕ) (out : List ℕ)
      → Appends out (key_bytes keyed num i) (write_key capacity keyed num i out)
  unfolding write_key
  write_key-Appends false num i out = Appends-none out
  write_key-Appends true num i out = elim (Bool-cases (num == 0)) [
    | inl first ↦ rw (first) (write-Appends capacity (seq i ∷ []) out)
    | inr later ↦ rw (later) (
        Appends-bind out (0 ∷ []) (seq i ∷ []) (write capacity (0 ∷ []) out)
          (λ o. write capacity (seq i ∷ []) o) (write-Appends capacity (0 ∷ []) out)
          (λ o. write-Appends capacity (seq i ∷ []) o))
  ]

  marshall_elem-Written :
      (keyed : Bool) (i elem : ℕ) (info : Info) (out : List ℕ)
      → Written
          (note_elem (length (enc elem)) i info)
          (out ++ (key_bytes keyed info.num_elems i ++ enc elem))
          (marshall_elem capacity cb keyed i elem (info, out))
  unfolding marshall_elem
  marshall_elem-Written keyed i elem info out =
      let key : List ℕ = key_bytes keyed info.num_elems i in
      let Post : Job → Type 0 =
        λ j. (j.0 ≡ note_elem (length (enc elem)) i info) × (j.1 ≡ out ++ (key ++ enc elem)) in
      Ensures-bind (λ (o : List ℕ). o ≡ out ++ key) Post
        (write_key capacity keyed info.num_elems i out)
        (λ o. cb elem o >>= (λ r. done (note_elem r.0 i info, r.1)))
        (write_key-Appends keyed info.num_elems i out)
        (λ o e.
          Ensures-bind (λ r. (r.0 ≡ length (enc elem)) × (r.1 ≡ o ++ enc elem)) Post (cb elem o)
            (λ r. done (note_elem r.0 i info, r.1)) (writes elem o)
            (λ r w. (
              ap (λ (n : ℕ). note_elem n i info) w.0,
              w.1 ∙ (ap (λ (z : List ℕ). z ++ enc elem) e ∙ append_assoc out key (enc elem)),
            )))

  marshall_cell-Written :
      (keyed : Bool) (i elem : ℕ) (idx : Idx) (info : Info) (out : List ℕ)
      → Written
          (note_cell (length (if elem == 0 then [] else enc elem)) idx i info)
          (out ++ part_bytes keyed info.num_elems i (if elem == 0 then [] else enc elem))
          (marshall_cell capacity cb keyed i idx elem (info, out))
  unfolding marshall_cell
  marshall_cell-Written keyed i zero idx info out = (refl, sym (append-nil out))
  marshall_cell-Written keyed i (suc n) idx info out =
      let some_elem : (suc n == 0) ≡ false = ground arith in
      let filled : (length (enc (suc n)) == 0) ≡ false = ground (arith, some_bytes n) in
      rw (some_elem, filled)
        (subst
          (λ (num : ℕ).
            Written (note_elem (length (enc (suc n))) i (note_idx idx info))
              (out ++ (key_bytes keyed num i ++ enc (suc n)))
              (marshall_elem capacity cb keyed i (suc n) (note_idx idx info, out)))
          (note_idx-keeps idx info).0
          (marshall_elem-Written keyed i (suc n) (note_idx idx info) out))

  -- The loop over the elements.
  pub marshall_elems-Written :
      (keyed : Bool) (idxs : ℕ → Idx) (elems : ℕ → ℕ) (n i : ℕ) (info : Info) (out : List ℕ)
      → Written
          (note (present enc elems) idxs n i info)
          (out ++ stream keyed (present enc elems) idxs n i info)
          (marshall_elems capacity cb keyed idxs elems n i (info, out))
  unfolding marshall_elems note stream
  marshall_elems-Written keyed idxs elems zero i info out = (refl, sym (append-nil out))
  marshall_elems-Written keyed idxs elems (suc n) i info out =
      let v : Parts = present enc elems in
      let info1 : Info = note_cell (sizes_of v i) (idxs i) i info in
      let out1 : List ℕ = out ++ part_bytes keyed info.num_elems i (v i) in
      let rest : List ℕ = stream keyed v idxs n (suc i) info1 in
      Ensures-bind (λ j. (j.0 ≡ info1) × (j.1 ≡ out1))
        (λ j.
          (j.0 ≡ note v idxs n (suc i) info1)
          × (j.1 ≡ out ++ (part_bytes keyed info.num_elems i (v i) ++ rest)))
        (marshall_cell capacity cb keyed i (idxs i) (elems i) (info, out))
        (λ j. marshall_elems capacity cb keyed idxs elems n (suc i) j)
        (marshall_cell-Written keyed i (elems i) (idxs i) info out)
        (λ j e.
          rw (e.0, e.1, ← append_assoc out (part_bytes keyed info.num_elems i (v i)) rest)
            (marshall_elems-Written keyed idxs elems n (suc i) info1 out1))
