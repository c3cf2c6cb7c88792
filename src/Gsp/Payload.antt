-- ===== src/Gsp/Payload.antt =====
-- A payload block is read back whole.
use knowdy.Base.{
  ℕ, suc, ◌+◌, ◌*◌, ◌-◌, ◌≤◌, ◌<◌, ◌^◌, ◌≡◌, refl, ap, ◌∙◌, arith, subst, Bool, true, false, List,
  [], ◌∷◌, ◌++◌, length, length-append, drop-append, take-append, ltb, ◌==◌, if◌then◌else◌,
  append-nil, u8, inl, inr, get_elem?, get_elem?-append, sub_size, Bool-cases,
}
use knowdy.Result.{done, ◌>>=◌, or_fault}
use knowdy.Utils.Ids.{radix_base, id_size}
use knowdy.Gsp.{Info}
use knowdy.Gsp.Write.{is_small, is_sparse}
use knowdy.Gsp.Read.{
  field_size, elems_loop, read_cells, from_end, unmarshall_elems, payload_linear_scan, set_linear,
}
use knowdy.Gsp.Format.{
  Parts, sizes_of, count, cells, linear, visit, trailer, footer, payload, whole, cell_size_of,
}
use knowdy.Gsp.Cells.{AllHeld, length-cells, cell_size_of-AllHeld, count_bound}
use knowdy.Gsp.Reading.{
  calls, AllText, mark, tally, elems_loop-positional, elems_loop-keyed, scan_lem,
}

from_end_lem :
    (w c t : List ℕ) (k : ℕ)
    → k ≤ length t
    → length (w ++ (c ++ t)) < 2 ^ 63
    → from_end (w ++ (c ++ t)) k ≡ or_fault (get_elem? t (length t - k))
from_end_lem w c t k h small =
    let at : sub_size (length (w ++ (c ++ t))) k ≡ length w + (length c + (length t - k)) =
      omega (arith, length-append w (c ++ t), length-append c t) in
    rw
      (
        at,
        get_elem?-append w (c ++ t) (length c + (length t - k)),
        get_elem?-append c t (length t - k),
      )
      refl

-- What the reader notes in the directory.
abbrev pub loaded : Parts → Info → Info
loaded v info =
    if is_small (length (whole v))
    then (record (tally v radix_base 0 info) { elems_linear_scan = true })
    else mark v radix_base 0 info

module _ {S : Type 0} (f : S → List ℕ → List ℕ → S) where
  -- The elements, the cells of the footer and what follows them.
  read_cells_lem :
      (w c t idbuf : List ℕ) (keyed : Bool) (k num : ℕ) (s : S × Info)
      → length c ≡ num * field_size keyed k
      → read_cells (calls f) (w ++ (c ++ t)) idbuf keyed k num (length t) s
        ≡ elems_loop (calls f) idbuf keyed k num 0 (c ++ t) w s
  unfolding read_cells
  read_cells_lem w c t idbuf keyed k num s h =
      let whole_size : length (w ++ (c ++ t)) ≡ length w + (length c + length t) =
        omega (arith, length-append w (c ++ t), length-append c t) in
      let fits : ltb (length (w ++ (c ++ t))) (length c + length t) ≡ false = ground arith in
      let left : length (w ++ (c ++ t)) - (length c + length t) ≡ length w = omega arith in
      rw (← h, fits, left, take-append w (c ++ t), drop-append w (c ++ t)) refl

  unmarshall_elems-positional :
      (w c idbuf : List ℕ) (k : ℕ) (s : S × Info)
      → length (w ++ (c ++ trailer false 0 k)) < 2 ^ 63
      → k ≤ 4
      → length c ≡ radix_base * k
      → unmarshall_elems (calls f) (w ++ (c ++ trailer false 0 k)) idbuf s
        ≡ elems_loop (calls f) idbuf false k radix_base 0 (c ++ trailer false 0 k) w s
  unfolding unmarshall_elems
  unmarshall_elems-positional w c idbuf k s small b h =
      let t : List ℕ = trailer false 0 k in
      let k_byte : u8 k ≡ k = omega arith in
      let one : from_end (w ++ (c ++ t)) 1 ≡ done 0 = from_end_lem w c t 1 (omega arith) small in
      let two : from_end (w ++ (c ++ t)) 2 ≡ done k =
        from_end_lem w c t 2 (omega arith) small ∙ ap (λ (x : ℕ). done x) k_byte in
      let fits : ltb (length (w ++ (c ++ t))) 2 ≡ false =
        ground (arith, length-append w (c ++ t), length-append c t) in
      let low : ltb 4 k ≡ false = ground arith in
      rw (one, fits, two, low) (read_cells_lem w c t idbuf false k radix_base s h)

  unmarshall_elems-keyed :
      (w c idbuf : List ℕ) (k num : ℕ) (s : S × Info)
      → length (w ++ (c ++ trailer true num k)) < 2 ^ 63
      → 1 ≤ k
      → k ≤ 4
      → num ≤ radix_base
      → length c ≡ num * suc k
      → unmarshall_elems (calls f) (w ++ (c ++ trailer true num k)) idbuf s
        ≡ elems_loop (calls f) idbuf true k num 0 (c ++ trailer true num k) w s
  unfolding unmarshall_elems
  unmarshall_elems-keyed w c idbuf k num s small p b q h =
      let t : List ℕ = trailer true num k in
      let k_byte : u8 k ≡ k = omega arith in
      let num_byte : u8 num ≡ num = omega arith in
      let one : from_end (w ++ (c ++ t)) 1 ≡ done 1 = from_end_lem w c t 1 (omega arith) small in
      let two : from_end (w ++ (c ++ t)) 2 ≡ done k =
        from_end_lem w c t 2 (omega arith) small ∙ ap (λ (x : ℕ). done x) k_byte in
      let three : from_end (w ++ (c ++ t)) 3 ≡ done num =
        from_end_lem w c t 3 (omega arith) small ∙ ap (λ (x : ℕ). done x) num_byte in
      let fits : ltb (length (w ++ (c ++ t))) 2 ≡ false =
        ground (arith, length-append w (c ++ t), length-append c t) in
      let low : ltb 4 k ≡ false = ground arith in
      let some_size : (k == 0) ≡ false = ground arith in
      let few : ltb radix_base num ≡ false = ground arith in
      rw (one, fits, two, low, some_size, three, few) (read_cells_lem w c t idbuf true k num s h)

  unmarshall_elems-scan :
      (c idbuf : List ℕ) (s : S × Info)
      → length (c ++ (0 ∷ 1 ∷ [])) < 2 ^ 63
      → unmarshall_elems (calls f) (c ++ (0 ∷ 1 ∷ [])) idbuf s
        ≡ (payload_linear_scan (calls f) idbuf c s >>= (λ r. done (set_linear r)))
  unfolding unmarshall_elems
  unmarshall_elems-scan c idbuf s small =
      let t : List ℕ = 0 ∷ 1 ∷ [] in
      let one : from_end (c ++ t) 1 ≡ done 1 = from_end_lem [] c t 1 (omega arith) small in
      let two : from_end (c ++ t) 2 ≡ done 0 = from_end_lem [] c t 2 (omega arith) small in
      let fits : ltb (length (c ++ t)) 2 ≡ false = ground (arith, length-append c t) in
      let front : length (c ++ t) - 2 ≡ length c = omega (arith, length-append c t) in
      rw (one, fits, two, front, take-append c t) refl

  -- Elements with their footer, with keys or without.
  unmarshall_elems-footer :
      (keyed : Bool) (v : Parts) (idbuf : List ℕ) (k : ℕ) (s : S) (info : Info)
      → length idbuf < id_size
      → AllHeld k v
      → length (
          whole v
          ++ (cells keyed (sizes_of v) k radix_base 0
              ++ trailer keyed (count (sizes_of v) radix_base 0) k))
        < 2 ^ 63
      → unmarshall_elems
          (calls f)
          (whole v
            ++ (cells keyed (sizes_of v) k radix_base 0
                ++ trailer keyed (count (sizes_of v) radix_base 0) k))
          idbuf
          (s, info)
        ≡ done (visit f v idbuf radix_base 0 s, mark v radix_base 0 info)
  unmarshall_elems-footer false v idbuf k s info h held small =
      let (low, high, rest, fits) = held 0 (omega arith) in
      let c : List ℕ = cells false (sizes_of v) k radix_base 0 in
      unmarshall_elems-positional (whole v) c idbuf k (s, info) small high
        (length-cells false (sizes_of v) k radix_base 0 low high)
      ∙ subst
          (λ (w : List ℕ).
            elems_loop (calls f) idbuf false k radix_base 0 (c ++ trailer false 0 k) w (s, info)
            ≡ done (visit f v idbuf radix_base 0 s, mark v radix_base 0 info))
          (append-nil (whole v))
          (elems_loop-positional f v idbuf (trailer false 0 k) [] k radix_base 0 s info h held
            (omega arith))
  unmarshall_elems-footer true v idbuf k s info h held small =
      let (low, high, rest, fits) = held 0 (omega arith) in
      let c : List ℕ = cells true (sizes_of v) k radix_base 0 in
      let num : ℕ = count (sizes_of v) radix_base 0 in
      unmarshall_elems-keyed (whole v) c idbuf k num (s, info) small low high
        (count_bound (sizes_of v) radix_base 0)
        (length-cells true (sizes_of v) k radix_base 0 low high)
      ∙ subst
          (λ (w : List ℕ).
            elems_loop (calls f) idbuf true k num 0 (c ++ trailer true num k) w (s, info)
            ≡ done (visit f v idbuf radix_base 0 s, mark v radix_base 0 info))
          (append-nil (whole v))
          (elems_loop-keyed f v idbuf (trailer true num k) [] k radix_base 0 0 s info h held
            (omega arith))

  -- The payload block of a directory, read: the callback has had the elements, in order.
  pub unmarshall_elems-payload :
      (v : Parts) (idbuf : List ℕ) (s : S) (info : Info)
      → length idbuf < id_size
      → AllText v
      → 0 < length (whole v)
      → length (payload v) < 2 ^ 31
      → unmarshall_elems (calls f) (payload v) idbuf (s, info)
        ≡ done (visit f v idbuf radix_base 0 s, loaded v info)
  unfolding payload footer
  unmarshall_elems-payload v idbuf s info h text full small =
      let full' : (length (whole v) == 0) ≡ false = ground arith in
      elim (Bool-cases (is_small (length (whole v)))) [
        | inl scanned ↦
            let bytes : payload v ≡ linear v radix_base 0 ++ (0 ∷ 1 ∷ []) =
              rw (full', scanned) refl in
            let size : length (payload v) ≡ length (linear v radix_base 0 ++ (0 ∷ 1 ∷ [])) =
              ap (λ (xs : List ℕ). length xs) bytes in
            rw
              (
                full',
                scanned,
                unmarshall_elems-scan (linear v radix_base 0) idbuf (s, info) (omega arith),
                scan_lem f v idbuf radix_base 0 s info h text (omega arith) full,
              )
              refl
        | inr large ↦
            let num : ℕ = count (sizes_of v) radix_base 0 in
            let k : ℕ = cell_size_of (sizes_of v) in
            let bytes : payload v ≡ whole v ++ footer (sizes_of v) = rw (full', large) refl in
            let size : length (payload v) ≡ length (whole v ++ footer (sizes_of v)) =
              ap (λ (xs : List ℕ). length xs) bytes in
            rw (full', large)
              (unmarshall_elems-footer (is_sparse num) v idbuf k s info h
                (cell_size_of-AllHeld v
                  (omega (arith, length-append (whole v) (footer (sizes_of v)), size)))
                (omega (arith, size)))
      ]
