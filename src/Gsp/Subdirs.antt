-- ===== src/Gsp/Subdirs.antt =====
-- The part of a block that holds the subdirectories, read.
use knowdy.Base.{
  ℕ, suc, ◌+◌, ◌*◌, ◌-◌, ◌≤◌, ◌<◌, ◌^◌, ◌≡◌, refl, sym, ap, ◌∙◌, arith, subst, Bool, true, false,
  List, [], ◌++◌, length, length-append, ltb, ◌==◌, append_assoc, append-nil, u64, u8, get_or,
  get_or-append, sub_size,
}
use native.Mathlib.Nat.{mul-le-mul_right}
use knowdy.Result.{Result, done, Gives}
use knowdy.Utils.Ids.{radix_base}
use knowdy.Gsp.{Info, Dir, no_dir}
use knowdy.Gsp.Read.{read}
use knowdy.Gsp.Load.{Place, read_subdirs, subdirs_loop}
use knowdy.Gsp.Format.{Parts, sizes_of, count, cells, visit_children, sum, whole, trailer}
use knowdy.Gsp.Cells.{AllHeld, length-cells, count_bound}
use knowdy.Gsp.Sizes.{read-append, read-three}
use knowdy.Gsp.Children.{Reached, Reads, subdirs_loop-positional, subdirs_loop-keyed}

-- The last bytes of a block and the cells of its footer, where `w` stands before them.
located :
    (w c tr x y file : List ℕ)
    → file ≡ x ++ ((w ++ (c ++ tr)) ++ y)
    → 3 ≤ length c + length tr
    → length file < 2 ^ 63
    → (buf : List ℕ) × (read file (sub_size (length x + length (w ++ (c ++ tr))) 3) 3 ≡ done buf)
      × ((j : ℕ)
          → 1 ≤ j
          → j ≤ 3
          → j ≤ length tr
          → get_or buf (3 - j) 0 ≡ get_or (tr ++ y) (length tr - j) 0)
      × (read file
            (u64 (length x + sub_size (length (w ++ (c ++ tr))) (length c + length tr)))
            (length c)
          ≡ done c)
located w c tr x y file split three small =
    let at_cells : file ≡ (x ++ w) ++ (c ++ (tr ++ y)) =
      split
      ∙ rw (append_assoc w (c ++ tr) y, append_assoc c tr y, append_assoc x w (c ++ (tr ++ y)))
          refl in
    let before : List ℕ = (x ++ w) ++ c in
    let at_trailer : file ≡ before ++ (tr ++ y) =
      at_cells ∙ sym (append_assoc (x ++ w) c (tr ++ y)) in
    let xw : length (x ++ w) ≡ length x + length w = length-append x w in
    let wct : length (w ++ (c ++ tr)) ≡ length w + (length c + length tr) =
      omega (arith, length-append w (c ++ tr), length-append c tr) in
    let to : length before ≡ length x + length w + length c =
      omega (arith, length-append (x ++ w) c) in
    let size : length file ≡ length before + (length tr + length y) =
      ap (λ (xs : List ℕ). length xs) at_trailer
      ∙ omega (arith, length-append before (tr ++ y), length-append tr y) in
    let from : ℕ = sub_size (length x + length (w ++ (c ++ tr))) 3 in
    let (buf, has, bytes) = read-three file from (omega arith) small in
    let cells_at : u64 (length x + sub_size (length (w ++ (c ++ tr))) (length c + length tr))
        ≡ length (x ++ w) =
      omega arith in
    (
      buf,
      has,
      λ j p q r.
          let at : from + (3 - j) ≡ length before + (length tr - j) = omega arith in
          bytes (3 - j) (omega arith)
          ∙ (ap (λ (i : ℕ). get_or file i 0) at
              ∙ (ap (λ (xs : List ℕ). get_or xs (length before + (length tr - j)) 0) at_trailer
                  ∙ get_or-append before (tr ++ y) (length tr - j) 0)),
      rw (cells_at, at_cells) (read-append (x ++ w) c (tr ++ y) (omega arith)),
    )

module _ {S : Type 0} (run : ℕ → ℕ → List ℕ → S → Result (S × Dir)) (go : ℕ → List ℕ → S → S)
    (cnt : ℕ → ℕ) (blk : Parts) (idbuf file : List ℕ)
    (reads : Reads S run go cnt blk idbuf file) where
  -- The result of the loop, from its start on.
  abbrev pub Ends : S → ℕ → Result (Place S) → Type 0
  Ends s t = Gives (
      Reached (visit_children go idbuf radix_base 0 s) (t + sum cnt radix_base 0)
        (0 + length (whole blk)))

  -- The footer, found from the end of the block.
  read_subdirs-positional :
      (c x y : List ℕ) (k t : ℕ) (s : S) (info : Info)
      → 1 ≤ k
      → k ≤ 4
      → length c ≡ radix_base * k
      → file ≡ x ++ ((whole blk ++ (c ++ trailer false 0 k)) ++ y)
      → Ends s t
          (subdirs_loop run (length x) idbuf false k radix_base 0 c (s, info, λ i. no_dir, 0))
      → Ends s t (
          read_subdirs run file
            (length x)
            (length (whole blk ++ (c ++ trailer false 0 k)))
            idbuf
            (s, info))
  unfolding read_subdirs
  read_subdirs-positional c x y k t s info low high c_size split result =
      let tr : List ℕ = trailer false 0 k in
      let (buf, has, bytes, footer_bytes) =
        located (whole blk) c tr x y file split (omega (arith, c_size)) reads.small in
      let use_keys : get_or buf 2 0 ≡ 0 = bytes 1 (omega arith) (omega arith) (omega arith) in
      let k_byte : u8 k ≡ k = omega arith in
      let size : get_or buf 1 0 ≡ k = bytes 2 (omega arith) (omega arith) (omega arith) ∙ k_byte in
      let few : ltb 4 k ≡ false = ground arith in
      let some_size : (k == 0) ≡ false = ground arith in
      let fits : ltb 1016 (length c) ≡ false = ground (arith, c_size) in
      rw (has, use_keys, size, few, some_size, ← c_size, fits, footer_bytes) result

  read_subdirs-keyed :
      (c x y : List ℕ) (k num t : ℕ) (s : S) (info : Info)
      → 1 ≤ k
      → k ≤ 4
      → num ≤ radix_base
      → length c ≡ num * suc k
      → file ≡ x ++ ((whole blk ++ (c ++ trailer true num k)) ++ y)
      → Ends s t (subdirs_loop run (length x) idbuf true k num 0 c (s, info, λ i. no_dir, 0))
      → Ends s t (
          read_subdirs run file
            (length x)
            (length (whole blk ++ (c ++ trailer true num k)))
            idbuf
            (s, info))
  unfolding read_subdirs
  read_subdirs-keyed c x y k num t s info low high b c_size split result =
      let tr : List ℕ = trailer true num k in
      let (buf, has, bytes, footer_bytes) =
        located (whole blk) c tr x y file split (omega arith) reads.small in
      let use_keys : get_or buf 2 0 ≡ 1 = bytes 1 (omega arith) (omega arith) (omega arith) in
      let k_byte : u8 k ≡ k = omega arith in
      let num_byte : u8 num ≡ num = omega arith in
      let size : get_or buf 1 0 ≡ k = bytes 2 (omega arith) (omega arith) (omega arith) ∙ k_byte in
      let number : get_or buf 0 0 ≡ num =
        bytes 3 (omega arith) (omega arith) (omega arith) ∙ num_byte in
      let few : ltb 4 k ≡ false = ground arith in
      let some_size : (k == 0) ≡ false = ground arith in
      let bound : num * suc k ≤ radix_base * suc k = mul-le-mul_right (suc k) b in
      let fits : ltb 1016 (length c) ≡ false = ground arith in
      rw (has, use_keys, size, number, few, some_size, ← c_size, fits, footer_bytes) result

  -- Subdirectories with their footer, with keys or without.
  pub read_subdirs-footer :
      (keyed : Bool) (x y : List ℕ) (k t : ℕ) (s : S) (info : Info)
      → AllHeld k blk
      → info.total_elems ≡ u64 t
      → file
        ≡ x
          ++ ((whole blk
                ++ (cells keyed (sizes_of blk) k radix_base 0
                    ++ trailer keyed (count (sizes_of blk) radix_base 0) k))
              ++ y)
      → Ends s t (
          read_subdirs run file
            (length x)
            (length (
              whole blk
              ++ (cells keyed (sizes_of blk) k radix_base 0
                  ++ trailer keyed (count (sizes_of blk) radix_base 0) k)))
            idbuf
            (s, info))
  read_subdirs-footer false x y k t s info held counted split =
      let (low, high, rest, fits) = held 0 (omega arith) in
      let c : List ℕ = cells false (sizes_of blk) k radix_base 0 in
      let tail : List ℕ = c ++ trailer false 0 k in
      read_subdirs-positional c x y k t s info low high
        (length-cells false (sizes_of blk) k radix_base 0 low high) split
        (subst
          (λ (bytes : List ℕ). Ends s t (
            subdirs_loop run (length x) idbuf false k radix_base 0 bytes (s, info, λ i. no_dir, 0)))
          (append-nil c)
          (subdirs_loop-positional run go cnt blk idbuf file reads k radix_base 0 (length x) 0 t x
            (tail ++ y) [] s (s, info, λ i. no_dir, 0) held (omega arith) (refl, counted, refl)
            (omega arith) (split ∙ ap (λ (z : List ℕ). x ++ z) (append_assoc (whole blk) tail y))))
  read_subdirs-footer true x y k t s info held counted split =
      let (low, high, rest, fits) = held 0 (omega arith) in
      let c : List ℕ = cells true (sizes_of blk) k radix_base 0 in
      let num : ℕ = count (sizes_of blk) radix_base 0 in
      let tail : List ℕ = c ++ trailer true num k in
      read_subdirs-keyed c x y k num t s info low high (count_bound (sizes_of blk) radix_base 0)
        (length-cells true (sizes_of blk) k radix_base 0 low high) split
        (subst
          (λ (bytes : List ℕ).
            Ends s t
              (subdirs_loop run (length x) idbuf true k num 0 bytes (s, info, λ i. no_dir, 0)))
          (append-nil c)
          (subdirs_loop-keyed run go cnt blk idbuf file reads k radix_base 0 0 (length x) 0 t x
            (tail ++ y) [] s (s, info, λ i. no_dir, 0) held (omega arith) (refl, counted, refl)
            (omega arith) (split ∙ ap (λ (z : List ℕ). x ++ z) (append_assoc (whole blk) tail y))))
