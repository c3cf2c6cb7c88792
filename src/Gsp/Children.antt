-- ===== src/Gsp/Children.antt =====
-- The subdirectories of a directory, read one after the other.
use knowdy.Base.{
  ℕ, zero, suc, ◌+◌, ◌≤◌, ◌<◌, ◌^◌, ◌≡◌, sym, ap, ◌∙◌, arith, subst, true, false, some, List, [],
  ◌∷◌, ◌++◌, length, length-append, leb, ◌==◌, append_assoc, u64, inl, inr,
}
use knowdy.Result.{Result, done, ◌>>=◌, failed, fault, out_of_fuel, Gives, Gives-bind}
use knowdy.Utils.Ids.{radix_base, id_size}
use knowdy.Utils.Pack.{pack_int}
use knowdy.Gsp.{Info, Dir, seq}
use knowdy.Gsp.Read.{store_at}
use knowdy.Gsp.Load.{Place, total_of, read_subdir, subdirs_loop}
use knowdy.Gsp.Format.{Parts, sizes_of, body, count, entry, cells, visit_children, sum}
use knowdy.Gsp.Cells.{AllHeld, Holds, cell-false, cell-true, drop-pack}
use knowdy.Gsp.Reading.{List-cases}

-- The caller's state, the number of elements so far and the next offset.
abbrev pub Reached : {S : Type 0} → S → ℕ → ℕ → Place S → Type 0
Reached s t b p = (p.0 ≡ s) × (p.1.total_elems ≡ u64 t) × (p.3 ≡ b)

-- What the recursive calls do for the children: `go` is their effect on the caller, `cnt` the
-- number of their elements, `blk` their blocks in `file`.
pub record Reads (S : Type 0) (run : ℕ → ℕ → List ℕ → S → Result (S × Dir))
    (go : ℕ → List ℕ → S → S) (cnt : ℕ → ℕ) (blk : Parts) (idbuf file : List ℕ) : Type 0 where
  pub runs :
      (i : ℕ) (x y : List ℕ) (s : S)
      → i < radix_base
      → 0 < length (blk i)
      → file ≡ x ++ (blk i ++ y)
      → Gives
          (λ r. (r.0 ≡ go i (idbuf ++ (seq i ∷ [])) s) × (total_of r.1 ≡ u64 (cnt i)))
          (run (length x) (length (blk i)) (idbuf ++ (seq i ∷ [])) s)
  pub skips : (i : ℕ) → blk i ≡ [] → ((id : List ℕ) (s : S) → go i id s ≡ s) × (cnt i ≡ 0)
  pub room : length idbuf < id_size
  pub small : length file < 2 ^ 63

module _ {S : Type 0} (run : ℕ → ℕ → List ℕ → S → Result (S × Dir)) (go : ℕ → List ℕ → S → S)
    (cnt : ℕ → ℕ) (blk : Parts) (idbuf file : List ℕ)
    (reads : Reads S run go cnt blk idbuf file) where
  store_child :
      (i numval b t : ℕ) (s : S) (info : Info) (subdirs : ℕ → Dir) (r : Result (S × Dir))
      → Gives (λ x. (x.0 ≡ s) × (total_of x.1 ≡ u64 (cnt i))) r
      → info.total_elems ≡ u64 t
      → b + numval < 2 ^ 63
      → Gives (Reached s (t + cnt i) (b + numval)) (
          r >>= (λ x. store_at subdirs (some i) x.1 >>= (λ subdirs'. done (
            x.0,
            record info { total_elems = u64 (info.total_elems + total_of x.1) },
            subdirs',
            u64 (b + numval),
          ))))
  store_child i numval b t s info subdirs (done x) h e small =
      (h.0, omega (arith, h.1, e), omega arith)
  store_child i numval b t s info subdirs (failed code) h e small = elim h [ ]
  store_child i numval b t s info subdirs fault h e small = elim h [ ]
  store_child i numval b t s info subdirs out_of_fuel h e small = elim h [ ]

  read_subdir_lem :
      (i offset b t : ℕ) (x y : List ℕ) (s : S) (p : Place S)
      → i < radix_base
      → Reached s t b p
      → offset + b ≡ length x
      → file ≡ x ++ (blk i ++ y)
      → Gives
          (Reached (go i (idbuf ++ (seq i ∷ [])) s) (t + cnt i) (b + length (blk i)))
          (read_subdir run offset idbuf p (seq i, some i, length (blk i)))
  unfolding read_subdir
  read_subdir_lem i offset b t x y s (s', info, subdirs, b') h (es, et, eb) at split =
      let size : length file ≡ length x + (length (blk i) + length y) =
        ap (λ (xs : List ℕ). length xs) split
        ∙ omega (arith, length-append x (blk i ++ y), length-append (blk i) y) in
      let file_small : length file < 2 ^ 63 = reads.small in
      elim (List-cases (blk i)) [
        | inl none_here ↦
            let (same, none_counted) = reads.skips i none_here in
            rw (none_here, same (idbuf ++ (seq i ∷ [])) s, none_counted)
              (es, omega (arith, et), omega (arith, eb))
        | inr (z, w, here) ↦
            let sized : length (blk i) ≡ suc (length w) = ap (λ (xs : List ℕ). length xs) here in
            let some_here : (length (blk i) == 0) ≡ false = ground arith in
            let free : leb id_size (length idbuf) ≡ false = ground (arith, reads.room) in
            let place : u64 (offset + b') ≡ length x = omega arith in
            rw (some_here, free, place, es, eb)
              (store_child i (length (blk i)) b t (go i (idbuf ++ (seq i ∷ [])) s) info subdirs
                (run (length x) (length (blk i)) (idbuf ++ (seq i ∷ [])) s)
                (reads.runs i x y s h (omega arith) split) et (omega arith))
      ]

  -- The rest of the file behind a child.
  behind :
      (x y : List ℕ) (n i : ℕ)
      → file ≡ x ++ (body blk (suc n) i ++ y)
      → (file ≡ x ++ (blk i ++ (body blk n (suc i) ++ y)))
        × (file ≡ (x ++ blk i) ++ (body blk n (suc i) ++ y))
  unfolding body
  behind x y n i split =
      let inner : file ≡ x ++ (blk i ++ (body blk n (suc i) ++ y)) =
        split ∙ ap (λ (z : List ℕ). x ++ z) (append_assoc (blk i) (body blk n (suc i)) y) in
      (inner, inner ∙ sym (append_assoc x (blk i) (body blk n (suc i) ++ y)))

  -- A footer with a cell for each position.
  pub subdirs_loop-positional :
      (k n i offset b t : ℕ) (x y tl : List ℕ) (s : S) (p : Place S)
      → AllHeld k blk
      → i + n ≤ radix_base
      → Reached s t b p
      → offset + b ≡ length x
      → file ≡ x ++ (body blk n i ++ y)
      → Gives
          (Reached (visit_children go idbuf n i s) (t + sum cnt n i) (b + length (body blk n i)))
          (subdirs_loop run offset idbuf false k n i (cells false (sizes_of blk) k n i ++ tl) p)
  unfolding subdirs_loop body entry visit_children sum
  subdirs_loop-positional k zero i offset b t x y tl s p held h reached at split =
      (reached.0, omega (arith, reached.1), omega (arith, reached.2))
  subdirs_loop-positional k (suc n) i offset b t x y tl s p held h reached at split =
      let hi : Holds k (sizes_of blk i) = held i (omega arith) in
      let rest : List ℕ = cells false (sizes_of blk) k n (suc i) ++ tl in
      let (here, next) = behind x y n i split in
      let s1 : S = go i (idbuf ++ (seq i ∷ [])) s in
      let b1 : ℕ = b + length (blk i) in
      let ends : b + length (blk i ++ body blk n (suc i)) ≡ b1 + length (body blk n (suc i)) =
        omega (arith, length-append (blk i) (body blk n (suc i))) in
      let counts : t + (cnt i + sum cnt n (suc i)) ≡ t + cnt i + sum cnt n (suc i) = omega arith in
      rw
        (
          append_assoc (pack_int (sizes_of blk i) k) (cells false (sizes_of blk) k n (suc i)) tl,
          cell-false i i (sizes_of blk i) k rest hi,
          drop-pack (sizes_of blk i) k rest hi.0 hi.1,
          ends,
          counts,
        )
        (Gives-bind (Reached s1 (t + cnt i) b1)
          (Reached (visit_children go idbuf n (suc i) s1) (t + cnt i + sum cnt n (suc i))
            (b1 + length (body blk n (suc i))))
          (read_subdir run offset idbuf p (seq i, some i, length (blk i)))
          (λ p'. subdirs_loop run offset idbuf false k n (suc i) rest p')
          (read_subdir_lem i offset b t x (body blk n (suc i) ++ y) s p (omega arith) reached at
            here)
          (λ p' reached'.
            subdirs_loop-positional k n (suc i) offset b1 (t + cnt i) (x ++ blk i) y tl s1 p' held
              (omega arith) reached' (omega (arith, length-append x (blk i))) next))

  -- A footer with cells for the positions that are not empty.
  pub subdirs_loop-keyed :
      (k n i j offset b t : ℕ) (x y tl : List ℕ) (s : S) (p : Place S)
      → AllHeld k blk
      → i + n ≤ radix_base
      → Reached s t b p
      → offset + b ≡ length x
      → file ≡ x ++ (body blk n i ++ y)
      → Gives
          (Reached (visit_children go idbuf n i s) (t + sum cnt n i) (b + length (body blk n i)))
          (subdirs_loop run offset idbuf true k
            (count (sizes_of blk) n i)
            j
            (cells true (sizes_of blk) k n i ++ tl)
            p)
  unfolding subdirs_loop body entry visit_children sum count
  subdirs_loop-keyed k zero i j offset b t x y tl s p held h reached at split =
      (reached.0, omega (arith, reached.1), omega (arith, reached.2))
  subdirs_loop-keyed k (suc n) i j offset b t x y tl s p held h reached at split =
      elim (List-cases (blk i)) [
        | inl none_here ↦
            let (same, none_counted) = reads.skips i none_here in
            let none_more : 0 + sum cnt n (suc i) ≡ sum cnt n (suc i) = omega arith in
            rw (none_here, same (idbuf ++ (seq i ∷ [])) s, none_counted, none_more)
              (subdirs_loop-keyed k n (suc i) j offset b t x y tl s p held (omega arith) reached at
                (subst (λ (z : List ℕ). file ≡ x ++ ((z ++ body blk n (suc i)) ++ y)) none_here
                  split))
        | inr (z, w, filled) ↦
            let sized : length (blk i) ≡ suc (length w) = ap (λ (xs : List ℕ). length xs) filled in
            let some_here : (length (blk i) == 0) ≡ false = ground arith in
            let hi : Holds k (sizes_of blk i) = held i (omega arith) in
            let rest : List ℕ = cells true (sizes_of blk) k n (suc i) ++ tl in
            let (here, next) = behind x y n i split in
            let s1 : S = go i (idbuf ++ (seq i ∷ [])) s in
            let b1 : ℕ = b + length (blk i) in
            let ends : b + length (blk i ++ body blk n (suc i)) ≡ b1 + length (body blk n (suc i)) =
              omega (arith, length-append (blk i) (body blk n (suc i))) in
            let counts : t + (cnt i + sum cnt n (suc i)) ≡ t + cnt i + sum cnt n (suc i) =
              omega arith in
            rw
              (
                some_here,
                append_assoc (pack_int (sizes_of blk i) k) (cells true (sizes_of blk) k n (suc i))
                    tl,
                cell-true i j (sizes_of blk i) k rest (omega arith) hi,
                drop-pack (sizes_of blk i) k rest hi.0 hi.1,
                ends,
                counts,
              )
              (Gives-bind (Reached s1 (t + cnt i) b1)
                (Reached (visit_children go idbuf n (suc i) s1) (t + cnt i + sum cnt n (suc i))
                  (b1 + length (body blk n (suc i))))
                (read_subdir run offset idbuf p (seq i, some i, length (blk i)))
                (λ p'.
                  subdirs_loop run offset idbuf true k (count (sizes_of blk) n (suc i)) (suc j) rest
                    p')
                (read_subdir_lem i offset b t x (body blk n (suc i) ++ y) s p (omega arith) reached
                  at here)
                (λ p' reached'.
                  subdirs_loop-keyed k n (suc i) (suc j) offset b1 (t + cnt i) (x ++ blk i) y tl s1
                    p' held (omega arith) reached' (omega (arith, length-append x (blk i))) next))
      ]
