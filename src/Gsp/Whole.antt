-- ===== src/Gsp/Whole.antt =====
-- A directory is read with all that lies below it.
use knowdy.Base.{
  ℕ, zero, suc, ◌+◌, ◌≤◌, ◌<◌, ◌^◌, ◌≡◌, refl, sym, ap, ◌∙◌, arith, subst, false, List, [], ◌∷◌,
  ◌++◌, length, length-append, ◌==◌, if◌then◌else◌, append_assoc, u64, u8, inl, inr, sub_size,
  Bool-cases,
}
use knowdy.Result.{Result, done, ◌>>=◌, Gives, Gives-bind}
use knowdy.Utils.Ids.{radix_base, id_size}
use knowdy.Utils.Pack.{pack_int, min_bytes}
use knowdy.Set.{Idx, null, node}
use knowdy.Gsp.{Info, Dir, dir, no_dir, new_info, seq}
use knowdy.Gsp.Load.{read_payload_size, read_payload, read_subdirs, read_block, unmarshall_block}
use knowdy.Gsp.Format.{
  Parts, sizes_of, body, count, whole, payload, footer, subdirs, size_bytes, block, present, visit,
  visit_children, visit_all, sum, num_elems_of,
}
use knowdy.Gsp.Cells.{sizes-body}
use knowdy.Gsp.Reading.{calls, AllText, NoNul, List-cases}
use knowdy.Gsp.Sizes.{read_payload_size_lem, sized}
use knowdy.Gsp.Children.{Reads}
use knowdy.Gsp.Marks.{length-size_bytes}
use knowdy.Gsp.Blocks.{Within, Elements, Loaded, read_payload_lem, read_subdirs_lem}

pub size_bytes-some : (size : ℕ) → 1 ≤ length (size_bytes size)
unfolding size_bytes
size_bytes-some zero = omega arith
size_bytes-some (suc n) =
    let k : ℕ = min_bytes (suc n) in ground (arith, length-append (pack_int (suc n) k) (u8 k ∷ []))

body-none : (v : Parts) (n i : ℕ) → count (sizes_of v) n i ≡ 0 → length (body v n i) ≡ 0
unfolding body count
body-none v zero i h = refl
body-none v (suc n) i h = elim (List-cases (v i)) [
  | inl none_here ↦
      let rest : count (sizes_of v) n (suc i) ≡ 0 =
        subst
          (λ (w : List ℕ).
            (if length w == 0
              then count (sizes_of v) n (suc i)
              else suc (count (sizes_of v) n (suc i)))
            ≡ 0)
          none_here h in
      omega (
        arith,
        length-append (v i) (body v n (suc i)),
        body-none v n (suc i) rest,
        ap (λ (xs : List ℕ). length xs) none_here,
      )
  | inr (x, w, here) ↦
      let some_here : length (v i) ≡ suc (length w) = ap (λ (xs : List ℕ). length xs) here in
      absurd (ground arith)
]

pub whole-subdirs : (blk : Parts) → length (whole blk) ≤ length (subdirs blk)
unfolding subdirs
whole-subdirs blk = elim (Bool-cases (count (sizes_of blk) radix_base 0 == 0)) [
  | inl empty ↦ rw (empty) (omega (arith, body-none blk radix_base 0 (ground arith)))
  | inr filled ↦ rw (filled) (omega (arith, length-append (whole blk) (footer (sizes_of blk))))
]

present-NoNul : (enc : ℕ → List ℕ) (e : ℕ) → NoNul (enc e) → NoNul (if e == 0 then [] else enc e)
present-NoNul enc zero h = tt
present-NoNul enc (suc n) h =
    let some_elem : (suc n == 0) ≡ false = ground arith in rw (some_elem) h

-- What is read before the elements stays.
sized-keeps :
    (size : ℕ) (info : Info)
    → ((sized size info).num_elems ≡ info.num_elems)
      × ((sized size info).global_offset ≡ info.global_offset)
      × ((sized size info).total_elems ≡ info.total_elems)
sized-keeps zero info = (refl, refl, refl)
sized-keeps (suc n) info =
    let some_size : (suc n == 0) ≡ false = ground arith in rw (some_size) (refl, refl, refl)

module _ {S : Type 0} (f : S → List ℕ → List ℕ → S) (enc : ℕ → List ℕ) where
  skip_lem :
      (idx : Idx)
      → block enc idx ≡ []
      → ((id : List ℕ) (s : S) → visit_all f enc idx id s ≡ s) × (num_elems_of enc idx ≡ 0)
  unfolding visit_all num_elems_of block
  skip_lem null e = (λ id s. refl, refl)
  skip_lem (node idxs elems) e =
      let p : List ℕ = payload (present enc elems) in
      let d : List ℕ = subdirs (λ i. block enc (idxs i)) in
      let z : List ℕ = size_bytes (length p) in
      absurd (
        omega (
          arith,
          ap (λ (b : List ℕ). length b) e,
          length-append p (d ++ z),
          length-append d z,
          size_bytes-some (length p),
        ))

module _ {S : Type 0} (f : S → List ℕ → List ℕ → S) (file : List ℕ)
    (small : length file < 2 ^ 63) where
  -- One directory, where the recursive calls do what they should.
  read_block_lem :
      (run : ℕ → ℕ → List ℕ → S → Result (S × Dir)) (go : ℕ → List ℕ → S → S) (cnt : ℕ → ℕ)
      (v blk : Parts) (x y idbuf p d z : List ℕ) (s : S)
      → Reads S run go cnt blk idbuf file
      → AllText v
      → p ≡ payload v
      → d ≡ subdirs blk
      → z ≡ size_bytes (length p)
      → file ≡ x ++ ((p ++ (d ++ z)) ++ y)
      → length (p ++ (d ++ z)) < 2 ^ 31
      → Gives
          (Loaded f file small
            (visit_children go idbuf radix_base 0 (visit f v idbuf radix_base 0 s))
            (count (sizes_of v) radix_base 0 + sum cnt radix_base 0))
          (read_block (calls f) run file (length x) (length (p ++ (d ++ z))) idbuf s)
  unfolding read_block
  read_block_lem run go cnt v blk x y idbuf p d z s reads text ep ed ez split bound =
      let total : length (p ++ (d ++ z)) ≡ length p + (length d + length z) =
        omega (arith, length-append p (d ++ z), length-append d z) in
      let at_payload : file ≡ x ++ (p ++ ((d ++ z) ++ y)) =
        split ∙ ap (λ (b : List ℕ). x ++ b) (append_assoc p (d ++ z) y) in
      let at_subdirs : file ≡ (x ++ p) ++ (d ++ (z ++ y)) =
        at_payload ∙ rw (append_assoc d z y, append_assoc x p (d ++ (z ++ y))) refl in
      let at_size : file ≡ ((x ++ p) ++ d) ++ (z ++ y) =
        at_subdirs ∙ sym (append_assoc (x ++ p) d (z ++ y)) in
      let before : length ((x ++ p) ++ d) ≡ length x + length p + length d =
        omega (arith, length-append (x ++ p) d, length-append x p) in
      let size : length file ≡ length x + length p + length d + (length z + length y) =
        ap (λ (b : List ℕ). length b) at_size
        ∙ omega (arith, before, length-append ((x ++ p) ++ d) (z ++ y), length-append z y) in
      let info0 : Info = record new_info {
        total_size = length (p ++ (d ++ z));
        global_offset = length x;
      } in
      let info : Info = sized (length p) info0 in
      let (footer_size, payload_size) = length-size_bytes (length p) info0 (omega arith) refl in
      let (no_elems, offset, no_total) = sized-keeps (length p) info0 in
      let z_size : length z ≡ length (size_bytes (length p)) = ap (λ (b : List ℕ). length b) ez in
      let read_size : read_payload_size file (length x) (length (p ++ (d ++ z))) info0 ≡ done info =
        subst
          (λ (b : List ℕ).
            read_payload_size b (length x) (length (p ++ (d ++ z))) info0 ≡ done info)
          (sym (at_size ∙ ap (λ (b : List ℕ). ((x ++ p) ++ d) ++ (b ++ y)) ez))
          (read_payload_size_lem ((x ++ p) ++ d) y (length x) (length (p ++ (d ++ z))) (length p)
            info0 (omega arith) (omega arith) (omega arith) (omega arith)) in
      let d_size : length d ≡ length (subdirs blk) = ap (λ (b : List ℕ). length b) ed in
      let p_size : length p ≡ length (payload v) = ap (λ (b : List ℕ). length b) ep in
      let left : sub_size (length (p ++ (d ++ z)))
            (info.payload_block_size + info.payload_footer_size)
          ≡ length (subdirs blk) =
        omega arith in
      let s1 : S = visit f v idbuf radix_base 0 s in
      let t : ℕ = count (sizes_of v) radix_base 0 in
      let xp : length (x ++ p) ≡ length x + length p = length-append x p in
      rw (read_size, left)
        (Gives-bind (Elements f file small s1 t info)
          (Loaded f file small (visit_children go idbuf radix_base 0 s1) (t + sum cnt radix_base 0))
          (read_payload (calls f) file idbuf (s, info))
          (λ r.
            if length (subdirs blk) == 0
            then done (r.0, dir r.1 (λ i. no_dir))
            else (read_subdirs run file (u64 (length x + info.payload_block_size))
                  (length (subdirs blk)) idbuf r
                >>= (λ b. done (b.0, dir b.1 b.2))))
          (read_payload_lem f file small v x ((d ++ z) ++ y) idbuf s info reads.room text
            (omega arith) (at_payload ∙ ap (λ (b : List ℕ). x ++ (b ++ ((d ++ z) ++ y))) ep)
            (payload_size ∙ p_size) offset no_elems no_total)
          (λ r kept.
            read_subdirs_lem f file small run go cnt blk (x ++ p) (z ++ y) idbuf
              (u64 (length x + info.payload_block_size)) t s1 r reads
              (at_subdirs ∙ ap (λ (b : List ℕ). (x ++ p) ++ (b ++ (z ++ y))) ed) (omega arith)
              (omega arith) kept.0 kept.1))

module _ {S : Type 0} (f : S → List ℕ → List ℕ → S) (enc : ℕ → List ℕ)
    (text : (e : ℕ) → NoNul (enc e)) (file : List ℕ) (small : length file < 2 ^ 63) where
  -- The reader calls back for the elements of a directory and of all that lie below it.
  pub unmarshall_block_lem :
      (fuel : ℕ) (idx : Idx) (x y idbuf : List ℕ) (s : S)
      → 0 < length (block enc idx)
      → Within fuel idx
      → length idbuf + fuel ≤ id_size
      → file ≡ x ++ (block enc idx ++ y)
      → length (block enc idx) < 2 ^ 31
      → Gives
          (Loaded f file small (visit_all f enc idx idbuf s) (num_elems_of enc idx))
          (unmarshall_block (calls f) file fuel (length x) (length (block enc idx)) idbuf s)
  unfolding unmarshall_block visit_all num_elems_of block
  unmarshall_block_lem fuel null x y idbuf s some_bytes within room split bound =
      absurd (omega arith)
  unmarshall_block_lem zero (node idxs elems) x y idbuf s some_bytes within room split bound =
      elim within [ ]
  unmarshall_block_lem (suc fuel) (node idxs elems) x y idbuf s some_bytes within room split bound =
      let v : Parts = present enc elems in
      let blk : Parts = λ i. block enc (idxs i) in
      let p : List ℕ = payload v in
      let d : List ℕ = subdirs blk in
      let z : List ℕ = size_bytes (length p) in
      let d_size : length d ≤ length (p ++ (d ++ z)) =
        omega (arith, length-append p (d ++ z), length-append d z) in
      let reads : Reads S (unmarshall_block (calls f) file fuel) (λ i. visit_all f enc (idxs i))
          (λ i. num_elems_of enc (idxs i)) blk idbuf file =
        record {
          runs = λ i x' y' s' b full split'.
              unmarshall_block_lem fuel (idxs i) x' y' (idbuf ++ (seq i ∷ [])) s' full (within i b)
                (omega (arith, length-append idbuf (seq i ∷ []))) split'
                (omega (arith, sizes-body blk radix_base 0 i (omega arith) b, whole-subdirs blk));
          skips = λ i e. skip_lem f enc (idxs i) e;
          room = omega arith;
          small = small;
        } in
      read_block_lem f file small (unmarshall_block (calls f) file fuel)
        (λ i. visit_all f enc (idxs i)) (λ i. num_elems_of enc (idxs i)) v blk x y idbuf p d z s
        reads (λ i b. present-NoNul enc (elems i) (text (elems i))) refl refl refl split bound
