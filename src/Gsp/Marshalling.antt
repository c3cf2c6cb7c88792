-- ===== src/Gsp/Marshalling.antt =====
-- A whole set is written: the file grows by its block.
use knowdy.Base.{
  ℕ, suc, ◌+◌, ◌<◌, ◌^◌, ◌≡◌, refl, sym, ap, ◌∙◌, arith, false, List, [], ◌++◌, length,
  length-append, append_assoc, subst,
}
use knowdy.Result.{Result, ◌>>=◌, Ensures, Ensures-bind, Ensures-map}
use knowdy.Utils.Ids.{radix_base}
use knowdy.Set.{Idx, null, node}
use knowdy.Gsp.{new_info}
use knowdy.Gsp.Write.{
  Job, Marshall, marshall_elems, add_payload, add_subdirs, append_size, traverse_marshall,
}
use knowdy.Gsp.Format.{Parts, payload, subdirs, size_bytes, block, present}
use knowdy.Gsp.Cells.{sizes-body}
use knowdy.Gsp.Whole.{whole-subdirs, size_bytes-some}
use knowdy.Gsp.Notes.{note, stream, stream-false}
use knowdy.Gsp.Writing.{Writes, marshall_elems-Written}
use knowdy.Gsp.Trees.{Blocks}
use knowdy.Gsp.Directory.{HasPayload, add_payload-HasPayload}
use knowdy.Gsp.Growing.{Grown, add_subdirs-Grown, append_size-Grown}

pub block-some :
    (enc : ℕ → List ℕ) (idxs : ℕ → Idx) (elems : ℕ → ℕ) → 0 < length (block enc (node idxs elems))
unfolding block
block-some enc idxs elems =
    let p : List ℕ = payload (present enc elems) in
    let d : List ℕ = subdirs (λ i. block enc (idxs i)) in
    let z : List ℕ = size_bytes (length p) in
    omega (arith, length-append p (d ++ z), length-append d z, size_bytes-some (length p))

joined :
    (file p d z : List ℕ) {p' d' : List ℕ}
    → p ≡ p'
    → d ≡ d'
    → ((file ++ p') ++ d') ++ z ≡ file ++ (p ++ (d ++ z))
joined file p d z ep ed =
    rw (← ep, ← ed, append_assoc (file ++ p) d z, append_assoc file p (d ++ z)) refl

module _ (capacity : ℕ) (cb : Marshall) (enc : ℕ → List ℕ) (writes : Writes cb enc)
    (some_bytes : (n : ℕ) → 0 < length (enc (suc n))) where
  -- One directory, where the recursive calls append the blocks of the children.
  directory-Grown :
      (idxs : ℕ → Idx) (elems : ℕ → ℕ) (run : ℕ → List ℕ → Result Job) (blk : Parts) (depth : ℕ)
      (file p d : List ℕ)
      → Blocks idxs run blk
      → p ≡ payload (present enc elems)
      → d ≡ subdirs blk
      → length (p ++ (d ++ size_bytes (length p))) < 2 ^ 31
      → Ensures
          (Grown
            (file ++ (p ++ (d ++ size_bytes (length p))))
            (length p)
            (length (p ++ (d ++ size_bytes (length p)))))
          (marshall_elems capacity cb false idxs elems radix_base 0 (new_info, []) >>= (λ s.
            add_payload capacity cb idxs elems file s
            >>= (λ s. add_subdirs capacity idxs run depth s >>= (λ s. append_size capacity s))))
  directory-Grown idxs elems run blk depth file p d blocks epay esub bound =
      let v : Parts = present enc elems in
      let z : List ℕ = size_bytes (length p) in
      let total : length (p ++ (d ++ z)) ≡ length p + length d + length z =
        omega (arith, length-append p (d ++ z), length-append d z) in
      let p_size : length p ≡ length (payload v) = ap (λ (b : List ℕ). length b) epay in
      let d_size : length d ≡ length (subdirs blk) = ap (λ (b : List ℕ). length b) esub in
      let Post : Job → Type 0 =
        Grown (file ++ (p ++ (d ++ z))) (length p) (length (p ++ (d ++ z))) in
      Ensures-bind
        (λ (j : Job).
          (j.0 ≡ note v idxs radix_base 0 new_info)
          × (j.1 ≡ stream false v idxs radix_base 0 new_info))
        Post (marshall_elems capacity cb false idxs elems radix_base 0 (new_info, []))
        (λ s.
          add_payload capacity cb idxs elems file s
          >>= (λ s. add_subdirs capacity idxs run depth s >>= (λ s. append_size capacity s)))
        (marshall_elems-Written capacity cb enc writes some_bytes false idxs elems radix_base 0
          new_info [])
        (λ j e.
          Ensures-bind (HasPayload capacity cb enc writes some_bytes idxs elems file) Post
            (add_payload capacity cb idxs elems file j)
            (λ s. add_subdirs capacity idxs run depth s >>= (λ s. append_size capacity s))
            (add_payload-HasPayload capacity cb enc writes some_bytes idxs elems file j.0 j.1 e.0
              (e.1 ∙ stream-false v idxs radix_base 0 new_info))
            (λ s (f, ep, et, (es, counted)).
              Ensures-bind (Grown (s.1 ++ subdirs blk) (length p) (length p + length (subdirs blk)))
                Post (add_subdirs capacity idxs run depth s) (λ s. append_size capacity s)
                (add_subdirs-Grown capacity idxs run blk depth (length p) s blocks (ep ∙ sym p_size)
                  (et ∙ sym p_size) es counted (omega arith))
                (λ t (ft, pt, tt').
                  Ensures-map
                    (Grown (t.1 ++ z) (length p) (length p + length (subdirs blk) + length z)) Post
                    (append_size capacity t)
                    (append_size-Grown capacity (length p) (length p + length (subdirs blk)) t pt
                      tt' (omega arith) (omega arith))
                    (λ m (fm, pm, tm). (
                      fm
                          ∙ (ap (λ (b : List ℕ). b ++ z)
                                (ft ∙ ap (λ (b : List ℕ). b ++ subdirs blk) f)
                              ∙ joined file p d z epay esub),
                      pm,
                      tm ∙ omega arith,
                    )))))

  -- A set is written: the file grows by its block, and the size that is returned is the block's.
  pub traverse_marshall-Grown :
      (idx : Idx) (depth : ℕ) (file : List ℕ)
      → length (block enc idx) < 2 ^ 31
      → Ensures
          (λ (j : Job). (j.0.total_size ≡ length (block enc idx)) × (j.1 ≡ file ++ block enc idx))
          (traverse_marshall capacity cb depth idx file)
  unfolding traverse_marshall block
  traverse_marshall-Grown null depth file bound = tt
  traverse_marshall-Grown (node idxs elems) depth file bound =
      let v : Parts = present enc elems in
      let blk : Parts = λ i. block enc (idxs i) in
      let p : List ℕ = payload v in
      let d : List ℕ = subdirs blk in
      let run : ℕ → List ℕ → Result Job = λ i. traverse_marshall capacity cb (suc depth) (idxs i) in
      let bytes : length (p ++ (d ++ size_bytes (length p)))
          ≡ length p + (length d + length (size_bytes (length p))) =
        omega (
          arith,
          length-append p (d ++ size_bytes (length p)),
          length-append d (size_bytes (length p)),
        ) in
      let blocks : Blocks idxs run blk = λ i. (
        (λ e. ap (λ (idx : Idx). block enc idx) e),
        (λ idxs' elems' e.
            subst (λ (idx : Idx). 0 < length (block enc idx)) (sym e)
              (block-some enc idxs' elems')),
        (λ h file'.
            traverse_marshall-Grown (idxs i) (suc depth) file'
              (omega (arith, sizes-body blk radix_base 0 i (omega arith) h, whole-subdirs blk))),
      ) in
      Ensures-map
        (Grown (file ++ (p ++ (d ++ size_bytes (length p)))) (length p)
          (length (p ++ (d ++ size_bytes (length p)))))
        (λ (j : Job).
          (j.0.total_size ≡ length (block enc (node idxs elems)))
          × (j.1 ≡ file ++ block enc (node idxs elems)))
        (traverse_marshall capacity cb depth (node idxs elems) file)
        (directory-Grown idxs elems run blk depth file p d blocks refl refl bound)
        (λ j (f, ep, total). (total, f))
