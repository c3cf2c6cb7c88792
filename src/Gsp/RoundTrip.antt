-- ===== src/Gsp/RoundTrip.antt =====
-- A set that was written to a file, and what comes back from there.
use knowdy.Base.{
  ℕ, suc, ◌+◌, ◌<◌, ◌^◌, ◌≡◌, sym, ap, arith, List, [], ◌++◌, length, length-append, append-nil,
  subst, u64, sub_size,
}
use knowdy.Result.{done, Ensures, Ensures-bind, Gives, Gives-bind}
use knowdy.Set.{Idx, node}
use knowdy.Gsp.{Dir}
use knowdy.Gsp.Write.{Job, Marshall, traverse_marshall, marshall}
use knowdy.Gsp.Load.{unmarshall_block, unmarshall_file, total_of}
use knowdy.Gsp.Format.{block, visit_all, num_elems_of}
use knowdy.Gsp.Reading.{calls, NoNul}
use knowdy.Gsp.Blocks.{Within, Loaded}
use knowdy.Gsp.Whole.{unmarshall_block_lem}
use knowdy.Gsp.Writing.{Writes}
use knowdy.Gsp.Marshalling.{traverse_marshall-Grown, block-some}

-- If writing a set succeeds, the file has grown by the bytes that the format lays out for the set,
-- and their number is what is returned. The callback appends the bytes of an element and returns
-- their number, which is not 0, and the block of the whole set is shorter than 2^31.
pub marshall-block :
    (capacity : ℕ) (cb : Marshall) (enc : ℕ → List ℕ) (idx : Idx) (file : List ℕ) {size : ℕ}
    {file' : List ℕ}
    → Writes cb enc
    → ((n : ℕ) → 0 < length (enc (suc n)))
    → length (block enc idx) < 2 ^ 31
    → marshall capacity cb idx file ≡ done (size, file')
    → (size ≡ length (block enc idx)) × (file' ≡ file ++ block enc idx)
unfolding marshall
marshall-block capacity cb enc idx file writes some_bytes bound e = subst (Ensures Post) e (
    Ensures-bind
      (λ (j : Job). (j.0.total_size ≡ length (block enc idx)) × (j.1 ≡ file ++ block enc idx)) Post
      (traverse_marshall capacity cb 0 idx file) (λ s. done (s.0.total_size, s.1))
      (traverse_marshall-Grown capacity cb enc writes some_bytes idx 0 file bound) (λ j h. h))
  where
    Post : ℕ × List ℕ → Type 0
    Post r = (r.0 ≡ length (block enc idx)) × (r.1 ≡ file ++ block enc idx)

-- A file that holds the bytes of a set behind three others is read without an error, and the callback,
-- which does not fail, has had the elements under their ids in order, and their number is kept. The
-- set is not deeper than the ids' buffer, no element has a NUL, and the bytes are fewer than 2^31.
pub unmarshall_file-block :
    {S : Type 0} (f : S → List ℕ → List ℕ → S) (enc : ℕ → List ℕ) (idxs : ℕ → Idx) (elems : ℕ → ℕ)
    (header : List ℕ) (s : S)
    → ((e : ℕ) → NoNul (enc e))
    → length header ≡ 3
    → Within 8 (node idxs elems)
    → length (block enc (node idxs elems)) < 2 ^ 31
    → Gives
        (λ r.
          (r.0 ≡ visit_all f enc (node idxs elems) [] s)
          × (r.2 ≡ u64 (num_elems_of enc (node idxs elems))))
        (unmarshall_file
          (calls f)
          (header ++ block enc (node idxs elems))
          8
          (length (header ++ block enc (node idxs elems)))
          s)
unfolding unmarshall_file
unmarshall_file-block {S} f enc idxs elems header s text three within bound =
    let b : List ℕ = block enc (node idxs elems) in
    let file : List ℕ = header ++ b in
    let size : length file ≡ 3 + length b = omega (arith, length-append header b, three) in
    let small : length file < 2 ^ 63 = omega arith in
    let rest : sub_size (length file) 3 ≡ length b = omega arith in
    rw (rest) (
      Gives-bind
        (Loaded f file small (visit_all f enc (node idxs elems) [] s)
          (num_elems_of enc (node idxs elems)))
        (λ (r : S × Dir × ℕ).
          (r.0 ≡ visit_all f enc (node idxs elems) [] s)
          × (r.2 ≡ u64 (num_elems_of enc (node idxs elems))))
        (unmarshall_block (calls f) file 8 3 (length b) [] s) (λ r. done (r.0, r.1, total_of r.1))
        (subst
          (λ (n : ℕ).
            Gives
              (Loaded f file small (visit_all f enc (node idxs elems) [] s)
                (num_elems_of enc (node idxs elems)))
              (unmarshall_block (calls f) file 8 n (length b) [] s))
          three
          (unmarshall_block_lem f enc text file small 8 (node idxs elems) header [] [] s
            (block-some enc idxs elems) within (omega arith)
            (ap (λ (z : List ℕ). header ++ z) (sym (append-nil b))) bound))
        (λ r h. h))

-- What was written is read back: if writing a set behind three bytes succeeds, reading the file does,
-- and the callback has had each element under its id, in order, with the bytes that were written for
-- it. The set is not deeper than the ids' buffer; elements have bytes, none of them a NUL; the block
-- of the whole set is shorter than 2^31.
pub unmarshall_file-marshall :
    {S : Type 0} (f : S → List ℕ → List ℕ → S) (enc : ℕ → List ℕ) (capacity : ℕ) (cb : Marshall)
    (idxs : ℕ → Idx) (elems : ℕ → ℕ) (header : List ℕ) (s : S) (size : ℕ) (file : List ℕ)
    → Writes cb enc
    → ((n : ℕ) → 0 < length (enc (suc n)))
    → ((e : ℕ) → NoNul (enc e))
    → length header ≡ 3
    → Within 8 (node idxs elems)
    → length (block enc (node idxs elems)) < 2 ^ 31
    → marshall capacity cb (node idxs elems) header ≡ done (size, file)
    → Gives
        (λ r.
          (r.0 ≡ visit_all f enc (node idxs elems) [] s)
          × (r.2 ≡ u64 (num_elems_of enc (node idxs elems))))
        (unmarshall_file (calls f) file 8 (3 + size) s)
unmarshall_file-marshall f enc capacity cb idxs elems header s size file writes some_bytes text
      three within bound written =
    let b : List ℕ = block enc (node idxs elems) in
    let (grown, bytes) =
      marshall-block capacity cb enc (node idxs elems) header writes some_bytes bound written in
    let total : 3 + size ≡ length (header ++ b) =
      omega (arith, length-append header b, three, grown) in
    rw (bytes, total) (unmarshall_file-block f enc idxs elems header s text three within bound)
