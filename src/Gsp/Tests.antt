-- ===== src/Gsp/Tests.antt =====
-- Sets written and read back.
use knowdy.Base.{
  ℕ, zero, suc, ◌+◌, ◌≡◌, ◌<◌, ◌^◌, u64, refl, arith, List, [], ◌∷◌, ◌++◌, length, Bool-cases, inl,
  inr, ◌==◌,
}
use knowdy.Result.{done, ◌>>=◌, Gives, Ensures-bind}
use knowdy.Utils.Pack.{min_bytes, pack_int, pack_u32, pack_u24, pack_u16}
use knowdy.Utils.Ids.{obj_id_seq}
use knowdy.Set.{Idx, null, node, put}
use knowdy.Gsp.{write, written}
use knowdy.Output.Steps.{append}
use knowdy.Gsp.Write.{
  Marshall, marshall, traverse_marshall, marshall_elems, marshall_cell, marshall_elem, write_key,
  write_size, add_payload, payload_block, append_payload, add_subdirs, marshall_subdirs,
  subdirs_loop, marshall_child, add_child, append_footer, build_footer, footer_loop, footer_cell,
  append_size,
}
use knowdy.Gsp.Load.{unmarshall_file}
use knowdy.Gsp.Format.{
  block, visit_all, num_elems_of, payload, subdirs, footer, size_bytes, linear, body, entry, count,
  max_from, separated, visit, visit_children,
}
use knowdy.Gsp.Reading.{calls, NoNul}
use knowdy.Gsp.Blocks.{Within}
use knowdy.Gsp.Writing.{Writes}
use knowdy.Gsp.Footers.{write-Appends}
use knowdy.Gsp.RoundTrip.{marshall-block, unmarshall_file-block, unmarshall_file-marshall}

abbrev enc : ℕ → List ℕ
enc zero = 1 ∷ []
enc (suc n) = suc n ∷ 65 ∷ []

abbrev leaf_elems : ℕ → ℕ
leaf_elems = put (put (λ i. 0) 3 5) 9 7

abbrev idxs : ℕ → Idx
idxs = put (λ i. null) 1 (node (λ i. null) leaf_elems)

abbrev elems : ℕ → ℕ
elems = put (λ i. 0) 0 8

abbrev cb : Marshall
cb elem out = do out ← write 4096 (enc elem) out; done (length (enc elem), out)

abbrev header : List ℕ
header = b'G' ∷ b'S' ∷ b'P' ∷ []

abbrev keep : List (List ℕ × List ℕ) → List ℕ → List ℕ → List (List ℕ × List ℕ)
keep s id val = s ++ ((id, val) ∷ [])

abbrev file : List ℕ
file =
    header
    ++ (b'0' ∷ 8 ∷ 65 ∷ 0 ∷ 1 ∷ [])
    ++ (b'3' ∷ 5 ∷ 65 ∷ 0 ∷ b'9' ∷ 7 ∷ 65 ∷ 0 ∷ 1 ∷ 9 ∷ 1 ∷ [])
    ++ (b'1' ∷ 11 ∷ 1 ∷ 1 ∷ 1 ∷ 5 ∷ 1 ∷ [])

abbrev tree : Idx
tree = node idxs elems

bytes : marshall 4096 cb tree header ≡ done (23, file)
unfolding marshall traverse_marshall marshall_elems marshall_cell marshall_elem write_key write_size
    add_payload payload_block append_payload add_subdirs marshall_subdirs subdirs_loop
    marshall_child add_child append_footer build_footer footer_loop footer_cell append_size write
    written append min_bytes pack_int pack_u32 pack_u24 pack_u16 obj_id_seq
bytes = refl

Writes-cb : Writes cb enc
Writes-cb elem out =
    Ensures-bind (λ (o : List ℕ). o ≡ out ++ enc elem)
      (λ (r : ℕ × List ℕ). (r.0 ≡ length (enc elem)) × (r.1 ≡ out ++ enc elem))
      (write 4096 (enc elem) out) (λ o. done (length (enc elem), o))
      (write-Appends 4096 (enc elem) out) (λ o e. (refl, e))

enc_some : (n : ℕ) → 0 < length (enc (suc n))
enc_some n = omega arith

NoNul-enc : (e : ℕ) → NoNul (enc e)
NoNul-enc zero = tt
NoNul-enc (suc n) = tt

Within-tree : Within 8 tree
Within-tree i h = elim (Bool-cases (1 == i)) [ inl e ↦ rw (e) (λ j p. tt) | inr e ↦ rw (e) tt ]

block_size : length (block enc tree) ≡ 23
unfolding block payload subdirs footer size_bytes linear body entry count max_from separated
    min_bytes pack_int pack_u32 pack_u24 pack_u16 obj_id_seq
block_size = refl

short : length (block enc tree) < 2 ^ 31
short = omega (arith, block_size)

marshall-block_example : (23 ≡ length (block enc tree)) × (file ≡ header ++ block enc tree)
marshall-block_example = marshall-block 4096 cb enc tree header Writes-cb enc_some short bytes

unfolded_listing :
    visit_all keep enc tree [] []
    ≡ (b'0' ∷ [], 8 ∷ 65 ∷ [])
      ∷ (b'1' ∷ b'3' ∷ [], 5 ∷ 65 ∷ [])
      ∷ (b'1' ∷ b'9' ∷ [], 7 ∷ 65 ∷ [])
      ∷ []
unfolding visit_all visit visit_children obj_id_seq
unfolded_listing = refl

unmarshall_file-block_example :
    Gives
      (λ r. (r.0 ≡ visit_all keep enc tree [] []) × (r.2 ≡ u64 (num_elems_of enc tree)))
      (unmarshall_file
        (calls keep)
        (header ++ block enc tree)
        8
        (length (header ++ block enc tree))
        [])
unmarshall_file-block_example =
    unmarshall_file-block keep enc idxs elems header [] NoNul-enc refl Within-tree short

unmarshall_file-marshall_example :
    Gives
      (λ r. (r.0 ≡ visit_all keep enc tree [] []) × (r.2 ≡ u64 (num_elems_of enc tree)))
      (unmarshall_file (calls keep) file 8 (3 + 23) [])
unmarshall_file-marshall_example =
    unmarshall_file-marshall keep enc 4096 cb idxs elems header [] 23 file Writes-cb enc_some
      NoNul-enc refl Within-tree short bytes
