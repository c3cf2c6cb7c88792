-- ===== src/Gsp/Marks.antt =====
-- What a directory's record holds after its payload block.
use knowdy.Base.{
  ℕ, zero, suc, ◌+◌, ◌<◌, ◌^◌, ◌≡◌, refl, ap, ◌∙◌, arith, false, List, [], ◌∷◌, ◌++◌, length,
  length-append, ◌==◌, if◌then◌else◌, u64, u8, Bool-cases, inl, inr, ◌⊎◌, ℕ_discrete, subst,
}
use knowdy.Utils.Ids.{radix_base}
use knowdy.Utils.Pack.{pack_int, min_bytes}
use knowdy.Utils.Pack.Laws.{length-pack_int, min_bytes_least}
use knowdy.Gsp.{Info, seq}
use knowdy.Gsp.Write.{is_small}
use knowdy.Gsp.Format.{
  Parts, sizes_of, body, count, whole, payload, linear, footer, size_bytes, visit, visit_children,
  sum,
}
use knowdy.Gsp.Reading.{mark, mark_cell, tally, one_more, List-cases}
use knowdy.Gsp.Payload.{loaded}
use knowdy.Gsp.Sizes.{sized}

-- `info'` has `t` elements and the sizes of `info`.
abbrev pub Marked : ℕ → Info → Info → Type 0
Marked t info info' =
    (info'.num_elems ≡ u64 t)
    × (info'.payload_block_size ≡ info.payload_block_size)
    × (info'.payload_footer_size ≡ info.payload_footer_size)

mark_cell-Marked :
    (size i t : ℕ) (info info' : Info)
    → Marked t info info'
    → Marked (if size == 0 then t else suc t) info (mark_cell size i info')
mark_cell-Marked zero i t info info' m = m
mark_cell-Marked (suc n) i t info info' (e, p, q) =
    let some_size : (suc n == 0) ≡ false = ground arith in rw (some_size) (omega (arith, e), p, q)

one_more-Marked :
    (size t : ℕ) (info info' : Info)
    → Marked t info info'
    → Marked (if size == 0 then t else suc t) info (if size == 0 then info' else one_more info')
one_more-Marked zero t info info' m = m
one_more-Marked (suc n) t info info' (e, p, q) =
    let some_size : (suc n == 0) ≡ false = ground arith in rw (some_size) (omega (arith, e), p, q)

pub count-next :
    (t size c : ℕ) → (if size == 0 then t else suc t) + c ≡ t + (if size == 0 then c else suc c)
count-next t zero c = refl
count-next t (suc n) c = ground arith

mark-Marked :
    (v : Parts) (n i t : ℕ) (info info' : Info)
    → Marked t info info'
    → Marked (t + count (sizes_of v) n i) info (mark v n i info')
unfolding mark count
mark-Marked v zero i t info info' (e, p, q) = (omega (arith, e), p, q)
mark-Marked v (suc n) i t info info' m =
    subst (λ (k : ℕ). Marked k info (mark v (suc n) i info'))
      (count-next t (sizes_of v i) (count (sizes_of v) n (suc i)))
      (mark-Marked v n (suc i) (if sizes_of v i == 0 then t else suc t) info
        (mark_cell (sizes_of v i) i info') (mark_cell-Marked (sizes_of v i) i t info info' m))

tally-Marked :
    (v : Parts) (n i t : ℕ) (info info' : Info)
    → Marked t info info'
    → Marked (t + count (sizes_of v) n i) info (tally v n i info')
unfolding tally count
tally-Marked v zero i t info info' (e, p, q) = (omega (arith, e), p, q)
tally-Marked v (suc n) i t info info' m =
    subst (λ (k : ℕ). Marked k info (tally v (suc n) i info'))
      (count-next t (sizes_of v i) (count (sizes_of v) n (suc i)))
      (tally-Marked v n (suc i) (if sizes_of v i == 0 then t else suc t) info
        (if sizes_of v i == 0 then info' else one_more info')
        (one_more-Marked (sizes_of v i) t info info' m))

pub loaded-Marked :
    (v : Parts) (info : Info)
    → info.num_elems ≡ 0
    → Marked (count (sizes_of v) radix_base 0) info (loaded v info)
loaded-Marked v info e = elim (Bool-cases (is_small (length (whole v)))) [
  | inl scanned ↦
      let (number, size, rest) =
        tally-Marked v radix_base 0 0 info info (omega (arith, e), refl, refl) in
      rw (scanned) (omega (arith, number), size, rest)
  | inr large ↦
      let (number, size, rest) =
        mark-Marked v radix_base 0 0 info info (omega (arith, e), refl, refl) in
      rw (large) (omega (arith, number), size, rest)
]

-- Where nothing is written, nothing is read.
pub visit-none :
    {S : Type 0} (f : S → List ℕ → List ℕ → S) (v : Parts) (idbuf : List ℕ) (n i : ℕ) (s : S)
    → length (body v n i) ≡ 0
    → (visit f v idbuf n i s ≡ s) × (count (sizes_of v) n i ≡ 0)
unfolding visit body count
visit-none f v idbuf zero i s h = (refl, refl)
visit-none f v idbuf (suc n) i s h =
    let none_here : length (v i) ≡ 0 = omega (arith, h, length-append (v i) (body v n (suc i))) in
    let (same, none_counted) =
      visit-none f v idbuf n (suc i) s (omega (arith, h, length-append (v i) (body v n (suc i)))) in
    rw (none_here) (same, none_counted)

pub visit_children-none :
    {S : Type 0} (go : ℕ → List ℕ → S → S) (cnt : ℕ → ℕ) (blk : Parts) (idbuf : List ℕ) (n i : ℕ)
    (s : S)
    → ((i : ℕ) → blk i ≡ [] → ((id : List ℕ) (s : S) → go i id s ≡ s) × (cnt i ≡ 0))
    → count (sizes_of blk) n i ≡ 0
    → (visit_children go idbuf n i s ≡ s) × (sum cnt n i ≡ 0)
unfolding visit_children count sum
visit_children-none go cnt blk idbuf zero i s skips h = (refl, refl)
visit_children-none go cnt blk idbuf (suc n) i s skips h = elim (List-cases (blk i)) [
  | inl none_here ↦
      let (same, none_counted) = skips i none_here in
      let rest_empty : count (sizes_of blk) n (suc i) ≡ 0 =
        subst
          (λ (w : List ℕ).
            (if length w == 0
              then count (sizes_of blk) n (suc i)
              else suc (count (sizes_of blk) n (suc i)))
            ≡ 0)
          none_here h in
      let (all_same, all_counted) =
        visit_children-none go cnt blk idbuf n (suc i) s skips rest_empty in
      rw (same (idbuf ++ (seq i ∷ [])) s) (all_same, omega (arith, none_counted, all_counted))
  | inr (x, w, here) ↦
      let some_here : length (blk i) ≡ suc (length w) = ap (λ (xs : List ℕ). length xs) here in
      absurd (ground arith)
]

pub length-size_bytes :
    (size : ℕ) (info : Info)
    → size < 2 ^ 31
    → info.payload_block_size ≡ 0
    → ((sized size info).payload_footer_size ≡ length (size_bytes size))
      × ((sized size info).payload_block_size ≡ size)
unfolding size_bytes
length-size_bytes zero info h e = (refl, e)
length-size_bytes (suc n) info h e =
    let (fit, low, high, least) = min_bytes_least (suc n) (omega arith) in
    let k : ℕ = min_bytes (suc n) in
    let some_size : (suc n == 0) ≡ false = ground arith in
    let bytes : size_bytes (suc n) ≡ pack_int (suc n) k ++ (u8 k ∷ []) = rw (some_size) refl in
    let noted : sized (suc n) info
        ≡ record info { payload_block_size = suc n; payload_footer_size = 1 + k } =
      rw (some_size) refl in
    let two : length (size_bytes (suc n)) ≡ length (pack_int (suc n) k) + 1 =
      ap (λ (z : List ℕ). length z) bytes ∙ length-append (pack_int (suc n) k) (u8 k ∷ []) in
    let one : length (pack_int (suc n) k) ≡ k = length-pack_int (suc n) k low high in
    let same : 1 + k ≡ length (size_bytes (suc n)) = omega arith in
    (
      ap (λ (d : Info). d.payload_footer_size) noted ∙ same,
      ap (λ (d : Info). d.payload_block_size) noted,
    )

-- A block is empty only without elements.
pub payload_size_lem :
    (v : Parts)
    → ((length (whole v) ≡ 0) × (payload v ≡ []))
      ⊎ ((0 < length (whole v)) × (0 < length (payload v)))
unfolding payload
payload_size_lem v = elim (ℕ_discrete (length (whole v)) 0) [
  | yes e ↦ inl (e, rw (e) refl)
  | no n ↦
      let filled : (length (whole v) == 0) ≡ false = ground arith in
      elim (Bool-cases (is_small (length (whole v)))) [
        | inl scanned ↦ inr (
          omega arith,
          rw (filled, scanned) (omega (arith, length-append (linear v radix_base 0) (0 ∷ 1 ∷ []))),
        )
        | inr large ↦ inr (
          omega arith,
          rw (filled, large) (omega (arith, length-append (whole v) (footer (sizes_of v)))),
        )
      ]
]
