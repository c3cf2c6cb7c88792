-- ===== src/Gsp/Cells.antt =====
-- The cells of a footer, written and read.
use knowdy.Base.{
  ℕ, zero, suc, ◌+◌, ◌*◌, ◌≤◌, ◌<◌, ◌^◌, ◌≡◌, refl, ap, ap₂, ◌∙◌, arith, dec_lt, subst, Bool, true,
  false, some, List, [], ◌∷◌, ◌++◌, length, length-append, drop, drop-append, ltb, ◌==◌,
  if◌then◌else◌, get_or, get_elem?,
}
use knowdy.Result.{done}
use knowdy.Utils.Ids.{radix_base, obj_id_base, obj_id_seq}
use knowdy.Utils.Ids.Laws.{obj_id_base-obj_id_seq}
use knowdy.Utils.Pack.{pack_int}
use knowdy.Utils.Pack.Laws.{unpack_int-pack_int_any, length-pack_int, min_bytes_least}
use knowdy.Gsp.{seq}
use knowdy.Gsp.Read.{cell, field_size}
use knowdy.Gsp.Format.{Parts, sizes_of, body, count, cells, cell_size_of, whole, max_from, entry}

-- A cell of `k` bytes holds a size.
abbrev pub Holds : ℕ → ℕ → Type 0
Holds k size = (1 ≤ k) × (k ≤ 4) × (size < 2 ^ 31) × (size < 256 ^ k)

-- Every size of a directory is held by a cell of `k` bytes.
abbrev pub AllHeld : ℕ → Parts → Type 0
AllHeld k v = (i : ℕ) → i < radix_base → Holds k (sizes_of v i)

get_or-get_elem? : (xs : List ℕ) (i : ℕ) {c : ℕ} → get_elem? xs i ≡ some c → get_or xs i 0 ≡ c
get_or-get_elem? [] i e = absurd (ground (arith, e))
get_or-get_elem? (x ∷ xs) zero e = ground (arith, e)
get_or-get_elem? (x ∷ xs) (suc i) e = get_or-get_elem? xs i e

-- The digit of a position stands for it.
pub obj_id_base-seq : (i : ℕ) → i < radix_base → obj_id_base (seq i) ≡ some i
obj_id_base-seq i h =
    let (c, at, back) = obj_id_base-obj_id_seq i h in
    ap obj_id_base (get_or-get_elem? obj_id_seq i at) ∙ back

pub cell-false :
    (i j size k : ℕ) (rest : List ℕ)
    → Holds k size
    → cell false k i (pack_int size k ++ rest) ≡ done (seq i, some i, size)
unfolding cell
cell-false i j size k rest h = rw (unpack_int-pack_int_any size k rest h.2 h.0 h.1 h.3) refl

pub cell-true :
    (i j size k : ℕ) (rest : List ℕ)
    → i < radix_base
    → Holds k size
    → cell true k j (seq i ∷ pack_int size k ++ rest) ≡ done (seq i, some i, size)
unfolding cell
cell-true i j size k rest b h =
    rw (unpack_int-pack_int_any size k rest h.2 h.0 h.1 h.3, obj_id_base-seq i b) refl

-- The cells behind the one that was read.
pub drop-pack :
    (size k : ℕ) (rest : List ℕ) → 1 ≤ k → k ≤ 4 → drop k (pack_int size k ++ rest) ≡ rest
drop-pack size k rest p q =
    subst (λ m. drop m (pack_int size k ++ rest) ≡ rest) (length-pack_int size k p q)
      (drop-append (pack_int size k) rest)

max_from-≤ : (sizes : ℕ → ℕ) (m n i : ℕ) → m ≤ max_from sizes m n i
unfolding max_from
max_from-≤ sizes m zero i = omega arith
max_from-≤ sizes m (suc n) i =
    ground (arith, max_from-≤ sizes (if ltb m (sizes i) then sizes i else m) n (suc i))

-- The sizes are at most their maximum.
pub sizes-max_from :
    (sizes : ℕ → ℕ) (m n i j : ℕ) → i ≤ j → j < i + n → sizes j ≤ max_from sizes m n i
unfolding max_from
sizes-max_from sizes m zero i j p q = absurd (omega arith)
sizes-max_from sizes m (suc n) i j p q = elim (dec_lt i j) [
  | yes l ↦
      sizes-max_from sizes (if ltb m (sizes i) then sizes i else m) n (suc i) j (omega arith)
        (omega arith)
  | no l ↦
      let e : i ≡ j = omega arith in
      let at : sizes i ≡ sizes j = ap sizes e in
      ground (arith, max_from-≤ sizes (if ltb m (sizes i) then sizes i else m) n (suc i), at)
]

pub max_from-bounded :
    (sizes : ℕ → ℕ) (m n i bound : ℕ)
    → m ≤ bound
    → ((j : ℕ) → i ≤ j → j < i + n → sizes j ≤ bound)
    → max_from sizes m n i ≤ bound
unfolding max_from
max_from-bounded sizes m zero i bound p q = p
max_from-bounded sizes m (suc n) i bound p q =
    let here : sizes i ≤ bound = q i (omega arith) (omega arith) in
    max_from-bounded sizes (if ltb m (sizes i) then sizes i else m) n (suc i) bound (ground arith)
      (λ j a b. q j (omega arith) (omega arith))

-- A part is at most as long as all of them.
pub sizes-body : (v : Parts) (n i j : ℕ) → i ≤ j → j < i + n → length (v j) ≤ length (body v n i)
unfolding body
sizes-body v zero i j p q = absurd (omega arith)
sizes-body v (suc n) i j p q = elim (dec_lt i j) [
  | yes l ↦ omega (
    arith,
    length-append (v i) (body v n (suc i)),
    sizes-body v n (suc i) j (omega arith) (omega arith),
  )
  | no l ↦
      let e : i ≡ j = omega arith in
      let at : length (v i) ≡ length (v j) = ap (λ (k : ℕ). length (v k)) e in
      omega (arith, length-append (v i) (body v n (suc i)), at)
]

pub count_bound : (sizes : ℕ → ℕ) (n i : ℕ) → count sizes n i ≤ n
unfolding count
count_bound sizes zero i = omega arith
count_bound sizes (suc n) i = ground (arith, count_bound sizes n (suc i))

abbrev pub cells_size : Bool → ℕ → ℕ → ℕ → ℕ
cells_size keyed k num n = (if keyed then num else n) * field_size keyed k

length-positional : (size k i : ℕ) → 1 ≤ k → k ≤ 4 → length (entry false size k i) ≡ k
unfolding entry
length-positional size k i p q = length-pack_int size k p q

length-entry :
    (size k i : ℕ) → 1 ≤ k → k ≤ 4 → length (entry true size k i) ≡ (if size == 0 then 0 else suc k)
unfolding entry
length-entry zero k i p q = refl
length-entry (suc n) k i p q = ground (arith, length-pack_int (suc n) k p q)

count-step :
    (size c k : ℕ)
    → (if size == 0 then 0 else suc k) + c * suc k ≡ (if size == 0 then c else suc c) * suc k
count-step zero c k = omega arith
count-step (suc n) c k =
    let e : suc k + c * suc k ≡ suc c * suc k = omega arith in ground (arith, e)

-- The length of the cells, from which the reader finds where they start.
pub length-cells :
    (keyed : Bool) (sizes : ℕ → ℕ) (k n i : ℕ)
    → 1 ≤ k
    → k ≤ 4
    → length (cells keyed sizes k n i) ≡ cells_size keyed k (count sizes n i) n
unfolding body count
length-cells true sizes k zero i p q = omega arith
length-cells false sizes k zero i p q = omega arith
length-cells true sizes k (suc n) i p q =
    length-append (entry true (sizes i) k i) (cells true sizes k n (suc i))
    ∙ (ap₂ (λ (a b : ℕ). a + b) (length-entry (sizes i) k i p q)
          (length-cells true sizes k n (suc i) p q)
        ∙ count-step (sizes i) (count sizes n (suc i)) k)
length-cells false sizes k (suc n) i p q = omega (
  arith,
  length-append (entry false (sizes i) k i) (cells false sizes k n (suc i)),
  length-positional (sizes i) k i p q,
  length-cells false sizes k n (suc i) p q,
)

-- The cells that `footer` makes hold every size.
pub cell_size_of-AllHeld :
    (v : Parts) → length (whole v) < 2 ^ 31 → AllHeld (cell_size_of (sizes_of v)) v
cell_size_of-AllHeld v h i b =
    let max : ℕ = max_from (sizes_of v) 0 radix_base 0 in
    let small : max ≤ length (whole v) =
      max_from-bounded (sizes_of v) 0 radix_base 0 (length (whole v)) (omega arith)
        (λ j p q. sizes-body v radix_base 0 j p q) in
    let (fit, low, high, least) = min_bytes_least max (omega arith) in
    let mine : sizes_of v i ≤ max =
      sizes-max_from (sizes_of v) 0 radix_base 0 i (omega arith) (omega arith) in
    (low, high, omega arith, omega arith)
