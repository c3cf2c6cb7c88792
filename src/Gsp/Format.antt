-- ===== src/Gsp/Format.antt =====
-- The bytes of a set in a GSP file, and the elements that they stand for.
use knowdy.Base.{
  ℕ, zero, suc, ◌+◌, Bool, true, false, List, [], ◌∷◌, ◌++◌, length, ltb, ◌==◌, if◌then◌else◌, u8,
}
use knowdy.Utils.Ids.{radix_base}
use knowdy.Utils.Pack.{pack_int, min_bytes}
use knowdy.Set.{Idx, null, node}
use knowdy.Gsp.{seq}
use knowdy.Gsp.Write.{is_sparse, is_small}

-- What lies at each of the positions of a directory: nothing where the list is empty.
abbrev pub Parts : Type 0
Parts = ℕ → List ℕ

abbrev pub sizes_of : Parts → ℕ → ℕ
sizes_of v i = length (v i)

-- The functions below are about `n` positions from `i` on.
unfoldable pub body : Parts → ℕ → ℕ → List ℕ
body v zero i = []
body v (suc n) i = v i ++ body v n (suc i)

unfoldable pub count : (ℕ → ℕ) → ℕ → ℕ → ℕ
count sizes zero i = 0
count sizes (suc n) i = let rest = count sizes n (suc i) in if sizes i == 0 then rest else suc rest

unfoldable pub max_from : (ℕ → ℕ) → ℕ → ℕ → ℕ → ℕ
max_from sizes m zero i = m
max_from sizes m (suc n) i = max_from sizes (if ltb m (sizes i) then sizes i else m) n (suc i)

-- A footer has a cell for each position, or one with its digit for each that is not empty.
unfoldable pub entry : Bool → ℕ → ℕ → ℕ → List ℕ
entry false size cell_size i = pack_int size cell_size
entry true size cell_size i = if size == 0 then [] else seq i ∷ pack_int size cell_size

abbrev pub cells : Bool → (ℕ → ℕ) → ℕ → ℕ → ℕ → List ℕ
cells keyed sizes cell_size = body (λ i. entry keyed (sizes i) cell_size i)

abbrev pub trailer : Bool → ℕ → ℕ → List ℕ
trailer true num cell_size = u8 num ∷ u8 cell_size ∷ 1 ∷ []
trailer false num cell_size = u8 cell_size ∷ 0 ∷ []

abbrev pub cell_size_of : (ℕ → ℕ) → ℕ
cell_size_of sizes = min_bytes (max_from sizes 0 radix_base 0)

unfoldable pub footer : (ℕ → ℕ) → List ℕ
footer sizes =
    let num = count sizes radix_base 0 in
    cells (is_sparse num) sizes (cell_size_of sizes) radix_base 0
    ++ trailer (is_sparse num) num (cell_size_of sizes)

-- A record behind another one, and all of them.
unfoldable pub separated : Parts → Parts
separated v i = if sizes_of v i == 0 then [] else 0 ∷ seq i ∷ v i

unfoldable pub linear : Parts → ℕ → ℕ → List ℕ
linear v zero i = []
linear v (suc n) i =
    let rest = linear v n (suc i) in
    if sizes_of v i == 0 then rest else seq i ∷ v i ++ body (separated v) n (suc i)

abbrev pub whole : Parts → List ℕ
whole v = body v radix_base 0

unfoldable pub payload : Parts → List ℕ
payload v =
    if length (whole v) == 0
    then []
    else if is_small (length (whole v))
    then linear v radix_base 0 ++ (0 ∷ 1 ∷ [])
    else whole v ++ footer (sizes_of v)

unfoldable pub subdirs : Parts → List ℕ
subdirs v = if count (sizes_of v) radix_base 0 == 0 then [] else whole v ++ footer (sizes_of v)

unfoldable pub size_bytes : ℕ → List ℕ
size_bytes size =
    if size == 0 then 0 ∷ [] else pack_int size (min_bytes size) ++ (u8 (min_bytes size) ∷ [])

-- An element that is not there has no bytes.
abbrev pub present : (ℕ → List ℕ) → (ℕ → ℕ) → Parts
present enc elems i = if elems i == 0 then [] else enc (elems i)

-- The bytes of a directory, its subdirectories included.
unfoldable pub block : (ℕ → List ℕ) → Idx → List ℕ
block enc null = []
block enc (node idxs elems) =
    payload (present enc elems)
    ++ (subdirs (λ i. block enc (idxs i)) ++ size_bytes (length (payload (present enc elems))))

-- The effects of the children, in order.
unfoldable pub visit_children : {S : Type 0} → (ℕ → List ℕ → S → S) → List ℕ → ℕ → ℕ → S → S
visit_children run idbuf zero i s = s
visit_children run idbuf (suc n) i s =
    visit_children run idbuf n (suc i) (run i (idbuf ++ (seq i ∷ [])) s)

-- What a caller has who takes in the elements one after the other, in the order of the digits, those
-- of a directory before those of its subdirectories.
module _ {S : Type 0} (f : S → List ℕ → List ℕ → S) where
  unfoldable pub visit : Parts → List ℕ → ℕ → ℕ → S → S
  visit v idbuf zero i s = s
  visit v idbuf (suc n) i s =
      visit v idbuf n (suc i) (if sizes_of v i == 0 then s else f s (idbuf ++ (seq i ∷ [])) (v i))

  unfoldable pub visit_all : (ℕ → List ℕ) → Idx → List ℕ → S → S
  visit_all enc null idbuf s = s
  visit_all enc (node idxs elems) idbuf s =
      visit_children (λ i. visit_all enc (idxs i)) idbuf radix_base 0
        (visit (present enc elems) idbuf radix_base 0 s)

unfoldable pub sum : (ℕ → ℕ) → ℕ → ℕ → ℕ
sum f zero i = 0
sum f (suc n) i = f i + sum f n (suc i)

-- The number of elements.
unfoldable pub num_elems_of : (ℕ → List ℕ) → Idx → ℕ
num_elems_of enc null = 0
num_elems_of enc (node idxs elems) =
    count (sizes_of (present enc elems)) radix_base 0
    + sum (λ i. num_elems_of enc (idxs i)) radix_base 0
