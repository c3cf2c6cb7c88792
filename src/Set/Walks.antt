-- ===== src/Set/Walks.antt =====
-- The walks over a trie: intersection (`kndSet_traverse`) and iteration (`kndSet_traverse_idx`).
use Prim.Native.Nat.{Ordering}
use knowdy.Err.{Err}
use knowdy.Base.{
  ℕ, zero, suc, ◌+◌, ◌==◌, Bool, true, false, ◌&&◌, ◌||◌, not, List, [], ◌∷◌, map, if◌then◌else◌,
  u64, get_or, length, Option, none, some, ltb, ◌-◌,
}
use knowdy.Mempool.{Pool}
use knowdy.Utils.Ids.{radix_base, obj_id_seq}
use knowdy.Set.{Idx, null, node, idxs_of, elems_of, is_null, Set, put, elem_idx_new}

-- A code other than `knd_OK` is returned at once.
unfoldable pub and_then {ℓ} : {S : Type ℓ} → Err × S → (S → Err × S) → Err × S
and_then (Err.ok, s) next = next s
and_then (err, s) next = (err, s)

-- A loop `for (i = 0; i < n; i++)` whose body may return a code.
unfoldable pub for_each {ℓ} : {S : Type ℓ} → ℕ → ℕ → (ℕ → S → Err × S) → S → Err × S
for_each zero i body s = (Err.ok, s)
for_each (suc n) i body s = and_then (body i s) (for_each n (suc i) body)

-- The state of `kndSet_traverse`: the result and what it takes from the set.
pub record Found : Type 0 where
  pub result : Idx
  pub mempool : Pool
  pub num_elems : ℕ
  pub num_valid_elems : ℕ

abbrev pub all_elems : List Idx → ℕ → Bool
all_elems [] i = true
all_elems (idx ∷ idxs) i = not (elems_of idx i == 0) && all_elems idxs i

abbrev pub all_idxs : List Idx → ℕ → Bool
all_idxs [] i = true
all_idxs (idx ∷ idxs) i = not (is_null (idxs_of idx i)) && all_idxs idxs i

-- The body of the loop over terminal elements.
unfoldable pub take_elem : (ℕ → ℕ) → List Idx → ℕ → Found → Err × Found
take_elem elems idxs i s =
    if elems i == 0
    then (Err.ok, s)
    else if all_elems idxs i
    then (
      Err.ok,
      record s {
        result = node (idxs_of s.result) (put (elems_of s.result) i (elems i));
        num_elems = u64 (s.num_elems + 1);
        num_valid_elems = u64 (s.num_valid_elems + 1);
      },
    )
    else (Err.ok, s)

-- The walk of a child, into a new idx that is linked first.
unfoldable pub walk :
    (List Idx → Found → Err × Found) → List Idx → ℕ → Found → Err × Idx × Pool → Err × Found
walk run idxs i s (Err.ok, sub_idx, mempool) =
    let (err, s') =
      run (map (λ idx. idxs_of idx i) idxs) (record s { result = sub_idx; mempool = mempool }) in
    (err, record s' { result = node (put (idxs_of s.result) i s'.result) (elems_of s.result) })
walk run idxs i s (err, sub_idx, mempool) = (err, record s { mempool = mempool })

-- The body of the loop over subfolders: `run` is the recursive call for the child of the base.
unfoldable pub descend : Idx → (List Idx → Found → Err × Found) → List Idx → ℕ → Found → Err × Found
descend child run idxs i s =
    if is_null child || not (all_idxs idxs i)
    then (Err.ok, s)
    else walk run idxs i s (elem_idx_new s.mempool)

-- `kndSet_traverse`; the base is never NULL.
unfoldable pub traverse : Idx → List Idx → Found → Err × Found
traverse null idxs s = (Err.fail, s)
traverse (node base_idxs elems) idxs s =
    and_then (for_each radix_base 0 (take_elem elems idxs) s)
      (for_each radix_base 0 (λ i. descend (base_idxs i) (traverse (base_idxs i)) idxs i))

-- `KND_MAX_CLAUSES`
abbrev pub max_clauses : ℕ
max_clauses = 32

abbrev pub start : Set → Found
start self = record {
  result = self.idx;
  mempool = self.mempool;
  num_elems = self.num_elems;
  num_valid_elems = self.num_valid_elems;
}

unfoldable pub collected : Set → Err × Found → Err × Set
collected self (err, s) = (
  err,
  record self {
    idx = s.result;
    mempool = s.mempool;
    num_elems = s.num_elems;
    num_valid_elems = s.num_valid_elems;
  },
)

-- `compare_set_by_size_ascend`: the sign as an order.
unfoldable pub compare_by_size : Set → Set → Ordering
compare_by_size a b =
    if a.num_elems == b.num_elems
    then Ordering.eq
    else if ltb b.num_elems a.num_elems
    then Ordering.gt
    else Ordering.lt

abbrev pub all_sets : (Set → Bool) → List Set → Bool
all_sets p [] = true
all_sets p (set ∷ sets) = p set && all_sets p sets

abbrev pub has_root : Set → Bool
has_root set = not (is_null set.idx)

-- The smallest set is the base. The root of every set is dereferenced: `none` where one is NULL.
unfoldable pub intersect_sorted : Set → List Set → Option (Err × Set)
intersect_sorted self [] = none
intersect_sorted self (base ∷ others) =
    if all_sets has_root (base ∷ others)
    then some
        (collected self (traverse base.idx (map (λ (set : Set). set.idx) others) (start self)))
    else none

-- `knd_set_intersect`; `qsort` is the order of `qsort` with `compare_set_by_size_ascend`. More than
-- `KND_MAX_CLAUSES` sets besides the first overrun an array, and an empty list has no first set:
-- `none`.
unfoldable pub intersect : (List Set → List Set) → Set → List Set → Option (Err × Set)
intersect qsort self sets =
    if length sets == 1
    then some (Err.fail, self)
    else if ltb max_clauses (length sets - 1)
    then none
    else intersect_sorted self (qsort sets)

abbrev pub is_ok : Err → Bool
is_ok Err.ok = true
is_ok _ = false

-- `kndSet_traverse_idx`, with the callback `cb` on the state `obj` and the counter `count`; what the
-- callback gets as the id is the last digit alone.
unfoldable pub call_back {ℓ} :
    {O : Type ℓ} → (O → List ℕ → ℕ → ℕ → Err × O) → (ℕ → ℕ) → ℕ → O × ℕ → Err × (O × ℕ)
call_back cb elems i (obj, count) =
    if elems i == 0
    then (Err.ok, (obj, count))
    else let (err, obj') = cb obj (get_or obj_id_seq i 0 ∷ []) count (elems i) in
      (err, (obj', (if is_ok err then u64 (count + 1) else count)))

unfoldable pub traverse_idx {ℓ} :
    {O : Type ℓ} → (O → List ℕ → ℕ → ℕ → Err × O) → Idx → O × ℕ → Err × (O × ℕ)
traverse_idx cb null s = (Err.ok, s)
traverse_idx cb (node idxs elems) s =
    and_then (for_each radix_base 0 (call_back cb elems) s)
      (for_each radix_base 0 (λ i. traverse_idx cb (idxs i)))

-- `knd_set_map`
unfoldable pub set_map {ℓ} : {O : Type ℓ} → (O → List ℕ → ℕ → ℕ → Err × O) → Set → O → Err × O
set_map cb self obj = let (err, s) = traverse_idx cb self.idx (obj, 0) in (err, s.0)
