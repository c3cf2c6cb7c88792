-- ===== src/Set.antt =====
-- The trie of src/knd_set.c: sets of elements under ids of base-62 digits.
pub mod Walks
pub mod Lookup
pub mod Add
pub mod Adding
pub mod Common
pub mod Intersect
pub mod Map
pub mod Codes
mod Tests
use knowdy.Err.{Err}
use knowdy.Base.{
  ℕ, zero, suc, ◌+◌, ◌-◌, Bool, true, false, ◌&&◌, not, Option, none, some, List, [], ◌∷◌, ltb,
  ◌==◌, if◌then◌else◌, u64, get_or, length, map,
}
use knowdy.Mempool.{PageType, Pool, page}
use knowdy.Utils.Ids.{obj_id_base, obj_id_seq, radix_base}

-- `struct kndSetElemIdx`: `idxs` and `elems`; the pointer to one may be NULL. An element is a
-- number, 0 is NULL.
pub data Idx : Type 0 where
  null : Idx
  node : (ℕ → Idx) → (ℕ → ℕ) → Idx

abbrev pub idxs_of : Idx → ℕ → Idx
idxs_of null i = null
idxs_of (node idxs elems) i = idxs i

abbrev pub elems_of : Idx → ℕ → ℕ
elems_of null i = 0
elems_of (node idxs elems) i = elems i

abbrev pub is_null : Idx → Bool
is_null null = true
is_null (node idxs elems) = false

-- `struct kndSet`
pub record Set : Type 0 where
  pub idx : Idx
  pub num_elems : ℕ
  pub num_valid_elems : ℕ
  pub mempool : Pool
  pub allow_overwrite : Bool

abbrev pub put {ℓ} : {A : Type ℓ} → (ℕ → A) → ℕ → A → ℕ → A
put f i a j = if i == j then a else f j

-- The end of `knd_set_elem_idx_new`: a page of zeros.
unfoldable pub cleared : Err × ℕ × Pool → Err × Idx × Pool
cleared (Err.ok, p, mempool) = (Err.ok, node (λ i. null) (λ i. 0), mempool)
cleared (err, p, mempool) = (err, null, mempool)

-- `knd_set_elem_idx_new`
unfoldable pub elem_idx_new : Pool → Err × Idx × Pool
elem_idx_new mempool = cleared (page mempool PageType.base)

-- The child of `parent_idx` at a digit, new if there was none.
unfoldable pub child_of : Pool → Idx → Err × Idx × Pool
child_of mempool null = elem_idx_new mempool
child_of mempool (node idxs elems) = (Err.ok, node idxs elems, mempool)

-- A child is linked from its parent before the descent goes on.
abbrev pub linked : Idx → ℕ → Err × Idx × Pool → Err × Idx × Pool
linked parent_idx pos (err, child, mempool) =
    (err, node (put (idxs_of parent_idx) pos child) (elems_of parent_idx), mempool)

-- The end of `save_elem`, "assign elem".
unfoldable pub save_leaf : Bool → ℕ → Pool → Idx → ℕ → Err × Idx × Pool
save_leaf allow_overwrite elem mempool parent_idx pos =
    if not allow_overwrite && not (elems_of parent_idx pos == 0)
    then (Err.conflict, parent_idx, mempool)
    else (Err.ok, node (idxs_of parent_idx) (put (elems_of parent_idx) pos elem), mempool)

-- `save_elem`: the code, the idx with what was linked to it, and the pool. A byte that is no digit
-- has the position -1, and an empty id is refused by `assert`: `none`.
unfoldable pub save_elem : Bool → ℕ → Pool → Idx → List ℕ → Option (Err × Idx × Pool)
save_elem allow_overwrite elem mempool parent_idx [] = none
save_elem allow_overwrite elem mempool parent_idx (c ∷ []) = elim (obj_id_base c) [
  | none ↦ none
  | some pos ↦ some (save_leaf allow_overwrite elem mempool parent_idx pos)
]
save_elem allow_overwrite elem mempool parent_idx (c ∷ d ∷ id) = elim (obj_id_base c) [
  | none ↦ none
  | some pos ↦
      let (err, child, mempool') = child_of mempool (idxs_of parent_idx pos) in
      elim err [
        | Err.ok ↦ elim (save_elem allow_overwrite elem mempool' child (d ∷ id)) [
          | none ↦ none
          | some r ↦ some (linked parent_idx pos r)
        ]
        | failed ↦ some (failed, parent_idx, mempool')
      ]
]

abbrev pub answer : ℕ → Option (Err × ℕ)
answer elem = if elem == 0 then some (Err.no_match, 0) else some (Err.ok, elem)

-- `get_elem`: the code and, where it is `knd_OK`, the element. The caller's test of a NULL child
-- is the first clause.
unfoldable pub get_elem : Idx → List ℕ → Option (Err × ℕ)
get_elem null id = some (Err.no_match, 0)
get_elem (node idxs elems) [] = none
get_elem (node idxs elems) (c ∷ []) = elim (obj_id_base c) [
  | none ↦ none
  | some pos ↦ answer (elems pos)
]
get_elem (node idxs elems) (c ∷ d ∷ id) = elim (obj_id_base c) [
  | none ↦ none
  | some pos ↦ get_elem (idxs pos) (d ∷ id)
]

-- The counters of a saved element.
unfoldable pub counted : Set → Err × Idx × Pool → Err × Set
counted self (Err.ok, idx, mempool) = (
  Err.ok,
  record self {
    idx = idx;
    mempool = mempool;
    num_elems = u64 (self.num_elems + 1);
    num_valid_elems = u64 (self.num_valid_elems + 1);
  },
)
counted self (err, idx, mempool) = (err, record self { idx = idx; mempool = mempool })

-- `knd_set_add`
unfoldable pub add : Set → List ℕ → ℕ → Option (Err × Set)
add self key elem = elim (save_elem self.allow_overwrite elem self.mempool self.idx key) [
  | none ↦ none
  | some r ↦ some (counted self r)
]

-- `knd_set_get`
unfoldable pub get : Set → List ℕ → Option (Err × ℕ)
get self key = elim self.idx [
  | null ↦ some (Err.fail, 0)
  | node idxs elems ↦ get_elem (node idxs elems) key
]

-- The end of `knd_set_new`, after the page for the set itself.
unfoldable pub made : Err × Idx × Pool → Err × Set
made (err, idx, mempool) = (
  err,
  record {
    idx = idx;
    num_elems = 0;
    num_valid_elems = 0;
    mempool = mempool;
    allow_overwrite = false;
  },
)

-- `knd_set_new`
unfoldable pub new : Pool → Err × Set
new mempool =
    let (err, p, mempool') = page mempool PageType.small in
    elim err [ Err.ok ↦ made (elem_idx_new mempool') | failed ↦ made (failed, null, mempool') ]
