-- ===== src/SharedSet.antt =====
-- The trie of src/knd_shared_set.c in memory, as one thread uses it: an exchange finds what was loaded
-- before. What the set keeps of its file is left out.
pub mod Same
pub mod Runs
pub mod Refused
pub mod Adding
mod Tests
use knowdy.Err.{Err}
use knowdy.Base.{
  ℕ, zero, suc, ◌+◌, ◌^◌, ◌%◌, Bool, true, false, ◌&&◌, not, Option, none, some, List, [], ◌∷◌,
  ◌==◌, if◌then◌else◌, u64, ltb,
}
use knowdy.Mempool.{PageType, Pool, page}
use knowdy.Utils.Ids.{obj_id_base}
use knowdy.Set.{Idx, null, node, idxs_of, elems_of, put}
use knowdy.Set.Walks.{traverse_idx}

-- Where the pages of a set come from: the field `mempool` is NULL, and `calloc` still gives memory so
-- many times; or it is a pool.
pub data Memory : Type 0 where
  heap : ℕ → Memory
  pool : Pool → Memory

-- `struct kndSharedSet`
pub record SharedSet : Type 0 where
  pub idx : Idx
  pub num_elems : ℕ
  pub num_valid_elems : ℕ
  pub mempool : Memory
  pub allow_overwrite : Bool

abbrev pub Saved : Type 0
Saved = Err × Idx × Memory

-- A page of zeros, if there is one.
unfoldable pub cleared : Err × ℕ × Pool → Saved
cleared (Err.ok, p, mempool) = (Err.ok, node (λ i. null) (λ i. 0), pool mempool)
cleared (err, p, mempool) = (err, null, pool mempool)

-- `knd_shared_set_elem_idx_new`. Its assert on the size of the pages is tested in `new`.
unfoldable pub elem_idx_new : Memory → Saved
elem_idx_new (heap zero) = (Err.nomem, null, heap zero)
elem_idx_new (heap (suc n)) = (Err.ok, node (λ i. null) (λ i. 0), heap n)
elem_idx_new (pool mempool) = cleared (page mempool PageType.base)

-- The first loop of `save_elem`: the child at a digit, new if there was none.
unfoldable pub child_of : Memory → Idx → Saved
child_of mempool null = elem_idx_new mempool
child_of mempool (node idxs elems) = (Err.ok, node idxs elems, mempool)

abbrev pub linked : Idx → ℕ → Saved → Saved
linked parent_idx pos (err, child, mempool) =
    (err, node (put (idxs_of parent_idx) pos child) (elems_of parent_idx), mempool)

-- The second loop of `save_elem`, "assign payload elem".
unfoldable pub save_leaf : Bool → ℕ → Memory → Idx → ℕ → Saved
save_leaf allow_overwrite elem mempool parent_idx pos =
    if not (elems_of parent_idx pos == 0) && not allow_overwrite
    then (Err.conflict, parent_idx, mempool)
    else (Err.ok, node (idxs_of parent_idx) (put (elems_of parent_idx) pos elem), mempool)

-- What `save_elem` does with the child: `run` is the recursive call.
unfoldable pub descend : (Memory → Idx → Option Saved) → Idx → ℕ → Saved → Option Saved
descend run parent_idx pos (Err.ok, child, mempool) = elim (run mempool child) [
  | none ↦ none
  | some r ↦ some (linked parent_idx pos r)
]
descend run parent_idx pos (err, child, mempool) = some (err, parent_idx, mempool)

-- `save_elem`; an empty id is refused by an `assert`: `none`.
unfoldable pub save_elem : Bool → ℕ → Memory → Idx → List ℕ → Option Saved
save_elem allow_overwrite elem mempool parent_idx [] = none
save_elem allow_overwrite elem mempool parent_idx (c ∷ []) = elim (obj_id_base c) [
  | none ↦ some (Err.format, parent_idx, mempool)
  | some pos ↦ some (save_leaf allow_overwrite elem mempool parent_idx pos)
]
save_elem allow_overwrite elem mempool parent_idx (c ∷ d ∷ id) = elim (obj_id_base c) [
  | none ↦ some (Err.format, parent_idx, mempool)
  | some pos ↦
      descend (λ mempool idx. save_elem allow_overwrite elem mempool idx (d ∷ id)) parent_idx pos
        (child_of mempool (idxs_of parent_idx pos))
]

abbrev pub answer : ℕ → Option (Err × ℕ)
answer elem = if elem == 0 then some (Err.no_match, 0) else some (Err.ok, elem)

-- `get_elem`: the code and, where it is `knd_OK`, the element. The caller's test of a NULL child
-- is the first clause.
unfoldable pub get_elem : Idx → List ℕ → Option (Err × ℕ)
get_elem null id = some (Err.no_match, 0)
get_elem (node idxs elems) [] = none
get_elem (node idxs elems) (c ∷ []) = elim (obj_id_base c) [
  | none ↦ some (Err.format, 0)
  | some pos ↦ answer (elems pos)
]
get_elem (node idxs elems) (c ∷ d ∷ id) = elim (obj_id_base c) [
  | none ↦ some (Err.format, 0)
  | some pos ↦ get_elem (idxs pos) (d ∷ id)
]

-- The counters of a saved element.
unfoldable pub counted : SharedSet → Saved → Err × SharedSet
counted self (Err.ok, idx, mempool) = (
  Err.ok,
  record self {
    idx = idx;
    mempool = mempool;
    num_elems = u64 (self.num_elems + 1);
    num_valid_elems = u64 (self.num_valid_elems + 1);
  },
)
counted self (err, idx, mempool) = (err, record self { idx = idx; mempool = mempool })

-- `knd_shared_set_add`
unfoldable pub add : SharedSet → List ℕ → ℕ → Option (Err × SharedSet)
add self key elem = elim (save_elem self.allow_overwrite elem self.mempool self.idx key) [
  | none ↦ none
  | some r ↦ some (counted self r)
]

-- `knd_shared_set_get`
unfoldable pub get : SharedSet → List ℕ → Option (Err × ℕ)
get self key = elim self.idx [
  | null ↦ some (Err.fail, 0)
  | node idxs elems ↦ get_elem (node idxs elems) key
]

-- `knd_shared_set_map`; `traverse_idx` is, line by line, that of src/knd_set.c.
unfoldable pub set_map {ℓ} : {O : Type ℓ} → (O → List ℕ → ℕ → ℕ → Err × O) → SharedSet → O → Err × O
set_map cb self obj = let (err, s) = traverse_idx cb self.idx (obj, 0) in (err, s.0)

-- The end of `knd_shared_set_new`, after the page for the set itself.
unfoldable pub made : Saved → Err × SharedSet
made (err, idx, mempool) = (
  err,
  record {
    idx = idx;
    num_elems = 0;
    num_valid_elems = 0;
    mempool = mempool;
    allow_overwrite = false;
  },
)

-- `sizeof(struct kndSharedSet)` and `sizeof(struct kndSharedSetElemIdx)` with pointers of 8 bytes.
abbrev pub sizeof_shared_set : ℕ
sizeof_shared_set = 1080

abbrev pub sizeof_elem_idx : ℕ
sizeof_elem_idx = 992

-- The page for the set, taken from a pool whose base pages have `page_size` bytes: the assert of
-- `knd_shared_set_elem_idx_new`, which comes next.
unfoldable pub with_page : ℕ → Err × ℕ × Pool → Option (Err × SharedSet)
with_page page_size (Err.ok, p, mempool) =
    if ltb page_size sizeof_elem_idx then none else some (made (elem_idx_new (pool mempool)))
with_page page_size (err, p, mempool) = some (made (err, null, pool mempool))

-- `knd_shared_set_new`; `none` where an assert fails.
unfoldable pub new : Memory → Option (Err × SharedSet)
new (heap zero) = some (made (Err.nomem, null, heap zero))
new (heap (suc n)) = some (made (elem_idx_new (heap n)))
new (pool mempool) =
    if ltb mempool.pages_small.page_size sizeof_shared_set
    then none
    else with_page mempool.pages_base.page_size (page mempool PageType.small)
