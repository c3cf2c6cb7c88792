-- ===== src/SharedSet/Same.antt =====
-- A shared set with a pool and a set of src/knd_set.c do the same on ids of digits.
use knowdy.Err.{Err}
use knowdy.Base.{
  ltb, ◌≤◌, arith, ℕ, ◌≡◌, refl, ap, ◌∙◌, Option, none, some, List, [], ◌∷◌, ◌==◌, Bool, true,
  false, not, ◌&&◌, if◌then◌else◌,
}
use knowdy.Mempool.{Pool, PageType, page}
use mathlib.Core.Option
use knowdy.Set
use knowdy.Set.{Idx, null, node, idxs_of, elems_of}
use knowdy.Set.Lookup.{IsId}
use knowdy.SharedSet
use knowdy.SharedSet.{Saved, descend, Memory, pool}

-- What a set's `save_elem` gives, as a shared set with a pool has it.
abbrev pub pooled : Err × Idx × Pool → Saved
pooled (err, idx, mempool) = (err, idx, pool mempool)

-- The shared set with the fields of a set.
abbrev pub shared : Set.Set → SharedSet.SharedSet
shared s = record {
  idx = s.idx;
  num_elems = s.num_elems;
  num_valid_elems = s.num_valid_elems;
  mempool = pool s.mempool;
  allow_overwrite = s.allow_overwrite;
}

-- A result with its set.
abbrev pub shared_result : Err × Set.Set → Err × SharedSet.SharedSet
shared_result (err, s) = (err, shared s)

cleared_same : (r : Err × ℕ × Pool) → SharedSet.cleared r ≡ pooled (Set.cleared r)
unfolding SharedSet.cleared Set.cleared
cleared_same (Err.ok, p, mempool) = refl
cleared_same (_, p, mempool) = refl

child_of_same :
    (mempool : Pool) (idx : Idx)
    → SharedSet.child_of (pool mempool) idx ≡ pooled (Set.child_of mempool idx)
unfolding SharedSet.child_of Set.child_of SharedSet.elem_idx_new Set.elem_idx_new
child_of_same mempool null = cleared_same (page mempool PageType.base)
child_of_same mempool (node idxs elems) = refl

if-and_comm :
    (b c : Bool) (x y : Err × Idx × Pool)
    → (if b && c then pooled x else pooled y) ≡ pooled (if c && b then x else y)
if-and_comm true true x y = refl
if-and_comm true false x y = refl
if-and_comm false true x y = refl
if-and_comm false false x y = refl

save_leaf_same :
    (allow_overwrite : Bool) (elem : ℕ) (mempool : Pool) (idx : Idx) (pos : ℕ)
    → SharedSet.save_leaf allow_overwrite elem (pool mempool) idx pos
      ≡ pooled (Set.save_leaf allow_overwrite elem mempool idx pos)
unfolding SharedSet.save_leaf Set.save_leaf
save_leaf_same allow_overwrite elem mempool idx pos =
    if-and_comm (not (elems_of idx pos == 0)) (not allow_overwrite) (Err.conflict, idx, mempool)
      (Err.ok, node (idxs_of idx) (Set.put (elems_of idx) pos elem), mempool)

-- What a set's `save_elem` does with the child, as its clause has it.
abbrev set_descend :
    (Pool → Idx → Option (Err × Idx × Pool))
    → Idx
    → ℕ
    → Err × Idx × Pool
    → Option (Err × Idx × Pool)
set_descend run parent_idx pos (err, child, mempool) = elim err [
  | Err.ok ↦ elim (run mempool child) [ none ↦ none | some r ↦ some (Set.linked parent_idx pos r) ]
  | failed ↦ some (failed, parent_idx, mempool)
]

linked_same :
    (parent_idx : Idx) (pos : ℕ) (r : Option (Err × Idx × Pool))
    → Option.map (SharedSet.linked parent_idx pos) (Option.map pooled r)
      ≡ Option.map pooled (Option.map (Set.linked parent_idx pos) r)
linked_same parent_idx pos none = refl
linked_same parent_idx pos (some r) = refl

descend_same :
    (shared_run : Memory → Idx → Option Saved) (run : Pool → Idx → Option (Err × Idx × Pool))
    → ((mempool : Pool) (idx : Idx)
        → shared_run (pool mempool) idx ≡ Option.map pooled (run mempool idx))
    → (parent_idx : Idx) (pos : ℕ) (r : Err × Idx × Pool)
    → descend shared_run parent_idx pos (pooled r)
      ≡ Option.map pooled (set_descend run parent_idx pos r)
unfolding descend
descend_same shared_run run same parent_idx pos (Err.ok, child, mempool) =
    rw (same mempool child) (linked_same parent_idx pos (run mempool child))
descend_same shared_run run same parent_idx pos (_, child, mempool) = refl

-- An id of digits is saved in the same way.
pub save_elem_same :
    (allow_overwrite : Bool) (elem : ℕ) (mempool : Pool) (idx : Idx) (id ds : List ℕ)
    → IsId id ds
    → SharedSet.save_elem allow_overwrite elem (pool mempool) idx id
      ≡ Option.map pooled (Set.save_elem allow_overwrite elem mempool idx id)
unfolding SharedSet.save_elem Set.save_elem
save_elem_same allow_overwrite elem mempool idx [] ds h = refl
save_elem_same allow_overwrite elem mempool idx (c ∷ id) [] h = absurd h
save_elem_same allow_overwrite elem mempool idx (c ∷ []) (d ∷ ds) (h, t) =
    rw (h, SharedSet.save_elem, Set.save_elem)
      (ap some (save_leaf_same allow_overwrite elem mempool idx d))
save_elem_same allow_overwrite elem mempool idx (c ∷ k ∷ id) (d ∷ ds) (h, t) =
    rw (h, SharedSet.save_elem, Set.save_elem)
      (rw (child_of_same mempool (idxs_of idx d)) (
        descend_same (λ mempool idx. SharedSet.save_elem allow_overwrite elem mempool idx (k ∷ id))
          (λ mempool idx. Set.save_elem allow_overwrite elem mempool idx (k ∷ id))
          (λ mempool idx. save_elem_same allow_overwrite elem mempool idx (k ∷ id) ds t) idx d
          (Set.child_of mempool (idxs_of idx d))))

counted_same :
    (s : Set.Set) (r : Err × Idx × Pool)
    → SharedSet.counted (shared s) (pooled r) ≡ shared_result (Set.counted s r)
unfolding SharedSet.counted Set.counted
counted_same s (Err.ok, idx, mempool) = refl
counted_same s (_, idx, mempool) = refl

map_counted_same :
    (s : Set.Set) (r : Option (Err × Idx × Pool))
    → Option.map (SharedSet.counted (shared s)) (Option.map pooled r)
      ≡ Option.map shared_result (Option.map (Set.counted s) r)
map_counted_same s none = refl
map_counted_same s (some r) = ap some (counted_same s r)

-- An addition under an id of digits gives the same code, counters and trie.
pub add_same :
    (s : Set.Set) (id ds : List ℕ) (elem : ℕ)
    → IsId id ds
    → SharedSet.add (shared s) id elem ≡ Option.map shared_result (Set.add s id elem)
unfolding SharedSet.add Set.add
add_same s id ds elem h =
    ap (Option.map (SharedSet.counted (shared s)))
      (save_elem_same s.allow_overwrite elem s.mempool s.idx id ds h)
    ∙ map_counted_same s (Set.save_elem s.allow_overwrite elem s.mempool s.idx id)

pub get_elem_same :
    (idx : Idx) (id ds : List ℕ) → IsId id ds → SharedSet.get_elem idx id ≡ Set.get_elem idx id
unfolding SharedSet.get_elem Set.get_elem
get_elem_same null id ds h = refl
get_elem_same (node idxs elems) [] ds h = refl
get_elem_same (node idxs elems) (c ∷ id) [] h = absurd h
get_elem_same (node idxs elems) (c ∷ []) (d ∷ ds) (h, t) =
    rw (h, SharedSet.get_elem, Set.get_elem) refl
get_elem_same (node idxs elems) (c ∷ k ∷ id) (d ∷ ds) (h, t) =
    rw (h, SharedSet.get_elem, Set.get_elem) (get_elem_same (idxs d) (k ∷ id) ds t)

get_root_same :
    (s : Set.Set) (idx : Idx) (id ds : List ℕ)
    → IsId id ds
    → SharedSet.get (shared (record s { idx = idx })) id ≡ Set.get (record s { idx = idx }) id
unfolding SharedSet.get Set.get
get_root_same s null id ds h = refl
get_root_same s (node idxs elems) id ds h = get_elem_same (node idxs elems) id ds h

-- A lookup of an id of digits gives the same.
pub get_same :
    (s : Set.Set) (id ds : List ℕ) → IsId id ds → SharedSet.get (shared s) id ≡ Set.get s id
get_same s id ds h = get_root_same s s.idx id ds h

with_page_same :
    (page_size : ℕ) (r : Err × ℕ × Pool)
    → 992 ≤ page_size
    → SharedSet.with_page page_size r
      ≡ some (
          shared_result (elim r.0 [
            | Err.ok ↦ Set.made (Set.elem_idx_new r.2)
            | failed ↦ Set.made (failed, null, r.2)
          ]))
unfolding SharedSet.with_page SharedSet.made Set.made SharedSet.elem_idx_new Set.elem_idx_new
with_page_same page_size (Err.ok, p, mempool) h =
    let large : ltb page_size 992 ≡ false = ground arith in
    rw (large) (ap (λ s. some (SharedSet.made s)) (cleared_same (page mempool PageType.base)))
with_page_same page_size (_, p, mempool) h = refl

-- A new set is the same.
pub new_same :
    (mempool : Pool)
    → 1080 ≤ mempool.pages_small.page_size
    → 992 ≤ mempool.pages_base.page_size
    → SharedSet.new (pool mempool) ≡ some (shared_result (Set.new mempool))
unfolding SharedSet.new Set.new
new_same mempool small base =
    let large : ltb mempool.pages_small.page_size 1080 ≡ false = ground arith in
    rw (large) (with_page_same mempool.pages_base.page_size (page mempool PageType.small) base)
