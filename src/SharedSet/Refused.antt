-- ===== src/SharedSet/Refused.antt =====
-- What an addition to a shared set that fails leaves behind.
use knowdy.Err.{Err}
use knowdy.Base.{
  zero, suc, ℕ, ◌≡◌, ◌≢◌, refl, ◌∙◌, sym, ap, arith, subst, some_injective, Bool, true, false, not,
  ◌&&◌, if◌then◌else◌, ◌==◌, Option, none, some, List, [], ◌∷◌,
}
use knowdy.Mempool.{Pool, PageType, page}
use knowdy.Utils.Ids.{obj_id_base}
use knowdy.SharedSet.Same.{get_elem_same}
use knowdy.Set.{Idx, answer, null, node, idxs_of, elems_of, put}
use knowdy.Set.Lookup.{IsId, lookup, get_elem_lem, lookup-null, lookup-empty}
use knowdy.Set.Add.{Same, linked-Same}
use knowdy.SharedSet.{
  SharedSet, Saved, Memory, heap, pool, cleared, elem_idx_new, child_of, save_leaf, descend,
  save_elem, counted, add, get_elem, linked,
}

-- A trie that is the result of an operation holds what `idx` did.
abbrev pub SavedSame : Idx → Saved → Type 0
SavedSame idx (err, idx', mempool) = Same idx idx'

-- So it is if the operation failed.
abbrev pub Kept : Idx → Option Saved → Type 0
Kept idx none = Unit
Kept idx (some r) = r.0 ≢ Err.ok → SavedSame idx r

cleared-Same : (r : Err × ℕ × Pool) → SavedSame null (cleared r)
unfolding cleared
cleared-Same (Err.ok, p, mempool) ds = lookup-empty ds ∙ sym (lookup-null ds)
cleared-Same (_, p, mempool) ds = refl

pub child_of-Same : (mempool : Memory) (idx : Idx) → SavedSame idx (child_of mempool idx)
unfolding child_of elem_idx_new
child_of-Same (heap zero) null ds = refl
child_of-Same (heap (suc n)) null ds = lookup-empty ds ∙ sym (lookup-null ds)
child_of-Same (pool mempool) null ds = cleared-Same (page mempool PageType.base) ds
child_of-Same mempool (node idxs elems) ds = refl

one_of-Kept :
    (b : Bool) (idx idx' : Idx) (mempool : Memory)
    → Kept idx (some (if b then (Err.conflict, idx, mempool) else (Err.ok, idx', mempool)))
one_of-Kept true idx idx' mempool = λ failed es. refl
one_of-Kept false idx idx' mempool = λ failed. absurd (failed refl)

save_leaf-Kept :
    (ow : Bool) (elem : ℕ) (mempool : Memory) (idx : Idx) (pos : ℕ)
    → Kept idx (some (save_leaf ow elem mempool idx pos))
unfolding save_leaf
save_leaf-Kept ow elem mempool idx pos =
    one_of-Kept (not (elems_of idx pos == 0) && not ow) idx
      (node (idxs_of idx) (put (elems_of idx) pos elem)) mempool

linked-Kept :
    (idx : Idx) (pos : ℕ) (child : Idx) (r : Option Saved)
    → Same (idxs_of idx pos) child
    → Kept child r
    → Kept idx (elim r [ none ↦ none | some saved ↦ some (linked idx pos saved) ])
linked-Kept idx pos child none same kept = tt
linked-Kept idx pos child (some (err, child', mempool)) same kept =
    λ failed. linked-Same idx pos child' (λ es. kept failed es ∙ same es)

descend-Kept :
    (run : Memory → Idx → Option Saved)
    → ((mempool : Memory) (idx : Idx) → Kept idx (run mempool idx))
    → (idx : Idx) (pos : ℕ) (r : Saved) → SavedSame (idxs_of idx pos) r
    → Kept idx (descend run idx pos r)
unfolding descend
descend-Kept run kept idx pos (Err.ok, child, mempool) same =
    linked-Kept idx pos child (run mempool child) same (kept mempool child)
descend-Kept run kept idx pos (_, child, mempool) same = λ failed es. refl

save_elem-Kept :
    (ow : Bool) (elem : ℕ) (mempool : Memory) (idx : Idx) (id : List ℕ)
    → Kept idx (save_elem ow elem mempool idx id)
unfolding save_elem
save_elem-Kept ow elem mempool idx [] = tt
save_elem-Kept ow elem mempool idx (c ∷ []) =
    elim (obj_id_base c)
      as (λ o. Kept idx (elim o [
        | none ↦ some (Err.format, idx, mempool)
        | some pos ↦ some (save_leaf ow elem mempool idx pos)
      ])) [ none ↦ λ failed es. refl | some pos ↦ save_leaf-Kept ow elem mempool idx pos ]
save_elem-Kept ow elem mempool idx (c ∷ d ∷ id) =
    elim (obj_id_base c)
      as (λ o. Kept idx (elim o [
        | none ↦ some (Err.format, idx, mempool)
        | some pos ↦
            descend (λ mempool idx. save_elem ow elem mempool idx (d ∷ id)) idx pos
              (child_of mempool (idxs_of idx pos))
      ])) [
        | none ↦ λ failed es. refl
        | some pos ↦
            descend-Kept (λ mempool idx. save_elem ow elem mempool idx (d ∷ id))
              (λ mempool idx. save_elem-Kept ow elem mempool idx (d ∷ id)) idx pos
              (child_of mempool (idxs_of idx pos)) (child_of-Same mempool (idxs_of idx pos))
      ]

-- The ids of digits give what they gave, and no counter has changed.
abbrev pub Unchanged : SharedSet → SharedSet → Type 0
Unchanged self self' =
    ((id ds : List ℕ) → IsId id ds → id ≢ [] → get_elem self'.idx id ≡ get_elem self.idx id)
    × (self'.num_elems ≡ self.num_elems)
    × (self'.num_valid_elems ≡ self.num_valid_elems)

pub found :
    (idx : Idx) (id ds : List ℕ) → IsId id ds → id ≢ [] → get_elem idx id ≡ answer (lookup idx ds)
found idx id ds h ne = get_elem_same idx id ds h ∙ get_elem_lem idx id ds h ne

got-Same :
    (idx idx' : Idx)
    → Same idx idx'
    → (id ds : List ℕ) → IsId id ds
    → id ≢ []
    → get_elem idx' id ≡ get_elem idx id
got-Same idx idx' same id ds h ne =
    found idx' id ds h ne ∙ ap answer (same ds) ∙ sym (found idx id ds h ne)

counted-Unchanged :
    (self : SharedSet) (r : Saved)
    → Kept self.idx (some r)
    → (counted self r).0 ≢ Err.ok
    → Unchanged self (counted self r).1
unfolding counted
counted-Unchanged self (Err.ok, idx, mempool) kept failed = absurd (failed refl)
counted-Unchanged self (_, idx, mempool) kept failed =
    (got-Same self.idx idx (kept failed), refl, refl)

added-Unchanged :
    (self self' : SharedSet) (r : Option Saved) (err : Err)
    → Kept self.idx r
    → (elim r [ none ↦ none | some saved ↦ some (counted self saved) ]) ≡ some (err, self')
    → err ≢ Err.ok
    → Unchanged self self'
added-Unchanged self self' none err kept e failed = absurd (ground (arith, e))
added-Unchanged self self' (some r) err kept e failed =
    subst (λ (x : Err × SharedSet). x.0 ≢ Err.ok → Unchanged self x.1) (some_injective e)
      (counted-Unchanged self r kept) failed

-- Where an addition ends with another code than `knd_OK`, whatever the id and the reason, every id
-- of digits is found as before, and the counters have not changed.
pub add-Unchanged :
    (self self' : SharedSet) (id : List ℕ) (elem : ℕ) (err : Err)
    → add self id elem ≡ some (err, self')
    → err ≢ Err.ok
    → Unchanged self self'
unfolding add
add-Unchanged self self' id elem err e failed =
    added-Unchanged self self' (save_elem self.allow_overwrite elem self.mempool self.idx id) err
      (save_elem-Kept self.allow_overwrite elem self.mempool self.idx id) e failed
