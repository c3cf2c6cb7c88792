-- ===== src/SharedSet/Adding.antt =====
-- What a shared set holds after an addition, with a pool or without.
use knowdy.Err.{Err}
use knowdy.Base.{
  ℕ, ◌≡◌, ◌≢◌, refl, arith, Bool, true, false, not, ◌&&◌, if◌then◌else◌, ◌==◌, Option, none, some,
  List, [], ◌∷◌, bytes_eq, ap, ◌∙◌, subst, some_injective, ◌+◌, u64,
}
use knowdy.Set.{Idx, node, idxs_of, elems_of, put, is_null}
use knowdy.Set.Lookup.{IsId, lookup}
use knowdy.Set.Add.{With, Same, linked-With, leaf-With}
use knowdy.SharedSet.{
  SharedSet, Saved, Memory, child_of, save_leaf, descend, save_elem, counted, add, get, get_elem,
  answer, linked,
}
use knowdy.SharedSet.Refused.{SavedSame, child_of-Same, found}

-- If the operation succeeded, the trie holds the element under the digits, and else what it did.
abbrev Gained : Idx → List ℕ → ℕ → Option Saved → Type 0
Gained idx ds elem none = Unit
Gained idx ds elem (some r) = r.0 ≡ Err.ok → With idx ds elem r.1 × (is_null r.1 ≡ false)

one_of-Gained :
    (b : Bool) (idx idx' : Idx) (ds : List ℕ) (elem : ℕ) (mempool : Memory)
    → With idx ds elem idx' × (is_null idx' ≡ false)
    → Gained idx ds elem
        (some (if b then (Err.conflict, idx, mempool) else (Err.ok, idx', mempool)))
one_of-Gained true idx idx' ds elem mempool w = λ e. absurd (ground (arith, e))
one_of-Gained false idx idx' ds elem mempool w = λ e. w

save_leaf-Gained :
    (ow : Bool) (elem : ℕ) (mempool : Memory) (idx : Idx) (pos : ℕ)
    → Gained idx (pos ∷ []) elem (some (save_leaf ow elem mempool idx pos))
unfolding save_leaf
save_leaf-Gained ow elem mempool idx pos =
    one_of-Gained (not (elems_of idx pos == 0) && not ow) idx
      (node (idxs_of idx) (put (elems_of idx) pos elem)) (pos ∷ []) elem mempool
      (leaf-With idx pos elem, refl)

linked-Gained :
    (idx : Idx) (pos d elem : ℕ) (ds : List ℕ) (child : Idx) (r : Option Saved)
    → Same (idxs_of idx pos) child
    → Gained child (d ∷ ds) elem r
    → Gained idx
        (pos ∷ d ∷ ds)
        elem
        (elim r [ none ↦ none | some saved ↦ some (linked idx pos saved) ])
linked-Gained idx pos d elem ds child none same g = tt
linked-Gained idx pos d elem ds child (some (err, child', mempool)) same g =
    λ e. (linked-With idx pos d elem ds child' (λ es. ground (arith, (g e).0 es, same es)), refl)

descend-Gained :
    (run : Memory → Idx → Option Saved) (d elem : ℕ) (ds : List ℕ)
    → ((mempool : Memory) (idx : Idx) → Gained idx (d ∷ ds) elem (run mempool idx))
    → (idx : Idx) (pos : ℕ) (r : Saved) → SavedSame (idxs_of idx pos) r
    → Gained idx (pos ∷ d ∷ ds) elem (descend run idx pos r)
unfolding descend
descend-Gained run d elem ds gained idx pos (Err.ok, child, mempool) same =
    linked-Gained idx pos d elem ds child (run mempool child) same (gained mempool child)
descend-Gained run d elem ds gained idx pos (_, child, mempool) same =
    λ e. absurd (ground (arith, e))

save_elem-Gained :
    (ow : Bool) (elem : ℕ) (mempool : Memory) (idx : Idx) (id ds : List ℕ)
    → IsId id ds
    → Gained idx ds elem (save_elem ow elem mempool idx id)
unfolding save_elem
save_elem-Gained ow elem mempool idx [] ds h = tt
save_elem-Gained ow elem mempool idx (c ∷ id) [] h = absurd h
save_elem-Gained ow elem mempool idx (c ∷ []) (d ∷ e ∷ ds) (h, t) = absurd t
save_elem-Gained ow elem mempool idx (c ∷ k ∷ id) (d ∷ []) (h, t) = absurd t
save_elem-Gained ow elem mempool idx (c ∷ []) (d ∷ []) (h, t) =
    rw (h, save_elem) (save_leaf-Gained ow elem mempool idx d)
save_elem-Gained ow elem mempool idx (c ∷ k ∷ id) (d ∷ e ∷ ds) (h, t) =
    rw (h, save_elem)
      (descend-Gained (λ mempool idx. save_elem ow elem mempool idx (k ∷ id)) e elem ds
        (λ mempool idx. save_elem-Gained ow elem mempool idx (k ∷ id) (e ∷ ds) t) idx d
        (child_of mempool (idxs_of idx d)) (child_of-Same mempool (idxs_of idx d)))

abbrev AddedTo : SharedSet → List ℕ → ℕ → Err × SharedSet → Type 0
AddedTo self ds elem (err, self') =
    err ≡ Err.ok
    → With self.idx ds elem self'.idx
      × (is_null self'.idx ≡ false)
      × (self'.num_elems ≡ u64 (self.num_elems + 1))

counted-AddedTo :
    (self : SharedSet) (ds : List ℕ) (elem : ℕ) (r : Saved)
    → Gained self.idx ds elem (some r)
    → AddedTo self ds elem (counted self r)
unfolding counted
counted-AddedTo self ds elem (Err.ok, idx, mempool) g = λ e. ((g refl).0, (g refl).1, refl)
counted-AddedTo self ds elem (_, idx, mempool) g = λ e. absurd (ground (arith, e))

added-AddedTo :
    (self : SharedSet) (ds : List ℕ) (elem : ℕ) (r : Option Saved) (a : Err × SharedSet)
    → Gained self.idx ds elem r
    → (elim r [ none ↦ none | some saved ↦ some (counted self saved) ]) ≡ some a
    → AddedTo self ds elem a
added-AddedTo self ds elem none a g e = absurd (ground (arith, e))
added-AddedTo self ds elem (some r) a g e =
    subst (AddedTo self ds elem) (some_injective e) (counted-AddedTo self ds elem r g)

get_node :
    (self : SharedSet) (id : List ℕ) → is_null self.idx ≡ false → get self id ≡ get_elem self.idx id
unfolding get
get_node self id e = ground (arith, e)

-- After an addition that succeeded, to a shared set with a pool or without, the counter of elements is
-- one more, and a lookup of any id of digits gives the element if it is the id that was added, and
-- else what the set held.
pub get-add_shared :
    (self self' : SharedSet) (id ds id' ds' : List ℕ) (elem : ℕ)
    → IsId id ds
    → IsId id' ds'
    → id' ≢ []
    → add self id elem ≡ some (Err.ok, self')
    → (get self' id' ≡ answer (if bytes_eq ds ds' then elem else lookup self.idx ds'))
      × (self'.num_elems ≡ u64 (self.num_elems + 1))
unfolding add
get-add_shared self self' id ds id' ds' elem h h' ne e =
    let (w, rooted, more) =
      added-AddedTo self ds elem (save_elem self.allow_overwrite elem self.mempool self.idx id)
        (Err.ok, self') (save_elem-Gained self.allow_overwrite elem self.mempool self.idx id ds h) e
        refl in
    (get_node self' id' rooted ∙ found self'.idx id' ds' h' ne ∙ ap answer (w ds'), more)
