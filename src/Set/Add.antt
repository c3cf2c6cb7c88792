-- ===== src/Set/Add.antt =====
-- Adding to a trie: what it holds afterwards.
use knowdy.Err.{Err}
use knowdy.Base.{
  ℕ, ◌≡◌, ◌≢◌, refl, arith, List, [], ◌∷◌, some, ◌⊎◌, inl, inr, bytes_eq, Bool, true, false, ◌==◌,
  if◌then◌else◌, ◌∙◌, ℕ_discrete, sym,
}
use knowdy.Mempool.{Pool}
use knowdy.Utils.Ids.{obj_id_base}
use knowdy.Set.{Idx, node, idxs_of, elems_of, is_null, put, child_of, save_leaf, save_elem, linked}
use knowdy.Set.Lookup.{lookup, IsId, child_of_lem}

-- `idx` with the element under `ds`.
abbrev pub With : Idx → List ℕ → ℕ → Idx → Type 0
With idx ds elem idx' =
    (es : List ℕ) → lookup idx' es ≡ (if bytes_eq ds es then elem else lookup idx es)

abbrev pub Same : Idx → Idx → Type 0
Same idx idx' = (es : List ℕ) → lookup idx' es ≡ lookup idx es

==_ne : (a b : ℕ) → a ≢ b → (a == b) ≡ false
==_ne a b h = ground arith

-- The three results of an addition.
abbrev pub Saved : Bool → ℕ → Idx → List ℕ → Err × Idx × Pool → Type 0
Saved allow_overwrite elem idx ds (err, idx', mempool) =
    ((err ≡ Err.ok)
      × ((allow_overwrite ≡ true) ⊎ (lookup idx ds ≡ 0))
      × With idx ds elem idx'
      × (is_null idx' ≡ false))
    ⊎ (((err ≡ Err.conflict) × (allow_overwrite ≡ false) × (lookup idx ds ≢ 0) × Same idx idx')
        ⊎ ((err ≡ Err.nomem) × (lookup idx ds ≡ 0) × Same idx idx'))

pub linked-Same :
    (idx : Idx) (pos : ℕ) (child : Idx)
    → Same (idxs_of idx pos) child
    → Same idx (node (put (idxs_of idx) pos child) (elems_of idx))
unfolding lookup
linked-Same idx pos child h [] = refl
linked-Same idx pos child h (x ∷ []) = refl
linked-Same idx pos child h (x ∷ y ∷ es) = ground (arith, h (y ∷ es))

pub linked-With :
    (idx : Idx) (pos d elem : ℕ) (ds : List ℕ) (child : Idx)
    → With (idxs_of idx pos) (d ∷ ds) elem child
    → With idx (pos ∷ d ∷ ds) elem (node (put (idxs_of idx) pos child) (elems_of idx))
unfolding lookup bytes_eq
linked-With idx pos d elem ds child h [] = refl
linked-With idx pos d elem ds child h (x ∷ []) = ground arith
linked-With idx pos d elem ds child h (x ∷ y ∷ es) = ground (arith, h (y ∷ es))

pub leaf-With :
    (idx : Idx) (pos elem : ℕ)
    → With idx (pos ∷ []) elem (node (idxs_of idx) (put (elems_of idx) pos elem))
unfolding lookup bytes_eq
leaf-With idx pos elem [] = refl
leaf-With idx pos elem (x ∷ []) = ground arith
leaf-With idx pos elem (x ∷ y ∷ es) = ground arith

-- What an addition below a child makes of the parent.
linked-Saved :
    (ow : Bool) (elem : ℕ) (idx : Idx) (pos d : ℕ) (ds : List ℕ) (child : Idx)
    (r : Err × Idx × Pool)
    → Same (idxs_of idx pos) child
    → Saved ow elem child (d ∷ ds) r
    → Saved ow elem idx (pos ∷ d ∷ ds) (linked idx pos r)
unfolding lookup
linked-Saved ow elem idx pos d ds child (err, child', mempool) same (inl (e, free, w, _)) = inl (
  e,
  ground (arith, same (d ∷ ds)),
  linked-With idx pos d elem ds child' (λ es. ground (arith, same es, w es)),
  refl,
)
linked-Saved ow elem idx pos d ds child (err, child', mempool) same (inr (inl (e, f, held, s))) =
    inr
      (inl (e, f, ground (arith, same (d ∷ ds)), linked-Same idx pos child' (λ es. s es ∙ same es)))
linked-Saved ow elem idx pos d ds child (err, child', mempool) same (inr (inr (e, free, s))) =
    inr (inr (e, sym (same (d ∷ ds)) ∙ free, linked-Same idx pos child' (λ es. s es ∙ same es)))

save_leaf_lem :
    (ow : Bool) (elem : ℕ) (mempool : Pool) (idx : Idx) (d : ℕ)
    → Saved ow elem idx (d ∷ []) (save_leaf ow elem mempool idx d)
unfolding save_leaf lookup
save_leaf_lem true elem mempool idx d = inl (refl, inl refl, leaf-With idx d elem, refl)
save_leaf_lem false elem mempool idx d = elim (ℕ_discrete (elems_of idx d) 0) [
  | yes free ↦ rw (free) (inl (refl, inr refl, leaf-With idx d elem, refl))
  | no held ↦ rw (==_ne (elems_of idx d) 0 held) (inr (inl (refl, refl, held, λ es. refl)))
]

save_leaf_eq :
    (ow : Bool) (elem : ℕ) (mempool : Pool) (idx : Idx) (c d : ℕ)
    → obj_id_base c ≡ some d
    → save_elem ow elem mempool idx (c ∷ []) ≡ some (save_leaf ow elem mempool idx d)
unfolding save_elem
save_leaf_eq ow elem mempool idx c d h = ground (arith, h)

save_below_eq :
    (ow : Bool) (elem : ℕ) (mempool : Pool) (idx : Idx) (c d k : ℕ) (id : List ℕ)
    (r : Err × Idx × Pool)
    → obj_id_base c ≡ some d
    → let (err, child, mempool') = child_of mempool (idxs_of idx d) in
      err ≡ Err.ok
      → save_elem ow elem mempool' child (k ∷ id) ≡ some r
      → save_elem ow elem mempool idx (c ∷ k ∷ id) ≡ some (linked idx d r)
unfolding save_elem
save_below_eq ow elem mempool idx c d k id r h ok e = ground (arith, h, ok, e)

save_below_nomem :
    (ow : Bool) (elem : ℕ) (mempool : Pool) (idx : Idx) (c d k : ℕ) (id : List ℕ)
    → obj_id_base c ≡ some d
    → let (err, child, mempool') = child_of mempool (idxs_of idx d) in
      err ≡ Err.nomem → save_elem ow elem mempool idx (c ∷ k ∷ id) ≡ some (Err.nomem, idx, mempool')
unfolding save_elem
save_below_nomem ow elem mempool idx c d k id h nomem = ground (arith, h, nomem)

pub save_elem_lem :
    (ow : Bool) (elem : ℕ) (mempool : Pool) (idx : Idx) (id ds : List ℕ)
    → IsId id ds
    → id ≢ []
    → (r : Err × Idx × Pool) × (save_elem ow elem mempool idx id ≡ some r) × Saved ow elem idx ds r
unfolding lookup
save_elem_lem ow elem mempool idx [] ds h ne = absurd (ne refl)
save_elem_lem ow elem mempool idx (c ∷ id) [] h ne = absurd h
save_elem_lem ow elem mempool idx (c ∷ []) (d ∷ e ∷ ds) (h, t) ne = absurd t
save_elem_lem ow elem mempool idx (c ∷ k ∷ id) (d ∷ []) (h, t) ne = absurd t
save_elem_lem ow elem mempool idx (c ∷ []) (d ∷ []) (h, t) ne = (
  save_leaf ow elem mempool idx d,
  save_leaf_eq ow elem mempool idx c d h,
  save_leaf_lem ow elem mempool idx d,
)
save_elem_lem ow elem mempool idx (c ∷ k ∷ id) (d ∷ e ∷ ds) (h, t) ne =
    let (err, child, mempool') = child_of mempool (idxs_of idx d) in
    elim (child_of_lem mempool (idxs_of idx d)) [
      | inl (ok, same) ↦
          let (r, saves, saved) =
            save_elem_lem ow elem mempool' child (k ∷ id) (e ∷ ds) t (λ q. ground (arith, q)) in
          (
            linked idx d r,
            save_below_eq ow elem mempool idx c d k id r h ok saves,
            linked-Saved ow elem idx d e ds child r same saved,
          )
      | inr (nomem, free) ↦ (
        (Err.nomem, idx, mempool'),
        save_below_nomem ow elem mempool idx c d k id h nomem,
        inr (inr (refl, free (e ∷ ds), λ es. refl)),
      )
    ]
