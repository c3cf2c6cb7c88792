-- ===== src/Set/Codes.antt =====
-- The codes that an intersection ends with.
use knowdy.Err.{Err}
use knowdy.Base.{
  ℕ, zero, suc, ◌≤◌, ◌<◌, ◌≡◌, refl, arith, List, [], ◌∷◌, some, ◌⊎◌, inl, inr, Bool, true, false,
  not, if◌then◌else◌, length, map, ◌∙◌,
}
use knowdy.Mempool.{Pool}
use knowdy.Utils.Ids.{radix_base}
use knowdy.Set.{Set, Idx, null, node, is_null, elem_idx_new}
use knowdy.Set.Lookup.{elem_idx_new_lem}
use knowdy.Set.Walks.{
  Found, all_idxs, and_then, for_each, take_elem, walk, descend, traverse, start, collected,
  intersect_sorted, intersect, all_sets, has_root,
}

-- It ends well, or the memory is used up.
abbrev pub Ends {ℓ} : {S : Type ℓ} → Err × S → Type 0
Ends r = (r.0 ≡ Err.ok) ⊎ (r.0 ≡ Err.nomem)

and_then-Ends {ℓ} :
    {S : Type ℓ} (r : Err × S) (next : S → Err × S)
    → Ends r
    → ((s : S) → Ends (next s))
    → Ends (and_then r next)
unfolding and_then
and_then-Ends (Err.ok, s) next h k = k s
and_then-Ends (Err.nomem, s) next h k = h
and_then-Ends (_, s) next (inl e) k = absurd (ground (arith, e))
and_then-Ends (_, s) next (inr e) k = absurd (ground (arith, e))

for_each-Ends {ℓ} :
    {S : Type ℓ} (body : ℕ → S → Err × S) (n i : ℕ) (s : S)
    → ((j : ℕ) (t : S) → Ends (body j t))
    → Ends (for_each n i body s)
unfolding for_each
for_each-Ends body zero i s h = inl refl
for_each-Ends body (suc n) i s h =
    and_then-Ends (body i s) (for_each n (suc i) body) (h i s)
      (λ t. for_each-Ends body n (suc i) t h)

take_elem-Ends :
    (elems : ℕ → ℕ) (idxs : List Idx) (i : ℕ) (s : Found) → Ends (take_elem elems idxs i s)
unfolding take_elem
take_elem-Ends elems idxs i s = ground arith

walk-Ends :
    (run : List Idx → Found → Err × Found) (idxs : List Idx) (i : ℕ) (s : Found)
    (r : Err × Idx × Pool)
    → ((xs : List Idx) (t : Found) → Ends (run xs t))
    → (r.0 ≡ Err.ok) ⊎ (r.0 ≡ Err.nomem)
    → Ends (walk run idxs i s r)
unfolding walk
walk-Ends run idxs i s (Err.ok, sub, mempool) h e = h _ _
walk-Ends run idxs i s (Err.nomem, sub, mempool) h e = inr refl
walk-Ends run idxs i s (_, sub, mempool) h (inl e) = absurd (ground (arith, e))
walk-Ends run idxs i s (_, sub, mempool) h (inr e) = absurd (ground (arith, e))

elem_idx_new-Ends :
    (mempool : Pool) → ((elem_idx_new mempool).0 ≡ Err.ok) ⊎ ((elem_idx_new mempool).0 ≡ Err.nomem)
elem_idx_new-Ends mempool = elim (elem_idx_new_lem mempool) [ inl (e, _) ↦ inl e | inr e ↦ inr e ]

descend-Ends :
    (child : Idx) (run : List Idx → Found → Err × Found) (idxs : List Idx) (i : ℕ) (s : Found)
    → (is_null child ≡ false → (xs : List Idx) (t : Found) → Ends (run xs t))
    → Ends (descend child run idxs i s)
unfolding descend
descend-Ends null run idxs i s h = inl refl
descend-Ends (node a b) run idxs i s h = split (not (all_idxs idxs i))
  where
    split :
        (t : Bool) → Ends (if t then (Err.ok, s) else walk run idxs i s (elem_idx_new s.mempool))
    split true = inl refl
    split false =
        walk-Ends run idxs i s (elem_idx_new s.mempool) (h refl) (elem_idx_new-Ends s.mempool)

traverse-Ends :
    (base : Idx) (idxs : List Idx) (s : Found) → is_null base ≡ false → Ends (traverse base idxs s)
unfolding traverse
traverse-Ends null idxs s h = absurd (ground (arith, h))
traverse-Ends (node base_idxs elems) idxs s h =
    and_then-Ends (for_each radix_base 0 (take_elem elems idxs) s)
      (for_each radix_base 0 (λ i. descend (base_idxs i) (traverse (base_idxs i)) idxs i))
      (for_each-Ends (take_elem elems idxs) radix_base 0 s (take_elem-Ends elems idxs))
      (λ t.
        for_each-Ends (λ i. descend (base_idxs i) (traverse (base_idxs i)) idxs i) radix_base 0 t
          (λ j u.
            descend-Ends (base_idxs j) (traverse (base_idxs j)) idxs j u
              (λ e xs v. traverse-Ends (base_idxs j) xs v e)))

sorted-Ends :
    (self : Set) (sorted : List Set)
    → 0 < length sorted
    → all_sets has_root sorted ≡ true
    → (r : Err × Set) × (intersect_sorted self sorted ≡ some r) × Ends r
unfolding intersect_sorted collected
sorted-Ends self [] some_set h = absurd (omega arith)
sorted-Ends self (base ∷ others) some_set h = (
  collected self (traverse base.idx (map (λ (set : Set). set.idx) others) (start self)),
  ground (arith, h),
  traverse-Ends base.idx (map (λ (set : Set). set.idx) others) (start self) (ground (arith, h)),
)

-- An intersection of two sets or more, at most `KND_MAX_CLAUSES` besides the first, each with its root,
-- comes to an end, with `knd_OK` or with `knd_NOMEM`. `qsort` may order the sets in any way.
pub intersect-Ends :
    (qsort : List Set → List Set) (self : Set) (sets : List Set)
    → ((p : Set → Bool) → all_sets p (qsort sets) ≡ all_sets p sets)
    → length (qsort sets) ≡ length sets
    → 2 ≤ length sets
    → length sets ≤ 33
    → all_sets has_root sets ≡ true
    → (r : Err × Set) × (intersect qsort self sets ≡ some r) × Ends r
unfolding intersect
intersect-Ends qsort self sets perm same two few roots =
    let (r, e, ends) =
      sorted-Ends self (qsort sets) (omega (arith, same)) (perm has_root ∙ roots) in
    (r, ground (arith, e), ends)
