-- ===== src/Set/Intersect.antt =====
-- The intersection of tries: `kndSet_traverse` and `knd_set_intersect`.
use knowdy.Err.{Err}
use knowdy.Base.{
  ℕ, suc, ◌<◌, ◌≡◌, refl, arith, List, [], ◌∷◌, some, ◌⊎◌, inl, inr, Bool, true, false, ◌&&◌, ◌||◌,
  not, ◌==◌, if◌then◌else◌, ap, ◌∙◌, sym, subst, map, ltb, some_injective, none, ◌↔◌,
}
use knowdy.Mempool.{Pool}
use knowdy.Utils.Ids.{radix_base}
use knowdy.Set.{Set, Idx, null, node, idxs_of, elems_of, is_null, elem_idx_new}
use knowdy.Set.Lookup.{lookup, lookup-empty, elem_idx_new_lem}
use knowdy.Set.Walks.{
  and_then, for_each, walk, Found, all_idxs, take_elem, descend, traverse, collected,
  intersect_sorted, intersect, start, all_sets, has_root,
}
use knowdy.Set.Common.{
  InRange, all_in, common, all_in-leaf, all_idxs-false, null_below, common-below, for_each_lem,
  and_then_lem,
}

abbrev pub IsEmpty : Idx → Type 0
IsEmpty idx = (ds : List ℕ) → lookup idx ds ≡ 0

-- The first loop has seen the digits below `i`.
abbrev Elems : Idx → List Idx → ℕ → Found → Type 0
Elems base idxs i s =
    ((j : ℕ) → elems_of s.result j ≡ (if ltb j i then common base idxs (j ∷ []) else 0))
    × ((j e : ℕ) (ds : List ℕ) → lookup (idxs_of s.result j) (e ∷ ds) ≡ 0)

take_elem_step :
    (base_idxs : ℕ → Idx) (elems : ℕ → ℕ) (idxs : List Idx) (i : ℕ) (s : Found)
    → Elems (node base_idxs elems) idxs i s
    → Elems (node base_idxs elems) idxs (suc i) (take_elem elems idxs i s).1
unfolding take_elem lookup
take_elem_step base_idxs elems idxs i s (h, k) = (
  λ j. ground (arith, h j, all_in-leaf idxs i, all_in-leaf idxs j),
  λ j e ds. ground (arith, k j e ds),
)

-- The second loop has seen the digits below `i`.
abbrev Below : Idx → List Idx → ℕ → Found → Type 0
Below base idxs i s =
    ((j : ℕ) → j < radix_base → elems_of s.result j ≡ common base idxs (j ∷ []))
    × ((j e : ℕ) (ds : List ℕ)
        → InRange (e ∷ ds)
        → lookup (idxs_of s.result j) (e ∷ ds)
          ≡ (if ltb j i then common base idxs (j ∷ e ∷ ds) else 0))

-- What the recursive call does for the child of the base.
abbrev Walked : Idx → (List Idx → Found → Err × Found) → Type 0
Walked child run =
    (idxs : List Idx) (s : Found)
    → IsEmpty s.result
    → (run idxs s).0 ≡ Err.ok
    → (ds : List ℕ) → InRange ds
    → lookup (run idxs s).1.result ds ≡ common child idxs ds

common_skip :
    (base : Idx) (idxs : List Idx) (i e : ℕ) (ds : List ℕ)
    → is_null (idxs_of base i) || not (all_idxs idxs i) ≡ true
    → common base idxs (i ∷ e ∷ ds) ≡ 0
unfolding lookup
common_skip base idxs i e ds skip =
    ground (arith, all_idxs-false idxs i e ds, null_below (idxs_of base i) (e ∷ ds))

skip_step :
    (base : Idx) (idxs : List Idx) (i : ℕ) (s : Found)
    → is_null (idxs_of base i) || not (all_idxs idxs i) ≡ true
    → Below base idxs i s
    → Below base idxs (suc i) s
skip_step base idxs i s skip (h, k) =
    (h, λ j e ds r. ground (arith, k j e ds r, common_skip base idxs i e ds skip))

walk_step :
    (base : Idx) (run : List Idx → Found → Err × Found) (idxs : List Idx) (i : ℕ) (s : Found)
    (r : Err × Idx × Pool)
    → Walked (idxs_of base i) run
    → ((r.0 ≡ Err.ok) × (r.1 ≡ node (λ i. null) (λ i. 0))) ⊎ (r.0 ≡ Err.nomem)
    → (walk run idxs i s r).0 ≡ Err.ok
    → Below base idxs i s
    → Below base idxs (suc i) (walk run idxs i s r).1
unfolding walk
walk_step base run idxs i s (Err.ok, sub, mempool) walked (inl (_, fresh)) ok (h, k) = (
  h,
  λ j e ds r. ground (
    arith,
    k j e ds r,
    walked (map (λ idx. idxs_of idx i) idxs) (record s { result = sub; mempool = mempool })
          (λ es. ap (λ (idx : Idx). lookup idx es) fresh ∙ lookup-empty es) ok (e ∷ ds) r
        ∙ sym (common-below base idxs i e ds),
  ),
)
walk_step base run idxs i s (Err.ok, sub, mempool) walked (inr e) ok b = absurd (ground (arith, e))
walk_step base run idxs i s (_, sub, mempool) walked r ok b = absurd (ground (arith, ok))

descend_step :
    (base : Idx) (run : List Idx → Found → Err × Found) (idxs : List Idx) (i : ℕ) (s : Found)
    (b : Bool)
    → Walked (idxs_of base i) run
    → (is_null (idxs_of base i) || not (all_idxs idxs i)) ≡ b
    → (descend (idxs_of base i) run idxs i s).0 ≡ Err.ok
    → Below base idxs i s
    → Below base idxs (suc i) (descend (idxs_of base i) run idxs i s).1
unfolding descend
descend_step base run idxs i s true walked e ok b = rw (e) (skip_step base idxs i s e b)
descend_step base run idxs i s false walked e ok b = rw (e) (
    walk_step base run idxs i s (elem_idx_new s.mempool) walked (elem_idx_new_lem s.mempool)
      (ground (arith, ok, e)) b)

Elems-init : (base : Idx) (idxs : List Idx) (s : Found) → IsEmpty s.result → Elems base idxs 0 s
unfolding lookup
Elems-init base idxs s empty = (λ j. empty (j ∷ []) ∙ ground arith, λ j e ds. empty (j ∷ e ∷ ds))

Below-init :
    (base : Idx) (idxs : List Idx) (s : Found) → Elems base idxs radix_base s → Below base idxs 0 s
Below-init base idxs s (h, k) = (λ j lt. ground (arith, h j), λ j e ds r. ground (arith, k j e ds))

Below-all :
    (base : Idx) (idxs : List Idx) (s : Found)
    → Below base idxs radix_base s
    → (ds : List ℕ) → InRange ds
    → lookup s.result ds ≡ common base idxs ds
unfolding lookup
Below-all base idxs s (h, k) [] r = ground arith
Below-all base idxs s (h, k) (d ∷ []) r = h d r.0
Below-all base idxs s (h, k) (d ∷ e ∷ ds) r = ground (arith, k d e ds r.1)

-- Into an empty result, a walk that succeeds puts under each id of digits the element of the base if
-- all the other tries hold one there, and nothing else.
pub traverse_lem :
    (base : Idx) (idxs : List Idx) (s : Found)
    → IsEmpty s.result
    → (traverse base idxs s).0 ≡ Err.ok
    → (ds : List ℕ) → InRange ds
    → lookup (traverse base idxs s).1.result ds ≡ common base idxs ds
unfolding traverse
traverse_lem null idxs s empty ok = absurd (ground (arith, ok))
traverse_lem (node base_idxs elems) idxs s empty ok =
    let base = node base_idxs elems in
    let walks = λ (i : ℕ). descend (base_idxs i) (traverse (base_idxs i)) idxs i in
    let first = for_each radix_base 0 (take_elem elems idxs) s in
    let (ok1, both) = and_then_lem first (for_each radix_base 0 walks) ok in
    let seen =
      for_each_lem (Elems base idxs) (take_elem elems idxs) radix_base 0 s
        (λ j t p _. take_elem_step base_idxs elems idxs j t p) (Elems-init base idxs s empty) ok1 in
    let below =
      for_each_lem (Below base idxs) walks radix_base 0 first.1
        (λ j t p okj.
          descend_step base (traverse (base_idxs j)) idxs j t
            (is_null (base_idxs j) || not (all_idxs idxs j)) (traverse_lem (base_idxs j)) refl okj
            p)
        (Below-init base idxs first.1 seen) (subst (λ (r : Err × Found). r.0 ≡ Err.ok) both ok) in
    Below-all base idxs (and_then first (for_each radix_base 0 walks)).1
      (subst (λ (r : Err × Found). Below base idxs radix_base r.1) (sym both) below)

-- The set has an element under the digits.
abbrev pub holds : List ℕ → Set → Bool
holds ds set = not (lookup set.idx ds == 0)

all_in-map :
    (ds : List ℕ) (sets : List Set)
    → all_in (map (λ (set : Set). set.idx) sets) ds ≡ all_sets (holds ds) sets
unfolding all_in
all_in-map ds [] = refl
all_in-map ds (set ∷ sets) = ap (λ (b : Bool). holds ds set && b) (all_in-map ds sets)

taken : {r r' : Err × Set} (b : Bool) → (if b then some r else none) ≡ some r' → some r ≡ some r'
taken true e = e
taken false e = absurd (ground (arith, e))

sorted_lem :
    (self self' : Set) (sorted : List Set) (ds : List ℕ)
    → IsEmpty self.idx
    → intersect_sorted self sorted ≡ some (Err.ok, self')
    → InRange ds
    → (lookup self'.idx ds ≡ 0) ↔ (all_sets (holds ds) sorted ≡ false)
unfolding intersect_sorted collected
sorted_lem self self' [] ds empty e r = absurd (ground (arith, e))
sorted_lem self self' (base ∷ others) ds empty e r =
    let t = traverse base.idx (map (λ (set : Set). set.idx) others) (start self) in
    let same = some_injective (taken (all_sets has_root (base ∷ others)) e) in
    let found =
      traverse_lem base.idx (map (λ (set : Set). set.idx) others) (start self) empty
        (ap (λ (r : Err × Set). r.0) same) ds r in
    ground (arith, found, ap (λ (r : Err × Set). lookup r.1.idx ds) same, all_in-map ds others)

-- The intersection of several sets into an empty set, when it succeeds: the result has an element
-- under an id of digits exactly if every set has one. `qsort` may order the sets in any way.
pub intersect_lem :
    (qsort : List Set → List Set) (self self' : Set) (sets : List Set) (ds : List ℕ)
    → ((p : Set → Bool) → all_sets p (qsort sets) ≡ all_sets p sets)
    → IsEmpty self.idx
    → intersect qsort self sets ≡ some (Err.ok, self')
    → InRange ds
    → (lookup self'.idx ds ≡ 0) ↔ (all_sets (holds ds) sets ≡ false)
unfolding intersect
intersect_lem qsort self self' sets ds perm empty e r =
    subst (λ (b : Bool). (lookup self'.idx ds ≡ 0) ↔ (b ≡ false)) (perm (holds ds))
      (sorted_lem self self' (qsort sets) ds empty (ground (arith, e)) r)
