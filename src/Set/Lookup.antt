-- ===== src/Set/Lookup.antt =====
-- What a trie holds under the digits of an id.
use knowdy.Err.{Err}
use knowdy.Base.{ℕ, ◌≡◌, ◌≢◌, refl, arith, List, [], ◌∷◌, some, ◌⊎◌, inl, inr, ap, ◌∙◌, sym}
use knowdy.Mempool.{Pool, PageType, page, get_shared_page, get_page, next_page}
use knowdy.Utils.Ids.{obj_id_base}
use knowdy.Set.{
  Idx, null, node, idxs_of, elems_of, cleared, elem_idx_new, child_of, get_elem, answer,
}

-- The element under a list of digits; 0 where there is none.
unfoldable pub lookup : Idx → List ℕ → ℕ
lookup idx [] = 0
lookup idx (d ∷ []) = elems_of idx d
lookup idx (d ∷ e ∷ ds) = lookup (idxs_of idx d) (e ∷ ds)

-- The digits of an id.
abbrev pub IsId : List ℕ → List ℕ → Type 0
IsId [] [] = Unit
IsId (c ∷ id) (d ∷ ds) = (obj_id_base c ≡ some d) × IsId id ds
IsId [] (d ∷ ds) = ⊥
IsId (c ∷ id) [] = ⊥

pub lookup-null : (ds : List ℕ) → lookup null ds ≡ 0
unfolding lookup
lookup-null [] = refl
lookup-null (d ∷ []) = refl
lookup-null (d ∷ e ∷ ds) = lookup-null (e ∷ ds)

pub lookup-empty : (ds : List ℕ) → lookup (node (λ i. null) (λ i. 0)) ds ≡ 0
unfolding lookup
lookup-empty [] = refl
lookup-empty (d ∷ []) = refl
lookup-empty (d ∷ e ∷ ds) = lookup-null (e ∷ ds)

page_code :
    (mempool : Pool) (page_type : PageType)
    → ((page mempool page_type).0 ≡ Err.ok) ⊎ ((page mempool page_type).0 ≡ Err.nomem)
unfolding page get_shared_page get_page next_page
page_code mempool page_type = ground arith

cleared_lem :
    (r : Err × ℕ × Pool)
    → (r.0 ≡ Err.ok) ⊎ (r.0 ≡ Err.nomem)
    → (((cleared r).0 ≡ Err.ok) × ((cleared r).1 ≡ node (λ i. null) (λ i. 0)))
      ⊎ ((cleared r).0 ≡ Err.nomem)
unfolding cleared
cleared_lem (Err.ok, p, mempool) h = inl (refl, refl)
cleared_lem (Err.nomem, p, mempool) h = inr refl
cleared_lem (_, p, mempool) h = absurd (ground arith)

pub elem_idx_new_lem :
    (mempool : Pool)
    → (((elem_idx_new mempool).0 ≡ Err.ok) × ((elem_idx_new mempool).1 ≡ node (λ i. null) (λ i. 0)))
      ⊎ ((elem_idx_new mempool).0 ≡ Err.nomem)
unfolding elem_idx_new
elem_idx_new_lem mempool =
    cleared_lem (page mempool PageType.base) (page_code mempool PageType.base)

-- A new child holds what the missing one did; where there is none, nothing was held.
pub child_of_lem :
    (mempool : Pool) (idx : Idx)
    → (((child_of mempool idx).0 ≡ Err.ok)
        × ((ds : List ℕ) → lookup (child_of mempool idx).1 ds ≡ lookup idx ds))
      ⊎ (((child_of mempool idx).0 ≡ Err.nomem) × ((ds : List ℕ) → lookup idx ds ≡ 0))
unfolding child_of
child_of_lem mempool (node idxs elems) = inl (refl, λ ds. refl)
child_of_lem mempool null = elim (elem_idx_new_lem mempool) [
  | inl (e, made) ↦
      inl (e, λ ds. ap (λ (idx : Idx). lookup idx ds) made ∙ lookup-empty ds ∙ sym (lookup-null ds))
  | inr e ↦ inr (e, lookup-null)
]

-- An id of digits is found exactly where the trie holds an element under its digits, and the
-- element is the one found.
pub get_elem_lem :
    (idx : Idx) (id ds : List ℕ) → IsId id ds → id ≢ [] → get_elem idx id ≡ answer (lookup idx ds)
unfolding get_elem lookup
get_elem_lem null id ds h ne = sym (ap answer (lookup-null ds))
get_elem_lem (node idxs elems) [] ds h ne = absurd (ne refl)
get_elem_lem (node idxs elems) (c ∷ id) [] h ne = absurd h
get_elem_lem (node idxs elems) (c ∷ []) (d ∷ []) (h, t) ne = ground (arith, h)
get_elem_lem (node idxs elems) (c ∷ []) (d ∷ e ∷ ds) (h, t) ne = absurd t
get_elem_lem (node idxs elems) (c ∷ k ∷ id) (d ∷ []) (h, t) ne = absurd t
get_elem_lem (node idxs elems) (c ∷ k ∷ id) (d ∷ e ∷ ds) (h, t) ne =
    ground (arith, h, get_elem_lem (idxs d) (k ∷ id) (e ∷ ds) t (λ q. ground (arith, q)))
