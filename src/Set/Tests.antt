-- ===== src/Set/Tests.antt =====
-- Runs of a set, and the theorems about it at sets that meet their hypotheses.
use knowdy.Err.{Err}
use knowdy.Base.{
  ℕ, ◌≡◌, ◌≢◌, ◌↔◌, refl, arith, List, [], ◌∷◌, none, some, false, bytes_eq, if◌then◌else◌, ◌==◌,
}
use knowdy.Mempool.{Alloc, Arena, Pool, page, next_page, arena, set_arena}
use knowdy.Utils.Ids.{obj_id_base, obj_id_seq, codes}
use knowdy.Set.{
  Set, Idx, null, node, put, elem_idx_new, cleared, save_leaf, save_elem, counted, add, get,
  get_elem, answer,
}
use knowdy.Set.Lookup.{lookup, lookup-empty, get_elem_lem}
use knowdy.Set.Adding.{get-add}
use knowdy.Set.Walks.{
  and_then, for_each, take_elem, walk, descend, traverse, collected, intersect_sorted, intersect,
  call_back, traverse_idx, set_map,
}
use knowdy.Set.Codes.{Ends, intersect-Ends}
use knowdy.Set.Map.{called, listed, In, last_of, set_map_lem}
use knowdy.Set.Common.{InRange}
use knowdy.Set.Walks.{all_sets}
use knowdy.Set.Intersect.{holds, intersect_lem}

abbrev no_arena : Arena
no_arena = record {
  pages = 0;
  page_size = 0;
  num_pages = 0;
  pages_used = 0;
  page_list = 0;
  shared_page_list = 0;
  shared_pages_used = 0;
}

abbrev pool : Pool
pool = record {
  alloc = Alloc.incr;
  capacity = 8192;
  pages_base = record no_arena { pages = 4096; page_size = 1024; num_pages = 4 };
  pages_x4 = no_arena;
  pages_x2 = no_arena;
  pages_small = no_arena;
  pages_tiny = no_arena;
  mem = λ a. 0;
}

abbrev empty_idx : Idx
empty_idx = node (λ i. null) (λ i. 0)

abbrev empty_set : Set
empty_set = record {
  idx = empty_idx;
  num_elems = 0;
  num_valid_elems = 0;
  mempool = pool;
  allow_overwrite = false;
}

-- `10` holds 7 and `2` holds 8.
abbrev two : Set
two = record empty_set {
  idx =
      node (λ i. if i == 1 then node (λ k. null) (λ k. if k == 0 then 7 else 0) else null)
        (λ i. if i == 2 then 8 else 0);
}

get_elem_lem_example : get_elem two.idx (codes "10") ≡ answer (lookup two.idx (1 ∷ 0 ∷ []))
unfolding obj_id_base
get_elem_lem_example =
    get_elem_lem two.idx (codes "10") (1 ∷ 0 ∷ []) (refl, (refl, tt)) (λ e. ground (arith, e))

abbrev with_2 : Set
with_2 = record empty_set {
  idx = node (λ i. null) (put (λ i. 0) 2 7);
  num_elems = 1;
  num_valid_elems = 1;
}

add_2 : add empty_set (codes "2") 7 ≡ some (Err.ok, with_2)
unfolding add save_elem save_leaf counted obj_id_base
add_2 = refl

get-add_example :
    get with_2 (codes "2")
    ≡ answer (if bytes_eq (2 ∷ []) (2 ∷ []) then 7 else lookup empty_set.idx (2 ∷ []))
unfolding obj_id_base
get-add_example =
    get-add empty_set with_2 (codes "2") (2 ∷ []) (codes "2") (2 ∷ []) 7 (refl, tt)
      (λ e. ground (arith, e)) (refl, tt) (λ e. ground (arith, e)) add_2

-- `2` is in both sets.
abbrev met : Set
met = elim (intersect (λ sets. sets) empty_set (two ∷ with_2 ∷ [])) [
  | none ↦ empty_set
  | some r ↦ r.1
]

intersect_two : intersect (λ sets. sets) empty_set (two ∷ with_2 ∷ []) ≡ some (Err.ok, met)
unfolding intersect intersect_sorted collected traverse for_each and_then take_elem descend walk
    elem_idx_new cleared page next_page arena set_arena
intersect_two = refl

intersect_lem_example :
    (lookup met.idx (2 ∷ []) ≡ 0) ↔ (all_sets (holds (2 ∷ [])) (two ∷ with_2 ∷ []) ≡ false)
intersect_lem_example =
    intersect_lem (λ sets. sets) empty_set met (two ∷ with_2 ∷ []) (2 ∷ []) (λ p. refl) lookup-empty
      intersect_two (omega arith, tt)

-- The ids that a callback gets are single digits: `10` comes as `0`.
map_two :
    set_map
      (λ (log : List (List ℕ × ℕ × ℕ)) id count elem. (Err.ok, (id, count, elem) ∷ log))
      two
      []
    ≡ (Err.ok, (codes "0", 1, 7) ∷ (codes "2", 0, 8) ∷ [])
unfolding set_map traverse_idx for_each and_then call_back obj_id_seq
map_two = refl

abbrev keep : List (List ℕ × ℕ × ℕ) → List ℕ → ℕ → ℕ → Err × List (List ℕ × ℕ × ℕ)
keep log id count elem = (Err.ok, (id, count, elem) ∷ log)

set_map_lem_example :
    (set_map keep two []
      ≡ ((called keep (listed two.idx) ([], 0)).0, (called keep (listed two.idx) ([], 0)).1.0))
    × ((ds : List ℕ)
        → InRange ds
        → lookup two.idx ds ≢ 0
        → In (last_of ds, lookup two.idx ds) (listed two.idx))
set_map_lem_example = set_map_lem keep two []

intersect-Ends_example :
    (r : Err × Set) × (intersect (λ sets. sets) empty_set (two ∷ with_2 ∷ []) ≡ some r) × Ends r
intersect-Ends_example =
    intersect-Ends (λ sets. sets) empty_set (two ∷ with_2 ∷ []) (λ p. refl) refl (omega arith)
      (omega arith) refl
