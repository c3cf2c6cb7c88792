-- ===== src/SharedSet/Tests.antt =====
-- Runs of a shared set, and the theorems about it at sets that meet their hypotheses.
use knowdy.Err.{Err}
use knowdy.Base.{
  ◌≡◌, refl, arith, List, [], ◌∷◌, none, some, false, bytes_eq, if◌then◌else◌, u64, ◌+◌,
}
use knowdy.Mempool.{Alloc, Arena, Pool}
use knowdy.Utils.Ids.{obj_id_base, codes}
use knowdy.Set
use knowdy.Set.{null, node}
use knowdy.SharedSet.{
  SharedSet, heap, pool, new, made, elem_idx_new, add, save_elem, save_leaf, descend, child_of,
  counted, get, get_elem, answer,
}
use knowdy.SharedSet.Runs.{
  Request, adding, getting, AreIds, answers, on_shared, on_set, answers-new,
}
use knowdy.Set.Lookup.{lookup}
use knowdy.SharedSet.Adding.{get-add_shared}
use knowdy.SharedSet.Refused.{Unchanged, add-Unchanged}

abbrev no_arena : Arena
no_arena = record {
  pages = 0;
  page_size = 0;
  num_pages = 0;
  pages_used = 0;
  page_list = 0;
  shared_page_list = 0;
  shared_pages_used = 0;
}

abbrev mempool : Pool
mempool = record {
  alloc = Alloc.incr;
  capacity = 8192;
  pages_base = record no_arena { pages = 4096; page_size = 1024; num_pages = 4 };
  pages_x4 = no_arena;
  pages_x2 = no_arena;
  pages_small = record no_arena { pages = 1024; page_size = 2048; num_pages = 1 };
  pages_tiny = no_arena;
  mem = λ a. 0;
}

abbrev requests : List Request
requests =
    adding (codes "10") 7 ∷ adding (codes "10") 8 ∷ getting (codes "10") ∷ getting (codes "1") ∷ []

requests-AreIds : AreIds requests
unfolding obj_id_base
requests-AreIds = (
  (1 ∷ 0 ∷ [], (refl, (refl, tt))),
  (
    (1 ∷ 0 ∷ [], (refl, (refl, tt))),
    ((1 ∷ 0 ∷ [], (refl, (refl, tt))), ((1 ∷ [], (refl, tt)), tt)),
  ),
)

answers-new_example :
    (r : Err × SharedSet) × (new (pool mempool) ≡ some r)
    × (r.0 ≡ (Set.new mempool).0)
    × (answers on_shared r.1 requests ≡ answers on_set (Set.new mempool).1 requests)
answers-new_example = answers-new mempool requests (omega arith) (omega arith) requests-AreIds

-- A small page has 128 bytes by default.
new_small : new (pool (record mempool { pages_small = record no_arena { page_size = 128 } })) ≡ none
unfolding new
new_small = refl

abbrev without : SharedSet
without = record {
  idx = null;
  num_elems = 0;
  num_valid_elems = 0;
  mempool = heap 0;
  allow_overwrite = false;
}

-- A set without a pool; the memory is used up by four pages.
abbrev unpooled : SharedSet
unpooled = elim (new (heap 4)) [ none ↦ without | some r ↦ r.1 ]

answers-unpooled :
    answers on_shared unpooled requests
    ≡ some ((Err.ok, 0) ∷ (Err.conflict, 0) ∷ (Err.ok, 7) ∷ (Err.no_match, 0) ∷ [])
unfolding new made elem_idx_new add save_elem save_leaf descend child_of counted get get_elem
    obj_id_base
answers-unpooled = refl

-- With memory for the set, its root and nothing else.
new_full :
    answers on_shared (elim (new (heap 2)) [ none ↦ without | some r ↦ r.1 ]) requests
    ≡ some ((Err.nomem, 0) ∷ (Err.nomem, 0) ∷ (Err.no_match, 0) ∷ (Err.no_match, 0) ∷ [])
unfolding new made elem_idx_new add save_elem save_leaf descend child_of counted get get_elem
    obj_id_base
new_full = refl

abbrev refused : SharedSet
refused = elim (add unpooled (codes "1!") 7) [ none ↦ unpooled | some r ↦ r.1 ]

-- The page for the digit before the wrong byte stays linked.
add-refused : add unpooled (codes "1!") 7 ≡ some (Err.format, refused)
unfolding new made elem_idx_new add save_elem descend child_of counted obj_id_base
add-refused = refl

add-Unchanged_example : Unchanged unpooled refused
add-Unchanged_example =
    add-Unchanged unpooled refused (codes "1!") 7 Err.format add-refused (λ e. ground (arith, e))

abbrev with_10 : SharedSet
with_10 = elim (add unpooled (codes "10") 7) [ none ↦ unpooled | some r ↦ r.1 ]

add-with_10 : add unpooled (codes "10") 7 ≡ some (Err.ok, with_10)
unfolding new made elem_idx_new add save_elem save_leaf descend child_of counted obj_id_base
add-with_10 = refl

get-add_shared_example :
    (get with_10 (codes "10")
      ≡ answer (if bytes_eq (1 ∷ 0 ∷ []) (1 ∷ 0 ∷ []) then 7 else lookup unpooled.idx (1 ∷ 0 ∷ [])))
    × (with_10.num_elems ≡ u64 (unpooled.num_elems + 1))
unfolding obj_id_base
get-add_shared_example =
    get-add_shared unpooled with_10 (codes "10") (1 ∷ 0 ∷ []) (codes "10") (1 ∷ 0 ∷ []) 7
      (refl, (refl, tt)) (refl, (refl, tt)) (λ e. ground (arith, e)) add-with_10
