-- ===== src/SharedSet/Runs.antt =====
-- Runs of requests on a shared set and on a set of src/knd_set.c.
use knowdy.Err.{Err}
use knowdy.Base.{ℕ, ◌≡◌, ◌≤◌, refl, ap, ◌∙◌, Option, none, some, List, [], ◌∷◌}
use knowdy.Mempool.{Pool}
use mathlib.Core.Option
use knowdy.Set
use knowdy.Set.Lookup.{IsId}
use knowdy.SharedSet
use knowdy.SharedSet.{pool}
use knowdy.SharedSet.Same.{shared, shared_result, add_same, get_same, new_same}

-- What a client asks of a set: an addition, or a lookup.
pub data Request : Type 0 where
  adding : List ℕ → ℕ → Request
  getting : List ℕ → Request

abbrev pub id_of : Request → List ℕ
id_of (adding id elem) = id
id_of (getting id) = id

-- Every id of the requests is one of digits.
abbrev pub AreIds : List Request → Type 0
AreIds [] = Unit
AreIds (r ∷ rs) = ((ds : List ℕ) × IsId (id_of r) ds) × AreIds rs

-- The answer to an addition is its code.
abbrev pub coded {ℓ} : {S : Type ℓ} → Err × S → (Err × ℕ) × S
coded (err, s) = ((err, 0), s)

abbrev pub on_shared : SharedSet.SharedSet → Request → Option ((Err × ℕ) × SharedSet.SharedSet)
on_shared s (adding id elem) = Option.map coded (SharedSet.add s id elem)
on_shared s (getting id) = Option.map (λ (a : Err × ℕ). (a, s)) (SharedSet.get s id)

abbrev pub on_set : Set.Set → Request → Option ((Err × ℕ) × Set.Set)
on_set s (adding id elem) = Option.map coded (Set.add s id elem)
on_set s (getting id) = Option.map (λ (a : Err × ℕ). (a, s)) (Set.get s id)

abbrev pub and_then {ℓ} :
    {S : Type ℓ} → (S → Option (List (Err × ℕ))) → Option ((Err × ℕ) × S) → Option (List (Err × ℕ))
and_then rest none = none
and_then rest (some (a, s)) = Option.map (λ as'. a ∷ as') (rest s)

-- The answers to requests in their order; `none` where one of them stops the program.
abbrev pub answers {ℓ} :
    {S : Type ℓ}
    → (S → Request → Option ((Err × ℕ) × S))
    → S
    → List Request
    → Option (List (Err × ℕ))
answers step s [] = some []
answers step s (r ∷ rs) = and_then (λ s. answers step s rs) (step s r)

abbrev shared_answer : (Err × ℕ) × Set.Set → (Err × ℕ) × SharedSet.SharedSet
shared_answer (a, s) = (a, shared s)

added_same :
    (r : Option (Err × Set.Set))
    → Option.map coded (Option.map shared_result r) ≡ Option.map shared_answer (Option.map coded r)
added_same none = refl
added_same (some r) = refl

got_same :
    (s : Set.Set) (r : Option (Err × ℕ))
    → Option.map (λ (a : Err × ℕ). (a, shared s)) r
      ≡ Option.map shared_answer (Option.map (λ (a : Err × ℕ). (a, s)) r)
got_same s none = refl
got_same s (some r) = refl

step_same :
    (s : Set.Set) (r : Request) (ds : List ℕ)
    → IsId (id_of r) ds
    → on_shared (shared s) r ≡ Option.map shared_answer (on_set s r)
step_same s (adding id elem) ds h =
    ap (Option.map coded) (add_same s id ds elem h) ∙ added_same (Set.add s id elem)
step_same s (getting id) ds h =
    ap (Option.map (λ (a : Err × ℕ). (a, shared s))) (get_same s id ds h)
    ∙ got_same s (Set.get s id)

and_then_same :
    (rs : List Request)
    → ((s : Set.Set) → answers on_shared (shared s) rs ≡ answers on_set s rs)
    → (r : Option ((Err × ℕ) × Set.Set))
    → and_then (λ s. answers on_shared s rs) (Option.map shared_answer r)
      ≡ and_then (λ s. answers on_set s rs) r
and_then_same rs same none = refl
and_then_same rs same (some (a, s)) = ap (Option.map (λ as'. a ∷ as')) (same s)

answers_same :
    (s : Set.Set) (rs : List Request)
    → AreIds rs
    → answers on_shared (shared s) rs ≡ answers on_set s rs
answers_same s [] h = refl
answers_same s (r ∷ rs) ((ds, h), hs) =
    ap (and_then (λ s. answers on_shared s rs)) (step_same s r ds h)
    ∙ and_then_same rs (λ s. answers_same s rs hs) (on_set s r)

-- A shared set that is made with a memory pool, whose small pages hold a `struct kndSharedSet` and
-- whose base pages hold a `struct kndSharedSetElemIdx`, and a set that is made with the same pool
-- answer every sequence of additions and lookups of ids of digits with the same codes and elements.
pub answers-new :
    (mempool : Pool) (rs : List Request)
    → 1080 ≤ mempool.pages_small.page_size
    → 992 ≤ mempool.pages_base.page_size
    → AreIds rs
    → (r : Err × SharedSet.SharedSet) × (SharedSet.new (pool mempool) ≡ some r)
      × (r.0 ≡ (Set.new mempool).0)
      × (answers on_shared r.1 rs ≡ answers on_set (Set.new mempool).1 rs)
answers-new mempool rs small base h = (
  shared_result (Set.new mempool),
  new_same mempool small base,
  refl,
  answers_same (Set.new mempool).1 rs h,
)
