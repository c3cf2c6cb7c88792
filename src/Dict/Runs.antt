-- ===== src/Dict/Runs.antt =====
-- Sequences of calls on a table.
use knowdy.Err.{Err}
use knowdy.Base.{ℕ, ◌≡◌, ◌≢◌, refl, List, [], ◌∷◌, inl, inr, ap, ◌∙◌}
use knowdy.Dict.{Dict}
use knowdy.Dict.Chains.{Entry}
use knowdy.Dict.Refine.{view, AllChains, Op, step, spec_step, step-Refines, step-AllChains}

-- The replies to a sequence of calls, and what it leaves.
unfoldable pub run : Dict → List Op → List (Err × ℕ) × Dict
run self [] = ([], self)
run self (op ∷ ops) =
    let (err, content, self') = step self op in
    let (replies, self'') = run self' ops in ((err, content) ∷ replies, self'')

unfoldable pub spec_run : (List ℕ → Entry) → List Op → List (Err × ℕ) × (List ℕ → Entry)
spec_run m [] = ([], m)
spec_run m (op ∷ ops) =
    let (err, content, m') = spec_step m op in
    let (replies, m'') = spec_run m' ops in ((err, content) ∷ replies, m'')

abbrev pub NoNomem : List (Err × ℕ) → Type 0
NoNomem [] = Unit
NoNomem ((err, content) ∷ replies) = (err ≢ Err.nomem) × NoNomem replies

-- From a table none of whose items is pending, a sequence of lookups, insertions and removals gives
-- the replies of a map from keys to entries, and leaves what the map leaves, when no insertion
-- reports that the memory is used up.
pub run_refines :
    (ops : List Op) (self : Dict)
    → AllChains self
    → NoNomem (run self ops).0
    → ((run self ops).0, view (run self ops).1) ≡ spec_run (view self) ops
unfolding run spec_run
run_refines [] self h n = refl
run_refines (op ∷ ops) self h n = elim (step-Refines self op h) [
  | inl e ↦
      ap
        (λ (r : List (Err × ℕ) × (List ℕ → Entry)).
          (((step self op).0, (step self op).1) ∷ r.0, r.1))
        (run_refines ops (step self op).2 (step-AllChains self op h) n.1)
      ∙ ap
          (λ (r : Err × ℕ × (List ℕ → Entry)).
            ((r.0, r.1) ∷ (spec_run r.2 ops).0, (spec_run r.2 ops).1))
          e
  | inr (e, _, _) ↦ absurd (n.0 e)
]
