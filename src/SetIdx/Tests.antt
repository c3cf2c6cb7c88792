-- ===== src/SetIdx/Tests.antt =====
-- Runs of a set of masks, and the theorems about it at sets that meet their hypotheses.
use knowdy.Err.{Err}
use knowdy.Base.{◌≡◌, refl, arith, [], ◌∷◌, some, none, true, bytes_eq, if◌then◌else◌}
use knowdy.Utils.Ids.{obj_id_base, codes}
use knowdy.SetIdx.{Folder, empty, add, enter, exist, Added, mark_bit, test_bit}
use knowdy.SetIdx.Laws.{holds, Ends, idx_add_lem, exist-add}

abbrev with_10 : Folder
with_10 = elim (add 5 empty (codes "10")) [ none ↦ empty | some r ↦ r.1 ]

add-with_10 : add 5 empty (codes "10") ≡ some (Err.ok, with_10, 4)
unfolding add enter obj_id_base
add-with_10 = refl

exist-with_10 : exist with_10 (codes "10") ≡ some true
unfolding add enter obj_id_base exist mark_bit test_bit
exist-with_10 = refl

exist-add_example :
    exist with_10 (codes "1")
    ≡ some (if bytes_eq (1 ∷ 0 ∷ []) (1 ∷ []) then true else holds empty (1 ∷ []))
unfolding obj_id_base
exist-add_example =
    exist-add 5 4 empty with_10 (codes "10") (1 ∷ 0 ∷ []) (codes "1") (1 ∷ []) (refl, (refl, tt))
      (λ e. ground (arith, e)) (refl, tt) (λ e. ground (arith, e)) tt add-with_10

idx_add_lem_example :
    (r : Added) × (add 0 empty (codes "10") ≡ some r) × Ends 0 empty (1 ∷ 0 ∷ []) r
unfolding obj_id_base
idx_add_lem_example =
    idx_add_lem 0 empty (codes "10") (1 ∷ 0 ∷ []) (refl, (refl, tt)) (λ e. ground (arith, e)) tt
