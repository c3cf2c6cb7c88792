-- ===== src/Paths/Tests.antt =====
-- Runs of the helpers on paths, and the theorem about them at a path that meets its hypotheses.
use knowdy.Err.{Err}
use knowdy.Base.{ℕ, ◌≡◌, ◌↔◌, refl, arith, List, [], ◌∷◌, ◌++◌, some, true, false}
use knowdy.Utils.Ids.{codes}
use knowdy.Set.Walks.{and_then}
use knowdy.Paths.{System, Made, missing, mkdir, after_make, mkpath, mkpath_loop, make_id_path}
use knowdy.Paths.Laws.{make_all, In, IsParent, mkpath_lem}

-- A file system without a directory that records what it is asked for, the last first.
abbrev record_dir : System (List (List ℕ))
record_dir = record { stat = λ d log. missing; make = λ d log. (Made.made, d ∷ log) }

made_dirs : mkpath record_dir (codes "/ab/c") false [] ≡ (Err.ok, codes "/ab/c" ∷ codes "/ab" ∷ [])
unfolding mkpath mkpath_loop and_then mkdir after_make
made_dirs = refl

id_path :
    make_id_path (some (codes "db")) (codes "0000000A") (some (codes "x"))
    ≡ some (codes "db/0/0/0/0/0/0/0/A/x")
unfolding make_id_path
id_path = refl

mkpath_lem_example :
    (ds : List (List ℕ)) × (mkpath record_dir (codes "/ab/c") true []
      ≡ make_all (mkdir record_dir) ds [])
    × (mkpath record_dir (codes "/ab/c") false []
        ≡ make_all (mkdir record_dir) (ds ++ (codes "/ab/c" ∷ [])) [])
    × ((d : List ℕ) → In d ds ↔ IsParent (codes "/ab/c") d)
mkpath_lem_example = mkpath_lem record_dir (codes "/ab/c") [] (omega arith) (omega arith)
