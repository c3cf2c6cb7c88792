-- ===== src/Output/Tests.antt =====
-- Runs of an output, and the theorems about it at outputs that meet their hypotheses.
use knowdy.Err.{Err}
use knowdy.Base.{ℕ, ◌+◌, ◌*◌, ◌≤◌, ◌<◌, ◌≡◌, ◌⊎◌, refl, arith, List, [], ◌∷◌, ◌++◌, length, false}
use knowdy.Output.{
  Output, new, kind_of, escape_loop, escaped, write_escaped, write, state_path, write_state_path,
}
use knowdy.Output.Steps.{text_of, add, step, spec_step, Done, step-Refines}
use knowdy.Output.Escape.{squeeze, Escaped, IsClean, write_escaped_lem, write-write_escaped}
use knowdy.Output.Path.{IsPath, write_state_path_lem}

-- Four bytes.
abbrev output : Output
output = new (λ i. 7) 4

step-Refines_example :
    Done output
      (spec_step 4 (text_of output) (add (65 ∷ 66 ∷ [])))
      (step output (add (65 ∷ 66 ∷ [])))
unfolding new
step-Refines_example = step-Refines output (add (65 ∷ 66 ∷ [])) (omega arith) (omega arith)

-- `A { B`: one space.
abbrev quoted : List ℕ
quoted = 65 ∷ 32 ∷ 123 ∷ 10 ∷ 66 ∷ []

run_escaped : (write_escaped output quoted).0 ≡ Err.ok
unfolding new write_escaped escape_loop escaped kind_of
run_escaped = refl

write_escaped_lem_example :
    Escaped output (squeeze false quoted) (write_escaped output quoted)
    × IsClean false (squeeze false quoted)
unfolding new
write_escaped_lem_example = write_escaped_lem output quoted (omega arith)

abbrev four : List ℕ
four = 65 ∷ 66 ∷ 67 ∷ 68 ∷ []

write-write_escaped_example :
    let (err, self') = write (write_escaped output four).1 quoted in
    (err ≡ Err.ok)
    × (text_of self' ≡ (text_of output ++ squeeze false four) ++ quoted)
    × (self'.buf_size ≡ 4 + length quoted)
unfolding new write_escaped escape_loop escaped kind_of squeeze
write-write_escaped_example =
    write-write_escaped output four quoted (omega arith) refl refl (omega arith)

write_state_path_lem_example :
    let (err, self') = write_state_path output (65 ∷ []) in
    IsPath (65 ∷ []) (state_path (65 ∷ []))
    × (((err ≡ Err.ok)
          × (text_of self' ≡ text_of output ++ (state_path (65 ∷ []) ++ (0 ∷ [])))
          × (length (text_of self') ≡ length (text_of output) + 2 * 1 + 1)
          × (self'.buf_size ≤ 4)
          × ((i : ℕ) → 4 ≤ i → self'.buf i ≡ output.buf i))
        ⊎ ((err ≡ Err.nomem) × (self' ≡ output) × (4 < 0 + 2 * 1 + 1)))
unfolding new
write_state_path_lem_example = write_state_path_lem output (65 ∷ []) (omega arith) (omega arith)
