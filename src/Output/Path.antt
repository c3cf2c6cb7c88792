-- ===== src/Output/Path.antt =====
-- State paths in an output.
use knowdy.Err.{Err}
use knowdy.Base.{
  ℕ, ◌+◌, ◌*◌, ◌≤◌, ◌<◌, ◌^◌, ◌≡◌, refl, arith, List, [], ◌∷◌, ◌++◌, length, length-append, ◌⊎◌,
  get_or, suc, zero,
}
use knowdy.Output.{Output, state_path, write_state_path}
use knowdy.Output.Memory.{length-bytes, bytes-memcpy, memcpy_after}
use knowdy.Output.Steps.{text_of, Fits}

length-state_path : (state : List ℕ) → length (state_path state) ≡ 2 * length state
unfolding state_path
length-state_path [] = refl
length-state_path (c ∷ cs) = omega (arith, length-state_path cs)

-- At each even place a slash, and behind it the character of the state.
abbrev pub IsPath : List ℕ → List ℕ → Type 0
IsPath state path =
    (length path ≡ 2 * length state)
    × ((i : ℕ)
        → i < length state
        → (get_or path (2 * i) 0 ≡ b'/') × (get_or path (2 * i + 1) 0 ≡ get_or state i 0))

state_path-IsPath : (state : List ℕ) → IsPath state (state_path state)
unfolding state_path
state_path-IsPath [] = (refl, λ i h. absurd (omega (arith, h)))
state_path-IsPath (c ∷ cs) =
    let (size, at) = state_path-IsPath cs in (omega (arith, size), λ i h. place c cs i h at)
  where
    place :
        (c : ℕ) (cs : List ℕ) (i : ℕ)
        → i < suc (length cs)
        → ((i : ℕ)
            → i < length cs
            → (get_or (state_path cs) (2 * i) 0 ≡ b'/')
              × (get_or (state_path cs) (2 * i + 1) 0 ≡ get_or cs i 0))
        → (get_or (b'/' ∷ c ∷ state_path cs) (2 * i) 0 ≡ b'/')
          × (get_or (b'/' ∷ c ∷ state_path cs) (2 * i + 1) 0 ≡ get_or (c ∷ cs) i 0)
    place c cs zero h at = (refl, refl)
    place c cs (suc i) h at =
        let even : 2 * suc i ≡ suc (suc (2 * i)) = omega arith in
        let odd : 2 * suc i + 1 ≡ suc (suc (2 * i + 1)) = omega arith in
        rw (odd, even) (at i (omega arith))

-- The path of a state, a slash before each of its characters, is appended together with its NUL,
-- which counts as a byte of the text, and never past the capacity; or it does not fit, the code is
-- `knd_NOMEM` and nothing changes. States are shorter than 2^62.
pub write_state_path_lem :
    (self : Output) (state : List ℕ)
    → Fits self
    → length state < 2 ^ 62
    → let (err, self') = write_state_path self state in
      IsPath state (state_path state)
      × (((err ≡ Err.ok)
            × (text_of self' ≡ text_of self ++ (state_path state ++ (0 ∷ [])))
            × (length (text_of self') ≡ length (text_of self) + 2 * length state + 1)
            × (self'.buf_size ≤ self.capacity)
            × ((i : ℕ) → self.capacity ≤ i → self'.buf i ≡ self.buf i))
          ⊎ ((err ≡ Err.nomem)
              × (self' ≡ self)
              × (self.capacity < self.buf_size + 2 * length state + 1)))
unfolding write_state_path
write_state_path_lem self state f h =
    let rec = state_path state ++ (0 ∷ []) in
    (
      state_path-IsPath state,
      ground (
        arith,
        bytes-memcpy self.buf self.buf_size rec,
        memcpy_after self.buf self.buf_size rec,
        length-append (state_path state) (0 ∷ []),
        length-append (text_of self) rec,
        length-bytes self.buf self.buf_size,
        length-state_path state,
      ),
    )
