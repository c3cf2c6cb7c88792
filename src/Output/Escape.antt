-- ===== src/Output/Escape.antt =====
-- Escaped text in an output.
use knowdy.Err.{Err}
use knowdy.Base.{
  ℕ, suc, ◌+◌, ◌-◌, ◌≤◌, ◌<◌, ◌^◌, ◌≡◌, refl, arith, List, [], ◌∷◌, ◌++◌, length, ◌⊎◌, inl, Bool,
  true, false, ap, sym, ◌∙◌, sub_size, append_assoc, append-nil, take, subst, ◌==◌, ◌||◌,
  if◌then◌else◌,
}
use knowdy.Output.{Output, store, memcpy, escape_loop, escaped, write_escaped, kind_of, write}
use knowdy.Output.Memory.{bytes, bytes-store, bytes-store_next, take-bytes, bytes-memcpy}
use knowdy.Output.Steps.{text_of, Fits}

abbrev among : ℕ → List ℕ → Bool
among c [] = false
among c (d ∷ ds) = (c == d) || among c ds

-- One of `{}"'`.
abbrev pub is_dropped : ℕ → Bool
is_dropped c = among c (b'{' ∷ b'}' ∷ b'"' ∷ b'\'' ∷ [])

-- A newline, a carriage return, a tab or a space.
abbrev pub is_white : ℕ → Bool
is_white c = among c (10 ∷ 13 ∷ 9 ∷ 32 ∷ [])

-- The text without quotes and braces, each run of white space one space.
unfoldable pub squeeze : Bool → List ℕ → List ℕ
squeeze in_whitespace [] = []
squeeze in_whitespace (b ∷ bs) =
    let rest = squeeze in_whitespace bs in
    let after_space = squeeze true bs in
    let after_plain = squeeze false bs in
    if is_dropped b
    then rest
    else if is_white b
    then (if in_whitespace then after_space else 32 ∷ after_space)
    else b ∷ after_plain

abbrev Written : (ℕ → ℕ) → ℕ → ℕ → ℕ → List ℕ → Err × ℕ × (ℕ → ℕ) → Type 0
Written buf at free_space chunk_size out (err, k, buf') =
    (k ≤ free_space)
    × (bytes buf' at ≡ bytes buf at)
    × ((i : ℕ) → at + (free_space - chunk_size) ≤ i → buf' i ≡ buf i)
    × (((err ≡ Err.ok)
          × (k ≡ chunk_size + length out)
          × (bytes buf' (at + length out) ≡ bytes buf at ++ out))
        ⊎ ((err ≡ Err.nomem) × (free_space ≤ chunk_size + length out)))

bytes_shorter :
    (m m' : ℕ → ℕ) (at : ℕ) → bytes m (suc at) ≡ bytes m' (suc at) → bytes m at ≡ bytes m' at
bytes_shorter m m' at e =
    sym (take-bytes m (suc at) at (omega arith))
    ∙ ap (take at) e
    ∙ take-bytes m' (suc at) at (omega arith)

-- One more character.
Written-next :
    (buf : ℕ → ℕ) (at free_space chunk_size c : ℕ) (out : List ℕ) (r : Err × ℕ × (ℕ → ℕ))
    → chunk_size < free_space
    → Written (store buf at c) (suc at) free_space (suc chunk_size) out r
    → Written buf at free_space chunk_size (c ∷ out) r
Written-next buf at free_space chunk_size c out (err, k, buf') h (w1, w2, w3, w4) = ground (
  arith,
  bytes_shorter buf' (store buf at c) at w2,
  bytes-store buf at at c,
  bytes-store_next buf at c,
  append_assoc (bytes buf at) (c ∷ []) out,
  ap (bytes buf') {x = suc at + length out} {y = at + suc (length out)} (omega arith),
  w3,
)

escape_loop_lem :
    (buf : ℕ → ℕ) (at free_space chunk_size : ℕ) (w : Bool) (bs : List ℕ)
    → chunk_size ≤ free_space
    → Written buf at free_space chunk_size
        (squeeze w bs)
        (escape_loop buf at free_space chunk_size w bs)
unfolding escape_loop squeeze kind_of
escape_loop_lem buf at free_space chunk_size w [] h = (
  h,
  refl,
  (λ i le. refl),
  inl (refl, omega arith, ap (bytes buf) (omega arith) ∙ sym (append-nil (bytes buf at))),
)
escape_loop_lem buf at free_space chunk_size w (b ∷ bs) h = ground (
  arith,
  escape_loop_lem buf at free_space chunk_size w bs h,
  Written-next buf at free_space chunk_size 32 (squeeze true bs)
      (escape_loop (store buf at 32) (suc at) free_space (suc chunk_size) true bs),
  Written-next buf at free_space chunk_size b (squeeze false bs)
      (escape_loop (store buf at b) (suc at) free_space (suc chunk_size) false bs),
  escape_loop_lem (store buf at 32) (suc at) free_space (suc chunk_size) true bs,
  escape_loop_lem (store buf at b) (suc at) free_space (suc chunk_size) false bs,
)

-- Characters that need no escape, and single spaces; `in_whitespace` says that a space stands in front.
abbrev pub IsClean : Bool → List ℕ → Type 0
IsClean in_whitespace [] = Unit
IsClean in_whitespace (c ∷ cs) =
    ((c ≡ 32) × (in_whitespace ≡ false) × IsClean true cs)
    ⊎ ((is_dropped c ≡ false) × (is_white c ≡ false) × IsClean false cs)

squeeze-IsClean : (w : Bool) (bs : List ℕ) → IsClean w (squeeze w bs)
unfolding squeeze
squeeze-IsClean w [] = tt
squeeze-IsClean w (b ∷ bs) =
    ground (arith, squeeze-IsClean w bs, squeeze-IsClean true bs, squeeze-IsClean false bs)

-- A result of `kndOutput_write_escaped`.
abbrev pub Escaped : Output → List ℕ → Err × Output → Type 0
Escaped self out (err, self') =
    ((i : ℕ) → self.capacity ≤ i → self'.buf i ≡ self.buf i)
    × (self'.capacity ≡ self.capacity)
    × (((err ≡ Err.ok)
          × (text_of self' ≡ text_of self ++ out)
          × (self'.buf_size ≡ self.buf_size + length out)
          × (self'.buf_size ≤ self.capacity))
        ⊎ ((err ≡ Err.nomem)
            × (text_of self' ≡ text_of self)
            × (self.capacity ≤ self.buf_size + length out)))

escaped_lem :
    (self : Output) (out : List ℕ) (r : Err × ℕ × (ℕ → ℕ))
    → Fits self
    → Written self.buf self.buf_size (self.capacity - self.buf_size) 0 out r
    → Escaped self out (escaped self r)
unfolding escaped
escaped_lem self out (Err.ok, k, buf') f (w1, w2, w3, w4) = ground (arith, w3)
escaped_lem self out (Err.nomem, k, buf') f (w1, w2, w3, w4) = ground (arith, w3)
escaped_lem self out (_, k, buf') f (w1, w2, w3, w4) = absurd (ground arith)

free_space_eq :
    (self : Output)
    → Fits self
    → sub_size self.capacity self.buf_size ≡ self.capacity - self.buf_size
free_space_eq self f = omega arith

write_full :
    (self : Output) (more : List ℕ)
    → self.buf_size ≡ self.capacity
    → self.capacity + length more < 2 ^ 64
    → let (err, self') = write self more in
      (err ≡ Err.ok)
      × (text_of self' ≡ text_of self ++ more)
      × (self'.buf_size ≡ self.capacity + length more)
unfolding write
write_full self more full fits = ground (
  arith,
  bytes-store (memcpy self.buf self.buf_size more) (self.buf_size + length more)
      (self.buf_size + length more) 0,
  bytes-memcpy self.buf self.buf_size more,
)

-- Escaped text is appended without quotes and braces and with each run of white space as one space,
-- and never past the capacity; or it does not leave room behind it, the code is `knd_NOMEM` and the
-- text stays as it is. No byte behind the buffer is written. What is appended is clean.
pub write_escaped_lem :
    (self : Output) (text : List ℕ)
    → Fits self
    → Escaped self (squeeze false text) (write_escaped self text)
      × IsClean false (squeeze false text)
unfolding write_escaped
write_escaped_lem self text f = (
  escaped_lem self (squeeze false text)
      (escape_loop self.buf self.buf_size (sub_size self.capacity self.buf_size) 0 false text) f
      (subst
        (λ n.
          Written self.buf self.buf_size n 0 (squeeze false text) (
            escape_loop self.buf self.buf_size (sub_size self.capacity self.buf_size) 0 false text))
        (free_space_eq self f)
        (escape_loop_lem self.buf self.buf_size (sub_size self.capacity self.buf_size) 0 false text
          (omega arith))),
  squeeze-IsClean false text,
)

-- Escaped text that exactly fills the buffer leaves no room for a NUL: the output then takes a text of
-- any size and writes it behind its capacity.
pub write-write_escaped :
    (self : Output) (text more : List ℕ)
    → Fits self
    → (write_escaped self text).0 ≡ Err.ok
    → self.buf_size + length (squeeze false text) ≡ self.capacity
    → self.capacity + length more < 2 ^ 64
    → let (err, self') = write (write_escaped self text).1 more in
      (err ≡ Err.ok)
      × (text_of self' ≡ (text_of self ++ squeeze false text) ++ more)
      × (self'.buf_size ≡ self.capacity + length more)
write-write_escaped self text more f h full fits =
    ground (arith, write_escaped_lem self text f, write_full (write_escaped self text).1 more)
