-- ===== src/Output/Memory.antt =====
-- The bytes in front of a place in the buffer, and what a copy does to them.
use knowdy.Base.{
  ℕ, zero, suc, ◌+◌, ◌≤◌, ◌<◌, ◌≡◌, refl, arith, List, [], ◌∷◌, ◌++◌, length, length-append, ap,
  ◌∙◌, append_assoc, append-nil, sym, take, take-all, ℕ_discrete,
}
use knowdy.Output.{store, memcpy}

-- The first bytes of the buffer.
unfoldable pub bytes : (ℕ → ℕ) → ℕ → List ℕ
bytes buf zero = []
bytes buf (suc n) = bytes buf n ++ (buf n ∷ [])

pub length-bytes : (buf : ℕ → ℕ) (n : ℕ) → length (bytes buf n) ≡ n
unfolding bytes
length-bytes buf zero = refl
length-bytes buf (suc n) =
    omega (arith, length-append (bytes buf n) (buf n ∷ []), length-bytes buf n)

store_ne : (buf : ℕ → ℕ) (at c i : ℕ) → i < at → store buf at c i ≡ buf i
store_ne buf at c i h = ground arith

store_self : (buf : ℕ → ℕ) (at c : ℕ) → store buf at c at ≡ c
store_self buf at c = ground arith

pub bytes-store : (buf : ℕ → ℕ) (n at c : ℕ) → n ≤ at → bytes (store buf at c) n ≡ bytes buf n
unfolding bytes
bytes-store buf zero at c h = refl
bytes-store buf (suc n) at c h =
    rw (bytes-store buf n at c (omega arith), store_ne buf at c n (omega arith)) refl

pub bytes-store_next :
    (buf : ℕ → ℕ) (at c : ℕ) → bytes (store buf at c) (suc at) ≡ bytes buf at ++ (c ∷ [])
unfolding bytes
bytes-store_next buf at c = rw (bytes-store buf at at c (omega arith), store_self buf at c) refl

pub bytes-memcpy :
    (buf : ℕ → ℕ) (at : ℕ) (cs : List ℕ)
    → bytes (memcpy buf at cs) (at + length cs) ≡ bytes buf at ++ cs
unfolding memcpy
bytes-memcpy buf at [] = ap (bytes buf) (omega arith) ∙ sym (append-nil (bytes buf at))
bytes-memcpy buf at (c ∷ cs) =
    ap (bytes (memcpy (store buf at c) (suc at) cs)) (omega arith)
    ∙ bytes-memcpy (store buf at c) (suc at) cs
    ∙ ap (λ (xs : List ℕ). xs ++ cs) (bytes-store_next buf at c)
    ∙ append_assoc (bytes buf at) (c ∷ []) cs

pub memcpy_before :
    (buf : ℕ → ℕ) (at : ℕ) (cs : List ℕ) (i : ℕ) → i < at → memcpy buf at cs i ≡ buf i
unfolding memcpy
memcpy_before buf at [] i h = refl
memcpy_before buf at (c ∷ cs) i h = ground (arith, memcpy_before (store buf at c) (suc at) cs i)

take_front : (k : ℕ) (xs ys : List ℕ) → k ≤ length xs → take k (xs ++ ys) ≡ take k xs
take_front zero xs ys h = refl
take_front (suc k) [] ys h = absurd (omega arith)
take_front (suc k) (x ∷ xs) ys h = ap (λ zs. x ∷ zs) (take_front k xs ys (omega arith))

pub take-bytes : (buf : ℕ → ℕ) (n k : ℕ) → k ≤ n → take k (bytes buf n) ≡ bytes buf k
unfolding bytes
take-bytes buf zero zero h = refl
take-bytes buf zero (suc k) h = absurd (omega arith)
take-bytes buf (suc n) k h = elim (ℕ_discrete k (suc n)) [
  | yes e ↦ rw (e) (
      take-all (suc n) (bytes buf n ++ (buf n ∷ []))
        (omega (arith, length-bytes buf n, length-append (bytes buf n) (buf n ∷ []))))
  | no ne ↦
      take_front k (bytes buf n) (buf n ∷ []) (omega (arith, length-bytes buf n))
      ∙ take-bytes buf n k (omega arith)
]

pub memcpy_after :
    (buf : ℕ → ℕ) (at : ℕ) (cs : List ℕ) (i : ℕ) → at + length cs ≤ i → memcpy buf at cs i ≡ buf i
unfolding memcpy
memcpy_after buf at [] i h = refl
memcpy_after buf at (c ∷ cs) i h = ground (arith, memcpy_after (store buf at c) (suc at) cs i)

pub bytes-memcpy_before :
    (buf : ℕ → ℕ) (n at : ℕ) (cs : List ℕ) → n ≤ at → bytes (memcpy buf at cs) n ≡ bytes buf n
unfolding bytes
bytes-memcpy_before buf zero at cs h = refl
bytes-memcpy_before buf (suc n) at cs h =
    rw (bytes-memcpy_before buf n at cs (omega arith), memcpy_before buf at cs n (omega arith)) refl

pub memcpy-append :
    (buf : ℕ → ℕ) (at : ℕ) (cs : List ℕ) (c : ℕ)
    → memcpy buf at (cs ++ (c ∷ [])) ≡ store (memcpy buf at cs) (at + length cs) c
unfolding memcpy
memcpy-append buf at [] c = ap (λ (i : ℕ). store buf i c) (omega arith)
memcpy-append buf at (x ∷ cs) c =
    memcpy-append (store buf at x) (suc at) cs c
    ∙ ap (λ (i : ℕ). store (memcpy (store buf at x) (suc at) cs) i c) (omega arith)
