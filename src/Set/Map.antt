-- ===== src/Set/Map.antt =====
-- Which elements a callback gets from `knd_set_map`, and in what order.
use knowdy.Err.{Err}
use knowdy.Base.{
  ℕ, zero, suc, ◌+◌, ◌<◌, ◌≡◌, ◌≢◌, refl, arith, List, [], ◌∷◌, ◌++◌, u64, get_or, ◌==◌,
  if◌then◌else◌, ap, sym, ◌∙◌, fun_ext, ◌⊎◌, inl, inr, Bool-cases, subst,
}
use knowdy.Utils.Ids.{radix_base, obj_id_seq}
use knowdy.Set.{Set, Idx, null, node}
use knowdy.Set.Lookup.{lookup, lookup-null}
use knowdy.Set.Common.{InRange}
use knowdy.Set.Walks.{and_then, for_each, is_ok, call_back, traverse_idx, set_map}

pub and_then-ok {ℓ} : {S : Type ℓ} (r : Err × S) → and_then r (λ s. (Err.ok, s)) ≡ r
unfolding and_then
and_then-ok (Err.ok, s) = refl
and_then-ok (_, s) = refl

pub and_then_assoc {ℓ} :
    {S : Type ℓ} (r : Err × S) (f g : S → Err × S)
    → and_then (and_then r f) g ≡ and_then r (λ s. and_then (f s) g)
unfolding and_then
and_then_assoc (Err.ok, s) f g = refl
and_then_assoc (_, s) f g = refl

-- The lists of `n` positions from `i` on, one behind the other.
unfoldable pub gather {ℓ} : {A : Type ℓ} → ℕ → ℕ → (ℕ → List A) → List A
gather zero i f = []
gather (suc n) i f = f i ++ gather n (suc i) f

-- The elements of a trie with the last digits of their ids: those of a node first, then those of its
-- children, each in the order of the digits.
unfoldable pub listed : Idx → List (ℕ × ℕ)
listed null = []
listed (node idxs elems) =
    gather radix_base 0 (λ i. if elems i == 0 then [] else (i, elems i) ∷ [])
    ++ gather radix_base 0 (λ i. listed (idxs i))

-- A call that ends well is counted.
abbrev pub after_call {ℓ} : {O : Type ℓ} → ℕ → Err × O → Err × (O × ℕ)
after_call count (Err.ok, obj) = (Err.ok, (obj, u64 (count + 1)))
after_call count (err, obj) = (err, (obj, count))

-- What a loop over a list of elements makes of the state of a callback: the callback gets the digit as
-- the id and the number of calls before; the first code that is not `knd_OK` ends it.
unfoldable pub called {ℓ} :
    {O : Type ℓ} → (O → List ℕ → ℕ → ℕ → Err × O) → List (ℕ × ℕ) → O × ℕ → Err × (O × ℕ)
called cb [] s = (Err.ok, s)
called cb ((d, elem) ∷ rest) (obj, count) =
    and_then (after_call count (cb obj (get_or obj_id_seq d 0 ∷ []) count elem)) (called cb rest)

module _ {ℓ} {O : Type ℓ} (cb : O → List ℕ → ℕ → ℕ → Err × O) where
  called-append :
      (xs ys : List (ℕ × ℕ)) (s : O × ℕ)
      → called cb (xs ++ ys) s ≡ and_then (called cb xs s) (called cb ys)
  unfolding called and_then
  called-append [] ys s = refl
  called-append ((d, elem) ∷ xs) ys (obj, count) =
      let r = after_call count (cb obj (get_or obj_id_seq d 0 ∷ []) count elem) in
      ap (and_then r) (fun_ext (λ t. called-append xs ys t))
      ∙ sym (and_then_assoc r (called cb xs) (called cb ys))

  for_each-called :
      (n i : ℕ) (f : ℕ → List (ℕ × ℕ)) (s : O × ℕ)
      → for_each n i (λ j. called cb (f j)) s ≡ called cb (gather n i f) s
  unfolding for_each gather
  for_each-called zero i f s = unfold called in refl
  for_each-called (suc n) i f s =
      ap (and_then (called cb (f i) s)) (fun_ext (λ t. for_each-called n (suc i) f t))
      ∙ sym (called-append (f i) (gather n (suc i) f) s)

  after_call_eq :
      (count : ℕ) (r : Err × O)
      → (r.0, (r.1, if is_ok r.0 then u64 (count + 1) else count)) ≡ after_call count r
  after_call_eq count (Err.ok, obj) = refl
  after_call_eq count (_, obj) = refl

  call_back-called :
      (elems : ℕ → ℕ) (i : ℕ) (s : O × ℕ)
      → call_back cb elems i s ≡ called cb (if elems i == 0 then [] else (i, elems i) ∷ []) s
  unfolding call_back called
  call_back-called elems i (obj, count) = elim (Bool-cases (elems i == 0)) [
    | inl e ↦ rw (e) refl
    | inr e ↦ rw (e) (
        let r = cb obj (get_or obj_id_seq i 0 ∷ []) count (elems i) in
        after_call_eq count r ∙ sym (and_then-ok (after_call count r)))
  ]

  traverse_idx-called : (idx : Idx) (s : O × ℕ) → traverse_idx cb idx s ≡ called cb (listed idx) s
  unfolding traverse_idx listed
  traverse_idx-called null s = unfold called in refl
  traverse_idx-called (node idxs elems) s =
      let held : ℕ → List (ℕ × ℕ) = λ i. if elems i == 0 then [] else (i, elems i) ∷ [] in
      let below : ℕ → List (ℕ × ℕ) = λ i. listed (idxs i) in
      ap
        (λ (body : ℕ → O × ℕ → Err × (O × ℕ)).
          and_then (for_each radix_base 0 body s)
            (for_each radix_base 0 (λ i. traverse_idx cb (idxs i))))
        (fun_ext (λ i. fun_ext (λ t. call_back-called elems i t)))
      ∙ ap
          (λ (body : ℕ → O × ℕ → Err × (O × ℕ)).
            and_then (for_each radix_base 0 (λ i. called cb (held i)) s)
              (for_each radix_base 0 body))
          (fun_ext (λ i. fun_ext (λ t. traverse_idx-called (idxs i) t)))
      ∙ ap (λ (r : Err × (O × ℕ)). and_then r (for_each radix_base 0 (λ i. called cb (below i))))
          (for_each-called radix_base 0 held s)
      ∙ ap (and_then (called cb (gather radix_base 0 held) s))
          (fun_ext (λ t. for_each-called radix_base 0 below t))
      ∙ sym (called-append (gather radix_base 0 held) (gather radix_base 0 below) s)

abbrev pub In : ℕ × ℕ → List (ℕ × ℕ) → Type 0
In p [] = ⊥
In p (x ∷ xs) = (p ≡ x) ⊎ In p xs

In-append : (p : ℕ × ℕ) (xs ys : List (ℕ × ℕ)) → In p xs ⊎ In p ys → In p (xs ++ ys)
In-append p [] ys (inl i) = absurd i
In-append p [] ys (inr i) = i
In-append p (x ∷ xs) ys (inl (inl e)) = inl e
In-append p (x ∷ xs) ys (inl (inr i)) = inr (In-append p xs ys (inl i))
In-append p (x ∷ xs) ys (inr i) = inr (In-append p xs ys (inr i))

In-gather :
    (p : ℕ × ℕ) (n i k : ℕ) (f : ℕ → List (ℕ × ℕ)) → k < n → In p (f (i + k)) → In p (gather n i f)
unfolding gather
In-gather p zero i k f h m = absurd (omega (arith, h))
In-gather p (suc n) i zero f h m =
    In-append p (f i) (gather n (suc i) f)
      (inl (subst (λ j. In p (f j)) {x = i + 0} {y = i} (omega arith) m))
In-gather p (suc n) i (suc k) f h m = In-append p (f i) (gather n (suc i) f) (
    inr (
      In-gather p n (suc i) k f (omega arith)
        (subst (λ j. In p (f j)) {x = i + suc k} {y = suc i + k} (omega arith) m)))

abbrev pub last_of : List ℕ → ℕ
last_of [] = 0
last_of (d ∷ []) = d
last_of (d ∷ e ∷ ds) = last_of (e ∷ ds)

-- Each element that is held is listed.
lookup-In :
    (idx : Idx) (ds : List ℕ)
    → InRange ds
    → lookup idx ds ≢ 0
    → In (last_of ds, lookup idx ds) (listed idx)
unfolding lookup listed
lookup-In null ds r held = absurd (held (lookup-null ds))
lookup-In (node idxs elems) [] r held = absurd (held refl)
lookup-In (node idxs elems) (d ∷ []) r held =
    In-append (d, elems d)
      (gather radix_base 0 (λ i. if elems i == 0 then [] else (i, elems i) ∷ []))
      (gather radix_base 0 (λ i. listed (idxs i)))
      (inl (
        In-gather (d, elems d) radix_base 0 d (λ i. if elems i == 0 then [] else (i, elems i) ∷ [])
          r.0
          (subst (λ j. In (d, elems d) (if elems j == 0 then [] else (j, elems j) ∷ [])) {x = d}
            {y = 0 + d} (omega arith) (here (elems d) held))))
  where
    here : (elem : ℕ) → elem ≢ 0 → In (d, elem) (if elem == 0 then [] else (d, elem) ∷ [])
    here elem some_elem = elim (Bool-cases (elem == 0)) [
      | inl e ↦ absurd (some_elem (ground (arith, e)))
      | inr e ↦ rw (e) (inl refl)
    ]
lookup-In (node idxs elems) (d ∷ e ∷ ds) r held =
    let p : ℕ × ℕ = (last_of (e ∷ ds), lookup (idxs d) (e ∷ ds)) in
    In-append p (gather radix_base 0 (λ i. if elems i == 0 then [] else (i, elems i) ∷ []))
      (gather radix_base 0 (λ i. listed (idxs i)))
      (inr (
        In-gather p radix_base 0 d (λ i. listed (idxs i)) r.0
          (subst (λ j. In p (listed (idxs j))) {x = d} {y = 0 + d} (omega arith)
            (lookup-In (idxs d) (e ∷ ds) r.1 held))))

-- On a set of any shape and with any callback, `knd_set_map` does what a loop over the list of the
-- set's elements does: the elements of a node come before those of its children, both in the order of
-- the digits; the callback gets the number of calls before, and as the id the last digit alone,
-- however long the id of the element is; the first code that is not `knd_OK` ends the loop and is
-- returned. Each element that the set holds under an id of digits is on the list.
pub set_map_lem {ℓ} :
    {O : Type ℓ} (cb : O → List ℕ → ℕ → ℕ → Err × O) (self : Set) (obj : O)
    → let (err, s) = called cb (listed self.idx) (obj, 0) in
      (set_map cb self obj ≡ (err, s.0))
      × ((ds : List ℕ)
          → InRange ds
          → lookup self.idx ds ≢ 0
          → In (last_of ds, lookup self.idx ds) (listed self.idx))
unfolding set_map
set_map_lem {O = O} cb self obj = (
  ap (λ (r : Err × (O × ℕ)). (r.0, r.1.0)) (traverse_idx-called cb self.idx (obj, 0)),
  lookup-In self.idx,
)
