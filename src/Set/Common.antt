-- ===== src/Set/Common.antt =====
-- What several tries hold in common, and loops that end with success.
use knowdy.Err.{Err}
use knowdy.Base.{
  ℕ, zero, suc, ◌+◌, ◌<◌, ◌≡◌, refl, arith, List, [], ◌∷◌, Bool, true, false, ◌&&◌, not, ◌==◌,
  if◌then◌else◌, ap, sym, subst, map,
}
use knowdy.Utils.Ids.{radix_base}
use knowdy.Set.{Idx, null, node, idxs_of, elems_of, is_null}
use knowdy.Set.Lookup.{lookup, lookup-null}
use knowdy.Set.Walks.{and_then, for_each, all_elems, all_idxs}

abbrev pub InRange : List ℕ → Type 0
InRange [] = Unit
InRange (d ∷ ds) = (d < radix_base) × InRange ds

unfoldable pub all_in : List Idx → List ℕ → Bool
all_in [] ds = true
all_in (idx ∷ idxs) ds = not (lookup idx ds == 0) && all_in idxs ds

-- The element of the base that all tries hold.
abbrev pub common : Idx → List Idx → List ℕ → ℕ
common base idxs ds = if all_in idxs ds then lookup base ds else 0

pub all_in-leaf : (idxs : List Idx) (i : ℕ) → all_in idxs (i ∷ []) ≡ all_elems idxs i
unfolding all_in lookup
all_in-leaf [] i = refl
all_in-leaf (idx ∷ idxs) i = ap (λ (b : Bool). not (elems_of idx i == 0) && b) (all_in-leaf idxs i)

pub all_in-below :
    (idxs : List Idx) (i e : ℕ) (ds : List ℕ)
    → all_in idxs (i ∷ e ∷ ds) ≡ all_in (map (λ idx. idxs_of idx i) idxs) (e ∷ ds)
unfolding all_in lookup
all_in-below [] i e ds = refl
all_in-below (idx ∷ idxs) i e ds =
    ap (λ (b : Bool). not (lookup (idxs_of idx i) (e ∷ ds) == 0) && b) (all_in-below idxs i e ds)

pub null_below : (idx : Idx) (ds : List ℕ) → is_null idx ≡ true → lookup idx ds ≡ 0
null_below null ds h = lookup-null ds
null_below (node idxs elems) ds h = absurd (ground arith)

pub all_idxs-false :
    (idxs : List Idx) (i e : ℕ) (ds : List ℕ)
    → all_idxs idxs i ≡ false
    → all_in idxs (i ∷ e ∷ ds) ≡ false
unfolding all_in lookup
all_idxs-false [] i e ds h = ground arith
all_idxs-false (idx ∷ idxs) i e ds h =
    ground (arith, null_below (idxs_of idx i) (e ∷ ds), all_idxs-false idxs i e ds)

pub common-below :
    (base : Idx) (idxs : List Idx) (i e : ℕ) (ds : List ℕ)
    → common base idxs (i ∷ e ∷ ds)
      ≡ common (idxs_of base i) (map (λ idx. idxs_of idx i) idxs) (e ∷ ds)
unfolding lookup
common-below base idxs i e ds =
    ap (λ (b : Bool). if b then lookup (idxs_of base i) (e ∷ ds) else 0) (all_in-below idxs i e ds)

pub and_then_lem {ℓ} :
    {S : Type ℓ} (r : Err × S) (next : S → Err × S)
    → (and_then r next).0 ≡ Err.ok
    → (r.0 ≡ Err.ok) × (and_then r next ≡ next r.1)
unfolding and_then
and_then_lem (Err.ok, s) next ok = (refl, refl)
and_then_lem (_, s) next ok = absurd (ground (arith, ok))

-- An invariant of a loop that succeeds.
pub for_each_lem {ℓ κ} :
    {S : Type ℓ} (P : ℕ → S → Type κ) (body : ℕ → S → Err × S) (n i : ℕ) (s : S)
    → ((j : ℕ) (t : S) → P j t → (body j t).0 ≡ Err.ok → P (suc j) (body j t).1)
    → P i s
    → (for_each n i body s).0 ≡ Err.ok
    → P (i + n) (for_each n i body s).1
unfolding for_each
for_each_lem {S = S} P body zero i s step p ok = subst (λ k. P k s) (omega arith) p
for_each_lem {S = S} P body (suc n) i s step p ok =
    let (first, both) = and_then_lem (body i s) (for_each n (suc i) body) ok in
    let rest =
      for_each_lem P body n (suc i) (body i s).1 step (step i s p first)
        (subst (λ (r : Err × S). r.0 ≡ Err.ok) both ok) in
    subst (λ k. P k (for_each (suc n) i body s).1) (omega arith)
      (subst (λ (r : Err × S). P (suc i + n) r.1) (sym both) rest)
