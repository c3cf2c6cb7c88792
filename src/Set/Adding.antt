-- ===== src/Set/Adding.antt =====
-- Adding to a set, and looking up what was added.
use knowdy.Err.{Err}
use knowdy.Base.{
  ℕ, ◌≡◌, ◌≢◌, refl, arith, List, [], some, ◌⊎◌, inl, inr, bytes_eq, true, false, u64, ◌+◌,
  if◌then◌else◌, ap, ◌∙◌, sym, subst, some_injective,
}
use knowdy.Mempool.{Pool}
use knowdy.Set.{Set, add, get, get_elem, answer, counted, Idx, is_null, save_elem}
use knowdy.Set.Lookup.{lookup, IsId, get_elem_lem}
use knowdy.Set.Add.{With, Same, Saved, save_elem_lem}

-- What an addition makes of a set.
abbrev pub Added : Set → List ℕ → ℕ → Err × Set → Type 0
Added self ds elem (err, self') =
    ((err ≡ Err.ok)
      × ((self.allow_overwrite ≡ true) ⊎ (lookup self.idx ds ≡ 0))
      × With self.idx ds elem self'.idx
      × (is_null self'.idx ≡ false)
      × (self'.num_elems ≡ u64 (self.num_elems + 1)))
    ⊎ (((err ≡ Err.conflict)
          × (self.allow_overwrite ≡ false)
          × (lookup self.idx ds ≢ 0)
          × Same self.idx self'.idx
          × (self'.num_elems ≡ self.num_elems))
        ⊎ ((err ≡ Err.nomem)
            × (lookup self.idx ds ≡ 0)
            × Same self.idx self'.idx
            × (self'.num_elems ≡ self.num_elems)))

counted_lem :
    (self : Set) (ds : List ℕ) (elem : ℕ) (r : Err × Idx × Pool)
    → Saved self.allow_overwrite elem self.idx ds r
    → Added self ds elem (counted self r)
unfolding counted
counted_lem self ds elem (Err.ok, idx, mempool) (inl (e, free, w, n)) = inl (refl, free, w, n, refl)
counted_lem self ds elem (Err.ok, idx, mempool) (inr (inl (e, _, _, _))) =
    absurd (ground (arith, e))
counted_lem self ds elem (Err.ok, idx, mempool) (inr (inr (e, _, _))) = absurd (ground (arith, e))
counted_lem self ds elem (Err.conflict, idx, mempool) (inr (inl (e, f, held, s))) =
    inr (inl (refl, f, held, s, refl))
counted_lem self ds elem (Err.nomem, idx, mempool) (inr (inr (e, free, s))) =
    inr (inr (refl, free, s, refl))
counted_lem self ds elem (_, idx, mempool) (inl (e, _, _, _)) = absurd (ground (arith, e))
counted_lem self ds elem (_, idx, mempool) (inr (inl (e, _, _, _))) = absurd (ground (arith, e))
counted_lem self ds elem (_, idx, mempool) (inr (inr (e, _, _))) = absurd (ground (arith, e))

add_eq :
    (self : Set) (id : List ℕ) (elem : ℕ) (r : Err × Idx × Pool)
    → save_elem self.allow_overwrite elem self.mempool self.idx id ≡ some r
    → add self id elem ≡ some (counted self r)
unfolding add
add_eq self id elem r e = ground (arith, e)

get_node :
    (self : Set) (id : List ℕ) → is_null self.idx ≡ false → get self id ≡ get_elem self.idx id
unfolding get
get_node self id e = ground (arith, e)

get-Added :
    (self self' : Set) (ds id' ds' : List ℕ) (elem : ℕ)
    → IsId id' ds'
    → id' ≢ []
    → Added self ds elem (Err.ok, self')
    → get self' id' ≡ answer (if bytes_eq ds ds' then elem else lookup self.idx ds')
get-Added self self' ds id' ds' elem h' ne' (inl (_, _, w, n, _)) =
    get_node self' id' n ∙ get_elem_lem self'.idx id' ds' h' ne' ∙ ap answer (w ds')
get-Added self self' ds id' ds' elem h' ne' (inr (inl (e, _, _, _, _))) = absurd (ground arith)
get-Added self self' ds id' ds' elem h' ne' (inr (inr (e, _, _, _))) = absurd (ground arith)

pub add_lem :
    (self : Set) (id ds : List ℕ) (elem : ℕ)
    → IsId id ds
    → id ≢ []
    → (r : Err × Set) × (add self id elem ≡ some r) × Added self ds elem r
add_lem self id ds elem h ne =
    let (r, saves, saved) =
      save_elem_lem self.allow_overwrite elem self.mempool self.idx id ds h ne in
    (counted self r, add_eq self id elem r saves, counted_lem self ds elem r saved)

-- After a successful addition, a lookup of any id of digits gives the element if it is the id that
-- was added, and else what the set held.
pub get-add :
    (self self' : Set) (id ds id' ds' : List ℕ) (elem : ℕ)
    → IsId id ds
    → id ≢ []
    → IsId id' ds'
    → id' ≢ []
    → add self id elem ≡ some (Err.ok, self')
    → get self' id' ≡ answer (if bytes_eq ds ds' then elem else lookup self.idx ds')
get-add self self' id ds id' ds' elem h ne h' ne' e =
    let (r, adds, added) = add_lem self id ds elem h ne in
    get-Added self self' ds id' ds' elem h' ne'
      (subst (Added self ds elem) (some_injective (sym adds ∙ e)) added)
