-- ===== src/SetIdx/Laws.antt =====
-- What a set of masks holds, and what an addition makes of it.
use knowdy.Err.{Err}
use knowdy.Base.{
  ℕ, zero, suc, ◌+◌, ◌<◌, ◌≤◌, length, ◌≡◌, ◌≢◌, refl, ap, ◌∙◌, sym, arith, Bool, true, false, List,
  [], ◌∷◌, Option, some, ◌⊎◌, inl, inr, if◌then◌else◌, bytes_eq, subst, some_injective,
}
use knowdy.Utils.Ids.{obj_id_base}
use knowdy.Set.Lookup.{IsId}
use knowdy.SetIdx.{
  Folder, null, folder, test_bit, empty, Added, folder_at, elems_marked, with_folder, below, enter,
  add, exist,
}
use knowdy.SetIdx.Masks.{test_bit-mark_bit, test_bit-zero}

-- Whether a set holds the id of some digits.
abbrev pub holds : Folder → List ℕ → Bool
holds null ds = false
holds (folder elems_mask folders_mask folders) [] = false
holds (folder elems_mask folders_mask folders) (d ∷ []) = test_bit elems_mask d
holds (folder elems_mask folders_mask folders) (d ∷ e ∷ ds) = holds (folders d) (e ∷ ds)

abbrev pub IsFolder : Folder → Type 0
IsFolder null = ⊥
IsFolder (folder elems_mask folders_mask folders) = Unit

abbrev pub Same : Folder → Folder → Type 0
Same f f' = (es : List ℕ) → holds f' es ≡ holds f es

-- `f'` holds what `f` does and the id `ds`.
abbrev pub With : Folder → List ℕ → Folder → Type 0
With f ds f' = (es : List ℕ) → holds f' es ≡ (if bytes_eq ds es then true else holds f es)

-- The two results of an addition that begins with memory for `room` folders.
abbrev pub Ends : ℕ → Folder → List ℕ → Added → Type 0
Ends room f ds (err, f', room') =
    ((err ≡ Err.ok) × With f ds f' × IsFolder f')
    ⊎ ((err ≡ Err.nomem) × (room + 1 < length ds) × Same f f')

holds-empty : (ds : List ℕ) → holds empty ds ≡ false
holds-empty [] = refl
holds-empty (d ∷ []) = test_bit-zero d
holds-empty (d ∷ e ∷ ds) = refl

-- An id of digits exists where the set holds it.
pub exist_lem :
    (f : Folder) (id ds : List ℕ) → IsId id ds → id ≢ [] → exist f id ≡ some (holds f ds)
unfolding exist
exist_lem null id ds h ne = refl
exist_lem (folder em fm fs) [] ds h ne = absurd (ne refl)
exist_lem (folder em fm fs) (c ∷ id) [] h ne = absurd h
exist_lem (folder em fm fs) (c ∷ []) (d ∷ []) (h, t) ne = ground (arith, h)
exist_lem (folder em fm fs) (c ∷ []) (d ∷ e ∷ ds) (h, t) ne = absurd t
exist_lem (folder em fm fs) (c ∷ k ∷ id) (d ∷ []) (h, t) ne = absurd t
exist_lem (folder em fm fs) (c ∷ k ∷ id) (d ∷ e ∷ ds) (h, t) ne =
    ground (arith, h, exist_lem (fs d) (k ∷ id) (e ∷ ds) t (λ q. ground (arith, q)))

elems_marked-With : (f : Folder) (d : ℕ) → IsFolder f → With f (d ∷ []) (elems_marked d f)
unfolding bytes_eq
elems_marked-With null d h es = elim h [ ]
elems_marked-With (folder em fm fs) d h [] = refl
elems_marked-With (folder em fm fs) d h (x ∷ []) = ground (arith, test_bit-mark_bit x d em)
elems_marked-With (folder em fm fs) d h (x ∷ y ∷ es) = ground arith

with_folder-Same :
    (new : Bool) (f : Folder) (d : ℕ) (next : Folder)
    → Same (folder_at f d) next
    → Same f (with_folder new d f next)
with_folder-Same new null d next h es = refl
with_folder-Same new (folder em fm fs) d next h [] = refl
with_folder-Same new (folder em fm fs) d next h (x ∷ []) = refl
with_folder-Same new (folder em fm fs) d next h (x ∷ y ∷ es) = ground (arith, h (y ∷ es))

with_folder-With :
    (new : Bool) (f : Folder) (d k : ℕ) (ds : List ℕ) (next : Folder)
    → IsFolder f
    → With (folder_at f d) (k ∷ ds) next
    → With f (d ∷ k ∷ ds) (with_folder new d f next)
unfolding bytes_eq
with_folder-With new null d k ds next h w es = elim h [ ]
with_folder-With new (folder em fm fs) d k ds next h w [] = refl
with_folder-With new (folder em fm fs) d k ds next h w (x ∷ []) = ground arith
with_folder-With new (folder em fm fs) d k ds next h w (x ∷ y ∷ es) = ground (arith, w (y ∷ es))

with_folder-IsFolder :
    (new : Bool) (f : Folder) (d : ℕ) (next : Folder)
    → IsFolder f
    → IsFolder (with_folder new d f next)
with_folder-IsFolder new null d next h = h
with_folder-IsFolder new (folder em fm fs) d next h = tt

below-Ends :
    (room room' : ℕ) (new : Bool) (f : Folder) (d k : ℕ) (ds : List ℕ) (child : Folder) (r : Added)
    → IsFolder f
    → Same (folder_at f d) child
    → room ≤ suc room'
    → Ends room' child (k ∷ ds) r
    → Ends room f (d ∷ k ∷ ds) (below new d f r)
below-Ends room room' new f d k ds child (err, next, left) h same le (inl (e, w, _)) = inl (
  e,
  with_folder-With new f d k ds next h (λ es. ground (arith, w es, same es)),
  with_folder-IsFolder new f d next h,
)
below-Ends room room' new f d k ds child (err, next, left) h same le (inr (e, short, s)) =
    inr (e, omega arith, with_folder-Same new f d next (λ es. s es ∙ same es))

-- The loop goes on as `run` does in the next folder.
module _ (run : ℕ → Folder → Option Added) (k : ℕ) (ds : List ℕ)
    (run_lem : (room : ℕ) (f : Folder)
      → IsFolder f
      → (r : Added) × (run room f ≡ some r) × Ends room f (k ∷ ds) r) where
  enter_lem :
      (room : ℕ) (f : Folder) (d : ℕ) (child : Folder)
      → IsFolder f
      → child ≡ folder_at f d
      → (r : Added) × (enter run room f d child ≡ some r) × Ends room f (d ∷ k ∷ ds) r
  unfolding enter
  enter_lem zero f d null h at = ((Err.nomem, f, 0), refl, inr (refl, omega arith, λ es. refl))
  enter_lem (suc room) f d null h at =
      let (r, runs, ends) = run_lem room empty tt in
      (
        below true d f r,
        ground (arith, runs),
        below-Ends (suc room) room true f d k ds empty r h
            (λ es. holds-empty es ∙ ap (λ (g : Folder). holds g es) at) (omega arith) ends,
      )
  enter_lem room f d (folder em fm fs) h at =
      let (r, runs, ends) = run_lem room (folder em fm fs) tt in
      (
        below false d f r,
        ground (arith, runs),
        below-Ends room room false f d k ds (folder em fm fs) r h
            (λ es. ap (λ (g : Folder). holds g es) at) (omega arith) ends,
      )

elems_marked-IsFolder : (f : Folder) (d : ℕ) → IsFolder f → IsFolder (elems_marked d f)
elems_marked-IsFolder null d h = h
elems_marked-IsFolder (folder em fm fs) d h = tt

add_leaf :
    (room : ℕ) (f : Folder) (c d : ℕ)
    → obj_id_base c ≡ some d
    → add room f (c ∷ []) ≡ some (Err.ok, elems_marked d f, room)
unfolding add
add_leaf room f c d h = rw (h, add) refl

add_below :
    (room : ℕ) (f : Folder) (c d k : ℕ) (id : List ℕ)
    → obj_id_base c ≡ some d
    → add room f (c ∷ k ∷ id) ≡ enter (λ room next. add room next (k ∷ id)) room f d (folder_at f d)
unfolding add
add_below room f c d k id h = rw (h, add) refl

-- Adding an id of digits always ends with one of two codes. `knd_OK`: the set holds the id, and
-- every other id as before. `knd_NOMEM`: there was not memory for a folder for every digit but the
-- last, and no id is held that was not before, or the other way round.
pub idx_add_lem :
    (room : ℕ) (f : Folder) (id ds : List ℕ)
    → IsId id ds
    → id ≢ []
    → IsFolder f
    → (r : Added) × (add room f id ≡ some r) × Ends room f ds r
idx_add_lem room f [] ds h ne n = absurd (ne refl)
idx_add_lem room f (c ∷ id) [] h ne n = absurd h
idx_add_lem room f (c ∷ []) (d ∷ e ∷ ds) (h, t) ne n = absurd t
idx_add_lem room f (c ∷ k ∷ id) (d ∷ []) (h, t) ne n = absurd t
idx_add_lem room f (c ∷ []) (d ∷ []) (h, t) ne n = (
  (Err.ok, elems_marked d f, room),
  add_leaf room f c d h,
  inl (refl, elems_marked-With f d n, elems_marked-IsFolder f d n),
)
idx_add_lem room f (c ∷ k ∷ id) (d ∷ e ∷ ds) (h, t) ne n =
    let (r, enters, ends) =
      enter_lem (λ room next. add room next (k ∷ id)) e ds
        (λ room next n. idx_add_lem room next (k ∷ id) (e ∷ ds) t (λ q. ground (arith, q)) n) room f
        d (folder_at f d) n refl in
    (r, add_below room f c d k id h ∙ enters, ends)

exist-Ends :
    (room room' : ℕ) (f f' : Folder) (ds id' ds' : List ℕ)
    → IsId id' ds'
    → id' ≢ []
    → Ends room f ds (Err.ok, f', room')
    → exist f' id' ≡ some (if bytes_eq ds ds' then true else holds f ds')
exist-Ends room room' f f' ds id' ds' h' ne' (inl (_, w, _)) =
    exist_lem f' id' ds' h' ne' ∙ ap some (w ds')
exist-Ends room room' f f' ds id' ds' h' ne' (inr (e, _, _)) = absurd (ground (arith, e))

-- After a successful addition exactly the id that was added and those that were there before exist.
pub exist-add :
    (room room' : ℕ) (f f' : Folder) (id ds id' ds' : List ℕ)
    → IsId id ds
    → id ≢ []
    → IsId id' ds'
    → id' ≢ []
    → IsFolder f
    → add room f id ≡ some (Err.ok, f', room')
    → exist f' id' ≡ some (if bytes_eq ds ds' then true else holds f ds')
exist-add room room' f f' id ds id' ds' h ne h' ne' n e =
    let (r, adds, ends) = idx_add_lem room f id ds h ne n in
    exist-Ends room room' f f' ds id' ds' h' ne'
      (subst (Ends room f ds) (some_injective (sym adds ∙ e)) ends)
