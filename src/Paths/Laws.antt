-- ===== src/Paths/Laws.antt =====
-- Which directories a path asks for.
use knowdy.Err.{Err}
use knowdy.Base.{
  ℕ, ◌<◌, ◌≡◌, ◌≢◌, refl, arith, List, [], ◌∷◌, ◌++◌, Bool, true, false, leb, ◌||◌, ◌⊎◌, inl, inr,
  ◌↔◌, ◌==◌, if◌then◌else◌, length, ap, sym, ◌∙◌, subst, fun_ext, append_assoc, append-nil,
  Bool-cases,
}
use knowdy.Set.Walks.{and_then}
use knowdy.Set.Map.{and_then-ok, and_then_assoc}
use knowdy.Paths.{System, mkdir, mkpath_loop, mkpath, temp_buf_size}

module _ {ℓ} {S : Type ℓ} (mkdir : List ℕ → S → Err × S) where
  -- Directories made in turn, up to the first that fails.
  unfoldable pub make_all : List (List ℕ) → S → Err × S
  make_all [] s = (Err.ok, s)
  make_all (d ∷ ds) s = and_then (mkdir d s) (make_all ds)

  make_all-snoc :
      (ds : List (List ℕ)) (d : List ℕ) (s : S)
      → make_all (ds ++ (d ∷ [])) s ≡ and_then (make_all ds s) (mkdir d)
  unfolding make_all and_then
  make_all-snoc [] d s = and_then-ok (mkdir d s)
  make_all-snoc (x ∷ ds) d s =
      ap (and_then (mkdir x s)) (fun_ext (λ t. make_all-snoc ds d t))
      ∙ sym (and_then_assoc (mkdir x s) (make_all ds) (mkdir d))

-- What stands in front of the slashes of a path.
unfoldable pub parents : List ℕ → List ℕ → List (List ℕ)
parents buf [] = []
parents [] (c ∷ tail) = parents (c ∷ []) tail
parents (b ∷ bs) (c ∷ tail) =
    let rest = parents ((b ∷ bs) ++ (c ∷ [])) tail in if c == 47 then (b ∷ bs) ∷ rest else rest

mkpath_loop_lem {ℓ} :
    {S : Type ℓ} (mkdir : List ℕ → S → Err × S) (buf tail : List ℕ) (s : S)
    → mkpath_loop mkdir buf tail s ≡ make_all mkdir (parents buf tail) s
unfolding mkpath_loop parents make_all
mkpath_loop_lem mkdir buf [] s = refl
mkpath_loop_lem mkdir [] (c ∷ tail) s = mkpath_loop_lem mkdir (c ∷ []) tail s
mkpath_loop_lem mkdir (b ∷ bs) (c ∷ tail) s = elim (Bool-cases (c == 47)) [
  | inl e ↦ rw (e) (
      ap (and_then (mkdir (b ∷ bs) s))
        (fun_ext (λ t. mkpath_loop_lem mkdir ((b ∷ bs) ++ (c ∷ [])) tail t)))
  | inr e ↦ rw (e) (mkpath_loop_lem mkdir ((b ∷ bs) ++ (c ∷ [])) tail s)
]

abbrev pub In : List ℕ → List (List ℕ) → Type 0
In d [] = ⊥
In d (x ∷ xs) = (d ≡ x) ⊎ In d xs

-- A directory of the path: the bytes in front of one of its slashes.
abbrev pub IsParent : List ℕ → List ℕ → Type 0
IsParent path d = (d ≢ []) × ((rest : List ℕ) × (path ≡ d ++ (47 ∷ rest)))

cons_nil : (b : ℕ) (bs : List ℕ) → (b ∷ bs) ≢ []
cons_nil b bs e = ground (arith, e)

sound_here :
    (b c : ℕ) (bs tail d : List ℕ) → c ≡ 47 → d ≡ b ∷ bs → IsParent ((b ∷ bs) ++ (c ∷ tail)) d
sound_here b c bs tail d slash e = (
  (λ q. cons_nil b bs (sym e ∙ q)),
  (
    tail,
    ap (λ (k : ℕ). (b ∷ bs) ++ (k ∷ tail)) slash ∙ ap (λ (x : List ℕ). x ++ (47 ∷ tail)) (sym e),
  ),
)

-- A byte that is a slash adds the bytes in front of it.
sound_split :
    (b c : ℕ) (bs tail d : List ℕ) (ds : List (List ℕ)) (t : Bool)
    → (t ≡ true → c ≡ 47)
    → (In d ds → IsParent ((b ∷ bs) ++ (c ∷ tail)) d)
    → In d (if t then (b ∷ bs) ∷ ds else ds)
    → IsParent ((b ∷ bs) ++ (c ∷ tail)) d
sound_split b c bs tail d ds true slash below (inl e) = sound_here b c bs tail d (slash refl) e
sound_split b c bs tail d ds true slash below (inr i) = below i
sound_split b c bs tail d ds false slash below i = below i

complete_split :
    (d x : List ℕ) (ds : List (List ℕ)) (t : Bool) → In d ds → In d (if t then x ∷ ds else ds)
complete_split d x ds true i = inr i
complete_split d x ds false i = i

IsParent-assoc :
    (buf : List ℕ) (c : ℕ) (tail d : List ℕ)
    → IsParent ((buf ++ (c ∷ [])) ++ tail) d
    → IsParent (buf ++ (c ∷ tail)) d
IsParent-assoc buf c tail d (ne, (rest, e)) = (ne, (rest, sym (append_assoc buf (c ∷ []) tail) ∙ e))

parents_sound : (buf tail d : List ℕ) → In d (parents buf tail) → IsParent (buf ++ tail) d
unfolding parents
parents_sound buf [] d h = absurd h
parents_sound [] (c ∷ tail) d h = parents_sound (c ∷ []) tail d h
parents_sound (b ∷ bs) (c ∷ tail) d h =
    sound_split b c bs tail d (parents ((b ∷ bs) ++ (c ∷ [])) tail) (c == 47)
      (λ e. ground (arith, e))
      (λ i. IsParent-assoc (b ∷ bs) c tail d (parents_sound ((b ∷ bs) ++ (c ∷ [])) tail d i)) h

parents_complete :
    (buf mid rest : List ℕ) → buf ++ mid ≢ [] → In (buf ++ mid) (parents buf (mid ++ (47 ∷ rest)))
unfolding parents
parents_complete [] [] rest ne = absurd (ne refl)
parents_complete (b ∷ bs) [] rest ne = inl (append-nil (b ∷ bs))
parents_complete [] (c ∷ mid) rest ne = parents_complete (c ∷ []) mid rest (cons_nil c mid)
parents_complete (b ∷ bs) (c ∷ mid) rest ne =
    complete_split ((b ∷ bs) ++ (c ∷ mid)) (b ∷ bs)
      (parents ((b ∷ bs) ++ (c ∷ [])) (mid ++ (47 ∷ rest))) (c == 47)
      (subst (λ d. In d (parents ((b ∷ bs) ++ (c ∷ [])) (mid ++ (47 ∷ rest))))
        (append_assoc (b ∷ bs) (c ∷ []) mid)
        (parents_complete ((b ∷ bs) ++ (c ∷ [])) mid rest (cons_nil b ((bs ++ (c ∷ [])) ++ mid))))

size_ok : (n : ℕ) → 0 < n → n < temp_buf_size → (leb temp_buf_size n || (n == 0)) ≡ false
size_ok n h k = ground arith

-- A path that is not empty and fits the buffer asks for a list of directories, each made in turn up to
-- the first that fails: all the non-empty parts of it in front of a slash, and no others, and at the
-- end, where it does not name a file, the whole path.
pub mkpath_lem {ℓ} :
    {S : Type ℓ} (sys : System S) (path : List ℕ) (s : S)
    → 0 < length path
    → length path < temp_buf_size
    → (ds : List (List ℕ)) × (mkpath sys path true s ≡ make_all (mkdir sys) ds s)
      × (mkpath sys path false s ≡ make_all (mkdir sys) (ds ++ (path ∷ [])) s)
      × ((d : List ℕ) → In d ds ↔ IsParent path d)
unfolding mkpath
mkpath_lem {S = S} sys path s some_path fits = (
  parents [] path,
  rw (size_ok (length path) some_path fits)
      (and_then-ok (mkpath_loop (mkdir sys) [] path s) ∙ mkpath_loop_lem (mkdir sys) [] path s),
  rw (size_ok (length path) some_path fits) (
      ap (λ (r : Err × S). and_then r (mkdir sys path)) (mkpath_loop_lem (mkdir sys) [] path s)
      ∙ sym (make_all-snoc (mkdir sys) (parents [] path) path s)),
  λ d. (
    parents_sound [] path d,
    λ p. subst (λ q. In d (parents [] q)) (sym p.1.1) (parents_complete [] d p.1.0 p.0),
  ),
)
