-- ===== src/Gsp/Footers.antt =====
-- What the writer appends to an output: footers.
use knowdy.Err.{Err}
use knowdy.Base.{
  ℕ, zero, suc, ◌+◌, ◌≡◌, refl, sym, ap, ◌∙◌, Bool, true, false, List, [], ◌∷◌, ◌++◌, length, ltb,
  ◌==◌, append_assoc, append-nil, u8, Bool-cases, inl, inr,
}
use knowdy.Result.{Result, done, failed, fault, out_of_fuel, ◌>>=◌, Ensures}
use knowdy.Output.Steps.{append}
use knowdy.Utils.Ids.{radix_base}
use knowdy.Utils.Pack.{pack_int}
use knowdy.Gsp.{write, written, seq}
use knowdy.Gsp.Write.{footer_cell, footer_loop, build_footer}
use knowdy.Gsp.Format.{body, entry, cells, trailer}

-- If an output is written, the bytes stand behind what it held.
abbrev pub Appends : List ℕ → List ℕ → Result (List ℕ) → Type 0
Appends out bytes r = Ensures (λ (o : List ℕ). o ≡ out ++ bytes) r

pub Appends-bind :
    (out xs ys : List ℕ) (r : Result (List ℕ)) (f : List ℕ → Result (List ℕ))
    → Appends out xs r
    → ((o : List ℕ) → Appends o ys (f o))
    → Appends out (xs ++ ys) (r >>= f)
Appends-bind out xs ys (done o) f e k = weaken (f o) (k o)
  where
    weaken : (r : Result (List ℕ)) → Appends o ys r → Appends out (xs ++ ys) r
    weaken (done o') e' = e' ∙ (ap (λ (z : List ℕ). z ++ ys) e ∙ append_assoc out xs ys)
    weaken (failed code) e' = tt
    weaken fault e' = tt
    weaken out_of_fuel e' = tt
Appends-bind out xs ys (failed e) f h k = tt
Appends-bind out xs ys fault f h k = tt
Appends-bind out xs ys out_of_fuel f h k = tt

pub Appends-none : (out : List ℕ) → Appends out [] (done out)
Appends-none out = sym (append-nil out)

module _ (capacity : ℕ) where
  pub write-Appends : (bytes out : List ℕ) → Appends out bytes (write capacity bytes out)
  unfolding write written append
  write-Appends bytes out = elim (Bool-cases (ltb (length out + length bytes) capacity)) [
    | inl fits ↦
        let e : append capacity out bytes ≡ (Err.ok, out ++ bytes) = rw (fits) refl in
        let w : write capacity bytes out ≡ done (out ++ bytes) = ap written e in rw (w) refl
    | inr full ↦
        let e : append capacity out bytes ≡ (Err.nomem, out) = rw (full) refl in
        let w : write capacity bytes out ≡ failed Err.nomem = ap written e in rw (w) tt
  ]

  footer_cell-Appends :
      (keyed : Bool) (size k i : ℕ) (out : List ℕ)
      → Appends out (entry keyed size k i) (footer_cell capacity keyed size k i out)
  unfolding footer_cell entry
  footer_cell-Appends false size k i out = write-Appends (pack_int size k) out
  footer_cell-Appends true size k i out = elim (Bool-cases (size == 0)) [
    | inl none_here ↦ rw (none_here) (Appends-none out)
    | inr here ↦ rw (here) (
        Appends-bind out (seq i ∷ []) (pack_int size k) (write capacity (seq i ∷ []) out)
          (λ o. write capacity (pack_int size k) o) (write-Appends (seq i ∷ []) out)
          (λ o. write-Appends (pack_int size k) o))
  ]

  footer_loop-Appends :
      (sizes : ℕ → ℕ) (keyed : Bool) (k n i : ℕ) (out : List ℕ)
      → Appends out (cells keyed sizes k n i) (footer_loop capacity sizes keyed k n i out)
  unfolding footer_loop body
  footer_loop-Appends sizes keyed k zero i out = Appends-none out
  footer_loop-Appends sizes keyed k (suc n) i out =
      Appends-bind out (entry keyed (sizes i) k i) (cells keyed sizes k n (suc i))
        (footer_cell capacity keyed (sizes i) k i out)
        (λ o. footer_loop capacity sizes keyed k n (suc i) o)
        (footer_cell-Appends keyed (sizes i) k i out)
        (λ o. footer_loop-Appends sizes keyed k n (suc i) o)

  write-two :
      (a b : ℕ) (o : List ℕ)
      → Appends o (a ∷ b ∷ []) (write capacity (a ∷ []) o >>= (λ o. write capacity (b ∷ []) o))
  write-two a b o =
      Appends-bind o (a ∷ []) (b ∷ []) (write capacity (a ∷ []) o) (λ o. write capacity (b ∷ []) o)
        (write-Appends (a ∷ []) o) (λ o. write-Appends (b ∷ []) o)

  -- A footer: the cells, then how to read them.
  pub build_footer-Appends :
      (sizes : ℕ → ℕ) (num : ℕ) (keyed : Bool) (k : ℕ) (out : List ℕ)
      → Appends out
          (cells keyed sizes k radix_base 0 ++ trailer keyed num k)
          (build_footer capacity sizes num keyed k out)
  unfolding build_footer
  build_footer-Appends sizes num true k out =
      Appends-bind out (cells true sizes k radix_base 0) (trailer true num k)
        (footer_loop capacity sizes true k radix_base 0 out)
        (λ o.
          write capacity (u8 num ∷ []) o
          >>= (λ o. write capacity (u8 k ∷ []) o >>= (λ o. write capacity (1 ∷ []) o)))
        (footer_loop-Appends sizes true k radix_base 0 out)
        (λ o.
          Appends-bind o (u8 num ∷ []) (u8 k ∷ 1 ∷ []) (write capacity (u8 num ∷ []) o)
            (λ o. write capacity (u8 k ∷ []) o >>= (λ o. write capacity (1 ∷ []) o))
            (write-Appends (u8 num ∷ []) o) (λ o. write-two (u8 k) 1 o))
  build_footer-Appends sizes num false k out =
      Appends-bind out (cells false sizes k radix_base 0) (trailer false num k)
        (footer_loop capacity sizes false k radix_base 0 out)
        (λ o. write capacity (u8 k ∷ []) o >>= (λ o. write capacity (0 ∷ []) o))
        (footer_loop-Appends sizes false k radix_base 0 out) (λ o. write-two (u8 k) 0 o)
