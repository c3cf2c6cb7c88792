-- ===== src/Result.antt =====
-- Outcomes of code that may fail: a code other than `knd_OK`, or what C leaves undefined.
use knowdy.Err.{Err}
use knowdy.Base.{Option, none, some}

-- `fault`: a read or write outside of a buffer. `out_of_fuel` has no counterpart in the program.
pub data Result {ℓ} (A : Type ℓ) : Type ℓ where
  done : A → Result A
  failed : Err → Result A
  fault out_of_fuel : Result A

infixl 5 ◌>>=◌
abbrev pub ◌>>=◌ {ℓ κ} : {A : Type ℓ} {B : Type κ} → Result A → (A → Result B) → Result B
done a >>= f = f a
failed e >>= f = failed e
fault >>= f = fault
out_of_fuel >>= f = out_of_fuel

-- A read that may miss its buffer.
abbrev pub or_fault {ℓ} : {A : Type ℓ} → Option A → Result A
or_fault none = fault
or_fault (some a) = done a

-- `P` holds of the value, if there is one.
abbrev pub Ensures {ℓ} : {A : Type ℓ} → (A → Type 0) → Result A → Type 0
Ensures P (done a) = P a
Ensures P (failed e) = Unit
Ensures P fault = Unit
Ensures P out_of_fuel = Unit

pub Ensures-bind {ℓ ℓ'} :
    {A : Type ℓ} {B : Type ℓ'} (P : A → Type 0) (Q : B → Type 0) (r : Result A) (f : A → Result B)
    → Ensures P r
    → ((a : A) → P a → Ensures Q (f a))
    → Ensures Q (r >>= f)
Ensures-bind P Q (done a) f h k = k a h
Ensures-bind P Q (failed e) f h k = tt
Ensures-bind P Q fault f h k = tt
Ensures-bind P Q out_of_fuel f h k = tt

-- There is a value, and `P` holds of it.
abbrev pub Gives {ℓ} : {A : Type ℓ} → (A → Type 0) → Result A → Type 0
Gives P (done a) = P a
Gives P (failed e) = ⊥
Gives P fault = ⊥
Gives P out_of_fuel = ⊥

pub Gives-bind {ℓ ℓ'} :
    {A : Type ℓ} {B : Type ℓ'} (P : A → Type 0) (Q : B → Type 0) (r : Result A) (f : A → Result B)
    → Gives P r
    → ((a : A) → P a → Gives Q (f a))
    → Gives Q (r >>= f)
Gives-bind P Q (done a) f h k = k a h
Gives-bind P Q (failed e) f h k = elim h [ ]
Gives-bind P Q fault f h k = elim h [ ]
Gives-bind P Q out_of_fuel f h k = elim h [ ]

pub Ensures-map {ℓ} :
    {A : Type ℓ} (P Q : A → Type 0) (r : Result A)
    → Ensures P r
    → ((a : A) → P a → Q a)
    → Ensures Q r
Ensures-map P Q (done a) h k = k a h
Ensures-map P Q (failed e) h k = tt
Ensures-map P Q fault h k = tt
Ensures-map P Q out_of_fuel h k = tt
