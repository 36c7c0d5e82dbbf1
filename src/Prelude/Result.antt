-- ===== src/Prelude/Result.antt =====
-- Fallible calls: the result of a call, and calls that change a state and may stop half-way,
-- as the `?` operator does: what was written before the error stays written.
use Prim.Native.String.{String}
use mathlib.Core.Path.{◌≡◌, refl}
use mathlib.Core.Logic.{◌⊎◌, inl, inr}

pub data Result {ℓ} (A : Type ℓ) : Type ℓ where
  ok : A → Result A
  err : String → Result A

pub Result-cases {ℓ} :
    {A : Type ℓ} (r : Result A) → ((a : A) × (r ≡ ok a)) ⊎ ((e : String) × (r ≡ err e))
Result-cases (ok a) = inl (a, refl)
Result-cases (err e) = inr (e, refl)

-- A method on `&mut self` that returns a `Result`.
abbrev pub Proc : Type 0 → Type 0 → Type 0
Proc S A = S → Result A × S

abbrev pub pure : {S A : Type 0} → A → Proc S A
pure a s = (ok a, s)

abbrev pub fail : {S A : Type 0} → String → Proc S A
fail e s = (err e, s)

-- What follows a `?`.
abbrev pub then_do : {S A B : Type 0} → Result A × S → (A → Proc S B) → Result B × S
then_do (ok a, s) f = f a s
then_do (err e, s) f = (err e, s)

infixl 5 ◌>>=◌ ◌>>◌
abbrev pub ◌>>=◌ : {S A B : Type 0} → Proc S A → (A → Proc S B) → Proc S B
◌>>=◌ m f s = then_do (m s) f

abbrev pub ◌>>◌ : {S B : Type 0} → Proc S (Unit {0}) → Proc S B → Proc S B
m >> k = m >>= λ _. k

-- A result that touches no state.
abbrev pub lift : {S A : Type 0} → Result A → Proc S A
lift r s = (r, s)

-- The state that a call leaves, whatever its result, keeps what the state before it had.
abbrev pub Keeps {ℓ} : {S A : Type 0} → (S → Type ℓ) → Proc S A → Type ℓ
Keeps P m = (s : _) → P s → P (m s).1

pub then_do-Keeps {ℓ} :
    {S A B : Type 0} (P : S → Type ℓ) (r : Result A × S) (f : A → Proc S B)
    → P r.1
    → ((a : A) → Keeps P (f a))
    → P (then_do r f).1
then_do-Keeps P (ok a, s) f h k = k a s h
then_do-Keeps P (err e, s) f h k = h

pub bind-Keeps {ℓ} :
    {S A B : Type 0} (P : S → Type ℓ) (m : Proc S A) (f : A → Proc S B)
    → Keeps P m
    → ((a : A) → Keeps P (f a))
    → Keeps P (m >>= f)
bind-Keeps P m f h k s p = then_do-Keeps P (m s) f (h s p) k

-- Inversion of a chain that succeeds.
pub then_do-eq-ok :
    {S A B : Type 0} (r : Result A × S) (f : A → Proc S B) {b : B}
    → (then_do r f).0 ≡ ok b
    → (a : A) × (r.0 ≡ ok a) × ((f a r.1).0 ≡ ok b) × (then_do r f ≡ f a r.1)
then_do-eq-ok (ok a, s) f h = (a, refl, h, refl)
then_do-eq-ok (err e, s) f h = cc

-- A chain of calls on `&self`.
abbrev pub and_then : {A B : Type 0} → Result A → (A → Result B) → Result B
and_then (ok a) f = f a
and_then (err e) f = err e

pub then_do_ok :
    {S A B : Type 0} (r : Result A × S) (f : A → Proc S B) {a : A}
    → r.0 ≡ ok a
    → then_do r f ≡ f a r.1
then_do_ok (r, s) f e = rw e

pub then_do_err :
    {S A B : Type 0} (r : Result A × S) (f : A → Proc S B) {e : String}
    → r.0 ≡ err e
    → then_do r f ≡ (err e, r.1)
then_do_err (r, s) f e = rw e
