-- ===== src/Prelude/Triple.antt =====
-- Triples for calls that change a state: what holds before a call, after it returned `Ok`, and
-- after it returned an error.
use Prim.Native.String.{String}
use mathlib.Core.Path.{◌≡◌, ◌∙◌}
use mesh_cni.Prelude.Result.{Result, ok, err, Proc, then_do, ◌>>=◌}

abbrev pub After : {S A : Type 0} → (A → S → Type 0) → (S → Type 0) → Result A × S → Type 0
After done failed (ok a, s) = done a s
After done failed (err e, s) = failed s

abbrev pub Triple :
    {S A : Type 0} → (S → Type 0) → Proc S A → (A → S → Type 0) → (S → Type 0) → Type 0
Triple before m done failed = (s : _) → before s → After done failed (m s)

-- The two cases, of a result that is known.
pub After-ok :
    {S A : Type 0} (done : A → S → Type 0) (failed : S → Type 0) (r : Result A × S) (a : A)
    → After done failed r
    → r.0 ≡ ok a
    → done a r.1
After-ok done failed (ok b, s) a h e = let q : b ≡ a = cc in rw (← q) h
After-ok done failed (err x, s) a h e = cc

pub After-err :
    {S A : Type 0} (done : A → S → Type 0) (failed : S → Type 0) (r : Result A × S) (x : String)
    → After done failed r
    → r.0 ≡ err x
    → failed r.1
After-err done failed (ok b, s) x h e = cc
After-err done failed (err y, s) x h e = h

pub After-map :
    {S A : Type 0} (D D' : A → S → Type 0) (F F' : S → Type 0) (r : Result A × S)
    → ((a : A) (s : S) → D a s → D' a s)
    → ((s : S) → F s → F' s)
    → After D F r
    → After D' F' r
After-map D D' F F' (ok a, s) d f h = d a s h
After-map D D' F F' (err e, s) d f h = f s h

pub then_do-After :
    {S A B : Type 0} (middle : A → S → Type 0) (done : B → S → Type 0) (failed : S → Type 0)
    (r : Result A × S) (f : A → Proc S B)
    → After middle failed r
    → ((a : A) → Triple (middle a) (f a) done failed)
    → After done failed (then_do r f)
then_do-After middle done failed (ok a, s) f h k = k a s h
then_do-After middle done failed (err e, s) f h k = h

pub >>=-Triple :
    {S A B : Type 0} (before : S → Type 0) (middle : A → S → Type 0) (done : B → S → Type 0)
    (failed : S → Type 0) (m : Proc S A) (f : A → Proc S B)
    → Triple before m middle failed
    → ((a : A) → Triple (middle a) (f a) done failed)
    → Triple before (m >>= f) done failed
>>=-Triple before middle done failed m f h k s p =
    then_do-After middle done failed (m s) f (h s p) k

-- A call that leaves a view of the state alone.
abbrev pub Quiet : {S A V : Type 0} → (S → V) → Proc S A → Type 0
Quiet view m = (s : _) → view (m s).1 ≡ view s

-- A quiet call first changes nothing of what the rest does to the view.
pub Quiet->>= :
    {S A B V : Type 0} (view : S → V) (v : V) (done : B → S → Type 0) (failed : S → Type 0)
    (m : Proc S A) (f : A → Proc S B)
    → ((s : S) → view s ≡ v → failed s)
    → Quiet view m
    → ((a : A) → Triple (λ s. view s ≡ v) (f a) done failed)
    → Triple (λ s. view s ≡ v) (m >>= f) done failed
Quiet->>= {S} {A} view v done failed m f same quiet k s p =
    then_do-After (λ a s. view s ≡ v) done failed (m s) f (first (m s) (quiet s ∙ p)) k
  where
    first : (r : Result A × S) → view r.1 ≡ v → After (λ a s. view s ≡ v) failed r
    first (ok a, s) h = h
    first (err e, s) h = same s h
