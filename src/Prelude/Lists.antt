-- ===== src/Prelude/Lists.antt =====
-- The items of a list, and the loops that build a list from another.
use mathlib.Core.List.{List, [], ◌∷◌, ◌++◌}
use mathlib.Core.Logic.{◌↔◌, ◌⊎◌, inl, inr}
use mathlib.Core.Option.{Option, none, some}
use mathlib.Core.Path.{◌≡◌, refl, sym, ap, ◌∙◌}

module _ {A : Type 0} where
  -- `x` is an item of the list.
  abbrev pub IsIn : A → List A → Type 0
  IsIn x [] = ⊥
  IsIn x (y ∷ ys) = (x ≡ y) ⊎ IsIn x ys

module _ {A : Type 0} where
  abbrev pub push : Option A → List A → List A
  push none xs = xs
  push (some x) xs = x ∷ xs

  pub IsIn-append : (x : A) (xs ys : List A) → IsIn x (xs ++ ys) → IsIn x xs ⊎ IsIn x ys
  IsIn-append x [] ys h = inr h
  IsIn-append x (z ∷ xs) ys (inl e) = inl (inl e)
  IsIn-append x (z ∷ xs) ys (inr h) = elim (IsIn-append x xs ys h) [
    | inl a ↦ inl (inr a)
    | inr b ↦ inr b
  ]

  pub IsIn-append_left : (x : A) (xs ys : List A) → IsIn x xs → IsIn x (xs ++ ys)
  IsIn-append_left x [] ys h = absurd h
  IsIn-append_left x (z ∷ xs) ys (inl e) = inl e
  IsIn-append_left x (z ∷ xs) ys (inr h) = inr (IsIn-append_left x xs ys h)

  pub IsIn-append_right : (x : A) (xs ys : List A) → IsIn x ys → IsIn x (xs ++ ys)
  IsIn-append_right x [] ys h = h
  IsIn-append_right x (z ∷ xs) ys h = inr (IsIn-append_right x xs ys h)

  pub IsIn-push :
      (x : A) (o : Option A) (xs : List A) → IsIn x (push o xs) → (o ≡ some x) ⊎ IsIn x xs
  IsIn-push x none xs h = inr h
  IsIn-push x (some y) xs (inl e) = inl (ap some (sym e))
  IsIn-push x (some y) xs (inr h) = inr h

  pub IsIn-push_first : (x : A) (o : Option A) (xs : List A) → o ≡ some x → IsIn x (push o xs)
  IsIn-push_first x o xs e = rw e (inl refl)

  pub IsIn-push_rest : (x : A) (o : Option A) (xs : List A) → IsIn x xs → IsIn x (push o xs)
  IsIn-push_rest x none xs h = h
  IsIn-push_rest x (some y) xs h = inr h

module _ {A B : Type 0} where
  -- A loop that pushes what `f` gives for each item.
  abbrev pub filter_map : (A → Option B) → List A → List B
  filter_map f [] = []
  filter_map f (x ∷ xs) = push (f x) (filter_map f xs)

  -- A loop that pushes all of what `f` gives for each item.
  abbrev pub flat_map : (A → List B) → List A → List B
  flat_map f [] = []
  flat_map f (x ∷ xs) = f x ++ flat_map f xs

  pub IsIn-filter_map :
      (f : A → Option B) (y : B) (xs : List A)
      → IsIn y (filter_map f xs) ↔ ((x : A) × IsIn x xs × (f x ≡ some y))
  IsIn-filter_map f y xs = (out xs, into xs)
    where
      out : (xs : List A) → IsIn y (filter_map f xs) → (x : A) × IsIn x xs × (f x ≡ some y)
      out [] h = absurd h
      out (x ∷ xs) h = elim (IsIn-push y (f x) (filter_map f xs) h) [
        | inl e ↦ (x, inl refl, e)
        | inr r ↦ let (z, i, e) = out xs r in (z, inr i, e)
      ]

      into : (xs : List A) → ((x : A) × IsIn x xs × (f x ≡ some y)) → IsIn y (filter_map f xs)
      into [] (x, h, e) = absurd h
      into (z ∷ xs) (x, inl s, e) = IsIn-push_first y (f z) (filter_map f xs) (ap f (sym s) ∙ e)
      into (z ∷ xs) (x, inr h, e) = IsIn-push_rest y (f z) (filter_map f xs) (into xs (x, h, e))

  pub IsIn-flat_map :
      (f : A → List B) (y : B) (xs : List A)
      → IsIn y (flat_map f xs) ↔ ((x : A) × IsIn x xs × IsIn y (f x))
  IsIn-flat_map f y xs = (out xs, into xs)
    where
      out : (xs : List A) → IsIn y (flat_map f xs) → (x : A) × IsIn x xs × IsIn y (f x)
      out [] h = absurd h
      out (x ∷ xs) h = elim (IsIn-append y (f x) (flat_map f xs) h) [
        | inl e ↦ (x, inl refl, e)
        | inr r ↦ let (z, i, e) = out xs r in (z, inr i, e)
      ]

      into : (xs : List A) → ((x : A) × IsIn x xs × IsIn y (f x)) → IsIn y (flat_map f xs)
      into [] (x, h, e) = absurd h
      into (z ∷ xs) (x, inl s, e) = IsIn-append_left y (f z) (flat_map f xs) (rw (← s) e)
      into (z ∷ xs) (x, inr h, e) = IsIn-append_right y (f z) (flat_map f xs) (into xs (x, h, e))
