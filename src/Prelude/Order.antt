-- ===== src/Prelude/Order.antt =====
-- The order of texts by their characters, and sorting by it.
use Prim.Native.Char.{Char, code}
use Prim.Native.Nat.{ℕ, Ordering, ◌<◌, compare as compare_ℕ}
use Prim.Native.String.{String, [] as empty, ◌∷◌ as cons, compare, then as before}
use Prim.Native.String.compare
use mathlib.Core.Bool.{Bool, true, false}
use mathlib.Core.List.{List, [], ◌∷◌}
use mathlib.Core.Logic.{◌⊎◌, ◌↔◌, inl, inr}
use mathlib.Core.Path.{◌≡◌, refl, sym, ap, ◌∙◌}
use mesh_cni.Prelude.Lists.{IsIn}
use mesh_cni.Prelude.Tests.{if◌then◌else◌, Bool-cases}
use native.Mathlib.Omega.{arith, compare-lt, compare-eq, compare-gt}
use text.Mathlib.Text.{is_le}

abbrev pub text_le : String → String → Bool
text_le s t = is_le (compare s t)

-- The order of two texts by their first characters' numbers and the rest.
step_out :
    (m n : ℕ) (o c : Ordering)
    → compare_ℕ m n ≡ c
    → is_le (before c o) ≡ true
    → (m < n) ⊎ ((m ≡ n) × (is_le o ≡ true))
step_out m n o Ordering.lt e h = inl (compare-lt m n e)
step_out m n o Ordering.eq e h = inr (compare-eq m n e, h)
step_out m n o Ordering.gt e h = cc

step_in :
    (m n : ℕ) (o c : Ordering)
    → compare_ℕ m n ≡ c
    → (m < n) ⊎ ((m ≡ n) × (is_le o ≡ true))
    → is_le (before c o) ≡ true
step_in m n o Ordering.lt e h = refl
step_in m n o Ordering.eq e (inl h) =
    let q : m ≡ n = compare-eq m n e in absurd (omega (arith, q, h))
step_in m n o Ordering.eq e (inr (_, h)) = h
step_in m n o Ordering.gt e (inl h) =
    let q : n < m = compare-gt m n e in absurd (omega (arith, q, h))
step_in m n o Ordering.gt e (inr (h, _)) =
    let q : n < m = compare-gt m n e in absurd (omega (arith, q, h))

empty-le : (d : Char) (t : String) → text_le empty (cons d t) ≡ true
empty-le d t = ap is_le (compare.nil-cons d t)

not_le-empty : (c : Char) (s : String) → text_le (cons c s) empty ≡ false
not_le-empty c s = ap is_le (compare.cons-nil c s)

cons_le :
    (c d : Char) (s t : String)
    → (code c < code d) ⊎ ((code c ≡ code d) × (text_le s t ≡ true))
    → text_le (cons c s) (cons d t) ≡ true
cons_le c d s t h =
    ap is_le (compare.cons-cons c d s t) ∙ step_in (code c) (code d) (compare s t) _ refl h

le_cons :
    (c d : Char) (s t : String)
    → text_le (cons c s) (cons d t) ≡ true
    → (code c < code d) ⊎ ((code c ≡ code d) × (text_le s t ≡ true))
le_cons c d s t h =
    step_out (code c) (code d) (compare s t) _ refl (sym (ap is_le (compare.cons-cons c d s t)) ∙ h)

abbrev Heads : (m n : ℕ) → Type 0
Heads m n = (m < n) ⊎ ((m ≡ n) ⊎ (n < m))

order-Heads : (m n : ℕ) (c : Ordering) → compare_ℕ m n ≡ c → Heads m n
order-Heads m n Ordering.lt e = inl (compare-lt m n e)
order-Heads m n Ordering.eq e = inr (inl (compare-eq m n e))
order-Heads m n Ordering.gt e = inr (inr (compare-gt m n e))

pub text_le_total : (s t : String) → (text_le s t ≡ true) ⊎ (text_le t s ≡ true)
text_le_total empty empty = inl refl
text_le_total empty (cons d t) = inl (empty-le d t)
text_le_total (cons c s) empty = inr (empty-le c s)
text_le_total (cons c s) (cons d t) = elim (order-Heads (code c) (code d) _ refl) [
  | inl h ↦ inl (cons_le c d s t (inl h))
  | inr (inl e) ↦ elim (text_le_total s t) [
    | inl h ↦ inl (cons_le c d s t (inr (e, h)))
    | inr h ↦ inr (cons_le d c t s (inr (sym e, h)))
  ]
  | inr (inr h) ↦ inr (cons_le d c t s (inl h))
]

pub text_le_trans : (s t u : String) → text_le s t ≡ true → text_le t u ≡ true → text_le s u ≡ true
text_le_trans empty t empty p q = refl
text_le_trans empty t (cons e u) p q = empty-le e u
text_le_trans (cons c s) empty u p q = let n = not_le-empty c s in cc
text_le_trans (cons c s) (cons d t) empty p q = let n = not_le-empty d t in cc
text_le_trans (cons c s) (cons d t) (cons e u) p q = cons_le c e s u (elim (le_cons c d s t p) [
  | inl h ↦ elim (le_cons d e t u q) [
    | inl g ↦ inl (omega (arith, h, g))
    | inr (g, _) ↦ inl (omega (arith, h, g))
  ]
  | inr (h, a) ↦ elim (le_cons d e t u q) [
    | inl g ↦ inl (omega (arith, h, g))
    | inr (g, b) ↦ inr (h ∙ g, text_le_trans s t u a b)
  ]
])

-- Insertion keeps the order of equal texts.
unfoldable pub insert : String → List String → List String
insert x [] = x ∷ []
insert x (y ∷ ys) = let rest = insert x ys in if text_le x y then x ∷ (y ∷ ys) else y ∷ rest

unfoldable pub sort : List String → List String
sort [] = []
sort (x ∷ xs) = insert x (sort xs)

pub IsIn-insert : (x z : String) (ys : List String) → IsIn z (insert x ys) ↔ ((z ≡ x) ⊎ IsIn z ys)
unfolding insert
IsIn-insert x z [] = (λ h. h, λ h. h)
IsIn-insert x z (y ∷ ys) = elim (Bool-cases (text_le x y)) [
  | inl e ↦ rw e (λ h. h, λ h. h)
  | inr e ↦ rw e (
    λ h. elim h [
      | inl q ↦ inr (inl q)
      | inr i ↦ elim ((IsIn-insert x z ys).0 i) [ inl q ↦ inl q | inr j ↦ inr (inr j) ]
    ],
    λ h. elim h [
      | inl q ↦ inr ((IsIn-insert x z ys).1 (inl q))
      | inr (inl q) ↦ inl q
      | inr (inr j) ↦ inr ((IsIn-insert x z ys).1 (inr j))
    ],
  )
]

pub IsIn-sort : (z : String) (xs : List String) → IsIn z (sort xs) ↔ IsIn z xs
unfolding sort
IsIn-sort z [] = (λ h. h, λ h. h)
IsIn-sort z (x ∷ xs) =
    let (out, into) = IsIn-insert x z (sort xs) in
    (
      λ h. elim (out h) [ inl q ↦ inl q | inr i ↦ inr ((IsIn-sort z xs).0 i) ],
      λ h. into (elim h [ inl q ↦ inl q | inr i ↦ inr ((IsIn-sort z xs).1 i) ]),
    )

abbrev pub IsSorted : List String → Type 0
IsSorted [] = Unit
IsSorted (x ∷ xs) = ((y : String) → IsIn y xs → text_le x y ≡ true) × IsSorted xs

insert-IsSorted : (x : String) (ys : List String) → IsSorted ys → IsSorted (insert x ys)
unfolding insert
insert-IsSorted x [] h = (λ y i. absurd i, tt)
insert-IsSorted x (y ∷ ys) (least, h) = elim (Bool-cases (text_le x y)) [
  | inl e ↦
      rw e
        (λ z i. elim i [ inl q ↦ rw q e | inr j ↦ text_le_trans x y z e (least z j) ], (least, h))
  | inr e ↦
      let y_x : text_le y x ≡ true = elim (text_le_total x y) [ inl q ↦ absurd (cc) | inr q ↦ q ] in
      rw e (
        λ z i. elim ((IsIn-insert x z ys).0 i) [ inl q ↦ rw q y_x | inr j ↦ least z j ],
        insert-IsSorted x ys h,
      )
]

pub sort-IsSorted : (xs : List String) → IsSorted (sort xs)
unfolding sort
sort-IsSorted [] = tt
sort-IsSorted (x ∷ xs) = insert-IsSorted x (sort xs) (sort-IsSorted xs)
