-- ===== src/Plugin/Command/Pairs.antt =====
-- The arguments that are read back from their text.
use Prim.Native.Char.{Char}
use Prim.Native.String.{[] as empty, ◌∷◌ as cons, ◌++◌ as append}
use text.Mathlib.TextLemmas.{nil-append, cons-append}
use mesh_cni.Plugin.Command.{is_char, split, split_once, insert_pairs, parse_key_value}
use mesh_cni.Prelude.HashMap
use mesh_cni.Prelude.HashMap.{HashMap, string_key}
use mesh_cni.Prelude.Result.{ok}
use mesh_cni.Prelude.{String, List, [], ◌∷◌, some, true, false, ◌≡◌, refl, ap, ◌∙◌, map}

-- A text without a character.
abbrev pub IsFreeOf : String → String → Type 0
IsFreeOf text empty = Unit
IsFreeOf text (cons c s) = (is_char text c ≡ false) × IsFreeOf text s

split-free : (text s : String) → IsFreeOf text s → split text s ≡ s ∷ []
unfolding split
split-free text empty h = refl
split-free text (cons c s) (other, h) = rw (split-free text s h, other, split)

-- `d` is the separator.
split-append :
    (text s t : String) (d : Char)
    → IsFreeOf text s
    → is_char text d ≡ true
    → split text (append s (cons d t)) ≡ s ∷ split text t
unfolding split
split-append text empty t d h e = rw (nil-append (cons d t), split, e)
split-append text (cons c s) t d (other, h) e =
    rw (cons-append c s (cons d t), split, split-append text s t d h e, other)

split_once-append :
    (text k v : String) (d : Char)
    → IsFreeOf text k
    → is_char text d ≡ true
    → split_once text (append k (cons d v)) ≡ some (k, v)
unfolding split_once
split_once-append text empty v d h e = rw (nil-append (cons d v), split_once, e)
split_once-append text (cons c k) v d (other, h) e =
    rw (cons-append c k (cons d v), split_once, split_once-append text k v d h e, other)

IsFreeOf-append :
    (text s t : String) → IsFreeOf text s → IsFreeOf text t → IsFreeOf text (append s t)
IsFreeOf-append text empty t h g = rw (nil-append t) g
IsFreeOf-append text (cons c s) t (other, h) g =
    rw (cons-append c s t) (other, IsFreeOf-append text s t h g)

-- The text of some pairs, as `CNI_ARGS` holds it.
abbrev pub print_pair : String × String → String
print_pair (k, v) = append k (append "=" v)

abbrev pub print_pairs : List (String × String) → String
print_pairs [] = empty
print_pairs (p ∷ []) = print_pair p
print_pairs (p ∷ (q ∷ rest)) = append (print_pair p) (append ";" (print_pairs (q ∷ rest)))

abbrev pub ArePlain : List (String × String) → Type 0
ArePlain [] = Unit
ArePlain ((k, v) ∷ rest) = IsFreeOf ";" k × IsFreeOf "=" k × IsFreeOf ";" v × ArePlain rest

abbrev pub insert_all : List (String × String) → HashMap String String → HashMap String String
insert_all [] kv = kv
insert_all ((k, v) ∷ rest) kv = insert_all rest (HashMap.insert k v kv)

one_char : (d : Char) (v : String) → append (cons d empty) v ≡ cons d v
one_char d v = cons-append d empty v ∙ ap (cons d) (nil-append v)

print_pair-IsFreeOf :
    (k v : String) → IsFreeOf ";" k → IsFreeOf ";" v → IsFreeOf ";" (print_pair (k, v))
print_pair-IsFreeOf k v a b =
    IsFreeOf-append ";" k (append "=" v) a (IsFreeOf-append ";" "=" v (refl, tt) b)

split_once-print_pair :
    (k v : String) → IsFreeOf "=" k → split_once "=" (print_pair (k, v)) ≡ some (k, v)
split_once-print_pair k v h =
    ap (λ t. split_once "=" (append k t)) (one_char "=" v) ∙ split_once-append "=" k v "=" h refl

split-print_pairs :
    (p : String × String) (rest : List (String × String))
    → ArePlain (p ∷ rest)
    → split ";" (print_pairs (p ∷ rest)) ≡ map print_pair (p ∷ rest)
split-print_pairs (k, v) [] (a, _, b, _) =
    split-free ";" (print_pair (k, v)) (print_pair-IsFreeOf k v a b)
split-print_pairs (k, v) (q ∷ rest) (a, _, b, h) =
    ap (λ t. split ";" (append (print_pair (k, v)) t)) (one_char ";" (print_pairs (q ∷ rest)))
    ∙ split-append ";" (print_pair (k, v)) (print_pairs (q ∷ rest)) ";"
        (print_pair-IsFreeOf k v a b) refl
    ∙ ap (λ l. print_pair (k, v) ∷ l) (split-print_pairs q rest h)

insert_pairs-print :
    (l : List (String × String)) (kv : HashMap String String)
    → ArePlain l
    → insert_pairs (map print_pair l) kv ≡ insert_all l kv
unfolding insert_pairs
insert_pairs-print [] kv h = refl
insert_pairs-print ((k, v) ∷ rest) kv (_, b, _, h) =
    rw (split_once-print_pair k v b, insert_pairs)
      (insert_pairs-print rest (HashMap.insert k v kv) h)

parse_key_value-pieces : (s : String) → parse_key_value s ≡ ok (insert_pairs (split ";" s) [])
unfolding parse_key_value split insert_pairs split_once
parse_key_value-pieces empty = refl
parse_key_value-pieces (cons c s) = refl

-- Pairs whose keys have neither separator and whose values have no `;` are read back from their
-- text: the last value of each key is kept.
pub parse_key_value-print_pairs :
    (l : List (String × String))
    → ArePlain l
    → parse_key_value (print_pairs l) ≡ ok (insert_all l [])
unfolding parse_key_value
parse_key_value-print_pairs [] h = refl
parse_key_value-print_pairs (p ∷ rest) h =
    parse_key_value-pieces (print_pairs (p ∷ rest))
    ∙ ap (λ l. ok (insert_pairs l [])) (split-print_pairs p rest h)
    ∙ ap ok (insert_pairs-print (p ∷ rest) [] h)
