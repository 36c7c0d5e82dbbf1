-- ===== src/Installation/Existing.antt =====
-- Which file of the directory the installation takes for the existing configuration.
use mesh_cni.Installation.{
  conflist_name, extension, has_extension, other_file, existing_files, first_with, existing_file,
}
use mesh_cni.Prelude.Order.{text_le, text_le_total, IsIn-sort, IsSorted, sort-IsSorted}
use mesh_cni.Prelude.Result.{Result, ok, err}
use mesh_cni.Prelude.{
  String, List, [], ◌∷◌, Option, some, none, true, ◌≡◌, ◌≢◌, refl, sym, ap, ◌∙◌, ◌↔◌, inl, inr,
  Bool-cases, IsIn, IsIn-filter_map, filter_map,
}
use text.Mathlib.TextEquality.{eq_iff}
use text.Mathlib.Text.{◌==◌ as str_eq}

has_extension_iff : (e : String) (o : Option String) → (has_extension e o ≡ true) ↔ (o ≡ some e)
has_extension_iff e none = (λ h. cc, λ h. cc)
has_extension_iff e (some f) =
    (λ h. ap some ((eq_iff f e).0 h), λ h. (eq_iff f e).1 (let q : f ≡ e = cc in q))

-- The first file with an extension, or that there is none.
abbrev First : String → List String → Option String → Type 0
First e xs (some f) =
    IsIn f xs
    × (extension f ≡ some e)
    × ((g : String) → IsIn g xs → extension g ≡ some e → text_le f g ≡ true)
First e xs none = (g : String) → IsIn g xs → extension g ≢ some e

text_le_self : (s : String) → text_le s s ≡ true
text_le_self s = elim (text_le_total s s) [ inl h ↦ h | inr h ↦ h ]

first_with-First : (e : String) (xs : List String) → IsSorted xs → First e xs (first_with e xs)
unfolding first_with
first_with-First e [] h = λ g i q. absurd i
first_with-First e (x ∷ xs) (least, h) = elim (Bool-cases (has_extension e (extension x))) [
  | inl a ↦
      rw (a, first_with)
        (
          inl refl,
          (has_extension_iff e (extension x)).0 a,
          λ g i q. elim i [ inl same ↦ rw same (text_le_self x) | inr j ↦ least g j ],
        )
  | inr a ↦
      let not_x : extension x ≢ some e =
        λ q. let b = (has_extension_iff e (extension x)).1 q in cc in
      rw (a, first_with) (later not_x (first_with e xs) (first_with-First e xs h))
]
  where
    later : extension x ≢ some e → (o : Option String) → First e xs o → First e (x ∷ xs) o
    later not_x none none_of =
        λ g i q. elim i [ inl same ↦ not_x (ap extension (sym same) ∙ q) | inr j ↦ none_of g j q ]
    later not_x (some f) (i, q, first) = (
      inr i,
      q,
      λ g j p. elim j [
        | inl same ↦ absurd (not_x (ap extension (sym same) ∙ p))
        | inr k ↦ first g k p
      ],
    )

-- The files that may be taken: not the agent's own.
abbrev pub Available : List (Result String) → String → String → Type 0
Available entries e f = IsIn (ok f) entries × (f ≢ conflist_name) × (extension f ≡ some e)

other_file_iff :
    (r : Result String) (f : String) → (other_file r ≡ some f) ↔ ((r ≡ ok f) × (f ≢ conflist_name))
unfolding other_file
other_file_iff (err e) f = (λ h. absurd (cc), λ h. absurd (let q = h.0 in cc))
other_file_iff (ok name) f = elim (Bool-cases (str_eq name conflist_name)) [
  | inl own ↦ rw own (
    λ h. absurd (cc),
    λ (q, differ).
        absurd (let same : name ≡ f = cc in differ (sym same ∙ (eq_iff name conflist_name).0 own)),
  )
  | inr other ↦ rw other (
    λ h.
        let same : name ≡ f = cc in
        (ap ok same, λ q. let own = (eq_iff name conflist_name).1 (same ∙ q) in cc),
    λ (q, differ). let same : name ≡ f = cc in ap some same,
  )
]

IsIn-existing_files :
    (f : String) (entries : List (Result String))
    → IsIn f (existing_files entries) ↔ (IsIn (ok f) entries × (f ≢ conflist_name))
unfolding existing_files
IsIn-existing_files f entries =
    let (out, into) = IsIn-sort f (filter_map other_file entries) in
    let (from, to) = IsIn-filter_map other_file f entries in
    (
      λ h.
          let (r, i, q) = from (out h) in
          let (same, differ) = (other_file_iff r f).0 q in (rw (← same) i, differ),
      λ (i, differ). into (to (ok f, i, (other_file_iff (ok f) f).1 (refl, differ))),
    )

-- A `.conflist` before a `.conf`, and of several the first in the order of their names.
pub data Chosen (entries : List (Result String)) : Option String → Type 0 where
  conflist :
      {f : String}
      → Available entries "conflist" f
      → ((g : String) → Available entries "conflist" g → text_le f g ≡ true)
      → Chosen entries (some f)
  conf :
      {f : String}
      → ((g : String) → ¬ Available entries "conflist" g)
      → Available entries "conf" f
      → ((g : String) → Available entries "conf" g → text_le f g ≡ true)
      → Chosen entries (some f)
  nothing :
      ((g : String) → ¬ Available entries "conflist" g)
      → ((g : String) → ¬ Available entries "conf" g)
      → Chosen entries none

-- The file that is taken, of any listing of the directory, is never the agent's own. It is the
-- first `.conflist` in the order of the names; where there is none, the first `.conf`; and there
-- is none only where the directory has neither.
pub existing_file-Chosen : (entries : List (Result String)) → Chosen entries (existing_file entries)
unfolding existing_file existing_files
existing_file-Chosen entries = go (first_with "conflist" files) (of "conflist")
  where
    files : List String
    files = existing_files entries

    of : (e : String) → First e files (first_with e files)
    of e = first_with-First e files (sort-IsSorted (filter_map other_file entries))

    out : (e f : String) → IsIn f files → extension f ≡ some e → Available entries e f
    out e f i q = let (j, differ) = (IsIn-existing_files f entries).0 i in (j, differ, q)

    into : (e f : String) → Available entries e f → IsIn f files
    into e f (i, differ, q) = (IsIn-existing_files f entries).1 (i, differ)

    no_conflist :
        First "conflist" files none → (o : Option String) → First "conf" files o → Chosen entries o
    no_conflist none_of (some f) (i, q, first) =
        Chosen.conf (λ g a. none_of g (into "conflist" g a) (a.2)) (out "conf" f i q)
          (λ g a. first g (into "conf" g a) (a.2))
    no_conflist none_of none no_conf =
        Chosen.nothing (λ g a. none_of g (into "conflist" g a) (a.2))
          (λ g a. no_conf g (into "conf" g a) (a.2))

    go :
        (o : Option String)
        → First "conflist" files o
        → Chosen entries (elim o [ some f ↦ some f | none ↦ first_with "conf" files ])
    go (some f) (i, q, first) =
        Chosen.conflist (out "conflist" f i q) (λ g a. first g (into "conflist" g a) (a.2))
    go none none_of = no_conflist none_of (first_with "conf" files) (of "conf")
