-- ===== src/Plugin/Command.antt =====
-- mesh-cni-plugin/src/config.rs: the command and the arguments that the plugin reads from its
-- environment. A `BTreeMap` is a map whose order is not observed; the crate clap calls the parsers.
pub mod Pairs
use Prim.Native.Char.{Char}
use Prim.Native.String.{[] as empty, ◌∷◌ as cons}
use mesh_cni.Plugin.{Error}
use mesh_cni.Prelude.HashMap
use mesh_cni.Prelude.HashMap.{HashMap, string_key, Key}
use mesh_cni.Prelude.Result.{Result, ok}
use mesh_cni.Prelude.{
  String, List, [], ◌∷◌, Option, some, none, Bool, true, false, ◌⊎◌, inl, inr, if◌then◌else◌, ◌≡◌,
  refl, sym, ◌∙◌,
}
use mathlib.Core.Bool.{true≢false}
use text.Mathlib.TextEquality.{eq_iff}
use text.Mathlib.Text.{◌==◌ as str_eq}

pub data Command : Type 0 where
  add delete check status version gc : Command

-- The text of the error holds `{s}` itself, not the command.
unfoldable pub parse_command : {Version : Type 0} → String → Error Version ⊎ Command
parse_command s =
    if str_eq s "ADD"
    then inr Command.add
    else if str_eq s "DEL"
    then inr Command.delete
    else if str_eq s "CHECK"
    then inr Command.check
    else if str_eq s "STATUS"
    then inr Command.status
    else if str_eq s "VERSION"
    then inr Command.version
    else if str_eq s "GC"
    then inr Command.gc
    else inl (Error.parse "command {s} not supported")

abbrev pub is_char : String → Char → Bool
is_char text c = str_eq (cons c empty) text

-- `split` at each character that is `text`.
abbrev pub prepend : Char → List String → List String
prepend c [] = cons c empty ∷ []
prepend c (s ∷ rest) = cons c s ∷ rest

unfoldable pub split : String → String → List String
split text empty = empty ∷ []
split text (cons c s) =
    let rest = split text s in if is_char text c then empty ∷ rest else prepend c rest

abbrev pub before_it : Char → Option (String × String) → Option (String × String)
before_it c none = none
before_it c (some (k, v)) = some (cons c k, v)

unfoldable pub split_once : String → String → Option (String × String)
split_once text empty = none
split_once text (cons c s) =
    let rest = split_once text s in if is_char text c then some (empty, s) else before_it c rest

-- The loop of `parse_key_value`.
unfoldable pub insert_pairs : List String → HashMap String String → HashMap String String
insert_pairs [] kv = kv
insert_pairs (piece ∷ rest) kv = elim (split_once "=" piece) [
  | some (k, v) ↦ insert_pairs rest (HashMap.insert k v kv)
  | none ↦ insert_pairs rest kv
]

unfoldable pub parse_key_value : String → Result (HashMap String String)
parse_key_value empty = ok []
parse_key_value (cons c s) = ok (insert_pairs (split ";" (cons c s)) [])

-- `_parse_path`
unfoldable pub parse_path : String → Result (List String)
parse_path empty = ok []
parse_path (cons c s) = ok (split ":" (cons c s))
