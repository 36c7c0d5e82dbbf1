-- ===== src/Installation.antt =====
-- mesh-cni/src/cni.rs: the installation of the plugin, with the configuration of
-- mesh-cni-plugin/src/config.rs. The file system is the parameter `FileSystem`, the crate
-- serde_json the parameter `Json`; a path is its text, a directory one that ends without a slash.
pub mod Existing
pub mod Installed
use Prim.Native.Char.{Char}
use Prim.Native.String.{◌++◌ as append, [] as empty, ◌∷◌ as cons}
use mesh_cni.Prelude.Order.{sort}
use mesh_cni.Prelude.HashMap
use mesh_cni.Prelude.HashMap.{HashMap}
use mesh_cni.Prelude.Result.{Result, ok, err, Proc, ◌>>=◌, ◌>>◌, lift, and_then}
use mesh_cni.Prelude.{
  ℕ, zero, suc, String, List, [], ◌∷◌, ◌++◌, Option, some, none, Bool, true, false, not, ◌&&◌,
  if◌then◌else◌, filter_map,
}
use text.Mathlib.Text.{◌==◌ as str_eq}

pub record PluginConfig (Value : Type 0) : Type 0 where
  -- the field `type`
  pub plugin_type : String
  pub options : HashMap String Value

pub record Config (Version Value : Type 0) : Type 0 where
  pub cni_version : Version
  pub cni_versions : List Version
  pub name : String
  pub disable_check : Option Bool
  pub disable_gc : Option Bool
  pub load_only_inlined_plugins : Option Bool
  pub plugins : List (PluginConfig Value)

-- The fields that the installation reads.
pub record AgentArgs : Type 0 where
  pub cni_bin_dir : String
  pub cni_conf_dir : String
  pub cni_plugin_log_dir : String
  pub cni_plugin_bin : String
  pub chained : Bool

-- The calls of `std::fs`, and what other programs do during a sleep.
pub record FileSystem (S File Bytes : Type 0) : Type 0 where
  pub create_dir_all : String → Proc S (Unit {0})
  pub copy : String → String → Proc S (Unit {0})
  pub set_permissions : String → ℕ → Proc S (Unit {0})
  -- the names of the entries
  pub read_dir : S → String → Result (List (Result String))
  pub read : S → String → Result Bytes
  -- `open` that creates the file or truncates it
  pub open_truncated : String → Proc S File
  pub write_all : File → Bytes → Proc S (Unit {0})
  pub sleep : S → S

pub record Json (Bytes Version Value : Type 0) : Type 0 where
  pub from_slice : Bytes → Result (Config Version Value)
  pub to_vec_pretty : Config Version Value → Result Bytes
  pub bool : Bool → Value
  pub new_version : ℕ → ℕ → ℕ → Version

abbrev pub conflist_name : String
conflist_name = "05-mesh.conflist"

abbrev max_attempts : ℕ
max_attempts = 3

abbrev pub path_in : String → String → String
path_in dir file = append dir (append "/" file)

-- The text after the last dot.
unfoldable pub after_last_dot : String → Option String
after_last_dot empty = none
after_last_dot (cons c s) = elim (after_last_dot s) [
  | some t ↦ some t
  | none ↦ if str_eq (cons c empty) "." then some s else none
]

-- `Path::extension` of a file's name: a dot in front does not count. A directory lists no `..`.
unfoldable pub extension : String → Option String
extension empty = none
extension (cons c s) = after_last_dot s

abbrev pub has_extension : String → Option String → Bool
has_extension e none = false
has_extension e (some f) = str_eq f e

unfoldable pub other_file : Result String → Option String
other_file (ok name) = if str_eq name conflist_name then none else some name
other_file (err e) = none

-- The files of `get_existing_conflist` in the order of their paths.
unfoldable pub existing_files : List (Result String) → List String
existing_files entries = sort (filter_map other_file entries)

unfoldable pub first_with : String → List String → Option String
first_with e [] = none
first_with e (f ∷ rest) =
    let later = first_with e rest in if has_extension e (extension f) then some f else later

unfoldable pub existing_file : List (Result String) → Option String
existing_file entries = elim (first_with "conflist" (existing_files entries)) [
  | some f ↦ some f
  | none ↦ first_with "conf" (existing_files entries)
]

module _ {S File Bytes Version Value : Type 0} (fs : FileSystem S File Bytes)
    (json : Json Bytes Version Value) where
  unfoldable pub get_existing_conflist : String → S → Result Bytes
  get_existing_conflist dir s = and_then (fs.read_dir s dir) λ entries.
      elim (existing_file entries) [
        | some f ↦ fs.read s (path_in dir f)
        | none ↦ err "existing conflist/conf file not found"
      ]

  -- The loop of `ensure_cni_preconditions`, with `left` attempts after the next one.
  unfoldable pub existing_conf : ℕ → String → Proc S Bytes
  existing_conf zero dir s = (get_existing_conflist dir s, s)
  existing_conf (suc left) dir s = elim (get_existing_conflist dir s) [
    | ok c ↦ (ok c, s)
    | err e ↦ existing_conf left dir (fs.sleep s)
  ]

  abbrev pub cni_version : Version
  cni_version = json.new_version 0 4 0

  unfoldable pub default_cni_config : Result Bytes
  default_cni_config = json.to_vec_pretty (record {
    cni_version = cni_version;
    cni_versions = cni_version ∷ [];
    name = "mesh-cni";
    disable_check = none;
    disable_gc = none;
    load_only_inlined_plugins = none;
    plugins = [];
  })

  abbrev pub mesh_plugin : PluginConfig Value
  mesh_plugin = record { plugin_type = "mesh-cni"; options = ("chained", json.bool true) ∷ [] }

  abbrev pub with_mesh : Config Version Value → Config Version Value
  with_mesh conf = record conf { plugins = conf.plugins ++ (mesh_plugin ∷ []) }

  unfoldable pub update_cni_conf : Bytes → Result Bytes
  update_cni_conf bytes =
      and_then (json.from_slice bytes) λ conf. json.to_vec_pretty (with_mesh conf)

  unfoldable pub ensure_cni_log_dir : String → Proc S (Unit {0})
  ensure_cni_log_dir dst = fs.create_dir_all dst

  unfoldable pub ensure_cni_conf : String → Bytes → Proc S (Unit {0})
  ensure_cni_conf dir conf = do
    file ← fs.open_truncated (path_in dir conflist_name)
    fs.write_all file conf

  unfoldable pub ensure_cni_bin : String → String → Proc S (Unit {0})
  ensure_cni_bin dst bin_path = do
    fs.copy bin_path (path_in dst "mesh-cni")
    fs.set_permissions (path_in dst "mesh-cni") 0o755

  unfoldable pub conf_of : AgentArgs → Proc S Bytes
  conf_of args s =
      (if args.chained
          then (existing_conf max_attempts args.cni_conf_dir >>= λ existing.
              lift (update_cni_conf existing))
          else lift default_cni_config)
        s

  unfoldable pub ensure_cni_preconditions : AgentArgs → Proc S (Unit {0})
  ensure_cni_preconditions args = do
    ensure_cni_log_dir args.cni_plugin_log_dir
    ensure_cni_bin args.cni_bin_dir args.cni_plugin_bin
    conf ← conf_of args
    ensure_cni_conf args.cni_conf_dir conf
