-- ===== src/Tests/Installs.antt =====
-- The installation in a directory where another plugin appears during the first sleep.
use mesh_cni.Installation.Existing.{Chosen, existing_file-Chosen}
use mesh_cni.Installation.Installed.{IsFileSystem, Made, prepared, ensure_cni_preconditions-Made}
use mesh_cni.Installation.{
  PluginConfig, Config, AgentArgs, FileSystem, Json, conflist_name, path_in, after_last_dot,
  extension, other_file, existing_files, first_with, existing_file, get_existing_conflist,
  existing_conf, default_cni_config, update_cni_conf, ensure_cni_log_dir, ensure_cni_conf,
  ensure_cni_bin, conf_of, ensure_cni_preconditions,
}
use mesh_cni.Prelude.Order.{sort, insert}
use mesh_cni.Prelude.Result.{Result, ok, err}
use mesh_cni.Prelude.{
  ℕ, String, List, [], ◌∷◌, Option, some, none, Bool, true, ◌≡◌, ◌≢◌, refl, sym, inl, inr,
  Bool-cases, if◌then◌else◌, map,
}
use text.Mathlib.TextEquality.{eq_iff}
use text.Mathlib.Text.{◌==◌ as str_eq}

abbrev Conf : Type 0
Conf = Config ℕ Bool

record Disk : Type 0 where
  names : List String
  content : String → Option Conf

abbrev put : String → Option Conf → (String → Option Conf) → String → Option Conf
put p v files q = if str_eq q p then v else files q

abbrev of_file : Option Conf → Result Conf
of_file (some c) = ok c
of_file none = err "No such file or directory"

abbrev calico : Conf
calico = record {
  cni_version = 4;
  cni_versions = [];
  name = "k8s-pod-network";
  disable_check = none;
  disable_gc = none;
  load_only_inlined_plugins = none;
  plugins = record { plugin_type = "calico"; options = [] } ∷ [];
}

abbrev disk : FileSystem Disk String Conf
disk = record {
  create_dir_all = λ d s. (ok tt, s);
  copy = λ a b s. (ok tt, s);
  set_permissions = λ p m s. (ok tt, s);
  read_dir = λ s d. ok (map ok s.names);
  read = λ s p. of_file (s.content p);
  open_truncated = λ p s. (ok p, record s { content = put p none s.content });
  write_all = λ p b s. (ok tt, record s { content = put p (some b) s.content });
  sleep = λ s. record {
    names = "10-calico.conflist" ∷ ("05-mesh.conflist" ∷ []);
    content = put "/etc/cni/net.d/10-calico.conflist" (some calico) s.content;
  };
}

abbrev json : Json Conf ℕ Bool
json = record { from_slice = ok; to_vec_pretty = ok; bool = λ b. b; new_version = λ a b c. b }

put_self : (p : String) (v : Option Conf) (files : String → Option Conf) → put p v files p ≡ v
put_self p v files = let e : str_eq p p ≡ true = (eq_iff p p).1 refl in rw e

put_other :
    (p q : String) (v : Option Conf) (files : String → Option Conf)
    → q ≢ p
    → put p v files q ≡ files q
put_other p q v files differ = elim (Bool-cases (str_eq q p)) [
  | inl e ↦ absurd (differ ((eq_iff q p).0 e))
  | inr e ↦ rw e
]

disk-IsFileSystem : IsFileSystem disk
disk-IsFileSystem = record {
  view = λ s. s.content;
  path_of = λ p. p;
  opened = λ p s file h. let q : p ≡ file = cc in sym q;
  open_other = λ p q s differ. put_other p q none s.content differ;
  written = λ p b s h. put_self p (some b) s.content;
  write_other = λ p b q s differ. put_other p q (some b) s.content differ;
}

abbrev args : AgentArgs
args = record {
  cni_bin_dir = "/opt/cni/bin";
  cni_conf_dir = "/etc/cni/net.d";
  cni_plugin_log_dir = "/var/log/mesh-cni";
  cni_plugin_bin = "/app/mesh-cni-plugin";
  chained = true;
}

abbrev bare : Disk
bare = record { names = []; content = λ q. none }

installing : Unit {0}
unfolding after_last_dot extension other_file existing_files first_with existing_file
    get_existing_conflist existing_conf default_cni_config update_cni_conf ensure_cni_log_dir
    ensure_cni_conf ensure_cni_bin conf_of ensure_cni_preconditions sort insert
installing = tt

abbrev after : Disk
after = (ensure_cni_preconditions disk json args bare).1

installed : (ensure_cni_preconditions disk json args bare).0 ≡ ok tt
unfolding installing
installed = refl

own_file :
    map
      (λ (p : PluginConfig Bool). p.plugin_type)
      (elim (after.content "/etc/cni/net.d/05-mesh.conflist") [ some c ↦ c.plugins | none ↦ [] ])
    ≡ "calico" ∷ ("mesh-cni" ∷ [])
unfolding installing
own_file = refl

ensure_cni_preconditions-Made_example :
    (bytes : Conf) × (v : Disk) × Made disk json args (prepared disk json args bare) bytes v
    × (disk-IsFileSystem.view after (path_in "/etc/cni/net.d" conflist_name) ≡ some bytes)
    × ((q : String)
        → q ≢ path_in "/etc/cni/net.d" conflist_name
        → disk-IsFileSystem.view after q ≡ disk-IsFileSystem.view v q)
ensure_cni_preconditions-Made_example =
    ensure_cni_preconditions-Made disk json disk-IsFileSystem args bare installed

abbrev listing : List (Result String)
listing =
    ok "99-loopback.conf"
    ∷ (ok "20-cilium.conflist" ∷ (ok "05-mesh.conflist" ∷ (ok "10-calico.conflist" ∷ [])))

first_conflist : existing_file listing ≡ some "10-calico.conflist"
unfolding installing
first_conflist = refl

no_hidden : existing_file (ok ".conf" ∷ (ok "conflist" ∷ [])) ≡ none
unfolding installing
no_hidden = refl

existing_file-Chosen_example : Chosen listing (existing_file listing)
existing_file-Chosen_example = existing_file-Chosen listing
