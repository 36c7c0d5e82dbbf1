-- ===== src/Tests/Starts.antt =====
-- The agent's start on a machine whose calls all succeed.
use mesh_cni.Loader.Pinned.{IsKernel, Pinned}
use mesh_cni.Loader.Start.{init_bpf-Pinned, objects}
use mesh_cni.Loader.{
  Kernel, Loaded, Removed, path, init_bpf, pins_exist, all_exist, load_and_pin, reset_pins,
  after_removal, ensure_pin_dirs, attach_cgroup_connect_bpf_program, load_unless_loaded,
  check_loaded, to_fd_link, pin_maps, if_exists, or_missing, ensure_ingress_program,
  start_ebpf_logger, start_ebpf_logger_from_prog_id, name,
}
use mesh_cni.Pods.Pins.{write}
use mesh_cni.Prelude.{String, Bool, true, false, some, ◌≡◌, refl, Bool-cases, inl, inr}
use mesh_cni.Prelude.Result.{ok}
use text.Mathlib.Text.{◌==◌ as str_eq}
use text.Mathlib.TextEquality.{eq_iff}

abbrev Files : Type 0
Files = String → Bool

abbrev machine :
    Kernel Files
      (Unit {0})
      (Unit {0})
      (Unit {0})
      (Unit {0})
      (Unit {0})
      (Unit {0})
      (Unit {0})
      (Unit {0})
machine = record {
  exists = λ s p. ok (s p);
  remove_dir_all = λ p s. (Removed.removed, λ q. false);
  create_dir_all = λ p s. (ok tt, s);
  open_file = λ p s. (ok tt, s);
  load = λ o s. (ok tt, s);
  map_mut = λ e n. some tt;
  pin_map = λ m p s. (ok tt, write p true s);
  program_mut = λ e n. some tt;
  as_sock_addr = λ p. ok tt;
  as_classifier = λ p. ok tt;
  load_program = λ p s. (Loaded.loaded, s);
  pin_program = λ m p s. (ok tt, write p true s);
  attach = λ p f s. (ok tt, s);
  take_link = λ p i s. (ok tt, s);
  fd_link = λ l. ok tt;
  pin_link = λ l p s. (ok tt, write p true s);
  sock_addr_from_pin = λ p s. (ok tt, s);
  classifier_from_pin = λ p s. (ok tt, s);
  info_id = λ p. ok 7;
  logger_from_id = λ i s. (ok tt, s);
  async_fd = λ l. ok tt;
}

write-true : (p q : String) (s : Files) → s q ≡ true → write p true s q ≡ true
write-true p q s h = elim (Bool-cases (str_eq q p)) [ inl e ↦ rw e | inr e ↦ rw e h ]

write_self : (p : String) (s : Files) → write p true s p ≡ true
write_self p s = let e = (eq_iff p p).1 refl in rw e

exists_ok : (b c : Bool) → ok b ≡ ok c → b ≡ c
exists_ok b c h = cc

abbrev machine-IsKernel : IsKernel machine
machine-IsKernel = record {
  view = λ s. s;
  exists_view = λ s p b h. exists_ok (s p) b h;
  create_Keeps = λ q d s h. h;
  open_Keeps = λ q d s h. h;
  load_Keeps = λ q o s h. h;
  load_program_Keeps = λ q p s h. h;
  attach_Keeps = λ q p f s h. h;
  take_Keeps = λ q p i s h. h;
  pin_link_Keeps = λ q l p s h. write-true p q s h;
  pin_map_Keeps = λ q m p s h. write-true p q s h;
  pin_map_ok = λ m p s h. write_self p s;
  pin_program_Keeps = λ q m p s h. write-true p q s h;
  pin_program_ok = λ m p s h. write_self p s;
  sock_addr_quiet = λ p s. refl;
  classifier_quiet = λ p s. refl;
  logger_quiet = λ i s. refl;
}

-- a file of an earlier start
abbrev leftover : Files
leftover = write "/sys/fs/bpf/mesh/maps/policy" true (λ q. false)

starts : (init_bpf machine leftover).0 ≡ ok tt
unfolding init_bpf pins_exist all_exist load_and_pin reset_pins after_removal ensure_pin_dirs
    attach_cgroup_connect_bpf_program load_unless_loaded check_loaded to_fd_link pin_maps if_exists
    or_missing ensure_ingress_program start_ebpf_logger start_ebpf_logger_from_prog_id name path
starts = refl

init_bpf-Pinned_example : Pinned machine-IsKernel objects (init_bpf machine leftover).1
init_bpf-Pinned_example = init_bpf-Pinned machine-IsKernel leftover starts
