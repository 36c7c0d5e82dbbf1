-- ===== src/Loader.antt =====
-- mesh-cni/src/bpf/loader.rs, with the paths of mesh-cni/src/bpf/mod.rs: loading the programs into
-- the kernel and pinning them and their maps, at the agent's start. The kernel, aya and the file
-- system are the parameter `Kernel`; the task that flushes the logger is not modelled.
pub mod Pinned
pub mod Start
use mesh_cni.Prelude.{
  ℕ, String, List, [], ◌∷◌, ◌++◌, Option, some, none, Bool, true, false, if◌then◌else◌,
}
use mesh_cni.Prelude.Result.{Result, ok, err, Proc, pure, fail, ◌>>=◌, ◌>>◌, lift, and_then}
use Prim.Native.String.{◌++◌ as append}

pub data BpfNamePath : Type 0 where
  map : String → BpfNamePath
  program : String → BpfNamePath

abbrev bpf_mesh_fs_dir : String
bpf_mesh_fs_dir = "/sys/fs/bpf/mesh"

abbrev bpf_mesh_maps_dir : String
bpf_mesh_maps_dir = "/sys/fs/bpf/mesh/maps"

abbrev bpf_mesh_prog_dir : String
bpf_mesh_prog_dir = "/sys/fs/bpf/mesh/programs"

abbrev pub bpf_mesh_links_dir : String
bpf_mesh_links_dir = "/sys/fs/bpf/mesh/links"

abbrev bpf_link_cgroup_connect_v4_path : String
bpf_link_cgroup_connect_v4_path = "/sys/fs/bpf/mesh/links/mesh_cni_cgroup_connect4"

abbrev cgroup_sys_dir : String
cgroup_sys_dir = "/sys/fs/cgroup"

-- `BpfNamePath::name`
unfoldable pub name : BpfNamePath → String
name (BpfNamePath.map n) = n
name (BpfNamePath.program n) = n

-- `BpfNamePath::path`
unfoldable pub path : BpfNamePath → String
path (BpfNamePath.map n) = append bpf_mesh_maps_dir (append "/" n)
path (BpfNamePath.program n) = append bpf_mesh_prog_dir (append "/" n)

abbrev pub bpf_program_ingress_tc : BpfNamePath
bpf_program_ingress_tc = BpfNamePath.program "mesh_cni_ingress"

abbrev pub bpf_program_cgroup_connect_v4 : BpfNamePath
bpf_program_cgroup_connect_v4 = BpfNamePath.program "mesh_cni_cgroup_connect4"

abbrev pub policy_maps_list : List BpfNamePath
policy_maps_list =
    BpfNamePath.map "identity_v4"
    ∷ BpfNamePath.map "identity_v6"
    ∷ BpfNamePath.map "conntrack_v4"
    ∷ BpfNamePath.map "policy"
    ∷ []

abbrev pub service_maps_list : List BpfNamePath
service_maps_list =
    BpfNamePath.map "services_v4"
    ∷ BpfNamePath.map "services_v6"
    ∷ BpfNamePath.map "endpoints_v4"
    ∷ BpfNamePath.map "endpoints_v6"
    ∷ []

abbrev pub prog_list : List BpfNamePath
prog_list = bpf_program_cgroup_connect_v4 ∷ bpf_program_ingress_tc ∷ []

pub data Object : Type 0 where
  mesh_cni_service mesh_cni_policy : Object

-- `fs::remove_dir_all`, a directory that is not there apart from the other errors.
pub data Removed : Type 0 where
  removed : Removed
  not_found : Removed
  failed : String → Removed

-- The `load` of a program.
pub data Loaded : Type 0 where
  loaded : Loaded
  already_loaded : Loaded
  failed : String → Loaded

pub record Kernel (S Ebpf MapData Prog File LinkId Link FdLink Logger : Type 0) : Type 0 where
  pub exists : S → String → Result Bool
  pub remove_dir_all : String → S → Removed × S
  pub create_dir_all : String → Proc S (Unit {0})
  pub open_file : String → Proc S File
  pub load : Object → Proc S Ebpf
  pub map_mut : Ebpf → String → Option MapData
  pub pin_map : MapData → String → Proc S (Unit {0})
  pub program_mut : Ebpf → String → Option Prog
  pub as_sock_addr : Prog → Result Prog
  pub as_classifier : Prog → Result Prog
  pub load_program : Prog → S → Loaded × S
  pub pin_program : Prog → String → Proc S (Unit {0})
  pub attach : Prog → File → Proc S LinkId
  pub take_link : Prog → LinkId → Proc S Link
  pub fd_link : Link → Result FdLink
  pub pin_link : FdLink → String → Proc S (Unit {0})
  pub sock_addr_from_pin : String → Proc S Prog
  pub classifier_from_pin : String → Proc S Prog
  pub info_id : Prog → Result ℕ
  pub logger_from_id : ℕ → Proc S Logger
  pub async_fd : Logger → Result (Unit {0})

module _ {S Ebpf MapData Prog File LinkId Link FdLink Logger : Type 0}
    (k : Kernel S Ebpf MapData Prog File LinkId Link FdLink Logger) where
  unfoldable pub start_ebpf_logger_from_prog_id : ℕ → Proc S (Unit {0})
  start_ebpf_logger_from_prog_id id = k.logger_from_id id >>= λ logger. lift (k.async_fd logger)

  unfoldable pub start_ebpf_logger : Proc S (Unit {0})
  start_ebpf_logger = do
    cgroup_prog ← k.sock_addr_from_pin (path bpf_program_cgroup_connect_v4)
    id ← lift (k.info_id cgroup_prog)
    start_ebpf_logger_from_prog_id id
    ingress ← k.classifier_from_pin (path bpf_program_ingress_tc)
    id ← lift (k.info_id ingress)
    start_ebpf_logger_from_prog_id id

  -- `if fs::exists(path)? { … } else { … }`
  unfoldable pub if_exists : {A : Type 0} → String → Proc S A → Proc S A → Proc S A
  if_exists p yes_case no_case s =
      (lift (k.exists s p) >>= λ found. if found then yes_case else no_case) s

  unfoldable pub or_missing : {A : Type 0} → Option A → String → Proc S A
  or_missing (some a) message = pure a
  or_missing none message = fail message

  unfoldable pub pin_maps : Ebpf → List BpfNamePath → Proc S (Unit {0})
  pin_maps ebpf [] = pure tt
  pin_maps ebpf (object ∷ rest) =
      if_exists (path object)
        (fail (append "pinned object " (append (path object) " already exists")))
        (or_missing (k.map_mut ebpf (name object))
            (append "map " (append (name object) " not found"))
          >>= λ m. k.pin_map m (path object))
      >> pin_maps ebpf rest

  unfoldable pub ensure_pin_dirs : Proc S (Unit {0})
  ensure_pin_dirs = do
    k.create_dir_all bpf_mesh_maps_dir
    k.create_dir_all bpf_mesh_prog_dir
    k.create_dir_all bpf_mesh_links_dir

  -- Both loops of `pins_exist`, over the paths in order.
  unfoldable pub all_exist : List BpfNamePath → S → Result Bool
  all_exist [] s = ok true
  all_exist (object ∷ rest) s =
      and_then (k.exists s (path object)) λ found. if found then all_exist rest s else ok false

  unfoldable pub pins_exist : S → Result Bool
  pins_exist s =
      and_then (all_exist (service_maps_list ++ policy_maps_list) s)
        λ found. if found then all_exist prog_list s else ok false

  unfoldable pub after_removal : Removed × S → Result (Unit {0}) × S
  after_removal (Removed.removed, s) = ensure_pin_dirs s
  after_removal (Removed.not_found, s) = ensure_pin_dirs s
  after_removal (Removed.failed e, s) = (err e, s)

  unfoldable pub reset_pins : Proc S (Unit {0})
  reset_pins s = after_removal (k.remove_dir_all bpf_mesh_fs_dir s)

  -- `if let Err(e) = program.load() && !matches!(e, AlreadyLoaded)`
  unfoldable pub check_loaded : Loaded × S → Result (Unit {0}) × S
  check_loaded (Loaded.loaded, s) = (ok tt, s)
  check_loaded (Loaded.already_loaded, s) = (ok tt, s)
  check_loaded (Loaded.failed e, s) = (err e, s)

  unfoldable pub load_unless_loaded : Prog → Proc S (Unit {0})
  load_unless_loaded prog s = check_loaded (k.load_program prog s)

  unfoldable pub ensure_ingress_program : Ebpf → Proc S (Unit {0})
  ensure_ingress_program ebpf = if_exists (path bpf_program_ingress_tc) (pure tt) do
    prog ←
        or_missing (k.program_mut ebpf (name bpf_program_ingress_tc))
          (append "failed to get program " (name bpf_program_ingress_tc))
    ingress ← lift (k.as_classifier prog)
    load_unless_loaded ingress
    if_exists (path bpf_program_ingress_tc) (pure tt)
        (k.pin_program ingress (path bpf_program_ingress_tc))

  -- `try_into().map_err(…)`
  unfoldable pub to_fd_link : Result FdLink → Result FdLink
  to_fd_link (ok link) = ok link
  to_fd_link (err e) = err (append "failed to create fdlink from cgroup attachment link: " e)

  unfoldable pub attach_cgroup_connect_bpf_program : Ebpf → Proc S (Unit {0})
  attach_cgroup_connect_bpf_program ebpf = do
    prog ←
        or_missing (k.program_mut ebpf (name bpf_program_cgroup_connect_v4))
          (append "failed to load program " (name bpf_program_cgroup_connect_v4))
    prog ← lift (k.as_sock_addr prog)
    load_unless_loaded prog
    cgroup ← k.open_file cgroup_sys_dir
    link_id ← k.attach prog cgroup
    k.pin_program prog (path bpf_program_cgroup_connect_v4)
    link ← k.take_link prog link_id
    link ← lift (to_fd_link (k.fd_link link))
    k.pin_link link bpf_link_cgroup_connect_v4_path

  -- `init_bpf` where some pin is missing.
  unfoldable pub load_and_pin : Proc S (Unit {0})
  load_and_pin = do
    reset_pins
    service_ebpf ← k.load Object.mesh_cni_service
    attach_cgroup_connect_bpf_program service_ebpf
    pin_maps service_ebpf service_maps_list
    policy_ebpf ← k.load Object.mesh_cni_policy
    ensure_ingress_program policy_ebpf
    pin_maps policy_ebpf policy_maps_list
    start_ebpf_logger

  unfoldable pub init_bpf : Proc S (Unit {0})
  init_bpf s =
      (lift (pins_exist s) >>= λ found. if found then start_ebpf_logger else load_and_pin) s
