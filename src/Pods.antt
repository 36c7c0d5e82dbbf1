-- ===== src/Pods.antt =====
-- mesh-cni/src/http/grpc/cni.rs: the agent's answers to the plugin, which attach the classifier to
-- both directions of an interface and pin the links. The kernel behind aya is the parameter `Tc`;
-- of a path only its text counts.
pub mod Pins
pub mod Links
use mesh_cni.Loader.{bpf_mesh_links_dir, bpf_program_ingress_tc, path}
use mesh_cni.Plugin.{AddPodRequest, DeletePodRequest, AddPodReply}
use mesh_cni.Prelude.{String, List, [], ◌∷◌, none, Bool, true, false}
use mesh_cni.Prelude.Result.{Result, ok, err, Proc, pure, fail, ◌>>=◌, ◌>>◌, lift}
use Prim.Native.String.{◌++◌ as append}

-- The enum of aya; what its `Custom` holds is not read.
pub data TcAttachType : Type 0 where
  ingress egress custom : TcAttachType

-- What `PinnedLink::from_pin` finds, its error for a missing file apart from the others.
pub data FromPin (Pinned : Type 0) : Type 0 where
  found : Pinned → FromPin Pinned
  not_found : FromPin Pinned
  failed : String → FromPin Pinned

-- The calls of aya and of the file system, on a kernel of type `S`.
pub record Tc (S Prog LinkId Link FdLink Pinned : Type 0) : Type 0 where
  pub qdisc_add_clsact : String → Proc S (Unit {0})
  pub classifier_from_pin : String → Proc S Prog
  pub attach : Prog → String → TcAttachType → Proc S LinkId
  pub take_link : Prog → LinkId → Proc S Link
  pub fd_link : Link → Result FdLink
  pub pin : FdLink → String → Proc S (Unit {0})
  pub try_exists : S → String → Result Bool
  pub from_pin : S → String → FromPin Pinned
  pub unpin : Pinned → Proc S (Unit {0})

abbrev mesh_ingress_link_prefix : String
mesh_ingress_link_prefix = "mesh_cni_ingress_"

abbrev suffix : TcAttachType → String
suffix TcAttachType.ingress = "_ingress"
suffix TcAttachType.egress = "_egress"
suffix TcAttachType.custom = "_custom"

unfoldable pub pin_path : String → TcAttachType → String
pin_path iface attach_type =
    append bpf_mesh_links_dir
      (append "/" (append mesh_ingress_link_prefix (append iface (suffix attach_type))))

module _ {S Prog LinkId Link FdLink Pinned : Type 0}
    (tc : Tc S Prog LinkId Link FdLink Pinned) where
  unfoldable pub attach_and_pin_links : String → String → TcAttachType → Proc S (Unit {0})
  attach_and_pin_links iface path attach_type = do
    prog ← tc.classifier_from_pin path
    link_id ← tc.attach prog iface attach_type
    link ← tc.take_link prog link_id
    link ← lift (tc.fd_link link)
    tc.pin link (pin_path iface attach_type)

  unfoldable pub unpin_found : FromPin Pinned → Proc S (Unit {0})
  unpin_found (FromPin.found link) = tc.unpin link
  unpin_found FromPin.not_found = pure tt
  unpin_found (FromPin.failed e) = fail e

  unfoldable pub unpin_existing : String → Result Bool → Proc S (Unit {0})
  unpin_existing path (ok true) = λ s. unpin_found (tc.from_pin s path) s
  unpin_existing path (ok false) = pure tt
  unpin_existing path (err e) = fail e

  unfoldable pub unpin_path : String → Proc S (Unit {0})
  unpin_path path s = unpin_existing path (tc.try_exists s path) s

  -- `add_pod` after the ingress link: where the egress link fails, both paths are unpinned, and
  -- what that returns is only logged.
  unfoldable pub after_egress : String → Result (Unit {0}) × S → Result AddPodReply × S
  after_egress iface (ok _, s) =
      (ok (record { interfaces = []; ips = []; routes = []; dns = none }), s)
  after_egress iface (err e, s) =
      let s1 = (unpin_path (pin_path iface TcAttachType.ingress) s).1 in
      (err e, (unpin_path (pin_path iface TcAttachType.egress) s1).1)

  unfoldable pub add_pod : AddPodRequest → Proc S AddPodReply
  add_pod request s =
      let s1 = (tc.qdisc_add_clsact request.iface s).1 in
      (attach_and_pin_links request.iface (path bpf_program_ingress_tc) TcAttachType.ingress
          >> λ s2. after_egress request.iface (
              attach_and_pin_links request.iface (path bpf_program_ingress_tc) TcAttachType.egress
                s2))
        s1

  unfoldable pub delete_pod : DeletePodRequest → Proc S (Unit {0})
  delete_pod request = do
    unpin_path (pin_path request.iface TcAttachType.ingress)
    unpin_path (pin_path request.iface TcAttachType.egress)
