-- ===== src/Lib.antt =====
-- Verification of mesh-cni: a CNI for Kubernetes whose agent keeps eBPF maps of services,
-- endpoints, identities and policies, and whose eBPF programs read them.
--
-- How the parts work together. `kube` watches tell the controllers of changes; `reconcile`
-- (Reconcile) makes of an object the endpoints of each service key (MeshEndpoint) and hands them
-- to `ServiceEndpointState` (Service/State), which gives each service an id and writes the maps
-- of services and endpoints, behind caches (Service). The program at `connect4` (Connect4) looks
-- a destination up in the two maps and replaces it by an endpoint. The identities of IP networks
-- (IdentityGen, Identities, Ip) and the policies (Policy, Selector) are kept likewise; the traffic
-- classifier (Conntrack) looks the identities up and tracks connections, which a task of the agent
-- removes in time. The agent loads and pins the programs when it starts (Loader), attaches the
-- classifier to a pod's interface when the plugin (Plugin) asks for it (Pods), and answers the
-- command line with what it holds (Replies).
--
-- Which file models what:
--   Prelude         Boolean tests, lists, `Result` with the `?` operator, hash maps, byte order;
--                   Triple says what a call leaves on `Ok` and on an error
--   Common          mesh-cni-ebpf-common/src: keys, values, protocols and actions
--   BpfMap          mesh-cni/src/bpf/mod.rs: the trait `BpfMap` and its implementations; Laws
--                   states what a client relies on
--   Service         mesh-cni/src/bpf/service/state.rs: `ServiceEndpoint`. `update`, `remove`,
--                   `insert_new_service`, `insert_endpoints` and `delete_endpoints` have the
--                   names of the source; the bodies of its loops are `put_endpoint` and
--                   `drop_endpoint`. Endpoints, Update, Mirror, Distinct and
--                   Listing hold the proofs
--   Service/State   the same file: `ServiceEndpointState`; `update_state`, `remove_state`,
--                   `state_from_cache` and `state_from_map` are its methods. Ids, Faults and
--                   Restart are about the ids, Cached and Refined about the list that the
--                   agent serves
--   Ip              mesh-cni/src/bpf/ip/state.rs and convert.rs: `IpNetworkState`
--   Policy          mesh-cni/src/bpf/policy/state.rs: `PolicyBpfStateInner`
--   Connect4        mesh-cni-service-ebpf/src/service.rs and main.rs; Fresh joins it with Service
--   Conntrack       mesh-cni-policy-ebpf/src; Cleanup is mesh-cni/src/bpf/conntrack.rs,
--                   and Swept about what it removes
--   MeshEndpoint    mesh-cni-crds/src/v1alpha1/meshendpoint.rs
--   Reconcile       mesh-cni-service-bpf-controller/src/controller.rs
--   MeshService     mesh-cni-service-controller/src/controller.rs
--   IdentityGen     mesh-cni-identity-gen-controller/src/controller.rs
--   Plugin          mesh-cni-plugin/src/add.rs, delete.rs, error.rs and response.rs: the commands
--                   `add` and `delete`; Forward is about the chained ones, Command about
--                   config.rs, Types about types.rs, Main about main.rs and the other commands
--   Pods            mesh-cni/src/http/grpc/cni.rs: `add_pod`, `delete_pod` and the functions they
--                   call; Pins is about one link, Links about both of an interface
--   Loader          mesh-cni/src/bpf/loader.rs, with the paths of mesh-cni/src/bpf/mod.rs; Pinned
--                   is about the steps of the start, Start about `init_bpf`
--   Installation    mesh-cni/src/cni.rs, with the configuration of mesh-cni-plugin/src/config.rs:
--                   `ensure_cni_preconditions` and what it calls; Existing is about the existing
--                   configuration, Installed about the one that is written
--   Identities      mesh-cni-identity-controller/src: `reconcile_pod` and `reconcile_node` are the
--                   two functions named `reconcile`; Networks joins them with Ip, and
--                   Classified with the traffic classifier
--   Clusters        mesh-cni-cluster-controller/src/controller.rs and context.rs; Cleaned is about
--                   the clean-up of a deleted cluster
--   Nodes           mesh-cni/src/kubernetes/node.rs; Taints is about the taints that are left
--   Replies         mesh-cni/src/http/grpc/service.rs, conntrack.rs, policy.rs and ip.rs
--   Selector        mesh-cni-policy-controller/src/selector.rs
--   Tests           the theorems at concrete inputs
--
-- How state is modelled. A method on `&mut self` is a function from the state to a result and
-- the new state (`Proc`); a `?` that stops half-way leaves what was written before it. A method
-- that takes a lock holds it to its end, so calls on a shared state are steps one after the
-- other. A hash map is an association list, in whose order the source's iterations run. Words
-- are natural numbers, and what wraps in a release build is reduced by `% 2 ^ w`. All loops are
-- over lists or count down to zero, so no fuel is needed; the loop that draws an id runs over a
-- list of draws, and ends if one of them is free.
--
-- What is a parameter. The kernel's maps (`BpfMap`, `AyaMap`, `LruMap`, `CtMap`), with the laws
-- that a call that succeeds changes one entry and one that fails changes none; the calls of aya
-- and of the file system in the loader, in the agent's CNI service and in the installation
-- (`Kernel`, `Tc`, `FileSystem`), with the laws that each changes only the path it is given; the
-- crate `ipnetwork` (`NetworkLib`); the nodes of the API server (`NodeApi`); label selectors, the
-- parsing of addresses, the stores and the finalizer of `kube`; JSON and SHA-256; the printing of
-- addresses (`Display`); what standard output takes of the plugin; the agent's
-- answers to the plugin; the packet that `ctx.load` reads; the clock and the random numbers.
--
-- Two limits of these laws. An LPM trie is taken to keep its entries by key, as a map does. That
-- is so of keys of full length, which are all that the controllers make (`ip_net`), and of shorter
-- ones whose host bits are zero; the kernel holds two keys that differ in host bits only for one
-- entry, and the code masks none. In the plugin `Runtime::new().unwrap()` is taken not to panic.
--
-- What is not modelled: the opening of pinned maps, the transport of the network servers, the
-- command line with its tables, logs and metrics, which are input and output; the watches of
-- `kube`, and the tasks that start them; the schemas and the code that the build generates; the
-- controller of policies, which computes what it selects and writes nothing.
pub mod Prelude
pub mod Common
pub mod BpfMap
pub mod Service
pub mod Ip
pub mod Connect4
pub mod Conntrack
pub mod MeshEndpoint
pub mod Policy
pub mod Reconcile
pub mod MeshService
pub mod Selector
pub mod IdentityGen
pub mod Tests
pub mod Plugin
pub mod Pods
pub mod Loader
pub mod Identities
pub mod Clusters
pub mod Nodes
pub mod Replies
pub mod Installation
