-- ===== src/Tests/Commands.antt =====
-- The commands of the plugin on a previous result with three interfaces, one in a sandbox.
use mesh_cni.Plugin.{Agent, Interface, Args, Success, AddPodRequest, AddPodReply, DeletePodRequest}
use mesh_cni.Prelude.{String, [], ◌∷◌, Option, some, none}
use mesh_cni.Prelude.Result.{Result, ok, err}

abbrev interface : String → Option String → Interface
interface name sandbox = record {
  name = name;
  mac = none;
  mtu = none;
  sandbox = sandbox;
  socket_path = none;
  pci_id = none;
}

abbrev previous : Success String String
previous = record {
  cni_version = "0.4.0";
  interfaces =
      interface "veth0" none
      ∷ interface "eth0" (some "/run/netns/pod")
      ∷ interface "veth1" none
      ∷ [];
  ips = [];
  routes = [];
  dns = none;
  custom = [];
}

abbrev read_previous : String → Result (Success String String)
read_previous value = ok previous

-- the agent takes one request
abbrev one_answer : {Req Reply : Type 0} → Reply → Agent Req Reply
one_answer reply [] q = ok reply
one_answer reply (p ∷ sent) q = err "down"

abbrev adds : Agent AddPodRequest AddPodReply
adds = one_answer (record { interfaces = []; ips = []; routes = []; dns = none })

abbrev deletes : Agent DeletePodRequest (Unit {0})
deletes = one_answer tt

abbrev args : Args
args = record { container_id = "c1"; net_ns = some (some "/run/netns/pod"); ifname = "eth0" }
