-- ===== src/Plugin/Messages.antt =====
-- mesh-cni-api/proto/cni/v1/types.proto and cni.proto: what the plugin and the agent exchange; and
-- the success of mesh-cni-plugin/src/response.rs.
use mesh_cni.Prelude.{ℕ, String, List, Option, Bool}
use mesh_cni.Prelude.HashMap.{HashMap}

pub record Interface : Type 0 where
  pub name : String
  pub mac : Option String
  pub mtu : Option ℕ
  pub sandbox : Option String
  pub socket_path : Option String
  pub pci_id : Option String

pub record Ip : Type 0 where
  pub address : String
  pub gateway : String
  pub iface : Option ℕ

pub record Route : Type 0 where
  pub dst : String
  pub gw : Option String
  pub mtu : Option ℕ
  pub advmss : Option ℕ
  pub priority : Option ℕ
  pub table : Option ℕ
  pub scope : Option ℕ

pub record Dns : Type 0 where
  pub nameservers : List String
  pub domain : Option String
  pub search : List String
  pub options : List String

pub record AddPodRequest : Type 0 where
  pub iface : String
  pub net_namespace : Option String
  pub container_id : String
  pub chained : Bool

pub record DeletePodRequest : Type 0 where
  pub iface : String
  pub net_namespace : Option String
  pub container_id : String
  pub chained : Bool

pub record AddPodReply : Type 0 where
  pub interfaces : List Interface
  pub ips : List Ip
  pub routes : List Route
  pub dns : Option Dns

pub record Success (Version Value : Type 0) : Type 0 where
  pub cni_version : Version
  pub interfaces : List Interface
  pub ips : List Ip
  pub routes : List Route
  pub dns : Option Dns
  pub custom : HashMap String Value
