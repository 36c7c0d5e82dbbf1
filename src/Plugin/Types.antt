-- ===== src/Plugin/Types.antt =====
-- mesh-cni-plugin/src/types.rs: the input of the plugin. `Version`, `Value` and `Network` are types
-- of the crates semver, serde_json and ipnetwork.
use mesh_cni.Common.{IpAddr}
use mesh_cni.Prelude.HashMap.{HashMap}
use mesh_cni.Prelude.{ℕ, String, List, Option}

pub record PortMapping : Type 0 where
  pub host_port : ℕ
  pub container_port : ℕ
  pub protocol : String

pub record IpRange (Network : Type 0) : Type 0 where
  pub subnet : Network
  pub range_start : IpAddr
  pub range_end : IpAddr
  pub gateway : IpAddr

pub record Bandwidth : Type 0 where
  pub ingress_rate : Option ℕ
  pub ingress_burst : Option ℕ
  pub egress_rate : Option ℕ
  pub egress_burst : Option ℕ

pub record Dns : Type 0 where
  pub nameservers : List IpAddr
  pub domain : Option String
  pub search : List String
  pub options : List String

pub record RuntimeConfig (Network Value : Type 0) : Type 0 where
  pub port_mappings : Option (List PortMapping)
  pub ip_ranges : List (IpRange Network)
  pub bandwidth : Option Bandwidth
  pub dns : Option Dns
  pub ips : List Network
  pub mac : Option String
  pub infiniband_guid : Option String
  pub device_id : Option String
  pub aliases : List String
  pub other : HashMap String Value

pub record Input (Version Network Value : Type 0) : Type 0 where
  pub cni_version : Version
  pub name : String
  pub runtime_config : Option (RuntimeConfig Network Value)
  pub previous_result : Option Value
