-- ===== src/Common/Service.antt =====
-- mesh-cni-ebpf-common/src/service.rs: the keys and values of the service and endpoint maps.
use mesh_cni.Prelude.{ℕ, ℕ_discrete}
use mesh_cni.Prelude.HashMap.{Key}

pub record ServiceKeyV4 : Type 0 where
  pub ip : ℕ
  pub port : ℕ
  pub protocol : ℕ
  pub pad : ℕ

pub record ServiceKeyV6 : Type 0 where
  pub ip : ℕ
  pub port : ℕ
  pub protocol : ℕ
  pub pad : ℕ

pub data ServiceKey : Type 0 where
  v4 : ServiceKeyV4 → ServiceKey
  v6 : ServiceKeyV6 → ServiceKey

abbrev pub service_key_v4_new : ℕ → ℕ → ℕ → ServiceKeyV4
service_key_v4_new ip port protocol = record { ip = ip; port = port; protocol = protocol; pad = 0 }

abbrev pub service_key_v6_new : ℕ → ℕ → ℕ → ServiceKeyV6
service_key_v6_new ip port protocol = record { ip = ip; port = port; protocol = protocol; pad = 0 }

abbrev pub service_key_v4 : ℕ → ℕ → ℕ → ServiceKey
service_key_v4 ip port protocol = ServiceKey.v4 (service_key_v4_new ip port protocol)

abbrev pub service_key_v6 : ℕ → ℕ → ℕ → ServiceKey
service_key_v6 ip port protocol = ServiceKey.v6 (service_key_v6_new ip port protocol)

pub record ServiceValue : Type 0 where
  pub id : ℕ
  pub count : ℕ

pub record EndpointKey : Type 0 where
  pub id : ℕ
  pub position : ℕ
  pub pad : ℕ

abbrev pub endpoint_key : ℕ → ℕ → EndpointKey
endpoint_key id position = record { id = id; position = position; pad = 0 }

pub record EndpointValueV4 : Type 0 where
  pub ip : ℕ
  pub port : ℕ
  pub protocol : ℕ

pub record EndpointValueV6 : Type 0 where
  pub ip : ℕ
  pub port : ℕ
  pub protocol : ℕ

pub data EndpointValue : Type 0 where
  v4 : EndpointValueV4 → EndpointValue
  v6 : EndpointValueV6 → EndpointValue

unfoldable pub ServiceKeyV4-discrete : Discrete ServiceKeyV4
ServiceKeyV4-discrete = hlevel ℕ_discrete

unfoldable pub ServiceKeyV6-discrete : Discrete ServiceKeyV6
ServiceKeyV6-discrete = hlevel ℕ_discrete

unfoldable pub ServiceKey-discrete : Discrete ServiceKey
ServiceKey-discrete = hlevel ℕ_discrete

unfoldable pub EndpointKey-discrete : Discrete EndpointKey
EndpointKey-discrete = hlevel ℕ_discrete

instance abbrev pub service_key_v4_eq : Key ServiceKeyV4
service_key_v4_eq = record { same = ServiceKeyV4-discrete }

instance abbrev pub service_key_v6_eq : Key ServiceKeyV6
service_key_v6_eq = record { same = ServiceKeyV6-discrete }

instance abbrev pub service_key_eq : Key ServiceKey
service_key_eq = record { same = ServiceKey-discrete }

instance abbrev pub endpoint_key_eq : Key EndpointKey
endpoint_key_eq = record { same = EndpointKey-discrete }

-- What decides the equality of keys when a test runs.
unfoldable pub deciders : Unit {0}
unfolding ServiceKeyV4-discrete ServiceKeyV6-discrete ServiceKey-discrete EndpointKey-discrete
deciders = tt
