-- ===== src/Common/Policy.antt =====
-- mesh-cni-ebpf-common/src/policy.rs: the policy map's key, value and actions.
use mesh_cni.Prelude.{ℕ, String, ◌==◌, if◌then◌else◌, ℕ_discrete}
use mesh_cni.Prelude.HashMap.{Key}

pub record PolicyKey : Type 0 where
  pub src_id : ℕ
  pub dst_id : ℕ
  pub dst_port : ℕ
  pub proto : ℕ
  pub pad : ℕ

pub record PolicyValue : Type 0 where
  pub action : ℕ

pub data Action : Type 0 where
  allow deny : Action

pub data PolicyProtocol : Type 0 where
  any tcp udp sctp unknown : PolicyProtocol

-- `as u8`
unfoldable pub action_number : Action → ℕ
action_number Action.allow = 0
action_number Action.deny = 1

unfoldable pub action_of_u8 : ℕ → Action
action_of_u8 value = if value == 0 then Action.allow else Action.deny

unfoldable pub policy_protocol_number : PolicyProtocol → ℕ
policy_protocol_number PolicyProtocol.any = 0
policy_protocol_number PolicyProtocol.tcp = 6
policy_protocol_number PolicyProtocol.udp = 17
policy_protocol_number PolicyProtocol.sctp = 132
policy_protocol_number PolicyProtocol.unknown = 255

unfoldable pub policy_protocol_of_u8 : ℕ → PolicyProtocol
policy_protocol_of_u8 value =
    if value == 0
    then PolicyProtocol.any
    else if value == 6
    then PolicyProtocol.tcp
    else if value == 17
    then PolicyProtocol.udp
    else if value == 132
    then PolicyProtocol.sctp
    else PolicyProtocol.unknown

unfoldable pub action_to_string : Action → String
action_to_string Action.allow = "ALLOW"
action_to_string Action.deny = "DENY"

unfoldable pub policy_protocol_to_string : PolicyProtocol → String
policy_protocol_to_string PolicyProtocol.any = "ANY"
policy_protocol_to_string PolicyProtocol.tcp = "TCP"
policy_protocol_to_string PolicyProtocol.udp = "UDP"
policy_protocol_to_string PolicyProtocol.sctp = "SCTP"
policy_protocol_to_string PolicyProtocol.unknown = "UNKNOWN"

unfoldable pub PolicyKey-discrete : Discrete PolicyKey
PolicyKey-discrete = hlevel ℕ_discrete

unfoldable pub PolicyValue-discrete : Discrete PolicyValue
PolicyValue-discrete = hlevel ℕ_discrete

instance abbrev pub policy_key_eq : Key PolicyKey
policy_key_eq = record { same = PolicyKey-discrete }

instance abbrev pub policy_value_eq : Key PolicyValue
policy_value_eq = record { same = PolicyValue-discrete }
