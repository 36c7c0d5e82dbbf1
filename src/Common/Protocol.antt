-- ===== src/Common/Protocol.antt =====
-- mesh-cni-ebpf-common/src/lib.rs: the protocols that Kubernetes names.
use text.Mathlib.Text.{◌==◌ as str_eq}
use mesh_cni.Prelude.{ℕ, String, ◌==◌, ◌||◌, if◌then◌else◌}
use mesh_cni.Prelude.Result.{Result, ok, err}

pub data KubeProtocol : Type 0 where
  tcp udp sctp : KubeProtocol

unfoldable pub KubeProtocol-discrete : Discrete KubeProtocol
KubeProtocol-discrete = hlevel

-- `as u8`
unfoldable pub protocol_number : KubeProtocol → ℕ
protocol_number KubeProtocol.tcp = 6
protocol_number KubeProtocol.udp = 17
protocol_number KubeProtocol.sctp = 132

abbrev pub protocol_error : String
protocol_error = "Protocol provided is not a valid kube protocol. Only TCP, UDP, or SCTP allowed"

-- `TryFrom<&str>`
unfoldable pub protocol_of_str : String → Result KubeProtocol
protocol_of_str value =
    if str_eq value "TCP" || (str_eq value "tcp" || str_eq value "Tcp")
    then ok KubeProtocol.tcp
    else if str_eq value "UDP" || (str_eq value "udp" || str_eq value "Udp")
    then ok KubeProtocol.udp
    else if str_eq value "SCTP" || (str_eq value "sctp" || str_eq value "Sctp")
    then ok KubeProtocol.sctp
    else err protocol_error

-- `TryFrom<u32>`
unfoldable pub protocol_of_u32 : ℕ → Result KubeProtocol
protocol_of_u32 value =
    if value == 6
    then ok KubeProtocol.tcp
    else if value == 17
    then ok KubeProtocol.udp
    else if value == 132
    then ok KubeProtocol.sctp
    else err protocol_error

-- `Display`
unfoldable pub protocol_to_string : KubeProtocol → String
protocol_to_string KubeProtocol.tcp = "TCP"
protocol_to_string KubeProtocol.udp = "UDP"
protocol_to_string KubeProtocol.sctp = "SCTP"
