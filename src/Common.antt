-- ===== src/Common.antt =====
-- mesh-cni-ebpf-common/src: the keys and values of the BPF maps, and the protocol numbers.
-- A word of w bits is a number below 2 ^ w; `[0; n]` padding is a field that the constructors
-- set to 0. `Eq` is the derived one.
mod Service
mod Protocol
mod Policy
mod Conntrack
mod Address
unfoldable pub use Service.*
unfoldable pub use Protocol.*
unfoldable pub use Policy.*
unfoldable pub use Conntrack.*
unfoldable pub use Address.*
