-- ===== src/Tests.antt =====
-- The theorems at concrete inputs: a service at 10.0.0.1:80 over TCP with two endpoints, another
-- at 10.0.0.2, and the hash map of the process in place of the kernel's maps.
mod Fixture
mod Services
mod Ids
mod Connects
mod Commands
mod Nets
mod Replies
mod Installs
mod Mains
mod Clusters
mod Nodes
mod Ips
mod Assigned
mod Links
mod Starts
mod Connections
mod Meshes
mod Policies
mod Reconciles
mod Identities
