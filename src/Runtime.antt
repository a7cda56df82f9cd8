-- ===== src/Runtime.antt =====
-- pkg/singularity/runtime: the state of a container (sync.go), the commands to the OCI engine
-- (client_oci.go), and the host that they run on.
pub mod State
pub mod Host
pub mod Client
pub mod Observe
pub mod BuildConfig
