-- ===== src/Agent.antt =====
-- host-agent/src: the agent on a host, which runs the commands that it takes from the control plane.
pub mod Payload
pub mod Firecracker
pub mod Executor
pub mod Poll
pub mod Config
pub mod Join
pub mod Preflight
