-- ===== src/Agent.antt =====
-- The node agent (agent/pkg): the API types, and the reconcilers of its two resources.
pub mod Types
pub mod Run
pub mod Playbook
pub mod Checksum
pub mod Deployment
pub mod Validation
