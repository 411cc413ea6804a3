-- ===== src/Scenarios.antt =====
-- Tests, and the theorems at concrete inputs.
mod Library
mod Conditions
mod Agent
mod Deployment
mod Prober
mod Provider
mod AgentGroup
mod Remote
mod RemotePlaybook
mod RemoteDeployment
mod Validation
mod Machine
mod Cluster
mod RemoteAgent
mod ClientCache
