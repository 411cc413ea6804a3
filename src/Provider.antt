-- ===== src/Provider.antt =====
-- cluster-api-provider-kubeforce: the reconcilers that keep the playbooks and the agents of the
-- management cluster.
pub mod Types
pub mod Handler
pub mod Remote
pub mod Template
pub mod Names
pub mod AgentGroup
pub mod Playbook
pub mod Deployment
pub mod Call
pub mod KubeforceAgent
pub mod KubeforceMachine
pub mod KubeforceCluster
pub mod ClientCache
