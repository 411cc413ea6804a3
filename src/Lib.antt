-- ===== src/Lib.antt =====
-- Verification of Kubeforce: the agent's controllers, which run Ansible playbooks on a host, and
-- the parts of the Cluster API provider that decide what is run and watch the agents.
--
-- The program. A host runs the agent (agent/), a small API server with two controllers: one runs
-- each Playbook, the other keeps the newest Playbook of each PlaybookDeployment in step with its
-- template. Both report through status conditions. The provider
-- (cluster-api-provider-kubeforce/) creates the agents of a group from its addresses, creates the
-- playbooks of a machine from its templates in the order of their priorities, creates each of them
-- on its agent and copies the conditions back, keeps a probe worker for every agent and publishes its
-- results.
--
-- The files.
--   Base              tests, lists, string-keyed maps, machine words and a stable sort
--   Api               errors, object metadata and the finalizer functions of controller-runtime
--   Conditions        agent/pkg/util/conditions: getter.go and setter.go
--   Agent.Types       agent/pkg/apis/agent/v1alpha1 (playbook_types.go, defaults.go) and
--                     getBackoff of agent/pkg/controllers/playbook.go
--   Agent.Run         runPlaybook of agent/pkg/controllers/playbook.go
--   Agent.Playbook    the rest of agent/pkg/controllers/playbook.go: `reconcile` is Reconcile, and
--                     `sync` is its part behind the deferred status patch
--   Agent.Checksum    agent/pkg/util/checksum/checksum.go
--   Agent.Deployment  agent/pkg/controllers/playbookdeployment.go; its child Reconcile has the
--                     handlers
--   Agent.Validation  agent/pkg/apis/agent/validation
--   Prober            cluster-api-provider-kubeforce/controllers/prober: Results is
--                     results_manager.go, Worker is worker.go, Controller is controller.go
--   Provider.Types    cluster-api-provider-kubeforce/api/v1beta1 and pkg/util/patch beside it
--   Provider.Template cluster-api-provider-kubeforce/controllers/playbook/reconciler.go; its children
--                     Create and Reconcile have the rest of it
--   Provider.Names    cluster-api-provider-kubeforce/pkg/util/names/build.go
--   Provider.AgentGroup
--                     cluster-api-provider-kubeforce/controllers/kubeforceagentgroup_controller.go;
--                     its child Reconcile has the handlers
--   Provider.Handler  the monad of a handler of controller-runtime: it changes one object, calls other
--                     code, and may return early or panic
--   Provider.Remote   the conditions of Cluster API, and IsHealthy of
--                     cluster-api-provider-kubeforce/pkg/agent/client.go
--   Provider.Playbook cluster-api-provider-kubeforce/controllers/playbook_controller.go; its children
--                     Delete, Sync and Reconcile have the handlers
--   Provider.Deployment
--                     cluster-api-provider-kubeforce/controllers/playbookdeployment_controller.go; its
--                     children Delete, Sync and Reconcile have the handlers
--   Provider.Call     the monad of a function with a value and an error
--   Provider.KubeforceAgent
--                     cluster-api-provider-kubeforce/controllers/kubeforceagent_controller.go and the
--                     key names of pkg/agent/keys.go; Secrets has the two secrets, Request the
--                     certificate that is asked for, Delete, Install
--                     and Reconcile the handlers, on the agent and on the prober's controller
--   Provider.KubeforceMachine
--                     cluster-api-provider-kubeforce/controllers/kubeforcemachine_controller.go and
--                     controllers/kubeadm; AgentRef binds an agent, Boot makes the boot playbook and
--                     the identifier of the node, Cleanup and Delete delete, Reconcile has the
--                     handlers
--   Provider.KubeforceCluster
--                     cluster-api-provider-kubeforce/controllers/kubeforcecluster_controller.go;
--                     LoadBalancer has what its objects hold, Sync writes them, Steps has their
--                     order, Reconcile the handlers
--   Provider.ClientCache
--                     cluster-api-provider-kubeforce/controllers/agent: client_cache.go,
--                     stoppable_cache.go and cache_reconciler.go, with GetKeys and GetServer of
--                     pkg/agent
--   Scenarios         concrete runs
-- Proofs stand in the child modules, named for what they prove.
--
-- How code becomes definitions. A handler is a function of the environment's answers and of the
-- object; it returns the object as its status patch would leave it, the result and the error,
-- and the list of the effects in their order. The environment is a record: the answers of the
-- API server, of the file system, of the clock and of Ansible. Its functions are arbitrary; laws
-- are stated only for the finalizer functions and the conditions of Cluster API, as their
-- documentation has them. A map is an
-- association list in the order in which it is ranged over; where the code writes to a map that
-- may be nil, nil is a value of its own and the write a panic. The clock stands still within a
-- call of a handler. An int32 and an int are natural numbers below 2 ^ 32 and 2 ^ 64, compared
-- as signed words; times and durations are nanoseconds. The prober's goroutines are interleaved:
-- a step is one critical section or one channel operation, and the channel of 20 updates makes a
-- sender wait. The context of a call is a number that can end between any two operations, and one
-- that derives from it ends with it. Loops are structural recursion, and no definition uses fuel.
--
-- Not modelled. Log lines, metrics, deep copies and generated code; the agent's own API server; the
-- helper that installs an agent over SSH, which is an answer of the environment; the watches that wake
-- the controllers; the provider's webhooks, and the translation of cloud-init documents, whose result
-- is an answer too.
pub mod Base
pub mod Api
pub mod Conditions
pub mod Agent
pub mod Prober
pub mod Provider
mod Scenarios
