-- ===== src/Provider/AgentGroup/Stable.antt =====
-- Repeated updates of an agent by
-- cluster-api-provider-kubeforce/controllers/kubeforceagentgroup_controller.go.
use kubeforce.Base.{◌≡◌, refl, Distinct, merge-merge, [], false}
use kubeforce.Provider.Types.{ok, has_changes, Agent}
use kubeforce.Provider.AgentGroup.{Env, updated_agent}
use kubeforce.Provider.AgentGroup.Reconcile.{update_agent}

updated_agent-updated_agent :
    (agent desired : Agent)
    → Distinct desired.metadata.labels
    → updated_agent (updated_agent agent desired) desired ≡ updated_agent agent desired
updated_agent-updated_agent agent desired d =
    rw (merge-merge desired.metadata.labels agent.metadata.labels d) refl

-- An agent that was updated to a desired agent is not patched again for it, where an object has no
-- changes to itself.
pub update_agent_again :
    (env : Env) (agent desired : Agent)
    → Distinct desired.metadata.labels
    → ((a : Agent) → has_changes env.patch_data env.unmarshal env.wrapf a a ≡ ok false)
    → update_agent env (updated_agent agent desired) desired ≡ (ok tt, [])
unfolding update_agent
update_agent_again env agent desired d same =
    rw (updated_agent-updated_agent agent desired d) (rw (same (updated_agent agent desired)) refl)
