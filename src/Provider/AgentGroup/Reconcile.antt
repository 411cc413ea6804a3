-- ===== src/Provider/AgentGroup/Reconcile.antt =====
-- cluster-api-provider-kubeforce/controllers/kubeforceagentgroup_controller.go: the calls that bring
-- the agents of a group in step, and `Reconcile`.
use kubeforce.Base.{
  ◌%◌, ◌^◌, String, Bool, true, false, not, ◌&&◌, Option, none, some, List, [], ◌∷◌, ◌++◌, ◌==◌,
  StringMap, lookup, length, keep, str_eq, if◌then◌else◌,
}
use kubeforce.Api.{Error, is_not_found, is_deleted}
use kubeforce.Provider.Types.{Answer, ok, failed, panicked, has_changes, Agent}
use kubeforce.Provider.AgentGroup.{
  Group, GroupStatus, Effect, created, deleted, patched, group_patched, Env, agent_group_finalizer,
  agents_in_group, desired_agents, agents_to_map, updated_agent,
}

-- A call that may fail, and its effects.
abbrev pub Call : Type 0
Call = Answer (Unit {0}) × List Effect

abbrev pub called : (Error → Error) → Option Error → Effect → Call
called wrap none e = (ok tt, e ∷ [])
called wrap (some err) e = (failed (wrap err), e ∷ [])

-- One call, then the rest unless it failed.
abbrev pub and_call : Call → Call → Call
and_call (ok tt, es) (a, fs) = (a, es ++ fs)
and_call (failed e, es) rest = (failed e, es)
and_call (panicked, es) rest = (panicked, es)

abbrev pub unwrapped : Error → Error
unwrapped e = e

abbrev pub patch_agent : Env → Agent → Answer Bool → Call
patch_agent env new (ok true) =
    called (env.wrapf "failed to patch KubeforceAgent") (env.patch_answer new) (patched new)
patch_agent env new (ok false) = (ok tt, [])
patch_agent env new (failed e) = (failed e, [])
patch_agent env new panicked = (panicked, [])

unfoldable pub update_agent : Env → Agent → Agent → Call
update_agent env agent desired =
    let new = updated_agent agent desired in
    patch_agent env new (has_changes env.patch_data env.unmarshal env.wrapf agent new)

abbrev pub delete_undesired : Env → Agent → Option Agent → Call
delete_undesired env agent (some d) = (ok tt, [])
delete_undesired env agent none = called unwrapped (env.delete_answer agent) (deleted agent)

unfoldable pub delete_agents : Env → StringMap Agent → List Agent → Call
delete_agents env desired [] = (ok tt, [])
delete_agents env desired (agent ∷ agents) =
    and_call (delete_undesired env agent (lookup agent.metadata.name desired))
      (delete_agents env desired agents)

abbrev pub apply_agent : Env → Agent → Option Agent → Call
apply_agent env desired (some agent) = update_agent env agent desired
apply_agent env desired none =
    called (env.wrapf "unable to create a KubeforceAgent") (env.create_answer desired)
      (created desired)

unfoldable pub apply_agents : Env → StringMap Agent → List Agent → Call
apply_agents env current [] = (ok tt, [])
apply_agents env current (desired ∷ rest) =
    and_call (apply_agent env desired (lookup desired.metadata.name current))
      (apply_agents env current rest)

abbrev pub is_agent_ready : Env → Agent → Bool
is_agent_ready env agent =
    str_eq agent.status.phase "Running"
    && env.is_true agent.status.conditions "Healthy"
    && (agent.status.observed_generation == agent.metadata.generation)

abbrev pub names_of : List Agent → List String
names_of [] = []
names_of (a ∷ agents) = a.metadata.name ∷ names_of agents

-- The status that follows from the agents listed last.
unfoldable pub group_status : Env → Group → List Agent → GroupStatus
group_status env group agents =
    let replicas = length group.spec.addresses % 2 ^ 32 in
    let ready_replicas = length (keep (is_agent_ready env) agents) % 2 ^ 32 in
    let ready = replicas == ready_replicas in
    record {
      is_ready = ready;
      conditions =
          if ready
          then env.mark_true group.status.conditions env.infrastructure_ready
          else env.mark_false group.status.conditions env.infrastructure_ready env.waiting_reason
              "Info"
              (env.waiting_message (names_of (keep (λ a. not (is_agent_ready env a)) agents)));
      replicas = replicas;
      ready_replicas = ready_replicas;
    }

pub record Outcome : Type 0 where
  pub group : Group
  pub answer : Answer (Unit {0})
  pub effects : List Effect

abbrev pub outcome : Group → Answer (Unit {0}) → List Effect → Outcome
outcome g a es = record { group = g; answer = a; effects = es }

abbrev pub report : Env → Group → List Effect → Answer (List Agent) → Outcome
report env group es (ok agents) =
    outcome (record group { status = group_status env group agents }) (ok tt) es
report env group es (failed e) =
    outcome group (failed (env.wrapf "unable to get agents by the group" e)) es
report env group es panicked = outcome group panicked es

abbrev pub applied : Env → Group → Call → Outcome
applied env group (ok tt, es) = report env group es (agents_in_group env es group)
applied env group (failed e, es) = outcome group (failed e) es
applied env group (panicked, es) = outcome group panicked es

abbrev pub reconcile_agents : Env → Group → List Agent → Answer (List Agent) → Outcome
reconcile_agents env group desired (failed e) =
    outcome group (failed (env.wrapf "unable to get agents by the group" e)) []
reconcile_agents env group desired panicked = outcome group panicked []
reconcile_agents env group desired (ok agents) = applied env group (
    and_call (delete_agents env (agents_to_map desired) agents)
      (apply_agents env (agents_to_map agents) desired))

unfoldable pub reconcile_normal : Env → Group → Outcome
reconcile_normal env group = elim (desired_agents env group) [
  | ok desired ↦ reconcile_agents env group desired (agents_in_group env [] group)
  | failed e ↦ outcome group (failed e) []
  | panicked ↦ outcome group panicked []
]

abbrev with_finalizers : List String → Group → Group
with_finalizers fs group = record group { metadata = record group.metadata { finalizers = fs } }

unfoldable pub reconcile_delete : Env → Group → Group
reconcile_delete env group =
    if env.finalizers.contains group.metadata.finalizers agent_group_finalizer
    then with_finalizers (env.finalizers.remove group.metadata.finalizers agent_group_finalizer)
        group
    else group

-- The two finalizers, of which either may be missing.
abbrev pub add_finalizers : Env → Group → Group
add_finalizers env group =
    with_finalizers
      (env.finalizers.add (env.finalizers.add group.metadata.finalizers agent_group_finalizer)
        env.delete_dependents)
      group

abbrev pub has_finalizers : Env → Group → Bool
has_finalizers env group =
    env.finalizers.contains group.metadata.finalizers agent_group_finalizer
    && env.finalizers.contains group.metadata.finalizers env.delete_dependents

-- `patchKubeforceAgentGroup`: the summary of the conditions, then the patch.
unfoldable pub summarized : Env → Group → Group
summarized env group = record group {
  status = record group.status {
    conditions = env.set_summary group.status.conditions (not (is_deleted group.metadata));
  };
}

-- The deferred patch: its error is returned where there is no other.
abbrev pub patch_error : Answer (Unit {0}) → Option Error → Answer (Unit {0})
patch_error (ok tt) (some e) = failed e
patch_error a _ = a

abbrev pub with_group_patch : Env → Outcome → Outcome
with_group_patch env o =
    let g = summarized env o.group in
    outcome g (patch_error o.answer (env.group_patch_answer g))
      (o.effects ++ (group_patched g ∷ []))

unfoldable pub reconcile_found : Env → Group → Outcome
reconcile_found env group =
    if is_deleted group.metadata
    then outcome (reconcile_delete env group) (ok tt) []
    else (if has_finalizers env group
        then reconcile_normal env group
        else outcome (add_finalizers env group) (ok tt) [])

abbrev pub got_error : Error → Answer (Unit {0})
got_error e = if is_not_found e then ok tt else failed e

abbrev pub reconcile_helped : Env → Group → Option Error → Answer (Unit {0}) × List Effect
reconcile_helped env group (some e) = (failed e, [])
reconcile_helped env group none =
    let o = with_group_patch env (reconcile_found env group) in (o.answer, o.effects)

unfoldable pub reconcile : Env → Answer (Unit {0}) × List Effect
reconcile env = elim env.get_answer [
  | ok group ↦ reconcile_helped env group env.new_helper
  | failed e ↦ (got_error e, [])
  | panicked ↦ (panicked, [])
]
