-- ===== src/Provider/KubeforceMachine/AgentRef.antt =====
-- cluster-api-provider-kubeforce/controllers/kubeforcemachine_controller.go: how a machine gets its
-- agent.
use kubeforce.Base.{
  String, Bool, not, ◌&&◌, Option, none, some, List, [], ◌∷◌, StringMap, lookup, insert, str_eq,
  str_append, if◌then◌else◌,
}
use kubeforce.Api.{Error, failure, text}
use kubeforce.Provider.Types.{Answer, Agent}
use kubeforce.Provider.Handler.{
  return, done, fail, on_error, ◌>>=◌, ◌>>◌, get_object, modify, tell, when, check,
}
use kubeforce.Provider.Remote.{ConditionOps, is_ready, assign_label}
use kubeforce.Provider.Template.{text_or_empty}
use kubeforce.Provider.Playbook.Delete.{seconds, wait_for_agent}
use kubeforce.Provider.KubeforceMachine.{
  KubeforceMachine, updated_agent, binding, Env, machine_label, Action, with_status, mark_true,
  mark_false,
}

-- `labels[key]`.
abbrev pub label : String → StringMap String → String
label key labels = text_or_empty (lookup key labels)

abbrev pub agent_failed : {A : Type 0} → Env → Error → Action A
agent_failed env e = do
  mark_false env "AgentProvisioned" "AgentProvisioningFailed" "Error" (text e)
  fail e

abbrev waiting : Env → String → Action (Unit {0})
waiting env message = do
  mark_false env "AgentProvisioned" "WaitingForAgent" "Info" message
  return (seconds 10) none

abbrev wrong_label : Env → KubeforceMachine → Agent → Error
wrong_label env m a = failure (
    str_append (env.template.quote machine_label) (
      str_append " label has the wrong value found: " (
        str_append (env.template.quote (label machine_label a.metadata.labels))
          (str_append " expected: " (env.template.quote m.metadata.name)))))

-- The agent of the reference.
unfoldable pub check_agent : Env → String → Action (Unit {0})
check_agent env name = do
  m ← get_object
  a ← on_error (env.get_agent binding (m.metadata.namespace, name)) (agent_failed env)
  when (not (str_eq (label machine_label a.metadata.labels) m.metadata.name))
      (agent_failed env (wrong_label env m a))
  when (not (is_ready env.conds a)) (waiting env wait_for_agent)
  mark_true env "AgentProvisioned"
  done

abbrev pub set_ref : String → KubeforceMachine → KubeforceMachine
set_ref name m = with_status (λ s. record s { agent_ref = some name }) m

abbrev pub is_free : ConditionOps → Agent → Bool
is_free conds a = str_eq (label machine_label a.metadata.labels) "" && is_ready conds a

unfoldable pub find_agent : (Agent → Bool) → List Agent → Option Agent
find_agent f [] = none
find_agent f (a ∷ agents) = let rest = find_agent f agents in if f a then some a else rest

abbrev pub with_labels : StringMap String → Agent → Agent
with_labels labels a = record a { metadata = record a.metadata { labels = labels } }

-- The labels of an agent after the second assignment.
abbrev pub cluster_labelled : Env → KubeforceMachine → StringMap String → StringMap String
cluster_labelled env m labels =
    insert env.template.cluster_name_label (label env.template.cluster_name_label m.metadata.labels)
      labels

unfoldable pub take_agent : Env → Agent → Action (Unit {0})
take_agent env a = do
  m ← get_object
  labels ← on_error (assign_label a.metadata.labels machine_label m.metadata.name) fail
  let a' : Agent = with_labels (cluster_labelled env m labels) a
  tell (updated_agent a')
  check (env.update_agent a') (agent_failed env)
  modify (set_ref a.metadata.name)
  return (seconds 1) none

abbrev pub on_free : Env → Option Agent → Action (Unit {0})
on_free env none = waiting env "no free agent"
on_free env (some a) = take_agent env a

unfoldable pub agents_by_selector : Env → String → String → Answer (List Agent)
agents_by_selector env namespace selector = env.list_selected namespace selector

unfoldable pub find_free_agent : Env → String → Action (Unit {0})
find_free_agent env selector_text = do
  m ← get_object
  selector ← on_error (env.label_selector selector_text) (agent_failed env)
  agents ← on_error (agents_by_selector env m.metadata.namespace selector) (agent_failed env)
  on_free env (find_agent (is_free env.conds) agents)

abbrev pub blocked_by : Env → KubeforceMachine → Answer (List Agent)
blocked_by env m = env.list_agents m.metadata.namespace ((machine_label, m.metadata.name) ∷ [])

-- The agents that are labelled with the machine, though no reference is stored.
abbrev pub on_blocked : Env → String → List Agent → Action (Unit {0})
on_blocked env selector [] = find_free_agent env selector
on_blocked env selector (a ∷ []) = do modify (set_ref a.metadata.name); return (seconds 1) none
on_blocked env selector (a ∷ b ∷ others) = do
  m ← get_object
  agent_failed env (
      failure (
        str_append "more than one agent found by label "
          (str_append machine_label (str_append "=" m.metadata.name))))

abbrev pub bind_agent : Env → String → Option String → Action (Unit {0})
bind_agent env selector (some name) = check_agent env name
bind_agent env selector none = do
  m ← get_object
  blocked ← on_error (blocked_by env m) fail
  on_blocked env selector blocked

abbrev pub on_selector : Env → Option String → Option String → Action (Unit {0})
on_selector env ref none = do
  mark_false env "AgentProvisioned" "WaitingForAgent" "Info" ""
  return (seconds 30) none
on_selector env ref (some selector) = bind_agent env selector ref

unfoldable pub reconcile_agent_ref : Env → Action (Unit {0})
reconcile_agent_ref env = do
  m ← get_object
  on_selector env m.status.agent_ref m.spec.agent_selector
