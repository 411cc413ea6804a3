-- ===== src/Provider/KubeforceMachine/Cleanup.antt =====
-- cluster-api-provider-kubeforce/controllers/kubeforcemachine_controller.go: how the playbooks and
-- the playbook deployments of a machine are deleted, and the cleanup playbooks.
use kubeforce.Base.{
  ◌-◌, String, Bool, true, false, not, ◌&&◌, Option, none, some, List, [], ◌∷◌, map, StringMap,
  delete, ltb, str_append, if◌then◌else◌,
}
use kubeforce.Api.{Error, ObjectMeta, is_deleted}
use kubeforce.Provider.Types.{
  Answer, ok, failed, panicked, Agent, RemotePlaybook, RemoteDeployment, ControlObject,
}
use kubeforce.Provider.Call.{Call, ◌>>◌, give, change}
use kubeforce.Provider.Remote.{is_healthy}
use kubeforce.Provider.Playbook.Delete.{seconds}
use kubeforce.Provider.Template.{create_labels, Vars}
use kubeforce.Provider.Template.Reconcile.{Outcome}
use kubeforce.Provider.Template.Reconcile
use kubeforce.Provider.KubeforceAgent.{key_text, object_key}
use kubeforce.Provider.KubeforceMachine.{
  Value, KubeforceMachine, Effect, deleted_playbook, deleted_deployment, templates, Sweep, Env,
  set_conditions,
}

-- The machine as the object that controls playbooks; `name` is that of its agent.
abbrev pub control_object : String → KubeforceMachine → ControlObject Value
control_object name m = record {
  kind = m.kind;
  group_kind = m.group_kind;
  metadata = m.metadata;
  agent_name = name;
  templates = m.spec.playbook_templates;
  conditions = m.status.conditions;
  playbook_conditions = m.status.playbooks;
}

abbrev pub role_label : String
role_label = "playbook.infrastructure.cluster.x-k8s.io/role"

abbrev pub labels_of : Env → String → KubeforceMachine → StringMap String
labels_of env name m = delete role_label (create_labels env.template (control_object name m) "")

-- Something was found, so that the caller waits.
abbrev pub found : Answer Bool × List Effect → Answer Bool × List Effect
found (ok b, es) = (ok false, es)
found (failed e, es) = (failed e, es)
found (panicked, es) = (panicked, es)

abbrev pub and_tell : Effect → Answer Bool × List Effect → Answer Bool × List Effect
and_tell e (a, es) = (a, e ∷ es)

-- The loop over the listed objects: whether none of them passes the filter.
unfoldable pub delete_each :
    {A : Type 0}
    → (A → ObjectMeta)
    → (A → Option Error)
    → (A → Effect)
    → (A → Bool)
    → List A
    → Answer Bool × List Effect
delete_each meta remove effect filter [] = (ok true, [])
delete_each meta remove effect filter (p ∷ ps) =
    let rest = delete_each meta remove effect filter ps in
    if not (filter p)
    then rest
    else (if is_deleted (meta p) then found rest else (elim (remove p) [
      | none ↦ and_tell (effect p) (found rest)
      | some e ↦ (failed e, effect p ∷ [])
    ]))

abbrev pub delete_listed :
    {A : Type 0}
    → (A → ObjectMeta)
    → (A → Option Error)
    → (A → Effect)
    → (A → Bool)
    → Answer (List A)
    → Answer Bool × List Effect
delete_listed meta remove effect filter (ok ps) = delete_each meta remove effect filter ps
delete_listed meta remove effect filter (failed e) = (failed e, [])
delete_listed meta remove effect filter panicked = (panicked, [])

unfoldable pub reconcile_delete_playbooks :
    Env → Sweep → String → KubeforceMachine → (RemotePlaybook → Bool) → Answer Bool × List Effect
reconcile_delete_playbooks env sweep name m filter =
    delete_listed (λ p. p.metadata) (env.delete_playbook sweep) deleted_playbook filter
      (env.list_playbooks sweep (labels_of env name m))

unfoldable pub reconcile_delete_playbook_deployments :
    Env → Sweep → String → KubeforceMachine → (RemoteDeployment → Bool) → Answer Bool × List Effect
reconcile_delete_playbook_deployments env sweep name m filter =
    delete_listed (λ p. p.metadata) (env.delete_deployment sweep) deleted_deployment filter
      (env.list_deployments sweep (labels_of env name m))

abbrev pub Task : Type 0 → Type 0
Task A = Call KubeforceMachine Effect A

-- What the template reconciler did to the object is done to the machine.
abbrev pub absorb : ControlObject Value → KubeforceMachine → KubeforceMachine
absorb obj m = record m {
  status = record m.status { conditions = obj.conditions; playbooks = obj.playbook_conditions };
}

unfoldable pub reconcile_templates : Env → String → String → Vars Value → Task Bool
reconcile_templates env name type vars m =
    let o : Outcome Value = Reconcile.reconcile env.template (control_object name m) type vars in
    (o.answer, absorb o.object m, map templates o.effects)

abbrev pub mark_true : Env → String → Task (Unit {0})
mark_true env t = change (set_conditions (λ cs. env.conds.mark_true cs t))

abbrev pub mark_false : Env → String → String → String → String → Task (Unit {0})
mark_false env t reason severity message =
    change (set_conditions (λ cs. env.conds.mark_false cs t reason severity message))

abbrev pub force_message : Env → Agent → String
force_message env a =
    str_append "Waiting for the agent to be ready. If you want to force deletion then remove the "
      (str_append (env.template.quote (key_text (object_key a.metadata))) " KubeforceAgent")

abbrev pub is_recent : Env → KubeforceMachine → Bool
is_recent env m = ltb (env.now - m.metadata.deletion_timestamp) (seconds 60)

abbrev not_cleaned : Env → String → Task Bool
not_cleaned env message = do
  mark_false env "CleanupPlaybooksCompleted" "AgentProvisioningFailed" "Error" message
  give false

unfoldable pub reconcile_cleaner : Env → String → Agent → Task Bool
reconcile_cleaner env name a m =
    let healthy = is_healthy env.conds a in
    if not healthy && is_recent env m
    then not_cleaned env "Wait for agent to be ready" m
    else (if not healthy && not (is_deleted a.metadata)
        then not_cleaned env (force_message env a) m
        else (if not healthy
            then (mark_true env "CleanupPlaybooksCompleted" >> give true) m
            else reconcile_templates env name "delete" none m))
