-- ===== src/Provider/KubeforceAgent/Delete.antt =====
-- cluster-api-provider-kubeforce/controllers/kubeforceagent_controller.go: the deletion.
use kubeforce.Base.{
  StringMap, String, Bool, true, false, not, none, some, List, [], ◌∷◌, lookup, str_eq, str_append,
  if◌then◌else◌,
}
use kubeforce.Api.{Error, is_not_found, ObjectMeta, is_deleted}
use kubeforce.Prober.Controller.{remove_probe}
use kubeforce.Provider.Types.{Answer, ok, failed, panicked, Agent, RemotePlaybook, RemoteDeployment}
use kubeforce.Provider.Handler.{
  going, Handler, pure, return, done, fail, on_error, ◌>>=◌, ◌>>◌, modify, tell, when, check,
}
use kubeforce.Provider.Call.{wrapped}
use kubeforce.Provider.Remote.{is_healthy}
use kubeforce.Provider.Playbook.Delete.{seconds}
use kubeforce.Provider.KubeforceAgent.{
  World, Key, key_text, object_key, Effect, deleted_machine, uninstalled, Env, agent_finalizer,
  machine_label, set_conditions,
}

abbrev pub Action : Type 0 → Type 0
Action A = Handler World Effect A

abbrev pub modify_agent : (Agent → Agent) → Action (Unit {0})
modify_agent f = modify (λ w. record w { agent = f w.agent })

abbrev pub mark_true : Env → String → Action (Unit {0})
mark_true env t = modify_agent (set_conditions (λ cs. env.conds.mark_true cs t))

abbrev pub mark_false : Env → String → String → String → String → Action (Unit {0})
mark_false env t reason severity message =
    modify_agent (set_conditions (λ cs. env.conds.mark_false cs t reason severity message))

abbrev pub machine_error : Env → String → Key → Error → Error
machine_error env verb key e =
    env.wrapf
      (str_append "failed to "
        (str_append verb (str_append " KubeforceMachine " (env.quote (key_text key)))))
      e

-- `reconcileDeleteMachine`: whether the machine is still there.
abbrev pub delete_machine : Env → Key → Answer ObjectMeta → Answer Bool × List Effect
delete_machine env key (failed e) =
    (if is_not_found e then ok false else failed (machine_error env "get" key e), [])
delete_machine env key panicked = (panicked, [])
delete_machine env key (ok m) = if is_deleted m then (ok true, []) else (
  elim (env.delete_machine key) [
    | none ↦ ok true
    | some e ↦ if is_not_found e then ok false else failed (machine_error env "delete" key e)
  ],
  deleted_machine key ∷ [],
)

unfoldable pub reconcile_delete_machine : Env → Agent → Answer Bool × List Effect
reconcile_delete_machine env a = elim (lookup machine_label a.metadata.labels) [
  | none ↦ (ok false, [])
  | some name ↦
      let key : Key = (a.metadata.namespace, name) in
      if str_eq name "" then (ok false, []) else delete_machine env key (env.get_machine key)
]

abbrev pub tell_all : List Effect → Action (Unit {0})
tell_all es w = (going tt, w, es)

abbrev pub is_empty : {A : Type 0} → List A → Bool
is_empty [] = true
is_empty (x ∷ xs) = false

abbrev pub remove_finalizer : Env → Agent → Agent
remove_finalizer env a = record a {
  metadata = record a.metadata {
    finalizers = env.finalizers.remove a.metadata.finalizers agent_finalizer;
  };
}

abbrev pub add_finalizer : Env → Agent → Agent
add_finalizer env a = record a {
  metadata = record a.metadata {
    finalizers = env.finalizers.add a.metadata.finalizers agent_finalizer;
  };
}

abbrev pub end_probe : Key → Action (Unit {0})
end_probe key = modify (λ w. record w { probes = remove_probe (key_text key) w.probes })

-- The agent is asked to uninstall itself where it answers.
abbrev pub uninstall : Env → Agent → Action (Unit {0})
uninstall env a =
    if is_healthy env.conds a
    then (do
      check (env.client_set (object_key a.metadata)) fail
      tell uninstalled
      check env.uninstall fail)
    else pure tt

abbrev pub agent_labels : Agent → StringMap String
agent_labels a = ("playbook.infrastructure.cluster.x-k8s.io/agent", a.metadata.name) ∷ []

unfoldable pub get_playbooks : Env → Agent → Answer (List RemotePlaybook)
get_playbooks env a =
    wrapped (env.wrapf "failed to list PlaybookList")
      (env.list_playbooks a.metadata.namespace (agent_labels a))

unfoldable pub get_playbook_deployments : Env → Agent → Answer (List RemoteDeployment)
get_playbook_deployments env a =
    wrapped (env.wrapf "failed to list PlaybookDeploymentList")
      (env.list_deployments a.metadata.namespace (agent_labels a))

abbrev pub list_error : Env → String → Agent → Error → Error
list_error env kind a e =
    env.wrapf
      (str_append "unable to list " (
        str_append kind
          (str_append "s part of KubeforceAgent " (key_text (object_key a.metadata)))))
      e

-- What follows once nothing is left on the agent.
unfoldable pub delete_unused : Env → Agent → Action (Unit {0})
delete_unused env a = do
  uninstall env a
  end_probe (object_key a.metadata)
  modify_agent (remove_finalizer env)
  done

abbrev pub on_lists :
    Env → Agent → Answer (List RemotePlaybook) → Answer (List RemoteDeployment) → Action (Unit {0})
on_lists env a playbook_answer deployment_answer = do
  playbooks ← on_error playbook_answer (λ e. fail (list_error env "Playbook" a e))
  when (not (is_empty playbooks)) (return (seconds 10) none)
  deployments ← on_error deployment_answer (λ e. fail (list_error env "PlaybookDeployment" a e))
  when (not (is_empty deployments)) (return (seconds 10) none)
  delete_unused env a

unfoldable pub reconcile_delete : Env → Agent → Action (Unit {0})
reconcile_delete env a = do
  when (not (env.finalizers.contains a.metadata.finalizers agent_finalizer)) done
  let (answer, es) = reconcile_delete_machine env a
  tell_all es
  has_machine ← on_error answer fail
  when has_machine done
  on_lists env a (get_playbooks env a) (get_playbook_deployments env a)
