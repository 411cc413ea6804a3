-- ===== src/Provider/Deployment/Delete.antt =====
-- cluster-api-provider-kubeforce/controllers/playbookdeployment_controller.go: the deletion.
use kubeforce.Base.{
  ℕ, ◌-◌, ◌==◌, String, not, ◌&&◌, Option, none, some, ltb, str_eq, str_append, if◌then◌else◌,
}
use kubeforce.Api.{Error, is_not_found, text, is_deleted}
use kubeforce.Provider.Types.{Answer, Agent, RemoteDeployment}
use kubeforce.Provider.Handler.{
  Handler, return, done, fail, on_error, ◌>>=◌, ◌>>◌, get_object, modify, tell, when, check, call,
}
use kubeforce.Provider.Remote.{is_healthy}
use kubeforce.Provider.Playbook.{set_failure, synced, not_synced}
use kubeforce.Provider.Playbook.Delete.{wait_for_agent, seconds}
use kubeforce.Provider.Deployment.{
  Env, Effect, deleted, ExternalDeployment, playbook_deployment_finalizer, with_status,
}

abbrev pub Action : Type 0 → Type 0
Action A = Handler RemoteDeployment Effect A

abbrev pub remove_finalizer : Env → RemoteDeployment → RemoteDeployment
remove_finalizer env pd = record pd {
  metadata = record pd.metadata {
    finalizers = env.finalizers.remove pd.metadata.finalizers playbook_deployment_finalizer;
  };
}

abbrev pub add_finalizer : Env → RemoteDeployment → RemoteDeployment
add_finalizer env pd = record pd {
  metadata = record pd.metadata {
    finalizers = env.finalizers.add pd.metadata.finalizers playbook_deployment_finalizer;
  };
}

abbrev pub get_agent : Env → RemoteDeployment → Answer Agent
get_agent env pd = env.agent_answer pd.metadata.namespace pd.agent_ref

-- The failure, and the condition `Synced`.
abbrev pub record_failure : Env → String → String → String → String → String → Action (Unit {0})
record_failure env reason message cond_reason severity cond_message = modify (
    with_status
      (λ s. not_synced env.conds cond_reason severity cond_message (set_failure reason message s)))

abbrev pub mark_synced : Env → Action (Unit {0})
mark_synced env = modify (with_status (synced env.conds))

abbrev pub mark_not_synced : Env → String → String → String → Action (Unit {0})
mark_not_synced env reason severity message =
    modify (with_status (not_synced env.conds reason severity message))

abbrev pub clear_failure : Action (Unit {0})
clear_failure = modify (with_status (set_failure "" ""))

abbrev pub force_message : Env → Agent → String
force_message env a =
    str_append "Waiting for the agent to be ready. If you want to force deletion then remove the " (
      str_append (env.quote (str_append a.metadata.namespace (str_append "/" a.metadata.name)))
        " KubeforceAgent")

abbrev pub wait_deletion : Env → String → Action (Unit {0})
wait_deletion env message = do
  record_failure env "AgentIsNotReady" message "DeletionFailed" "Error" message
  return (seconds 5) none

-- The deletion, where the agent has the deployment.
abbrev pub delete_found : Env → String → ExternalDeployment → Action (Unit {0})
delete_found env name ext = do
  when (is_deleted ext.metadata) (mark_synced env >> return (seconds 5) none)
  tell (deleted name)
  check (env.delete_external name) fail
  mark_synced env
  return (seconds 5) none

-- The part of `reconcileDeleteExternalPlaybookDeployment` below the checks of the agent.
unfoldable pub delete_on_agent : Env → Agent → String → Action (Unit {0})
delete_on_agent env a name = do
  clear_failure
  check (env.client_set a.metadata.namespace a.metadata.name) fail
  ext ← on_error (env.get_external name) (λ e. if is_not_found e then done else fail e)
  delete_found env name ext

unfoldable pub delete_with_agent : Env → Agent → RemoteDeployment → Action (Unit {0})
delete_with_agent env a pd = do
  when (not (is_healthy env.conds a) && ltb (env.now - pd.metadata.deletion_timestamp) (seconds 60))
      (wait_deletion env wait_for_agent)
  when (not (is_healthy env.conds a) && not (is_deleted a.metadata))
      (wait_deletion env (force_message env a))
  when (not (is_healthy env.conds a)) done
  delete_on_agent env a pd.status.external_name

-- `reconcileDeleteExternalPlaybookDeployment`.
unfoldable pub delete_external : Env → Action (Unit {0})
delete_external env = do
  pd ← get_object
  when (str_eq pd.status.external_name "") done
  a ← on_error (get_agent env pd) fail
  delete_with_agent env a pd

-- What `reconcileDelete` does with its result.
abbrev pub after_deletion : Env → ℕ → Option Error → Action (Unit {0})
after_deletion env after (some e) = do
  let message = str_append "unable to delete external PlaybookDeployment. err: " (text e)
  record_failure env "DeleteError" message "DeletionFailed" "Error" message
  fail e
after_deletion env after none = do
  when (not (after == 0)) (return after none)
  modify (remove_finalizer env)
  done

unfoldable pub reconcile_delete : Env → Action (Unit {0})
reconcile_delete env = do
  pd ← get_object
  when (not (env.finalizers.contains pd.metadata.finalizers playbook_deployment_finalizer)) done
  call (delete_external env) (after_deletion env)
