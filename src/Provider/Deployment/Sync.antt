-- ===== src/Provider/Deployment/Sync.antt =====
-- cluster-api-provider-kubeforce/controllers/playbookdeployment_controller.go: the
-- synchronisation.
use kubeforce.Base.{
  ℕ, ◌==◌, String, Bool, true, false, not, ◌&&◌, Option, none, some, List, [], ◌∷◌, str_eq,
  str_append, if◌then◌else◌, StringMap,
}
use kubeforce.Api.{Error, text}
use kubeforce.Agent.Checksum.{Sum, sum, sum_failed}
use kubeforce.Agent.Deployment
use kubeforce.Provider.Types.{
  Answer, ok, failed, panicked, has_changes, Agent, RemoteDeployment, RemoteStatus,
}
use kubeforce.Provider.Handler.{
  going, return, done, fail, crash, on_error, ◌>>=◌, ◌>>◌, get_object, modify, tell, when, check,
}
use kubeforce.Provider.Remote.{is_healthy, assign_label}
use kubeforce.Provider.Playbook.{agent_ref}
use kubeforce.Provider.Playbook.Delete.{wait_for_agent, seconds}
use kubeforce.Provider.Deployment.{
  Env, Effect, created, patched_external, ExternalDeployment, with_status, phase_text, has_settled,
  current_checksum, find_external, new_external, updated_external, should_adopt,
}
use kubeforce.Provider.Deployment.Delete.{
  Action, get_agent, record_failure, mark_synced, mark_not_synced, clear_failure,
}

-- An error that is recorded with its own text in the condition.
abbrev pub sync_error : {A : Type 0} → Env → String → String → Error → Action A
sync_error env reason prefix e = do
  record_failure env reason (str_append prefix (text e)) "SynchronizationFailed" "Error" (text e)
  fail e

abbrev pub sync_mismatch : Env → String → Action (Unit {0})
sync_mismatch env message = do
  record_failure env "ExternalPlaybookError" message "SynchronizationFailed" "Error" message
  done

abbrev pub with_labels : StringMap String → RemoteDeployment → RemoteDeployment
with_labels labels pd = record pd { metadata = record pd.metadata { labels = labels } }

abbrev pub adopted : Env → Agent → RemoteDeployment → RemoteDeployment
adopted env a pd =
    if should_adopt env pd.metadata.owner_references
    then record pd {
      metadata = record pd.metadata {
        owner_references = env.ensure_owner_ref pd.metadata.owner_references (agent_ref a);
      };
    }
    else pd

abbrev pub attach : Env → Agent → RemoteDeployment → Action (Unit {0})
attach env a pd = do
  labels ←
      on_error
        (assign_label pd.metadata.labels "playbook.infrastructure.cluster.x-k8s.io/agent"
          a.metadata.name)
        fail
  modify (with_labels labels)
  modify (adopted env a)

-- The patch of the external deployment, where there are changes.
abbrev pub patch_error : Env → ExternalDeployment → String → Answer Bool
patch_error env ext diff = elim (env.patch_external ext.metadata.name diff) [
  | some e ↦ failed (env.wrapf "failed to patch PlaybookDeployment" e)
  | none ↦ ok true
]

-- `updateExternalPlaybookDeployment`: whether it was updated.
unfoldable pub update_external :
    Env → RemoteDeployment → ExternalDeployment → Answer Bool × List Effect
update_external env pd ext =
    let new = updated_external pd ext in
    elim (has_changes env.patch_data env.unmarshal env.wrapf ext new) [
      | failed e ↦ (failed e, [])
      | panicked ↦ (panicked, [])
      | ok changed ↦ elim (env.patch_data ext new) [
        | failed e ↦ (failed (env.wrapf "failed to calculate patch data" e), [])
        | panicked ↦ (panicked, [])
        | ok diff ↦
            if changed
            then (patch_error env ext diff, patched_external new ∷ [])
            else (ok false, [])
      ]
    ]

abbrev pub with_checksum : String → RemoteDeployment → RemoteDeployment
with_checksum s pd = record pd { last_spec_checksum = s }

abbrev pub wait_observed : Env → String → ℕ → Action (Unit {0})
wait_observed env message after = do
  mark_not_synced env "WaitingForObservedGeneration" "Info" message
  return after none

abbrev pub set_external_name : String → RemoteStatus → RemoteStatus
set_external_name name s = record s { external_name = name }

abbrev pub follow : ExternalDeployment → RemoteStatus → RemoteStatus
follow ext s = record s {
  external_name = ext.metadata.name;
  external_phase = phase_text ext.status.phase;
}

abbrev pub is_progressing : Deployment.DeploymentPhase → Bool
is_progressing Deployment.progressing = true
is_progressing (Deployment.other s) = str_eq s "Progressing"
is_progressing _ = false

abbrev pub is_observed : ExternalDeployment → Bool
is_observed ext = ext.metadata.generation == ext.status.observed_generation

abbrev pub generation_message : Env → ExternalDeployment → String
generation_message env ext = str_append "observedGeneration " (
    str_append (env.decimal ext.status.observed_generation) (
      str_append " is not equal generation "
        (str_append (env.decimal ext.metadata.generation) " yet")))

-- What follows the update.
unfoldable pub on_updated : Env → String → ExternalDeployment → Answer Bool → Action (Unit {0})
on_updated env checksum ext (failed e) = do
  let message = str_append "unable to update ExternalPlaybook err: " (text e)
  record_failure env "ExternalPlaybookError" message "SynchronizationFailed" "Error" message
  fail e
on_updated env checksum ext panicked = crash
on_updated env checksum ext (ok true) = do
  clear_failure
  modify (with_checksum checksum)
  wait_observed env "external PlaybookDeployment has been updated" (seconds 5)
on_updated env checksum ext (ok false) = do
  clear_failure
  when (not (is_observed ext)) (wait_observed env (generation_message env ext) (seconds 5))
  mark_synced env
  when (is_progressing ext.status.phase) (return (seconds 5) none)
  done

abbrev pub tell_all : List Effect → Action (Unit {0})
tell_all es pd = (going tt, pd, es)

abbrev pub create_missing : Env → String → RemoteDeployment → Action (Unit {0})
create_missing env checksum pd = do
  when (not (str_eq pd.status.external_name "")) (
      sync_mismatch env (
        str_append "extarnal PlaybookDeployment: "
          (str_append (env.quote pd.status.external_name) " is not found")))
  tell (created (new_external pd))
  ext ←
      on_error (env.create_external (new_external pd))
        (sync_error env "ExternalPlaybookError" "unable to create ExternalPlaybook err: ")
  modify (with_checksum checksum)
  modify (with_status (set_external_name ext.metadata.name))
  clear_failure
  wait_observed env "PlaybookDeployment has been created" (seconds 10)

abbrev pub update_found : Env → String → ExternalDeployment → RemoteDeployment → Action (Unit {0})
update_found env checksum ext pd = do
  when
      (not (str_eq pd.status.external_name "")
        && not (str_eq pd.status.external_name ext.metadata.name))
      (sync_mismatch env (
        str_append "extarnal PlaybookDeployment: " (
          str_append ext.metadata.name
            (str_append " is not equal to specified " pd.status.external_name))))
  modify (with_status (follow ext))
  let (answer, es) = update_external env pd ext
  tell_all es
  on_updated env checksum ext answer

-- What follows the search for the external deployment.
unfoldable pub on_found : Env → String → Option ExternalDeployment → Action (Unit {0})
on_found env checksum none = do pd ← get_object; create_missing env checksum pd
on_found env checksum (some ext) = do pd ← get_object; update_found env checksum ext pd

abbrev pub sync_found : Env → String → Answer (Option ExternalDeployment) → Action (Unit {0})
sync_found env checksum answer = do
  found ←
      on_error answer
        (sync_error env "ExternalPlaybookError" "unable to find external PlaybookDeployment err: ")
  on_found env checksum found

-- What follows once the deployment is attached to its agent; the name that the external one is
-- searched by is that of `pd`.
unfoldable pub sync_client : Env → String → Agent → RemoteDeployment → Action (Unit {0})
sync_client env checksum a pd = do
  when (env.has_paused a.metadata) done
  when (not (is_healthy env.conds a)) (do
    record_failure env "AgentIsNotReady" wait_for_agent "WaitingForAgent" "Info" wait_for_agent
    done)
  check (env.client_set a.metadata.namespace a.metadata.name)
      (sync_error env "AgentClientError" "unable to get the agent ClientSet err: ")
  sync_found env checksum (find_external env pd)

unfoldable pub sync_agent : Env → String → Agent → RemoteDeployment → Action (Unit {0})
sync_agent env checksum a pd = do attach env a pd; sync_client env checksum a pd

-- The specification was synchronised, and the external deployment has come to an end.
abbrev pub has_ended : Env → String → RemoteDeployment → Bool
has_ended env checksum pd = has_settled env.conds pd.status && str_eq checksum pd.last_spec_checksum

abbrev pub on_checksum : Env → Sum → Action (Unit {0})
on_checksum env (sum_failed e) = fail e
on_checksum env (sum checksum) = do
  pd ← get_object
  when (has_ended env checksum pd) done
  a ←
      on_error (get_agent env pd)
        (sync_error env "AgentClientError" "unable to get KubeforceAgent err: ")
  sync_agent env checksum a pd

unfoldable pub reconcile_normal : Env → Action (Unit {0})
reconcile_normal env = do pd ← get_object; on_checksum env (current_checksum env pd)
