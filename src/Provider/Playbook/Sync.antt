-- ===== src/Provider/Playbook/Sync.antt =====
-- cluster-api-provider-kubeforce/controllers/playbook_controller.go: the synchronisation.
use kubeforce.Base.{
  String, Bool, not, ◌||◌, ◌&&◌, Option, none, some, str_eq, str_append, if◌then◌else◌, StringMap,
}
use kubeforce.Api.{Error, text}
use kubeforce.Conditions
use kubeforce.Provider.Types.{Answer, Agent, RemotePlaybook, RemoteStatus}
use kubeforce.Provider.Handler.{
  return, done, fail, on_error, ◌>>=◌, ◌>>◌, get_object, modify, tell, when, check,
}
use kubeforce.Provider.Remote.{is_healthy, assign_label}
use kubeforce.Provider.Playbook.{
  Env, created, ExternalPlaybook, execution, failed_type, with_status, synced, record_failure,
  append_conditions, find_external, new_external, phase_text, should_adopt, agent_ref,
}
use kubeforce.Provider.Playbook.Delete.{Action, wait_for_agent, seconds, get_agent}

-- An error that is recorded with its own text in the condition.
abbrev pub sync_error : {A : Type 0} → Env → String → String → Error → Action A
sync_error env reason prefix e = do
  modify (
      record_failure env.conds reason (str_append prefix (text e)) "SynchronizationFailed" "Error"
        (text e))
  fail e

abbrev pub sync_mismatch : Env → String → Action (Unit {0})
sync_mismatch env message = do
  modify (
      record_failure env.conds "ExternalPlaybookError" message "SynchronizationFailed" "Error"
        message)
  done

abbrev pub with_labels : StringMap String → RemotePlaybook → RemotePlaybook
with_labels labels pb = record pb { metadata = record pb.metadata { labels = labels } }

abbrev pub adopted : Env → Agent → RemotePlaybook → RemotePlaybook
adopted env a pb =
    if should_adopt env pb.metadata.owner_references
    then record pb {
      metadata = record pb.metadata {
        owner_references = env.ensure_owner_ref pb.metadata.owner_references (agent_ref a);
      };
    }
    else pb

-- The label and the owner of the playbook.
abbrev pub attach : Env → Agent → RemotePlaybook → Action (Unit {0})
attach env a pb = do
  labels ←
      on_error
        (assign_label pb.metadata.labels "playbook.infrastructure.cluster.x-k8s.io/agent"
          a.metadata.name)
        fail
  modify (with_labels labels)
  modify (adopted env a)

abbrev pub follow : ExternalPlaybook → RemoteStatus → RemoteStatus
follow ext s = record s {
  external_name = ext.metadata.name;
  external_phase = phase_text ext.status.phase;
  failure_reason = "";
  failure_message = "";
}

abbrev pub copy_conditions : Env → ExternalPlaybook → RemoteStatus → RemoteStatus
copy_conditions env ext s = record s {
  conditions = append_conditions env.conds ext.status.conditions s.conditions;
}

abbrev pub is_ended : ExternalPlaybook → Bool
is_ended ext =
    Conditions.is_true ext.status.conditions execution
    || Conditions.is_true ext.status.conditions failed_type

-- What follows the search for the external playbook.
unfoldable pub on_found : Env → Option ExternalPlaybook → Action (Unit {0})
on_found env none = do
  pb ← get_object
  when (not (str_eq pb.status.external_name "")) (
      sync_mismatch env
        (str_append "extarnal playbook: " (str_append pb.status.external_name " is not found")))
  tell (created (new_external pb))
  ext ←
      on_error (env.create_external (new_external pb))
        (sync_error env "ExternalPlaybookError" "unable to create ExternalPlaybook err: ")
  modify (with_status (λ s. synced env.conds (follow ext s)))
  return (seconds 10) none
on_found env (some ext) = do
  pb ← get_object
  when
      (not (str_eq pb.status.external_name "")
        && not (str_eq pb.status.external_name ext.metadata.name))
      (sync_mismatch env (
        str_append "extarnal playbook: " (
          str_append ext.metadata.name
            (str_append " is not equal to specified " pb.status.external_name))))
  modify (with_status (λ s. synced env.conds (copy_conditions env ext (follow ext s))))
  when (is_ended ext) done
  return (seconds 10) none

-- The answer of the search, and what follows.
abbrev pub sync_found : Env → Answer (Option ExternalPlaybook) → Action (Unit {0})
sync_found env answer = do
  found ←
      on_error answer
        (sync_error env "ExternalPlaybookError" "unable to find external Playbook err: ")
  on_found env found

-- What follows once the playbook is attached to its agent; the name that the external playbook is
-- searched by is that of `pb`.
unfoldable pub sync_client : Env → Agent → RemotePlaybook → Action (Unit {0})
sync_client env a pb = do
  when (env.has_paused a.metadata) done
  when (not (is_healthy env.conds a)) (do
    modify (
        record_failure env.conds "AgentIsNotReady" wait_for_agent "WaitingForAgent" "Info"
          wait_for_agent)
    done)
  check (env.client_set a.metadata.namespace a.metadata.name)
      (sync_error env "AgentClientError" "unable to get agent ClientSet err: ")
  sync_found env (find_external env pb)

unfoldable pub sync_agent : Env → Agent → RemotePlaybook → Action (Unit {0})
sync_agent env a pb = do attach env a pb; sync_client env a pb

abbrev pub has_ended : Env → RemotePlaybook → Bool
has_ended env pb =
    env.conds.is_true pb.status.conditions execution
    || env.conds.is_true pb.status.conditions failed_type

unfoldable pub reconcile_normal : Env → Action (Unit {0})
reconcile_normal env = do
  pb ← get_object
  when (has_ended env pb) done
  a ←
      on_error (get_agent env pb)
        (sync_error env "AgentClientError" "unable to get KubeforceAgent err: ")
  sync_agent env a pb
