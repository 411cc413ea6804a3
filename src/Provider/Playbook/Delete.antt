-- ===== src/Provider/Playbook/Delete.antt =====
-- cluster-api-provider-kubeforce/controllers/playbook_controller.go: the deletion.
use kubeforce.Base.{
  ℕ, ◌-◌, String, Bool, true, false, not, ◌&&◌, none, some, List, [], ◌∷◌, ltb, str_eq, str_append,
  if◌then◌else◌, ◌*◌,
}
use kubeforce.Api.{is_not_found, text, is_deleted}
use kubeforce.Provider.Types.{Answer, ok, failed, panicked, Agent, RemotePlaybook}
use kubeforce.Provider.Handler.{
  going, Handler, return, done, fail, crash, on_error, ◌>>=◌, ◌>>◌, get_object, modify, when,
}
use kubeforce.Provider.Remote.{is_healthy}
use kubeforce.Provider.Playbook.{
  Env, Effect, deleted, playbook_finalizer, with_status, set_failure, synced, record_failure,
}

abbrev pub Action : Type 0 → Type 0
Action A = Handler RemotePlaybook Effect A

abbrev pub wait_for_agent : String
wait_for_agent = "Waiting for the agent to be ready"

abbrev pub seconds : ℕ → ℕ
seconds n = n * 1_000_000_000

abbrev pub remove_finalizer : Env → RemotePlaybook → RemotePlaybook
remove_finalizer env pb = record pb {
  metadata = record pb.metadata {
    finalizers = env.finalizers.remove pb.metadata.finalizers playbook_finalizer;
  };
}

abbrev pub add_finalizer : Env → RemotePlaybook → RemotePlaybook
add_finalizer env pb = record pb {
  metadata = record pb.metadata {
    finalizers = env.finalizers.add pb.metadata.finalizers playbook_finalizer;
  };
}

abbrev pub get_agent : Env → RemotePlaybook → Answer Agent
get_agent env pb = env.agent_answer pb.metadata.namespace pb.agent_ref

-- `reconcileDeleteExternalPlaybook`: whether the external playbook is gone; if not, the caller comes
-- back in 5 seconds. Its errors are told apart from the caller's by `Answer`.
unfoldable pub delete_external : Env → Agent → RemotePlaybook → Answer Bool × List Effect
delete_external env a pb = elim (env.client_set a.metadata.namespace a.metadata.name) [
  | some e ↦ (failed e, [])
  | none ↦ elim (env.get_external pb.status.external_name) [
    | failed e ↦ (if is_not_found e then ok true else failed e, [])
    | panicked ↦ (panicked, [])
    | ok ext ↦ if is_deleted ext.metadata then (ok false, []) else (
      elim (env.delete_external pb.status.external_name) [ some e ↦ failed e | none ↦ ok false ],
      deleted pb.status.external_name ∷ [],
    )
  ]
]

-- The object of the handler that called `delete_external`: it marks `Synced` where it goes on.
abbrev pub deleting : Env → Action (Unit {0})
deleting env = modify (with_status (synced env.conds))

abbrev pub on_deleted : Env → Answer Bool → Action (Unit {0})
on_deleted env (failed e) = do
  let message = str_append "unable to delete external playbook. err: " (text e)
  modify (record_failure env.conds "DeleteError" message "DeletionFailed" "Error" message)
  fail e
on_deleted env panicked = crash
on_deleted env (ok false) = do
  deleting env
  modify (with_status (set_failure "" ""))
  return (seconds 5) none
on_deleted env (ok true) = do
  modify (with_status (set_failure "" ""))
  modify (remove_finalizer env)
  done

abbrev pub tell_all : List Effect → Action (Unit {0})
tell_all es pb = (going tt, pb, es)

abbrev pub force_message : Env → Agent → String
force_message env a =
    str_append "Waiting for the agent to be ready. If you want to force deletion then remove the " (
      str_append (env.quote (str_append a.metadata.namespace (str_append "/" a.metadata.name)))
        " KubeforceAgent")

abbrev pub wait_deletion : Env → String → Action (Unit {0})
wait_deletion env message = do
  modify (record_failure env.conds "AgentIsNotReady" message "DeletionFailed" "Error" message)
  done

-- What follows once the agent is known.
unfoldable pub delete_on_agent : Env → Agent → RemotePlaybook → Action (Unit {0})
delete_on_agent env a pb = do
  when (not (is_healthy env.conds a) && ltb (env.now - pb.metadata.deletion_timestamp) (seconds 60))
      (wait_deletion env wait_for_agent)
  when (not (is_healthy env.conds a) && not (is_deleted a.metadata))
      (wait_deletion env (force_message env a))
  when (not (is_healthy env.conds a)) (modify (remove_finalizer env) >> done)
  let (answer, es) = delete_external env a pb
  tell_all es
  on_deleted env answer

unfoldable pub reconcile_delete : Env → Action (Unit {0})
reconcile_delete env = do
  pb ← get_object
  when (not (env.finalizers.contains pb.metadata.finalizers playbook_finalizer)) done
  when (str_eq pb.status.external_name "") (modify (remove_finalizer env) >> done)
  a ←
      on_error (get_agent env pb)
        (λ e. modify (with_status (set_failure "DeleteError" (text e))) >> fail e)
  delete_on_agent env a pb
