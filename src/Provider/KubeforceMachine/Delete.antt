-- ===== src/Provider/KubeforceMachine/Delete.antt =====
-- cluster-api-provider-kubeforce/controllers/kubeforcemachine_controller.go: the deletion of a
-- machine.
use kubeforce.Base.{
  String, Bool, true, false, not, ◌||◌, Option, none, some, List, [], ◌∷◌, StringMap, delete,
  str_eq, if◌then◌else◌,
}
use kubeforce.Provider.Types.{Answer, TemplateReference, PlaybookTemplates, Agent}
use kubeforce.Provider.Handler.{
  going, done, fail, on_error, ◌>>=◌, ◌>>◌, get_object, modify, tell, when, check,
}
use kubeforce.Provider.Call.{run}
use kubeforce.Provider.KubeforceMachine.{
  Value, KubeforceMachine, Effect, updated_agent, deleting, of_install, of_all, Env,
  machine_finalizer, machine_label, Action,
}
use kubeforce.Provider.KubeforceMachine.AgentRef.{agent_failed, label, with_labels}
use kubeforce.Provider.KubeforceMachine.Cleanup.{
  role_label, reconcile_delete_playbooks, reconcile_delete_playbook_deployments, reconcile_cleaner,
}

abbrev pub install_references : StringMap TemplateReference → List String
install_references [] = []
install_references ((role, ref) ∷ refs) =
    let rest = install_references refs in if str_eq ref.type "install" then role ∷ rest else rest

abbrev pub install_templates : Option (PlaybookTemplates Value) → List String
install_templates none = []
install_templates (some ts) = install_references ts.references

abbrev pub install_roles : KubeforceMachine → List String
install_roles m = "boot" ∷ install_templates m.spec.playbook_templates

-- `slices.Contains`.
abbrev pub has_text : String → List String → Bool
has_text t [] = false
has_text t (s ∷ ss) = str_eq s t || has_text t ss

abbrev pub installs : KubeforceMachine → StringMap String → Bool
installs m labels = has_text (label role_label labels) (install_roles m)

-- A step of the deletion: the handler goes on once nothing is left of it.
abbrev pub wait_until : Answer Bool × List Effect → Action (Unit {0})
wait_until (answer, es) = do
  (λ m. (going tt, m, es))
  ready ← on_error answer fail
  when (not ready) done

abbrev pub delete_playbooks_of_install : Env → String → KubeforceMachine → Answer Bool × List Effect
delete_playbooks_of_install env name m =
    reconcile_delete_playbooks env of_install name m (λ p. installs m p.metadata.labels)

abbrev pub delete_deployments_of_install :
    Env → String → KubeforceMachine → Answer Bool × List Effect
delete_deployments_of_install env name m =
    reconcile_delete_playbook_deployments env of_install name m (λ p. installs m p.metadata.labels)

abbrev pub delete_all_playbooks : Env → String → KubeforceMachine → Answer Bool × List Effect
delete_all_playbooks env name m = reconcile_delete_playbooks env of_all name m (λ p. true)

abbrev pub delete_all_deployments : Env → String → KubeforceMachine → Answer Bool × List Effect
delete_all_deployments env name m =
    reconcile_delete_playbook_deployments env of_all name m (λ p. true)

abbrev pub is_cleaned : Env → KubeforceMachine → Bool
is_cleaned env m = env.conds.is_true m.status.conditions "CleanupPlaybooksCompleted"

unfoldable pub clean : Env → String → Agent → Action (Unit {0})
clean env name a = do
  m ← get_object
  when (not (is_cleaned env m))
      (do ready ← run (reconcile_cleaner env name a) fail; when (not ready) done)

-- The agent without the labels of the machine.
unfoldable pub released_agent : Env → Agent → Agent
released_agent env a =
    with_labels (delete env.template.cluster_name_label (delete machine_label a.metadata.labels)) a

abbrev pub remove_finalizer : Env → KubeforceMachine → KubeforceMachine
remove_finalizer env m = record m {
  metadata = record m.metadata {
    finalizers = env.finalizers.remove m.metadata.finalizers machine_finalizer;
  };
}

unfoldable pub release : Env → Agent → Action (Unit {0})
release env a = do
  tell (updated_agent (released_agent env a))
  check (env.update_agent (released_agent env a)) (agent_failed env)
  modify (remove_finalizer env)
  done

unfoldable pub delete_rest : Env → String → Agent → Action (Unit {0})
delete_rest env name a = do
  m ← get_object
  wait_until (delete_all_playbooks env name m)
  wait_until (delete_all_deployments env name m)
  release env a

unfoldable pub delete_with_agent : Env → String → Agent → Action (Unit {0})
delete_with_agent env name a = do
  m ← get_object
  wait_until (delete_playbooks_of_install env name m)
  wait_until (delete_deployments_of_install env name m)
  clean env name a
  delete_rest env name a

abbrev pub delete_with_ref : Env → Option String → Action (Unit {0})
delete_with_ref env none = do modify (remove_finalizer env); done
delete_with_ref env (some name) = do
  m ← get_object
  a ← on_error (env.get_agent deleting (m.metadata.namespace, name)) (agent_failed env)
  delete_with_agent env name a

unfoldable pub reconcile_delete : Env → Action (Unit {0})
reconcile_delete env = do
  m ← get_object
  when (not (env.finalizers.contains m.metadata.finalizers machine_finalizer)) done
  delete_with_ref env m.status.agent_ref
