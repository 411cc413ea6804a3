-- ===== src/Scenarios/RemotePlaybook.antt =====
-- Runs of the controller of the playbooks of the management cluster.
use kubeforce.Base.{
  ◌≡◌, refl, String, true, false, none, List, [], ◌∷◌, str_eq, insert, if◌then◌else◌,
}
use kubeforce.Api.{not_found}
use kubeforce.Conditions
use kubeforce.Agent.Run
use kubeforce.Agent.Run.{run_playbook, run_logged, write_files, run_command_io}
use kubeforce.Agent.Playbook.{sync, sync_limited, dispatch, prepare, execute, backing_off}
use kubeforce.Agent.Playbook.Progress.{syncs}
use kubeforce.Agent.Playbook.Ran.{has_executed, Ran}
use kubeforce.Provider.Types.{ok, failed, RemotePlaybook}
use kubeforce.Provider.Playbook
use kubeforce.Provider.Playbook.Delete.{remove_finalizer, reconcile_delete}
use kubeforce.Provider.Playbook.Sync.{reconcile_normal, sync_agent, sync_client, on_found}
use kubeforce.Provider.Playbook.Deletion.{is_released, reconcile_delete-finalizers}
use kubeforce.Provider.Playbook.Completion.{executed}
use kubeforce.Provider.Playbook.Creation.{creation, is_due, reconcile_normal-creation}
use kubeforce.Provider.Playbook.EndToEnd.{reconcile_normal-Ran}
use kubeforce.Scenarios.Library.{finalizers, object_meta}
use kubeforce.Scenarios.Agent.{fine, fresh}
use kubeforce.Scenarios.Remote.{conds, healthy_agent, status_named}

abbrev playbook : List String → String → RemotePlaybook
playbook fs external_name = record {
  kind = "";
  api_version = "";
  metadata = record (object_meta "install" fs) { labels = ("role", "install") ∷ [] };
  agent_ref = "agent-1";
  spec = record { files = none; entrypoint = "site.yaml" };
  status = status_named external_name;
}

abbrev playbook_env : List Playbook.ExternalPlaybook → Playbook.Env
playbook_env listed = record {
  conds = conds;
  finalizers = finalizers;
  context_done = false;
  now = 90_000_000_000;
  decimal = λ n. "2";
  quote = λ s. s;
  has_paused = λ m. false;
  has_controller = λ os. false;
  has_owner = λ os v ks. false;
  ensure_owner_ref = λ os o. o ∷ os;
  get_answer = ok (playbook [] "");
  cluster_answer = ok none;
  new_helper = none;
  patch_answer = λ p. none;
  agent_answer = λ ns name. ok healthy_agent;
  client_set = λ ns name. none;
  list_external = λ ls. ok listed;
  get_external = λ name. failed (not_found "gone");
  create_external = λ p. ok p;
  delete_external = λ name. none;
}

abbrev sent_away : RemotePlaybook
sent_away = playbook (Playbook.playbook_finalizer ∷ []) "install-abc"

has_finalizer : finalizers.contains sent_away.metadata.finalizers Playbook.playbook_finalizer ≡ true
unfolding str_eq
has_finalizer = refl

reconcile_delete-finalizers_example :
    (reconcile_delete (playbook_env []) sent_away).1.metadata.finalizers ≡ (
      if is_released (playbook_env []) sent_away
      then (remove_finalizer (playbook_env []) sent_away).metadata.finalizers
      else sent_away.metadata.finalizers)
reconcile_delete-finalizers_example =
    reconcile_delete-finalizers (playbook_env []) sent_away has_finalizer

released : is_released (playbook_env []) sent_away ≡ true
unfolding str_eq
released = refl

abbrev to_create : RemotePlaybook
to_create = playbook (Playbook.playbook_finalizer ∷ []) ""

reconcile_normal-creation_example :
    (reconcile_normal (playbook_env []) to_create).2
    ≡ creation (is_due (playbook_env []) to_create) to_create
reconcile_normal-creation_example = reconcile_normal-creation (playbook_env []) to_create

due : is_due (playbook_env []) to_create ≡ true
unfolding str_eq Playbook.find_external
due = refl

abbrev three : List Run.Env
three = fine fresh ∷ fine fresh ∷ fine fresh ∷ []

abbrev followed : RemotePlaybook
followed = playbook (Playbook.playbook_finalizer ∷ []) "install"

starts_unexecuted : has_executed fresh ≡ false
unfolding Conditions.is_true Conditions.get
starts_unexecuted = refl

abbrev end : Playbook.ExternalPlaybook
end = syncs three fresh

makes_executed :
    executed (playbook_env (end ∷ [])) (reconcile_normal (playbook_env (end ∷ [])) followed).1
    ≡ true
unfolding syncs sync sync_limited dispatch prepare execute backing_off run_playbook run_logged
    write_files run_command_io Conditions.mark_true Conditions.set Conditions.get Conditions.is_true
    reconcile_normal sync_agent sync_client on_found Playbook.find_external
    Playbook.append_conditions str_eq insert Playbook.should_adopt Conditions.true_condition
makes_executed = refl

reconcile_normal-Ran_example : Ran three fresh
reconcile_normal-Ran_example =
    reconcile_normal-Ran (playbook_env (end ∷ [])) followed three fresh tt starts_unexecuted refl
      refl makes_executed
