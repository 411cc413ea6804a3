-- ===== src/Scenarios/RemoteDeployment.antt =====
-- Runs of the controller of the playbook deployments of the management cluster.
use kubeforce.Base.{
  ◌≡◌, refl, String, true, false, none, some, [], ◌∷◌, str_eq, str_eq_refl, insert, if◌then◌else◌,
}
use kubeforce.Api.{not_found}
use kubeforce.Agent.Checksum.{json}
use kubeforce.Agent.Deployment
use kubeforce.Provider.Types.{ok, failed, has_changes, RemoteDeployment}
use kubeforce.Provider.Deployment.{
  Env, ExternalDeployment, playbook_deployment_finalizer, current_checksum, find_external,
  new_external, updated_external, should_adopt,
}
use kubeforce.Provider.Deployment.Delete.{remove_finalizer, reconcile_delete}
use kubeforce.Provider.Deployment.Sync.{
  reconcile_normal, update_external, sync_agent, sync_client, on_found, on_updated,
}
use kubeforce.Provider.Deployment.Deletion.{is_released, reconcile_delete-released}
use kubeforce.Provider.Deployment.Observed.{is_synced, SyncedAs, reconcile_normal-SyncedAs}
use kubeforce.Provider.Deployment.Stable.{HasNoChanges, stored, update_external_again}
use kubeforce.Scenarios.Library.{finalizers, object_meta}
use kubeforce.Scenarios.Remote.{conds, healthy_agent, status_named}

abbrev deployment : String → RemoteDeployment
deployment external_name = record {
  kind = "";
  api_version = "";
  metadata = record (object_meta "kubelet" (playbook_deployment_finalizer ∷ [])) {
    labels = ("role", "kubelet") ∷ [];
  };
  agent_ref = "agent-1";
  template = record {
    labels = [];
    annotations = [];
    spec = record { files = some (("site.yaml", "- hosts: all") ∷ []); entrypoint = "site.yaml" };
  };
  revision_history_limit = none;
  is_paused = false;
  status = status_named external_name;
  last_spec_checksum = "";
}

abbrev external : ExternalDeployment
external = record {
  metadata = object_meta "kubelet-abc" [];
  spec = record {
    template_labels = [];
    template_annotations = [];
    template_spec = record {
      policy = none;
      files = ("site.yaml", "- hosts: all") ∷ [];
      entrypoint = "site.yaml";
    };
    revision_history_limit = some 10;
    is_paused = false;
  };
  status = record { observed_generation = 1; phase = Deployment.succeeded };
}

-- A patch has fields if the entrypoints differ.
abbrev env : Env
env = record {
  conds = conds;
  finalizers = finalizers;
  hash = record { marshal = λ s. json "spec"; write = λ s. none; sum_hex = λ s. "5eec" };
  context_done = false;
  now = 90_000_000_000;
  decimal = λ n. "2";
  quote = λ s. s;
  wrapf = λ s e. e;
  has_paused = λ m. false;
  has_controller = λ os. false;
  has_owner = λ os v ks. false;
  ensure_owner_ref = λ os o. o ∷ os;
  patch_data = λ x y. ok (
      if str_eq x.spec.template_spec.entrypoint y.spec.template_spec.entrypoint
      then ""
      else "spec");
  unmarshal = λ s. ok (if str_eq s "" then [] else ("spec", s) ∷ []);
  get_answer = ok (deployment "");
  cluster_answer = ok none;
  new_helper = none;
  patch_answer = λ p. none;
  agent_answer = λ ns name. ok healthy_agent;
  client_set = λ ns name. none;
  list_external = λ ls. ok (external ∷ []);
  get_external = λ name. failed (not_found "gone");
  create_external = λ p. ok p;
  patch_external = λ name d. none;
  delete_external = λ name. none;
}

has_finalizer :
    finalizers.contains (deployment "kubelet-abc").metadata.finalizers playbook_deployment_finalizer
    ≡ true
unfolding str_eq
has_finalizer = refl

reconcile_delete-released_example :
    (reconcile_delete env (deployment "kubelet-abc")).1.metadata.finalizers ≡ (
      if is_released env (deployment "kubelet-abc")
      then (remove_finalizer env (deployment "kubelet-abc")).metadata.finalizers
      else (deployment "kubelet-abc").metadata.finalizers)
reconcile_delete-released_example =
    reconcile_delete-released env (deployment "kubelet-abc") has_finalizer

becomes_synced : is_synced env (reconcile_normal env (deployment "")).1 ≡ true
unfolding str_eq reconcile_normal current_checksum sync_agent sync_client find_external on_found
    update_external has_changes updated_external on_updated insert should_adopt
becomes_synced = refl

reconcile_normal-SyncedAs_example : SyncedAs env (deployment "") (deployment "")
reconcile_normal-SyncedAs_example =
    reconcile_normal-SyncedAs env (deployment "") refl becomes_synced

same_no_changes : (x : ExternalDeployment) → HasNoChanges env x
unfolding has_changes
same_no_changes x = rw (str_eq_refl x.spec.template_spec.entrypoint) (rw (str_eq_refl "") refl)

abbrev stored_external : ExternalDeployment
stored_external =
    stored (object_meta "kubelet-abc" (playbook_deployment_finalizer ∷ [])) external.status none 10
      (new_external (deployment ""))

update_external_again_example :
    (update_external env (deployment "") stored_external ≡ (ok false, []))
    × (update_external env (deployment "") (updated_external (deployment "") external)
        ≡ (ok false, []))
update_external_again_example =
    update_external_again env (deployment "")
      (object_meta "kubelet-abc" (playbook_deployment_finalizer ∷ [])) external.status none 10
      external same_no_changes
