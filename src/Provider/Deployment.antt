-- ===== src/Provider/Deployment.antt =====
-- cluster-api-provider-kubeforce/controllers/playbookdeployment_controller.go: the reconciler that
-- keeps the PlaybookDeployment of an agent equal to one of the management cluster. Here: the
-- answers, the phase, and the calls of the agent.
pub mod Delete
pub mod Sync
pub mod Reconcile
pub mod Deletion
pub mod Observed
pub mod Stable
use kubeforce.Base.{
  ℕ, String, Bool, true, false, not, ◌||◌, ◌&&◌, Option, none, some, List, [], ◌∷◌, StringMap,
  length, str_eq, str_append, if◌then◌else◌,
}
use kubeforce.Api.{Error, failure, is_not_found, ObjectMeta, OwnerReference, is_deleted, Finalizers}
use kubeforce.Agent.Checksum.{Hash, Sum, calc_sha256_for_object}
use kubeforce.Agent.Deployment
use kubeforce.Provider.Types.{
  Answer, ok, failed, panicked, Agent, TemplateSpec, RemoteStatus, RemoteDeployment, group_version,
}
use kubeforce.Provider.Remote.{ConditionOps}
use kubeforce.Provider.Playbook.{with_phase, files_of}

abbrev pub ExternalDeployment : Type 0
ExternalDeployment = Deployment.Deployment

-- A patch is named by the object that it leads to.
pub data Effect : Type 0 where
  created : ExternalDeployment → Effect
  patched_external : ExternalDeployment → Effect
  deleted : String → Effect
  patched : RemoteDeployment → Effect

-- What the checksum is taken of.
abbrev pub Spec : Type 0
Spec = String × TemplateSpec × Option ℕ × Bool

-- The answers to the calls of one reconciliation. `cluster_answer` is `ok none` for the error
-- `ErrNoCluster`, and else whether the cluster is paused.
pub record Env : Type 0 where
  pub conds : ConditionOps
  pub finalizers : Finalizers
  pub hash : Hash Spec
  pub context_done : Bool
  pub now : ℕ
  pub decimal : ℕ → String
  pub quote : String → String
  pub wrapf : String → Error → Error
  pub has_paused : ObjectMeta → Bool
  pub has_controller : List OwnerReference → Bool
  pub has_owner : List OwnerReference → String → List String → Bool
  pub ensure_owner_ref : List OwnerReference → OwnerReference → List OwnerReference
  pub patch_data : ExternalDeployment → ExternalDeployment → Answer String
  pub unmarshal : String → Answer (StringMap String)
  pub get_answer : Answer RemoteDeployment
  pub cluster_answer : Answer (Option Bool)
  pub new_helper : Option Error
  pub patch_answer : RemoteDeployment → Option Error
  pub agent_answer : String → String → Answer Agent
  pub client_set : String → String → Option Error
  pub list_external : StringMap String → Answer (List ExternalDeployment)
  pub get_external : String → Answer ExternalDeployment
  pub create_external : ExternalDeployment → Answer ExternalDeployment
  pub patch_external : String → String → Option Error
  pub delete_external : String → Option Error

abbrev pub playbook_deployment_finalizer : String
playbook_deployment_finalizer = "playbookdeployment.infrastructure.cluster.x-k8s.io"

abbrev pub with_status : (RemoteStatus → RemoteStatus) → RemoteDeployment → RemoteDeployment
with_status f pd = record pd { status = f pd.status }

abbrev pub phase_text : Deployment.DeploymentPhase → String
phase_text Deployment.no_phase = ""
phase_text Deployment.progressing = "Progressing"
phase_text Deployment.succeeded = "Succeeded"
phase_text Deployment.paused = "Paused"
phase_text Deployment.failed = "Failed"
phase_text (Deployment.other s) = s

-- The external phase is neither empty nor Progressing, and the condition `Synced` is true.
abbrev pub has_settled : ConditionOps → RemoteStatus → Bool
has_settled conds s =
    not (str_eq s.external_phase "")
    && not (str_eq s.external_phase "Progressing")
    && conds.is_true s.conditions "Synced"

abbrev pub phase_while_running : ConditionOps → RemoteStatus → RemoteStatus
phase_while_running conds s =
    if has_settled conds s
    then with_phase "Completed" s
    else (if str_eq s.phase "" then with_phase "Provisioning" s else with_phase "Synchronization" s)

unfoldable pub reconcile_phase : ConditionOps → RemoteDeployment → RemoteDeployment
reconcile_phase conds pd =
    if not (str_eq pd.status.failure_reason "") || not (str_eq pd.status.failure_message "")
    then with_status (with_phase "Failed") pd
    else (if is_deleted pd.metadata
        then with_status (with_phase "Deleting") pd
        else with_status (phase_while_running conds) pd)

abbrev pub spec_of : RemoteDeployment → Spec
spec_of pd = (pd.agent_ref, pd.template, pd.revision_history_limit, pd.is_paused)

unfoldable pub current_checksum : Env → RemoteDeployment → Sum
current_checksum env pd = calc_sha256_for_object env.hash (spec_of pd)

abbrev pub external_labels : RemoteDeployment → StringMap String
external_labels pd =
    ("agent.kubeforce.io/controller-name", pd.metadata.name)
    ∷ ("agent.kubeforce.io/controller-kind", "infrastructure.cluster.x-k8s.io.PlaybookDeployment")
    ∷ []

abbrev pub only_external :
    Env → Answer (List ExternalDeployment) → Answer (Option ExternalDeployment)
only_external env (ok []) = ok none
only_external env (ok (x ∷ [])) = ok (some x)
only_external env (ok (x ∷ y ∷ xs)) = failed (
    failure (
      str_append "expected one playbookDeployment, but found " (env.decimal (length (x ∷ y ∷ xs)))))
only_external env (failed e) = if is_not_found e then ok none else failed e
only_external env panicked = panicked

unfoldable pub find_external : Env → RemoteDeployment → Answer (Option ExternalDeployment)
find_external env pd = only_external env (env.list_external (external_labels pd))

unfoldable pub to_external_spec : RemoteDeployment → Deployment.DeploymentSpec
to_external_spec pd = record {
  template_labels = pd.template.labels;
  template_annotations = pd.template.annotations;
  template_spec = record {
    policy = none;
    files = files_of pd.template.spec.files;
    entrypoint = pd.template.spec.entrypoint;
  };
  revision_history_limit = pd.revision_history_limit;
  is_paused = pd.is_paused;
}

unfoldable pub new_external : RemoteDeployment → ExternalDeployment
new_external pd = record {
  metadata = record {
    name = "";
    generate_name = str_append pd.metadata.name "-";
    namespace = pd.metadata.namespace;
    uid = "";
    labels = external_labels pd;
    annotations = [];
    generation = 0;
    creation_timestamp = 0;
    deletion_timestamp = 0;
    finalizers = [];
    owner_references = [];
  };
  spec = to_external_spec pd;
  status = record { observed_generation = 0; phase = Deployment.no_phase };
}

-- A limit that is given replaces the one of the agent.
abbrev pub limit_or : Option ℕ → Option ℕ → Option ℕ
limit_or none old = old
limit_or (some n) old = some n

-- The external deployment with the specification of the other one.
unfoldable pub updated_external : RemoteDeployment → ExternalDeployment → ExternalDeployment
updated_external pd ext = record ext {
  spec = record {
    template_labels = pd.template.labels;
    template_annotations = pd.template.annotations;
    template_spec = record ext.spec.template_spec {
      files = files_of pd.template.spec.files;
      entrypoint = pd.template.spec.entrypoint;
    };
    revision_history_limit = limit_or pd.revision_history_limit ext.spec.revision_history_limit;
    is_paused = pd.is_paused;
  };
}

unfoldable pub should_adopt : Env → List OwnerReference → Bool
should_adopt env owners =
    not (env.has_controller owners)
    && not (env.has_owner owners group_version ("KubeforceAgent" ∷ []))
