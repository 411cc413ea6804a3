-- ===== src/Provider/Playbook.antt =====
-- cluster-api-provider-kubeforce/controllers/playbook_controller.go: the reconciler that keeps a
-- Playbook of the management cluster in step with the Playbook that it creates on an agent. Here:
-- the answers, the phase, the status, and the calls of the agent.
pub mod Delete
pub mod Sync
pub mod Reconcile
pub mod Deletion
pub mod Completion
pub mod Creation
pub mod EndToEnd
use kubeforce.Base.{
  ℕ, String, Bool, true, false, not, ◌||◌, Option, none, some, List, [], ◌∷◌, StringMap, length,
  str_eq, str_append, if◌then◌else◌,
}
use kubeforce.Api.{Error, failure, is_not_found, ObjectMeta, OwnerReference, is_deleted, Finalizers}
use kubeforce.Conditions
use kubeforce.Conditions.{ConditionStatus, condition_true, condition_false, condition_unknown}
use kubeforce.Agent.Types
use kubeforce.Provider.Types.{
  Answer, ok, failed, panicked, ClusterCondition, ClusterConditions, Agent, RemotePlaybookSpec,
  RemoteStatus, RemotePlaybook, group_version,
}
use kubeforce.Provider.Handler.{Handler, modify, ◌>>=◌, ◌>>◌}
use kubeforce.Provider.Remote.{ConditionOps}

abbrev pub ExternalPlaybook : Type 0
ExternalPlaybook = Types.Playbook

pub data Effect : Type 0 where
  created : ExternalPlaybook → Effect
  deleted : String → Effect
  patched : RemotePlaybook → Effect

-- The answers to the calls of one reconciliation. `cluster_answer` is `ok none` for the error
-- `ErrNoCluster`, and else whether the cluster is paused; an object of the agent is named by its
-- namespace and its name.
pub record Env : Type 0 where
  pub conds : ConditionOps
  pub finalizers : Finalizers
  pub context_done : Bool
  pub now : ℕ
  pub decimal : ℕ → String
  pub quote : String → String
  pub has_paused : ObjectMeta → Bool
  pub has_controller : List OwnerReference → Bool
  pub has_owner : List OwnerReference → String → List String → Bool
  pub ensure_owner_ref : List OwnerReference → OwnerReference → List OwnerReference
  pub get_answer : Answer RemotePlaybook
  pub cluster_answer : Answer (Option Bool)
  pub new_helper : Option Error
  pub patch_answer : RemotePlaybook → Option Error
  pub agent_answer : String → String → Answer Agent
  pub client_set : String → String → Option Error
  pub list_external : StringMap String → Answer (List ExternalPlaybook)
  pub get_external : String → Answer ExternalPlaybook
  pub create_external : ExternalPlaybook → Answer ExternalPlaybook
  pub delete_external : String → Option Error

abbrev pub playbook_finalizer : String
playbook_finalizer = "playbook.infrastructure.cluster.x-k8s.io"

abbrev pub execution : String
execution = Types.playbook_execution_condition

abbrev pub failed_type : String
failed_type = Types.playbook_failed_condition

abbrev pub with_status : (RemoteStatus → RemoteStatus) → RemotePlaybook → RemotePlaybook
with_status f pb = record pb { status = f pb.status }

abbrev pub with_phase : String → RemoteStatus → RemoteStatus
with_phase p s = record s { phase = p }

-- The phase of a condition `Failed` that is true, with its reason and message.
abbrev pub failed_by : ClusterCondition → RemoteStatus → RemoteStatus
failed_by c s = record s {
  phase = "Failed";
  failure_reason = c.reason;
  failure_message = c.message;
}

abbrev pub phase_without_failure : ConditionOps → RemoteStatus → RemoteStatus
phase_without_failure conds s =
    if conds.is_true s.conditions execution
    then with_phase "Completed" s
    else (if conds.is_true s.conditions "Synced"
        then with_phase "Synchronization" s
        else (if str_eq s.phase "" then with_phase "Provisioning" s else with_phase "Unknown" s))

abbrev pub phase_by_condition : ConditionOps → Option ClusterCondition → RemoteStatus → RemoteStatus
phase_by_condition conds none s = phase_without_failure conds s
phase_by_condition conds (some c) s =
    if str_eq c.status "True" then failed_by c s else phase_without_failure conds s

unfoldable pub reconcile_phase : ConditionOps → RemotePlaybook → RemotePlaybook
reconcile_phase conds pb =
    if not (str_eq pb.status.failure_reason "") || not (str_eq pb.status.failure_message "")
    then with_status (with_phase "Failed") pb
    else (if is_deleted pb.metadata
        then with_status (with_phase "Deleting") pb
        else with_status (phase_by_condition conds (conds.get pb.status.conditions failed_type)) pb)

-- `reason` and `message` of a failure, and the condition `Synced`.
abbrev pub set_failure : String → String → RemoteStatus → RemoteStatus
set_failure reason message s = record s { failure_reason = reason; failure_message = message }

abbrev pub set_conditions : ClusterConditions → RemoteStatus → RemoteStatus
set_conditions cs s = record s { conditions = cs }

abbrev pub synced : ConditionOps → RemoteStatus → RemoteStatus
synced conds s = set_conditions (conds.mark_true s.conditions "Synced") s

abbrev pub not_synced : ConditionOps → String → String → String → RemoteStatus → RemoteStatus
not_synced conds reason severity message s =
    set_conditions (conds.mark_false s.conditions "Synced" reason severity message) s

-- The three statements by which every error is recorded.
abbrev pub record_failure :
    ConditionOps → String → String → String → String → String → RemotePlaybook → RemotePlaybook
record_failure conds reason message cond_reason severity cond_message pb =
    with_status
      (λ s. not_synced conds cond_reason severity cond_message (set_failure reason message s)) pb

abbrev pub cluster_status : ConditionStatus → String
cluster_status condition_true = "True"
cluster_status condition_false = "False"
cluster_status condition_unknown = "Unknown"

abbrev pub cluster_condition : Conditions.Condition → ClusterCondition
cluster_condition c = record {
  type = c.type;
  status = cluster_status c.status;
  severity = "";
  last_transition_time = 0;
  reason = c.reason;
  message = c.message;
}

unfoldable pub append_conditions :
    ConditionOps → List Conditions.Condition → ClusterConditions → ClusterConditions
append_conditions conds [] cs = cs
append_conditions conds (c ∷ rest) cs =
    append_conditions conds rest (conds.set cs (cluster_condition c))

abbrev pub external_labels : RemotePlaybook → StringMap String
external_labels pb =
    ("agent.kubeforce.io/controller-name", pb.metadata.name)
    ∷ ("agent.kubeforce.io/controller-kind", "infrastructure.cluster.x-k8s.io.Playbook")
    ∷ []

abbrev pub only_external : Env → Answer (List ExternalPlaybook) → Answer (Option ExternalPlaybook)
only_external env (ok []) = ok none
only_external env (ok (x ∷ [])) = ok (some x)
only_external env (ok (x ∷ y ∷ xs)) =
    failed
      (failure (str_append "expected one playbook, but found " (env.decimal (length (x ∷ y ∷ xs)))))
only_external env (failed e) = if is_not_found e then ok none else failed e
only_external env panicked = panicked

unfoldable pub find_external : Env → RemotePlaybook → Answer (Option ExternalPlaybook)
find_external env pb = only_external env (env.list_external (external_labels pb))

abbrev pub files_of : Option (StringMap String) → StringMap String
files_of none = []
files_of (some files) = files

unfoldable pub new_external : RemotePlaybook → ExternalPlaybook
new_external pb = record {
  metadata = record {
    name = "";
    generate_name = str_append pb.metadata.name "-";
    namespace = pb.metadata.namespace;
    uid = "";
    labels = external_labels pb;
    annotations = [];
    generation = 0;
    creation_timestamp = 0;
    deletion_timestamp = 0;
    finalizers = [];
    owner_references = [];
  };
  spec = record { policy = none; files = files_of pb.spec.files; entrypoint = pb.spec.entrypoint };
  status = record { phase = Types.no_phase; conditions = []; failed_count = 0 };
}

abbrev pub phase_text : Types.PlaybookPhase → String
phase_text Types.no_phase = ""
phase_text Types.pending = "Pending"
phase_text Types.running = "Running"
phase_text Types.succeeded = "Succeeded"
phase_text Types.failed = "Failed"
phase_text Types.unknown = "Unknown"
phase_text (Types.other s) = s

unfoldable pub should_adopt : Env → List OwnerReference → Bool
should_adopt env owners =
    if env.has_controller owners
    then false
    else not (env.has_owner owners group_version ("KubeforceAgent" ∷ []))

-- `NewControllerRef` of an agent.
abbrev pub agent_ref : Agent → OwnerReference
agent_ref a = record {
  api_version = group_version;
  kind = "KubeforceAgent";
  name = a.metadata.name;
  uid = a.metadata.uid;
  controller = true;
  block_owner_deletion = true;
}
