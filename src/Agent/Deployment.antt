-- ===== src/Agent/Deployment.antt =====
-- agent/pkg/controllers/playbookdeployment.go: the reconciler that keeps the newest Playbook of a
-- PlaybookDeployment equal to its template, with the types of
-- agent/pkg/apis/agent/v1alpha1/playbook_deployment_types.go.
pub mod Reconcile
pub mod Newest
pub mod Creation
pub mod Deletion
use kubeforce.Base.{
  ◌≡◌, refl, ◌⊎◌, inl, inr, ℕ, String, Bool, true, false, not, ◌||◌, ◌&&◌, Option, none, some, List,
  [], ◌∷◌, ◌++◌, ltb, ◌==◌, str_eq, str_append, if◌then◌else◌, StringMap, keep, sort_stable, last,
}
use kubeforce.Api.{Error, is_not_found, ObjectMeta, OwnerReference, is_deleted, Finalizers}
use kubeforce.Conditions.{is_true}
use kubeforce.Agent.Types.{
  Playbook, PlaybookSpec, PlaybookPhase, playbook_execution_condition, playbook_failed_condition,
  or_default, set_object_defaults,
}
use kubeforce.Agent.Checksum.{Sum, sum, sum_failed, Hash, calc_sha256_for_object}

pub data DeploymentPhase : Type 0 where
  no_phase progressing succeeded paused failed : DeploymentPhase
  other : String → DeploymentPhase

pub record DeploymentSpec : Type 0 where
  pub template_labels : StringMap String
  pub template_annotations : StringMap String
  pub template_spec : PlaybookSpec
  pub revision_history_limit : Option ℕ
  pub is_paused : Bool

-- SetDefaults_PlaybookDeploymentSpec and SetObjectDefaults_PlaybookDeployment, on the specification.
unfoldable pub set_defaults_deployment_spec : DeploymentSpec → DeploymentSpec
set_defaults_deployment_spec s = record s {
  revision_history_limit = or_default s.revision_history_limit 10;
}

unfoldable pub set_deployment_defaults : DeploymentSpec → DeploymentSpec
unfolding set_defaults_deployment_spec
set_deployment_defaults s = record (set_defaults_deployment_spec s) {
  template_spec = set_object_defaults s.template_spec;
}

pub record DeploymentStatus : Type 0 where
  pub observed_generation : ℕ
  pub phase : DeploymentPhase

pub record Deployment : Type 0 where
  pub metadata : ObjectMeta
  pub spec : DeploymentSpec
  pub status : DeploymentStatus

abbrev pub playbook_deployment_finalizer : String
playbook_deployment_finalizer = "playbookdeployment.agent.kubeforce.io"

pub data Effect : Type 0 where
  patched status_patched : Deployment → Effect
  created deleted : Playbook → Effect

pub data GetAnswer : Type 0 where
  found : Deployment → GetAnswer
  get_failed : Error → GetAnswer

pub data ListAnswer : Type 0 where
  listed : List Playbook → ListAnswer
  list_failed : Error → ListAnswer

pub ListAnswer-cases :
    (a : ListAnswer)
    → ((ps : List Playbook) × (a ≡ listed ps)) ⊎ ((e : Error) × (a ≡ list_failed e))
ListAnswer-cases (listed ps) = inl (ps, refl)
ListAnswer-cases (list_failed e) = inr (e, refl)

-- The answers to the calls of one reconciliation.
pub record Env : Type 0 where
  pub finalizers : Finalizers
  pub hash : Hash PlaybookSpec
  pub is_controlled_by : ObjectMeta → ObjectMeta → Bool
  pub generate_name : String → String
  pub api_version : String
  pub get_answer : GetAnswer
  pub list_answer : ListAnswer
  pub patch_answer : Deployment → Option Error
  pub status_patch_answer : Deployment → Option Error
  pub create_answer : Playbook → Option Error
  pub delete_answer : Playbook → Option Error
  pub new_aggregate : Option Error → Option Error → Option Error

unfoldable pub get_playbooks_for_deployment : Env → Deployment → ListAnswer
get_playbooks_for_deployment env pd = elim env.list_answer [
  | listed items ↦ listed (keep (λ pl. env.is_controlled_by pl.metadata pd.metadata) items)
  | list_failed e ↦ list_failed e
]

abbrev pub created_before : Playbook → Playbook → Bool
created_before p q = ltb p.metadata.creation_timestamp q.metadata.creation_timestamp

unfoldable pub sort_playbooks_by_creation_time : List Playbook → List Playbook
sort_playbooks_by_creation_time playbooks = sort_stable created_before playbooks

pub data LastAnswer : Type 0 where
  last_playbook : Option Playbook → LastAnswer
  last_failed : Error → LastAnswer

unfoldable pub get_last_playbook : Env → Deployment → LastAnswer
get_last_playbook env pd = elim (get_playbooks_for_deployment env pd) [
  | listed playbooks ↦ last_playbook (last (sort_playbooks_by_creation_time playbooks))
  | list_failed e ↦ last_failed e
]

abbrev pub is_executed : Playbook → Bool
is_executed pl = is_true pl.status.conditions playbook_execution_condition

abbrev pub is_failed : Playbook → Bool
is_failed pl = is_true pl.status.conditions playbook_failed_condition

unfoldable pub get_playbook_deployment_phase : Playbook → DeploymentPhase
get_playbook_deployment_phase pl =
    if is_executed pl then succeeded else (if is_failed pl then failed else progressing)

-- The object that `createPlaybook` sends: its other fields are Go's zero values.
unfoldable pub new_playbook : Env → Deployment → Playbook
new_playbook env pd = record {
  metadata = record {
    name = env.generate_name (str_append pd.metadata.name "-");
    generate_name = "";
    namespace = "";
    uid = "";
    labels = pd.spec.template_labels;
    annotations = pd.spec.template_annotations;
    generation = 0;
    creation_timestamp = 0;
    deletion_timestamp = 0;
    finalizers = [];
    owner_references =
        record {
          api_version = env.api_version;
          kind = "PlaybookDeployment";
          name = pd.metadata.name;
          uid = pd.metadata.uid;
          controller = true;
          block_owner_deletion = false;
        }
        ∷ [];
  };
  spec = pd.spec.template_spec;
  status = record { phase = PlaybookPhase.no_phase; conditions = []; failed_count = 0 };
}

-- The part of `Reconcile` under the deferred status patch.
pub record Sync : Type 0 where
  pub deployment : Deployment
  pub error : Option Error
  pub effects : List Effect

abbrev pub with_phase : DeploymentPhase → Deployment → Deployment
with_phase p pd = record pd { status = record pd.status { phase = p } }

abbrev pub with_generation : Deployment → Deployment
with_generation pd = record pd {
  status = record pd.status { observed_generation = pd.metadata.generation };
}

abbrev pub synced : DeploymentPhase → Deployment → Sync
synced p pd = record { deployment = with_phase p pd; error = none; effects = [] }

abbrev pub sync_failed : Error → Deployment → Sync
sync_failed e pd = record { deployment = pd; error = some e; effects = [] }

unfoldable pub create_playbook : Env → Deployment → Sync
create_playbook env pd =
    let p = new_playbook env pd in
    elim (env.create_answer p) [
      | some e ↦ record { deployment = pd; error = some e; effects = created p ∷ [] }
      | none ↦ record {
        deployment = with_phase progressing pd;
        error = none;
        effects = created p ∷ [];
      }
    ]

-- The checksums of the last Playbook and of the template, in the order in which they are computed.
abbrev pub compare_sums : Env → Deployment → Playbook → Sum → Sum → Sync
compare_sums env pd pl (sum_failed e) current = sync_failed e pd
compare_sums env pd pl (sum last) (sum_failed e) = sync_failed e pd
compare_sums env pd pl (sum last) (sum current) =
    if str_eq last current
    then synced (get_playbook_deployment_phase pl) pd
    else create_playbook env pd

abbrev pub is_in_progress : Playbook → Bool
is_in_progress pl = not (is_executed pl) && not (is_failed pl)

unfoldable pub sync_last : Env → Deployment → LastAnswer → Sync
sync_last env pd (last_failed e) = sync_failed e pd
sync_last env pd (last_playbook none) = create_playbook env pd
sync_last env pd (last_playbook (some pl)) =
    if is_in_progress pl
    then synced progressing pd
    else compare_sums env pd pl (calc_sha256_for_object env.hash pl.spec)
        (calc_sha256_for_object env.hash pd.spec.template_spec)

unfoldable pub sync : Env → Deployment → Sync
sync env pd0 =
    let pd = with_generation pd0 in
    if pd.spec.is_paused then synced paused pd else sync_last env pd (get_last_playbook env pd)
