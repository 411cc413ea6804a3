-- ===== src/Provider/KubeforceMachine.antt =====
-- cluster-api-provider-kubeforce/controllers/kubeforcemachine_controller.go: the reconciler that
-- binds a machine to an agent, installs and boots it, and cleans the agent up. Here: its state, its
-- answers, and the bootstrap configuration of controllers/kubeadm.
pub mod AgentRef
pub mod Cleanup
pub mod Delete
pub mod Boot
pub mod Reconcile
pub mod Claims
pub mod Deletion
pub mod Bootstrapped
pub mod Binding
pub mod Readiness
pub mod Provisioned
use kubeforce.Base.{
  ℕ, String, Bool, true, false, not, Option, none, some, List, [], ◌∷◌, StringMap, lookup, str_eq,
  str_append, if◌then◌else◌,
}
use kubeforce.Api.{Error, failure, ObjectMeta, Finalizers}
use kubeforce.Provider.Call.{wrapped}
use kubeforce.Provider.Types.{
  Answer, ok, failed, panicked, and_then, ClusterConditions, SystemInfo, Agent, RemotePlaybook,
  RemoteDeployment, ControlObject, Machine, MachineStatus, KubeforceCluster, OwnerCluster,
}
use kubeforce.Provider.Handler.{Handler, modify}
use kubeforce.Provider.Remote.{ConditionOps}
use kubeforce.Provider.Template
use kubeforce.Provider.KubeforceAgent.{Key}

-- A variable of a playbook: what the reconciler computes, or what a template says.
pub data Value : Type 0 where
  text_value : String → Value
  texts_value : List String → Value
  system_value : Option SystemInfo → Value
  template_value : String → Value

abbrev pub KubeforceMachine : Type 0
KubeforceMachine = Machine Value

-- The Machine of Cluster API: the namespace and the name of its bootstrap configuration follow the
-- kind.
pub record Owner : Type 0 where
  pub metadata : ObjectMeta
  pub data_secret_name : Option String
  pub config_ref : Option (String × Key)
  pub version : Option String

-- What `ToPlaybook` makes of the bootstrap data.
pub record PlaybookData : Type 0 where
  pub files : Option (StringMap String)
  pub entrypoint : String

pub data Effect : Type 0 where
  updated_agent : Agent → Effect
  deleted_playbook created_playbook : RemotePlaybook → Effect
  deleted_deployment : RemoteDeployment → Effect
  patched_node : String → String → Effect
  templates : Template.Effect Value → Effect
  patched : KubeforceMachine → Effect

-- The places of a reconciliation that read the same objects.
pub data Round : Type 0 where
  binding provisioning deleting : Round

pub data Sweep : Type 0 where
  of_install of_all : Sweep

-- The answers to the calls of one reconciliation. `set_summary` takes whether the step counter is
-- added, `new_helper`, `client`, `update_agent` and the like answer with an error only, and
-- `text_less` is the order of `sort.Strings`.
pub record Env : Type 0 where
  pub conds : ConditionOps
  pub finalizers : Finalizers
  pub template : Template.Env Value
  pub context_done : Bool
  pub now : ℕ
  pub text_less : String → String → Bool
  pub has_paused : ObjectMeta → Bool
  pub is_control_plane_machine : ObjectMeta → Bool
  pub set_summary : Bool → ClusterConditions → ClusterConditions
  pub get_answer : Answer KubeforceMachine
  pub cluster_answer : Answer OwnerCluster
  pub new_helper : Option Error
  pub patch_answer : KubeforceMachine → Option Error
  pub get_cluster : Key → Answer KubeforceCluster
  pub owner_machine : Answer (Option Owner)
  pub get_secret : Key → Answer (StringMap String)
  pub get_kubeadm_config : Key → Answer String
  pub to_playbook : String → String → Answer PlaybookData
  pub get_agent : Round → Key → Answer Agent
  pub list_agents : String → StringMap String → Answer (List Agent)
  pub label_selector : String → Answer String
  pub list_selected : String → String → Answer (List Agent)
  pub update_agent : Agent → Option Error
  pub list_playbooks : Sweep → StringMap String → Answer (List RemotePlaybook)
  pub delete_playbook : Sweep → RemotePlaybook → Option Error
  pub list_deployments : Sweep → StringMap String → Answer (List RemoteDeployment)
  pub delete_deployment : Sweep → RemoteDeployment → Option Error
  pub list_boot : StringMap String → Answer (List RemotePlaybook)
  pub create_boot : RemotePlaybook → Answer RemotePlaybook
  pub node_client : Option Error
  pub get_node : String → Answer String
  pub patch_node : String → String → Option Error

abbrev pub machine_finalizer : String
machine_finalizer = "kubeforcemachine.infrastructure.cluster.x-k8s.io"

abbrev pub machine_label : String
machine_label = "kubeforceagent.infrastructure.cluster.x-k8s.io/machine"

-- The interface `Config`, as the answers of its methods.
pub record Config : Type 0 where
  pub is_data_available : Bool
  pub bootstrap_data : Answer String
  pub kubeadm_config : Answer String
  pub is_control_plane : Bool
  pub kubernetes_version : String

abbrev pub is_some : {A : Type 0} → Option A → Bool
is_some none = false
is_some (some a) = true

abbrev owner_text : Owner → String
owner_text m = str_append m.metadata.namespace (str_append "/" m.metadata.name)

abbrev secret_value : Option String → Answer String
secret_value none = failed (failure "error retrieving bootstrap data: secret value key is missing")
secret_value (some value) = ok value

-- `GetBootstrapData`, with the error of a name that is missing.
unfoldable pub get_bootstrap_data : Env → String → Owner → Answer String
get_bootstrap_data env missing m = elim m.data_secret_name [
  | none ↦ failed (failure missing)
  | some name ↦
      and_then
        (wrapped
          (env.template.wrapf (
            str_append "failed to retrieve bootstrap data secret for KubeforceMachine "
              (owner_text m)))
          (env.get_secret (m.metadata.namespace, name)))
        (λ contents. secret_value (lookup "value" contents))
]

unfoldable pub get_kubeadm_config : Env → Owner → Answer String
get_kubeadm_config env m = elim m.config_ref [
  | none ↦
      failed
        (failure "unable to get bootstrap config ref: linked Machine's bootstrap.configRef is nil")
  | some (kind, key) ↦
      if str_eq kind "KubeadmConfig"
      then wrapped
          (env.template.wrapf
            (str_append "failed to retrieve bootstrap config for Machine " (owner_text m)))
          (env.get_kubeadm_config key)
      else failed (failure (str_append "unknown type of bootstrap config: " kind))
]

abbrev pub machine_config : Env → Owner → Config
machine_config env m = record {
  is_data_available = is_some m.data_secret_name;
  bootstrap_data =
      get_bootstrap_data env
        "error retrieving bootstrap data: linked Machine's bootstrap.dataSecretName is nil" m;
  kubeadm_config = get_kubeadm_config env m;
  is_control_plane = env.is_control_plane_machine m.metadata;
  kubernetes_version = Template.text_or_empty m.version;
}

-- The configuration of a MachinePool, with the bootstrap of its template.
abbrev pub machine_pool_config : Env → Owner → Config
machine_pool_config env m = record {
  is_data_available = is_some m.data_secret_name;
  bootstrap_data =
      get_bootstrap_data env
        "error retrieving bootstrap data: linked bootstrap.dataSecretName is nil" m;
  kubeadm_config = get_kubeadm_config env m;
  is_control_plane = false;
  kubernetes_version = Template.text_or_empty m.version;
}

abbrev pub on_owner : Env → Option Owner → Answer (Option Config)
on_owner env none = ok none
on_owner env (some m) = ok (some (machine_config env m))

unfoldable pub get_config : Env → Answer (Option Config)
get_config env =
    and_then
      (wrapped (env.template.wrapf "unable to get owner machine for KubeforceMachine")
        env.owner_machine)
      (on_owner env)

abbrev pub Action : Type 0 → Type 0
Action A = Handler KubeforceMachine Effect A

abbrev pub with_status : (MachineStatus → MachineStatus) → KubeforceMachine → KubeforceMachine
with_status f m = record m { status = f m.status }

abbrev pub set_conditions :
    (ClusterConditions → ClusterConditions) → KubeforceMachine → KubeforceMachine
set_conditions f m = with_status (λ s. record s { conditions = f s.conditions }) m

abbrev pub mark_true : Env → String → Action (Unit {0})
mark_true env t = modify (set_conditions (λ cs. env.conds.mark_true cs t))

abbrev pub mark_false : Env → String → String → String → String → Action (Unit {0})
mark_false env t reason severity message =
    modify (set_conditions (λ cs. env.conds.mark_false cs t reason severity message))
