-- ===== src/Provider/KubeforceCluster.antt =====
-- cluster-api-provider-kubeforce/controllers/kubeforcecluster_controller.go: the reconciler of the
-- infrastructure of a cluster, its load balancer in front of the API servers. Here: the objects of
-- the load balancer, the effects and the answers.
pub mod LoadBalancer
pub mod Sync
pub mod Steps
pub mod Reconcile
pub mod Written
pub mod Balanced
pub mod Settled
pub mod Deletion
use kubeforce.Base.{ℕ, String, Bool, Option, List, StringMap}
use kubeforce.Api.{Error, ObjectMeta, Finalizers}
use kubeforce.Provider.Types.{
  Answer, ClusterConditions, ClusterStatus, Agent, Endpoint, KubeforceCluster, OwnerCluster,
}
use kubeforce.Provider.Names.{Bytes}
use kubeforce.Provider.Remote.{ConditionOps}
use kubeforce.Provider.KubeforceAgent.{Key}
use kubeforce.Provider.KubeforceMachine.{KubeforceMachine}

-- The fields of the Kubernetes objects that the reconciler writes; the others stand as text.
pub record ConfigMap : Type 0 where
  pub metadata : ObjectMeta
  pub contents : StringMap String

pub record Port : Type 0 where
  pub name : String
  pub protocol : String
  pub port : ℕ
  pub target_port : String

pub record Service : Type 0 where
  pub metadata : ObjectMeta
  pub type : String
  pub selector : StringMap String
  pub ports : List Port
  pub others : String

pub record Probe : Type 0 where
  pub path : String
  pub port : ℕ
  pub scheme : String
  pub initial_delay_seconds : ℕ
  pub timeout_seconds : ℕ
  pub period_seconds : ℕ
  pub success_threshold : ℕ
  pub failure_threshold : ℕ

pub record Mount : Type 0 where
  pub name : String
  pub is_read_only : Bool
  pub path : String

pub record Container : Type 0 where
  pub name : String
  pub image : String
  pub pull_policy : String
  pub args : List String
  pub ports : List Port
  pub mounts : List Mount
  pub liveness : Option Probe
  pub readiness : Option Probe
  pub others : String

pub record Volume : Type 0 where
  pub name : String
  pub config_map : String
  pub mode : ℕ

pub record LbDeployment : Type 0 where
  pub metadata : ObjectMeta
  pub template_labels : StringMap String
  pub selector : StringMap String
  pub containers : Option (List Container)
  pub volumes : List Volume
  pub others : String

pub data Effect : Type 0 where
  created_config_map patched_config_map : ConfigMap → Effect
  created_deployment patched_deployment : LbDeployment → Effect
  created_service patched_service : Service → Effect
  patched_endpoint : KubeforceCluster → Effect
  patched_owner : OwnerCluster → Effect
  deleted_kubeconfig : Key → Effect
  patched : KubeforceCluster → Effect

-- The answers to the calls on one kind of object. `patch_data` is the patch from the first to the
-- second.
pub record Client (O : Type 0) : Type 0 where
  pub read : Key → Answer O
  pub patch_data : O → O → Answer String
  pub create : O → Option Error
  pub patch : O → Option Error

-- The answers to the calls of one reconciliation. The owner is the Cluster, where there is one;
-- `render` executes the template of the configuration, and `set_summary` takes whether the step
-- counter is added.
pub record Env : Type 0 where
  pub conds : ConditionOps
  pub finalizers : Finalizers
  pub bytes : Bytes
  pub context_done : Bool
  pub cluster_name_label : String
  pub text_less : String → String → Bool
  pub is_valid : Endpoint → Bool
  pub wrapf : String → Error → Error
  pub unmarshal : String → Answer (StringMap String)
  pub render : List String → Answer String
  pub has_paused : ObjectMeta → Bool
  pub set_summary : Bool → ClusterConditions → ClusterConditions
  pub get_answer : Answer KubeforceCluster
  pub owner_answer : Answer (Option OwnerCluster)
  pub new_helper : Option Error
  pub new_delete_helper : Option Error
  pub patch_answer : KubeforceCluster → Option Error
  pub delete_patch_answer : KubeforceCluster → Option Error
  pub list_machines : String → StringMap String → Answer (List KubeforceMachine)
  pub list_machines_left : String → StringMap String → Answer (List ObjectMeta)
  pub list_playbooks_left : String → StringMap String → Answer (List ObjectMeta)
  pub list_deployments_left : String → StringMap String → Answer (List ObjectMeta)
  pub get_agent : Key → Answer Agent
  pub config_maps : Client ConfigMap
  pub deployments : Client LbDeployment
  pub services : Client Service
  pub endpoint_patch_data : KubeforceCluster → KubeforceCluster → Answer String
  pub patch_endpoint : KubeforceCluster → Answer KubeforceCluster
  pub patch_owner : OwnerCluster → Option Error
  pub get_kubeconfig : Key → Answer Key
  pub delete_secret : Key → Option Error

abbrev pub cluster_finalizer : String
cluster_finalizer = "kubeforcecluster.infrastructure.cluster.x-k8s.io"

abbrev pub owner_key : OwnerCluster → Key
owner_key c = (c.namespace, c.name)

abbrev pub with_status : (ClusterStatus → ClusterStatus) → KubeforceCluster → KubeforceCluster
with_status f c = record c { status = f c.status }

abbrev pub set_conditions :
    (ClusterConditions → ClusterConditions) → KubeforceCluster → KubeforceCluster
set_conditions f c = with_status (λ s. record s { conditions = f s.conditions }) c
