-- ===== src/Provider/KubeforceAgent.antt =====
-- cluster-api-provider-kubeforce/controllers/kubeforceagent_controller.go: the reconciler that
-- installs an agent, keeps its certificates and its health, and uninstalls it. Here: its state, the
-- answers, the phase, and the names of the secrets of
-- cluster-api-provider-kubeforce/pkg/agent/keys.go.
pub mod Secrets
pub mod Delete
pub mod Request
pub mod Install
pub mod Reconcile
pub mod Deletion
pub mod Health
pub mod Uploads
use kubeforce.Base.{
  ℕ, String, Bool, true, false, not, ◌||◌, ◌&&◌, Option, none, some, List, [], ◌∷◌, StringMap,
  str_eq, str_append, if◌then◌else◌,
}
use kubeforce.Api.{Error, failure, ObjectMeta, OwnerReference, is_deleted, Finalizers}
use kubeforce.Prober.Controller
use kubeforce.Provider.Names.{Bytes, build_name}
use kubeforce.Provider.Types.{
  Answer, ok, failed, panicked, and_then, ClusterConditions, IssuerRef, PrivateKey, SystemInfo,
  Agent, AgentStatus, RemotePlaybook, RemoteDeployment,
}
use kubeforce.Provider.Remote.{ConditionOps}

-- The agent that is reconciled, and the probes, which outlive a reconciliation.
pub record World : Type 0 where
  pub agent : Agent
  pub probes : Controller.Controller

pub record Secret : Type 0 where
  pub metadata : ObjectMeta
  pub contents : StringMap String

-- A namespace and a name.
abbrev pub Key : Type 0
Key = String × String

abbrev pub key_text : Key → String
key_text (namespace, name) = str_append namespace (str_append "/" name)

abbrev pub object_key : ObjectMeta → Key
object_key m = (m.namespace, m.name)

-- The condition Ready of a certificate of cert-manager: its status and its observed generation.
pub record Certificate : Type 0 where
  pub ready : Option (Bool × ℕ)
  pub generation : ℕ

-- The certificate that is asked for.
pub record CertificateRequest : Type 0 where
  pub key : Key
  pub owner_references : List OwnerReference
  pub common_name : String
  pub duration : Option String
  pub renew_before : Option String
  pub dns_names : List String
  pub ip_addresses : List String
  pub secret_name : String
  pub issuer_ref : IssuerRef
  pub private_key : Option PrivateKey

pub data Effect : Type 0 where
  deleted_machine : Key → Effect
  uninstalled : Effect
  uploaded : String → String → Effect
  created_secret patched_secret : Secret → Effect
  deleted_holder : Key → Effect
  created_certificate : CertificateRequest → Effect
  installed : Effect
  patched : Agent → Effect

-- The places of a reconciliation that read secrets.
pub data Round : Type 0 where
  certifying installing connected : Round

-- The answers to the calls of one reconciliation. `cluster_answer` is `ok none` for the error
-- `ErrNoCluster`, and else whether the cluster is paused; `set_summary` takes whether the step
-- counter is added.
pub record Env : Type 0 where
  pub conds : ConditionOps
  pub finalizers : Finalizers
  pub bytes : Bytes
  pub context_done : Bool
  pub request : Key
  pub quote : String → String
  pub wrapf : String → Error → Error
  pub has_paused : ObjectMeta → Bool
  pub has_owner : List OwnerReference → String → List String → Bool
  pub ensure_owner_ref : List OwnerReference → OwnerReference → List OwnerReference
  pub set_summary : Bool → ClusterConditions → ClusterConditions
  pub patch_data : Secret → Secret → Answer String
  pub unmarshal : String → Answer (StringMap String)
  pub get_answer : Answer Agent
  pub cluster_answer : Answer (Option Bool)
  pub new_helper : Option Error
  pub patch_answer : Agent → Option Error
  pub get_machine : Key → Answer ObjectMeta
  pub delete_machine : Key → Option Error
  pub list_playbooks : String → StringMap String → Answer (List RemotePlaybook)
  pub list_deployments : String → StringMap String → Answer (List RemoteDeployment)
  pub client_set : Key → Option Error
  pub uninstall : Option Error
  pub upload : String → String → Option Error
  pub get_secret : Round → Key → Answer Secret
  pub create_secret : Round → Secret → Option Error
  pub patch_secret : Round → Secret → Option Error
  pub get_certificate : Key → Answer Certificate
  pub create_certificate : CertificateRequest → Option Error
  pub get_helper : Option Error
  pub get_ssh_config : Option Error
  pub install : Option Error
  pub server_version : Answer String
  pub sys_info : Answer SystemInfo

abbrev pub agent_finalizer : String
agent_finalizer = "kubeforceagent.infrastructure.cluster.x-k8s.io"

abbrev pub machine_label : String
machine_label = "kubeforceagent.infrastructure.cluster.x-k8s.io/machine"

abbrev pub with_status : (AgentStatus → AgentStatus) → Agent → Agent
with_status f a = record a { status = f a.status }

abbrev pub set_conditions : (ClusterConditions → ClusterConditions) → Agent → Agent
set_conditions f a = with_status (λ s. record s { conditions = f s.conditions }) a

abbrev pub set_phase : Bool → String → AgentStatus → AgentStatus
set_phase true p s = record s { phase = p }
set_phase false p s = s

-- The assignments one after the other.
unfoldable pub reconcile_phase : ConditionOps → Agent → Agent
reconcile_phase conds a =
    let cs = a.status.conditions in
    let installed = conds.is_true cs "AgentInstalled" in
    let s1 = set_phase (str_eq a.status.phase "") "Pending" a.status in
    let s2 = set_phase (not a.spec.is_installed && conds.is_true cs "AgentTLS") "Provisioning" s1 in
    let s3 = set_phase (a.spec.is_installed && not installed) "Installed" s2 in
    let s4 = set_phase (a.spec.is_installed && installed) "Running" s3 in
    let s5 =
      set_phase
        (not (str_eq a.status.failure_reason "") || not (str_eq a.status.failure_message ""))
        "Failed" s4 in
    record a { status = set_phase (is_deleted a.metadata) "Deleting" s5 }

pub data PurposeKey : Type 0 where
  issued_key active_key : PurposeKey

abbrev pub purpose_text : PurposeKey → String
purpose_text issued_key = "tls"
purpose_text active_key = "tls-active"

abbrev pub in_namespace : Agent → Answer String → Answer Key
in_namespace a name = and_then name (λ n. ok (a.metadata.namespace, n))

unfoldable pub get_agent_tls_object_key : Bytes → Agent → PurposeKey → Answer Key
get_agent_tls_object_key bytes a p =
    in_namespace a (build_name bytes a.metadata.name (str_append "-" (purpose_text p)))

abbrev pub client_cert_name : Bytes → Agent → PurposeKey → Answer String
client_cert_name bytes a issued_key = ok a.spec.client_secret
client_cert_name bytes a active_key =
    build_name bytes a.spec.client_secret (str_append "-" (str_append a.metadata.name "-active"))

unfoldable pub get_agent_client_cert_object_key : Bytes → Agent → PurposeKey → Answer Key
get_agent_client_cert_object_key bytes a p =
    if str_eq a.spec.client_secret ""
    then failed (failure "clientSecret is not defined")
    else in_namespace a (client_cert_name bytes a p)
