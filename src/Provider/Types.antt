-- ===== src/Provider/Types.antt =====
-- cluster-api-provider-kubeforce/api/v1beta1: the types of the playbooks, of their templates and of
-- the objects that control them, with pkg/util/patch. A Go map that may be nil is an `Option`.
use kubeforce.Base.{◌≡◌, refl, ◌⊎◌, inl, inr, ℕ, String, Bool, Option, List, StringMap, length, ltb}
use kubeforce.Api.{Error, ObjectMeta}

-- What a call leaves: a value, an error, or a run-time panic.
pub data Answer {ℓ} (A : Type ℓ) : Type ℓ where
  ok : A → Answer A
  failed : Error → Answer A
  panicked : Answer A

pub Answer-cases {ℓ} :
    {A : Type ℓ} (a : Answer A)
    → ((x : A) × (a ≡ ok x)) ⊎ (((e : Error) × (a ≡ failed e)) ⊎ (a ≡ panicked))
Answer-cases (ok x) = inl (x, refl)
Answer-cases (failed e) = inr (inl (e, refl))
Answer-cases panicked = inr (inr refl)

abbrev pub and_then {ℓ} : {A B : Type ℓ} → Answer A → (A → Answer B) → Answer B
and_then (ok a) f = f a
and_then (failed e) f = failed e
and_then panicked f = panicked

-- A condition of Cluster API, whose functions are parameters.
pub record ClusterCondition : Type 0 where
  pub type : String
  pub status : String
  pub severity : String
  pub last_transition_time : ℕ
  pub reason : String
  pub message : String

abbrev pub ClusterConditions : Type 0
ClusterConditions = List ClusterCondition

pub record TemplateReference : Type 0 where
  pub kind : String
  pub namespace : String
  pub name : String
  pub api_version : String
  pub priority : ℕ  -- int32
  pub type : String

pub record PlaybookTemplates {ℓ} (V : Type ℓ) : Type ℓ where
  pub references : StringMap TemplateReference
  pub variables : StringMap V

pub record ObjectReference : Type 0 where
  pub kind : String
  pub api_version : String
  pub namespace : String
  pub name : String

pub record PlaybookCondition : Type 0 where
  pub ref : ObjectReference
  pub phase : String
  pub last_transition_time : ℕ

pub record RemotePlaybookSpec : Type 0 where
  pub files : Option (StringMap String)
  pub entrypoint : String

pub record TemplateSpec : Type 0 where
  pub labels : StringMap String
  pub annotations : StringMap String
  pub spec : RemotePlaybookSpec

-- The status that both kinds have, without the observed generation, which the patch helper sets.
pub record RemoteStatus : Type 0 where
  pub phase : String
  pub failure_reason : String
  pub failure_message : String
  pub external_name : String
  pub external_phase : String
  pub conditions : ClusterConditions

pub record RemotePlaybook : Type 0 where
  pub kind : String
  pub api_version : String
  pub metadata : ObjectMeta
  pub agent_ref : String
  pub spec : RemotePlaybookSpec
  pub status : RemoteStatus

pub record RemoteDeployment : Type 0 where
  pub kind : String
  pub api_version : String
  pub metadata : ObjectMeta
  pub agent_ref : String
  pub template : TemplateSpec
  pub revision_history_limit : Option ℕ
  pub is_paused : Bool
  pub status : RemoteStatus
  pub last_spec_checksum : String

-- `PlaybookControlObject`: what its methods return.
pub record ControlObject {ℓ} (V : Type ℓ) : Type ℓ where
  pub kind : String
  pub group_kind : String
  pub metadata : ObjectMeta
  pub agent_name : String
  pub templates : Option (PlaybookTemplates V)
  pub conditions : ClusterConditions
  pub playbook_conditions : Option (StringMap PlaybookCondition)

-- KubeforceAgent. The parts of a specification that the reconcilers only copy stand as text.
pub record Ssh : Type 0 where
  pub secret_name : String
  pub others : String

pub record Addresses : Type 0 where
  pub external_dns : String
  pub external_ip : String
  pub internal_dns : String
  pub internal_ip : String

-- `CertObjectReference`.
pub record IssuerRef : Type 0 where
  pub name : String
  pub kind : String
  pub group : String

pub record PrivateKey : Type 0 where
  pub rotation_policy : String
  pub encoding : String
  pub algorithm : String
  pub size : ℕ

-- The durations are only copied, and stand as text.
pub record CertTemplate : Type 0 where
  pub issuer_ref : IssuerRef
  pub duration : Option String
  pub renew_before : Option String
  pub dns_names : List String
  pub ip_addresses : List String
  pub private_key : Option PrivateKey

-- `client_secret` is the one of the X.509 authentication, `arch` that of the system.
pub record AgentSpec : Type 0 where
  pub is_installed : Bool
  pub addresses : Option Addresses
  pub ssh : Ssh
  pub cert_template : CertTemplate
  pub client_secret : String
  pub arch : String
  pub others : String

pub record SystemInfo : Type 0 where
  pub hostname : String
  pub default_ip_address : String
  pub others : String

pub record AgentStatus : Type 0 where
  pub phase : String
  pub observed_generation : ℕ
  pub conditions : ClusterConditions
  pub failure_reason : String
  pub failure_message : String
  pub agent_info : Option String
  pub system_info : Option SystemInfo

pub record Agent : Type 0 where
  pub metadata : ObjectMeta
  pub spec : AgentSpec
  pub status : AgentStatus

-- KubeforceMachine. `kind` and `group_kind` are what its methods return, and a label selector stands
-- as text.
pub record MachineSpec {ℓ} (V : Type ℓ) : Type ℓ where
  pub provider_id : Option String
  pub agent_selector : Option String
  pub playbook_templates : Option (PlaybookTemplates V)

-- Without the observed generation, which the patch helper sets.
pub record MachineStatus : Type 0 where
  pub is_ready : Bool
  pub agent_ref : Option String
  pub playbooks : Option (StringMap PlaybookCondition)
  pub default_ip_address : String
  pub conditions : ClusterConditions

pub record Machine {ℓ} (V : Type ℓ) : Type ℓ where
  pub kind : String
  pub group_kind : String
  pub metadata : ObjectMeta
  pub spec : MachineSpec V
  pub status : MachineStatus

-- KubeforceCluster: `loadbalancer` is whether it is disabled.
pub record Endpoint : Type 0 where
  pub host : String
  pub port : ℕ

pub record ClusterStatus : Type 0 where
  pub is_ready : Bool
  pub api_servers : Option (List String)
  pub conditions : ClusterConditions

pub record KubeforceCluster : Type 0 where
  pub metadata : ObjectMeta
  pub endpoint : Endpoint
  pub loadbalancer : Option Bool
  pub status : ClusterStatus

-- The Cluster of Cluster API, which owns both, without what the reconcilers do not read.
pub record OwnerCluster : Type 0 where
  pub name : String
  pub namespace : String
  pub is_paused : Bool
  pub is_infrastructure_ready : Bool
  pub infrastructure_ref : Option String
  pub endpoint : Endpoint
  pub conditions : ClusterConditions

abbrev pub group_version : String
group_version = "infrastructure.cluster.x-k8s.io/v1beta1"

-- `HasChanges` of pkg/util/patch: `patch_data` is the patch from the first object to the second, and
-- `unmarshal` gives the fields of its JSON.
abbrev pub is_nonempty {ℓ} : {A : Type ℓ} → List A → Bool
is_nonempty xs = ltb 0 (length xs)

unfoldable pub has_changes {ℓ} :
    {A : Type ℓ} (patch_data : A → A → Answer String)
    (unmarshal : String → Answer (StringMap String)) (wrapf : String → Error → Error)
    → A
    → A
    → Answer Bool
has_changes patch_data unmarshal wrapf old new = elim (patch_data old new) [
  | ok diff ↦ elim (unmarshal diff) [
    | ok fields ↦ ok (is_nonempty fields)
    | failed e ↦ failed (wrapf "failed to unmarshal patch data into a map" e)
    | panicked ↦ panicked
  ]
  | failed e ↦ failed (wrapf "failed to calculate patch data" e)
  | panicked ↦ panicked
]
