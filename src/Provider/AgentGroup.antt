-- ===== src/Provider/AgentGroup.antt =====
-- cluster-api-provider-kubeforce/controllers/kubeforceagentgroup_controller.go: the reconciler that
-- keeps one agent for each address of a group. Here: its types and the agents that it compares.
pub mod Reconcile
pub mod Changes
pub mod Stable
use kubeforce.Base.{
  ℕ, ◌%◌, ◌^◌, String, Bool, true, false, not, ◌&&◌, ◌||◌, Option, none, some, List, [], ◌∷◌, ◌++◌,
  ◌==◌, StringMap, lookup, insert, merge, length, keep, str_eq, str_append, if◌then◌else◌,
}
use kubeforce.Api.{Error, is_not_found, ObjectMeta, OwnerReference, Finalizers, is_deleted}
use kubeforce.Provider.Types.{
  Addresses, Agent, AgentSpec, Answer, ok, failed, panicked, and_then, ClusterConditions,
  group_version, has_changes,
}
use kubeforce.Provider.Names.{Bytes, build_name}

pub record GroupSpec : Type 0 where
  pub addresses : StringMap Addresses
  pub template_labels : StringMap String
  pub template_annotations : StringMap String
  pub template_spec : AgentSpec

pub record GroupStatus : Type 0 where
  pub is_ready : Bool
  pub conditions : ClusterConditions
  pub replicas : ℕ  -- int32
  pub ready_replicas : ℕ  -- int32

pub record Group : Type 0 where
  pub metadata : ObjectMeta
  pub spec : GroupSpec
  pub status : GroupStatus

pub data Effect : Type 0 where
  created deleted patched : Agent → Effect
  group_patched : Group → Effect

-- The answers to the calls of one reconciliation; what is listed depends on what was done before.
-- `waiting_message` prints the names of the agents that are not ready.
pub record Env : Type 0 where
  pub bytes : Bytes
  pub finalizers : Finalizers
  pub delete_dependents : String
  pub infrastructure_ready : String
  pub waiting_reason : String
  pub is_true : ClusterConditions → String → Bool
  pub mark_true : ClusterConditions → String → ClusterConditions
  pub mark_false : ClusterConditions → String → String → String → String → ClusterConditions
  pub set_summary : ClusterConditions → Bool → ClusterConditions
  pub waiting_message : List String → String
  pub wrapf : String → Error → Error
  pub is_controlled_by : ObjectMeta → ObjectMeta → Bool
  pub patch_data : Agent → Agent → Answer String
  pub unmarshal : String → Answer (StringMap String)
  pub get_answer : Answer Group
  pub new_helper : Option Error
  pub list_answer : List Effect → String → StringMap String → Answer (List Agent)
  pub create_answer : Agent → Option Error
  pub delete_answer : Agent → Option Error
  pub patch_answer : Agent → Option Error
  pub group_patch_answer : Group → Option Error

abbrev pub agent_controller_label : String
agent_controller_label = "kubeforceagent.infrastructure.cluster.x-k8s.io/group-name"

abbrev pub agent_group_finalizer : String
agent_group_finalizer = "kubeforceagentgroup.infrastructure.cluster.x-k8s.io"

unfoldable pub build_agent_labels : StringMap String → String → StringMap String
build_agent_labels source_labels group =
    insert agent_controller_label group (merge source_labels [])

unfoldable pub agents_in_group : Env → List Effect → Group → Answer (List Agent)
agents_in_group env es group =
    and_then
      (env.list_answer es group.metadata.namespace
        ((agent_controller_label, group.metadata.name) ∷ []))
      (λ items. ok (keep (λ a. env.is_controlled_by a.metadata group.metadata) items))

-- The agent of one address. `NewControllerRef` makes a blocking controller reference.
abbrev pub desired_agent : Group → Addresses → String → Agent
desired_agent group address name = record {
  metadata = record {
    name = name;
    generate_name = "";
    namespace = group.metadata.namespace;
    uid = "";
    labels = build_agent_labels group.spec.template_labels group.metadata.name;
    annotations = group.spec.template_annotations;
    generation = 0;
    creation_timestamp = 0;
    deletion_timestamp = 0;
    finalizers = [];
    owner_references =
        record {
          api_version = group_version;
          kind = "KubeforceAgentGroup";
          name = group.metadata.name;
          uid = group.metadata.uid;
          controller = true;
          block_owner_deletion = true;
        }
        ∷ [];
  };
  spec = record group.spec.template_spec { addresses = some address };
  status = record {
    phase = "";
    observed_generation = 0;
    conditions = [];
    failure_reason = "";
    failure_message = "";
    agent_info = none;
    system_info = none;
  };
}

abbrev pub desired_for : Env → Group → StringMap Addresses → Answer (List Agent)
desired_for env group [] = ok []
desired_for env group ((key, address) ∷ rest) =
    let others = desired_for env group rest in
    and_then (build_name env.bytes group.metadata.name (str_append "-" key))
      (λ name. and_then others (λ agents. ok (desired_agent group address name ∷ agents)))

unfoldable pub desired_agents : Env → Group → Answer (List Agent)
desired_agents env group = desired_for env group group.spec.addresses

-- A later agent of a name takes the place of an earlier one.
abbrev pub collect : List Agent → StringMap Agent → StringMap Agent
collect [] m = m
collect (a ∷ agents) m = collect agents (insert a.metadata.name a m)

unfoldable pub agents_to_map : List Agent → StringMap Agent
agents_to_map agents = collect agents []

-- A listed agent has labels, by which it is listed, so the assignment meets no nil map.
abbrev pub updated_agent : Agent → Agent → Agent
updated_agent agent desired = record agent {
  metadata = record agent.metadata { labels = merge desired.metadata.labels agent.metadata.labels };
  spec = record agent.spec { ssh = desired.spec.ssh; cert_template = desired.spec.cert_template };
}
