-- ===== src/Provider/Template.antt =====
-- cluster-api-provider-kubeforce/controllers/playbook/reconciler.go: the reconciler that creates the
-- playbooks and the playbook deployments of an object from its templates. Here: the answers, the
-- labels, the references in their order, and how the object of a role is found.
pub mod Create
pub mod Reconcile
pub mod Order
pub mod Writes
pub mod Ready
pub mod Files
use kubeforce.Base.{
  ℕ, String, Bool, true, false, not, ◌&&◌, Option, none, some, List, [], ◌∷◌, ◌++◌, map, StringMap,
  lookup, insert, merge, length, keep, str_eq, str_append, if◌then◌else◌, slt32, sort_stable,
}
use kubeforce.Api.{Error, failure, is_not_found, text, ObjectMeta, OwnerReference}
use kubeforce.Provider.Types.{
  Answer, ok, failed, panicked, and_then, ClusterConditions, TemplateReference, PlaybookTemplates,
  ObjectReference, RemotePlaybookSpec, TemplateSpec, RemoteStatus, RemotePlaybook, RemoteDeployment,
  ControlObject, group_version, has_changes,
}

-- The answers to the calls of one reconciliation. `mark_false` takes the type, the reason, the
-- severity and the message; `decimal` and `quote` print `%d` and `%q`.
pub record Env (V : Type 0) : Type 0 where
  pub is_true : ClusterConditions → String → Bool
  pub mark_true : ClusterConditions → String → ClusterConditions
  pub mark_false : ClusterConditions → String → String → String → String → ClusterConditions
  pub cluster_name_label : String
  pub generate_name : String → String
  pub decimal : ℕ → String
  pub quote : String → String
  pub wrapf : String → Error → Error
  pub marshal : StringMap V → Answer String
  pub patch_data : RemoteDeployment → RemoteDeployment → Answer String
  pub unmarshal : String → Answer (StringMap String)
  pub new_helper : Option Error
  pub list_playbooks : StringMap String → Answer (List RemotePlaybook)
  pub list_deployments : StringMap String → Answer (List RemoteDeployment)
  pub get_playbook_template : String → String → Answer TemplateSpec
  pub get_deployment_template : String → String → Answer TemplateSpec
  pub create_playbook_answer : RemotePlaybook → Answer RemotePlaybook
  pub create_deployment_answer : RemoteDeployment → Answer RemoteDeployment
  pub patch_deployment_answer : RemoteDeployment → Option Error

pub record Reference : Type 0 where
  pub role : String
  pub ref : TemplateReference

pub data Effect (V : Type 0) : Type 0 where
  created_playbook : RemotePlaybook → Effect V
  created_deployment patched_deployment : RemoteDeployment → Effect V
  patched_object : ControlObject V → Effect V

abbrev pub Vars : Type 0 → Type 0
Vars V = Option (StringMap V)

-- A Go nil map is read as an empty one.
abbrev pub entries : {V : Type 0} → Vars V → StringMap V
entries none = []
entries (some m) = m

unfoldable pub merge_vars : {V : Type 0} → Vars V → StringMap V → Vars V
merge_vars vars1 [] = vars1
merge_vars vars1 (v ∷ vars2) = some (merge (v ∷ vars2) (merge (entries vars1) []))

-- A reference of higher priority comes first.
abbrev pub has_priority : Reference → Reference → Bool
has_priority r s = slt32 s.ref.priority r.ref.priority

abbrev pub references_of : StringMap TemplateReference → String → List Reference
references_of [] type = []
references_of ((role, ref) ∷ templates) type =
    let rest = references_of templates type in
    if str_eq ref.type type then record { role = role; ref = ref } ∷ rest else rest

unfoldable pub get_references : StringMap TemplateReference → String → List Reference
get_references templates type = sort_stable has_priority (references_of templates type)

-- A missing key of a Go map reads as the empty text.
abbrev pub text_or_empty : Option String → String
text_or_empty none = ""
text_or_empty (some s) = s

unfoldable pub create_labels : {V : Type 0} → Env V → ControlObject V → String → StringMap String
create_labels env obj role =
    (env.cluster_name_label, text_or_empty (lookup env.cluster_name_label obj.metadata.labels))
    ∷ ("playbook.infrastructure.cluster.x-k8s.io/role", role)
    ∷ ("playbook.infrastructure.cluster.x-k8s.io/agent", obj.agent_name)
    ∷ ("playbook.infrastructure.cluster.x-k8s.io/controller-name", obj.metadata.name)
    ∷ ("playbook.infrastructure.cluster.x-k8s.io/controller-kind", obj.group_kind)
    ∷ []

-- What both searches do with the listed objects.
abbrev pub only_one : {V A : Type 0} → Env V → String → String → Answer (List A) → Answer (Option A)
only_one env kind role (ok []) = ok none
only_one env kind role (ok (x ∷ [])) = ok (some x)
only_one env kind role (ok (x ∷ y ∷ xs)) = failed (
    failure (
      str_append "expected one " (
        str_append kind (
          str_append " for role "
            (str_append role (str_append " but found " (env.decimal (length (x ∷ y ∷ xs)))))))))
only_one env kind role (failed e) = if is_not_found e then ok none else failed e
only_one env kind role panicked = panicked

unfoldable pub find_playbook_by_role :
    {V : Type 0} → Env V → ControlObject V → String → Answer (Option RemotePlaybook)
find_playbook_by_role env obj role =
    only_one env "Playbook" role (env.list_playbooks (create_labels env obj role))

unfoldable pub find_deployment_by_role :
    {V : Type 0} → Env V → ControlObject V → String → Answer (Option RemoteDeployment)
find_deployment_by_role env obj role =
    only_one env "PlaybookDeployment" role (env.list_deployments (create_labels env obj role))
