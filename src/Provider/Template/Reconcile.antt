-- ===== src/Provider/Template/Reconcile.antt =====
-- cluster-api-provider-kubeforce/controllers/playbook/reconciler.go: `Reconcile` and the two
-- functions for one reference.
use kubeforce.Base.{
  String, Bool, true, false, ◌&&◌, Option, none, some, List, [], ◌∷◌, ◌++◌, StringMap, insert,
  str_eq, str_append, if◌then◌else◌,
}
use kubeforce.Api.{Error, failure, text}
use kubeforce.Provider.Types.{
  Answer, ok, failed, panicked, PlaybookTemplates, PlaybookCondition, ObjectReference,
  ClusterConditions, RemotePlaybook, RemoteDeployment, RemoteStatus, TemplateSpec, ControlObject,
}
use kubeforce.Provider.Template.{
  Env, Reference, Effect, patched_object, Vars, merge_vars, get_references, find_playbook_by_role,
  find_deployment_by_role,
}
use kubeforce.Provider.Template.Create.{create_playbook, create_deployment, update_deployment}

pub record Outcome (V : Type 0) : Type 0 where
  pub object : ControlObject V
  pub answer : Answer Bool
  pub effects : List (Effect V)

abbrev pub outcome : {V : Type 0} → ControlObject V → Answer Bool → List (Effect V) → Outcome V
outcome obj a es = record { object = obj; answer = a; effects = es }

-- `playbookConditions[role] = ...` and `SetPlaybookConditions`, on a map made where it is nil.
abbrev pub conditions_of : Option (StringMap PlaybookCondition) → StringMap PlaybookCondition
conditions_of none = []
conditions_of (some m) = m

abbrev pub set_playbook_condition :
    {V : Type 0} → String → ObjectReference → RemoteStatus → ControlObject V → ControlObject V
set_playbook_condition role ref status obj = record obj {
  playbook_conditions = some (
      insert role (record { ref = ref; phase = status.external_phase; last_transition_time = 0 })
        (conditions_of obj.playbook_conditions));
}

-- objToRef.
abbrev pub playbook_to_ref : RemotePlaybook → ObjectReference
playbook_to_ref p = record {
  kind = p.kind;
  api_version = p.api_version;
  namespace = p.metadata.namespace;
  name = p.metadata.name;
}

abbrev pub deployment_to_ref : RemoteDeployment → ObjectReference
deployment_to_ref p = record {
  kind = p.kind;
  api_version = p.api_version;
  namespace = p.metadata.namespace;
  name = p.metadata.name;
}

abbrev pub has_succeeded : {V : Type 0} → Env V → RemoteStatus → Bool
has_succeeded env status =
    env.is_true status.conditions "Synced" && str_eq status.external_phase "Succeeded"

abbrev pub recorded_playbook :
    {V : Type 0} → String → ControlObject V → Answer RemotePlaybook × List (Effect V) → Outcome V
recorded_playbook role obj (ok p, es) =
    outcome (set_playbook_condition role (playbook_to_ref p) p.status obj) (ok false) es
recorded_playbook role obj (failed e, es) = outcome obj (failed e) es
recorded_playbook role obj (panicked, es) = outcome obj panicked es

abbrev pub playbook_step :
    {V : Type 0}
    → Env V
    → ControlObject V
    → String
    → Vars V
    → Option RemotePlaybook
    → TemplateSpec
    → Outcome V
playbook_step env obj role vars none tmpl =
    recorded_playbook role obj (create_playbook env obj tmpl role vars)
playbook_step env obj role vars (some p) tmpl =
    outcome (set_playbook_condition role (playbook_to_ref p) p.status obj)
      (ok (has_succeeded env p.status)) []

unfoldable pub reconcile_playbook :
    {V : Type 0} → Env V → ControlObject V → Reference → Vars V → Outcome V
reconcile_playbook env obj ref vars = elim (find_playbook_by_role env obj ref.role) [
  | ok p ↦ elim (env.get_playbook_template ref.ref.namespace ref.ref.name) [
    | ok tmpl ↦ playbook_step env obj ref.role vars p tmpl
    | failed e ↦ outcome obj (failed e) []
    | panicked ↦ outcome obj panicked []
  ]
  | failed e ↦ outcome obj (failed e) []
  | panicked ↦ outcome obj panicked []
]

abbrev pub recorded_deployment :
    {V : Type 0} → String → ControlObject V → Answer RemoteDeployment × List (Effect V) → Outcome V
recorded_deployment role obj (ok p, es) =
    outcome (set_playbook_condition role (deployment_to_ref p) p.status obj) (ok false) es
recorded_deployment role obj (failed e, es) = outcome obj (failed e) es
recorded_deployment role obj (panicked, es) = outcome obj panicked es

-- What follows the update of a found deployment: after a patch its status says nothing yet.
abbrev pub updated_deployment :
    {V : Type 0}
    → Env V
    → ControlObject V
    → RemoteStatus
    → Answer Bool × List (Effect V)
    → Outcome V
updated_deployment env obj status (ok true, es) = outcome obj (ok false) es
updated_deployment env obj status (ok false, es) = outcome obj (ok (has_succeeded env status)) es
updated_deployment env obj status (failed e, es) = outcome obj (failed e) es
updated_deployment env obj status (panicked, es) = outcome obj panicked es

abbrev pub deployment_step :
    {V : Type 0}
    → Env V
    → ControlObject V
    → String
    → Vars V
    → Option RemoteDeployment
    → TemplateSpec
    → Outcome V
deployment_step env obj role vars none tmpl =
    recorded_deployment role obj (create_deployment env obj tmpl role vars)
deployment_step env obj role vars (some p) tmpl =
    let obj' = set_playbook_condition role (deployment_to_ref p) p.status obj in
    updated_deployment env obj' p.status (update_deployment env obj' p tmpl role vars)

unfoldable pub reconcile_deployment :
    {V : Type 0} → Env V → ControlObject V → Reference → Vars V → Outcome V
reconcile_deployment env obj ref vars = elim (find_deployment_by_role env obj ref.role) [
  | ok p ↦ elim (env.get_deployment_template ref.ref.namespace ref.ref.name) [
    | ok tmpl ↦ deployment_step env obj ref.role vars p tmpl
    | failed e ↦ outcome obj (failed e) []
    | panicked ↦ outcome obj panicked []
  ]
  | failed e ↦ outcome obj (failed e) []
  | panicked ↦ outcome obj panicked []
]

unfoldable pub reconcile_reference :
    {V : Type 0} → Env V → ControlObject V → Reference → Vars V → Outcome V
reconcile_reference env obj ref vars =
    if str_eq ref.ref.kind "PlaybookTemplate"
    then reconcile_playbook env obj ref vars
    else (if str_eq ref.ref.kind "PlaybookDeploymentTemplate"
        then reconcile_deployment env obj ref vars
        else outcome obj
            (failed (failure (str_append "unsupported kind " (env.quote ref.ref.kind)))) [])

abbrev pub marked : {V : Type 0} → ClusterConditions → ControlObject V → ControlObject V
marked cs obj = record obj { conditions = cs }

-- The loop after one reference: its error or its wait ends it.
abbrev pub continue :
    {V : Type 0}
    → Env V
    → String
    → String
    → Answer Bool
    → ControlObject V
    → List (Effect V)
    → Outcome V
    → Outcome V
continue env cond role (ok true) obj es rest = outcome rest.object rest.answer (es ++ rest.effects)
continue env cond role (ok false) obj es rest =
    outcome
      (marked
        (env.mark_false obj.conditions cond "WaitingForCompletionPhase" "Info"
          (str_append "waiting for playbook with role: " role))
        obj)
      (ok false) es
continue env cond role (failed e) obj es rest =
    outcome
      (marked (env.mark_false obj.conditions cond "PlaybooksDeployingFailed" "Error" (text e)) obj)
      (failed e) es
continue env cond role panicked obj es rest = outcome obj panicked es

unfoldable pub reconcile_references :
    {V : Type 0} → Env V → String → Vars V → List Reference → ControlObject V → Outcome V
reconcile_references env cond vars [] obj =
    outcome (marked (env.mark_true obj.conditions cond) obj) (ok true) []
reconcile_references env cond vars (ref ∷ refs) obj =
    let o = reconcile_reference env obj ref vars in
    continue env cond ref.role o.answer o.object o.effects
      (reconcile_references env cond vars refs o.object)

-- The deferred patch; its error is only logged.
abbrev pub with_patch : {V : Type 0} → Outcome V → Outcome V
with_patch o = outcome o.object o.answer (o.effects ++ (patched_object o.object ∷ []))

abbrev pub condition_of : String → Option String
condition_of type =
    if str_eq type "install"
    then some "InitPlaybooksCompleted"
    else (if str_eq type "delete" then some "CleanupPlaybooksCompleted" else none)

abbrev pub reconcile_type :
    {V : Type 0}
    → Env V
    → ControlObject V
    → PlaybookTemplates V
    → String
    → Vars V
    → Option String
    → Outcome V
reconcile_type env obj ts type vars none =
    outcome obj (failed (failure (str_append "unsupported templateType " (env.quote type)))) []
reconcile_type env obj ts type vars (some cond) =
    reconcile_references env cond (merge_vars vars ts.variables) (get_references ts.references type)
      obj

abbrev pub reconcile_templates :
    {V : Type 0}
    → Env V
    → ControlObject V
    → PlaybookTemplates V
    → String
    → Vars V
    → Option Error
    → Outcome V
reconcile_templates env obj ts type vars (some e) = outcome obj (failed e) []
reconcile_templates env obj ts type vars none =
    with_patch (reconcile_type env obj ts type vars (condition_of type))

abbrev pub reconcile_any :
    {V : Type 0}
    → Env V
    → ControlObject V
    → String
    → Vars V
    → Option (PlaybookTemplates V)
    → Outcome V
reconcile_any env obj type vars none = outcome obj (ok true) []
reconcile_any env obj type vars (some ts) = reconcile_templates env obj ts type vars env.new_helper

unfoldable pub reconcile : {V : Type 0} → Env V → ControlObject V → String → Vars V → Outcome V
reconcile env obj type vars = reconcile_any env obj type vars obj.templates
