-- ===== src/Provider/Template/Create.antt =====
-- cluster-api-provider-kubeforce/controllers/playbook/reconciler.go: how a playbook or a playbook
-- deployment is created from a template, and how a deployment is updated.
use kubeforce.Base.{
  String, Bool, true, false, Option, none, some, List, [], ◌∷◌, StringMap, insert, merge,
  str_append,
}
use kubeforce.Api.{Error, ObjectMeta}
use kubeforce.Provider.Types.{
  Answer, ok, failed, panicked, TemplateSpec, RemoteStatus, RemotePlaybook, RemoteDeployment,
  ControlObject, group_version, has_changes,
}
use kubeforce.Provider.Template.{
  Env, Effect, created_playbook, created_deployment, patched_deployment, Vars, create_labels,
}

-- `files["variables.yaml"] = data`; an assignment to a nil map panics.
abbrev pub assign : Option (StringMap String) → String → String → Answer (Option (StringMap String))
assign none key content = panicked
assign (some m) key content = ok (some (insert key content m))

abbrev pub add_variables :
    {V : Type 0}
    → Env V
    → String
    → StringMap V
    → Option (StringMap String)
    → Answer (Option (StringMap String))
add_variables env what vars files = elim (env.marshal vars) [
  | ok content ↦ assign files "variables.yaml" content
  | failed e ↦ failed (env.wrapf (str_append "unable to marshal variables for " what) e)
  | panicked ↦ panicked
]

-- The files of a new object, under `len(vars) > 0`.
unfoldable pub files_created :
    {V : Type 0}
    → Env V
    → String
    → Vars V
    → Option (StringMap String)
    → Answer (Option (StringMap String))
files_created env what none files = ok files
files_created env what (some []) files = ok files
files_created env what (some (v ∷ vars)) files = add_variables env what (v ∷ vars) files

-- The files of an updated deployment, under `vars != nil`.
unfoldable pub files_updated :
    {V : Type 0}
    → Env V
    → String
    → Vars V
    → Option (StringMap String)
    → Answer (Option (StringMap String))
files_updated env what none files = ok files
files_updated env what (some vars) files = add_variables env what vars files

abbrev pub new_meta : {V : Type 0} → Env V → ControlObject V → String → ObjectMeta
new_meta env obj role = record {
  name = env.generate_name (str_append obj.metadata.name (str_append "-" (str_append role "-")));
  generate_name = "";
  namespace = obj.metadata.namespace;
  uid = "";
  labels = create_labels env obj role;
  annotations = [];
  generation = 0;
  creation_timestamp = 0;
  deletion_timestamp = 0;
  finalizers = [];
  owner_references =
      record {
        api_version = group_version;
        kind = obj.kind;
        name = obj.metadata.name;
        uid = obj.metadata.uid;
        controller = true;
        block_owner_deletion = true;
      }
      ∷ [];
}

abbrev pub new_status : RemoteStatus
new_status = record {
  phase = "";
  failure_reason = "";
  failure_message = "";
  external_name = "";
  external_phase = "";
  conditions = [];
}

unfoldable pub new_playbook :
    {V : Type 0}
    → Env V
    → ControlObject V
    → TemplateSpec
    → String
    → Option (StringMap String)
    → RemotePlaybook
new_playbook env obj tmpl role files = record {
  kind = "";
  api_version = "";
  metadata = new_meta env obj role;
  agent_ref = obj.agent_name;
  spec = record { files = files; entrypoint = tmpl.spec.entrypoint };
  status = new_status;
}

unfoldable pub new_deployment :
    {V : Type 0}
    → Env V
    → ControlObject V
    → TemplateSpec
    → String
    → Option (StringMap String)
    → RemoteDeployment
new_deployment env obj tmpl role files = record {
  kind = "";
  api_version = "";
  metadata = new_meta env obj role;
  agent_ref = obj.agent_name;
  template = record {
    labels = [];
    annotations = [];
    spec = record { files = files; entrypoint = tmpl.spec.entrypoint };
  };
  revision_history_limit = none;
  is_paused = false;
  status = new_status;
  last_spec_checksum = "";
}

unfoldable pub create_playbook :
    {V : Type 0}
    → Env V
    → ControlObject V
    → TemplateSpec
    → String
    → Vars V
    → Answer RemotePlaybook × List (Effect V)
create_playbook env obj tmpl role vars =
    let name = (new_meta env obj role).name in
    elim (files_created env (str_append "Playbook " name) vars tmpl.spec.files) [
      | ok files ↦ (
        env.create_playbook_answer (new_playbook env obj tmpl role files),
        created_playbook (new_playbook env obj tmpl role files) ∷ [],
      )
      | failed e ↦ (failed e, [])
      | panicked ↦ (panicked, [])
    ]

unfoldable pub create_deployment :
    {V : Type 0}
    → Env V
    → ControlObject V
    → TemplateSpec
    → String
    → Vars V
    → Answer RemoteDeployment × List (Effect V)
create_deployment env obj tmpl role vars =
    let name = (new_meta env obj role).name in
    elim (files_created env (str_append "PlaybookDeployment " name) vars tmpl.spec.files) [
      | ok files ↦ (
        env.create_deployment_answer (new_deployment env obj tmpl role files),
        created_deployment (new_deployment env obj tmpl role files) ∷ [],
      )
      | failed e ↦ (failed e, [])
      | panicked ↦ (panicked, [])
    ]

-- The deployment as `updatePlaybookDeployment` sets it. A found one has labels, by which it is
-- found, so the assignment to its labels meets no nil map.
unfoldable pub desired_deployment :
    {V : Type 0}
    → Env V
    → ControlObject V
    → RemoteDeployment
    → TemplateSpec
    → String
    → Option (StringMap String)
    → RemoteDeployment
desired_deployment env obj pd tmpl role files = record pd {
  metadata = record pd.metadata { labels = merge (create_labels env obj role) pd.metadata.labels };
  agent_ref = obj.agent_name;
  template = record pd.template {
    spec = record { files = files; entrypoint = tmpl.spec.entrypoint };
  };
}

abbrev pub sent_patch :
    {V : Type 0} → Env V → RemoteDeployment → Option Error → Answer Bool × List (Effect V)
sent_patch env pd none = (ok true, patched_deployment pd ∷ [])
sent_patch env pd (some e) =
    (failed (env.wrapf "failed to patch PlaybookDeployment" e), patched_deployment pd ∷ [])

-- The patch of the desired deployment, where it has changes.
abbrev pub patch_changed :
    {V : Type 0} → Env V → RemoteDeployment → Answer Bool → Answer Bool × List (Effect V)
patch_changed env new (ok true) = sent_patch env new (env.patch_deployment_answer new)
patch_changed env new (ok false) = (ok false, [])
patch_changed env new (failed e) = (failed e, [])
patch_changed env new panicked = (panicked, [])

-- Whether the deployment was patched.
unfoldable pub update_deployment :
    {V : Type 0}
    → Env V
    → ControlObject V
    → RemoteDeployment
    → TemplateSpec
    → String
    → Vars V
    → Answer Bool × List (Effect V)
update_deployment env obj pd tmpl role vars =
    elim (files_updated env (str_append "PlaybookDeployment " pd.metadata.name) vars
      tmpl.spec.files) [
        | ok files ↦
            let new = desired_deployment env obj pd tmpl role files in
            patch_changed env new (has_changes env.patch_data env.unmarshal env.wrapf pd new)
        | failed e ↦ (failed e, [])
        | panicked ↦ (panicked, [])
      ]
