-- ===== src/Scenarios/Provider.antt =====
-- Runs of the template reconciler and of the agent group reconciler.
use kubeforce.Base.{
  ◌≡◌, refl, ℕ, ◌+◌, ◌≤◌, String, Bool, true, Option, none, some, [], ◌∷◌, StringMap, All, Distinct,
  lookup, insert, merge, sort_stable, insert_stable, str_eq, str_append,
}
use kubeforce.Provider.Types.{
  ok, ClusterConditions, TemplateReference, PlaybookTemplates, RemotePlaybook, TemplateSpec,
  ControlObject,
}
use kubeforce.Provider.Template
use kubeforce.Provider.Template.{
  Reference, has_priority, references_of, get_references, Vars, entries, merge_vars, create_labels,
  find_playbook_by_role,
}
use kubeforce.Provider.Template.Reconcile.{
  reconcile, reconcile_references, reconcile_reference, reconcile_playbook,
}
use kubeforce.Provider.Template.Writes.{writes, is_done, reconcile-writes}
use kubeforce.Provider.Template.Ready.{ReferenceDone, reconcile_ready}
use kubeforce.Scenarios.Library.{object_meta}

abbrev no_conditions : ClusterConditions → String → Bool
no_conditions cs t = true

abbrev pub succeeded_playbook : RemotePlaybook
succeeded_playbook = record {
  kind = "";
  api_version = "";
  metadata = object_meta "node-init-x" [];
  agent_ref = "agent-1";
  spec = record { files = some []; entrypoint = "playbook.yaml" };
  status = record {
    phase = "";
    failure_reason = "";
    failure_message = "";
    external_name = "";
    external_phase = "Succeeded";
    conditions = [];
  };
}

abbrev template_spec : Option (StringMap String) → TemplateSpec
template_spec files = record {
  labels = [];
  annotations = [];
  spec = record { files = files; entrypoint = "playbook.yaml" };
}

-- Every role has one playbook, which has succeeded.
abbrev pub env_of : (V : Type 0) → Template.Env V
env_of V = record {
  is_true = no_conditions;
  mark_true = λ cs t. cs;
  mark_false = λ cs t r s m. cs;
  cluster_name_label = "cluster.x-k8s.io/cluster-name";
  generate_name = λ s. str_append s "x";
  decimal = λ n. "many";
  quote = λ s. s;
  wrapf = λ s e. e;
  marshal = λ vars. ok "variables";
  patch_data = λ old new. ok "{}";
  unmarshal = λ s. ok [];
  new_helper = none;
  list_playbooks = λ labels. ok (succeeded_playbook ∷ []);
  list_deployments = λ labels. ok [];
  get_playbook_template = λ namespace name. ok (template_spec (some []));
  get_deployment_template = λ namespace name. ok (template_spec (some []));
  create_playbook_answer = λ p. ok p;
  create_deployment_answer = λ p. ok p;
  patch_deployment_answer = λ p. none;
}

abbrev template_env : Template.Env String
template_env = env_of String

abbrev reference : ℕ → String → TemplateReference
reference priority kind = record {
  kind = kind;
  namespace = "default";
  name = "template";
  api_version = "v1beta1";
  priority = priority;
  type = "install";
}

abbrev templates : PlaybookTemplates String
templates = record {
  references =
      ("init", reference 10 "PlaybookTemplate")
      ∷ ("loadbalancer", reference 20 "PlaybookTemplate")
      ∷ [];
  variables = ("version", "1.2") ∷ [];
}

abbrev machine : ControlObject String
machine = record {
  kind = "KubeforceMachine";
  group_kind = "KubeforceMachine.infrastructure.cluster.x-k8s.io";
  metadata = object_meta "node" [];
  agent_name = "agent-1";
  templates = some templates;
  conditions = [];
  playbook_conditions = none;
}

machine_ready : (reconcile template_env machine "install" none).answer ≡ ok true
unfolding reconcile reconcile_references reconcile_reference reconcile_playbook
    find_playbook_by_role create_labels get_references sort_stable insert_stable str_eq insert
    lookup merge merge_vars
machine_ready = refl

machine_labels : Distinct (create_labels template_env machine "init")
unfolding create_labels lookup str_eq
machine_labels = (refl, (refl, (refl, (refl, (refl, tt)))))

reconcile-writes_example :
    let o = reconcile template_env machine "install" none in writes o.effects + is_done o.answer ≤ 1
reconcile-writes_example = reconcile-writes template_env machine "install" none

reconcile_ready_example :
    All (ReferenceDone template_env machine) (get_references templates.references "install")
reconcile_ready_example =
    reconcile_ready template_env machine templates "install" none refl machine_ready
