-- ===== src/Scenarios/Machine.antt =====
-- Runs of the controller of the machines.
use kubeforce.Base.{
  ◌≡◌, refl, true, false, none, some, [], ◌∷◌, lookup, insert, delete, str_eq, str_append, String,
  Option,
}
use kubeforce.Api.{ObjectMeta, not_found}
use kubeforce.Provider.Types.{ok, failed, Agent, RemotePlaybook, KubeforceCluster, OwnerCluster}
use kubeforce.Provider.Template.{create_labels}
use kubeforce.Provider.Template.Reconcile
use kubeforce.Provider.KubeforceMachine.{
  Value, KubeforceMachine, Env, Owner, machine_finalizer, machine_label, get_config,
}
use kubeforce.Provider.KubeforceMachine.AgentRef.{
  reconcile_agent_ref, check_agent, find_free_agent, find_agent, agents_by_selector, take_agent,
}
use kubeforce.Provider.KubeforceMachine.Claims.{ClaimsOne, reconcile_agent_ref-Claim}
use kubeforce.Provider.KubeforceMachine.Delete.{reconcile_delete}
use kubeforce.Provider.KubeforceMachine.Deletion.{
  finalizers, released_if, leaves, reconcile_delete-leaves,
}
use kubeforce.Provider.KubeforceMachine.Reconcile.{
  reconcile_normal, provision, install_with_agent, bootstrap, identify_node,
}
use kubeforce.Provider.KubeforceMachine.Boot.{
  reconcile_cloud_init_playbook, find_playbook_by_role, reconcile_node_provider_id,
}
use kubeforce.Provider.KubeforceMachine.Cleanup
use kubeforce.Provider.KubeforceMachine.Provisioned.{IsProvisioned, reconcile_normal-IsProvisioned}
use kubeforce.Scenarios.Library
use kubeforce.Scenarios.Library.{object_meta}
use kubeforce.Scenarios.Remote.{conds, condition, agent}
use kubeforce.Scenarios.Provider.{env_of, succeeded_playbook}

abbrev machine_meta : ObjectMeta
machine_meta = record (object_meta "node-1" (machine_finalizer ∷ [])) {
  labels = ("cluster.x-k8s.io/cluster-name", "c1") ∷ [];
}

-- Bound to the agent, or to none.
abbrev machine : Option String → KubeforceMachine
machine ref = record {
  kind = "KubeforceMachine";
  group_kind = "KubeforceMachine.infrastructure.cluster.x-k8s.io";
  metadata = machine_meta;
  spec = record { provider_id = none; agent_selector = some "pool=a"; playbook_templates = none };
  status = record {
    is_ready = false;
    agent_ref = ref;
    playbooks = none;
    default_ip_address = "";
    conditions = [];
  };
}

abbrev ready_agent : String → Agent
ready_agent label =
    let a = agent (condition "Healthy" "True" "" "" "" ∷ condition "Ready" "True" "" "" "" ∷ []) in
    record a {
      metadata = record a.metadata { labels = (machine_label, label) ∷ [] };
      status = record a.status {
        system_info =
            some (record { hostname = "host-1"; default_ip_address = "10.0.0.1"; others = "" });
      };
    }

abbrev synced_playbook : RemotePlaybook
synced_playbook = record succeeded_playbook {
  status = record succeeded_playbook.status {
    conditions = condition "Synced" "True" "" "" "" ∷ [];
  };
}

abbrev owner : Owner
owner = record {
  metadata = machine_meta;
  data_secret_name = some "bootstrap";
  config_ref = none;
  version = some "v1.25.0";
}

abbrev env : Env
env = record {
  conds = conds;
  finalizers = Library.finalizers;
  template = env_of Value;
  context_done = false;
  now = 0;
  text_less = λ s t. false;
  has_paused = λ m. false;
  is_control_plane_machine = λ m. false;
  set_summary = λ b cs. cs;
  get_answer = ok (machine (some "agent-1"));
  cluster_answer = failed (not_found "cluster");
  new_helper = none;
  patch_answer = λ m. none;
  get_cluster = λ k. failed (not_found "cluster");
  owner_machine = ok (some owner);
  get_secret = λ k. failed (not_found "secret");
  get_kubeadm_config = λ k. failed (not_found "config");
  to_playbook = λ config contents. ok (record { files = none; entrypoint = "" });
  get_agent = λ r k. ok (ready_agent "node-1");
  list_agents = λ namespace labels. ok [];
  label_selector = λ s. ok s;
  list_selected = λ namespace selector. ok (ready_agent "node-2" ∷ ready_agent "" ∷ []);
  update_agent = λ a. none;
  list_playbooks = λ s labels. ok [];
  delete_playbook = λ s p. none;
  list_deployments = λ s labels. ok [];
  delete_deployment = λ s p. none;
  list_boot = λ labels. ok (synced_playbook ∷ []);
  create_boot = λ p. ok p;
  node_client = none;
  get_node = λ hostname. ok "";
  patch_node = λ hostname id. none;
}

abbrev pub owner_cluster : OwnerCluster
owner_cluster = record {
  name = "c1";
  namespace = "default";
  is_paused = false;
  is_infrastructure_ready = true;
  infrastructure_ref = some "c1";
  endpoint = record { host = ""; port = 0 };
  conditions = [];
}

abbrev pub cluster : KubeforceCluster
cluster = record {
  metadata = object_meta "c1" [];
  endpoint = record { host = ""; port = 0 };
  loadbalancer = none;
  status = record { is_ready = true; api_servers = none; conditions = [] };
}

reconcile_agent_ref-Claim_example :
    ClaimsOne env
      (machine none)
      (reconcile_agent_ref env (machine none)).1
      (reconcile_agent_ref env (machine none)).2
reconcile_agent_ref-Claim_example = reconcile_agent_ref-Claim env (machine none)

claimed : (reconcile_agent_ref env (machine none)).1.status.agent_ref ≡ some "agent-1"
unfolding reconcile_agent_ref find_free_agent find_agent agents_by_selector take_agent str_eq lookup
    insert
claimed = refl

machine_has_finalizer :
    env.finalizers.contains (machine (some "agent-1")).metadata.finalizers machine_finalizer ≡ true
unfolding str_eq
machine_has_finalizer = refl

reconcile_delete-leaves_example :
    finalizers (reconcile_delete env (machine (some "agent-1"))).1
    ≡ released_if env
        (leaves env (machine (some "agent-1")) (some "agent-1"))
        (machine (some "agent-1"))
reconcile_delete-leaves_example =
    reconcile_delete-leaves env (machine (some "agent-1")) machine_has_finalizer

machine-leaves : leaves env (machine (some "agent-1")) (some "agent-1") ≡ true
unfolding Cleanup.reconcile_delete_playbooks Cleanup.reconcile_delete_playbook_deployments
    Cleanup.reconcile_templates Cleanup.delete_each Reconcile.reconcile create_labels str_eq lookup
    delete
machine-leaves = refl

becomes_ready :
    (reconcile_normal env owner_cluster cluster (machine (some "agent-1"))).1.status.is_ready ≡ true
unfolding reconcile_normal get_config reconcile_agent_ref check_agent provision install_with_agent
    Cleanup.reconcile_templates Reconcile.reconcile bootstrap identify_node
    reconcile_cloud_init_playbook find_playbook_by_role reconcile_node_provider_id create_labels
    str_eq str_append lookup insert
becomes_ready = refl

reconcile_normal-IsProvisioned_example :
    IsProvisioned env cluster
      (machine (some "agent-1"))
      (reconcile_normal env owner_cluster cluster (machine (some "agent-1"))).1
reconcile_normal-IsProvisioned_example =
    reconcile_normal-IsProvisioned env owner_cluster cluster (machine (some "agent-1")) refl
      becomes_ready
