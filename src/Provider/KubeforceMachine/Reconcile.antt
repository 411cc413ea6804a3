-- ===== src/Provider/KubeforceMachine/Reconcile.antt =====
-- cluster-api-provider-kubeforce/controllers/kubeforcemachine_controller.go: the other
-- handlers.
use kubeforce.Base.{
  ℕ, Bool, true, false, not, ◌||◌, ◌&&◌, ◌==◌, String, Option, none, some, List, [], ◌∷◌, ◌++◌,
  StringMap, if◌then◌else◌,
}
use kubeforce.Api.{is_nil, Error, is_not_found, text, is_deleted}
use kubeforce.Provider.Types.{
  ok, failed, panicked, Agent, SystemInfo, KubeforceCluster, OwnerCluster,
}
use kubeforce.Provider.Handler.{
  Exit, returned, crashed, pure, return, done, fail, crash, on_error, ◌>>=◌, ◌>>◌, get_object,
  modify, when, check, call,
}
use kubeforce.Provider.Call.{run}
use kubeforce.Provider.Remote.{assign_label}
use kubeforce.Provider.KubeforceAgent.Reconcile.{patch_exit}
use kubeforce.Provider.KubeforceMachine.{
  Value, text_value, texts_value, system_value, KubeforceMachine, Effect, patched, provisioning,
  Env, machine_finalizer, Config, get_config, Action, with_status, set_conditions, mark_true,
  mark_false,
}
use kubeforce.Provider.KubeforceMachine.AgentRef.{agent_failed, reconcile_agent_ref}
use kubeforce.Provider.KubeforceMachine.Cleanup.{Task, reconcile_templates}
use kubeforce.Provider.KubeforceMachine.Delete.{reconcile_delete}
use kubeforce.Provider.KubeforceMachine.Boot.{
  get_api_server_endpoints, reconcile_cloud_init_playbook, reconcile_node_provider_id,
}

-- The variables for the load balancer are left out if it is disabled.
abbrev pub is_balanced : Option Bool → Bool
is_balanced none = true
is_balanced (some disabled) = not disabled

unfoldable pub machine_vars :
    Env → KubeforceMachine → KubeforceCluster → Config → Agent → StringMap Value
machine_vars env m kfc config a =
    let common : StringMap Value =
      ("kubernetesVersion", text_value config.kubernetes_version)
      ∷ ("targetArch", text_value a.spec.arch)
      ∷ ("systemInfo", system_value a.status.system_info)
      ∷ [] in
    if is_balanced kfc.loadbalancer
    then ("apiServers", texts_value (get_api_server_endpoints env m kfc))
      ∷ ("apiServerPort", text_value "6443")
      ∷ common
    else common

abbrev pub set_address : Option SystemInfo → KubeforceMachine → KubeforceMachine
set_address none m = m
set_address (some s) m = with_status (λ t. record t { default_ip_address = s.default_ip_address }) m

abbrev bootstrap_waits : Env → String → Action (Unit {0})
bootstrap_waits env reason = do mark_false env "DataSecretAvailable" reason "Info" ""; done

abbrev pub on_data : Env → OwnerCluster → Bool → Bool → Action (Unit {0})
on_data env cluster true is_control_plane = mark_true env "DataSecretAvailable"
on_data env cluster false is_control_plane =
    if not is_control_plane && not (env.conds.is_true cluster.conditions "ControlPlaneInitialized")
    then bootstrap_waits env "WaitingForControlPlaneAvailable"
    else bootstrap_waits env "WaitingForBootstrapData"

-- The bootstrap data must be available.
abbrev pub check_data : Env → OwnerCluster → Config → Action (Unit {0})
check_data env cluster config = on_data env cluster config.is_data_available config.is_control_plane

abbrev pub boot_error : {A : Type 0} → Env → Error → Action A
boot_error env e = do
  mark_false env "BootstrapExecSucceeded" "Bootstrapping" "Error" (text e)
  fail e

abbrev pub node_error : Env → Error → Action (Unit {0})
node_error env e = do
  mark_false env "ProviderIDProvisioned" "ProviderIDFailed" "Error" (text e)
  fail e

abbrev pub set_ready : KubeforceMachine → KubeforceMachine
set_ready m = with_status (λ s. record s { is_ready = true }) m

abbrev pub finish_identified : Env → Action (Unit {0})
finish_identified env = do mark_true env "ProviderIDProvisioned"; modify set_ready; done

unfoldable pub identify_node : Env → String → Agent → Action (Unit {0})
identify_node env name a = do
  run (reconcile_node_provider_id env name a) (node_error env)
  finish_identified env

abbrev pub after_boot : Env → String → Agent → Task Bool → Action (Unit {0})
after_boot env name a step = do
  booted ← run step (boot_error env)
  when (not booted) done
  identify_node env name a

-- The bootstrap, once the install templates are done.
unfoldable pub bootstrap :
    Env → OwnerCluster → Config → String → Agent → StringMap Value → Action (Unit {0})
bootstrap env cluster config name a vars = do
  check_data env cluster config
  after_boot env name a (reconcile_cloud_init_playbook env config name a vars)

unfoldable pub install_with_agent :
    Env → OwnerCluster → KubeforceCluster → Config → String → Agent → Action (Unit {0})
install_with_agent env cluster kfc config name a = do
  modify (set_address a.status.system_info)
  m ← get_object
  let vars = machine_vars env m kfc config a
  ready ← run (reconcile_templates env name "install" (some vars)) fail
  when (not ready) done
  bootstrap env cluster config name a vars

abbrev pub with_ref :
    Env → OwnerCluster → KubeforceCluster → Config → Option String → Action (Unit {0})
with_ref env cluster kfc config none = crash
with_ref env cluster kfc config (some name) = do
  m ← get_object
  a ← on_error (env.get_agent provisioning (m.metadata.namespace, name)) (agent_failed env)
  install_with_agent env cluster kfc config name a

unfoldable pub provision : Env → OwnerCluster → KubeforceCluster → Config → Action (Unit {0})
provision env cluster kfc config = do
  m ← get_object
  with_ref env cluster kfc config m.status.agent_ref

-- A result that is zero, without an error, lets the caller go on.
abbrev pub pass_on : ℕ → Option Error → Action (Unit {0})
pass_on after err = if (after == 0) && is_nil err then pure tt else return after err

abbrev pub on_config : Env → OwnerCluster → KubeforceCluster → Option Config → Action (Unit {0})
on_config env cluster kfc none = done
on_config env cluster kfc (some config) = do
  call (reconcile_agent_ref env)
      (λ after err. if (after == 0) && is_nil err then pure tt else return after err)
  provision env cluster kfc config

unfoldable pub reconcile_normal : Env → OwnerCluster → KubeforceCluster → Action (Unit {0})
reconcile_normal env cluster kfc = do
  config ← on_error (get_config env) fail
  on_config env cluster kfc config

abbrev pub cluster_label : String
cluster_label = "infrastructure.cluster.x-k8s.io/kubeforce-cluster-name"

abbrev pub set_labels : StringMap String → KubeforceMachine → KubeforceMachine
set_labels labels m = record m { metadata = record m.metadata { labels = labels } }

-- `InfrastructureRef` is a pointer.
abbrev pub with_infrastructure : Env → OwnerCluster → Option String → Action (Unit {0})
with_infrastructure env cluster none = crash
with_infrastructure env cluster (some name) = do
  m ← get_object
  kfc ← on_error (env.get_cluster (m.metadata.namespace, name)) (λ e. done)
  labels ← on_error (assign_label m.metadata.labels cluster_label kfc.metadata.name) fail
  modify (set_labels labels)
  reconcile_normal env cluster kfc

abbrev pub add_finalizer : Env → KubeforceMachine → KubeforceMachine
add_finalizer env m = record m {
  metadata = record m.metadata {
    finalizers = env.finalizers.add m.metadata.finalizers machine_finalizer;
  };
}

-- The body under the deferred function.
unfoldable pub reconcile_patched : Env → OwnerCluster → Action (Unit {0})
reconcile_patched env cluster = do
  m ← get_object
  when (is_deleted m.metadata) (reconcile_delete env >> done)
  when (not (env.finalizers.contains m.metadata.finalizers machine_finalizer))
      (modify (add_finalizer env) >> done)
  when (not cluster.is_infrastructure_ready)
      (do mark_false env "InitPlaybooksCompleted" "WaitingForClusterInfrastructure" "Info" ""; done)
  with_infrastructure env cluster cluster.infrastructure_ref

-- The summary that `patchKubeforceMachine` sets before its patch.
abbrev pub summarized : Env → KubeforceMachine → KubeforceMachine
summarized env m = set_conditions (env.set_summary (not (is_deleted m.metadata))) m

abbrev pub with_patch : Env → Action (Unit {0}) → Action (Unit {0})
with_patch env h m0 =
    let (x, m1, es) = h m0 in
    let m = summarized env m1 in (patch_exit x (env.patch_answer m), m, es ++ (patched m ∷ []))

unfoldable pub reconcile_found : Env → Action (Unit {0})
reconcile_found env = do
  m ← get_object
  cluster ← on_error env.cluster_answer fail
  when (cluster.is_paused || env.has_paused m.metadata) done
  check env.new_helper fail
  with_patch env (reconcile_patched env cluster)

unfoldable pub reconcile : Env → Exit (Unit {0}) × List Effect
reconcile env = if env.context_done then (returned 0 none, []) else (elim env.get_answer [
  | ok m ↦ let (x, m', es) = reconcile_found env m in (x, es)
  | failed e ↦ (returned 0 (if is_not_found e then none else some e), [])
  | panicked ↦ (crashed, [])
])
