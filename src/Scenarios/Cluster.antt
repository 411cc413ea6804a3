-- ===== src/Scenarios/Cluster.antt =====
-- Runs of the controller of the clusters.
use kubeforce.Base.{
  ◌≡◌, refl, true, false, none, some, [], ◌∷◌, str_eq, str_append, sort_stable, ◌⊎◌,
}
use kubeforce.Api.{not_found}
use kubeforce.Provider.Types.{ok, failed, KubeforceCluster, has_changes}
use kubeforce.Provider.Names.{build_bytes}
use kubeforce.Provider.Call.{◌>>◌}
use kubeforce.Provider.KubeforceCluster.{
  ConfigMap, LbDeployment, Service, Client, Env, cluster_finalizer, owner_key,
}
use kubeforce.Provider.KubeforceCluster.LoadBalancer.{
  fill_lb_config_map, fill_lb_service, fill_lb_deployment, fill_containers, get_external_addresses,
  lb_labels, lb_meta, filled_config_map, traefik_container, new_container, refresh_api_servers,
  lb_config_name,
}
use kubeforce.Provider.KubeforceCluster.Sync.{
  config_map_kind, deployment_kind, service_kind, reconcile_object, reconcile_lb_config_map,
  reconcile_lb_deployment, reconcile_lb_service, reconcile_control_plane_endpoint,
}
use kubeforce.Provider.KubeforceCluster.Steps.{
  get_control_plane_machine_list, reconcile_loadbalancer,
}
use kubeforce.Provider.KubeforceCluster.Reconcile.{is_disabled, reconcile_normal, reconcile_delete}
use kubeforce.Provider.KubeforceCluster.Balanced.{
  IsBalanced, is_crashed, is_available, reconcile_normal-IsBalanced,
}
use kubeforce.Provider.KubeforceCluster.Settled.{IsSettled, reconcile_lb_again}
use kubeforce.Provider.KubeforceCluster.Deletion.{
  finalizers_if, is_released, reconcile_delete-is_released,
}
use kubeforce.Scenarios.Library
use kubeforce.Scenarios.Library.{object_meta}
use kubeforce.Scenarios.Remote.{conds}
use kubeforce.Scenarios.Machine.{owner_cluster, cluster}

abbrev deleted_cluster : KubeforceCluster
deleted_cluster = record cluster { metadata = object_meta "c1" (cluster_finalizer ∷ []) }

abbrev absent : {O : Type 0} → Client O
absent = record {
  read = λ k. failed (not_found "object");
  patch_data = λ x y. ok "{}";
  create = λ o. none;
  patch = λ o. none;
}

abbrev present : {O : Type 0} → O → Client O
present o = record absent { read = λ k. ok o }

-- No machine is listed, and nothing is stored yet.
abbrev env : Env
env = record {
  conds = conds;
  finalizers = Library.finalizers;
  bytes = record { to_bytes = λ s. []; of_bytes = λ bs. "c1-lb-config" };
  context_done = false;
  cluster_name_label = "cluster.x-k8s.io/cluster-name";
  text_less = λ s t. false;
  is_valid = λ e. false;
  wrapf = λ s e. e;
  unmarshal = λ s. ok [];
  render = λ servers. ok "http:";
  has_paused = λ m. false;
  set_summary = λ b cs. cs;
  get_answer = ok cluster;
  owner_answer = ok (some owner_cluster);
  new_helper = none;
  new_delete_helper = none;
  patch_answer = λ c. none;
  delete_patch_answer = λ c. none;
  list_machines = λ namespace labels. ok [];
  list_machines_left = λ namespace labels. ok [];
  list_playbooks_left = λ namespace labels. ok [];
  list_deployments_left = λ namespace labels. ok [];
  get_agent = λ k. failed (not_found "agent");
  config_maps = absent;
  deployments = absent;
  services = absent;
  endpoint_patch_data = λ x y. ok "{}";
  patch_endpoint = λ c. ok c;
  patch_owner = λ c. none;
  get_kubeconfig = λ k. failed (not_found "secret");
  delete_secret = λ k. none;
}

not_crashed : is_crashed (reconcile_normal env owner_cluster cluster).0 ≡ false
unfolding reconcile_normal reconcile_loadbalancer get_control_plane_machine_list
    reconcile_lb_config_map reconcile_lb_deployment reconcile_lb_service
    reconcile_control_plane_endpoint reconcile_object fill_lb_config_map fill_lb_service
    fill_lb_deployment fill_containers get_external_addresses refresh_api_servers build_bytes str_eq
    str_append sort_stable
not_crashed = refl

balanced : is_available env (reconcile_normal env owner_cluster cluster).1 ≡ true
unfolding reconcile_normal reconcile_loadbalancer get_control_plane_machine_list
    reconcile_lb_config_map reconcile_lb_deployment reconcile_lb_service
    reconcile_control_plane_endpoint reconcile_object fill_lb_config_map fill_lb_service
    fill_lb_deployment fill_containers get_external_addresses refresh_api_servers build_bytes str_eq
    str_append sort_stable
balanced = refl

reconcile_normal-IsBalanced_example :
    (is_disabled cluster.loadbalancer ≡ true) ⊎ IsBalanced env owner_cluster cluster
reconcile_normal-IsBalanced_example =
    reconcile_normal-IsBalanced env owner_cluster cluster not_crashed balanced

reconcile_delete-is_released_example :
    (reconcile_delete env owner_cluster deleted_cluster).1.metadata.finalizers
    ≡ finalizers_if env (is_released env owner_cluster deleted_cluster) deleted_cluster
reconcile_delete-is_released_example =
    reconcile_delete-is_released env owner_cluster deleted_cluster

-- What a first reconciliation stores.
abbrev stored_config_map : ConfigMap
stored_config_map =
    filled_config_map env owner_cluster cluster "http:"
      (record { metadata = object_meta "c1-lb-config" []; contents = [] })

abbrev old_service : Service
old_service = record {
  metadata = object_meta "c1" [];
  type = "";
  selector = [];
  ports = [];
  others = "";
}

abbrev old_deployment : LbDeployment
old_deployment = record {
  metadata = object_meta "c1" [];
  template_labels = [];
  selector = [];
  containers = none;
  volumes = [];
  others = "";
}

abbrev stored_deployment : LbDeployment
stored_deployment = record {
  metadata = lb_meta env cluster owner_cluster (object_meta "c1" []);
  template_labels = lb_labels env "c1";
  selector = lb_labels env "c1";
  containers = some (traefik_container new_container ∷ []);
  volumes = record { name = "config"; config_map = "c1-lb-config"; mode = 420 } ∷ [];
  others = "";
}

abbrev stored_service : Service
stored_service = fill_lb_service env owner_cluster cluster old_service

abbrev settled_env : Env
settled_env = record env {
  config_maps = present stored_config_map;
  deployments = present stored_deployment;
  services = present stored_service;
}

IsSettled-config_map :
    IsSettled settled_env settled_env.config_maps
      (config_map_kind settled_env [] owner_cluster cluster)
      ("default", "c1-lb-config")
unfolding fill_lb_config_map get_external_addresses has_changes
IsSettled-config_map = record {
  old = record { metadata = object_meta "c1-lb-config" []; contents = [] };
  stored = stored_config_map;
  filled = refl;
  read = refl;
  unchanged = refl;
}

IsSettled-deployment :
    IsSettled settled_env settled_env.deployments
      (deployment_kind settled_env owner_cluster cluster)
      (owner_key owner_cluster)
unfolding fill_lb_deployment fill_containers build_bytes has_changes
IsSettled-deployment = record {
  old = old_deployment;
  stored = stored_deployment;
  filled = refl;
  read = refl;
  unchanged = refl;
}

IsSettled-service :
    IsSettled settled_env settled_env.services
      (service_kind settled_env owner_cluster cluster)
      (owner_key owner_cluster)
unfolding fill_lb_service has_changes
IsSettled-service = record {
  old = old_service;
  stored = stored_service;
  filled = refl;
  read = refl;
  unchanged = refl;
}

lb_config_named : lb_config_name settled_env owner_cluster.name ≡ ok "c1-lb-config"
unfolding build_bytes
lb_config_named = refl

reconcile_lb_again_example :
    (reconcile_lb_config_map settled_env owner_cluster []
        >> (reconcile_lb_deployment settled_env owner_cluster
            >> reconcile_lb_service settled_env owner_cluster))
      cluster
    ≡ (ok tt, cluster, [])
reconcile_lb_again_example =
    reconcile_lb_again settled_env owner_cluster [] "c1-lb-config" cluster lb_config_named
      (IsSettled-config_map, IsSettled-deployment, IsSettled-service)
