-- ===== src/Provider/KubeforceCluster/Sync.antt =====
-- cluster-api-provider-kubeforce/controllers/kubeforcecluster_controller.go: how the objects of the
-- load balancer and the endpoint of the control plane are written.
use kubeforce.Base.{
  ◌==◌, String, Bool, true, false, not, ◌&&◌, ◌||◌, none, List, [], str_eq, str_append,
  if◌then◌else◌,
}
use kubeforce.Api.{is_not_found, ObjectMeta}
use kubeforce.Provider.Types.{
  Answer, ok, failed, panicked, Endpoint, KubeforceCluster, OwnerCluster, has_changes,
}
use kubeforce.Provider.Call.{Call, ◌>>=◌, ◌>>◌, give, lift, change, emit, demand, wrapped}
use kubeforce.Provider.KubeforceAgent.{Key}
use kubeforce.Provider.KubeforceMachine.{KubeforceMachine}
use kubeforce.Provider.KubeforceCluster.{
  ConfigMap, Service, LbDeployment, Effect, created_config_map, patched_config_map,
  created_deployment, patched_deployment, created_service, patched_service, patched_endpoint,
  patched_owner, deleted_kubeconfig, Client, Env, owner_key,
}
use kubeforce.Provider.KubeforceCluster.LoadBalancer.{
  fill_lb_config_map, fill_lb_service, fill_lb_deployment, lb_config_name,
}

abbrev pub Task : Type 0 → Type 0
Task A = Call KubeforceCluster Effect A

-- How one kind of object is named, made, filled, and reported.
pub record Kind (O : Type 0) : Type 0 where
  pub name : String
  pub empty : O
  pub rename : Key → O → O
  pub fill : O → Answer O
  pub created : O → Effect
  pub patched : O → Effect

-- An object that was not found is an empty one.
abbrev pub found_or_empty : {O : Type 0} → Kind O → Answer O → Answer (Bool × O)
found_or_empty kind (ok o) = ok (true, o)
found_or_empty kind (failed e) = if is_not_found e then ok (false, kind.empty) else failed e
found_or_empty kind panicked = panicked

abbrev pub create_object : {O : Type 0} → Client O → Kind O → O → Task (Unit {0})
create_object client kind o = do emit (kind.created o); demand (client.create o) (λ e. e)

abbrev pub patch_changed : {O : Type 0} → Env → Client O → Kind O → O → Bool → Task (Unit {0})
patch_changed env client kind o false = give tt
patch_changed env client kind o true = do
  emit (kind.patched o)
  demand (client.patch o) (env.wrapf (str_append "failed to patch " kind.name))

abbrev pub patch_object : {O : Type 0} → Env → Client O → Kind O → O → O → Task (Unit {0})
patch_object env client kind old new = do
  changed ← lift (has_changes client.patch_data env.unmarshal env.wrapf old new)
  patch_changed env client kind new changed

abbrev pub write_object : {O : Type 0} → Env → Client O → Kind O → Bool → O → O → Task (Unit {0})
write_object env client kind false old new = create_object client kind new
write_object env client kind true old new = patch_object env client kind old new

-- What the three functions below have in common.
unfoldable pub reconcile_object : {O : Type 0} → Env → Client O → Kind O → Key → Task (Unit {0})
reconcile_object env client kind key = do
  x ← lift (found_or_empty kind (client.read key))
  new ← lift (kind.fill (kind.rename key x.1))
  write_object env client kind x.0 x.1 new

abbrev pub rename_meta : Key → ObjectMeta → ObjectMeta
rename_meta (namespace, name) m = record m { name = name; namespace = namespace }

abbrev pub empty_meta : ObjectMeta
empty_meta = record {
  name = "";
  generate_name = "";
  namespace = "";
  uid = "";
  labels = [];
  annotations = [];
  generation = 0;
  creation_timestamp = 0;
  deletion_timestamp = 0;
  finalizers = [];
  owner_references = [];
}

abbrev pub config_map_kind :
    Env → List KubeforceMachine → OwnerCluster → KubeforceCluster → Kind ConfigMap
config_map_kind env machines owner kfc = record {
  name = "ConfigMap";
  empty = record { metadata = empty_meta; contents = [] };
  rename = λ k o. record o { metadata = rename_meta k o.metadata };
  fill = fill_lb_config_map env machines owner kfc;
  created = created_config_map;
  patched = patched_config_map;
}

-- The patch is computed once more for the log.
abbrev pub deployment_kind : Env → OwnerCluster → KubeforceCluster → Kind LbDeployment
deployment_kind env owner kfc = record {
  name = "Deployment";
  empty = record {
    metadata = empty_meta;
    template_labels = [];
    selector = [];
    containers = none;
    volumes = [];
    others = "";
  };
  rename = λ k o. record o { metadata = rename_meta k o.metadata };
  fill = fill_lb_deployment env owner kfc;
  created = created_deployment;
  patched = patched_deployment;
}

abbrev pub service_kind : Env → OwnerCluster → KubeforceCluster → Kind Service
service_kind env owner kfc = record {
  name = "Service";
  empty = record { metadata = empty_meta; type = ""; selector = []; ports = []; others = "" };
  rename = λ k o. record o { metadata = rename_meta k o.metadata };
  fill = λ o. ok (fill_lb_service env owner kfc o);
  created = created_service;
  patched = patched_service;
}

unfoldable pub reconcile_lb_config_map :
    Env → OwnerCluster → List KubeforceMachine → Task (Unit {0})
reconcile_lb_config_map env owner machines kfc =
    (do
      name ← lift (lb_config_name env owner.name)
      reconcile_object env env.config_maps (config_map_kind env machines owner kfc)
          (owner.namespace, name))
      kfc

unfoldable pub reconcile_lb_deployment : Env → OwnerCluster → Task (Unit {0})
reconcile_lb_deployment env owner kfc =
    reconcile_object env env.deployments (deployment_kind env owner kfc) (owner_key owner) kfc

unfoldable pub reconcile_lb_service : Env → OwnerCluster → Task (Unit {0})
reconcile_lb_service env owner kfc =
    reconcile_object env env.services (service_kind env owner kfc) (owner_key owner) kfc

-- The secret that was read is deleted.
unfoldable pub delete_kubeconfig : Env → OwnerCluster → Task (Unit {0})
delete_kubeconfig env owner = elim (env.get_kubeconfig (owner_key owner)) [
  | ok secret ↦ do emit (deleted_kubeconfig secret); demand (env.delete_secret secret) (λ e. e)
  | failed e ↦ lift (if is_not_found e then ok tt else failed e)
  | panicked ↦ lift panicked
]

abbrev pub control_plane : OwnerCluster → Endpoint
control_plane owner = record {
  host = str_append owner.name (str_append "." (str_append owner.namespace ".svc"));
  port = 9443;
}

abbrev pub same_endpoint : Endpoint → Endpoint → Bool
same_endpoint e f = str_eq e.host f.host && (e.port == f.port)

abbrev pub set_endpoint : Endpoint → KubeforceCluster → KubeforceCluster
set_endpoint e kfc = record kfc { endpoint = e }

-- A patch leaves what the API server answers in the object.
abbrev pub patch_endpoint : Env → Bool → Task (Unit {0})
patch_endpoint env false = give tt
patch_endpoint env true = λ kfc.
    (do
      emit (patched_endpoint kfc)
      answered ←
          lift (wrapped (env.wrapf "failed to patch KubeforceCluster") (env.patch_endpoint kfc))
      change (λ k. answered))
      kfc

abbrev pub no_endpoint : OwnerCluster → OwnerCluster
no_endpoint owner = record owner { endpoint = record { host = ""; port = 0 } }

-- The endpoint of the cluster is another one: it is cleared.
unfoldable pub replace_endpoint : Env → OwnerCluster → KubeforceCluster → Task (Unit {0})
replace_endpoint env owner old kfc =
    (do
      changed ← lift (has_changes env.endpoint_patch_data env.unmarshal env.wrapf old kfc)
      patch_endpoint env changed
      emit (patched_owner (no_endpoint owner))
      demand (env.patch_owner (no_endpoint owner)) (λ e. e)
      delete_kubeconfig env owner)
      kfc

unfoldable pub reconcile_control_plane_endpoint : Env → OwnerCluster → Task (Unit {0})
reconcile_control_plane_endpoint env owner kfc =
    (do
      change (set_endpoint (control_plane owner))
      if not (env.is_valid owner.endpoint) || same_endpoint owner.endpoint (control_plane owner)
          then give tt
          else replace_endpoint env owner kfc)
      kfc
