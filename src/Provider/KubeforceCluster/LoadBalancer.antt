-- ===== src/Provider/KubeforceCluster/LoadBalancer.antt =====
-- cluster-api-provider-kubeforce/controllers/kubeforcecluster_controller.go: what the objects of the
-- load balancer hold.
use kubeforce.Base.{
  ℕ, String, true, Option, none, some, List, [], ◌∷◌, StringMap, str_eq, str_append, if◌then◌else◌,
  sort_stable,
}
use kubeforce.Api.{is_not_found, ObjectMeta, OwnerReference}
use kubeforce.Provider.Types.{
  Answer, ok, failed, panicked, and_then, Agent, KubeforceCluster, OwnerCluster, group_version,
}
use kubeforce.Provider.Names.{build_name}
use kubeforce.Provider.KubeforceMachine.{KubeforceMachine}
use kubeforce.Provider.KubeforceCluster.{
  ConfigMap, Service, Probe, Container, LbDeployment, Env, with_status,
}

-- `Find(IsNotEmpty, ...)` of pkg/util/strings.
unfoldable pub find_nonempty : List String → String
find_nonempty [] = ""
find_nonempty (s ∷ texts) = let rest = find_nonempty texts in if str_eq s "" then rest else s

-- `Addresses` is a pointer.
abbrev pub external_address : Agent → Answer String
external_address a = elim a.spec.addresses [
  | none ↦ panicked
  | some addresses ↦ ok (find_nonempty (addresses.external_dns ∷ addresses.external_ip ∷ []))
]

abbrev and_address : Answer String → Answer (List String) → Answer (List String)
and_address a rest = and_then a (λ address. and_then rest (λ addresses. ok (address ∷ addresses)))

abbrev pub machine_address :
    Env → KubeforceMachine → Answer Agent → Answer (List String) → Answer (List String)
machine_address env m (ok a) rest = and_address (external_address a) rest
machine_address env m (failed e) rest =
    if is_not_found e
    then rest
    else failed (env.wrapf (str_append "unable to get agent for machine " m.metadata.name) e)
machine_address env m panicked rest = panicked

unfoldable pub get_external_addresses : Env → List KubeforceMachine → Answer (List String)
get_external_addresses env [] = ok []
get_external_addresses env (m ∷ machines) =
    let rest = get_external_addresses env machines in
    elim m.status.agent_ref [
      | none ↦ rest
      | some name ↦ machine_address env m (env.get_agent (m.metadata.namespace, name)) rest
    ]

abbrev pub lb_labels : Env → String → StringMap String
lb_labels env name =
    (env.cluster_name_label, name)
    ∷ ("app.kubernetes.io/name", "traefik")
    ∷ ("app.kubernetes.io/component", "loadbalancer")
    ∷ []

abbrev pub lb_config_name : Env → String → Answer String
lb_config_name env name = build_name env.bytes name "-lb-config"

abbrev pub owned_by : KubeforceCluster → List OwnerReference
owned_by kfc =
    record {
      api_version = group_version;
      kind = "KubeforceCluster";
      name = kfc.metadata.name;
      uid = kfc.metadata.uid;
      controller = true;
      block_owner_deletion = true;
    }
    ∷ []

abbrev pub lb_meta : Env → KubeforceCluster → OwnerCluster → ObjectMeta → ObjectMeta
lb_meta env kfc owner m = record m {
  owner_references = owned_by kfc;
  labels = lb_labels env owner.name;
}

abbrev pub filled_config_map :
    Env → OwnerCluster → KubeforceCluster → String → ConfigMap → ConfigMap
filled_config_map env owner kfc config cm = record {
  metadata = lb_meta env kfc owner cm.metadata;
  contents = ("traefik.yaml", config) ∷ [];
}

unfoldable pub fill_lb_config_map :
    Env → List KubeforceMachine → OwnerCluster → KubeforceCluster → ConfigMap → Answer ConfigMap
fill_lb_config_map env machines owner kfc cm =
    and_then (and_then (get_external_addresses env machines) env.render)
      (λ config. ok (filled_config_map env owner kfc config cm))

unfoldable pub fill_lb_service : Env → OwnerCluster → KubeforceCluster → Service → Service
fill_lb_service env owner kfc svc = record svc {
  metadata = lb_meta env kfc owner svc.metadata;
  type = "ClusterIP";
  selector = lb_labels env owner.name;
  ports = record { name = "tcp"; protocol = "TCP"; port = 9443; target_port = "tcp" } ∷ [];
}

abbrev pub ping_probe : ℕ → Probe
ping_probe failures = record {
  path = "/ping";
  port = 9001;
  scheme = "HTTP";
  initial_delay_seconds = 2;
  timeout_seconds = 2;
  period_seconds = 10;
  success_threshold = 1;
  failure_threshold = failures;
}

abbrev pub traefik_args : List String
traefik_args =
    "--log.level=DEBUG" ∷ "--entrypoints.controlplane=true"
    ∷ "--entrypoints.controlplane.address=:9443"
    ∷ "--entrypoints.controlplane.transport.lifecycle.gracetimeout=10s"
    ∷ "--entrypoints.controlplane.transport.respondingtimeouts.readtimeout=10s"
    ∷ "--entrypoints.controlplane.transport.respondingtimeouts.idletimeout=10s"
    ∷ "--entrypoints.controlplane.transport.respondingtimeouts.writetimeout=10s"
    ∷ "--entrypoints.ping=true" ∷ "--entrypoints.ping.address=:9001" ∷ "--ping=true"
    ∷ "--ping.entrypoint=ping" ∷ "--providers.file.watch=true"
    ∷ "--providers.file.debugloggeneratedtemplate=true"
    ∷ "--providers.file.directory=/etc/traefik/dynamic_conf/" ∷ []

abbrev pub traefik_container : Container → Container
traefik_container c = record c {
  name = "traefik";
  image = "traefik:v2.9.6";
  pull_policy = "IfNotPresent";
  args = traefik_args;
  ports = record { name = "tcp"; protocol = "TCP"; port = 9443; target_port = "" } ∷ [];
  mounts =
      record { name = "config"; is_read_only = true; path = "/etc/traefik/dynamic_conf/" } ∷ [];
  liveness = some (ping_probe 3);
  readiness = some (ping_probe 1);
}

abbrev pub new_container : Container
new_container = record {
  name = "";
  image = "";
  pull_policy = "";
  args = [];
  ports = [];
  mounts = [];
  liveness = none;
  readiness = none;
  others = "";
}

-- The first container is the one of the load balancer; an empty slice that is not nil has none.
unfoldable pub fill_containers : Option (List Container) → Answer (List Container)
fill_containers none = ok (traefik_container new_container ∷ [])
fill_containers (some []) = panicked
fill_containers (some (c ∷ cs)) = ok (traefik_container c ∷ cs)

unfoldable pub fill_lb_deployment :
    Env → OwnerCluster → KubeforceCluster → LbDeployment → Answer LbDeployment
fill_lb_deployment env owner kfc d = and_then (fill_containers d.containers) (λ containers.
    and_then (lb_config_name env owner.name) (λ name. ok (record d {
      metadata = lb_meta env kfc owner d.metadata;
      template_labels = lb_labels env owner.name;
      selector = lb_labels env owner.name;
      containers = some containers;
      volumes = record { name = "config"; config_map = name; mode = 420 } ∷ [];
    })))

-- `refreshAPIServers`: the addresses of the machines that have one.
abbrev pub addresses_of : List KubeforceMachine → List String
addresses_of [] = []
addresses_of (m ∷ machines) =
    let rest = addresses_of machines in
    if str_eq m.status.default_ip_address "" then rest else m.status.default_ip_address ∷ rest

unfoldable pub refresh_api_servers :
    Env → List KubeforceMachine → KubeforceCluster → KubeforceCluster
refresh_api_servers env machines kfc =
    with_status
      (λ s. record s { api_servers = some (sort_stable env.text_less (addresses_of machines)) }) kfc
