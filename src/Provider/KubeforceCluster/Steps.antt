-- ===== src/Provider/KubeforceCluster/Steps.antt =====
-- cluster-api-provider-kubeforce/controllers/kubeforcecluster_controller.go: the steps of the load
-- balancer, in their order.
use kubeforce.Base.{Bool, String, not, List, [], ◌∷◌, StringMap, keep}
use kubeforce.Api.{is_deleted}
use kubeforce.Provider.Types.{ok, KubeforceCluster, OwnerCluster}
use kubeforce.Provider.Call.{◌>>=◌, ◌>>◌, lift, change, wrapped}
use kubeforce.Provider.KubeforceMachine.{KubeforceMachine}
use kubeforce.Provider.KubeforceCluster.{Env}
use kubeforce.Provider.KubeforceCluster.LoadBalancer.{refresh_api_servers}
use kubeforce.Provider.KubeforceCluster.Sync.{
  Task, reconcile_lb_config_map, reconcile_lb_deployment, reconcile_lb_service,
  reconcile_control_plane_endpoint,
}

abbrev pub is_kept : KubeforceMachine → Bool
is_kept m = not (is_deleted m.metadata)

abbrev pub control_plane_labels : Env → KubeforceCluster → StringMap String
control_plane_labels env kfc =
    ("cluster.x-k8s.io/control-plane", "") ∷ (env.cluster_name_label, kfc.metadata.name) ∷ []

-- The machines of the control plane that are not being deleted.
unfoldable pub get_control_plane_machine_list : Env → Task (List KubeforceMachine)
get_control_plane_machine_list env kfc =
    (do
      machines ← lift (
          wrapped (env.wrapf "failed to list machines")
            (env.list_machines kfc.metadata.namespace (control_plane_labels env kfc)))
      lift (ok (keep is_kept machines)))
      kfc

unfoldable pub reconcile_loadbalancer : Env → OwnerCluster → Task (Unit {0})
reconcile_loadbalancer env owner = do
  machines ← get_control_plane_machine_list env
  change (refresh_api_servers env machines)
  reconcile_lb_config_map env owner machines
  reconcile_lb_deployment env owner
  reconcile_lb_service env owner
  reconcile_control_plane_endpoint env owner
