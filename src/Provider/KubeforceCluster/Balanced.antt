-- ===== src/Provider/KubeforceCluster/Balanced.antt =====
-- When the load balancer of a cluster is available
-- (cluster-api-provider-kubeforce/controllers/kubeforcecluster_controller.go).
use kubeforce.Base.{
  ◌≡◌, refl, sym, ◌∙◌, ap, Bool, true, false, not, [], ◌∷◌, StringMap, ◌||◌, ◌⊎◌, inl, inr, List,
  keep, String,
}
use kubeforce.Api.{is_deleted}
use kubeforce.Provider.Types.{
  Answer, Answer-cases, ok, failed, panicked, KubeforceCluster, OwnerCluster,
}
use kubeforce.Provider.Handler.{Exit, crashed}
use kubeforce.Provider.Handler
use kubeforce.Provider.Call.{◌>>◌, run}
use kubeforce.Provider.KubeforceMachine.{KubeforceMachine}
use kubeforce.Provider.KubeforceMachine.Bootstrapped.{succeeds}
use kubeforce.Provider.KubeforceCluster.{Effect, Env, owner_key}
use kubeforce.Provider.KubeforceCluster.LoadBalancer.{lb_config_name, refresh_api_servers}
use kubeforce.Provider.KubeforceCluster.Sync.{
  Task, config_map_kind, deployment_kind, service_kind, reconcile_lb_config_map,
  reconcile_lb_deployment, reconcile_lb_service, reconcile_control_plane_endpoint,
}
use kubeforce.Provider.KubeforceCluster.Steps.{
  is_kept, control_plane_labels, get_control_plane_machine_list, reconcile_loadbalancer,
}
use kubeforce.Provider.KubeforceCluster.Reconcile.{
  is_disabled, balancer_error, mark_available, normal_step, reconcile_normal,
}
use kubeforce.Provider.KubeforceCluster.Written.{
  IsWritten, no_success, reconcile_object-machine, reconcile_object-IsWritten,
}

-- The labels by which the code looks for the machines of the control plane: it takes the name of the
-- KubeforceCluster for the one of the cluster.
abbrev pub machine_labels : Env → KubeforceCluster → StringMap String
machine_labels env kfc =
    ("cluster.x-k8s.io/control-plane", "") ∷ (env.cluster_name_label, kfc.metadata.name) ∷ []

abbrev pub is_live : KubeforceMachine → Bool
is_live m = not (is_deleted m.metadata)

-- The three objects stand as they were filled, for the listed machines that are not being deleted.
pub record IsBalanced (env : Env) (owner : OwnerCluster) (kfc : KubeforceCluster) : Type 0 where
  pub machines : List KubeforceMachine
  pub listed : env.list_machines kfc.metadata.namespace (machine_labels env kfc) ≡ ok machines
  pub name : String
  pub named : lb_config_name env owner.name ≡ ok name
  pub config_map :
      IsWritten env env.config_maps
        (config_map_kind env
          (keep is_live machines)
          owner
          (refresh_api_servers env (keep is_live machines) kfc))
        (owner.namespace, name)
  pub deployment :
      IsWritten env env.deployments
        (deployment_kind env owner (refresh_api_servers env (keep is_live machines) kfc))
        (owner_key owner)
  pub service :
      IsWritten env env.services
        (service_kind env owner (refresh_api_servers env (keep is_live machines) kfc))
        (owner_key owner)

then_succeeds :
    (x : Answer (Unit {0})) (k : Task (Unit {0})) (m m' : KubeforceCluster) (es : List Effect)
    → succeeds (((λ _. (x, m', es)) >> k) m).0 ≡ true
    → (succeeds x ≡ true) × (succeeds (k m').0 ≡ true)
then_succeeds (ok u) k m m' es h = (refl, h)
then_succeeds (failed e) k m m' es h = no_success h
then_succeeds panicked k m m' es h = no_success h

module _ (env : Env) (owner : OwnerCluster) (machines : List KubeforceMachine)
    (kfc : KubeforceCluster) where
  config_map-IsWritten :
      succeeds (reconcile_lb_config_map env owner machines kfc).0 ≡ true
      → (name : String) × (lb_config_name env owner.name ≡ ok name)
        × IsWritten env env.config_maps
            (config_map_kind env machines owner kfc)
            (owner.namespace, name)
  unfolding reconcile_lb_config_map
  config_map-IsWritten h = elim (Answer-cases (lb_config_name env owner.name)) [
    | inl (name, e) ↦ (
      name,
      e,
      reconcile_object-IsWritten env env.config_maps (config_map_kind env machines owner kfc)
          (owner.namespace, name) kfc (rw e at h),
    )
    | inr (inl (x, e)) ↦ no_success (rw e at h)
    | inr (inr e) ↦ no_success (rw e at h)
  ]

  config_map-machine : (reconcile_lb_config_map env owner machines kfc).1 ≡ kfc
  unfolding reconcile_lb_config_map
  config_map-machine = elim (Answer-cases (lb_config_name env owner.name)) [
    | inl (name, e) ↦ rw e (
        reconcile_object-machine env env.config_maps (config_map_kind env machines owner kfc)
          (owner.namespace, name) kfc)
    | inr (inl (x, e)) ↦ rw e refl
    | inr (inr e) ↦ rw e refl
  ]

  objects-IsWritten :
      (end : Task (Unit {0}))
      → succeeds
          ((reconcile_lb_config_map env owner machines
              >> (reconcile_lb_deployment env owner >> (reconcile_lb_service env owner >> end)))
            kfc).0
        ≡ true
      → ((name : String) × (lb_config_name env owner.name ≡ ok name)
          × IsWritten env env.config_maps
              (config_map_kind env machines owner kfc)
              (owner.namespace, name))
        × IsWritten env env.deployments (deployment_kind env owner kfc) (owner_key owner)
        × IsWritten env env.services (service_kind env owner kfc) (owner_key owner)
  unfolding reconcile_lb_deployment reconcile_lb_service
  objects-IsWritten end h =
      let k2 = reconcile_lb_service env owner >> end in
      let k1 = reconcile_lb_deployment env owner >> k2 in
      let r = reconcile_lb_config_map env owner machines kfc in
      let (first, h1) = then_succeeds r.0 k1 kfc r.1 r.2 h in
      let h1' = ap (λ n. succeeds (k1 n).0) (sym config_map-machine) ∙ h1 in
      let d = reconcile_lb_deployment env owner kfc in
      let (second, h2) = then_succeeds d.0 k2 kfc d.1 d.2 h1' in
      let same =
        reconcile_object-machine env env.deployments (deployment_kind env owner kfc)
          (owner_key owner) kfc in
      let s = reconcile_lb_service env owner kfc in
      let h2' = ap (λ n. succeeds (k2 n).0) (sym same) ∙ h2 in
      let (third, h3) = then_succeeds s.0 end kfc s.1 s.2 h2' in
      (
        config_map-IsWritten first,
        reconcile_object-IsWritten env env.deployments (deployment_kind env owner kfc)
            (owner_key owner) kfc second,
        reconcile_object-IsWritten env env.services (service_kind env owner kfc) (owner_key owner)
            kfc third,
      )

reconcile_loadbalancer-IsBalanced :
    (env : Env) (owner : OwnerCluster) (kfc : KubeforceCluster)
    → succeeds (reconcile_loadbalancer env owner kfc).0 ≡ true
    → IsBalanced env owner kfc
unfolding reconcile_loadbalancer get_control_plane_machine_list
reconcile_loadbalancer-IsBalanced env owner kfc h =
    elim (Answer-cases (env.list_machines kfc.metadata.namespace (control_plane_labels env kfc))) [
      | inl (ms, e) ↦
          let kept = keep is_kept ms in
          let ((name, named, config_map), deployment, service) =
            objects-IsWritten env owner kept (refresh_api_servers env kept kfc)
              (reconcile_control_plane_endpoint env owner) (rw e at h) in
          record {
            machines = ms;
            listed = e;
            name = name;
            named = named;
            config_map = config_map;
            deployment = deployment;
            service = service;
          }
      | inr (inl (x, e)) ↦ no_success (rw e at h)
      | inr (inr e) ↦ no_success (rw e at h)
    ]

abbrev pub is_crashed : Exit (Unit {0}) → Bool
is_crashed crashed = true
is_crashed _ = false

abbrev pub is_available : Env → KubeforceCluster → Bool
is_available env kfc = env.conds.is_true kfc.status.conditions "LoadBalancerAvailable"

-- What follows the load balancer.
balanced_exit :
    (env : Env) (x : Answer (Unit {0})) (m m' : KubeforceCluster) (es : List Effect)
    → is_crashed
        (Handler.◌>>◌ (run (λ _. (x, m', es)) (balancer_error env)) (mark_available env) m).0
      ≡ false
    → is_available env
        (Handler.◌>>◌ (run (λ _. (x, m', es)) (balancer_error env)) (mark_available env) m).1
      ≡ succeeds x
balanced_exit env (ok u) m m' es h = env.conds.is_true-mark_true _ "LoadBalancerAvailable"
balanced_exit env (failed e) m m' es h =
    env.conds.is_true-mark_false _ "LoadBalancerAvailable" _ _ _
balanced_exit env panicked m m' es h = no_success (sym h)

normal_exit :
    (env : Env) (owner : OwnerCluster) (kfc : KubeforceCluster) (disabled : Bool)
    → is_crashed (normal_step env owner disabled kfc).0 ≡ false
    → is_available env (normal_step env owner disabled kfc).1
      ≡ (disabled || succeeds (reconcile_loadbalancer env owner kfc).0)
normal_exit env owner kfc true h = env.conds.is_true-mark_true _ "LoadBalancerAvailable"
normal_exit env owner kfc false h =
    let r = reconcile_loadbalancer env owner kfc in balanced_exit env r.0 kfc r.1 r.2 h

-- If reconciling a cluster that is not being deleted does not panic, it leaves the condition
-- LoadBalancerAvailable true exactly if the load balancer is disabled or all of its steps succeed.
pub reconcile_normal-available :
    (env : Env) (owner : OwnerCluster) (kfc : KubeforceCluster)
    → is_crashed (reconcile_normal env owner kfc).0 ≡ false
    → is_available env (reconcile_normal env owner kfc).1
      ≡ (is_disabled kfc.loadbalancer || succeeds (reconcile_loadbalancer env owner kfc).0)
unfolding reconcile_normal
reconcile_normal-available env owner kfc h =
    normal_exit env owner kfc (is_disabled kfc.loadbalancer) h

or-cases : (b c : Bool) → (b || c) ≡ true → (b ≡ true) ⊎ (c ≡ true)
or-cases true c h = inl refl
or-cases false c h = inr h

-- If reconciling a cluster that is not being deleted does not panic and leaves the condition
-- LoadBalancerAvailable true, then the load balancer is disabled, or its config map, its deployment
-- and its service each stand as the reconciler fills them, for the machines that are listed with the
-- label of the control plane and the name of the KubeforceCluster as that of the cluster, and that
-- are not being deleted: created without an error where it was not found, and else without
-- changes or patched without an error.
pub reconcile_normal-IsBalanced :
    (env : Env) (owner : OwnerCluster) (kfc : KubeforceCluster)
    → is_crashed (reconcile_normal env owner kfc).0 ≡ false
    → is_available env (reconcile_normal env owner kfc).1 ≡ true
    → (is_disabled kfc.loadbalancer ≡ true) ⊎ IsBalanced env owner kfc
reconcile_normal-IsBalanced env owner kfc h a =
    elim (or-cases (is_disabled kfc.loadbalancer)
      (succeeds (reconcile_loadbalancer env owner kfc).0)
      (sym (reconcile_normal-available env owner kfc h) ∙ a)) [
        | inl d ↦ inl d
        | inr s ↦ inr (reconcile_loadbalancer-IsBalanced env owner kfc s)
      ]
