-- ===== src/Provider/KubeforceCluster/Settled.antt =====
-- That the objects of the load balancer are not written again
-- (cluster-api-provider-kubeforce/controllers/kubeforcecluster_controller.go).
use kubeforce.Base.{◌≡◌, refl, false, inl, inr, Option, none, some, List, [], ◌∷◌, String}
use kubeforce.Provider.Types.{
  Answer, Answer-cases, ok, failed, panicked, and_then, KubeforceCluster, OwnerCluster,
}
use mathlib.Core.Path.{subst}
use kubeforce.Api.{Error}
use kubeforce.Provider.Call.{◌>>◌}
use kubeforce.Provider.KubeforceAgent.{Key}
use kubeforce.Provider.KubeforceMachine.{KubeforceMachine}
use kubeforce.Provider.KubeforceCluster.{ConfigMap, Container, Client, Env, owner_key}
use kubeforce.Provider.KubeforceCluster.LoadBalancer.{
  get_external_addresses, filled_config_map, fill_lb_config_map, fill_lb_service, fill_containers,
  fill_lb_deployment, lb_config_name,
}
use kubeforce.Provider.KubeforceCluster.Sync.{
  Kind, reconcile_object, config_map_kind, deployment_kind, service_kind, reconcile_lb_config_map,
  reconcile_lb_deployment, reconcile_lb_service,
}
use kubeforce.Provider.KubeforceCluster.Written.{changes, reconcile_object_same}

-- The object that is read is one that the reconciler filled before, from any other, and a patch from
-- it to itself has no fields.
pub record IsSettled {O : Type 0} (env : Env) (client : Client O) (kind : Kind O) (key : Key)
    : Type 0 where
  pub old : O
  pub stored : O
  pub filled : kind.fill (kind.rename key old) ≡ ok stored
  pub read : client.read key ≡ ok stored
  pub unchanged : changes env client stored stored ≡ ok false

abbrev IsStable : {O : Type 0} → Kind O → Key → Type 0
IsStable {O} kind key =
    (old x : O) → kind.fill (kind.rename key old) ≡ ok x → kind.fill (kind.rename key x) ≡ ok x

IsSettled-same :
    {O : Type 0} (env : Env) (client : Client O) (kind : Kind O) (key : Key) (m : KubeforceCluster)
    → IsStable kind key
    → IsSettled env client kind key
    → reconcile_object env client kind key m ≡ (ok tt, m, [])
IsSettled-same env client kind key m stable s =
    reconcile_object_same env client kind key s.stored m s.read (stable s.old s.stored s.filled)
      s.unchanged

ok_injective : {A : Type 0} {a b : A} → ok a ≡ ok b → a ≡ b
ok_injective h = cc

no_answer {ℓ} : {A : Type 0} {B : Type ℓ} {x : A} → panicked ≡ ok x → B
no_answer h = cc

no_value {ℓ} : {A : Type 0} {B : Type ℓ} {x : A} {e : Error} → failed e ≡ ok x → B
no_value h = cc

fill_containers_again :
    (cs : Option (List Container)) (ds : List Container)
    → fill_containers cs ≡ ok ds
    → fill_containers (some ds) ≡ ok ds
unfolding fill_containers
fill_containers_again none ds h = subst (λ x. fill_containers (some x) ≡ ok x) (ok_injective h) refl
fill_containers_again (some []) ds h = cc
fill_containers_again (some (c ∷ cs)) ds h =
    subst (λ x. fill_containers (some x) ≡ ok x) (ok_injective h) refl

module _ (env : Env) (owner : OwnerCluster) (kfc : KubeforceCluster) (key : Key) where
  service-IsStable : IsStable (service_kind env owner kfc) key
  unfolding fill_lb_service
  service-IsStable old x h =
      subst
        (λ y. ok (fill_lb_service env owner kfc ((service_kind env owner kfc).rename key y)) ≡ ok y)
        (ok_injective h) refl

  config_map_filled :
      (y : Answer String) (old x : ConfigMap)
      → and_then y (λ config. ok (
          filled_config_map env owner kfc config
            ((config_map_kind env [] owner kfc).rename key old)))
        ≡ ok x
      → and_then y (λ config.
        ok (
          filled_config_map env owner kfc config ((config_map_kind env [] owner kfc).rename key x)))
        ≡ ok x
  config_map_filled (ok config) old x h =
      subst
        (λ y.
          ok (
            filled_config_map env owner kfc config
              ((config_map_kind env [] owner kfc).rename key y))
          ≡ ok y)
        (ok_injective h) refl
  config_map_filled (failed e) old x h = cc
  config_map_filled panicked old x h = cc

  config_map-IsStable :
      (machines : List KubeforceMachine) → IsStable (config_map_kind env machines owner kfc) key
  unfolding fill_lb_config_map
  config_map-IsStable machines old x h =
      config_map_filled (and_then (get_external_addresses env machines) env.render) old x h

  deployment-IsStable : IsStable (deployment_kind env owner kfc) key
  unfolding fill_lb_deployment
  deployment-IsStable old x h = elim (Answer-cases (fill_containers old.containers)) [
    | inl (cs, c) ↦ elim (Answer-cases (lb_config_name env owner.name)) [
      | inl (name, n) ↦
          subst
            (λ y.
              fill_lb_deployment env owner kfc ((deployment_kind env owner kfc).rename key y)
              ≡ ok y)
            (ok_injective (rw (c, n) at h)) (rw (fill_containers_again old.containers cs c, n) refl)
      | inr (inl (y, n)) ↦ no_value (rw (c, n) at h)
      | inr (inr n) ↦ no_answer (rw (c, n) at h)
    ]
    | inr (inl (y, c)) ↦ no_value (rw c at h)
    | inr (inr c) ↦ no_answer (rw c at h)
  ]

abbrev pub AllSettled :
    Env → OwnerCluster → List KubeforceMachine → String → KubeforceCluster → Type 0
AllSettled env owner machines name kfc =
    IsSettled env env.config_maps (config_map_kind env machines owner kfc) (owner.namespace, name)
    × IsSettled env env.deployments (deployment_kind env owner kfc) (owner_key owner)
    × IsSettled env env.services (service_kind env owner kfc) (owner_key owner)

-- If the config map, the deployment and the service that are read are ones that the reconciler has
-- filled before, and a patch from an object to itself has no fields, then the three steps of the load
-- balancer that write them succeed and write nothing.
pub reconcile_lb_again :
    (env : Env) (owner : OwnerCluster) (machines : List KubeforceMachine) (name : String)
    (kfc : KubeforceCluster)
    → lb_config_name env owner.name ≡ ok name
    → AllSettled env owner machines name kfc
    → (reconcile_lb_config_map env owner machines
          >> (reconcile_lb_deployment env owner >> reconcile_lb_service env owner))
        kfc
      ≡ (ok tt, kfc, [])
unfolding reconcile_lb_config_map reconcile_lb_deployment reconcile_lb_service
reconcile_lb_again env owner machines name kfc n (cm, d, s) =
    let key : Key = (owner.namespace, name) in
    let first =
      IsSettled-same env env.config_maps (config_map_kind env machines owner kfc) key kfc
        (config_map-IsStable env owner kfc key machines) cm in
    let second =
      IsSettled-same env env.deployments (deployment_kind env owner kfc) (owner_key owner) kfc
        (deployment-IsStable env owner kfc (owner_key owner)) d in
    let third =
      IsSettled-same env env.services (service_kind env owner kfc) (owner_key owner) kfc
        (service-IsStable env owner kfc (owner_key owner)) s in
    rw n (rw first (rw second (rw third refl)))
