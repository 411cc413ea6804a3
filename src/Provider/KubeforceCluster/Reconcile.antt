-- ===== src/Provider/KubeforceCluster/Reconcile.antt =====
-- cluster-api-provider-kubeforce/controllers/kubeforcecluster_controller.go: the other
-- handlers.
use kubeforce.Base.{
  ℕ, ◌+◌, String, Bool, true, false, not, ◌||◌, Option, none, some, List, [], ◌∷◌, ◌++◌, length,
  ltb, lookup, StringMap, str_eq, str_append, if◌then◌else◌,
}
use kubeforce.Api.{Error, is_not_found, text, ObjectMeta, is_deleted}
use kubeforce.Provider.Types.{ok, failed, panicked, KubeforceCluster, OwnerCluster}
use kubeforce.Provider.Handler.{
  Exit, returned, crashed, Handler, pure, return, done, fail, on_error, ◌>>=◌, ◌>>◌, get_object,
  modify, tell, when, check,
}
use kubeforce.Provider.Call.{run}
use kubeforce.Provider.Template.{text_or_empty}
use kubeforce.Provider.Playbook.Delete.{seconds}
use kubeforce.Provider.KubeforceAgent.{Key}
use kubeforce.Provider.KubeforceAgent.Reconcile.{patch_exit}
use kubeforce.Provider.KubeforceMachine.{KubeforceMachine, is_some}
use kubeforce.Provider.KubeforceMachine.Reconcile.{cluster_label}
use kubeforce.Provider.KubeforceCluster.{
  Effect, patched, Env, cluster_finalizer, with_status, set_conditions,
}
use kubeforce.Provider.KubeforceCluster.Steps.{reconcile_loadbalancer}

abbrev pub Action : Type 0 → Type 0
Action A = Handler KubeforceCluster Effect A

abbrev pub mark_true : Env → String → Action (Unit {0})
mark_true env t = modify (set_conditions (λ cs. env.conds.mark_true cs t))

abbrev pub mark_false : Env → String → String → String → String → Action (Unit {0})
mark_false env t reason severity message =
    modify (set_conditions (λ cs. env.conds.mark_false cs t reason severity message))

abbrev pub set_ready : KubeforceCluster → KubeforceCluster
set_ready kfc = with_status (λ s. record s { is_ready = true }) kfc

abbrev pub is_disabled : Option Bool → Bool
is_disabled none = false
is_disabled (some disabled) = disabled

abbrev pub balancer_error : Env → Error → Action (Unit {0})
balancer_error env e = do
  mark_false env "LoadBalancerAvailable" "LoadBalancerProvisioningFailed" "Warning" (text e)
  fail e

abbrev pub mark_available : Env → Action (Unit {0})
mark_available env = do modify set_ready; mark_true env "LoadBalancerAvailable"; done

abbrev pub normal_step : Env → OwnerCluster → Bool → Action (Unit {0})
normal_step env owner disabled = do
  when (not disabled) (run (reconcile_loadbalancer env owner) (balancer_error env))
  mark_available env

unfoldable pub reconcile_normal : Env → OwnerCluster → Action (Unit {0})
reconcile_normal env owner = do
  kfc ← get_object
  normal_step env owner (is_disabled kfc.loadbalancer)

pub record Descendants : Type 0 where
  pub machines : List ObjectMeta
  pub playbooks : List ObjectMeta
  pub deployments : List ObjectMeta

abbrev pub descendants_length : Descendants → ℕ
descendants_length d = length d.machines + length d.playbooks + length d.deployments

abbrev pub descendant_labels : Env → OwnerCluster → StringMap String
descendant_labels env owner = (env.cluster_name_label, owner.name) ∷ []

abbrev pub list_error : Env → String → OwnerCluster → Error → Error
list_error env kind owner e =
    env.wrapf
      (str_append "failed to list " (
        str_append kind
          (str_append " for cluster " (str_append owner.namespace (str_append "/" owner.name)))))
      e

unfoldable pub list_descendants : Env → OwnerCluster → Action Descendants
list_descendants env owner = do
  let labels = descendant_labels env owner
  ms ←
      on_error (env.list_machines_left owner.namespace labels)
        (λ e. fail (list_error env "KubeforceMachines" owner e))
  ps ←
      on_error (env.list_playbooks_left owner.namespace labels)
        (λ e. fail (list_error env "Playbooks" owner e))
  ds ←
      on_error (env.list_deployments_left owner.namespace labels)
        (λ e. fail (list_error env "PlaybookDeployments" owner e))
  pure (record { machines = ms; playbooks = ps; deployments = ds })

-- The summary that `patchKubeforceCluster` sets before its patch.
abbrev pub summarized : Env → KubeforceCluster → KubeforceCluster
summarized env kfc = set_conditions (env.set_summary (not (is_deleted kfc.metadata))) kfc

abbrev pub with_finalizers : List String → KubeforceCluster → KubeforceCluster
with_finalizers fs kfc = record kfc { metadata = record kfc.metadata { finalizers = fs } }

abbrev pub remove_finalizer : Env → KubeforceCluster → KubeforceCluster
remove_finalizer env kfc =
    with_finalizers (env.finalizers.remove kfc.metadata.finalizers cluster_finalizer) kfc

abbrev pub add_finalizer : Env → KubeforceCluster → KubeforceCluster
add_finalizer env kfc =
    with_finalizers (env.finalizers.add kfc.metadata.finalizers cluster_finalizer) kfc

unfoldable pub release_unless : Env → Descendants → Action (Unit {0})
release_unless env d = do
  when (ltb 0 (descendants_length d)) (return (seconds 5) none)
  modify (remove_finalizer env)
  done

unfoldable pub delete_patched : Env → OwnerCluster → Action (Unit {0})
delete_patched env owner = do
  mark_false env "InfrastructureAvailable" "Deleting" "Info" ""
  modify (summarized env)
  kfc ← get_object
  tell (patched kfc)
  check (env.delete_patch_answer kfc) (λ e. fail (env.wrapf "failed to patch KubeforceCluster" e))
  d ← list_descendants env owner
  release_unless env d

unfoldable pub reconcile_delete : Env → OwnerCluster → Action (Unit {0})
reconcile_delete env owner = do check env.new_delete_helper fail; delete_patched env owner

-- The body under the deferred function. The finalizer is added first, also to a cluster that is
-- being deleted.
unfoldable pub reconcile_patched : Env → OwnerCluster → Action (Unit {0})
reconcile_patched env owner = do
  kfc ← get_object
  when (not (env.finalizers.contains kfc.metadata.finalizers cluster_finalizer))
      (modify (add_finalizer env) >> done)
  when (is_deleted kfc.metadata) (reconcile_delete env owner >> done)
  reconcile_normal env owner

abbrev pub with_patch : Env → Action (Unit {0}) → Action (Unit {0})
with_patch env h kfc0 =
    let (x, kfc1, es) = h kfc0 in
    let kfc = summarized env kfc1 in
    (patch_exit x (env.patch_answer kfc), kfc, es ++ (patched kfc ∷ []))

abbrev pub with_owner : Env → Option OwnerCluster → Action (Unit {0})
with_owner env none = done
with_owner env (some owner) = do
  kfc ← get_object
  when (owner.is_paused || env.has_paused kfc.metadata) done
  check env.new_helper fail
  with_patch env (reconcile_patched env owner)

unfoldable pub reconcile_found : Env → Action (Unit {0})
reconcile_found env = do owner ← on_error env.owner_answer fail; with_owner env owner

unfoldable pub reconcile : Env → Exit (Unit {0}) × List Effect
reconcile env = if env.context_done then (returned 0 none, []) else (elim env.get_answer [
  | ok kfc ↦ let (x, kfc', es) = reconcile_found env kfc in (x, es)
  | failed e ↦ (returned 0 (if is_not_found e then none else some e), [])
  | panicked ↦ (crashed, [])
])

-- `KubeforceMachineToKubeforceCluster`, of a machine: what it enqueues.
unfoldable pub machine_to_cluster : KubeforceMachine → List Key
machine_to_cluster m =
    let name = text_or_empty (lookup cluster_label m.metadata.labels) in
    if not (is_some (lookup "cluster.x-k8s.io/control-plane" m.metadata.labels)) || str_eq name ""
    then []
    else (m.metadata.namespace, name) ∷ []
