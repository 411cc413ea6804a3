-- ===== src/Provider/KubeforceMachine/Readiness.antt =====
-- What the bootstrap needs before a machine becomes ready
-- (cluster-api-provider-kubeforce/controllers/kubeforcemachine_controller.go).
use kubeforce.Base.{
  ◌≡◌, refl, sym, ◌∙◌, ap, String, Bool, true, false, List, StringMap, Bool-cases, inl, inr,
}
use kubeforce.Provider.Types.{Answer, ok, failed, panicked, Agent, MachineStatus, OwnerCluster}
use kubeforce.Provider.Handler.{◌>>◌}
use kubeforce.Provider.Call.{run}
use kubeforce.Provider.Template.{create_labels}
use kubeforce.Provider.KubeforceMachine.{
  Value, KubeforceMachine, Effect, Env, Config, is_some, set_conditions, Action,
}
use kubeforce.Provider.KubeforceMachine.Boot.{
  find_playbook_by_role, reconcile_cloud_init_playbook, reconcile_node_provider_id,
}
use kubeforce.Provider.KubeforceMachine.Deletion.{holds}
use kubeforce.Provider.KubeforceMachine.Bootstrapped.{
  HasBooted, succeeds, reconcile_cloud_init_playbook-HasBooted, reconcile_cloud_init_playbook-Kept,
  reconcile_node_provider_id-Identified,
}
use kubeforce.Provider.KubeforceMachine.Reconcile.{
  node_error, on_data, after_boot, finish_identified, identify_node, bootstrap,
}

find_playbook-status :
    (env : Env) (name : String) (m : KubeforceMachine) (s : MachineStatus) (role : String)
    → find_playbook_by_role env name (record m { status = s }) role
      ≡ find_playbook_by_role env name m role
unfolding find_playbook_by_role create_labels
find_playbook-status env name m s role = refl

pub no_bool {ℓ} : {A : Type ℓ} {b : Bool} → b ≡ false → b ≡ true → A
no_bool {A = A} e f = cc

abbrev pub BootstrapDone : Env → Config → String → KubeforceMachine → KubeforceMachine → Type 0
BootstrapDone env config name m after =
    (config.is_data_available ≡ true)
    × HasBooted env name m
    × (is_some after.spec.provider_id ≡ true)

pub HasBooted-status :
    (env : Env) (name : String) (m : KubeforceMachine) (s : MachineStatus)
    → HasBooted env name (record m { status = s })
    → HasBooted env name m
HasBooted-status env name m s h = record {
  playbook = h.playbook;
  listed = sym (find_playbook-status env name m s "boot") ∙ h.listed;
  succeeded = h.succeeded;
}

finish_answered :
    (env : Env) (x : Answer (Unit {0})) (m m' : KubeforceMachine) (es : List Effect)
    → m'.status.is_ready ≡ false
    → ((run (λ _. (x, m', es)) (node_error env) >> finish_identified env) m).1.status.is_ready
      ≡ true
    → (succeeds x ≡ true)
      × (((run (λ _. (x, m', es)) (node_error env) >> finish_identified env) m).1.spec ≡ m'.spec)
finish_answered env (ok u) m m' es h f = (refl, refl)
finish_answered env (failed e) m m' es h f = no_bool h f
finish_answered env panicked m m' es h f = no_bool h f

identify_node-is_some :
    (env : Env) (name : String) (a : Agent) (m : KubeforceMachine)
    → m.status.is_ready ≡ false
    → (identify_node env name a m).1.status.is_ready ≡ true
    → is_some (identify_node env name a m).1.spec.provider_id ≡ true
unfolding identify_node
identify_node-is_some env name a m h f =
    let r = reconcile_node_provider_id env name a m in
    let (identified, kept) = reconcile_node_provider_id-Identified env name a m in
    let (succeeded, same) = finish_answered env r.0 m r.1 r.2 (kept ∙ h) f in
    elim identified [
      | inl i ↦ no_bool i succeeded
      | inr i ↦ ap (λ s. is_some s.provider_id) same ∙ i
    ]

-- What follows the search for the boot playbook.
booted_answered :
    (env : Env) (name : String) (a : Agent) (x : Answer Bool) (m m' : KubeforceMachine)
    (es : List Effect)
    → m'.status.is_ready ≡ false
    → (after_boot env name a (λ _. (x, m', es)) m).1.status.is_ready ≡ true
    → (holds x ≡ true)
      × (is_some (after_boot env name a (λ _. (x, m', es)) m).1.spec.provider_id ≡ true)
booted_answered env name a (ok true) m m' es h f = (refl, identify_node-is_some env name a m' h f)
booted_answered env name a (ok false) m m' es h f = no_bool h f
booted_answered env name a (failed e) m m' es h f = no_bool h f
booted_answered env name a panicked m m' es h f = no_bool h f

abbrev data_marked : Env → KubeforceMachine → KubeforceMachine
data_marked env m = set_conditions (λ cs. env.conds.mark_true cs "DataSecretAvailable") m

on_data-available :
    (env : Env) (cluster : OwnerCluster) (available is_control_plane : Bool) (k : Action (Unit {0}))
    (m : KubeforceMachine)
    → m.status.is_ready ≡ false
    → ((on_data env cluster available is_control_plane >> k) m).1.status.is_ready ≡ true
    → (available ≡ true)
      × (((on_data env cluster available is_control_plane >> k) m).1 ≡ (k (data_marked env m)).1)
on_data-available env cluster true c k m h f = (refl, refl)
on_data-available env cluster false true k m h f = no_bool h f
on_data-available env cluster false false k m h f =
    elim (Bool-cases (env.conds.is_true cluster.conditions "ControlPlaneInitialized")) [
      | inl i ↦ no_bool h (rw i at f)
      | inr i ↦ no_bool h (rw i at f)
    ]

pub bootstrap-BootstrapDone :
    (env : Env) (cluster : OwnerCluster) (config : Config) (name : String) (a : Agent)
    (vars : StringMap Value) (m : KubeforceMachine)
    → m.status.is_ready ≡ false
    → (bootstrap env cluster config name a vars m).1.status.is_ready ≡ true
    → BootstrapDone env config name m (bootstrap env cluster config name a vars m).1
unfolding bootstrap
bootstrap-BootstrapDone env cluster config name a vars m h f =
    let m1 = data_marked env m in
    let r = reconcile_cloud_init_playbook env config name a vars m1 in
    let k = after_boot env name a (reconcile_cloud_init_playbook env config name a vars) in
    let (available, same) =
      on_data-available env cluster config.is_data_available config.is_control_plane k m h f in
    let kept = reconcile_cloud_init_playbook-Kept env config name a vars m1 in
    let (booted, identified) =
      booted_answered env name a r.0 m1 r.1 r.2 (kept ∙ h)
        (ap (λ n. n.status.is_ready) (sym same) ∙ f) in
    elim (reconcile_cloud_init_playbook-HasBooted env config name a vars m1) [
      | inl b ↦ (
        available,
        HasBooted-status env name m m1.status b,
        ap (λ n. is_some n.spec.provider_id) same ∙ identified,
      )
      | inr n ↦ no_bool n booted
    ]
