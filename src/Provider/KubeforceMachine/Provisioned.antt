-- ===== src/Provider/KubeforceMachine/Provisioned.antt =====
-- When a machine becomes ready
-- (cluster-api-provider-kubeforce/controllers/kubeforcemachine_controller.go).
use kubeforce.Base.{
  ◌≡◌, refl, sym, ◌∙◌, ap, String, Bool, true, false, not, ◌&&◌, ◌==◌, Option, none, some, List,
  Bool-cases, inl, inr,
}
use kubeforce.Api.{is_nil}
use kubeforce.Provider.Types.{
  Answer, Answer-cases, ok, failed, panicked, and_then, Agent, SystemInfo, KubeforceCluster,
  OwnerCluster,
}
use kubeforce.Provider.Handler.{
  Exit, going, returned, crashed, fail, done, on_error, when, call, ◌>>=◌, ◌>>◌,
}
use kubeforce.Provider.Call.{Call, run, wrapped}
use kubeforce.Provider.KubeforceMachine.{
  KubeforceMachine, Effect, Env, provisioning, Owner, Config, machine_config, get_config, on_owner,
  is_some, Action,
}
use kubeforce.Provider.KubeforceMachine.AgentRef.{reconcile_agent_ref}
use kubeforce.Provider.KubeforceMachine.Cleanup.{reconcile_templates}
use kubeforce.Provider.KubeforceMachine.Deletion.{holds}
use kubeforce.Provider.KubeforceMachine.Bootstrapped.{HasBooted}
use kubeforce.Provider.KubeforceMachine.Binding.{
  goes_on, agent_marked, IsBound, reconcile_agent_ref-EndsOrBound,
}
use kubeforce.Provider.KubeforceMachine.Readiness.{
  no_bool, BootstrapDone, HasBooted-status, bootstrap-BootstrapDone,
}
use kubeforce.Provider.KubeforceMachine.Reconcile.{
  machine_vars, set_address, bootstrap, install_with_agent, with_ref, provision, pass_on, on_config,
  reconcile_normal,
}

-- The machine when its install templates are reconciled, with the address of its agent.
abbrev pub addressed : Agent → KubeforceMachine → KubeforceMachine
addressed a m = set_address a.status.system_info m

abbrev pub IsInstalled :
    Env → KubeforceCluster → Config → String → Agent → KubeforceMachine → Type 0
IsInstalled env kfc config name a m =
    holds
      (reconcile_templates env name "install" (some (machine_vars env (addressed a m) kfc config a))
        (addressed a m)).0
    ≡ true

address-Kept :
    (i : Option SystemInfo) (m : KubeforceMachine)
    → (set_address i m).status.is_ready ≡ m.status.is_ready
address-Kept none m = refl
address-Kept (some s) m = refl

address-HasBooted :
    (env : Env) (name : String) (i : Option SystemInfo) (m : KubeforceMachine)
    → HasBooted env name (set_address i m)
    → HasBooted env name m
address-HasBooted env name none m h = h
address-HasBooted env name (some s) m h = HasBooted-status env name m _ h

abbrev pub after_templates :
    Call KubeforceMachine Effect Bool → Action (Unit {0}) → Action (Unit {0})
after_templates step k = do ready ← run step fail; when (not ready) done; k

-- The steps that follow a part of the handler which leaves `m'`.
after_templates-holds :
    (x : Answer Bool) (k : Action (Unit {0})) (m m' : KubeforceMachine) (es : List Effect)
    → m'.status.is_ready ≡ false
    → (after_templates (λ _. (x, m', es)) k m).1.status.is_ready ≡ true
    → (holds x ≡ true) × ((after_templates (λ _. (x, m', es)) k m).1 ≡ (k m').1)
after_templates-holds (ok true) k m m' es h f = (refl, refl)
after_templates-holds (ok false) k m m' es h f = no_bool h f
after_templates-holds (failed e) k m m' es h f = no_bool h f
after_templates-holds panicked k m m' es h f = no_bool h f

abbrev InstallDone :
    Env → KubeforceCluster → Config → String → Agent → KubeforceMachine → KubeforceMachine → Type 0
InstallDone env kfc config name a m after =
    IsInstalled env kfc config name a m × BootstrapDone env config name m after

install_with_agent-InstallDone :
    (env : Env) (cluster : OwnerCluster) (kfc : KubeforceCluster) (config : Config) (name : String)
    (a : Agent) (m : KubeforceMachine)
    → m.status.is_ready ≡ false
    → (install_with_agent env cluster kfc config name a m).1.status.is_ready ≡ true
    → InstallDone env kfc config name a m (install_with_agent env cluster kfc config name a m).1
unfolding install_with_agent reconcile_templates
install_with_agent-InstallDone env cluster kfc config name a m h f =
    let m1 = addressed a m in
    let vars = machine_vars env m1 kfc config a in
    let r = reconcile_templates env name "install" (some vars) m1 in
    let k = bootstrap env cluster config name a vars in
    let unready = address-Kept a.status.system_info m ∙ h in
    let (installed, same) = after_templates-holds r.0 k m1 r.1 r.2 unready f in
    let (available, booted, identified) =
      bootstrap-BootstrapDone env cluster config name a vars r.1 unready
        (ap (λ n. n.status.is_ready) (sym same) ∙ f) in
    let booted' = HasBooted-status env name m1 r.1.status booted in
    let identified' = ap (λ n. is_some n.spec.provider_id) same ∙ identified in
    (installed, (available, address-HasBooted env name a.status.system_info m booted', identified'))

-- What a machine that becomes ready was found to be.
pub record IsProvisioned (env : Env) (kfc : KubeforceCluster) (m : KubeforceMachine)
    (after : KubeforceMachine) : Type 0 where
  pub owner : Owner
  pub owned : env.owner_machine ≡ ok (some owner)
  pub bound : IsBound env m
  pub current : Agent
  pub reread : env.get_agent provisioning (m.metadata.namespace, bound.name) ≡ ok current
  pub installed :
      IsInstalled env kfc (machine_config env owner) bound.name current (agent_marked env m)
  pub available : is_some owner.data_secret_name ≡ true
  pub booted : HasBooted env bound.name m
  pub identified : is_some after.spec.provider_id ≡ true

abbrev Reread :
    Env → KubeforceCluster → Config → String → KubeforceMachine → KubeforceMachine → Type 0
Reread env kfc config name m after =
    (a : Agent) × (env.get_agent provisioning (m.metadata.namespace, name) ≡ ok a)
    × InstallDone env kfc config name a m after

with_ref-Reread :
    (env : Env) (cluster : OwnerCluster) (kfc : KubeforceCluster) (config : Config)
    (m : KubeforceMachine) (name : String)
    → m.status.is_ready ≡ false
    → (with_ref env cluster kfc config (some name) m).1.status.is_ready ≡ true
    → Reread env kfc config name m (with_ref env cluster kfc config (some name) m).1
with_ref-Reread env cluster kfc config m name h f =
    elim (Answer-cases (env.get_agent provisioning (m.metadata.namespace, name))) [
      | inr (inl (x, e)) ↦ no_bool h (rw e at f)
      | inr (inr e) ↦ no_bool h (rw e at f)
      | inl (a, e) ↦
          let done = install_with_agent-InstallDone env cluster kfc config name a m h (rw e at f) in
          rw e (a, refl, done)
    ]

provision-Reread :
    (env : Env) (cluster : OwnerCluster) (kfc : KubeforceCluster) (config : Config)
    (m : KubeforceMachine) (name : String)
    → m.status.agent_ref ≡ some name
    → m.status.is_ready ≡ false
    → (provision env cluster kfc config m).1.status.is_ready ≡ true
    → Reread env kfc config name m (provision env cluster kfc config m).1
unfolding provision
provision-Reread env cluster kfc config m name u h f =
    let same = ap (λ r. (with_ref env cluster kfc config r m).1) u in
    let (a, e, (installed, (available, booted, identified))) =
      with_ref-Reread env cluster kfc config m name h
        (ap (λ n. n.status.is_ready) (sym same) ∙ f) in
    (a, e, (installed, (available, booted, ap (λ n. is_some n.spec.provider_id) same ∙ identified)))

passed_on :
    (x : Exit (Unit {0})) (k : Action (Unit {0})) (m m' : KubeforceMachine) (es : List Effect)
    → m'.status.is_ready ≡ false
    → ((call (λ _. (x, m', es)) pass_on >> k) m).1.status.is_ready ≡ true
    → (goes_on x ≡ true) × (((call (λ _. (x, m', es)) pass_on >> k) m).1 ≡ (k m').1)
passed_on (going u) k m m' es h f = (refl, refl)
passed_on (returned after err) k m m' es h f = elim (Bool-cases ((after == 0) && is_nil err)) [
  | inl e ↦ rw e (refl, refl)
  | inr e ↦ no_bool h (rw e at f)
]
passed_on crashed k m m' es h f = no_bool h f

on_config-IsProvisioned :
    (env : Env) (cluster : OwnerCluster) (kfc : KubeforceCluster) (owner : Owner)
    (m : KubeforceMachine)
    → env.owner_machine ≡ ok (some owner)
    → m.status.is_ready ≡ false
    → (on_config env cluster kfc (some (machine_config env owner)) m).1.status.is_ready ≡ true
    → IsProvisioned env kfc m (on_config env cluster kfc (some (machine_config env owner)) m).1
on_config-IsProvisioned env cluster kfc owner m o h f =
    let config = machine_config env owner in
    let r = reconcile_agent_ref env m in
    let k = provision env cluster kfc config in
    elim (reconcile_agent_ref-EndsOrBound env m) [
      | inl (ends, kept) ↦ no_bool ends (passed_on r.0 k m r.1 r.2 (kept ∙ h) f).0
      | inr (b, marked) ↦
          let m1 = agent_marked env m in
          let unready = ap (λ n. n.status.is_ready) marked ∙ h in
          let same = (passed_on r.0 k m r.1 r.2 unready f).1 ∙ ap (λ n. (k n).1) marked in
          let (a, e, (installed, (available, booted, identified))) =
            provision-Reread env cluster kfc config m1 b.name b.ref h
              (ap (λ n. n.status.is_ready) (sym same) ∙ f) in
          record {
            owner = owner;
            owned = o;
            bound = b;
            current = a;
            reread = e;
            installed = installed;
            available = available;
            booted = HasBooted-status env b.name m m1.status booted;
            identified = ap (λ n. is_some n.spec.provider_id) same ∙ identified;
          }
    ]

abbrev config_step :
    Env → OwnerCluster → KubeforceCluster → Answer (Option Owner) → Action (Unit {0})
config_step env cluster kfc x = do
  config ←
      on_error
        (and_then
          (wrapped (env.template.wrapf "unable to get owner machine for KubeforceMachine") x)
          (on_owner env))
        fail
  on_config env cluster kfc config

config_of :
    (env : Env) (cluster : OwnerCluster) (kfc : KubeforceCluster) (m : KubeforceMachine)
    (x : Answer (Option Owner))
    → env.owner_machine ≡ x
    → m.status.is_ready ≡ false
    → (config_step env cluster kfc x m).1.status.is_ready ≡ true
    → IsProvisioned env kfc m (config_step env cluster kfc x m).1
config_of env cluster kfc m (ok none) o h f = no_bool h f
config_of env cluster kfc m (ok (some owner)) o h f =
    on_config-IsProvisioned env cluster kfc owner m o h f
config_of env cluster kfc m (failed e) o h f = no_bool h f
config_of env cluster kfc m panicked o h f = no_bool h f

-- A machine that was not ready is ready after its reconciliation only if it has an owner whose
-- bootstrap data has a name, it has an agent that carries its label and is ready, the install
-- templates were done with the variables of this agent, the playbook of its role "boot" was synced
-- and has succeeded, and it has the identifier of a provider.
pub reconcile_normal-IsProvisioned :
    (env : Env) (cluster : OwnerCluster) (kfc : KubeforceCluster) (m : KubeforceMachine)
    → m.status.is_ready ≡ false
    → (reconcile_normal env cluster kfc m).1.status.is_ready ≡ true
    → IsProvisioned env kfc m (reconcile_normal env cluster kfc m).1
unfolding reconcile_normal get_config
reconcile_normal-IsProvisioned env cluster kfc m h f =
    config_of env cluster kfc m env.owner_machine refl h f
