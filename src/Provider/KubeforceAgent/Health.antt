-- ===== src/Provider/KubeforceAgent/Health.antt =====
-- The health of an agent and the results of the prober
-- (cluster-api-provider-kubeforce/controllers/kubeforceagent_controller.go with controllers/prober).
use kubeforce.Base.{
  ◌≡◌, ap, ◌∙◌, String, Bool, true, false, Option, none, some, arith, Bool-cases, inl, inr,
}
use kubeforce.Prober.Results.{ResultItem}
use kubeforce.Prober.Worker.{ProbeParams}
use kubeforce.Prober.Controller.{
  Controller, ensure_probe, remove_probe, remove_worker, get_current_status,
}
use kubeforce.Prober.Controller.Stale.{get_current_status-removed}
use kubeforce.Provider.Types.{Agent, ClusterConditions}
use kubeforce.Provider.Remote.{is_healthy}
use kubeforce.Provider.KubeforceAgent.{World, Env, key_text, object_key}
use kubeforce.Provider.KubeforceAgent.Reconcile.{reconcile_health, judge, params}

ensure_probe-status :
    (key : String) (p : ProbeParams) (c : Controller)
    → get_current_status key (ensure_probe key p c) ≡ get_current_status key c
unfolding ensure_probe get_current_status
ensure_probe-status key p c = ground arith

abbrev pub is_good : Option ResultItem → Bool
is_good none = false
is_good (some res) = res.probe_result

judge-is_good :
    (env : Env) (res : Option ResultItem) (cs : ClusterConditions)
    → env.conds.is_true (judge env res cs) "Healthy" ≡ is_good res
judge-is_good env none cs = env.conds.is_true-mark_unknown cs "Healthy" "UnknownProbeState" ""
judge-is_good env (some res) cs = elim (Bool-cases res.probe_result) [
  | inl e ↦ rw e (env.conds.is_true-mark_true cs "Healthy")
  | inr e ↦ rw e (env.conds.is_true-mark_false cs "Healthy" "ProbeFailed" "Info" res.message)
]

-- An installed agent is healthy after the probe step exactly if the cached result of its key is good.
pub reconcile_health-is_good :
    (env : Env) (w : World)
    → w.agent.spec.is_installed ≡ true
    → is_healthy env.conds (reconcile_health env w).agent
      ≡ is_good (get_current_status (key_text (object_key w.agent.metadata)) w.probes)
unfolding reconcile_health
reconcile_health-is_good env w i =
    let key = key_text (object_key w.agent.metadata) in
    rw i (
      rw (ensure_probe-status key params w.probes)
        (judge-is_good env (get_current_status key w.probes) w.agent.status.conditions))

-- After the worker of an agent was told to stop and has left, an installed agent of the same namespace
-- and name is healthy at its first probe step exactly if the last result of the old one was good,
-- before any probe of its own.
pub reconcile_health_stale :
    (env : Env) (a : Agent) (c : Controller)
    → a.spec.is_installed ≡ true
    → let key = key_text (object_key a.metadata) in
      let w : World = record { agent = a; probes = remove_worker key (remove_probe key c) } in
      is_healthy env.conds (reconcile_health env w).agent ≡ is_good (get_current_status key c)
reconcile_health_stale env a c i =
    let key = key_text (object_key a.metadata) in
    reconcile_health-is_good env
      (record { agent = a; probes = remove_worker key (remove_probe key c) }) i
    ∙ ap is_good (get_current_status-removed key key c).1
