-- ===== src/Provider/KubeforceAgent/Reconcile.antt =====
-- cluster-api-provider-kubeforce/controllers/kubeforceagent_controller.go: the other
-- handlers.
use kubeforce.Base.{Bool, not, ◌||◌, Option, none, some, List, [], ◌∷◌, ◌++◌, if◌then◌else◌}
use kubeforce.Api.{Error, is_not_found, is_deleted}
use kubeforce.Prober.Results.{ResultItem}
use kubeforce.Prober.Worker.{ProbeParams}
use kubeforce.Prober.Controller.{ensure_probe, remove_probe, get_current_status}
use kubeforce.Prober.Controller
use kubeforce.Provider.Types.{ok, failed, panicked, ClusterConditions, Agent}
use kubeforce.Provider.Handler.{
  Exit, going, returned, crashed, done, fail, on_error, ◌>>=◌, ◌>>◌, get_object, modify, when,
  check,
}
use kubeforce.Provider.Call.{run}
use kubeforce.Provider.Remote.{is_healthy}
use kubeforce.Provider.KubeforceAgent.{
  World, key_text, object_key, Effect, patched, connected, Env, agent_finalizer, set_conditions,
  reconcile_phase,
}
use kubeforce.Provider.KubeforceAgent.Secrets.{sync_agent_tls_secret, sync_agent_client_secret}
use kubeforce.Provider.KubeforceAgent.Delete.{Action, modify_agent, add_finalizer, reconcile_delete}
use kubeforce.Provider.KubeforceAgent.Install.{
  reconcile_tls_cert, set_info, reconcile_agent_installation, reconcile_agent_info,
}

-- What follows once the agent is ready to connect: a secret that changed ends the reconciliation.
abbrev pub forget_info : Action (Unit {0})
forget_info = modify_agent (set_info none) >> done

unfoldable pub reconcile_connected : Env → Agent → Action (Unit {0})
reconcile_connected env a = do
  changed_tls ← run (sync_agent_tls_secret env connected a) fail
  when changed_tls forget_info
  changed_ca ← run (sync_agent_client_secret env connected a) fail
  when changed_ca forget_info
  reconcile_agent_info env a

unfoldable pub reconcile_normal : Env → Agent → Action (Unit {0})
reconcile_normal env a = do
  reconcile_tls_cert env a
  w ← get_object
  reconcile_agent_installation env w.agent
  w' ← get_object
  when (not (is_healthy env.conds w'.agent)) done
  reconcile_connected env w'.agent
  done

abbrev pub params : ProbeParams
params = record {
  timeout_seconds = 4;
  period_seconds = 5;
  success_threshold = 2;
  failure_threshold = 2;
}

abbrev pub judge : Env → Option ResultItem → ClusterConditions → ClusterConditions
judge env none cs = env.conds.mark_unknown cs "Healthy" "UnknownProbeState" ""
judge env (some res) cs =
    if res.probe_result
    then env.conds.mark_true cs "Healthy"
    else env.conds.mark_false cs "Healthy" "ProbeFailed" "Info" res.message

-- The probe of an installed agent, and its health.
unfoldable pub reconcile_health : Env → World → World
reconcile_health env w =
    let key = key_text (object_key w.agent.metadata) in
    let probes = ensure_probe key params w.probes in
    if w.agent.spec.is_installed
    then record {
      agent = set_conditions (judge env (get_current_status key probes)) w.agent;
      probes = probes;
    }
    else w

-- The body under the deferred function.
unfoldable pub reconcile_patched : Env → Action (Unit {0})
reconcile_patched env = do
  modify (reconcile_health env)
  w ← get_object
  when (is_deleted w.agent.metadata) (reconcile_delete env w.agent >> done)
  when (not (env.finalizers.contains w.agent.metadata.finalizers agent_finalizer))
      (modify_agent (add_finalizer env) >> done)
  reconcile_normal env w.agent

abbrev pub patch_error : Option Error → Option Error → Option Error
patch_error (some e) _ = some e
patch_error none e = e

abbrev pub patch_exit : Exit (Unit {0}) → Option Error → Exit (Unit {0})
patch_exit (going u) e = returned 0 (patch_error none e)
patch_exit (returned after err) e = returned after (patch_error err e)
patch_exit crashed e = crashed

-- The summary that `patchKubeforceAgent` sets before its patch.
abbrev pub summarized : Env → Agent → Agent
summarized env a = set_conditions (env.set_summary (not (is_deleted a.metadata))) a

-- The deferred function, which also runs after a panic.
abbrev pub with_patch : Env → Action (Unit {0}) → Action (Unit {0})
with_patch env m w0 =
    let (x, w, es) = m w0 in
    let a = summarized env (reconcile_phase env.conds w.agent) in
    (patch_exit x (env.patch_answer a), record w { agent = a }, es ++ (patched a ∷ []))

abbrev pub is_paused : Env → Option Bool → Agent → Bool
is_paused env none a = env.has_paused a.metadata
is_paused env (some paused) a = paused || env.has_paused a.metadata

unfoldable pub reconcile_found : Env → Action (Unit {0})
reconcile_found env = do
  w ← get_object
  cluster ← on_error env.cluster_answer fail
  when (is_paused env cluster w.agent) done
  check env.new_helper fail
  with_patch env (reconcile_patched env)

-- The exit, the probes afterwards, and the effects.
unfoldable pub reconcile :
    Env → Controller.Controller → Exit (Unit {0}) × Controller.Controller × List Effect
reconcile env probes =
    if env.context_done then (returned 0 none, probes, []) else (elim env.get_answer [
      | ok a ↦
          let (x, w, es) = reconcile_found env (record { agent = a; probes = probes }) in
          (x, w.probes, es)
      | failed e ↦
          if is_not_found e
          then (returned 0 none, remove_probe (key_text env.request) probes, [])
          else (returned 0 (some e), probes, [])
      | panicked ↦ (crashed, probes, [])
    ])
