-- ===== src/Provider/Deployment/Reconcile.antt =====
-- cluster-api-provider-kubeforce/controllers/playbookdeployment_controller.go: `Reconcile`.
use kubeforce.Base.{Bool, not, ◌||◌, Option, none, some, List, [], ◌∷◌, ◌++◌, if◌then◌else◌}
use kubeforce.Api.{is_not_found, is_deleted}
use kubeforce.Provider.Types.{ok, failed, panicked, RemoteDeployment}
use kubeforce.Provider.Handler.{
  Exit, returned, crashed, done, fail, on_error, ◌>>=◌, ◌>>◌, get_object, modify, when, check,
}
use kubeforce.Provider.Playbook.Reconcile.{patch_exit}
use kubeforce.Provider.Deployment.{
  Env, Effect, patched, playbook_deployment_finalizer, reconcile_phase,
}
use kubeforce.Provider.Deployment.Delete.{Action, add_finalizer, reconcile_delete}
use kubeforce.Provider.Deployment.Sync.{reconcile_normal}

-- The deferred function, which also runs after a panic.
abbrev pub with_patch : Env → Action (Unit {0}) → Action (Unit {0})
with_patch env m pd0 =
    let (x, pd, es) = m pd0 in
    let pd' = reconcile_phase env.conds pd in
    (patch_exit x (env.patch_answer pd'), pd', es ++ (patched pd' ∷ []))

-- The body under the deferred function.
unfoldable pub reconcile_patched : Env → Action (Unit {0})
reconcile_patched env = do
  pd ← get_object
  when (is_deleted pd.metadata) (reconcile_delete env >> done)
  when (not (env.finalizers.contains pd.metadata.finalizers playbook_deployment_finalizer))
      (modify (add_finalizer env) >> done)
  reconcile_normal env

abbrev pub is_paused : Env → Option Bool → RemoteDeployment → Bool
is_paused env none pd = env.has_paused pd.metadata
is_paused env (some paused) pd = paused || env.has_paused pd.metadata

unfoldable pub reconcile_found : Env → Action (Unit {0})
reconcile_found env = do
  pd ← get_object
  cluster ← on_error env.cluster_answer fail
  when (is_paused env cluster pd) done
  check env.new_helper fail
  with_patch env (reconcile_patched env)

-- The exit, and the effects.
unfoldable pub reconcile : Env → Exit (Unit {0}) × List Effect
reconcile env = if env.context_done then (returned 0 none, []) else elim env.get_answer [
  | ok pd ↦ let (x, pd', es) = reconcile_found env pd in (x, es)
  | failed e ↦ (returned 0 (if is_not_found e then none else some e), [])
  | panicked ↦ (crashed, [])
]
