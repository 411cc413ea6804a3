-- ===== src/Provider/Playbook/Reconcile.antt =====
-- cluster-api-provider-kubeforce/controllers/playbook_controller.go: `Reconcile`.
use kubeforce.Base.{Bool, not, ◌||◌, Option, none, some, List, [], ◌∷◌, ◌++◌, if◌then◌else◌}
use kubeforce.Api.{Error, is_not_found, is_deleted}
use kubeforce.Provider.Types.{ok, failed, panicked, RemotePlaybook}
use kubeforce.Provider.Handler.{
  Exit, going, returned, crashed, done, fail, on_error, ◌>>=◌, ◌>>◌, get_object, modify, when,
  check,
}
use kubeforce.Provider.Playbook.{Env, Effect, patched, playbook_finalizer, reconcile_phase}
use kubeforce.Provider.Playbook.Delete.{Action, add_finalizer, reconcile_delete}
use kubeforce.Provider.Playbook.Sync.{reconcile_normal}

-- The error of the deferred patch, which is returned where there is no other; a playbook that is
-- gone is no error.
abbrev pub patch_error : Option Error → Option Error → Option Error
patch_error (some e) _ = some e
patch_error none none = none
patch_error none (some e) = if is_not_found e then none else some e

abbrev pub patch_exit : Exit (Unit {0}) → Option Error → Exit (Unit {0})
patch_exit (going u) e = returned 0 (patch_error none e)
patch_exit (returned after err) e = returned after (patch_error err e)
patch_exit crashed e = crashed

-- The deferred function, which also runs after a panic.
abbrev pub with_patch : Env → Action (Unit {0}) → Action (Unit {0})
with_patch env m pb0 =
    let (x, pb, es) = m pb0 in
    let pb' = reconcile_phase env.conds pb in
    (patch_exit x (env.patch_answer pb'), pb', es ++ (patched pb' ∷ []))

-- The body under the deferred function.
unfoldable pub reconcile_patched : Env → Action (Unit {0})
reconcile_patched env = do
  pb ← get_object
  when (is_deleted pb.metadata) (reconcile_delete env >> done)
  when (not (env.finalizers.contains pb.metadata.finalizers playbook_finalizer))
      (modify (add_finalizer env) >> done)
  reconcile_normal env

abbrev pub is_paused : Env → Option Bool → RemotePlaybook → Bool
is_paused env none pb = env.has_paused pb.metadata
is_paused env (some paused) pb = paused || env.has_paused pb.metadata

unfoldable pub reconcile_found : Env → Action (Unit {0})
reconcile_found env = do
  pb ← get_object
  cluster ← on_error env.cluster_answer fail
  when (is_paused env cluster pb) done
  check env.new_helper fail
  with_patch env (reconcile_patched env)

-- The exit, and the effects.
unfoldable pub reconcile : Env → Exit (Unit {0}) × List Effect
reconcile env = if env.context_done then (returned 0 none, []) else elim env.get_answer [
  | ok pb ↦ let (x, pb', es) = reconcile_found env pb in (x, es)
  | failed e ↦ (returned 0 (if is_not_found e then none else some e), [])
  | panicked ↦ (crashed, [])
]
