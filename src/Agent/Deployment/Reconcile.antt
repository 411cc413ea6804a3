-- ===== src/Agent/Deployment/Reconcile.antt =====
-- agent/pkg/controllers/playbookdeployment.go: `Reconcile` and `reconcileDelete`.
use kubeforce.Base.{
  ℕ, String, Bool, true, false, not, Option, none, some, List, [], ◌∷◌, ◌++◌, if◌then◌else◌,
}
use kubeforce.Api.{Error, is_not_found, is_deleted}
use kubeforce.Agent.Types.{Playbook}
use kubeforce.Agent.Deployment.{
  Deployment, playbook_deployment_finalizer, Effect, Env, get_playbooks_for_deployment, Sync, sync,
  patched, status_patched, deleted, found, get_failed, listed, list_failed,
}

pub record Response : Type 0 where
  pub requeue_after : ℕ
  pub error : Option Error
  pub effects : List Effect

abbrev pub respond : Option Error → List Effect → Response
respond e effects = record { requeue_after = 0; error = e; effects = effects }

abbrev pub with_finalizers : List String → Deployment → Deployment
with_finalizers fs pd = record pd { metadata = record pd.metadata { finalizers = fs } }

-- The loop over the Playbooks: one that is already being deleted is passed over, and an error ends
-- the function.
unfoldable pub delete_playbooks : Env → List Playbook → Response → Response
delete_playbooks env [] rest = rest
delete_playbooks env (pl ∷ playbooks) rest =
    let later = delete_playbooks env playbooks rest in
    if is_deleted pl.metadata then later else elim (env.delete_answer pl) [
      | some e ↦ respond (some e) (deleted pl ∷ [])
      | none ↦ record later { effects = deleted pl ∷ later.effects }
    ]

abbrev pub is_empty : List Playbook → Bool
is_empty [] = true
is_empty (x ∷ xs) = false

-- What follows the loop: 3 seconds of requeue if there was no Playbook, else the finalizer goes.
unfoldable pub finish_delete : Env → Deployment → List Playbook → Response
finish_delete env pd playbooks =
    let pd' =
      with_finalizers (env.finalizers.remove pd.metadata.finalizers playbook_deployment_finalizer)
        pd in
    if is_empty playbooks
    then record { requeue_after = 3_000_000_000; error = none; effects = [] }
    else respond (env.patch_answer pd') (patched pd' ∷ [])

unfoldable pub reconcile_delete : Env → Deployment → Response
reconcile_delete env pd =
    if not (env.finalizers.contains pd.metadata.finalizers playbook_deployment_finalizer)
    then respond none []
    else elim (get_playbooks_for_deployment env pd) [
      | listed playbooks ↦ delete_playbooks env playbooks (finish_delete env pd playbooks)
      | list_failed e ↦ respond (some e) []
    ]

abbrev pub with_status_patch : Env → Sync → Response
with_status_patch env s = record {
  requeue_after = 0;
  error = elim (env.status_patch_answer s.deployment) [
    | none ↦ s.error
    | some e ↦ env.new_aggregate s.error (some e)
  ];
  effects = s.effects ++ (status_patched s.deployment ∷ []);
}

unfoldable pub reconcile_found : Env → Deployment → Response
reconcile_found env pd =
    let pd' =
      with_finalizers (env.finalizers.add pd.metadata.finalizers playbook_deployment_finalizer)
        pd in
    if is_deleted pd.metadata
    then reconcile_delete env pd
    else (if not (env.finalizers.contains pd.metadata.finalizers playbook_deployment_finalizer)
        then respond (env.patch_answer pd') (patched pd' ∷ [])
        else with_status_patch env (sync env pd))

unfoldable pub reconcile : Env → Response
reconcile env = elim env.get_answer [
  | get_failed e ↦ if is_not_found e then respond none [] else respond (some e) []
  | found pd ↦ reconcile_found env pd
]
