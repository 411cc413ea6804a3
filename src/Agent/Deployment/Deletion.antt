-- ===== src/Agent/Deployment/Deletion.antt =====
-- How a PlaybookDeployment is deleted (agent/pkg/controllers/playbookdeployment.go).
use kubeforce.Base.{◌≡◌, refl, true, false, none, List, [], ◌∷◌, ◌++◌, arith, if◌then◌else◌, All}
use kubeforce.Api.{is_deleted}
use kubeforce.Agent.Types.{Playbook}
use kubeforce.Agent.Deployment.{
  Env, Deployment, Effect, patched, deleted, listed, get_playbooks_for_deployment,
  playbook_deployment_finalizer,
}
use kubeforce.Agent.Deployment.Reconcile.{
  Response, respond, with_finalizers, delete_playbooks, finish_delete, reconcile_delete,
}

-- The deletion calls for those that are not yet being deleted, in order.
abbrev pub deletions : List Playbook → List Effect
deletions [] = []
deletions (pl ∷ ps) =
    let rest = deletions ps in if is_deleted pl.metadata then rest else deleted pl ∷ rest

abbrev pub Deletable : Env → List Playbook → Type 0
Deletable env = All (λ pl. env.delete_answer pl ≡ none)

delete_playbooks_done :
    (env : Env) (ps : List Playbook) (rest : Response)
    → Deletable env ps
    → delete_playbooks env ps rest ≡ record rest { effects = deletions ps ++ rest.effects }
unfolding delete_playbooks
delete_playbooks_done env [] rest h = refl
delete_playbooks_done env (pl ∷ ps) rest h = ground (arith, delete_playbooks_done env ps rest h.1)

-- While there are Playbooks, and each can be deleted, each one that is not yet being deleted is
-- deleted, in order, and then the finalizer is removed at once, without waiting for their end.
pub reconcile_delete_some_left :
    (env : Env) (pd : Deployment) (pl : Playbook) (ps : List Playbook)
    → env.finalizers.contains pd.metadata.finalizers playbook_deployment_finalizer ≡ true
    → get_playbooks_for_deployment env pd ≡ listed (pl ∷ ps)
    → Deletable env (pl ∷ ps)
    → let pd' =
        with_finalizers
          (env.finalizers.remove pd.metadata.finalizers playbook_deployment_finalizer)
          pd in
      (reconcile_delete env pd
        ≡ respond (env.patch_answer pd') (deletions (pl ∷ ps) ++ (patched pd' ∷ [])))
      × (env.finalizers.contains pd'.metadata.finalizers playbook_deployment_finalizer ≡ false)
unfolding reconcile_delete finish_delete
reconcile_delete_some_left env pd pl ps f l d = (
  rw f (rw (l, reconcile_delete) (delete_playbooks_done env (pl ∷ ps) _ d)),
  env.finalizers.contains-remove pd.metadata.finalizers playbook_deployment_finalizer,
)
