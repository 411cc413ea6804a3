-- ===== src/Agent/Deployment/Newest.antt =====
-- Which Playbook `getLastPlaybook` takes (agent/pkg/controllers/playbookdeployment.go).
use kubeforce.Base.{◌≡◌, refl, ap, arith, keep, IsOrder, latest, last-sort_stable}
use kubeforce.Agent.Deployment.{
  Env, Deployment, ListAnswer, listed, list_failed, LastAnswer, last_playbook, last_failed,
  get_playbooks_for_deployment, created_before, sort_playbooks_by_creation_time, get_last_playbook,
}

pub created_before-IsOrder : IsOrder created_before
created_before-IsOrder = record { asymm = λ p q h. ground arith; trans = λ p q r h k. ground arith }

-- The answer as the specification has it: the last of the newest Playbooks among those that the
-- deployment controls.
abbrev pub newest_answer : Env → Deployment → ListAnswer → LastAnswer
newest_answer env pd (list_failed e) = last_failed e
newest_answer env pd (listed items) =
    last_playbook
      (latest created_before (keep (λ pl. env.is_controlled_by pl.metadata pd.metadata) items))

-- `getLastPlaybook` gives the error of the listing, or else the newest of the Playbooks that the
-- deployment controls, the last listed one of several that were created at the same time.
pub get_last_playbook-eq-newest :
    (env : Env) (pd : Deployment) → get_last_playbook env pd ≡ newest_answer env pd env.list_answer
unfolding get_last_playbook get_playbooks_for_deployment sort_playbooks_by_creation_time
get_last_playbook-eq-newest env pd = go env.list_answer
  where
    go :
        (a : ListAnswer)
        → get_last_playbook (record env { list_answer = a }) pd ≡ newest_answer env pd a
    go (list_failed e) = refl
    go (listed items) = ap last_playbook (
        last-sort_stable created_before-IsOrder
          (keep (λ pl. env.is_controlled_by pl.metadata pd.metadata) items))
