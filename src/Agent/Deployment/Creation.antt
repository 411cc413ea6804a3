-- ===== src/Agent/Deployment/Creation.antt =====
-- When a PlaybookDeployment gets a new Playbook, and which phase it reports
-- (agent/pkg/controllers/playbookdeployment.go).
use kubeforce.Base.{
  latest, keep, ◌≡◌, ◌≢◌, refl, ap, sym, ◌∙◌, ◌⊎◌, inl, inr, String, Bool, true, false, none, some,
  List, [], ◌∷◌, ◌++◌, arith, str_eq_iff, str_eq_refl, if◌then◌else◌, Bool-cases,
}
use kubeforce.Api.{is_deleted}
use kubeforce.Agent.Types.{Playbook}
use kubeforce.Agent.Checksum.{Sum, sum, sum_failed, calc_sha256_for_object}
use kubeforce.Agent.Deployment.Newest.{newest_answer, get_last_playbook-eq-newest}
use kubeforce.Agent.Deployment.{
  listed, created_before, paused, synced, ListAnswer-cases, Env, Deployment, progressing, succeeded,
  failed, Effect, patched, status_patched, created, deleted, GetAnswer, found, get_failed,
  LastAnswer, last_playbook, last_failed, get_playbooks_for_deployment, get_last_playbook,
  is_executed, is_failed, is_in_progress, get_playbook_deployment_phase, with_generation,
  compare_sums, sync_last, sync, playbook_deployment_finalizer,
}
use kubeforce.Agent.Deployment.Reconcile.{
  Response, delete_playbooks, finish_delete, reconcile_delete, reconcile_found, reconcile,
}

abbrev pub creates : List Effect → Bool
creates [] = false
creates (created p ∷ es) = true
creates (e ∷ es) = creates es

-- No Playbook yet, or a finished one whose specification has another checksum than the template.
abbrev pub IsDue : Env → Deployment → Type 0
IsDue env pd =
    (get_last_playbook env pd ≡ last_playbook none)
    ⊎ ((pl : Playbook) × (s t : String) × (get_last_playbook env pd ≡ last_playbook (some pl))
        × (is_in_progress pl ≡ false)
        × (calc_sha256_for_object env.hash pl.spec ≡ sum s)
        × (calc_sha256_for_object env.hash pd.spec.template_spec ≡ sum t)
        × (s ≢ t))

compare_sums-creates :
    (env : Env) (pd : Deployment) (pl : Playbook) (a b : Sum)
    → creates (compare_sums env pd pl a b).effects ≡ true
    → (s t : String) × (a ≡ sum s) × (b ≡ sum t) × (s ≢ t)
compare_sums-creates env pd pl (sum_failed e) b h = cc
compare_sums-creates env pd pl (sum s) (sum_failed e) h = cc
compare_sums-creates env pd pl (sum s) (sum t) h =
    (s, t, refl, refl, λ p. ground (arith, str_eq_iff s t))

sync_last-creates :
    (env : Env) (pd : Deployment) (a : LastAnswer)
    → get_last_playbook env pd ≡ a
    → creates (sync_last env pd a).effects ≡ true
    → IsDue env pd
unfolding sync_last
sync_last-creates env pd (last_failed e) p h = cc
sync_last-creates env pd (last_playbook none) p h = inl p
sync_last-creates env pd (last_playbook (some pl)) p h = elim (Bool-cases (is_in_progress pl)) [
  | inl busy ↦ absurd (ground arith)
  | inr idle ↦
      let (s, t, a, b, n) =
        compare_sums-creates env pd pl (calc_sha256_for_object env.hash pl.spec)
          (calc_sha256_for_object env.hash pd.spec.template_spec) (rw idle at h) in
      inr (pl, s, t, p, idle, a, b, n)
]

last_generation :
    (env : Env) (pd : Deployment)
    → get_last_playbook env (with_generation pd) ≡ get_last_playbook env pd
unfolding get_last_playbook get_playbooks_for_deployment
last_generation env pd = refl

sync_not_paused :
    (env : Env) (pd : Deployment)
    → pd.spec.is_paused ≡ false
    → sync env pd ≡ sync_last env (with_generation pd) (get_last_playbook env (with_generation pd))
unfolding sync
sync_not_paused env pd h = ground arith

sync-creates :
    (env : Env) (pd : Deployment)
    → creates (sync env pd).effects ≡ true
    → (pd.spec.is_paused ≡ false) × IsDue env pd
unfolding get_last_playbook get_playbooks_for_deployment
sync-creates env pd h = elim (Bool-cases pd.spec.is_paused) [
  | inl p ↦ absurd (paused_creates env pd p h)
  | inr p ↦
      (p, sync_last-creates env (with_generation pd) _ refl (rw (sync_not_paused env pd p) at h))
]
  where
    paused_creates :
        (env : Env) (pd : Deployment)
        → pd.spec.is_paused ≡ true
        → creates (sync env pd).effects ≡ true
        → ⊥
    paused_creates env pd p h = unfold sync in ground arith

creates-status_patched :
    (es : List Effect) (pd : Deployment) → creates (es ++ (status_patched pd ∷ [])) ≡ creates es
creates-status_patched [] pd = refl
creates-status_patched (created p ∷ es) pd = refl
creates-status_patched (deleted p ∷ es) pd = creates-status_patched es pd
creates-status_patched (patched q ∷ es) pd = creates-status_patched es pd
creates-status_patched (status_patched q ∷ es) pd = creates-status_patched es pd

delete_creates_nothing :
    (env : Env) (playbooks : List Playbook) (rest : Response)
    → creates rest.effects ≡ false
    → creates (delete_playbooks env playbooks rest).effects ≡ false
unfolding delete_playbooks
delete_creates_nothing env [] rest h = h
delete_creates_nothing env (pl ∷ playbooks) rest h =
    ground (arith, delete_creates_nothing env playbooks rest h)

finish_delete-creates :
    (env : Env) (pd : Deployment) (playbooks : List Playbook)
    → creates (finish_delete env pd playbooks).effects ≡ false
unfolding finish_delete
finish_delete-creates env pd playbooks = ground arith

reconcile_delete-creates :
    (env : Env) (pd : Deployment) → creates (reconcile_delete env pd).effects ≡ false
unfolding reconcile_delete
reconcile_delete-creates env pd = elim (ListAnswer-cases (get_playbooks_for_deployment env pd)) [
  | inl (ps, e) ↦ ground (
    arith,
    finish_delete-creates env pd ps,
    delete_creates_nothing env ps (finish_delete env pd ps),
  )
  | inr (x, e) ↦ ground arith
]

reconcile_found-creates :
    (env : Env) (pd : Deployment)
    → creates (reconcile_found env pd).effects ≡ true
    → (is_deleted pd.metadata ≡ false)
      × (env.finalizers.contains pd.metadata.finalizers playbook_deployment_finalizer ≡ true)
      × (creates (sync env pd).effects ≡ true)
unfolding reconcile_found
reconcile_found-creates env pd h = ground (
  arith,
  reconcile_delete-creates env pd,
  creates-status_patched (sync env pd).effects (sync env pd).deployment,
)

-- A reconciliation creates a Playbook only for a deployment that was found, is not being deleted,
-- has the finalizer and is not paused, and that has no Playbook yet or whose newest one is finished
-- and has another checksum than the template.
pub reconcile-creates :
    (env : Env)
    → creates (reconcile env).effects ≡ true
    → (pd : Deployment) × (env.get_answer ≡ found pd)
      × (is_deleted pd.metadata ≡ false)
      × (env.finalizers.contains pd.metadata.finalizers playbook_deployment_finalizer ≡ true)
      × (pd.spec.is_paused ≡ false)
      × IsDue env pd
unfolding reconcile
reconcile-creates env h = go env.get_answer refl
  where
    go :
        (a : GetAnswer)
        → env.get_answer ≡ a
        → (pd : Deployment) × (env.get_answer ≡ found pd)
          × (is_deleted pd.metadata ≡ false)
          × (env.finalizers.contains pd.metadata.finalizers playbook_deployment_finalizer ≡ true)
          × (pd.spec.is_paused ≡ false)
          × IsDue env pd
    go (get_failed e) p = absurd (ground arith)
    go (found pd) p =
        let (d, f, r) = reconcile_found-creates env pd (rw (p, reconcile) at h) in
        let (running, due) = sync-creates env pd r in (pd, p, d, f, running, due)

sync_last_in_step :
    (env : Env) (pd : Deployment) (pl : Playbook) (s : String)
    → calc_sha256_for_object env.hash pl.spec ≡ sum s
    → calc_sha256_for_object env.hash pd.spec.template_spec ≡ sum s
    → sync_last env pd (last_playbook (some pl)) ≡ synced (get_playbook_deployment_phase pl) pd
unfolding sync_last get_playbook_deployment_phase
sync_last_in_step env pd pl s h k = rw (h, k) (rw (str_eq_refl s) (ground arith))

-- What is known of a reconciliation that finds the deployment in step with its newest Playbook.
abbrev pub InStep : Env → Deployment → Playbook → Type 0
InStep env pd pl =
    ((sync env pd).effects ≡ [])
    × ((sync env pd).error ≡ none)
    × ((sync env pd).deployment.status.phase ≡ (
        if pd.spec.is_paused
        then paused
        else (if is_executed pl
            then succeeded
            else (if is_failed pl then failed else progressing))))
    × ((sync env pd).deployment.status.observed_generation ≡ pd.metadata.generation)

sync_paused :
    (env : Env) (pd : Deployment) (pl : Playbook) → pd.spec.is_paused ≡ true → InStep env pd pl
unfolding sync
sync_paused env pd pl p = rw p (refl, refl, refl, refl)

sync_active :
    (env : Env) (pd : Deployment) (pl : Playbook) (s : String)
    → pd.spec.is_paused ≡ false
    → get_last_playbook env pd ≡ last_playbook (some pl)
    → calc_sha256_for_object env.hash pl.spec ≡ sum s
    → pl.spec ≡ pd.spec.template_spec
    → InStep env pd pl
unfolding get_playbook_deployment_phase
sync_active env pd pl s p q h e =
    let step : sync env pd ≡ synced (get_playbook_deployment_phase pl) (with_generation pd) =
      sync_not_paused env pd p
      ∙ (ap (sync_last env (with_generation pd)) (last_generation env pd ∙ q)
          ∙ sync_last_in_step env (with_generation pd) pl s h
              (ap (calc_sha256_for_object env.hash) (sym e) ∙ h)) in
    rw step (refl, refl, rw p refl, refl)

-- If the newest of the listed Playbooks that the deployment controls has the specification of the
-- template, and that has a checksum, then a reconciliation creates nothing and has no error, and the
-- observed generation is the one of the deployment. The phase is Paused if the deployment is paused,
-- and else Progressing, Succeeded or Failed as that Playbook is in progress, executed or failed.
pub sync-InStep :
    (env : Env) (pd : Deployment) (items : List Playbook) (pl : Playbook) (s : String)
    → env.list_answer ≡ listed items
    → latest created_before (keep (λ q. env.is_controlled_by q.metadata pd.metadata) items)
      ≡ some pl
    → calc_sha256_for_object env.hash pl.spec ≡ sum s
    → pl.spec ≡ pd.spec.template_spec
    → InStep env pd pl
sync-InStep env pd items pl s l n h e = elim (Bool-cases pd.spec.is_paused) [
  | inl p ↦ sync_paused env pd pl p
  | inr p ↦
      sync_active env pd pl s p
        (get_last_playbook-eq-newest env pd ∙ ap (newest_answer env pd) l ∙ ap last_playbook n) h e
]
