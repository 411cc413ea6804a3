-- ===== src/Agent/Playbook/Steps.antt =====
-- Single reconciliations of a Playbook: what success needs, how long a requeue lasts, and that nothing
-- is run for an object without the finalizer (agent/pkg/controllers/playbook.go).
use kubeforce.Base.{
  ℕ, ◌+◌, ◌≤◌, ◌<◌, ◌≡◌, refl, inl, inr, String, Bool, true, false, Option, none, some, List, [],
  ◌∷◌, ◌++◌, arith, str_eq, Option-cases,
}
use kubeforce.Api.{Error, text, is_deleted}
use kubeforce.Conditions.{is_true}
use kubeforce.Conditions.Lookup.{is_true-set, is_true-mark_false}
use kubeforce.Agent.Types.{
  Playbook, PlaybookSpec, running, max_job_backoff, playbook_execution_condition,
  playbook_failed_condition, playbook_finalizer, set_object_defaults,
}
use kubeforce.Agent.Types.Backoff.{get_backoff-le-max}
use kubeforce.Agent.Run.{
  Env, GetAnswer, found, get_failed, Effect, ran_command, status_patched, patched, ensured_ansible,
  made_dir, created_file, removed_all, wrote_file, Outcome, returned, panicked, run_playbook,
  timeout_of,
}
use kubeforce.Agent.Playbook.{
  is_terminal, backoff_limit_of, backoff_time, backing_off, limit_exceeded, record_failure, prepare,
  execute, finish, dispatch, sync_limited, sync, reconcile_delete, reconcile_found, reconcile,
}
use kubeforce.Agent.Playbook.Progress.{run_playbook_no_panic}

failure_not_true :
    (env : Env) (reason : String) (e : Error) (pb : Playbook)
    → is_true (record_failure env reason e pb).status.conditions playbook_execution_condition
      ≡ false
unfolding record_failure
failure_not_true env reason e pb =
    (is_true-mark_false env.sprintf env.condition_now pb.status.conditions
      playbook_execution_condition playbook_execution_condition reason (text e) []).1

failed_ne_execution : str_eq playbook_failed_condition playbook_execution_condition ≡ false
unfolding str_eq
failed_ne_execution = refl

-- The backoff limit sets the other condition.
limit_keeps_execution :
    (env : Env) (pb : Playbook)
    → is_true (limit_exceeded env pb).status.conditions playbook_execution_condition
      ≡ is_true pb.status.conditions playbook_execution_condition
limit_keeps_execution env pb = rw is_true-set (ground (arith, failed_ne_execution))

execute_true :
    (env : Env) (pb : Playbook) (o : Outcome)
    → is_true pb.status.conditions playbook_execution_condition ≡ false
    → is_true (finish env pb o).status.conditions playbook_execution_condition ≡ true
    → o ≡ returned none
execute_true env pb panicked f t = cc
execute_true env pb (returned none) f t = refl
execute_true env pb (returned (some e)) f t = cc (failure_not_true env "ExecutionFailed" e pb)

prepare_true :
    (env : Env) (pb : Playbook)
    → is_true pb.status.conditions playbook_execution_condition ≡ false
    → is_true (prepare env pb).playbook.status.conditions playbook_execution_condition ≡ false
unfolding prepare
prepare_true env pb f = elim (Option-cases env.ensure_ansible) [
  | inl e ↦ rw e f
  | inr (x, e) ↦ rw e (failure_not_true env "PreparationFailed" x pb)
]

sync_limited-true :
    (env : Env) (limit : ℕ) (pb : Playbook)
    → is_true pb.status.conditions playbook_execution_condition ≡ false
    → is_true (sync_limited env limit pb).playbook.status.conditions playbook_execution_condition
      ≡ true
    → (pb.status.phase ≡ running) × ((run_playbook env pb).outcome ≡ returned none)
unfolding sync_limited dispatch execute
sync_limited-true env limit pb f t = ground (
  arith,
  limit_keeps_execution env pb,
  prepare_true env pb f,
  execute_true env pb (run_playbook env pb).outcome f,
)

-- A reconciliation makes the Execution condition true, of a Playbook for which it was not, only in
-- phase Running and after a run of the playbook that returned nil.
pub sync_succeeded :
    (env : Env) (pb : Playbook)
    → is_true pb.status.conditions playbook_execution_condition ≡ false
    → is_true (sync env pb).playbook.status.conditions playbook_execution_condition ≡ true
    → (pb.status.phase ≡ running) × ((run_playbook env pb).outcome ≡ returned none)
unfolding sync
sync_succeeded env pb f t = elim (Option-cases (backoff_limit_of pb.spec.policy)) [
  | inl e ↦ ground arith
  | inr (limit, e) ↦ ground (arith, sync_limited-true env limit pb f)
]

-- A requeue is asked for only while the backoff of a positive failure count is not over. It lasts to
-- the end of that backoff, and the Playbook is left as it is. If the Playbook was not created after
-- now, the requeue is at most 360 seconds.
pub sync_requeue :
    (env : Env) (pb : Playbook)
    → 0 < (sync env pb).requeue_after
    → (backing_off env pb ≡ true)
      × ((sync env pb).playbook ≡ pb)
      × (env.now + (sync env pb).requeue_after ≡ backoff_time pb)
      × (pb.metadata.creation_timestamp ≤ env.now → (sync env pb).requeue_after ≤ max_job_backoff)
unfolding sync sync_limited dispatch prepare execute backing_off
sync_requeue env pb h = ground (arith, get_backoff-le-max pb.status.failed_count)

abbrev pub value_or : Option ℕ → ℕ → ℕ
value_or none d = d
value_or (some x) d = x

-- The defaults give every spec a limit and a timeout: the given ones, else 3 and ten minutes. The
-- files and the entrypoint are kept.
pub set_object_defaults_policy :
    (spec : PlaybookSpec)
    → let spec' = set_object_defaults spec in
      (backoff_limit_of spec'.policy ≡ some (value_or (backoff_limit_of spec.policy) 3))
      × (timeout_of spec'.policy ≡ some (value_or (timeout_of spec.policy) 600_000_000_000))
      × (spec'.files ≡ spec.files)
      × (spec'.entrypoint ≡ spec.entrypoint)
unfolding set_object_defaults
set_object_defaults_policy spec = ground arith

sync_limited_no_panic :
    (env : Env) (limit timeout : ℕ) (pb : Playbook)
    → timeout_of pb.spec.policy ≡ some timeout
    → (sync_limited env limit pb).panics ≡ false
unfolding sync_limited dispatch prepare execute
sync_limited_no_panic env limit timeout pb h =
    ground (arith, run_playbook_no_panic env pb timeout h)

sync_no_panic_given :
    (env : Env) (limit timeout : ℕ) (pb : Playbook)
    → backoff_limit_of pb.spec.policy ≡ some limit
    → timeout_of pb.spec.policy ≡ some timeout
    → (sync env pb).panics ≡ false
unfolding sync
sync_no_panic_given env limit timeout pb l t =
    ground (arith, sync_limited_no_panic env limit timeout pb t)

-- After the defaults have been set a reconciliation does not panic, whatever the Playbook was.
pub sync_no_panic :
    (env : Env) (pb : Playbook)
    → (sync env (record pb { spec = set_object_defaults pb.spec })).panics ≡ false
sync_no_panic env pb =
    let (l, t, _, _) = set_object_defaults_policy pb.spec in
    sync_no_panic_given env _ _ (record pb { spec = set_object_defaults pb.spec }) l t

-- Whether a command was run.
abbrev pub runs : List Effect → Bool
runs [] = false
runs (ran_command path timeout ∷ es) = true
runs (e ∷ es) = runs es

runs-status_patched :
    (es : List Effect) (pb : Playbook) → runs (es ++ (status_patched pb ∷ [])) ≡ runs es
runs-status_patched [] pb = refl
runs-status_patched (patched q ∷ es) pb = runs-status_patched es pb
runs-status_patched (status_patched q ∷ es) pb = runs-status_patched es pb
runs-status_patched (ensured_ansible ∷ es) pb = runs-status_patched es pb
runs-status_patched (made_dir s ∷ es) pb = runs-status_patched es pb
runs-status_patched (created_file s ∷ es) pb = runs-status_patched es pb
runs-status_patched (removed_all s ∷ es) pb = runs-status_patched es pb
runs-status_patched (wrote_file s t ∷ es) pb = runs-status_patched es pb
runs-status_patched (ran_command s t ∷ es) pb = refl

sync-runs :
    (env : Env) (pb : Playbook)
    → runs (sync env pb).effects ≡ true
    → (is_terminal pb ≡ false) × (pb.status.phase ≡ running)
unfolding sync sync_limited dispatch prepare execute
sync-runs env pb h = ground arith

reconcile_found-runs :
    (env : Env) (pb : Playbook)
    → runs (reconcile_found env pb).effects ≡ true
    → (is_deleted pb.metadata ≡ false)
      × (env.finalizers.contains pb.metadata.finalizers playbook_finalizer ≡ true)
      × (runs (sync env pb).effects ≡ true)
unfolding reconcile_found reconcile_delete
reconcile_found-runs env pb h =
    ground (arith, runs-status_patched (sync env pb).effects (sync env pb).playbook)

-- A command is run only for an object that was found, is not being deleted, has the finalizer, is
-- not terminal and is in phase Running.
pub reconcile-runs :
    (env : Env)
    → runs (reconcile env).effects ≡ true
    → (pb : Playbook) × (env.get_answer ≡ found pb)
      × (is_deleted pb.metadata ≡ false)
      × (env.finalizers.contains pb.metadata.finalizers playbook_finalizer ≡ true)
      × (is_terminal pb ≡ false)
      × (pb.status.phase ≡ running)
unfolding reconcile
reconcile-runs env h = go env.get_answer refl
  where
    go :
        (a : GetAnswer)
        → env.get_answer ≡ a
        → (pb : Playbook) × (env.get_answer ≡ found pb)
          × (is_deleted pb.metadata ≡ false)
          × (env.finalizers.contains pb.metadata.finalizers playbook_finalizer ≡ true)
          × (is_terminal pb ≡ false)
          × (pb.status.phase ≡ running)
    go (get_failed e) p = absurd (ground arith)
    go (found pb) p =
        let (d, f, r) = reconcile_found-runs env pb (rw (p, reconcile) at h) in
        let (t, q) = sync-runs env pb r in (pb, p, d, f, t, q)
