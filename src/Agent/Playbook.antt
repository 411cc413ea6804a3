-- ===== src/Agent/Playbook.antt =====
-- `Reconcile` and `reconcileDelete` of agent/pkg/controllers/playbook.go.
pub mod Progress
pub mod Steps
pub mod Ran
pub mod LifeCycle
use kubeforce.Base.{
  ℕ, ◌+◌, ◌-◌, String, Bool, true, false, not, ◌||◌, ◌&&◌, Option, none, some, List, [], ◌∷◌, ◌++◌,
  ltb, sle32, slt32, inc32, if◌then◌else◌,
}
use kubeforce.Api.{Error, is_not_found, text, is_deleted}
use kubeforce.Conditions.{Conditions, condition_true, is_true, set, mark_true, mark_false}
use kubeforce.Agent.Types.{
  Policy, PlaybookPhase, Playbook, no_phase, pending, running, succeeded, failed, unknown, other,
  playbook_execution_condition, playbook_failed_condition, playbook_finalizer, get_backoff,
}
use kubeforce.Agent.Run.{
  Effect, patched, status_patched, ensured_ansible, removed_all, found, get_failed, Env, Outcome,
  returned, panicked, run_playbook,
}

-- The part of `Reconcile` under the deferred status patch.
pub record Sync : Type 0 where
  pub playbook : Playbook
  pub requeue_after : ℕ
  pub panics : Bool
  pub effects : List Effect

abbrev pub synced : Playbook → Sync
synced pb = record { playbook = pb; requeue_after = 0; panics = false; effects = [] }

abbrev pub with_phase : PlaybookPhase → Playbook → Playbook
with_phase p pb = record pb { status = record pb.status { phase = p } }

abbrev pub with_conditions : Conditions → Playbook → Playbook
with_conditions cs pb = record pb { status = record pb.status { conditions = cs } }

abbrev pub with_failure_counted : Playbook → Playbook
with_failure_counted pb = record pb {
  status = record pb.status { failed_count = inc32 pb.status.failed_count };
}

-- Phase Failed, one more failure, and a false Execution condition whose format is the error's text.
unfoldable pub record_failure : Env → String → Error → Playbook → Playbook
record_failure env reason e pb =
    let pb' = with_failure_counted (with_phase failed pb) in
    with_conditions
      (mark_false env.sprintf env.condition_now pb'.status.conditions playbook_execution_condition
        reason (text e) [])
      pb'

-- The phase that a failed preparation sets is overwritten below the `if`.
unfoldable pub prepare : Env → Playbook → Sync
prepare env pb = record {
  playbook = elim env.ensure_ansible [
    | none ↦ with_phase running pb
    | some e ↦ with_phase running (record_failure env "PreparationFailed" e pb)
  ];
  requeue_after = 0;
  panics = false;
  effects = ensured_ansible ∷ [];
}

abbrev pub finish : Env → Playbook → Outcome → Playbook
finish env pb panicked = pb
finish env pb (returned (some e)) = record_failure env "ExecutionFailed" e pb
finish env pb (returned none) =
    let pb' = with_phase succeeded pb in
    with_conditions (mark_true env.condition_now pb'.status.conditions playbook_execution_condition)
      pb'

abbrev pub is_panic : Outcome → Bool
is_panic panicked = true
is_panic (returned e) = false

unfoldable pub execute : Env → Playbook → Sync
execute env pb =
    let io = run_playbook env pb in
    record {
      playbook = finish env pb io.outcome;
      requeue_after = 0;
      panics = is_panic io.outcome;
      effects = io.effects;
    }

unfoldable pub dispatch : Env → PlaybookPhase → Playbook → Sync
dispatch env no_phase pb = synced (with_phase pending pb)
dispatch env unknown pb = synced (with_phase pending pb)
dispatch env failed pb = synced (with_phase pending pb)
dispatch env pending pb = prepare env pb
dispatch env running pb = execute env pb
dispatch env succeeded pb = synced pb
dispatch env (other s) pb = synced pb

abbrev pub limit_exceeded : Env → Playbook → Playbook
limit_exceeded env pb =
    let pb' = with_phase failed pb in
    with_conditions
      (set env.condition_now pb'.status.conditions (record {
        type = playbook_failed_condition;
        status = condition_true;
        last_transition_time = 0;
        reason = "BackoffLimitExceeded";
        message = "Playbook has reached the specified backoff limit";
      }))
      pb'

abbrev pub backoff_limit_of : Option Policy → Option ℕ
backoff_limit_of none = none
backoff_limit_of (some p) = p.backoff_limit

abbrev pub backoff_time : Playbook → ℕ
backoff_time pb = pb.metadata.creation_timestamp + get_backoff pb.status.failed_count

-- The guard of the requeue: there was a failure, and its backoff since the creation is not over.
unfoldable pub backing_off : Env → Playbook → Bool
backing_off env pb = slt32 0 pb.status.failed_count && ltb env.now (backoff_time pb)

unfoldable pub sync_limited : Env → ℕ → Playbook → Sync
sync_limited env limit pb =
    let next = dispatch env pb.status.phase pb in
    if sle32 limit pb.status.failed_count
    then synced (limit_exceeded env pb)
    else (if backing_off env pb
        then record (synced pb) { requeue_after = backoff_time pb - env.now }
        else next)

abbrev pub is_terminal : Playbook → Bool
is_terminal pb =
    is_true pb.status.conditions playbook_execution_condition
    || is_true pb.status.conditions playbook_failed_condition

unfoldable pub sync : Env → Playbook → Sync
sync env pb = if is_terminal pb then synced pb else elim (backoff_limit_of pb.spec.policy) [
  | none ↦ record (synced pb) { panics = true }
  | some limit ↦ sync_limited env limit pb
]

-- What `Reconcile` returns, or that it panicked, and all that it did.
pub record Response : Type 0 where
  pub requeue_after : ℕ
  pub error : Option Error
  pub panics : Bool
  pub effects : List Effect

abbrev pub respond : Option Error → List Effect → Response
respond e effects = record { requeue_after = 0; error = e; panics = false; effects = effects }

abbrev with_finalizers : List String → Playbook → Playbook
with_finalizers fs pb = record pb { metadata = record pb.metadata { finalizers = fs } }

-- The error of `os.RemoveAll` is only logged.
unfoldable pub reconcile_delete : Env → Playbook → Response
reconcile_delete env pb =
    let pb' =
      with_finalizers (env.finalizers.remove pb.metadata.finalizers playbook_finalizer) pb in
    if not (env.finalizers.contains pb.metadata.finalizers playbook_finalizer)
    then respond none []
    else respond (env.patch_answer pb')
        (removed_all (env.join (env.playbook_path ∷ pb.metadata.name ∷ [])) ∷ patched pb' ∷ [])

-- The deferred function: it patches the status also when the body panics.
abbrev pub with_status_patch : Env → Sync → Response
with_status_patch env s = record {
  requeue_after = s.requeue_after;
  error = elim (env.status_patch_answer s.playbook) [
    | none ↦ none
    | some e ↦ env.new_aggregate none (some e)
  ];
  panics = s.panics;
  effects = s.effects ++ (status_patched s.playbook ∷ []);
}

unfoldable pub reconcile_found : Env → Playbook → Response
reconcile_found env pb =
    let pb' = with_finalizers (env.finalizers.add pb.metadata.finalizers playbook_finalizer) pb in
    if is_deleted pb.metadata
    then reconcile_delete env pb
    else (if not (env.finalizers.contains pb.metadata.finalizers playbook_finalizer)
        then respond (env.patch_answer pb') (patched pb' ∷ [])
        else with_status_patch env (sync env pb))

unfoldable pub reconcile : Env → Response
reconcile env = elim env.get_answer [
  | get_failed e ↦ if is_not_found e then respond none [] else respond (some e) []
  | found pb ↦ reconcile_found env pb
]
