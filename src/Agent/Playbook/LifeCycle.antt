-- ===== src/Agent/Playbook/LifeCycle.antt =====
-- The life cycle that a Playbook of the agent promises, and that a reconciliation keeps to it
-- (agent/pkg/controllers/playbook.go).
use kubeforce.Base.{
  ◌≡◌, ◌≢◌, refl, ◌∙◌, ℕ, String, Bool, sle32, inc32, true, false, none, some, [], arith, str_eq,
  str_eq_iff, str_eq_refl, Bool-cases, Option-cases, inl, inr,
}
use kubeforce.Api.{Error, text}
use kubeforce.Conditions.{is_true}
use kubeforce.Conditions.Lookup.{is_true-set, is_true-mark_true, is_true-mark_false}
use kubeforce.Agent.Types.{
  Playbook, PlaybookPhase, no_phase, pending, running, succeeded, failed, unknown, other,
  playbook_execution_condition, playbook_failed_condition,
}
use kubeforce.Agent.Run.{Env, Outcome, returned, panicked, run_playbook}
use kubeforce.Agent.Playbook.{
  limit_exceeded, record_failure, prepare, execute, finish, dispatch, sync_limited, sync,
  is_terminal, backoff_limit_of, backing_off,
}

-- `halted` is a phase from which nothing is done but to give up.
pub data Life : Type 0 where
  idle queued started retrying halted executed exhausted : Life

-- A stage of the life, and the failures that were counted.
abbrev pub State : Type 0
State = Life × ℕ

abbrev pub is_live : Life → Bool
is_live executed = false
is_live exhausted = false
is_live _ = true

pub data LifeStep (limit : ℕ) : State → State → Type 0 where
  stays : (s : State) → LifeStep limit s s
  enqueues : (n : ℕ) → sle32 limit n ≡ false → LifeStep limit (idle, n) (queued, n)
  retries : (n : ℕ) → sle32 limit n ≡ false → LifeStep limit (retrying, n) (queued, n)
  starts : (n : ℕ) → sle32 limit n ≡ false → LifeStep limit (queued, n) (started, n)
  starts_unprepared :
      (n : ℕ) → sle32 limit n ≡ false → LifeStep limit (queued, n) (started, inc32 n)
  executes : (n : ℕ) → sle32 limit n ≡ false → LifeStep limit (started, n) (executed, n)
  fails : (n : ℕ) → sle32 limit n ≡ false → LifeStep limit (started, n) (retrying, inc32 n)
  gives_up :
      (l : Life) (n : ℕ)
      → is_live l ≡ true
      → sle32 limit n ≡ true
      → LifeStep limit (l, n) (exhausted, n)

abbrev pub life_by_phase : PlaybookPhase → Life
life_by_phase no_phase = idle
life_by_phase unknown = idle
life_by_phase pending = queued
life_by_phase running = started
life_by_phase failed = retrying
life_by_phase succeeded = halted
life_by_phase (other s) = halted

-- What a Playbook shows of its life: the conditions go before the phase.
abbrev pub life_by : Bool → Bool → PlaybookPhase → Life
life_by true failed_too p = executed
life_by false true p = exhausted
life_by false false p = life_by_phase p

abbrev pub view : Playbook → State
view pb = (
  life_by (is_true pb.status.conditions playbook_execution_condition)
      (is_true pb.status.conditions playbook_failed_condition) pb.status.phase,
  pb.status.failed_count,
)

execution-ne-failed : ◌≢◌ {A = String} playbook_execution_condition playbook_failed_condition
unfolding str_eq
execution-ne-failed h =
    elim (Bool-cases (str_eq playbook_execution_condition playbook_failed_condition)) [
      | inl e ↦ ground arith
      | inr e ↦ ground (arith, str_eq_iff playbook_execution_condition playbook_failed_condition)
    ]

failed-ne-execution : str_eq playbook_failed_condition playbook_execution_condition ≡ false
unfolding str_eq
failed-ne-execution = refl

module _ (env : Env) (limit : ℕ) (pb : Playbook)
    (e : is_true pb.status.conditions playbook_execution_condition ≡ false)
    (f : is_true pb.status.conditions playbook_failed_condition ≡ false) where
  record_failure-view :
      (reason : String) (x : Error)
      → let q = record_failure env reason x pb in
        (is_true q.status.conditions playbook_execution_condition ≡ false)
        × (is_true q.status.conditions playbook_failed_condition ≡ false)
        × (q.status.phase ≡ failed)
        × (q.status.failed_count ≡ inc32 pb.status.failed_count)
  unfolding record_failure
  record_failure-view reason x =
      let (a, b, c) =
        is_true-mark_false env.sprintf env.condition_now pb.status.conditions
          playbook_execution_condition playbook_failed_condition reason (text x) [] in
      (b, c execution-ne-failed ∙ f, refl, refl)

  prepare-LifeStep :
      pb.status.phase ≡ pending
      → sle32 limit pb.status.failed_count ≡ false
      → LifeStep limit (view pb) (view (prepare env pb).playbook)
  unfolding prepare
  prepare-LifeStep p u = elim (Option-cases env.ensure_ansible) [
    | inl a ↦ rw a (rw e (rw f (rw p (starts pb.status.failed_count u))))
    | inr (x, a) ↦
        let (b, c, ph, n) = record_failure-view "PreparationFailed" x in
        rw a (rw b (rw c (rw n (rw e (rw f (rw p (starts_unprepared pb.status.failed_count u)))))))
  ]

  finish-LifeStep :
      (o : Outcome)
      → pb.status.phase ≡ running
      → sle32 limit pb.status.failed_count ≡ false
      → LifeStep limit (view pb) (view (finish env pb o))
  finish-LifeStep panicked p u = stays (view pb)
  finish-LifeStep (returned none) p u =
      let (a, b, c) =
        is_true-mark_true env.condition_now pb.status.conditions playbook_execution_condition
          playbook_failed_condition in
      rw a (rw e (rw f (rw p (executes pb.status.failed_count u))))
  finish-LifeStep (returned (some x)) p u =
      let (b, c, ph, n) = record_failure-view "ExecutionFailed" x in
      rw b (rw c (rw ph (rw n (rw e (rw f (rw p (fails pb.status.failed_count u)))))))

  dispatch-LifeStep :
      (p : PlaybookPhase)
      → pb.status.phase ≡ p
      → sle32 limit pb.status.failed_count ≡ false
      → LifeStep limit (view pb) (view (dispatch env p pb).playbook)
  unfolding dispatch execute
  dispatch-LifeStep no_phase p u = rw e (rw f (rw p (enqueues pb.status.failed_count u)))
  dispatch-LifeStep unknown p u = rw e (rw f (rw p (enqueues pb.status.failed_count u)))
  dispatch-LifeStep failed p u = rw e (rw f (rw p (retries pb.status.failed_count u)))
  dispatch-LifeStep pending p u = prepare-LifeStep p u
  dispatch-LifeStep running p u = finish-LifeStep (run_playbook env pb).outcome p u
  dispatch-LifeStep succeeded p u = stays (view pb)
  dispatch-LifeStep (other s) p u = stays (view pb)

  life_by_phase-is_live : (p : PlaybookPhase) → is_live (life_by_phase p) ≡ true
  life_by_phase-is_live p = ground arith

  limit_exceeded-LifeStep :
      sle32 limit pb.status.failed_count ≡ true
      → LifeStep limit (view pb) (view (limit_exceeded env pb))
  limit_exceeded-LifeStep u = rw is_true-set (
      rw failed-ne-execution (
        rw is_true-set (
          rw str_eq_refl (
            rw e (
              rw f (
                gives_up (life_by_phase pb.status.phase) pb.status.failed_count
                  (life_by_phase-is_live pb.status.phase) u))))))

  sync_limited-LifeStep : LifeStep limit (view pb) (view (sync_limited env limit pb).playbook)
  unfolding sync_limited
  sync_limited-LifeStep = elim (Bool-cases (sle32 limit pb.status.failed_count)) [
    | inl u ↦ rw u (limit_exceeded-LifeStep u)
    | inr u ↦ elim (Bool-cases (backing_off env pb)) [
      | inl b ↦ rw u (rw b (stays (view pb)))
      | inr b ↦ rw u (rw b (dispatch-LifeStep pb.status.phase refl u))
    ]
  ]

-- A reconciliation of a Playbook with a backoff limit is one step of its life cycle: a retry or a
-- run only under the limit, each failure counted, giving up only at the limit, and nothing after the
-- end; whatever the environment answers.
pub sync-LifeStep :
    (env : Env) (limit : ℕ) (pb : Playbook)
    → backoff_limit_of pb.spec.policy ≡ some limit
    → LifeStep limit (view pb) (view (sync env pb).playbook)
unfolding sync
sync-LifeStep env limit pb h = elim (Bool-cases (is_terminal pb)) [
  | inl t ↦ rw t (stays (view pb))
  | inr t ↦ rw t (rw h (sync_limited-LifeStep env limit pb (ground arith) (ground arith)))
]
