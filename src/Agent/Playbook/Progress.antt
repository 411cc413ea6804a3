-- ===== src/Agent/Playbook/Progress.antt =====
-- That the retries of a Playbook come to an end (agent/pkg/controllers/playbook.go).
use mathlib.Core.Path.{subst}
use kubeforce.Base.{
  sym, ℕ, ◌+◌, ◌-◌, ◌*◌, ◌^◌, ◌≤◌, ◌<◌, ◌≡◌, refl, ap, ◌∙◌, ◌⊎◌, inl, inr, String, Bool, true,
  false, Option, none, some, List, [], ◌∷◌, arith, StringMap, str_eq_refl, All, Option-cases,
  Bool-cases, sle32,
}
use kubeforce.Api.{Error}
use kubeforce.Conditions.Lookup.{is_true-set, is_true-mark_true}
use kubeforce.Agent.Types.{
  Playbook, PlaybookPhase, no_phase, pending, running, succeeded, failed, unknown, other,
  max_job_backoff, playbook_execution_condition, playbook_failed_condition,
}
use kubeforce.Agent.Types.Backoff.{get_backoff-le-max}
use kubeforce.Agent.Run.{
  Env, Io, Outcome, returned, panicked, write_files, run_command_io, run_logged, run_playbook,
  timeout_of,
}
use kubeforce.Agent.Playbook.{
  with_phase, synced, backing_off, is_panic, is_terminal, backoff_limit_of, limit_exceeded,
  record_failure, prepare, execute, finish, dispatch, sync_limited, sync,
}

write_files_no_panic :
    (env : Env) (name : String) (files : StringMap String) (rest : Io)
    → is_panic rest.outcome ≡ false
    → is_panic (write_files env name files rest).outcome ≡ false
unfolding write_files
write_files_no_panic env name [] rest h = h
write_files_no_panic env name ((key, content) ∷ files) rest h =
    ground (arith, write_files_no_panic env name files rest)

run_command_no_panic :
    (env : Env) (pb : Playbook) (timeout : ℕ)
    → timeout_of pb.spec.policy ≡ some timeout
    → is_panic (run_command_io env pb).outcome ≡ false
unfolding run_command_io
run_command_no_panic env pb timeout h = ground arith

run_logged_no_panic :
    (env : Env) (pb : Playbook) (timeout : ℕ)
    → timeout_of pb.spec.policy ≡ some timeout
    → is_panic (run_logged env pb).outcome ≡ false
unfolding run_logged
run_logged_no_panic env pb timeout h = ground (arith, run_command_no_panic env pb timeout h)

pub run_playbook_no_panic :
    (env : Env) (pb : Playbook) (timeout : ℕ)
    → timeout_of pb.spec.policy ≡ some timeout
    → is_panic (run_playbook env pb).outcome ≡ false
unfolding run_playbook
run_playbook_no_panic env pb timeout h = ground (
  arith,
  write_files_no_panic env pb.metadata.name pb.spec.files (run_logged env pb)
      (run_logged_no_panic env pb timeout h),
)

pub limit_exceeded-is_terminal :
    (env : Env) (pb : Playbook) → is_terminal (limit_exceeded env pb) ≡ true
limit_exceeded-is_terminal env pb =
    simp is_true-set (ground (arith, str_eq_refl playbook_failed_condition))

-- The phases from which the reconciler still moves a Playbook, and how far each is from its end.
abbrev pub is_active : PlaybookPhase → Bool
is_active succeeded = false
is_active (other s) = false
is_active _ = true

abbrev pub rank : PlaybookPhase → ℕ
rank pending = 1
rank running = 0
rank succeeded = 0
rank (other s) = 0
rank _ = 2

abbrev pub measure : ℕ → Playbook → ℕ
measure limit pb = 3 * (limit - pb.status.failed_count) + rank pb.status.phase

-- A Playbook with its defaults that has failed at most as often as its limit allows.
pub record IsLive (limit timeout : ℕ) (pb : Playbook) : Type 0 where
  pub has_limit : backoff_limit_of pb.spec.policy ≡ some limit
  pub has_timeout : timeout_of pb.spec.policy ≡ some timeout
  pub in_range : limit < 2 ^ 31
  pub counted : pb.status.failed_count ≤ limit
  pub active : is_active pb.status.phase ≡ true

-- The time is past every backoff that there is.
abbrev pub Elapsed : ℕ → Env → Type 0
Elapsed creation env = creation + max_job_backoff ≤ env.now

-- What a step from a live Playbook reaches: an end, or a live Playbook that is nearer to one.
abbrev Progressed : ℕ → ℕ → ℕ → Playbook → Type 0
Progressed limit timeout before pb =
    (is_terminal pb ≡ true) ⊎ (IsLive limit timeout pb × (measure limit pb < before))

record_failure-IsLive :
    (limit timeout : ℕ) (env : Env) (reason : String) (e : Error) (pb : Playbook)
    → IsLive limit timeout pb
    → pb.status.failed_count < limit
    → let pb' = record_failure env reason e pb in
      IsLive limit timeout pb'
      × (pb'.status.phase ≡ failed)
      × (pb'.status.failed_count ≡ pb.status.failed_count + 1)
unfolding record_failure
record_failure-IsLive limit timeout env reason e pb v h = (
  record {
    has_limit = v.has_limit;
    has_timeout = v.has_timeout;
    in_range = v.in_range;
    counted = omega (arith, v.in_range);
    active = refl;
  },
  refl,
  omega (arith, v.in_range),
)

with_phase-IsLive :
    (limit timeout : ℕ) (phase : PlaybookPhase) (pb : Playbook)
    → is_active phase ≡ true
    → IsLive limit timeout pb
    → IsLive limit timeout (with_phase phase pb)
with_phase-IsLive limit timeout phase pb a v = record {
  has_limit = v.has_limit;
  has_timeout = v.has_timeout;
  in_range = v.in_range;
  counted = v.counted;
  active = a;
}

finish_progress :
    (limit timeout : ℕ) (env : Env) (pb : Playbook) (o : Outcome)
    → IsLive limit timeout pb
    → pb.status.failed_count < limit
    → is_panic o ≡ false
    → Progressed limit timeout (3 * (limit - pb.status.failed_count) + 0) (finish env pb o)
finish_progress limit timeout env pb panicked v h p = cc
finish_progress limit timeout env pb (returned none) v h p = inl (
    rw
      ((is_true-mark_true env.condition_now pb.status.conditions playbook_execution_condition
        playbook_execution_condition).0)
      refl)
finish_progress limit timeout env pb (returned (some e)) v h p =
    let (live, phase, count) = record_failure-IsLive limit timeout env "ExecutionFailed" e pb v h in
    inr (live, rw (phase, count) (omega arith))

prepare_progress :
    (limit timeout : ℕ) (env : Env) (pb : Playbook)
    → IsLive limit timeout pb
    → pb.status.failed_count < limit
    → Progressed limit timeout (3 * (limit - pb.status.failed_count) + 1) (prepare env pb).playbook
unfolding prepare
prepare_progress limit timeout env pb v h = elim (Option-cases env.ensure_ansible) [
  | inl e ↦ rw e (inr (with_phase-IsLive limit timeout running pb refl v, omega arith))
  | inr (x, e) ↦
      let (live, phase, count) =
        record_failure-IsLive limit timeout env "PreparationFailed" x pb v h in
      rw e (inr (with_phase-IsLive limit timeout running _ refl live, rw count (omega arith)))
]

dispatch_progress :
    (limit timeout : ℕ) (env : Env) (phase : PlaybookPhase) (pb : Playbook)
    → is_active phase ≡ true
    → IsLive limit timeout pb
    → pb.status.failed_count < limit
    → Progressed limit timeout
        (3 * (limit - pb.status.failed_count) + rank phase)
        (dispatch env phase pb).playbook
unfolding dispatch execute
dispatch_progress limit timeout env no_phase pb a v h =
    inr (with_phase-IsLive limit timeout pending pb refl v, omega arith)
dispatch_progress limit timeout env unknown pb a v h =
    inr (with_phase-IsLive limit timeout pending pb refl v, omega arith)
dispatch_progress limit timeout env failed pb a v h =
    inr (with_phase-IsLive limit timeout pending pb refl v, omega arith)
dispatch_progress limit timeout env pending pb a v h = prepare_progress limit timeout env pb v h
dispatch_progress limit timeout env running pb a v h =
    finish_progress limit timeout env pb (run_playbook env pb).outcome v h
      (run_playbook_no_panic env pb timeout v.has_timeout)
dispatch_progress limit timeout env succeeded pb a v h = cc
dispatch_progress limit timeout env (other s) pb a v h = cc

backing_off-Elapsed :
    (env : Env) (pb : Playbook)
    → Elapsed pb.metadata.creation_timestamp env
    → backing_off env pb ≡ false
unfolding backing_off
backing_off-Elapsed env pb late = ground (arith, get_backoff-le-max pb.status.failed_count)

-- While a live Playbook is not terminal and its backoff is over, each reconciliation makes it
-- terminal, or leaves it live with a smaller measure: whatever the environment answers, errors of
-- the preparation and of the command included.
pub sync_progress :
    (limit timeout : ℕ) (env : Env) (pb : Playbook)
    → IsLive limit timeout pb
    → is_terminal pb ≡ false
    → Elapsed pb.metadata.creation_timestamp env
    → Progressed limit timeout (measure limit pb) (sync env pb).playbook
unfolding sync sync_limited
sync_progress limit timeout env pb v t late =
    elim (Bool-cases (sle32 limit pb.status.failed_count)) [
      | inl over ↦ rw t (rw v.has_limit (rw over (inl (limit_exceeded-is_terminal env pb))))
      | inr under ↦
          let fewer : pb.status.failed_count < limit = ground (arith, v.in_range) in
          rw t (
            rw v.has_limit (
              rw under (
                rw (backing_off-Elapsed env pb late)
                  (dispatch_progress limit timeout env pb.status.phase pb v.active v fewer))))
    ]

-- What the API server holds after a patch that it may refuse, and how many it has accepted then.
abbrev pub held : Option Error → Playbook → Playbook → Playbook
held none after before = after
held (some e) after before = before

abbrev pub counted : Option Error → ℕ → ℕ
counted none n = n + 1
counted (some e) n = n

abbrev pub patch_answer : Env → Playbook → Option Error
patch_answer env pb = env.status_patch_answer (sync env pb).playbook

-- The Playbook that the API server holds after a reconciliation of the one it held: a status patch
-- that it refuses leaves that one as it was.
abbrev pub stored : Env → Playbook → Playbook
stored env pb = held (patch_answer env pb) (sync env pb).playbook pb

-- The Playbook that is held after one reconciliation for each environment of a list.
unfoldable pub syncs : List Env → Playbook → Playbook
syncs [] pb = pb
syncs (env ∷ envs) pb = syncs envs (stored env pb)

-- How many of the status patches are accepted.
unfoldable pub accepted : List Env → Playbook → ℕ
accepted [] pb = 0
accepted (env ∷ envs) pb =
    let rest = accepted envs (stored env pb) in counted (patch_answer env pb) rest

-- A terminal Playbook is left as it is by every later reconciliation: nothing is run, nothing is
-- requeued and no field changes.
pub sync_terminal : (env : Env) (pb : Playbook) → is_terminal pb ≡ true → sync env pb ≡ synced pb
unfolding sync
sync_terminal env pb t = rw t

pub held-cases :
    (o : Option Error) (after before : Playbook) (n : ℕ)
    → ((held o after before ≡ after) × (counted o n ≡ n + 1))
      ⊎ ((held o after before ≡ before) × (counted o n ≡ n))
held-cases none after before n = inl (refl, refl)
held-cases (some e) after before n = inr (refl, refl)

stored_terminal : (env : Env) (pb : Playbook) → is_terminal pb ≡ true → stored env pb ≡ pb
stored_terminal env pb t = elim (held-cases (patch_answer env pb) (sync env pb).playbook pb 0) [
  | inl (e, c) ↦ e ∙ ap (λ x. x.playbook) (sync_terminal env pb t)
  | inr (e, c) ↦ e
]

syncs_terminal : (envs : List Env) (pb : Playbook) → is_terminal pb ≡ true → syncs envs pb ≡ pb
unfolding syncs
syncs_terminal [] pb t = refl
syncs_terminal (env ∷ envs) pb t = rw (stored_terminal env pb t) (syncs_terminal envs pb t)

-- The reconciler never touches the creation time.
sync_creation :
    (env : Env) (pb : Playbook)
    → (sync env pb).playbook.metadata.creation_timestamp ≡ pb.metadata.creation_timestamp
unfolding sync sync_limited dispatch prepare execute record_failure
sync_creation env pb = ground arith

-- A live Playbook that is reconciled once for each of some environments, each past the longest
-- backoff, is terminal if more of the status patches are accepted than its measure, three for each
-- failure that is left and the way from its phase. A refused patch leaves the Playbook as it was, and
-- the preparation and the command may answer whatever they like.
pub syncs-is_terminal :
    (limit timeout : ℕ) (envs : List Env) (pb : Playbook)
    → IsLive limit timeout pb
    → All (Elapsed pb.metadata.creation_timestamp) envs
    → measure limit pb < accepted envs pb
    → is_terminal (syncs envs pb) ≡ true
unfolding syncs accepted
syncs-is_terminal limit timeout [] pb v late h = absurd (omega arith)
syncs-is_terminal limit timeout (env ∷ envs) pb v late h = elim (Bool-cases (is_terminal pb)) [
  | inl t ↦ subst (λ q. is_terminal q ≡ true) (sym (syncs_terminal (env ∷ envs) pb t)) t
  | inr t ↦
      elim (held-cases (patch_answer env pb) (sync env pb).playbook pb
        (accepted envs (stored env pb))) [
          | inr (e, c) ↦
              subst (λ q. is_terminal (syncs envs q) ≡ true) (sym e)
                (syncs-is_terminal limit timeout envs pb v late.1 (
                  subst (λ q. measure limit pb < accepted envs q) e
                    (subst (λ n. measure limit pb < n) c h)))
          | inl (e, c) ↦
              let more : measure limit pb < accepted envs (sync env pb).playbook + 1 =
                subst (λ q. measure limit pb < accepted envs q + 1) e
                  (subst (λ n. measure limit pb < n) c h) in
              subst (λ q. is_terminal (syncs envs q) ≡ true) (sym e)
                (elim (sync_progress limit timeout env pb v t late.0) [
                  | inl t' ↦
                      subst (λ q. is_terminal q ≡ true)
                        (sym (syncs_terminal envs (sync env pb).playbook t')) t'
                  | inr (v', less) ↦
                      syncs-is_terminal limit timeout envs (sync env pb).playbook v'
                        (subst (λ m. All (Elapsed m) envs) (sym (sync_creation env pb)) late.1)
                        (omega (arith, less, more))
                ])
        ]
]
