-- ===== src/Agent/Playbook/Ran.antt =====
-- What a true condition Execution says of the reconciliations before it
-- (agent/pkg/controllers/playbook.go).
use mathlib.Core.Path.{subst}
use kubeforce.Base.{
  ap, sym, ◌∙◌, ◌≡◌, ℕ, String, Bool, ◌⊎◌, sle32, true, false, none, some, List, [], ◌∷◌, arith,
  Bool-cases, Option-cases, inl, inr,
}
use kubeforce.Api.{Error}
use kubeforce.Conditions.{is_true, mark_true, mark_false}
use kubeforce.Conditions.Transition.{Unique, set-Unique}
use kubeforce.Agent.Types.{
  Playbook, PlaybookPhase, no_phase, pending, running, succeeded, failed, unknown, other,
  playbook_execution_condition,
}
use kubeforce.Agent.Run.{Env, Outcome, returned, panicked, run_playbook}
use kubeforce.Agent.Playbook.{
  record_failure, prepare, execute, finish, dispatch, sync_limited, sync, is_terminal,
  backoff_limit_of, backing_off,
}
use kubeforce.Agent.Playbook.Progress.{held-cases, patch_answer, stored, syncs}
use kubeforce.Agent.Playbook.Steps.{sync_succeeded}

abbrev pub HasUnique : Playbook → Type 0
HasUnique pb = Unique pb.status.conditions

record_failure-HasUnique :
    (env : Env) (reason : String) (e : Error) (pb : Playbook)
    → HasUnique pb
    → HasUnique (record_failure env reason e pb)
unfolding record_failure mark_false
record_failure-HasUnique env reason e pb u = (set-Unique _ _ _ u).0

finish-HasUnique :
    (env : Env) (pb : Playbook) (o : Outcome) → HasUnique pb → HasUnique (finish env pb o)
unfolding mark_true
finish-HasUnique env pb panicked u = u
finish-HasUnique env pb (returned (some e)) u =
    record_failure-HasUnique env "ExecutionFailed" e pb u
finish-HasUnique env pb (returned none) u = (set-Unique _ _ _ u).0

prepare-HasUnique : (env : Env) (pb : Playbook) → HasUnique pb → HasUnique (prepare env pb).playbook
unfolding prepare
prepare-HasUnique env pb u = elim (Option-cases env.ensure_ansible) [
  | inl e ↦ rw e u
  | inr (x, e) ↦ rw e (record_failure-HasUnique env "PreparationFailed" x pb u)
]

dispatch-HasUnique :
    (env : Env) (p : PlaybookPhase) (pb : Playbook)
    → HasUnique pb
    → HasUnique (dispatch env p pb).playbook
unfolding dispatch execute
dispatch-HasUnique env pending pb u = prepare-HasUnique env pb u
dispatch-HasUnique env running pb u = finish-HasUnique env pb (run_playbook env pb).outcome u
dispatch-HasUnique env no_phase pb u = u
dispatch-HasUnique env unknown pb u = u
dispatch-HasUnique env failed pb u = u
dispatch-HasUnique env succeeded pb u = u
dispatch-HasUnique env (other s) pb u = u

sync_limited-HasUnique :
    (env : Env) (limit : ℕ) (pb : Playbook)
    → HasUnique pb
    → HasUnique (sync_limited env limit pb).playbook
unfolding sync_limited
sync_limited-HasUnique env limit pb u = elim (Bool-cases (sle32 limit pb.status.failed_count)) [
  | inl e ↦ rw e ((set-Unique _ _ _ u).0)
  | inr e ↦ elim (Bool-cases (backing_off env pb)) [
    | inl b ↦ rw e (rw b u)
    | inr b ↦ rw e (rw b (dispatch-HasUnique env pb.status.phase pb u))
  ]
]

-- A reconciliation keeps the types of the conditions distinct.
pub sync-HasUnique : (env : Env) (pb : Playbook) → HasUnique pb → HasUnique (sync env pb).playbook
unfolding sync
sync-HasUnique env pb u = elim (Bool-cases (is_terminal pb)) [
  | inl t ↦ rw t u
  | inr t ↦ elim (Option-cases (backoff_limit_of pb.spec.policy)) [
    | inl l ↦ rw t (rw l u)
    | inr (limit, l) ↦ rw t (rw l (sync_limited-HasUnique env limit pb u))
  ]
]

stored-HasUnique : (env : Env) (pb : Playbook) → HasUnique pb → HasUnique (stored env pb)
stored-HasUnique env pb u = elim (held-cases (patch_answer env pb) (sync env pb).playbook pb 0) [
  | inl (e, c) ↦ subst HasUnique (sym e) (sync-HasUnique env pb u)
  | inr (e, c) ↦ subst HasUnique (sym e) u
]

pub syncs-HasUnique : (envs : List Env) (pb : Playbook) → HasUnique pb → HasUnique (syncs envs pb)
unfolding syncs
syncs-HasUnique [] pb u = u
syncs-HasUnique (env ∷ envs) pb u = syncs-HasUnique envs (stored env pb) (stored-HasUnique env pb u)

abbrev pub has_executed : Playbook → Bool
has_executed pb = is_true pb.status.conditions playbook_execution_condition

-- One of the reconciliations ran the playbook that it was given, in phase Running, and the run
-- returned nil.
abbrev pub Ran : List Env → Playbook → Type 0
Ran [] pb = ⊥
Ran (env ∷ envs) pb =
    ((pb.status.phase ≡ running) × ((run_playbook env pb).outcome ≡ returned none))
    ⊎ Ran envs (stored env pb)

stored_succeeded :
    (env : Env) (pb : Playbook)
    → has_executed pb ≡ false
    → has_executed (stored env pb) ≡ true
    → (pb.status.phase ≡ running) × ((run_playbook env pb).outcome ≡ returned none)
stored_succeeded env pb f t = elim (held-cases (patch_answer env pb) (sync env pb).playbook pb 0) [
  | inl (e, c) ↦ sync_succeeded env pb f (ap has_executed (sym e) ∙ t)
  | inr (e, c) ↦ absurd (ground (arith, f, ap has_executed (sym e) ∙ t))
]

-- After any sequence of reconciliations the condition Execution of a Playbook, for which it was not
-- true, is true only if one of them ran the playbook in phase Running and the run returned nil.
pub syncs-Ran :
    (envs : List Env) (pb : Playbook)
    → has_executed pb ≡ false
    → has_executed (syncs envs pb) ≡ true
    → Ran envs pb
unfolding syncs
syncs-Ran [] pb f t = ground arith
syncs-Ran (env ∷ envs) pb f t = elim (Bool-cases (has_executed (stored env pb))) [
  | inl e ↦ inl (stored_succeeded env pb f e)
  | inr e ↦ inr (syncs-Ran envs (stored env pb) e t)
]
