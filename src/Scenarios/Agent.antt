-- ===== src/Scenarios/Agent.antt =====
-- A Playbook with one retry.
use kubeforce.Base.{
  ℕ, ◌+◌, ◌≤◌, ◌≡◌, refl, String, true, false, Option, none, some, List, [], ◌∷◌, arith, str_eq,
}
use kubeforce.Api.{Error, failure, is_deleted}
use kubeforce.Conditions
use kubeforce.Conditions.{Conditions, is_true, is_false, get, mark_false, false_condition, set, has}
use kubeforce.Agent.Types.{
  Playbook, PlaybookSpec, PlaybookPhase, pending, running, playbook_execution_condition,
  playbook_finalizer, max_job_backoff, get_backoff, set_object_defaults,
}
use kubeforce.Agent.Run.{
  Env, found, returned, run_playbook, run_logged, write_files, run_command_io, timeout_of,
}
use kubeforce.Agent.Run.Files.{run_effects, run_playbook_returned, run_playbook_context}
use kubeforce.Agent.Playbook.{
  backoff_limit_of, backoff_time, backing_off, is_terminal, sync, sync_limited, dispatch, execute,
  prepare, reconcile, reconcile_found,
}
use kubeforce.Agent.Playbook.Progress.{IsLive, accepted, syncs, syncs-is_terminal}
use kubeforce.Agent.Playbook.LifeCycle.{LifeStep, view, sync-LifeStep}
use kubeforce.Agent.Playbook.Steps.{
  sync_succeeded, sync_requeue, runs, reconcile-runs, set_object_defaults_policy,
}
use kubeforce.Scenarios.Library.{finalizers, object_meta, first_of_two}

abbrev spec : PlaybookSpec
spec = record {
  policy = some (record { timeout = some 60; backoff_limit = some 2 });
  files = ("site.yaml", "- hosts: all") ∷ [];
  entrypoint = "site.yaml";
}

abbrev at_phase : PlaybookPhase → ℕ → Playbook
at_phase phase n = record {
  metadata = object_meta "install" (playbook_finalizer ∷ []);
  spec = spec;
  status = record { phase = phase; conditions = []; failed_count = n };
}

abbrev last_text : List String → String
last_text [] = ""
last_text (s ∷ []) = s
last_text (s ∷ t ∷ ss) = last_text (t ∷ ss)

abbrev env_of : ℕ → Playbook → Option Error → Option Error → Env
env_of now pb prepared ran = record {
  finalizers = finalizers;
  get_answer = found pb;
  patch_answer = λ p. none;
  status_patch_answer = λ p. none;
  new_aggregate = first_of_two;
  now = now;
  condition_now = now;
  sprintf = λ f args. f;
  playbook_path = "/var/lib/kubeforce";
  join = last_text;
  dir = λ s. s;
  clean = λ s. s;
  log_filename = "run.log";
  ensure_ansible = prepared;
  make_dir = λ s. none;
  write_file = λ s t. none;
  create_file = λ s. none;
  wrap_create = λ s e. e;
  run_command = λ s t. ran;
  context_error = none;
}

abbrev late : ℕ
late = 500_000_000_000

-- Nothing works.
abbrev broken : Playbook → Env
broken pb = env_of late pb (some (failure "no apt")) (some (failure "exit status 2"))

-- All works.
abbrev pub fine : Playbook → Env
fine pb = env_of late pb none none

forty_seconds : get_backoff 3 ≡ 40_000_000_000
unfolding get_backoff
forty_seconds = refl

abbrev pub fresh : Playbook
fresh = at_phase PlaybookPhase.no_phase 0

fresh-IsLive : IsLive 2 60 fresh
fresh-IsLive = record {
  has_limit = refl;
  has_timeout = refl;
  in_range = omega arith;
  counted = omega arith;
  active = refl;
}

abbrev nine : List Env
nine = let e = broken fresh in e ∷ e ∷ e ∷ e ∷ e ∷ e ∷ e ∷ e ∷ e ∷ []

nine-accepted : accepted nine fresh ≡ 9
unfolding accepted sync sync_limited dispatch prepare execute backing_off run_playbook run_logged
    write_files run_command_io
nine-accepted = refl

syncs-is_terminal_example : is_terminal (syncs nine fresh) ≡ true
syncs-is_terminal_example =
    syncs-is_terminal 2 60 nine fresh fresh-IsLive (omega arith) (rw nine-accepted (omega arith))

run_returned : (run_playbook (fine fresh) fresh).outcome ≡ returned none
unfolding run_playbook run_logged write_files run_command_io
run_returned = refl

run_playbook_returned_example :
    (timeout : ℕ) × (timeout_of spec.policy ≡ some timeout)
    × ((run_playbook (fine fresh) fresh).effects ≡ run_effects (fine fresh) fresh timeout)
    × ((fine fresh).run_command "site.yaml" timeout ≡ none)
run_playbook_returned_example = run_playbook_returned (fine fresh) fresh run_returned

run_playbook_context_example :
    run_playbook (record (fine fresh) { context_error = some (failure "deadline exceeded") }) fresh
    ≡ run_playbook (fine fresh) fresh
run_playbook_context_example =
    run_playbook_context (fine fresh) fresh (some (failure "deadline exceeded"))

abbrev prepared : Playbook
prepared = at_phase running 0

abbrev waiting : Playbook
waiting = at_phase pending 0

ran_once :
    is_true (sync (fine prepared) prepared).playbook.status.conditions playbook_execution_condition
    ≡ true
unfolding sync sync_limited dispatch execute run_playbook run_logged write_files run_command_io
    is_true get str_eq backing_off Conditions.mark_true Conditions.true_condition set has
    Conditions.set_existing
ran_once = refl

sync_succeeded_example :
    (running ≡ running) × ((run_playbook (fine prepared) prepared).outcome ≡ returned none)
unfolding is_true get
sync_succeeded_example = sync_succeeded (fine prepared) prepared refl ran_once

abbrev failed_once : Playbook
failed_once = at_phase pending 1

-- Five seconds after the creation.
abbrev early : Env
early = env_of 5_000_001_000 failed_once none none

waits : (sync early failed_once).requeue_after ≡ 5_000_000_000
unfolding sync sync_limited is_true get backing_off get_backoff
waits = refl

sync_requeue_example :
    (backing_off early failed_once ≡ true)
    × ((sync early failed_once).playbook ≡ failed_once)
    × (early.now + (sync early failed_once).requeue_after ≡ backoff_time failed_once)
    × (1_000 ≤ early.now → (sync early failed_once).requeue_after ≤ max_job_backoff)
sync_requeue_example = sync_requeue early failed_once (omega (arith, waits))

abbrev bare : Playbook
bare = record fresh { spec = record spec { policy = none } }

set_object_defaults_policy_example :
    let spec' = set_object_defaults bare.spec in
    (backoff_limit_of spec'.policy ≡ some 3)
    × (timeout_of spec'.policy ≡ some 600_000_000_000)
    × (spec'.files ≡ spec.files)
    × (spec'.entrypoint ≡ "site.yaml")
set_object_defaults_policy_example = set_object_defaults_policy bare.spec

reconcile_ran : runs (reconcile (fine prepared)).effects ≡ true
unfolding reconcile reconcile_found sync sync_limited dispatch execute run_playbook run_logged
    write_files run_command_io is_true get str_eq backing_off
reconcile_ran = refl

reconcile-runs_example :
    (pb : Playbook) × (found prepared ≡ found pb)
    × (is_deleted pb.metadata ≡ false)
    × (finalizers.contains pb.metadata.finalizers playbook_finalizer ≡ true)
    × (is_terminal pb ≡ false)
    × (pb.status.phase ≡ running)
reconcile-runs_example = reconcile-runs (fine prepared) reconcile_ran

sync-LifeStep_example : LifeStep 2 (view fresh) (view (sync (broken fresh) fresh).playbook)
sync-LifeStep_example = sync-LifeStep (broken fresh) 2 fresh refl
