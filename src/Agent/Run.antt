-- ===== src/Agent/Run.antt =====
-- `runPlaybook` of agent/pkg/controllers/playbook.go. The answers of the API server, the file system,
-- the clock and the ansible command are an `Env`; what the reconciler asks of them is a list of
-- effects, in order.
pub mod Files
use kubeforce.Base.{ℕ, String, Option, none, some, List, [], ◌∷◌, StringMap}
use kubeforce.Api.{Error, Finalizers}
use kubeforce.Agent.Types.{Policy, Playbook}

pub data Effect : Type 0 where
  patched status_patched : Playbook → Effect
  ensured_ansible : Effect
  made_dir created_file removed_all : String → Effect
  wrote_file : String → String → Effect
  ran_command : String → ℕ → Effect

pub data GetAnswer : Type 0 where
  found : Playbook → GetAnswer
  get_failed : Error → GetAnswer

-- `none` is Go's nil error. `run_command` is `cmd.Run` on a playbook under a timeout, and
-- `context_error` the error of its context afterwards.
pub record Env : Type 0 where
  pub finalizers : Finalizers
  pub get_answer : GetAnswer
  pub patch_answer : Playbook → Option Error
  pub status_patch_answer : Playbook → Option Error
  pub new_aggregate : Option Error → Option Error → Option Error
  pub now : ℕ
  pub condition_now : ℕ
  pub sprintf : String → List String → String
  pub playbook_path : String
  pub join : List String → String
  pub dir : String → String
  pub clean : String → String
  pub log_filename : String
  pub ensure_ansible : Option Error
  pub make_dir : String → Option Error
  pub write_file : String → String → Option Error
  pub create_file : String → Option Error
  pub wrap_create : String → Error → Error
  pub run_command : String → ℕ → Option Error
  pub context_error : Option Error

-- A Go function that returns an error, or panics on a nil pointer.
pub data Outcome : Type 0 where
  returned : Option Error → Outcome
  panicked : Outcome

-- What a step did, and how it ended.
pub record Io : Type 0 where
  pub effects : List Effect
  pub outcome : Outcome

-- A call whose error ends the function: the rest runs only if the call gives nil.
abbrev pub step_io : Effect → Option Error → Io → Io
step_io e (some x) rest = record { effects = e ∷ []; outcome = returned (some x) }
step_io e none rest = record { effects = e ∷ rest.effects; outcome = rest.outcome }

-- The loop over `pb.Spec.Files`, and what follows it.
unfoldable pub write_files : Env → String → StringMap String → Io → Io
write_files env name [] rest = rest
write_files env name ((key, content) ∷ files) rest =
    let later = write_files env name files rest in
    let filename = env.join (env.playbook_path ∷ name ∷ key ∷ []) in
    step_io (made_dir (env.dir filename)) (env.make_dir (env.dir filename))
      (step_io (wrote_file filename content) (env.write_file filename content) later)

abbrev pub timeout_of : Option Policy → Option ℕ
timeout_of none = none
timeout_of (some p) = p.timeout

-- The end of `runPlaybook` on the errors of `cmd.Run` and of the context: where the context has an
-- error, `err` is returned, which is nil there.
abbrev pub command_outcome : Option Error → Option Error → Outcome
command_outcome (some err) context_error = returned (some err)
command_outcome none (some _) = returned none
command_outcome none none = returned none

-- A nil policy or timeout panics.
unfoldable pub run_command_io : Env → Playbook → Io
run_command_io env pb = elim (timeout_of pb.spec.policy) [
  | none ↦ record { effects = []; outcome = panicked }
  | some timeout ↦
      let path = env.join (env.playbook_path ∷ pb.metadata.name ∷ pb.spec.entrypoint ∷ []) in
      record {
        effects = ran_command path timeout ∷ [];
        outcome = command_outcome (env.run_command path timeout) env.context_error;
      }
]

abbrev pub wrapped : (Error → Error) → Option Error → Option Error
wrapped f none = none
wrapped f (some e) = some (f e)

-- What follows the files: the log file, and the command.
unfoldable pub run_logged : Env → Playbook → Io
run_logged env pb =
    let log = env.join (env.playbook_path ∷ pb.metadata.name ∷ "logs" ∷ env.log_filename ∷ []) in
    step_io (created_file (env.clean log))
      (wrapped (env.wrap_create log) (env.create_file (env.clean log))) (run_command_io env pb)

unfoldable pub run_playbook : Env → Playbook → Io
run_playbook env pb =
    let logs = env.join (env.playbook_path ∷ pb.metadata.name ∷ "logs" ∷ []) in
    step_io (made_dir logs) (env.make_dir logs)
      (write_files env pb.metadata.name pb.spec.files (run_logged env pb))
