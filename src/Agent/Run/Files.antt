-- ===== src/Agent/Run/Files.antt =====
-- What `runPlaybook` has done when it returns (agent/pkg/controllers/playbook.go).
use kubeforce.Base.{
  ℕ, ◌≡◌, refl, inl, inr, String, Option, none, some, List, [], ◌∷◌, arith, StringMap, ◌++◌,
  Option-cases,
}
use kubeforce.Api.{Error}
use kubeforce.Agent.Types.{Playbook}
use kubeforce.Agent.Run.{
  Env, Effect, made_dir, created_file, wrote_file, ran_command, step_io, Io, returned, write_files,
  run_command_io, run_logged, run_playbook, timeout_of, command_outcome,
}

-- The calls for one file, and for all of them.
abbrev pub file_effects : Env → String → StringMap String → List Effect
file_effects env name [] = []
file_effects env name ((key, content) ∷ files) =
    let filename = env.join (env.playbook_path ∷ name ∷ key ∷ []) in
    made_dir (env.dir filename) ∷ wrote_file filename content ∷ file_effects env name files

step_io_returned :
    (e : Effect) (r : Option Error) (rest : Io)
    → (step_io e r rest).outcome ≡ returned none
    → (step_io e r rest ≡ record { effects = e ∷ rest.effects; outcome = rest.outcome })
      × (rest.outcome ≡ returned none)
step_io_returned e none rest h = (refl, h)
step_io_returned e (some x) rest h = cc

write_files_returned :
    (env : Env) (name : String) (files : StringMap String) (rest : Io)
    → (write_files env name files rest).outcome ≡ returned none
    → ((write_files env name files rest).effects ≡ file_effects env name files ++ rest.effects)
      × (rest.outcome ≡ returned none)
unfolding write_files
write_files_returned env name [] rest h = (refl, h)
write_files_returned env name ((key, content) ∷ files) rest h =
    ground (arith, write_files_returned env name files rest)

run_logged_returned :
    (env : Env) (pb : Playbook)
    → (run_logged env pb).outcome ≡ returned none
    → let log = env.join (env.playbook_path ∷ pb.metadata.name ∷ "logs" ∷ env.log_filename ∷ []) in
      ((run_logged env pb).effects ≡ created_file (env.clean log) ∷ (run_command_io env pb).effects)
      × ((run_command_io env pb).outcome ≡ returned none)
unfolding run_logged
run_logged_returned env pb h = ground arith

-- All calls of a run that meets no error, in order.
abbrev pub run_effects : Env → Playbook → ℕ → List Effect
run_effects env pb timeout =
    let name = pb.metadata.name in
    made_dir (env.join (env.playbook_path ∷ name ∷ "logs" ∷ []))
    ∷ (file_effects env name pb.spec.files
        ++ (created_file
              (env.clean (env.join (env.playbook_path ∷ name ∷ "logs" ∷ env.log_filename ∷ [])))
            ∷ ran_command (env.join (env.playbook_path ∷ name ∷ pb.spec.entrypoint ∷ [])) timeout
            ∷ []))

run_command_returned :
    (env : Env) (pb : Playbook)
    → (run_command_io env pb).outcome ≡ returned none
    → (timeout : ℕ) × (timeout_of pb.spec.policy ≡ some timeout)
      × ((run_command_io env pb).effects
          ≡ ran_command
              (env.join (env.playbook_path ∷ pb.metadata.name ∷ pb.spec.entrypoint ∷ []))
              timeout
            ∷ [])
      × (env.run_command
            (env.join (env.playbook_path ∷ pb.metadata.name ∷ pb.spec.entrypoint ∷ []))
            timeout
          ≡ none)
unfolding run_command_io
run_command_returned env pb h = elim (Option-cases (timeout_of pb.spec.policy)) [
  | inl e ↦ absurd (ground arith)
  | inr (t, e) ↦ (t, e, ground arith, ground arith)
]

-- `runPlaybook` returns nil only after it has made the log directory, written every file of the
-- spec in its directory with its content, created the log, and run the entrypoint under the timeout
-- of the policy without an error, in this order and with no other call.
pub run_playbook_returned :
    (env : Env) (pb : Playbook)
    → (run_playbook env pb).outcome ≡ returned none
    → (timeout : ℕ) × (timeout_of pb.spec.policy ≡ some timeout)
      × ((run_playbook env pb).effects ≡ run_effects env pb timeout)
      × (env.run_command
            (env.join (env.playbook_path ∷ pb.metadata.name ∷ pb.spec.entrypoint ∷ []))
            timeout
          ≡ none)
unfolding run_playbook
run_playbook_returned env pb h =
    let logs = env.join (env.playbook_path ∷ pb.metadata.name ∷ "logs" ∷ []) in
    let rest = write_files env pb.metadata.name pb.spec.files (run_logged env pb) in
    let (e1, h1) = step_io_returned (made_dir logs) (env.make_dir logs) rest h in
    let (e2, h2) = write_files_returned env pb.metadata.name pb.spec.files (run_logged env pb) h1 in
    let (e3, h3) = run_logged_returned env pb h2 in
    let (t, p, e4, ran) = run_command_returned env pb h3 in (t, p, cc, ran)

command_outcome_context : (err c d : Option Error) → command_outcome err c ≡ command_outcome err d
command_outcome_context (some x) c d = refl
command_outcome_context none c d = ground arith

abbrev with_context : Env → Option Error → Env
with_context env e = record env { context_error = e }

write_files_context :
    (env : Env) (e : Option Error) (name : String) (files : StringMap String) (rest : Io)
    → write_files (with_context env e) name files rest ≡ write_files env name files rest
unfolding write_files
write_files_context env e name [] rest = refl
write_files_context env e name ((key, content) ∷ files) rest =
    rw (write_files_context env e name files rest)

run_command_context :
    (env : Env) (pb : Playbook) (e : Option Error)
    → run_command_io (with_context env e) pb ≡ run_command_io env pb
unfolding run_command_io
run_command_context env pb e = elim (Option-cases (timeout_of pb.spec.policy)) [
  | inl n ↦ rw (n, run_command_io) refl
  | inr (t, n) ↦
      rw (n, run_command_io)
        (rw (
          command_outcome_context
            (env.run_command
              (env.join (env.playbook_path ∷ pb.metadata.name ∷ pb.spec.entrypoint ∷ [])) t)
            e env.context_error))
]

run_logged_context :
    (env : Env) (pb : Playbook) (e : Option Error)
    → run_logged (with_context env e) pb ≡ run_logged env pb
unfolding run_logged
run_logged_context env pb e = rw (run_command_context env pb e)

-- Whether the context of the command ended with an error, such as the timeout, makes no difference
-- to what `runPlaybook` does and returns.
pub run_playbook_context :
    (env : Env) (pb : Playbook) (e : Option Error)
    → run_playbook (record env { context_error = e }) pb ≡ run_playbook env pb
unfolding run_playbook
run_playbook_context env pb e =
    rw
      (write_files_context env e pb.metadata.name pb.spec.files
        (run_logged (with_context env e) pb))
      (rw (run_logged_context env pb e))
