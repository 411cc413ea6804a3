-- ===== src/Scenarios/Validation.antt =====
-- Runs of the validation of the agent.
use kubeforce.Base.{◌≡◌, true, ◌&&◌, none, [], ◌∷◌, slt64}
use kubeforce.Agent.Types.{PlaybookSpec, set_object_defaults}
use kubeforce.Agent.Validation.{Checks, invalid, error_if, validate_playbook_spec}
use kubeforce.Agent.Validation.Defaults.{
  admits, limit_of, is_nonnegative, is_complete, error_if-is_empty, validate_playbook_spec-defaults,
}

abbrev checks : Checks
checks = record {
  object_meta = λ m. [];
  object_meta_update = λ m n. [];
  nonnegative = λ n path. error_if (slt64 n 0) (invalid path "must be greater than or equal to 0");
  is_equal = λ s t. true;
  diff = λ s t. "";
  nonnegative-is_empty =
      λ n path. error_if-is_empty (slt64 n 0) (invalid path "must be greater than or equal to 0");
}

abbrev ping : PlaybookSpec
ping = record {
  policy = none;
  files = ("playbook.yaml", "ping") ∷ [];
  entrypoint = "playbook.yaml";
}

validate_playbook_spec-defaults_example :
    admits (validate_playbook_spec checks (set_object_defaults ping) "spec")
    ≡ (is_nonnegative (limit_of ping.policy 3) && is_complete ping)
validate_playbook_spec-defaults_example = validate_playbook_spec-defaults checks ping "spec"
