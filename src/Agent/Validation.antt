-- ===== src/Agent/Validation.antt =====
-- agent/pkg/apis/agent/validation: what the API server of the agent admits.
pub mod Defaults
use kubeforce.Base.{
  ◌≡◌, refl, ap, ◌∙◌, ℕ, String, Bool, true, false, not, ◌&&◌, Option, none, some, List, [], ◌∷◌,
  ◌++◌, StringMap, slt64, int_of_int32, str_eq, str_append, if◌then◌else◌, Bool-cases, inl, inr,
}
use kubeforce.Api.{ObjectMeta}
use kubeforce.Agent.Types.{
  Policy, PlaybookSpec, Playbook, or_default, set_defaults_policy, set_defaults_playbook_spec,
  set_object_defaults,
}
use kubeforce.Agent.Deployment.{Deployment}

-- A path of fields, and the detail.
pub data FieldError : Type 0 where
  invalid forbidden : String → String → FieldError

abbrev pub is_empty {ℓ} : {A : Type ℓ} → List A → Bool
is_empty [] = true
is_empty (x ∷ xs) = false

-- The functions of apimachinery, with what the documentation of ValidateNonnegativeField states, and
-- of go-cmp. A number is an int64.
pub record Checks : Type 0 where
  pub object_meta : ObjectMeta → List FieldError
  pub object_meta_update : ObjectMeta → ObjectMeta → List FieldError
  pub nonnegative : ℕ → String → List FieldError
  pub is_equal : PlaybookSpec → PlaybookSpec → Bool
  pub diff : PlaybookSpec → PlaybookSpec → String
  pub nonnegative-is_empty :
      (n : ℕ) (path : String) → is_empty (nonnegative n path) ≡ not (slt64 n 0)

-- No list of errors: a nil pointer was read.
abbrev pub Verdict : Type 0
Verdict = Option (List FieldError)

abbrev pub and_errors : Verdict → Verdict → Verdict
and_errors none f = none
and_errors (some es) none = none
and_errors (some es) (some fs) = some (es ++ fs)

abbrev pub error_if : Bool → FieldError → List FieldError
error_if true e = e ∷ []
error_if false e = []

abbrev backoff_errors : Checks → Option ℕ → List FieldError
backoff_errors checks none = []
backoff_errors checks (some n) = checks.nonnegative (int_of_int32 n) "policy.backoffLimit"

-- The backoff limit is what is checked for the timeout, too.
abbrev timeout_errors : Checks → Option ℕ → Option ℕ → Verdict
timeout_errors checks none n = some []
timeout_errors checks (some t) none = none
timeout_errors checks (some t) (some n) =
    some (checks.nonnegative (int_of_int32 n) "policy.timeout")

unfoldable pub validate_policy : Checks → Policy → Verdict
validate_policy checks p =
    and_errors (some (backoff_errors checks p.backoff_limit))
      (timeout_errors checks p.timeout p.backoff_limit)

abbrev pub policy_errors : Checks → Option Policy → Verdict
policy_errors checks none = some []
policy_errors checks (some p) = validate_policy checks p

abbrev pub rest_errors : PlaybookSpec → String → List FieldError
rest_errors p path =
    error_if (is_empty p.files) (invalid (str_append path ".files") "cannot be empty")
    ++ error_if (str_eq p.entrypoint "") (invalid (str_append path ".entrypoint") "cannot be empty")

unfoldable pub validate_playbook_spec : Checks → PlaybookSpec → String → Verdict
validate_playbook_spec checks p path =
    and_errors (policy_errors checks p.policy) (some (rest_errors p path))

unfoldable pub validate_playbook_create : Checks → Playbook → Verdict
validate_playbook_create checks p =
    and_errors (some (checks.object_meta p.metadata)) (validate_playbook_spec checks p.spec "spec")

unfoldable pub validate_playbook_update : Checks → Playbook → Playbook → List FieldError
validate_playbook_update checks new old =
    checks.object_meta_update new.metadata old.metadata
    ++ error_if (not (checks.is_equal new.spec old.spec)) (
        forbidden "spec"
          (str_append "playbook is immutable. diff: \n" (checks.diff new.spec old.spec)))

unfoldable pub validate_deployment_create : Checks → Deployment → Verdict
validate_deployment_create checks d =
    and_errors (some (checks.object_meta d.metadata))
      (validate_playbook_spec checks d.spec.template_spec "spec.template.spec")

unfoldable pub validate_deployment_update : Checks → Deployment → Deployment → List FieldError
validate_deployment_update checks new old = checks.object_meta_update new.metadata old.metadata

-- The numbers are int64; `since_time` is whether it is given.
pub record LogOptions : Type 0 where
  pub tail_lines : Option ℕ
  pub since_seconds : Option ℕ
  pub since_time : Bool

abbrev is_below : Option ℕ → ℕ → Bool
is_below none m = false
is_below (some n) m = slt64 n m

abbrev is_given : Option ℕ → Bool
is_given none = false
is_given (some n) = true

unfoldable pub validate_playbook_log_options : LogOptions → List FieldError
validate_playbook_log_options o =
    error_if (is_below o.tail_lines 0) (invalid "tailLines" "must be greater than or equal to 0")
    ++ (if is_given o.since_seconds && o.since_time
        then error_if true
            (forbidden "" "at most one of `sinceTime` or `sinceSeconds` may be specified")
        else error_if (is_below o.since_seconds 1)
            (invalid "sinceSeconds" "must be greater than 0"))
