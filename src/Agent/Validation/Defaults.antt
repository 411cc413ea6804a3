-- ===== src/Agent/Validation/Defaults.antt =====
-- Which specifications are admitted once their defaults are set (agent/pkg/apis/agent/validation).
use kubeforce.Base.{
  ◌≡◌, refl, ap, ◌∙◌, ℕ, String, Bool, true, false, not, ◌&&◌, Option, none, some, List, [], ◌∷◌,
  ◌++◌, slt64, int_of_int32, str_eq, str_append,
}
use kubeforce.Agent.Types.{
  Policy, PlaybookSpec, or_default, set_defaults_policy, set_defaults_playbook_spec,
  set_object_defaults,
}
use kubeforce.Agent.Validation.{
  FieldError, invalid, is_empty, Checks, Verdict, and_errors, error_if, validate_policy,
  policy_errors, rest_errors, validate_playbook_spec,
}

abbrev pub admits : Verdict → Bool
admits none = false
admits (some es) = is_empty es

abbrev pub limit_of : Option Policy → ℕ → Option ℕ
limit_of none d = some d
limit_of (some p) d = or_default p.backoff_limit d

abbrev pub is_nonnegative : Option ℕ → Bool
is_nonnegative none = true
is_nonnegative (some n) = not (slt64 (int_of_int32 n) 0)

abbrev pub is_complete : PlaybookSpec → Bool
is_complete s = not (is_empty s.files) && not (str_eq s.entrypoint "")

is_empty-append {ℓ} :
    {A : Type ℓ} (xs ys : List A) → is_empty (xs ++ ys) ≡ (is_empty xs && is_empty ys)
is_empty-append [] ys = refl
is_empty-append (x ∷ xs) ys = refl

pub error_if-is_empty : (b : Bool) (e : FieldError) → is_empty (error_if b e) ≡ not b
error_if-is_empty true e = refl
error_if-is_empty false e = refl

and_same : (b : Bool) → (b && b) ≡ b
and_same true = refl
and_same false = refl

module _ (checks : Checks) where
  -- The errors of a policy that has both numbers.
  abbrev both_errors : ℕ → List FieldError
  both_errors n =
      checks.nonnegative (int_of_int32 n) "policy.backoffLimit"
      ++ checks.nonnegative (int_of_int32 n) "policy.timeout"

  both_errors-is_empty : (n : ℕ) → is_empty (both_errors n) ≡ not (slt64 (int_of_int32 n) 0)
  both_errors-is_empty n =
      is_empty-append (checks.nonnegative (int_of_int32 n) "policy.backoffLimit") _
      ∙ (rw
          (
            checks.nonnegative-is_empty (int_of_int32 n) "policy.backoffLimit",
            checks.nonnegative-is_empty (int_of_int32 n) "policy.timeout",
          )
          (and_same (not (slt64 (int_of_int32 n) 0))))

  abbrev Judged : Verdict → Bool → Type 0
  Judged v b = (es : List FieldError) × (v ≡ some es) × (is_empty es ≡ b)

  policy-Judged :
      (t n : Option ℕ)
      → Judged
          (validate_policy checks (set_defaults_policy (record { timeout = t; backoff_limit = n })))
          (is_nonnegative (or_default n 3))
  unfolding validate_policy set_defaults_policy
  policy-Judged none none = (both_errors 3, refl, both_errors-is_empty 3)
  policy-Judged (some t) none = (both_errors 3, refl, both_errors-is_empty 3)
  policy-Judged none (some n) = (both_errors n, refl, both_errors-is_empty n)
  policy-Judged (some t) (some n) = (both_errors n, refl, both_errors-is_empty n)

  abbrev defaulted : Option Policy → Option Policy
  defaulted o = (set_object_defaults (record { policy = o; files = []; entrypoint = "" })).policy

  defaulted-Judged :
      (o : Option Policy)
      → Judged (policy_errors checks (defaulted o)) (is_nonnegative (limit_of o 3))
  unfolding set_object_defaults set_defaults_playbook_spec
  defaulted-Judged none = policy-Judged none none
  defaulted-Judged (some p) = policy-Judged p.timeout p.backoff_limit

  rest_errors-is_empty :
      (s : PlaybookSpec) (path : String) → is_empty (rest_errors s path) ≡ is_complete s
  rest_errors-is_empty s path =
      is_empty-append
        (error_if (is_empty s.files) (invalid (str_append path ".files") "cannot be empty"))
        (error_if (str_eq s.entrypoint "")
          (invalid (str_append path ".entrypoint") "cannot be empty"))
      ∙ rw (error_if-is_empty (is_empty s.files), error_if-is_empty (str_eq s.entrypoint "")) refl

-- A specification of a playbook whose defaults were set is admitted exactly if the backoff limit, or the default of it, is not negative, and there are files and an
-- entrypoint; the timeout does not matter.
pub validate_playbook_spec-defaults :
    (checks : Checks) (s : PlaybookSpec) (path : String)
    → admits (validate_playbook_spec checks (set_object_defaults s) path)
      ≡ (is_nonnegative (limit_of s.policy 3) && is_complete s)
unfolding validate_playbook_spec set_object_defaults set_defaults_playbook_spec
validate_playbook_spec-defaults checks s path =
    let (es, v, e) = defaulted-Judged checks s.policy in
    ap (λ w. admits (and_errors w (some (rest_errors s path)))) v
    ∙ (is_empty-append es (rest_errors s path) ∙ rw (e, rest_errors-is_empty checks s path) refl)
