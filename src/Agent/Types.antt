-- ===== src/Agent/Types.antt =====
-- The Playbook type of agent/pkg/apis/agent/v1alpha1/playbook_types.go, its defaults of defaults.go,
-- and the constants and the backoff of agent/pkg/controllers/playbook.go.
pub mod Backoff
use kubeforce.Base.{
  ℕ, ◌-◌, ◌*◌, ◌^◌, String, Option, none, some, ltb, sle32, if◌then◌else◌, StringMap,
}
use kubeforce.Api.{ObjectMeta}
use kubeforce.Conditions.{Conditions}

pub record Policy : Type 0 where
  pub timeout : Option ℕ
  pub backoff_limit : Option ℕ  -- int32

pub record PlaybookSpec : Type 0 where
  pub policy : Option Policy
  pub files : StringMap String
  pub entrypoint : String

-- `no_phase` is the empty text; `other` is any text that is no constant of the API.
pub data PlaybookPhase : Type 0 where
  no_phase pending running succeeded failed unknown : PlaybookPhase
  other : String → PlaybookPhase

pub record PlaybookStatus : Type 0 where
  pub phase : PlaybookPhase
  pub conditions : Conditions
  pub failed_count : ℕ  -- int32

pub record Playbook : Type 0 where
  pub metadata : ObjectMeta
  pub spec : PlaybookSpec
  pub status : PlaybookStatus

abbrev pub playbook_execution_condition : String
playbook_execution_condition = "Execution"

abbrev pub playbook_failed_condition : String
playbook_failed_condition = "Failed"

abbrev pub playbook_finalizer : String
playbook_finalizer = "playbook.agent.kubeforce.io"

-- Durations are nanoseconds.
abbrev pub default_job_backoff : ℕ
default_job_backoff = 10_000_000_000

abbrev pub max_job_backoff : ℕ
max_job_backoff = 360_000_000_000

-- SetDefaults_Policy and SetDefaults_PlaybookSpec, in the order in which the generated defaulting
-- code calls them.
abbrev pub or_default {ℓ} : {A : Type ℓ} → Option A → A → Option A
or_default none d = some d
or_default (some a) d = some a

unfoldable pub set_defaults_policy : Policy → Policy
set_defaults_policy p = record {
  timeout = or_default p.timeout 600_000_000_000;
  backoff_limit = or_default p.backoff_limit 3;
}

unfoldable pub set_defaults_playbook_spec : PlaybookSpec → PlaybookSpec
set_defaults_playbook_spec s = record s {
  policy = or_default s.policy (record { timeout = none; backoff_limit = none });
}

abbrev map_policy : Option Policy → Option Policy
map_policy none = none
map_policy (some p) = some (set_defaults_policy p)

-- SetObjectDefaults_Playbook on the spec.
unfoldable pub set_object_defaults : PlaybookSpec → PlaybookSpec
unfolding set_defaults_playbook_spec set_defaults_policy
set_object_defaults s =
    let s' = set_defaults_playbook_spec s in record s' { policy = map_policy s'.policy }

-- The powers of two are exact in a float64 while the product is below the largest int64.
unfoldable pub get_backoff : ℕ → ℕ
get_backoff exp =
    if sle32 exp 0
    then 0
    else (let backoff = default_job_backoff * 2 ^ (exp - 1) in
        if ltb (2 ^ 63) backoff
        then max_job_backoff
        else (if ltb max_job_backoff backoff then max_job_backoff else backoff))
