-- ===== src/Conditions.antt =====
-- agent/pkg/util/conditions/getter.go and setter.go: the status conditions of an agent object.
-- An object is represented by its list of conditions, a Go nil slice by the empty list; since the
-- model has values in place of pointers, the nil guards of `Set` and `Delete` have no counterpart.
-- Times are nanoseconds since Go's zero time, so that `IsZero` is a test for 0.
pub mod Lookup
pub mod Transition
use kubeforce.Base.{
  ℕ, ◌-◌, ◌%◌, String, Bool, true, false, ◌&&◌, Option, none, some, List, [], ◌∷◌, ◌++◌, ◌==◌,
  str_eq, if◌then◌else◌,
}

pub data ConditionStatus : Type 0 where
  condition_true condition_false condition_unknown : ConditionStatus

abbrev pub status_eq : ConditionStatus → ConditionStatus → Bool
status_eq condition_true condition_true = true
status_eq condition_false condition_false = true
status_eq condition_unknown condition_unknown = true
status_eq _ _ = false

pub record Condition : Type 0 where
  pub type : String
  pub status : ConditionStatus
  pub last_transition_time : ℕ
  pub reason : String
  pub message : String

abbrev pub Conditions : Type 0
Conditions = List Condition

unfoldable pub get : Conditions → String → Option Condition
get [] t = none
get (c ∷ cs) t = if str_eq c.type t then some c else get cs t

abbrev is_some : Option Condition → Bool
is_some none = false
is_some (some c) = true

unfoldable pub has : Conditions → String → Bool
has cs t = is_some (get cs t)

-- The status of the condition, if there is one, against a value; the given answer if there is none.
abbrev test_status : ConditionStatus → Bool → Option Condition → Bool
test_status s missing none = missing
test_status s missing (some c) = status_eq c.status s

unfoldable pub is_true : Conditions → String → Bool
is_true cs t = test_status condition_true false (get cs t)

unfoldable pub is_false : Conditions → String → Bool
is_false cs t = test_status condition_false false (get cs t)

unfoldable pub is_unknown : Conditions → String → Bool
is_unknown cs t = test_status condition_unknown true (get cs t)

unfoldable pub get_reason : Conditions → String → String
get_reason cs t = elim (get cs t) [ none ↦ "" | some c ↦ c.reason ]

unfoldable pub get_message : Conditions → String → String
get_message cs t = elim (get cs t) [ none ↦ "" | some c ↦ c.message ]

unfoldable pub get_last_transition_time : Conditions → String → Option ℕ
get_last_transition_time cs t = elim (get cs t) [
  | none ↦ none
  | some c ↦ some c.last_transition_time
]

unfoldable pub has_same_state : Condition → Condition → Bool
has_same_state i j =
    str_eq i.type j.type
    && status_eq i.status j.status
    && str_eq i.reason j.reason
    && str_eq i.message j.message

-- `time.Now().UTC().Truncate(time.Second)`.
abbrev pub truncate_second : ℕ → ℕ
truncate_second now = now - now % 1_000_000_000

-- The loop of `Set`: it stops at the first condition of the type, and writes it only on a change.
unfoldable pub set_existing : ℕ → Condition → Conditions → Conditions
set_existing now condition [] = []
set_existing now condition (c ∷ cs) =
    let rest = set_existing now condition cs in
    if str_eq c.type condition.type
    then (if has_same_state c condition
        then c ∷ cs
        else record condition { last_transition_time = truncate_second now } ∷ cs)
    else c ∷ rest

-- The condition that `Set` appends: its transition time is set only if not already set.
abbrev pub appended : ℕ → Condition → Condition
appended now condition =
    if condition.last_transition_time == 0
    then record condition { last_transition_time = truncate_second now }
    else condition

unfoldable pub set : ℕ → Conditions → Condition → Conditions
unfolding has
set now cs condition =
    if has cs condition.type
    then set_existing now condition cs
    else cs ++ (appended now condition ∷ [])

unfoldable pub true_condition : String → Condition
true_condition t = record {
  type = t;
  status = condition_true;
  last_transition_time = 0;
  reason = "";
  message = "";
}

-- `fmt.Sprintf` is a parameter of the three constructors that format a message.
unfoldable pub false_condition :
    (String → List String → String) → String → String → String → List String → Condition
false_condition sprintf t reason message_format message_args = record {
  type = t;
  status = condition_false;
  last_transition_time = 0;
  reason = reason;
  message = sprintf message_format message_args;
}

unfoldable pub unknown_condition :
    (String → List String → String) → String → String → String → List String → Condition
unknown_condition sprintf t reason message_format message_args = record {
  type = t;
  status = condition_unknown;
  last_transition_time = 0;
  reason = reason;
  message = sprintf message_format message_args;
}

unfoldable pub mark_true : ℕ → Conditions → String → Conditions
mark_true now cs t = set now cs (true_condition t)

unfoldable pub mark_unknown :
    (String → List String → String)
    → ℕ
    → Conditions
    → String
    → String
    → String
    → List String
    → Conditions
mark_unknown sprintf now cs t reason message_format message_args =
    set now cs (unknown_condition sprintf t reason message_format message_args)

unfoldable pub mark_false :
    (String → List String → String)
    → ℕ
    → Conditions
    → String
    → String
    → String
    → List String
    → Conditions
mark_false sprintf now cs t reason message_format message_args =
    set now cs (false_condition sprintf t reason message_format message_args)

unfoldable pub delete : Conditions → String → Conditions
delete [] t = []
delete (c ∷ cs) t = let rest = delete cs t in if str_eq c.type t then rest else c ∷ rest
