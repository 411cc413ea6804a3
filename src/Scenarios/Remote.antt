-- ===== src/Scenarios/Remote.antt =====
-- Concrete conditions of Cluster API, and an agent.
use kubeforce.Base.{
  ◌≡◌, ◌≢◌, refl, ◌∙◌, String, Bool, true, false, Option, none, some, [], ◌∷◌, arith, str_eq,
  str_eq_iff, str_eq_refl, if◌then◌else◌,
}
use kubeforce.Provider.Types.{ClusterCondition, ClusterConditions, Agent, RemoteStatus}
use kubeforce.Provider.Remote.{ConditionOps}
use kubeforce.Scenarios.Library.{no_cert_template, object_meta}

abbrev holds : Option ClusterCondition → Bool
holds none = false
holds (some c) = str_eq c.status "True"

abbrev get : ClusterConditions → String → Option ClusterCondition
get [] t = none
get (c ∷ cs) t = let rest = get cs t in if str_eq c.type t then some c else rest

abbrev drop_type : String → ClusterConditions → ClusterConditions
drop_type t [] = []
drop_type t (c ∷ cs) = let rest = drop_type t cs in if str_eq c.type t then rest else c ∷ rest

abbrev set : ClusterConditions → ClusterCondition → ClusterConditions
set cs c = c ∷ drop_type c.type cs

get-drop_type : (t u : String) (cs : ClusterConditions) → t ≢ u → get (drop_type t cs) u ≡ get cs u
get-drop_type t u [] n = refl
get-drop_type t u (c ∷ cs) n =
    ground (arith, get-drop_type t u cs n, str_eq_iff c.type t, str_eq_iff c.type u)

get-set : (cs : ClusterConditions) (c : ClusterCondition) → get (set cs c) c.type ≡ some c
get-set cs c = ground (arith, str_eq_refl c.type)

get-set_other :
    (cs : ClusterConditions) (c : ClusterCondition) (u : String)
    → c.type ≢ u
    → get (set cs c) u ≡ get cs u
get-set_other cs c u n = ground (arith, str_eq_iff c.type u, get-drop_type c.type u cs n)

abbrev pub condition : String → String → String → String → String → ClusterCondition
condition type status reason severity message = record {
  type = type;
  status = status;
  severity = severity;
  last_transition_time = 0;
  reason = reason;
  message = message;
}

true-ne-false : str_eq "False" "True" ≡ false
unfolding str_eq
true-ne-false = refl

abbrev is_true : ClusterConditions → String → Bool
is_true cs t = holds (get cs t)

pub is_true-set :
    (cs : ClusterConditions) (c : ClusterCondition)
    → is_true (set cs c) c.type ≡ str_eq c.status "True"
is_true-set cs c = ground (arith, get-set cs c)

pub is_true-set_other :
    (cs : ClusterConditions) (c : ClusterCondition) (u : String)
    → c.type ≢ u
    → is_true (set cs c) u ≡ is_true cs u
is_true-set_other cs c u n = ground (arith, get-set_other cs c u n)

pub is_true-mark_true :
    (cs : ClusterConditions) (t : String) → is_true (set cs (condition t "True" "" "" "")) t ≡ true
is_true-mark_true cs t = is_true-set cs (condition t "True" "" "" "") ∙ str_eq_refl "True"

pub is_true-mark_false :
    (cs : ClusterConditions) (t r s m : String)
    → is_true (set cs (condition t "False" r s m)) t ≡ false
is_true-mark_false cs t r s m = is_true-set cs (condition t "False" r s m) ∙ true-ne-false

unknown-ne-true : str_eq "Unknown" "True" ≡ false
unfolding str_eq
unknown-ne-true = refl

pub is_true-mark_unknown :
    (cs : ClusterConditions) (t r m : String)
    → is_true (set cs (condition t "Unknown" r "" m)) t ≡ false
is_true-mark_unknown cs t r m = is_true-set cs (condition t "Unknown" r "" m) ∙ unknown-ne-true

abbrev pub conds : ConditionOps
conds = record {
  is_true = is_true;
  get = get;
  mark_true = λ cs t. set cs (condition t "True" "" "" "");
  mark_unknown = λ cs t r m. set cs (condition t "Unknown" r "" m);
  mark_false = λ cs t r s m. set cs (condition t "False" r s m);
  set = set;
  is_true-mark_true = is_true-mark_true;
  is_true-mark_true_other = λ cs t u n. is_true-set_other cs (condition t "True" "" "" "") u n;
  is_true-mark_unknown = is_true-mark_unknown;
  is_true-mark_false = is_true-mark_false;
  is_true-mark_false_other = λ cs t r s m u n. is_true-set_other cs (condition t "False" r s m) u n;
  is_true-set = is_true-set;
  is_true-set_other = is_true-set_other;
}

abbrev pub agent : ClusterConditions → Agent
agent cs = record {
  metadata = object_meta "agent-1" [];
  spec = record {
    is_installed = true;
    addresses = none;
    ssh = record { secret_name = ""; others = "" };
    cert_template = no_cert_template;
    client_secret = "";
    arch = "";
    others = "";
  };
  status = record {
    phase = "Running";
    observed_generation = 1;
    conditions = cs;
    failure_reason = "";
    failure_message = "";
    agent_info = none;
    system_info = none;
  };
}

abbrev pub healthy_agent : Agent
healthy_agent = agent (condition "Healthy" "True" "" "" "" ∷ [])

abbrev pub status_named : String → RemoteStatus
status_named name = record {
  phase = "";
  failure_reason = "";
  failure_message = "";
  external_name = name;
  external_phase = "";
  conditions = [];
}
