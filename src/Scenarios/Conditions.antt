-- ===== src/Scenarios/Conditions.antt =====
-- The conditions of an object with one failed preparation.
use kubeforce.Base.{String, ◌≡◌, ◌≢◌, refl, true, false, some, List, [], ◌∷◌, str_eq}
use kubeforce.Conditions.{
  Condition, Conditions, condition_false, get, has, set_existing, has_same_state, is_true, is_false,
  set, mark_true, true_condition,
}
use kubeforce.Conditions.Lookup.{is_true-mark_true}
use kubeforce.Conditions.Transition.{Unique}

abbrev prepared : Condition
prepared = record {
  type = "Execution";
  status = condition_false;
  last_transition_time = 5_000_000_000;
  reason = "PreparationFailed";
  message = "no apt";
}

abbrev one : Conditions
one = prepared ∷ []

executed : is_true (mark_true 7_500_000_000 one "Execution") "Execution" ≡ true
unfolding is_true mark_true set has get str_eq true_condition set_existing has_same_state
executed = refl

is_true-mark_true_example :
    (is_true (mark_true 9 one "Execution") "Execution" ≡ true)
    × (is_false (mark_true 9 one "Execution") "Execution" ≡ false)
    × (◌≢◌ {A = String} "Execution" "Failed"
        → get (mark_true 9 one "Execution") "Failed" ≡ get one "Failed")
is_true-mark_true_example = is_true-mark_true 9 one "Execution" "Failed"

abbrev format : String → List String → String
format f args = f

nothing_failed : has one "Failed" ≡ false
unfolding has get str_eq
nothing_failed = refl

one_found : get one "Execution" ≡ some prepared
unfolding get str_eq
one_found = refl

one-Unique : Unique one
unfolding get
one-Unique = (refl, tt)
