-- ===== src/Scenarios/Prober.antt =====
-- A probe that fails after it has succeeded.
use kubeforce.Base.{
  ℕ, ◌<◌, ◌≡◌, ◌↔◌, refl, String, true, false, Option, none, some, List, [], ◌∷◌, arith, lookup,
  insert, str_eq,
}
use kubeforce.Api.{Error, failure}
use kubeforce.Prober.Results.{ResultItem, new_result_manager, set_internal}
use kubeforce.Prober.Results.Updates.{announced, for_key, changes, result_of, announced-changes}
use kubeforce.Prober.Worker.{ProbeParams, do_probe, new_worker, stop}
use kubeforce.Prober.Worker.Streak.{after, run_of, threshold, do_probe_streak}
use kubeforce.Prober.Controller.{
  probing, Running, Controller, new_controller, ensure_probe, remove_probe, Reach, ensured, removed,
  here, next,
}
use kubeforce.Prober.Controller.Leave.{Finishes, remove_probe-Finishes}
use kubeforce.Prober.Controller.Invariant.{Inv, Reach-Inv}

abbrev params : ProbeParams
params = record {
  timeout_seconds = 3;
  period_seconds = 5;
  success_threshold = 1;
  failure_threshold = 2;
}

abbrev history : List (ℕ × Option Error)
history = (20, some (failure "timeout")) ∷ (10, none) ∷ []

do_probe_streak_example :
    let reported = (do_probe 30 (after "agent" params history) (some (failure "timeout"))).1 in
    ((reported ≡ none)
      ↔ (run_of false ((30, some (failure "timeout")) ∷ history) < threshold params false))
    × ((item : ResultItem) → reported ≡ some item → item.probe_result ≡ false)
do_probe_streak_example =
    do_probe_streak "agent" params history 30 (some (failure "timeout")) (omega arith) (omega arith)
      (omega arith)

abbrev good : ResultItem
good = record { probe_result = true; time = 10; reason = "Success"; message = "" }

abbrev bad : ResultItem
bad = record { probe_result = false; time = 30; reason = "Failure"; message = "timeout" }

abbrev sets : List (String × ResultItem)
sets = ("a", good) ∷ ("b", bad) ∷ ("a", good) ∷ ("a", bad) ∷ []

announced-changes_example :
    for_key "a" (announced new_result_manager sets)
    ≡ changes "a" (result_of (lookup "a" new_result_manager.cache)) sets
announced-changes_example = announced-changes "a" new_result_manager sets

two_changes : for_key "a" (announced new_result_manager sets) ≡ true ∷ false ∷ []
unfolding announced set_internal new_result_manager lookup insert str_eq
two_changes = refl

abbrev watched : Controller
watched = remove_probe "agent" (ensure_probe "agent" params new_controller)

Reach-Inv_example : Inv watched
Reach-Inv_example = Reach-Inv (
    next (next here (ensured "agent" params new_controller))
      (removed "agent" (ensure_probe "agent" params new_controller)))

watching : Reach new_controller (ensure_probe "agent" params new_controller)
watching = next here (ensured "agent" params new_controller)

abbrev started : Running
started = record { worker = new_worker "agent" params; stage = probing }

started_found : lookup "agent" (ensure_probe "agent" params new_controller).workers ≡ some started
unfolding ensure_probe new_controller lookup insert str_eq
started_found = refl

remove_probe-Finishes_example :
    Finishes "agent" (record started { worker = stop started.worker }) watched
remove_probe-Finishes_example =
    remove_probe-Finishes "agent" started (ensure_probe "agent" params new_controller) watching
      started_found
