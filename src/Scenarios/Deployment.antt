-- ===== src/Scenarios/Deployment.antt =====
-- A PlaybookDeployment with two finished Playbooks of another template, and one in step.
use kubeforce.Base.{
  latest, ℕ, ◌≡◌, refl, String, true, false, none, some, List, [], ◌∷◌, ◌++◌, str_eq, sort_stable,
  insert_stable,
}
use kubeforce.Api.{is_deleted}
use kubeforce.Conditions.{Condition, condition_true, is_true, get}
use kubeforce.Agent.Types.{Playbook, PlaybookSpec, PlaybookPhase}
use kubeforce.Agent.Checksum.{json}
use kubeforce.Agent.Deployment.{
  created_before, Env, Deployment, no_phase, patched, found, listed, last_playbook,
  get_playbooks_for_deployment, get_last_playbook, sort_playbooks_by_creation_time, sync, sync_last,
  create_playbook, playbook_deployment_finalizer,
}
use kubeforce.Agent.Deployment.Reconcile.{
  reconcile, reconcile_found, reconcile_delete, respond, with_finalizers,
}
use kubeforce.Agent.Deployment.Newest.{newest_answer, get_last_playbook-eq-newest}
use kubeforce.Agent.Deployment.Creation.{creates, IsDue, InStep, reconcile-creates, sync-InStep}
use kubeforce.Agent.Deployment.Deletion.{deletions, reconcile_delete_some_left}
use kubeforce.Scenarios.Library.{finalizers, object_meta, first_of_two}

abbrev spec_of : String → PlaybookSpec
spec_of entry = record { policy = none; files = []; entrypoint = entry }

abbrev executed : Condition
executed = record {
  type = "Execution";
  status = condition_true;
  last_transition_time = 1;
  reason = "";
  message = "";
}

abbrev playbook_of : String → ℕ → Playbook
playbook_of entry created = record {
  metadata = record (object_meta entry []) { creation_timestamp = created };
  spec = spec_of entry;
  status = record { phase = PlaybookPhase.succeeded; conditions = executed ∷ []; failed_count = 0 };
}

abbrev deployment : Deployment
deployment = record {
  metadata = object_meta "lb" (playbook_deployment_finalizer ∷ []);
  spec = record {
    template_labels = [];
    template_annotations = [];
    template_spec = spec_of "new.yaml";
    revision_history_limit = some 10;
    is_paused = false;
  };
  status = record { observed_generation = 0; phase = no_phase };
}

abbrev env_of : List Playbook → Env
env_of items = record {
  finalizers = finalizers;
  hash = record { marshal = λ s. json s.entrypoint; write = λ s. none; sum_hex = λ s. s };
  is_controlled_by = λ m n. true;
  generate_name = λ s. s;
  api_version = "agent.kubeforce.io/v1alpha1";
  get_answer = found deployment;
  list_answer = listed items;
  patch_answer = λ d. none;
  status_patch_answer = λ d. none;
  create_answer = λ p. none;
  delete_answer = λ p. none;
  new_aggregate = first_of_two;
}

abbrev outdated : Env
outdated = env_of (playbook_of "old.yaml" 20 ∷ playbook_of "older.yaml" 10 ∷ [])

abbrev in_step : Env
in_step = env_of (playbook_of "new.yaml" 30 ∷ playbook_of "old.yaml" 20 ∷ [])

get_last_playbook-eq-newest_example :
    get_last_playbook outdated deployment ≡ newest_answer outdated deployment outdated.list_answer
get_last_playbook-eq-newest_example = get_last_playbook-eq-newest outdated deployment

newest : get_last_playbook outdated deployment ≡ last_playbook (some (playbook_of "old.yaml" 20))
unfolding get_last_playbook get_playbooks_for_deployment sort_playbooks_by_creation_time sort_stable
    insert_stable
newest = refl

creation : creates (reconcile outdated).effects ≡ true
unfolding reconcile reconcile_found sync sync_last create_playbook is_true get str_eq
    get_last_playbook get_playbooks_for_deployment sort_playbooks_by_creation_time sort_stable
    insert_stable
creation = refl

reconcile-creates_example :
    (pd : Deployment) × (found deployment ≡ found pd)
    × (is_deleted pd.metadata ≡ false)
    × (finalizers.contains pd.metadata.finalizers playbook_deployment_finalizer ≡ true)
    × (pd.spec.is_paused ≡ false)
    × IsDue outdated pd
reconcile-creates_example = reconcile-creates outdated creation

abbrev in_step_items : List Playbook
in_step_items = playbook_of "new.yaml" 30 ∷ playbook_of "old.yaml" 20 ∷ []

newest_in_step : latest created_before in_step_items ≡ some (playbook_of "new.yaml" 30)
unfolding latest
newest_in_step = refl

sync-InStep_example : InStep in_step deployment (playbook_of "new.yaml" 30)
sync-InStep_example =
    sync-InStep in_step deployment in_step_items (playbook_of "new.yaml" 30) "new.yaml" refl
      newest_in_step refl refl

has_finalizer :
    finalizers.contains (playbook_deployment_finalizer ∷ []) playbook_deployment_finalizer ≡ true
unfolding str_eq
has_finalizer = refl

two_listed :
    get_playbooks_for_deployment outdated deployment
    ≡ listed (playbook_of "old.yaml" 20 ∷ playbook_of "older.yaml" 10 ∷ [])
unfolding get_playbooks_for_deployment
two_listed = refl

reconcile_delete_some_left_example :
    let pd' =
      with_finalizers
        (finalizers.remove (playbook_deployment_finalizer ∷ []) playbook_deployment_finalizer)
        deployment in
    (reconcile_delete outdated deployment
      ≡ respond none (
          deletions (playbook_of "old.yaml" 20 ∷ playbook_of "older.yaml" 10 ∷ [])
          ++ (patched pd' ∷ [])))
    × (finalizers.contains pd'.metadata.finalizers playbook_deployment_finalizer ≡ false)
reconcile_delete_some_left_example =
    reconcile_delete_some_left outdated deployment (playbook_of "old.yaml" 20)
      (playbook_of "older.yaml" 10 ∷ []) has_finalizer two_listed (refl, (refl, tt))
