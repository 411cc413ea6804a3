-- ===== src/Scenarios/AgentGroup.antt =====
-- Runs of the agent group reconciler.
use kubeforce.Base.{
  ◌≡◌, refl, String, true, false, none, [], ◌∷◌, arith, keep, if◌then◌else◌, str_eq, str_eq_refl,
  Distinct, lookup, insert, merge,
}
use kubeforce.Provider.Types.{ok, has_changes, Addresses, Agent, AgentSpec}
use kubeforce.Provider.Names.{build_bytes, take}
use kubeforce.Provider.AgentGroup.{
  Group, Env, desired_agent, desired_agents, agents_in_group, agents_to_map, build_agent_labels,
}
use kubeforce.Provider.AgentGroup.Reconcile.{reconcile_normal, delete_agents, apply_agents}
use kubeforce.Provider.AgentGroup.Changes.{
  deletions, creations, is_missing, reconcile_normal-effects,
}
use kubeforce.Scenarios.Library.{no_cert_template, object_meta, finalizers}

abbrev agent_spec : String → AgentSpec
agent_spec ssh = record {
  is_installed = true;
  addresses = none;
  ssh = record { secret_name = ssh; others = "" };
  cert_template = no_cert_template;
  client_secret = "";
  arch = "";
  others = "";
}

abbrev address : Addresses
address = record {
  external_dns = "";
  external_ip = "10.0.0.1";
  internal_dns = "";
  internal_ip = "";
}

abbrev group : Group
group = record {
  metadata = object_meta "group" [];
  spec = record {
    addresses = ("a", address) ∷ [];
    template_labels = [];
    template_annotations = [];
    template_spec = agent_spec "key-2";
  };
  status = record { is_ready = false; conditions = []; replicas = 0; ready_replicas = 0 };
}

abbrev old_agent : Agent
old_agent = record {
  metadata = object_meta "group-b" [];
  spec = agent_spec "key-1";
  status = record {
    phase = "Running";
    observed_generation = 1;
    conditions = [];
    failure_reason = "";
    failure_message = "";
    agent_info = none;
    system_info = none;
  };
}

-- The only agent is one that the group no longer asks for; a patch holds a changed ssh field.
abbrev env : Env
env = record {
  bytes = record { to_bytes = λ s. []; of_bytes = λ bs. "group-a" };
  finalizers = finalizers;
  delete_dependents = "foregroundDeletion";
  infrastructure_ready = "InfrastructureReady";
  waiting_reason = "WaitingForInfrastructure";
  is_true = λ cs t. true;
  mark_true = λ cs t. cs;
  mark_false = λ cs t r s m. cs;
  set_summary = λ cs b. cs;
  waiting_message = λ names. "waiting";
  wrapf = λ s e. e;
  is_controlled_by = λ m n. true;
  patch_data = λ old new.
      ok (if str_eq old.spec.ssh.secret_name new.spec.ssh.secret_name then "" else "ssh");
  unmarshal = λ s. ok (if str_eq s "" then [] else (s, "") ∷ []);
  get_answer = ok group;
  new_helper = none;
  list_answer = λ es namespace labels. ok (old_agent ∷ []);
  create_answer = λ a. none;
  delete_answer = λ a. none;
  patch_answer = λ a. none;
  group_patch_answer = λ g. none;
}

abbrev desired : Agent
desired = desired_agent group address "group-a"

is_desired : desired_agents env group ≡ ok (desired ∷ [])
unfolding desired_agents build_bytes take
is_desired = refl

is_listed : agents_in_group env [] group ≡ ok (old_agent ∷ [])
unfolding agents_in_group
is_listed = refl

is_reconciled : (reconcile_normal env group).answer ≡ ok tt
unfolding reconcile_normal agents_in_group desired_agents build_bytes take delete_agents
    apply_agents agents_to_map lookup insert str_eq
is_reconciled = refl

reconcile_normal-effects_example :
    (deletions (reconcile_normal env group).effects
      ≡ keep (is_missing (agents_to_map (desired ∷ []))) (old_agent ∷ []))
    × (creations (reconcile_normal env group).effects
        ≡ keep (is_missing (agents_to_map (old_agent ∷ []))) (desired ∷ []))
reconcile_normal-effects_example =
    reconcile_normal-effects env group (desired ∷ []) (old_agent ∷ []) is_desired is_listed
      is_reconciled

unchanged : (a : Agent) → has_changes env.patch_data env.unmarshal env.wrapf a a ≡ ok false
unfolding has_changes
unchanged a = ground (arith, str_eq_refl a.spec.ssh.secret_name, str_eq_refl "")

desired-Distinct : Distinct desired.metadata.labels
unfolding build_agent_labels merge insert lookup
desired-Distinct = (refl, tt)
