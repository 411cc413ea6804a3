-- ===== src/Provider/KubeforceMachine/Binding.antt =====
-- When the reconciliation of a machine goes on with its agent
-- (cluster-api-provider-kubeforce/controllers/kubeforcemachine_controller.go).
use kubeforce.Base.{
  ◌≡◌, refl, String, Bool, true, false, ◌&&◌, ◌==◌, Option, none, some, List, [], ◌∷◌, str_eq,
  Bool-cases, Option-cases, inl, inr, ◌⊎◌,
}
use kubeforce.Api.{is_nil}
use kubeforce.Provider.Types.{Answer-cases, ok, Agent}
use kubeforce.Provider.Handler.{Exit, going, returned, crashed}
use kubeforce.Provider.Remote.{is_ready}
use kubeforce.Provider.KubeforceMachine.{
  KubeforceMachine, Effect, Env, binding, machine_label, set_conditions,
}
use kubeforce.Provider.KubeforceMachine.AgentRef.{
  label, check_agent, is_free, find_agent, cluster_labelled, with_labels, take_agent, on_free,
  agents_by_selector, find_free_agent, blocked_by, on_blocked, bind_agent, on_selector,
  reconcile_agent_ref,
}
use kubeforce.Provider.KubeforceMachine.Claims.{assign_label-cases}
use kubeforce.Provider.KubeforceMachine.Bootstrapped.{Kept}

-- The result is zero, without an error.
abbrev pub goes_on : Exit (Unit {0}) → Bool
goes_on (going u) = true
goes_on (returned after err) = (after == 0) && is_nil err
goes_on crashed = false

abbrev pub agent_marked : Env → KubeforceMachine → KubeforceMachine
agent_marked env m = set_conditions (λ cs. env.conds.mark_true cs "AgentProvisioned") m

-- The agent of the reference carries the label of the machine and is ready.
pub record IsBound (env : Env) (m : KubeforceMachine) : Type 0 where
  pub name : String
  pub ref : m.status.agent_ref ≡ some name
  pub agent : Agent
  pub read : env.get_agent binding (m.metadata.namespace, name) ≡ ok agent
  pub labelled : str_eq (label machine_label agent.metadata.labels) m.metadata.name ≡ true
  pub ready : is_ready env.conds agent ≡ true

abbrev Result : Type 0
Result = Exit (Unit {0}) × KubeforceMachine × List Effect

abbrev Ends : Result → KubeforceMachine → Type 0
Ends r m = (goes_on r.0 ≡ false) × Kept m r.1

abbrev pub EndsOrBound : Env → KubeforceMachine → Result → Type 0
EndsOrBound env m r = Ends r m ⊎ (IsBound env m × (r.1 ≡ agent_marked env m))

check_agent-EndsOrBound :
    (env : Env) (m : KubeforceMachine) (name : String)
    → m.status.agent_ref ≡ some name
    → EndsOrBound env m (check_agent env name m)
unfolding check_agent
check_agent-EndsOrBound env m name u =
    elim (Answer-cases (env.get_agent binding (m.metadata.namespace, name))) [
      | inl (a, e) ↦
          elim (Bool-cases (str_eq (label machine_label a.metadata.labels) m.metadata.name)) [
            | inr l ↦ rw e (rw l (inl (refl, refl)))
            | inl l ↦ elim (Bool-cases (is_ready env.conds a)) [
              | inl r ↦
                  let bound : IsBound env m = record {
                    name = name;
                    ref = u;
                    agent = a;
                    read = e;
                    labelled = l;
                    ready = r;
                  } in
                  rw e (rw l (rw r (inr (bound, refl))))
              | inr r ↦ rw e (rw l (rw r (inl (refl, refl))))
            ]
          ]
      | inr (inl (x, e)) ↦ rw e (inl (refl, refl))
      | inr (inr e) ↦ rw e (inl (refl, refl))
    ]

take_agent-Ends : (env : Env) (m : KubeforceMachine) (a : Agent) → Ends (take_agent env a m) m
unfolding take_agent
take_agent-Ends env m a =
    elim (assign_label-cases a.metadata.labels machine_label m.metadata.name) [
      | inl e ↦ rw e (refl, refl)
      | inr (labels, e) ↦
          elim (Option-cases (env.update_agent (with_labels (cluster_labelled env m labels) a))) [
            | inl n ↦ rw e (rw n (refl, refl))
            | inr (x, n) ↦ rw e (rw n (refl, refl))
          ]
    ]

on_free-Ends : (env : Env) (m : KubeforceMachine) (o : Option Agent) → Ends (on_free env o m) m
on_free-Ends env m none = (refl, refl)
on_free-Ends env m (some a) = take_agent-Ends env m a

find_free_agent-Ends :
    (env : Env) (m : KubeforceMachine) (text : String) → Ends (find_free_agent env text m) m
unfolding find_free_agent
find_free_agent-Ends env m text = elim (Answer-cases (env.label_selector text)) [
  | inr (inl (x, e)) ↦ rw e (refl, refl)
  | inr (inr e) ↦ rw e (refl, refl)
  | inl (selector, e) ↦ elim (Answer-cases (agents_by_selector env m.metadata.namespace selector)) [
    | inl (agents, s) ↦ rw e (rw s (on_free-Ends env m (find_agent (is_free env.conds) agents)))
    | inr (inl (x, s)) ↦ rw e (rw s (refl, refl))
    | inr (inr s) ↦ rw e (rw s (refl, refl))
  ]
]

on_blocked-Ends :
    (env : Env) (m : KubeforceMachine) (selector : String) (agents : List Agent)
    → Ends (on_blocked env selector agents m) m
on_blocked-Ends env m selector [] = find_free_agent-Ends env m selector
on_blocked-Ends env m selector (a ∷ []) = (refl, refl)
on_blocked-Ends env m selector (a ∷ b ∷ agents) = (refl, refl)

bind_agent-EndsOrBound :
    (env : Env) (m : KubeforceMachine) (selector : String) (ref : Option String)
    → m.status.agent_ref ≡ ref
    → EndsOrBound env m (bind_agent env selector ref m)
bind_agent-EndsOrBound env m selector (some name) u = check_agent-EndsOrBound env m name u
bind_agent-EndsOrBound env m selector none u = elim (Answer-cases (blocked_by env m)) [
  | inl (agents, b) ↦ rw b (inl (on_blocked-Ends env m selector agents))
  | inr (inl (x, b)) ↦ rw b (inl (refl, refl))
  | inr (inr b) ↦ rw b (inl (refl, refl))
]

on_selector-EndsOrBound :
    (env : Env) (m : KubeforceMachine) (selector : Option String)
    → EndsOrBound env m (on_selector env m.status.agent_ref selector m)
on_selector-EndsOrBound env m none = inl (refl, refl)
on_selector-EndsOrBound env m (some selector) =
    bind_agent-EndsOrBound env m selector m.status.agent_ref refl

pub reconcile_agent_ref-EndsOrBound :
    (env : Env) (m : KubeforceMachine) → EndsOrBound env m (reconcile_agent_ref env m)
unfolding reconcile_agent_ref
reconcile_agent_ref-EndsOrBound env m = on_selector-EndsOrBound env m m.spec.agent_selector
