-- ===== src/Provider/KubeforceMachine/Claims.antt =====
-- Which agents a machine takes
-- (cluster-api-provider-kubeforce/controllers/kubeforcemachine_controller.go).
use kubeforce.Base.{
  ◌≡◌, refl, String, Bool, true, false, ◌&&◌, Option, none, some, List, [], ◌∷◌, ◌++◌, ap, All, ◌⊎◌,
  inl, inr, StringMap, insert, lookup, str_eq, Bool-cases, Option-cases,
}
use kubeforce.Api.{Error}
use kubeforce.Provider.Types.{Answer-cases, ok, panicked, Agent}
use kubeforce.Provider.Remote.{is_ready, assign_label}
use kubeforce.Provider.Template.{text_or_empty}
use kubeforce.Provider.KubeforceMachine.{
  KubeforceMachine, Effect, updated_agent, binding, Env, machine_label,
}
use kubeforce.Provider.KubeforceMachine.AgentRef.{
  label, is_free, find_agent, take_agent, agents_by_selector, find_free_agent, blocked_by,
  check_agent, bind_agent, on_blocked, on_free, on_selector, reconcile_agent_ref,
}

abbrev pub ref_on : String → Option Error → Option String
ref_on name none = some name
ref_on name (some e) = none

-- The agent with labels to which the name of the machine's cluster is added.
abbrev pub claimed_agent : Env → KubeforceMachine → StringMap String → Agent → Agent
claimed_agent env m labels a = record a {
  metadata = record a.metadata {
    labels =
        insert env.template.cluster_name_label
          (text_or_empty (lookup env.template.cluster_name_label m.metadata.labels)) labels;
  };
}

abbrev pub label_of_machine : Agent → String
label_of_machine a =
    text_or_empty
      (lookup "kubeforceagent.infrastructure.cluster.x-k8s.io/machine" a.metadata.labels)

-- A machine without an agent takes the first free agent of those that its own
-- selector selects.
pub record Claim (env : Env) (m : KubeforceMachine) (after : KubeforceMachine) (es : List Effect)
    : Type 0 where
  pub agent : Agent
  pub labels : StringMap String
  pub text : String
  pub selector : String
  pub agents : List Agent
  pub wanted : m.spec.agent_selector ≡ some text
  pub parsed : env.label_selector text ≡ ok selector
  pub unbound : m.status.agent_ref ≡ none
  pub unblocked :
      env.list_agents m.metadata.namespace
        (("kubeforceagent.infrastructure.cluster.x-k8s.io/machine", m.metadata.name) ∷ [])
      ≡ ok []
  pub selected : env.list_selected m.metadata.namespace selector ≡ ok agents
  pub before : List Agent
  pub rest : List Agent
  pub listed : agents ≡ before ++ (agent ∷ rest)
  pub skipped : All (λ b. (str_eq (label_of_machine b) "" && is_ready env.conds b) ≡ false) before
  pub unclaimed : str_eq (label_of_machine agent) "" ≡ true
  pub ready : is_ready env.conds agent ≡ true
  pub labelled : assign_label agent.metadata.labels machine_label m.metadata.name ≡ ok labels
  pub updates : es ≡ updated_agent (claimed_agent env m labels agent) ∷ []
  pub ref :
      after.status.agent_ref
      ≡ ref_on agent.metadata.name (env.update_agent (claimed_agent env m labels agent))

first_agent :
    (f : Agent → Bool) (b : Agent) (agents : List Agent) {a : Agent}
    → some b ≡ some a
    → f b ≡ true
    → (before rest : List Agent) × (b ∷ agents ≡ before ++ (a ∷ rest))
      × All (λ c. f c ≡ false) before
      × (f a ≡ true)
first_agent f b agents h e = ([], agents, cc, tt, cc)

find_agent_first :
    (f : Agent → Bool) (agents : List Agent) (a : Agent)
    → find_agent f agents ≡ some a
    → (before rest : List Agent) × (agents ≡ before ++ (a ∷ rest))
      × All (λ b. f b ≡ false) before
      × (f a ≡ true)
unfolding find_agent
find_agent_first f [] a h = cc
find_agent_first f (b ∷ agents) a h = elim (Bool-cases (f b)) [
  | inl e ↦ first_agent f b agents (rw e at h) e
  | inr e ↦
      let (before, rest, l, s, t) = find_agent_first f agents a (rw e at h) in
      (b ∷ before, rest, ap (λ l. b ∷ l) l, (e, s), t)
]

and-left : (b c : Bool) → (b && c) ≡ true → b ≡ true
and-left true c h = refl
and-left false c h = h

and-right : (b c : Bool) → (b && c) ≡ true → c ≡ true
and-right true c h = h
and-right false c h = cc

pub assign_label-cases :
    (labels : StringMap String) (key value : String)
    → (assign_label labels key value ≡ panicked)
      ⊎ ((after : StringMap String) × (assign_label labels key value ≡ ok after))
assign_label-cases [] key value = inl refl
assign_label-cases (l ∷ labels) key value = inr (_, refl)

-- What a handler of the machine leaves: nothing was claimed, or one agent was.
abbrev pub ClaimsOne : Env → KubeforceMachine → KubeforceMachine → List Effect → Type 0
ClaimsOne env m after es = (es ≡ []) ⊎ Claim env m after es

module _ (env : Env) (m : KubeforceMachine) (u : m.status.agent_ref ≡ none)
    (b : blocked_by env m ≡ ok []) (text : String) (w : m.spec.agent_selector ≡ some text) where
  take_agent-Claim :
      (selector : String) (agents : List Agent) (a : Agent)
      → env.label_selector text ≡ ok selector
      → agents_by_selector env m.metadata.namespace selector ≡ ok agents
      → find_agent (is_free env.conds) agents ≡ some a
      → ClaimsOne env m (take_agent env a m).1 (take_agent env a m).2
  unfolding take_agent agents_by_selector
  take_agent-Claim selector agents a p s f =
      let (before, rest, l, k, free) = find_agent_first (is_free env.conds) agents a f in
      let claim : (labels : StringMap String) (after : KubeforceMachine)
          → assign_label a.metadata.labels machine_label m.metadata.name ≡ ok labels
          → after.status.agent_ref
            ≡ ref_on a.metadata.name (env.update_agent (claimed_agent env m labels a))
          → Claim env m after (updated_agent (claimed_agent env m labels a) ∷ []) =
        λ labels after e r. record {
          agent = a;
          labels = labels;
          text = text;
          selector = selector;
          wanted = w;
          parsed = p;
          agents = agents;
          unbound = u;
          unblocked = b;
          selected = s;
          before = before;
          rest = rest;
          listed = l;
          skipped = k;
          unclaimed = and-left _ _ free;
          ready = and-right _ _ free;
          labelled = e;
          updates = refl;
          ref = r;
        } in
      elim (assign_label-cases a.metadata.labels machine_label m.metadata.name) [
        | inl e ↦ rw e (inl refl)
        | inr (labels, e) ↦ elim (Option-cases (env.update_agent (claimed_agent env m labels a))) [
          | inl n ↦ rw e (rw n (inr (claim labels _ e (rw n refl))))
          | inr (x, n) ↦ rw e (rw n (inr (claim labels _ e (rw n u))))
        ]
      ]

  free_agent-Claim :
      (selector : String) (agents : List Agent)
      → env.label_selector text ≡ ok selector
      → agents_by_selector env m.metadata.namespace selector ≡ ok agents
      → ClaimsOne env m
          (on_free env (find_agent (is_free env.conds) agents) m).1
          (on_free env (find_agent (is_free env.conds) agents) m).2
  free_agent-Claim selector agents p s =
      elim (Option-cases (find_agent (is_free env.conds) agents)) [
        | inl e ↦ rw e (inl refl)
        | inr (a, e) ↦ rw e (take_agent-Claim selector agents a p s e)
      ]

  find_free_agent-Claim :
      ClaimsOne env m (find_free_agent env text m).1 (find_free_agent env text m).2
  unfolding find_free_agent
  find_free_agent-Claim = elim (Answer-cases (env.label_selector text)) [
    | inr (inl (x, e)) ↦ rw e (inl refl)
    | inr (inr e) ↦ rw e (inl refl)
    | inl (selector, e) ↦
        elim (Answer-cases (agents_by_selector env m.metadata.namespace selector)) [
          | inl (agents, s) ↦ rw e (rw s (free_agent-Claim selector agents e s))
          | inr (inl (x, s)) ↦ rw e (rw s (inl refl))
          | inr (inr s) ↦ rw e (rw s (inl refl))
        ]
  ]

check_agent-effects :
    (env : Env) (m : KubeforceMachine) (name : String) → (check_agent env name m).2 ≡ []
unfolding check_agent
check_agent-effects env m name =
    elim (Answer-cases (env.get_agent binding (m.metadata.namespace, name))) [
      | inl (a, e) ↦
          elim (Bool-cases (str_eq (label machine_label a.metadata.labels) m.metadata.name)) [
            | inr l ↦ rw e (rw l refl)
            | inl l ↦ elim (Bool-cases (is_ready env.conds a)) [
              | inl r ↦ rw e (rw l (rw r refl))
              | inr r ↦ rw e (rw l (rw r refl))
            ]
          ]
      | inr (inl (x, e)) ↦ rw e refl
      | inr (inr e) ↦ rw e refl
    ]

blocked-Claim :
    (env : Env) (m : KubeforceMachine) (selector : String) (agents : List Agent)
    → m.spec.agent_selector ≡ some selector
    → m.status.agent_ref ≡ none
    → blocked_by env m ≡ ok agents
    → ClaimsOne env m (on_blocked env selector agents m).1 (on_blocked env selector agents m).2
blocked-Claim env m selector [] w u b = find_free_agent-Claim env m u b selector w
blocked-Claim env m selector (a ∷ []) w u b = inl refl
blocked-Claim env m selector (a ∷ c ∷ agents) w u b = inl refl

bind_agent-Claim :
    (env : Env) (m : KubeforceMachine) (selector : String) (ref : Option String)
    → m.spec.agent_selector ≡ some selector
    → m.status.agent_ref ≡ ref
    → ClaimsOne env m (bind_agent env selector ref m).1 (bind_agent env selector ref m).2
bind_agent-Claim env m selector (some name) w u = inl (check_agent-effects env m name)
bind_agent-Claim env m selector none w u = elim (Answer-cases (blocked_by env m)) [
  | inl (agents, b) ↦ rw b (blocked-Claim env m selector agents w u b)
  | inr (inl (x, b)) ↦ rw b (inl refl)
  | inr (inr b) ↦ rw b (inl refl)
]

on_selector-Claim :
    (env : Env) (m : KubeforceMachine) (selector : Option String)
    → m.spec.agent_selector ≡ selector
    → ClaimsOne env m
        (on_selector env m.status.agent_ref selector m).1
        (on_selector env m.status.agent_ref selector m).2
on_selector-Claim env m none w = inl refl
on_selector-Claim env m (some selector) w =
    bind_agent-Claim env m selector m.status.agent_ref w refl

-- Reconciling the agent reference of a machine updates nothing, or it updates one agent once: the
-- machine had no reference, no agent is labelled with it, the agent is the first of those in
-- the machine's namespace that the selector of its specification selects whose machine label is empty and that is ready, its new labels name the machine
-- and the cluster of the machine, and the reference is set to it exactly if the update succeeds.
pub reconcile_agent_ref-Claim :
    (env : Env) (m : KubeforceMachine)
    → ClaimsOne env m (reconcile_agent_ref env m).1 (reconcile_agent_ref env m).2
unfolding reconcile_agent_ref
reconcile_agent_ref-Claim env m = on_selector-Claim env m m.spec.agent_selector refl
