-- ===== src/Provider/KubeforceAgent/Deletion.antt =====
-- When the finalizer of an agent is removed
-- (cluster-api-provider-kubeforce/controllers/kubeforceagent_controller.go).
use kubeforce.Base.{
  ap, ◌∙◌, StringMap, ◌≡◌, refl, sym, String, Bool, true, false, not, ◌&&◌, ◌||◌, Option, none,
  some, lookup, str_eq, arith, List, [], ◌∷◌, if◌then◌else◌, Bool-cases, Option-cases, inl, inr,
}
use kubeforce.Api.{Error, ObjectMeta, is_nil, is_not_found, is_deleted}
use kubeforce.Provider.Types.{
  Answer, Answer-cases, ok, failed, panicked, Agent, RemotePlaybook, RemoteDeployment,
}
use kubeforce.Provider.Call.{wrapped}
use kubeforce.Provider.Remote.{is_healthy}
use kubeforce.Provider.KubeforceAgent.{World, Env, Key, agent_finalizer, machine_label, object_key}
use kubeforce.Provider.KubeforceAgent.Delete.{
  get_playbooks, get_playbook_deployments, reconcile_delete, reconcile_delete_machine,
  delete_machine, machine_error, on_lists, delete_unused, remove_finalizer, is_empty,
}

abbrev pub lists_none : {A : Type 0} → Answer (List A) → Bool
lists_none (ok xs) = is_empty xs
lists_none _ = false

-- Whether an answer, or an error, is that an object does not exist.
abbrev pub is_missing : Option Error → Bool
is_missing none = false
is_missing (some e) = is_not_found e

-- The machine does not exist, or is found, is not yet being deleted, and does not exist any more when
-- its deletion is asked for.
abbrev pub is_gone : Env → Key → Answer ObjectMeta → Bool
is_gone env key (ok m) = not (is_deleted m) && is_missing (env.delete_machine key)
is_gone env key (failed e) = is_not_found e
is_gone env key panicked = false

abbrev pub names_none : String → Bool
names_none name = str_eq name ""

abbrev pub named_machine_gone : Env → String → Option String → Bool
named_machine_gone env namespace none = true
named_machine_gone env namespace (some name) =
    names_none name || is_gone env (namespace, name) (env.get_machine (namespace, name))

-- No machine is named by the agent's label, or the one that it names is gone.
abbrev pub machine_gone : Env → Agent → Bool
machine_gone env a =
    named_machine_gone env a.metadata.namespace
      (lookup "kubeforceagent.infrastructure.cluster.x-k8s.io/machine" a.metadata.labels)

-- What the code's own answer says.
abbrev has_none : Answer Bool → Bool
has_none (ok b) = not b
has_none _ = false

deleted_answer-is_missing :
    (env : Env) (key : Key) (o : Option Error)
    → has_none (elim o [
      | none ↦ ok true
      | some e ↦ if is_not_found e then ok false else failed (machine_error env "delete" key e)
    ])
      ≡ is_missing o
deleted_answer-is_missing env key none = refl
deleted_answer-is_missing env key (some e) = ground arith

delete_machine-is_gone :
    (env : Env) (key : Key) (x : Answer ObjectMeta)
    → has_none (delete_machine env key x).0 ≡ is_gone env key x
delete_machine-is_gone env key (failed e) = ground arith
delete_machine-is_gone env key panicked = refl
delete_machine-is_gone env key (ok m) = elim (Bool-cases (is_deleted m)) [
  | inl d ↦ rw d refl
  | inr d ↦ rw d (deleted_answer-is_missing env key (env.delete_machine key))
]

reconcile_delete_machine-gone :
    (env : Env) (a : Agent) → has_none (reconcile_delete_machine env a).0 ≡ machine_gone env a
unfolding reconcile_delete_machine
reconcile_delete_machine-gone env a = elim (Option-cases (lookup machine_label a.metadata.labels)) [
  | inl e ↦ rw (e, reconcile_delete_machine) refl
  | inr (name, e) ↦ elim (Bool-cases (names_none name)) [
    | inl n ↦ rw (e, reconcile_delete_machine) (rw n refl)
    | inr n ↦
        rw (e, reconcile_delete_machine)
          (rw n (
            delete_machine-is_gone env (a.metadata.namespace, name)
              (env.get_machine (a.metadata.namespace, name))))
  ]
]

-- An agent that answers is uninstalled.
abbrev pub is_uninstalled : Env → Agent → Bool
is_uninstalled env a =
    if is_healthy env.conds a
    then is_nil (env.client_set (object_key a.metadata)) && is_nil env.uninstall
    else true

abbrev pub names_agent : Agent → StringMap String
names_agent a = ("playbook.infrastructure.cluster.x-k8s.io/agent", a.metadata.name) ∷ []

abbrev pub is_unused : Env → Agent → Bool
is_unused env a =
    lists_none (env.list_playbooks a.metadata.namespace (names_agent a))
    && lists_none (env.list_deployments a.metadata.namespace (names_agent a))
    && is_uninstalled env a

abbrev pub is_released : Env → Agent → Bool
is_released env a = machine_gone env a && is_unused env a

-- The rest of the handler, after the lists.
release-agent :
    (env : Env) (w : World)
    → (delete_unused env w.agent w).1.agent
      ≡ (if is_uninstalled env w.agent then remove_finalizer env w.agent else w.agent)
unfolding delete_unused
release-agent env w = elim (Bool-cases (is_healthy env.conds w.agent)) [
  | inr h ↦ rw h refl
  | inl h ↦ elim (Option-cases (env.client_set (object_key w.agent.metadata))) [
    | inr (e, c) ↦ rw h (rw c refl)
    | inl c ↦ elim (Option-cases env.uninstall) [
      | inl u ↦ rw h (rw c (rw u refl))
      | inr (e, u) ↦ rw h (rw c (rw u refl))
    ]
  ]
]

lists_none-wrapped :
    {A : Type 0} (f : Error → Error) (x : Answer (List A)) → lists_none (wrapped f x) ≡ lists_none x
lists_none-wrapped f (ok xs) = refl
lists_none-wrapped f (failed e) = refl
lists_none-wrapped f panicked = refl

-- The lists of the code are those of the objects that name the agent.
unused-lists :
    (env : Env) (a : Agent)
    → (lists_none (get_playbooks env a)
        && lists_none (get_playbook_deployments env a)
        && is_uninstalled env a)
      ≡ is_unused env a
unfolding get_playbooks get_playbook_deployments
unused-lists env a =
    rw
      (
        lists_none-wrapped _ (env.list_playbooks a.metadata.namespace (names_agent a)),
        lists_none-wrapped _ (env.list_deployments a.metadata.namespace (names_agent a)),
      )
      refl

on_lists-agent :
    (env : Env) (w : World) (ps : Answer (List RemotePlaybook))
    (ds : Answer (List RemoteDeployment))
    → (on_lists env w.agent ps ds w).1.agent ≡ (
        if lists_none ps && lists_none ds && is_uninstalled env w.agent
        then remove_finalizer env w.agent
        else w.agent)
on_lists-agent env w (ok []) (ok []) = release-agent env w
on_lists-agent env w (ok []) (ok (d ∷ ds)) = refl
on_lists-agent env w (ok []) (failed e) = refl
on_lists-agent env w (ok []) panicked = refl
on_lists-agent env w (ok (p ∷ ps)) ds = refl
on_lists-agent env w (failed e) ds = refl
on_lists-agent env w panicked ds = refl

-- Deleting an agent that has the finalizer changes it only by removing the finalizer, and does so
-- exactly if no machine is named by its label or that machine is not found, or is found, not yet being
-- deleted, and not found any more when it is deleted; and it has no playbooks and no playbook
-- deployments; and, where it is healthy, it has a client and was uninstalled without an error.
pub reconcile_delete-agent :
    (env : Env) (w : World)
    → env.finalizers.contains w.agent.metadata.finalizers agent_finalizer ≡ true
    → (reconcile_delete env w.agent w).1.agent
      ≡ (if is_released env w.agent then remove_finalizer env w.agent else w.agent)
unfolding reconcile_delete
reconcile_delete-agent env w h =
    let gone = sym (reconcile_delete_machine-gone env w.agent) in
    elim (Answer-cases (reconcile_delete_machine env w.agent).0) [
      | inl (true, e) ↦ rw gone (rw h (rw e refl))
      | inl (false, e) ↦ rw gone (
          rw h (
            rw e (
              on_lists-agent env w (get_playbooks env w.agent)
                (get_playbook_deployments env w.agent)
              ∙ ap (λ b. if b then remove_finalizer env w.agent else w.agent)
                  (unused-lists env w.agent))))
      | inr (inl (x, e)) ↦ rw gone (rw h (rw e refl))
      | inr (inr e) ↦ rw gone (rw h (rw e refl))
    ]
