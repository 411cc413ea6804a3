-- ===== src/Provider/AgentGroup/Changes.antt =====
-- Which agents a reconciliation of
-- cluster-api-provider-kubeforce/controllers/kubeforceagentgroup_controller.go deletes and creates.
use kubeforce.Base.{
  ◌≡◌, refl, ap, sym, ◌∙◌, Bool, true, false, Option, none, some, List, [], ◌∷◌, ◌++◌, arith,
  StringMap, lookup, keep, if◌then◌else◌,
}
use kubeforce.Provider.Types.{ok, failed, panicked, Agent}
use kubeforce.Provider.AgentGroup.{
  Group, Effect, created, deleted, patched, group_patched, Env, agents_in_group, desired_agents,
  agents_to_map,
}
use kubeforce.Provider.AgentGroup.Reconcile.{
  Call, and_call, delete_undesired, delete_agents, apply_agent, apply_agents, update_agent, applied,
  reconcile_agents, reconcile_normal,
}

abbrev pub deletions : List Effect → List Agent
deletions [] = []
deletions (deleted a ∷ es) = a ∷ deletions es
deletions (_ ∷ es) = deletions es

abbrev pub creations : List Effect → List Agent
creations [] = []
creations (created a ∷ es) = a ∷ creations es
creations (_ ∷ es) = creations es

abbrev pub is_none : Option Agent → Bool
is_none none = true
is_none (some a) = false

-- Whether no agent of the map has the name of the agent.
abbrev pub is_missing : StringMap Agent → Agent → Bool
is_missing m a = is_none (lookup a.metadata.name m)

deletions-append : (es fs : List Effect) → deletions (es ++ fs) ≡ deletions es ++ deletions fs
deletions-append [] fs = refl
deletions-append (deleted a ∷ es) fs = ap (λ l. a ∷ l) (deletions-append es fs)
deletions-append (created a ∷ es) fs = deletions-append es fs
deletions-append (patched a ∷ es) fs = deletions-append es fs
deletions-append (group_patched g ∷ es) fs = deletions-append es fs

creations-append : (es fs : List Effect) → creations (es ++ fs) ≡ creations es ++ creations fs
creations-append [] fs = refl
creations-append (created a ∷ es) fs = ap (λ l. a ∷ l) (creations-append es fs)
creations-append (deleted a ∷ es) fs = creations-append es fs
creations-append (patched a ∷ es) fs = creations-append es fs
creations-append (group_patched g ∷ es) fs = creations-append es fs

and_call-done :
    (c d : Call)
    → (and_call c d).0 ≡ ok tt
    → (c.0 ≡ ok tt) × (d.0 ≡ ok tt) × ((and_call c d).1 ≡ c.1 ++ d.1)
and_call-done (ok tt, es) (a, fs) h = (refl, h, refl)
and_call-done (failed e, es) d h = ground arith
and_call-done (panicked, es) d h = ground arith

delete_undesired-effects :
    (env : Env) (a : Agent) (o : Option Agent) (rest : List Agent)
    → (deletions (delete_undesired env a o).1 ++ rest ≡ (if is_none o then a ∷ rest else rest))
      × (creations (delete_undesired env a o).1 ≡ [])
delete_undesired-effects env a none rest = ground arith
delete_undesired-effects env a (some d) rest = (refl, refl)

delete_agents-effects :
    (env : Env) (desired : StringMap Agent) (agents : List Agent)
    → (delete_agents env desired agents).0 ≡ ok tt
    → (deletions (delete_agents env desired agents).1 ≡ keep (is_missing desired) agents)
      × (creations (delete_agents env desired agents).1 ≡ [])
unfolding delete_agents
delete_agents-effects env desired [] h = (refl, refl)
delete_agents-effects env desired (a ∷ agents) h =
    let o = lookup a.metadata.name desired in
    let c = delete_undesired env a o in
    let d = delete_agents env desired agents in
    let (cd, dd, e) = and_call-done c d h in
    let (r, s) = delete_agents-effects env desired agents dd in
    let (x, y) = delete_undesired-effects env a o (keep (is_missing desired) agents) in
    (
      ap deletions e ∙ deletions-append c.1 d.1 ∙ ap (λ l. deletions c.1 ++ l) r ∙ x,
      ap creations e
          ∙ creations-append c.1 d.1
          ∙ ap (λ l. creations c.1 ++ l) s
          ∙ ap (λ l. l ++ []) y,
    )

apply_agent-effects :
    (env : Env) (a : Agent) (o : Option Agent) (rest : List Agent)
    → (creations (apply_agent env a o).1 ++ rest ≡ (if is_none o then a ∷ rest else rest))
      × (deletions (apply_agent env a o).1 ≡ [])
unfolding update_agent
apply_agent-effects env a none rest = ground arith
apply_agent-effects env a (some d) rest = ground arith

apply_agents-effects :
    (env : Env) (current : StringMap Agent) (desired : List Agent)
    → (apply_agents env current desired).0 ≡ ok tt
    → (creations (apply_agents env current desired).1 ≡ keep (is_missing current) desired)
      × (deletions (apply_agents env current desired).1 ≡ [])
unfolding apply_agents
apply_agents-effects env current [] h = (refl, refl)
apply_agents-effects env current (a ∷ desired) h =
    let o = lookup a.metadata.name current in
    let c = apply_agent env a o in
    let d = apply_agents env current desired in
    let (cd, dd, e) = and_call-done c d h in
    let (r, s) = apply_agents-effects env current desired dd in
    let (x, y) = apply_agent-effects env a o (keep (is_missing current) desired) in
    (
      ap creations e ∙ creations-append c.1 d.1 ∙ ap (λ l. creations c.1 ++ l) r ∙ x,
      ap deletions e
          ∙ deletions-append c.1 d.1
          ∙ ap (λ l. deletions c.1 ++ l) s
          ∙ ap (λ l. l ++ []) y,
    )

applied-done :
    (env : Env) (group : Group) (c : Call)
    → (applied env group c).answer ≡ ok tt
    → (c.0 ≡ ok tt) × ((applied env group c).effects ≡ c.1)
applied-done env group (ok tt, es) h = ground arith
applied-done env group (failed e, es) h = ground arith
applied-done env group (panicked, es) h = ground arith

append-nil : (l : List Agent) → l ++ [] ≡ l
append-nil [] = refl
append-nil (x ∷ xs) = ap (λ l. x ∷ l) (append-nil xs)

reconcile_agents-effects :
    (env : Env) (group : Group) (desired agents : List Agent)
    → let o = reconcile_agents env group desired (ok agents) in
      o.answer ≡ ok tt
      → (deletions o.effects ≡ keep (is_missing (agents_to_map desired)) agents)
        × (creations o.effects ≡ keep (is_missing (agents_to_map agents)) desired)
reconcile_agents-effects env group desired agents h =
    let c = delete_agents env (agents_to_map desired) agents in
    let d = apply_agents env (agents_to_map agents) desired in
    let (done, same) = applied-done env group (and_call c d) h in
    let (cd, dd, e) = and_call-done c d done in
    let (r, s) = delete_agents-effects env (agents_to_map desired) agents cd in
    let (x, y) = apply_agents-effects env (agents_to_map agents) desired dd in
    (
      ap deletions (same ∙ e)
          ∙ deletions-append c.1 d.1
          ∙ ap (λ l. deletions c.1 ++ l) y
          ∙ append-nil (deletions c.1)
          ∙ r,
      ap creations (same ∙ e) ∙ creations-append c.1 d.1 ∙ ap (λ l. l ++ creations d.1) s ∙ x,
    )

reconcile_normal_on :
    (env : Env) (group : Group) (desired agents : List Agent)
    → desired_agents env group ≡ ok desired
    → agents_in_group env [] group ≡ ok agents
    → reconcile_normal env group ≡ reconcile_agents env group desired (ok agents)
unfolding reconcile_normal
reconcile_normal_on env group desired agents d a = rw (reconcile_normal, d, a) refl

-- A reconciliation of a group that succeeds deletes, of the agents it finds, exactly those whose
-- name no desired agent has, and creates, of the desired agents, exactly those whose name no agent
-- that it finds has.
pub reconcile_normal-effects :
    (env : Env) (group : Group) (desired agents : List Agent)
    → desired_agents env group ≡ ok desired
    → agents_in_group env [] group ≡ ok agents
    → (reconcile_normal env group).answer ≡ ok tt
    → (deletions (reconcile_normal env group).effects
        ≡ keep (is_missing (agents_to_map desired)) agents)
      × (creations (reconcile_normal env group).effects
          ≡ keep (is_missing (agents_to_map agents)) desired)
reconcile_normal-effects env group desired agents d a h =
    let e = reconcile_normal_on env group desired agents d a in
    let (r, s) =
      reconcile_agents-effects env group desired agents (ap (λ o. o.answer) (sym e) ∙ h) in
    (ap (λ o. deletions o.effects) e ∙ r, ap (λ o. creations o.effects) e ∙ s)
