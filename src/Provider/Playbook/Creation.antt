-- ===== src/Provider/Playbook/Creation.antt =====
-- When a Playbook is created on an agent, and the phases of a Playbook
-- (cluster-api-provider-kubeforce/controllers/playbook_controller.go).
use kubeforce.Base.{
  ◌≡◌, refl, ◌∙◌, String, Bool, true, false, not, ◌&&◌, Option, none, some, List, [], ◌∷◌,
  StringMap, ◌⊎◌, insert, arith, str_eq, str_eq_iff, if◌then◌else◌, Bool-cases, inl, inr,
}
use kubeforce.Api.{is_nil, is_deleted}
use kubeforce.Provider.Types.{Answer, Answer-cases, ok, failed, panicked, Agent, RemotePlaybook}
use kubeforce.Provider.Remote.{ConditionOps, is_healthy, assign_label}
use kubeforce.Provider.Playbook.{
  Env, Effect, created, ExternalPlaybook, execution, failed_type, find_external, new_external,
  reconcile_phase, should_adopt,
}
use kubeforce.Provider.Playbook.Sync.{
  on_found, sync_found, sync_client, sync_agent, has_ended, adopted, with_labels, reconcile_normal,
}
use kubeforce.Provider.Playbook.Delete.{get_agent}

abbrev pub is_absent : Answer (Option ExternalPlaybook) → Bool
is_absent (ok none) = true
is_absent _ = false

abbrev pub is_empty : StringMap String → Bool
is_empty [] = true
is_empty (l ∷ ls) = false

abbrev pub has_labels : RemotePlaybook → Bool
has_labels pb = not (is_empty pb.metadata.labels)

-- The agent can be asked, has no external playbook of the name, and none was created before.
abbrev pub is_free : Env → RemotePlaybook → Agent → Bool
is_free env pb a =
    not (env.has_paused a.metadata)
    && is_healthy env.conds a
    && is_nil (env.client_set a.metadata.namespace a.metadata.name)
    && is_absent (find_external env pb)
    && str_eq pb.status.external_name ""

abbrev pub is_due_on : Env → RemotePlaybook → Answer Agent → Bool
is_due_on env pb (ok a) = has_labels pb && is_free env pb a
is_due_on env pb _ = false

abbrev pub is_due : Env → RemotePlaybook → Bool
is_due env pb = not (has_ended env pb) && is_due_on env pb (get_agent env pb)

abbrev pub creation : Bool → RemotePlaybook → List Effect
creation due pb = if due then created (new_external pb) ∷ [] else []

on_found-creation :
    (env : Env) (found : Option ExternalPlaybook) (pb : RemotePlaybook)
    → (on_found env found pb).2
      ≡ creation (is_absent (ok found) && str_eq pb.status.external_name "") pb
unfolding on_found
on_found-creation env none pb = ground arith
on_found-creation env (some ext) pb = ground arith

sync_found-creation :
    (env : Env) (a : Answer (Option ExternalPlaybook)) (pb : RemotePlaybook)
    → (sync_found env a pb).2 ≡ creation (is_absent a && str_eq pb.status.external_name "") pb
sync_found-creation env (ok x) pb = on_found-creation env x pb
sync_found-creation env (failed e) pb = refl
sync_found-creation env panicked pb = refl

sync_client-creation :
    (env : Env) (a : Agent) (pb s : RemotePlaybook)
    → s.status.external_name ≡ pb.status.external_name
    → new_external s ≡ new_external pb
    → (sync_client env a pb s).2 ≡ creation (is_free env pb a) pb
unfolding sync_client
sync_client-creation env a pb s n e =
    ground (arith, sync_found-creation env (find_external env pb) s)

assign_label-cases :
    (labels : StringMap String) (k v : String)
    → ((is_empty labels ≡ true) × (assign_label labels k v ≡ panicked))
      ⊎ ((is_empty labels ≡ false) × ((ls : StringMap String) × (assign_label labels k v ≡ ok ls)))
assign_label-cases [] k v = inl (refl, refl)
assign_label-cases (l ∷ ls) k v = inr (refl, (insert k v (l ∷ ls), refl))

adopted-new_external :
    (env : Env) (a : Agent) (pb : RemotePlaybook)
    → (new_external (adopted env a pb) ≡ new_external pb)
      × ((adopted env a pb).status.external_name ≡ pb.status.external_name)
unfolding new_external
adopted-new_external env a pb = elim (Bool-cases (should_adopt env pb.metadata.owner_references)) [
  | inl e ↦ rw e (refl, refl)
  | inr e ↦ rw e (refl, refl)
]

with_labels-new_external :
    (ls : StringMap String) (pb : RemotePlaybook)
    → new_external (with_labels ls pb) ≡ new_external pb
unfolding new_external
with_labels-new_external ls pb = refl

sync_agent-creation :
    (env : Env) (a : Agent) (pb : RemotePlaybook)
    → (sync_agent env a pb pb).2 ≡ creation (has_labels pb && is_free env pb a) pb
unfolding sync_agent
sync_agent-creation env a pb =
    elim (assign_label-cases pb.metadata.labels "playbook.infrastructure.cluster.x-k8s.io/agent"
      a.metadata.name) [
        | inl (n, e) ↦ rw e (rw n refl)
        | inr (n, (ls, e)) ↦
            let s = with_labels ls pb in
            let (same, name) = adopted-new_external env a s in
            rw e (
              rw n (
                sync_client-creation env a pb (adopted env a s) name
                  (same ∙ with_labels-new_external ls pb)))
      ]

-- A reconciliation of a Playbook that is not being deleted sends exactly one creation to the agent
-- if it is due, and nothing otherwise: it is due if the Playbook has not ended, has a label, and was
-- not created before, and its agent is found, not paused and healthy, has a client, and lists none.
pub reconcile_normal-creation :
    (env : Env) (pb : RemotePlaybook) → (reconcile_normal env pb).2 ≡ creation (is_due env pb) pb
unfolding reconcile_normal
reconcile_normal-creation env pb = elim (Bool-cases (has_ended env pb)) [
  | inl e ↦ rw e refl
  | inr e ↦ elim (Answer-cases (get_agent env pb)) [
    | inl (a, g) ↦ rw e (rw g (sync_agent-creation env a pb))
    | inr (inl (x, g)) ↦ rw e (rw g refl)
    | inr (inr g) ↦ rw e (rw g refl)
  ]
]

provisioning-ne-empty : str_eq "Provisioning" "" ≡ false
unfolding str_eq
provisioning-ne-empty = refl

-- A Playbook without failure that is not being deleted, of which no condition is true, is
-- Provisioning after the first reconciliation, and Unknown after the second.
pub reconcile_phase_twice :
    (conds : ConditionOps) (pb : RemotePlaybook)
    → pb.status.failure_reason ≡ ""
    → pb.status.failure_message ≡ ""
    → pb.status.phase ≡ ""
    → is_deleted pb.metadata ≡ false
    → conds.get pb.status.conditions failed_type ≡ none
    → conds.is_true pb.status.conditions execution ≡ false
    → conds.is_true pb.status.conditions "Synced" ≡ false
    → let once = reconcile_phase conds pb in
      (once.status.phase ≡ "Provisioning") × ((reconcile_phase conds once).status.phase ≡ "Unknown")
unfolding reconcile_phase
reconcile_phase_twice conds pb r m p d f e s =
    let no_reason : str_eq pb.status.failure_reason "" ≡ true = (str_eq_iff _ _).1 r in
    let no_message : str_eq pb.status.failure_message "" ≡ true = (str_eq_iff _ _).1 m in
    let no_phase : str_eq pb.status.phase "" ≡ true = (str_eq_iff _ _).1 p in
    (
      rw no_reason (rw no_message (rw d (rw f (rw e (rw s (rw no_phase refl)))))),
      rw no_reason (
          rw no_message (
            rw d (
              rw f (
                rw e (
                  rw s (
                    rw no_phase (
                      rw no_reason (
                        rw no_message
                          (rw d (rw f (rw e (rw s (rw provisioning-ne-empty refl))))))))))))),
    )
