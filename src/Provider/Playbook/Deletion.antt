-- ===== src/Provider/Playbook/Deletion.antt =====
-- When the finalizer of a Playbook is removed
-- (cluster-api-provider-kubeforce/controllers/playbook_controller.go).
use kubeforce.Base.{
  ◌≡◌, refl, ◌-◌, Bool, true, false, ◌||◌, ◌&&◌, Option, none, arith, leb, str_eq, if◌then◌else◌,
  Bool-cases, inl, inr,
}
use kubeforce.Api.{Error, is_not_found, is_deleted}
use kubeforce.Provider.Types.{Answer, Answer-cases, ok, failed, panicked, Agent, RemotePlaybook}
use kubeforce.Provider.Remote.{is_healthy}
use kubeforce.Provider.Playbook.{Env, ExternalPlaybook, playbook_finalizer}
use kubeforce.Provider.Playbook.Delete.{
  seconds, get_agent, remove_finalizer, delete_external, delete_on_agent, reconcile_delete,
  on_deleted,
}

-- The client of the agent is there, and the external playbook is not found.
abbrev pub is_gone_by : Option Error → Answer ExternalPlaybook → Bool
is_gone_by none (failed e) = is_not_found e
is_gone_by _ _ = false

abbrev pub is_gone : Env → Agent → RemotePlaybook → Bool
is_gone env a pb =
    is_gone_by (env.client_set a.metadata.namespace a.metadata.name)
      (env.get_external pb.status.external_name)

-- An agent that answers no more, is being deleted itself, and has had a minute.
abbrev pub is_given_up : Env → Agent → RemotePlaybook → Bool
is_given_up env a pb =
    is_deleted a.metadata && leb (seconds 60) (env.now - pb.metadata.deletion_timestamp)

abbrev pub is_released_by : Env → RemotePlaybook → Answer Agent → Bool
is_released_by env pb (ok a) =
    if is_healthy env.conds a then is_gone env a pb else is_given_up env a pb
is_released_by env pb _ = false

abbrev pub is_released : Env → RemotePlaybook → Bool
is_released env pb = str_eq pb.status.external_name "" || is_released_by env pb (get_agent env pb)

abbrev is_done : Answer Bool → Bool
is_done (ok b) = b
is_done _ = false

delete_external-is_gone :
    (env : Env) (a : Agent) (pb : RemotePlaybook)
    → is_done (delete_external env a pb).0 ≡ is_gone env a pb
unfolding delete_external
delete_external-is_gone env a pb = ground arith

on_deleted-finalizers :
    (env : Env) (answer : Answer Bool) (pb : RemotePlaybook)
    → (on_deleted env answer pb).1.metadata.finalizers ≡ (
        if is_done answer
        then (remove_finalizer env pb).metadata.finalizers
        else pb.metadata.finalizers)
on_deleted-finalizers env (ok true) pb = refl
on_deleted-finalizers env (ok false) pb = refl
on_deleted-finalizers env (failed e) pb = refl
on_deleted-finalizers env panicked pb = refl

delete_on_agent-finalizers :
    (env : Env) (a : Agent) (pb : RemotePlaybook)
    → (delete_on_agent env a pb pb).1.metadata.finalizers ≡ (
        if is_released_by env pb (ok a)
        then (remove_finalizer env pb).metadata.finalizers
        else pb.metadata.finalizers)
unfolding delete_on_agent
delete_on_agent-finalizers env a pb = elim (Bool-cases (is_healthy env.conds a)) [
  | inl e ↦
      rw (e, ← delete_external-is_gone env a pb)
        (on_deleted-finalizers env (delete_external env a pb).0 pb)
  | inr e ↦ ground arith
]

-- Deleting a Playbook that has the finalizer removes it exactly if nothing was created on an agent,
-- the agent answers and has no such playbook, or the agent is not healthy, is being deleted and the
-- deletion of the Playbook is at least 60 seconds old; else the finalizers stay.
pub reconcile_delete-finalizers :
    (env : Env) (pb : RemotePlaybook)
    → env.finalizers.contains pb.metadata.finalizers playbook_finalizer ≡ true
    → (reconcile_delete env pb).1.metadata.finalizers ≡ (
        if is_released env pb
        then (remove_finalizer env pb).metadata.finalizers
        else pb.metadata.finalizers)
unfolding reconcile_delete
reconcile_delete-finalizers env pb h = elim (Bool-cases (str_eq pb.status.external_name "")) [
  | inl n ↦ ground (arith, h, n)
  | inr n ↦ elim (Answer-cases (get_agent env pb)) [
    | inl (a, e) ↦ rw h (rw n (rw e (delete_on_agent-finalizers env a pb)))
    | inr (inl (x, e)) ↦ rw h (rw n (rw e refl))
    | inr (inr e) ↦ rw h (rw n (rw e refl))
  ]
]
