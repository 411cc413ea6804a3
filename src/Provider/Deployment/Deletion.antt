-- ===== src/Provider/Deployment/Deletion.antt =====
-- When the finalizer of a PlaybookDeployment is removed
-- (cluster-api-provider-kubeforce/controllers/playbookdeployment_controller.go).
use kubeforce.Base.{
  ◌≡◌, refl, ◌∙◌, ℕ, ◌-◌, ◌==◌, String, Bool, true, false, ◌||◌, ◌&&◌, Option, none, some, List,
  arith, leb, str_eq, if◌then◌else◌, Bool-cases, Option-cases, inl, inr,
}
use kubeforce.Api.{Error, is_not_found, is_deleted}
use kubeforce.Provider.Types.{Answer, Answer-cases, ok, failed, Agent, RemoteDeployment}
use kubeforce.Provider.Handler.{Exit, going, returned, crashed, and_returned}
use kubeforce.Provider.Remote.{is_healthy}
use kubeforce.Provider.Playbook.Delete.{seconds}
use kubeforce.Provider.Deployment.{Env, Effect, ExternalDeployment, playbook_deployment_finalizer}
use kubeforce.Provider.Deployment.Delete.{
  Action, get_agent, remove_finalizer, delete_on_agent, delete_with_agent, delete_external,
  after_deletion, reconcile_delete,
}

abbrev pub is_gone_by : Option Error → Answer ExternalDeployment → Bool
is_gone_by none (failed e) = is_not_found e
is_gone_by _ _ = false

-- The client of the agent is there, and the external deployment is not found.
abbrev pub is_gone : Env → Agent → String → Bool
is_gone env a name =
    is_gone_by (env.client_set a.metadata.namespace a.metadata.name) (env.get_external name)

-- An agent that answers no more, is being deleted itself, and has had a minute.
abbrev pub is_given_up : Env → Agent → RemoteDeployment → Bool
is_given_up env a pd =
    is_deleted a.metadata && leb (seconds 60) (env.now - pd.metadata.deletion_timestamp)

abbrev pub is_released_by : Env → RemoteDeployment → Answer Agent → Bool
is_released_by env pd (ok a) =
    if is_healthy env.conds a then is_gone env a pd.status.external_name else is_given_up env a pd
is_released_by env pd _ = false

abbrev pub is_released : Env → RemoteDeployment → Bool
is_released env pd = str_eq pd.status.external_name "" || is_released_by env pd (get_agent env pd)

-- A result that is zero without an error.
abbrev releases : Exit (Unit {0}) → Bool
releases (going u) = true
releases (returned after none) = after == 0
releases (returned after (some e)) = false
releases crashed = false

-- The object has the same metadata, and the result is zero exactly if `b`.
abbrev Leaves : Bool → RemoteDeployment → Action (Unit {0}) → Type 0
Leaves b pd m = ((m pd).1.metadata ≡ pd.metadata) × (releases (m pd).0 ≡ b)

delete_on_agent-Leaves :
    (env : Env) (a : Agent) (name : String) (pd : RemoteDeployment)
    → Leaves (is_gone env a name) pd (delete_on_agent env a name)
unfolding delete_on_agent
delete_on_agent-Leaves env a name pd =
    elim (Option-cases (env.client_set a.metadata.namespace a.metadata.name)) [
      | inl c ↦ elim (Answer-cases (env.get_external name)) [
        | inl (ext, g) ↦ elim (Bool-cases (is_deleted ext.metadata)) [
          | inl d ↦ rw c (rw g (rw d (refl, refl)))
          | inr d ↦ elim (Option-cases (env.delete_external name)) [
            | inl x ↦ rw c (rw g (rw d (rw x (refl, refl))))
            | inr (e, x) ↦ rw c (rw g (rw d (rw x (refl, refl))))
          ]
        ]
        | inr (inl (e, g)) ↦ elim (Bool-cases (is_not_found e)) [
          | inl n ↦ rw c (rw g (rw n (refl, refl)))
          | inr n ↦ rw c (rw g (rw n (refl, refl)))
        ]
        | inr (inr g) ↦ rw c (rw g (refl, refl))
      ]
      | inr (e, c) ↦ rw c (refl, refl)
    ]

delete_with_agent-Leaves :
    (env : Env) (a : Agent) (pd : RemoteDeployment)
    → Leaves (is_released_by env pd (ok a)) pd (delete_with_agent env a pd)
unfolding delete_with_agent
delete_with_agent-Leaves env a pd = elim (Bool-cases (is_healthy env.conds a)) [
  | inl e ↦ rw e (delete_on_agent-Leaves env a pd.status.external_name pd)
  | inr e ↦ ground arith
]

delete_external-Leaves :
    (env : Env) (pd : RemoteDeployment) → Leaves (is_released env pd) pd (delete_external env)
unfolding delete_external
delete_external-Leaves env pd = elim (Bool-cases (str_eq pd.status.external_name "")) [
  | inl n ↦ rw n (refl, refl)
  | inr n ↦ elim (Answer-cases (get_agent env pd)) [
    | inl (a, e) ↦ rw n (rw e (delete_with_agent-Leaves env a pd))
    | inr (inl (x, e)) ↦ rw n (rw e (refl, refl))
    | inr (inr e) ↦ rw n (rw e (refl, refl))
  ]
]

after_deletion-finalizers :
    (env : Env) (after : ℕ) (err : Option Error) (pd : RemoteDeployment)
    → (after_deletion env after err pd).1.metadata.finalizers ≡ (
        if releases (returned after err)
        then (remove_finalizer env pd).metadata.finalizers
        else pd.metadata.finalizers)
after_deletion-finalizers env after none pd = ground arith
after_deletion-finalizers env after (some e) pd = refl

and_returned-finalizers :
    (env : Env) (pd : RemoteDeployment) (x : Exit (Unit {0})) (pd' : RemoteDeployment)
    (es : List Effect)
    → pd'.metadata ≡ pd.metadata
    → (and_returned (after_deletion env) x pd' es).1.metadata.finalizers ≡ (
        if releases x
        then (remove_finalizer env pd).metadata.finalizers
        else pd.metadata.finalizers)
and_returned-finalizers env pd (going u) pd' es m = rw m refl
and_returned-finalizers env pd (returned after err) pd' es m =
    after_deletion-finalizers env after err pd' ∙ rw m refl
and_returned-finalizers env pd crashed pd' es m = rw m refl

-- Deleting a PlaybookDeployment that has the finalizer removes it exactly if nothing was created on
-- an agent, the agent answers and has no such deployment, or the agent is not healthy, is being
-- deleted and the deletion of the PlaybookDeployment is at least 60 seconds old; else the
-- finalizers stay.
pub reconcile_delete-released :
    (env : Env) (pd : RemoteDeployment)
    → env.finalizers.contains pd.metadata.finalizers playbook_deployment_finalizer ≡ true
    → (reconcile_delete env pd).1.metadata.finalizers ≡ (
        if is_released env pd
        then (remove_finalizer env pd).metadata.finalizers
        else pd.metadata.finalizers)
unfolding reconcile_delete
reconcile_delete-released env pd h =
    let (m, r) = delete_external-Leaves env pd in
    let (x, pd', es) = delete_external env pd in
    rw h (and_returned-finalizers env pd x pd' es m ∙ rw r refl)
