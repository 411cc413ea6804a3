-- ===== src/Provider/Deployment/Stable.antt =====
-- That an external deployment is not patched again
-- (cluster-api-provider-kubeforce/controllers/playbookdeployment_controller.go).
use kubeforce.Base.{◌≡◌, refl, ℕ, false, Option, [], arith, Option-cases, inl, inr}
use kubeforce.Api.{ObjectMeta}
use kubeforce.Agent.Deployment.{DeploymentStatus}
use kubeforce.Agent.Types.{Policy, or_default}
use kubeforce.Provider.Types.{Answer-cases, ok, RemoteDeployment, has_changes}
use kubeforce.Provider.Deployment.{
  Env, ExternalDeployment, updated_external, new_external, to_external_spec,
}
use kubeforce.Provider.Deployment.Sync.{update_external}

-- A patch from an object to itself has no fields.
abbrev pub HasNoChanges : Env → ExternalDeployment → Type 0
HasNoChanges env x = has_changes env.patch_data env.unmarshal env.wrapf x x ≡ ok false

update_external-same :
    (env : Env) (pd : RemoteDeployment) (x : ExternalDeployment)
    → HasNoChanges env x
    → updated_external pd x ≡ x
    → update_external env pd x ≡ (ok false, [])
unfolding update_external has_changes
update_external-same env pd x h e = elim (Answer-cases (env.patch_data x x)) [
  | inl (diff, d) ↦ rw (update_external, e) (rw h (rw e (rw d refl)))
  | inr (inl (y, d)) ↦ ground arith
  | inr (inr d) ↦ ground arith
]

-- What the agent stores of a deployment that was sent to it: metadata and a status of its own, such as
-- a name, a finalizer and a phase, its own defaults for the policy, and for the limit where none is
-- given.
abbrev pub stored :
    ObjectMeta → DeploymentStatus → Option Policy → ℕ → ExternalDeployment → ExternalDeployment
stored metadata status policy limit x = record x {
  metadata = metadata;
  status = status;
  spec = record x.spec {
    template_spec = record x.spec.template_spec { policy = policy };
    revision_history_limit = or_default x.spec.revision_history_limit limit;
  };
}

updated_external-stored :
    (pd : RemoteDeployment) (metadata : ObjectMeta) (status : DeploymentStatus)
    (policy : Option Policy) (limit : ℕ)
    → updated_external pd (stored metadata status policy limit (new_external pd))
      ≡ stored metadata status policy limit (new_external pd)
unfolding updated_external new_external to_external_spec
updated_external-stored pd metadata status policy limit =
    elim (Option-cases pd.revision_history_limit) [ inl e ↦ rw e refl | inr (n, e) ↦ rw e refl ]

updated_external-again :
    (pd : RemoteDeployment) (x : ExternalDeployment)
    → updated_external pd (updated_external pd x) ≡ updated_external pd x
unfolding updated_external
updated_external-again pd x = elim (Option-cases pd.revision_history_limit) [
  | inl e ↦ rw e refl
  | inr (n, e) ↦ rw e refl
]

-- Neither the external deployment that a reconciliation has created, with whatever metadata, status,
-- policy and limit the agent has given it since, nor the one that it has patched, is patched for the
-- same specification again, where a patch from an object to itself has no fields.
pub update_external_again :
    (env : Env) (pd : RemoteDeployment) (metadata : ObjectMeta) (status : DeploymentStatus)
    (policy : Option Policy) (limit : ℕ) (x : ExternalDeployment)
    → ((y : ExternalDeployment) → HasNoChanges env y)
    → (update_external env pd (stored metadata status policy limit (new_external pd))
        ≡ (ok false, []))
      × (update_external env pd (updated_external pd x) ≡ (ok false, []))
update_external_again env pd metadata status policy limit x h = (
  update_external-same env pd (stored metadata status policy limit (new_external pd)) (h _)
      (updated_external-stored pd metadata status policy limit),
  update_external-same env pd (updated_external pd x) (h _) (updated_external-again pd x),
)
