-- ===== src/Provider/Template/Writes.antt =====
-- How often one call of `Reconcile` of
-- cluster-api-provider-kubeforce/controllers/playbook/reconciler.go writes a remote object.
use kubeforce.Base.{
  ◌≡◌, ℕ, ◌+◌, ◌≤◌, suc, String, Bool, true, Option, none, some, List, [], ◌∷◌, ◌++◌, arith,
}
use kubeforce.Api.{Error}
use kubeforce.Provider.Types.{Answer, ok, ControlObject, PlaybookTemplates}
use kubeforce.Provider.Template.{
  Env, Effect, created_playbook, created_deployment, patched_deployment, patched_object, Vars,
  Reference, get_references, merge_vars,
}
use kubeforce.Provider.Template.Create.{create_playbook, create_deployment, update_deployment}
use kubeforce.Provider.Template.Reconcile.{
  Outcome, reconcile_playbook, reconcile_deployment, reconcile_reference, reconcile_references,
  reconcile, reconcile_type, reconcile_templates, reconcile_any, with_patch, condition_of,
}

-- Creations and patches of playbooks and deployments.
abbrev pub writes : {V : Type 0} → List (Effect V) → ℕ
writes [] = 0
writes (patched_object o ∷ es) = writes es
writes (e ∷ es) = suc (writes es)

abbrev pub is_done : Answer Bool → ℕ
is_done (ok true) = 1
is_done _ = 0

writes-append : {V : Type 0} (es fs : List (Effect V)) → writes (es ++ fs) ≡ writes es + writes fs
writes-append [] fs = omega arith
writes-append (patched_object o ∷ es) fs = writes-append es fs
writes-append (created_playbook o ∷ es) fs = omega (arith, writes-append es fs)
writes-append (created_deployment o ∷ es) fs = omega (arith, writes-append es fs)
writes-append (patched_deployment o ∷ es) fs = omega (arith, writes-append es fs)

reconcile_playbook-writes :
    {V : Type 0} (env : Env V) (obj : ControlObject V) (ref : Reference) (vars : Vars V)
    → let o = reconcile_playbook env obj ref vars in writes o.effects + is_done o.answer ≤ 1
unfolding reconcile_playbook create_playbook
reconcile_playbook-writes env obj ref vars = ground arith

reconcile_deployment-writes :
    {V : Type 0} (env : Env V) (obj : ControlObject V) (ref : Reference) (vars : Vars V)
    → let o = reconcile_deployment env obj ref vars in writes o.effects + is_done o.answer ≤ 1
unfolding reconcile_deployment create_deployment update_deployment
reconcile_deployment-writes env obj ref vars = ground arith

reconcile_reference-writes :
    {V : Type 0} (env : Env V) (obj : ControlObject V) (ref : Reference) (vars : Vars V)
    → let o = reconcile_reference env obj ref vars in writes o.effects + is_done o.answer ≤ 1
unfolding reconcile_reference
reconcile_reference-writes env obj ref vars = ground (
  arith,
  reconcile_playbook-writes env obj ref vars,
  reconcile_deployment-writes env obj ref vars,
)

reconcile_references-writes :
    {V : Type 0} (env : Env V) (cond : String) (vars : Vars V) (refs : List Reference)
    (obj : ControlObject V)
    → let o = reconcile_references env cond vars refs obj in writes o.effects + is_done o.answer ≤ 1
unfolding reconcile_references
reconcile_references-writes env cond vars [] obj = omega arith
reconcile_references-writes env cond vars (ref ∷ refs) obj =
    let o = reconcile_reference env obj ref vars in
    let rest = reconcile_references env cond vars refs o.object in
    ground (
      arith,
      writes-append o.effects rest.effects,
      reconcile_reference-writes env obj ref vars,
      reconcile_references-writes env cond vars refs o.object,
    )

reconcile_type-writes :
    {V : Type 0} (env : Env V) (obj : ControlObject V) (ts : PlaybookTemplates V) (type : String)
    (vars : Vars V) (cond : Option String)
    → let o = reconcile_type env obj ts type vars cond in writes o.effects + is_done o.answer ≤ 1
reconcile_type-writes env obj ts type vars none = omega arith
reconcile_type-writes env obj ts type vars (some cond) =
    reconcile_references-writes env cond (merge_vars vars ts.variables)
      (get_references ts.references type) obj

with_patch-writes :
    {V : Type 0} (o : Outcome V)
    → let p = with_patch o in
      writes p.effects + is_done p.answer ≡ writes o.effects + is_done o.answer
with_patch-writes o = omega (arith, writes-append o.effects (patched_object o.object ∷ []))

reconcile_templates-writes :
    {V : Type 0} (env : Env V) (obj : ControlObject V) (ts : PlaybookTemplates V) (type : String)
    (vars : Vars V) (helper : Option Error)
    → let o = reconcile_templates env obj ts type vars helper in
      writes o.effects + is_done o.answer ≤ 1
reconcile_templates-writes env obj ts type vars (some e) = omega arith
reconcile_templates-writes env obj ts type vars none = omega (
  arith,
  with_patch-writes (reconcile_type env obj ts type vars (condition_of type)),
  reconcile_type-writes env obj ts type vars (condition_of type),
)

reconcile_any-writes :
    {V : Type 0} (env : Env V) (obj : ControlObject V) (type : String) (vars : Vars V)
    (templates : Option (PlaybookTemplates V))
    → let o = reconcile_any env obj type vars templates in writes o.effects + is_done o.answer ≤ 1
reconcile_any-writes env obj type vars none = omega arith
reconcile_any-writes env obj type vars (some ts) =
    reconcile_templates-writes env obj ts type vars env.new_helper

-- A call of `Reconcile` creates or patches at most one playbook or playbook deployment, and none
-- when it answers that every playbook is ready.
pub reconcile-writes :
    {V : Type 0} (env : Env V) (obj : ControlObject V) (type : String) (vars : Vars V)
    → let o = reconcile env obj type vars in writes o.effects + is_done o.answer ≤ 1
unfolding reconcile
reconcile-writes env obj type vars = reconcile_any-writes env obj type vars obj.templates
