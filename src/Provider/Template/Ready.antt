-- ===== src/Provider/Template/Ready.antt =====
-- What the answer of `Reconcile` of
-- cluster-api-provider-kubeforce/controllers/playbook/reconciler.go says of the remote objects.
use kubeforce.Base.{
  ◌≡◌, refl, sym, ap, ◌∙◌, ◌⊎◌, inl, inr, String, Bool, true, false, Option, none, some, List, [],
  ◌∷◌, arith, str_eq, str_eq_iff, All, Bool-cases,
}
use kubeforce.Api.{Error}
use kubeforce.Provider.Types.{
  Answer, ok, failed, panicked, ControlObject, RemotePlaybook, RemoteDeployment, PlaybookTemplates,
  TemplateSpec,
}
use kubeforce.Provider.Template.{
  Env, Vars, Reference, only_one, create_labels, Effect, find_playbook_by_role,
  find_deployment_by_role, get_references, merge_vars,
}
use kubeforce.Provider.Template.Create.{create_playbook, create_deployment, update_deployment}
use kubeforce.Provider.Template.Reconcile.{
  Outcome, has_succeeded, reconcile_playbook, reconcile_deployment, reconcile_reference,
  reconcile_references, playbook_step, deployment_step, reconcile, reconcile_type,
  reconcile_templates, reconcile_any, continue, condition_of,
}

-- The reference has exactly one remote object, which is in step and has succeeded.
abbrev pub PlaybookDone : {V : Type 0} → Env V → ControlObject V → Reference → Type 0
PlaybookDone env obj ref =
    (p : RemotePlaybook) × (env.list_playbooks (create_labels env obj ref.role) ≡ ok (p ∷ []))
    × (has_succeeded env p.status ≡ true)

abbrev pub DeploymentDone : {V : Type 0} → Env V → ControlObject V → Reference → Type 0
DeploymentDone env obj ref =
    (p : RemoteDeployment) × (env.list_deployments (create_labels env obj ref.role) ≡ ok (p ∷ []))
    × (has_succeeded env p.status ≡ true)

abbrev pub ReferenceDone : {V : Type 0} → Env V → ControlObject V → Reference → Type 0
ReferenceDone env obj ref =
    ((ref.ref.kind ≡ "PlaybookTemplate") × PlaybookDone env obj ref)
    ⊎ ((ref.ref.kind ≡ "PlaybookDeploymentTemplate") × DeploymentDone env obj ref)

abbrev is_ok : {A : Type 0} → Answer A → Bool
is_ok (ok a) = true
is_ok _ = false

answered : {A : Type 0} (a : Answer A) → is_ok a ≡ true → (x : A) × (a ≡ ok x)
answered (ok x) h = (x, refl)
answered (failed e) h = ground arith
answered panicked h = ground arith

only_one-ok :
    {V A : Type 0} (env : Env V) (kind role : String) (a : Answer (List A)) (x : A)
    → only_one env kind role a ≡ ok (some x)
    → a ≡ ok (x ∷ [])
only_one-ok env kind role (ok []) x h = ground arith
only_one-ok env kind role (ok (y ∷ [])) x h = ground arith
only_one-ok env kind role (ok (y ∷ z ∷ ys)) x h = ground arith
only_one-ok env kind role (failed e) x h = ground arith
only_one-ok env kind role panicked x h = ground arith

playbook_step-done :
    {V : Type 0} (env : Env V) (obj : ControlObject V) (role : String) (vars : Vars V)
    (found : Option RemotePlaybook) (tmpl : TemplateSpec)
    → (playbook_step env obj role vars found tmpl).answer ≡ ok true
    → (p : RemotePlaybook) × (found ≡ some p) × (has_succeeded env p.status ≡ true)
unfolding create_playbook
playbook_step-done env obj role vars none tmpl h = ground arith
playbook_step-done env obj role vars (some p) tmpl h = (p, refl, ground arith)

deployment_step-done :
    {V : Type 0} (env : Env V) (obj : ControlObject V) (role : String) (vars : Vars V)
    (found : Option RemoteDeployment) (tmpl : TemplateSpec)
    → (deployment_step env obj role vars found tmpl).answer ≡ ok true
    → (p : RemoteDeployment) × (found ≡ some p) × (has_succeeded env p.status ≡ true)
unfolding create_deployment
deployment_step-done env obj role vars none tmpl h = ground arith
deployment_step-done env obj role vars (some p) tmpl h = (p, refl, ground arith)

reconcile_playbook-PlaybookDone :
    {V : Type 0} (env : Env V) (obj : ControlObject V) (ref : Reference) (vars : Vars V)
    → (reconcile_playbook env obj ref vars).answer ≡ ok true
    → PlaybookDone env obj ref
unfolding reconcile_playbook find_playbook_by_role
reconcile_playbook-PlaybookDone env obj ref vars h =
    let (f, found) = answered (find_playbook_by_role env obj ref.role) (ground arith) in
    let (tmpl, got) =
      answered (env.get_playbook_template ref.ref.namespace ref.ref.name) (ground arith) in
    let (p, e, s) = playbook_step-done env obj ref.role vars f tmpl (ground arith) in
    (
      p,
      only_one-ok env "Playbook" ref.role (env.list_playbooks (create_labels env obj ref.role)) p
          (found ∙ ap ok e),
      s,
    )

reconcile_deployment-DeploymentDone :
    {V : Type 0} (env : Env V) (obj : ControlObject V) (ref : Reference) (vars : Vars V)
    → (reconcile_deployment env obj ref vars).answer ≡ ok true
    → DeploymentDone env obj ref
unfolding reconcile_deployment find_deployment_by_role
reconcile_deployment-DeploymentDone env obj ref vars h =
    let (f, found) = answered (find_deployment_by_role env obj ref.role) (ground arith) in
    let (tmpl, got) =
      answered (env.get_deployment_template ref.ref.namespace ref.ref.name) (ground arith) in
    let (p, e, s) = deployment_step-done env obj ref.role vars f tmpl (ground arith) in
    (
      p,
      only_one-ok env "PlaybookDeployment" ref.role
          (env.list_deployments (create_labels env obj ref.role)) p (found ∙ ap ok e),
      s,
    )

reconcile_reference-ReferenceDone :
    {V : Type 0} (env : Env V) (obj : ControlObject V) (ref : Reference) (vars : Vars V)
    → (reconcile_reference env obj ref vars).answer ≡ ok true
    → ReferenceDone env obj ref
unfolding reconcile_reference
reconcile_reference-ReferenceDone env obj ref vars h =
    elim (Bool-cases (str_eq ref.ref.kind "PlaybookTemplate")) [
      | inl e ↦ inl (
        (str_eq_iff ref.ref.kind "PlaybookTemplate").0 e,
        reconcile_playbook-PlaybookDone env obj ref vars (ground arith),
      )
      | inr e ↦ inr (
        (str_eq_iff ref.ref.kind "PlaybookDeploymentTemplate").0 (ground arith),
        reconcile_deployment-DeploymentDone env obj ref vars (ground arith),
      )
    ]

-- A visit changes nothing that the labels are made of.
reconcile_reference-labels :
    {V : Type 0} (env : Env V) (obj : ControlObject V) (ref : Reference) (vars : Vars V)
    (role : String)
    → create_labels env (reconcile_reference env obj ref vars).object role
      ≡ create_labels env obj role
unfolding reconcile_reference reconcile_playbook reconcile_deployment create_labels create_playbook
    create_deployment update_deployment
reconcile_reference-labels env obj ref vars role = ground arith

ReferenceDone-labels :
    {V : Type 0} (env : Env V) (obj obj' : ControlObject V) (ref : Reference)
    → create_labels env obj' ref.role ≡ create_labels env obj ref.role
    → ReferenceDone env obj' ref
    → ReferenceDone env obj ref
ReferenceDone-labels env obj obj' ref e (inl (k, (p, l, s))) =
    inl (k, (p, ap env.list_playbooks (sym e) ∙ l, s))
ReferenceDone-labels env obj obj' ref e (inr (k, (p, l, s))) =
    inr (k, (p, ap env.list_deployments (sym e) ∙ l, s))

All-map :
    {A : Type 0} {P Q : A → Type 0} (f : (a : A) → P a → Q a) (xs : List A) → All P xs → All Q xs
All-map f [] a = tt
All-map f (x ∷ xs) (p, ps) = (f x p, All-map f xs ps)

continue-done :
    {V : Type 0} (env : Env V) (cond role : String) (a : Answer Bool) (obj : ControlObject V)
    (es : List (Effect V)) (rest : Outcome V)
    → (continue env cond role a obj es rest).answer ≡ ok true
    → (a ≡ ok true) × (rest.answer ≡ ok true)
continue-done env cond role (ok true) obj es rest h = (refl, h)
continue-done env cond role (ok false) obj es rest h = ground arith
continue-done env cond role (failed e) obj es rest h = ground arith
continue-done env cond role panicked obj es rest h = ground arith

reconcile_references-done :
    {V : Type 0} (env : Env V) (cond : String) (vars : Vars V) (refs : List Reference)
    (obj : ControlObject V)
    → (reconcile_references env cond vars refs obj).answer ≡ ok true
    → All (ReferenceDone env obj) refs
unfolding reconcile_references
reconcile_references-done env cond vars [] obj h = tt
reconcile_references-done env cond vars (ref ∷ refs) obj h =
    let o = reconcile_reference env obj ref vars in
    let (a, r) =
      continue-done env cond ref.role o.answer o.object o.effects
        (reconcile_references env cond vars refs o.object) h in
    (
      reconcile_reference-ReferenceDone env obj ref vars a,
      All-map
          (λ s d.
            ReferenceDone-labels env obj o.object s
              (reconcile_reference-labels env obj ref vars s.role) d)
          refs (reconcile_references-done env cond vars refs o.object r),
    )

reconcile_type-ready :
    {V : Type 0} (env : Env V) (obj : ControlObject V) (ts : PlaybookTemplates V) (type : String)
    (vars : Vars V) (cond : Option String)
    → (reconcile_type env obj ts type vars cond).answer ≡ ok true
    → All (ReferenceDone env obj) (get_references ts.references type)
reconcile_type-ready env obj ts type vars none h = ground arith
reconcile_type-ready env obj ts type vars (some cond) h =
    reconcile_references-done env cond (merge_vars vars ts.variables)
      (get_references ts.references type) obj h

reconcile_templates-ready :
    {V : Type 0} (env : Env V) (obj : ControlObject V) (ts : PlaybookTemplates V) (type : String)
    (vars : Vars V) (helper : Option Error)
    → (reconcile_templates env obj ts type vars helper).answer ≡ ok true
    → All (ReferenceDone env obj) (get_references ts.references type)
reconcile_templates-ready env obj ts type vars (some e) h = ground arith
reconcile_templates-ready env obj ts type vars none h =
    reconcile_type-ready env obj ts type vars (condition_of type) h

-- Where an object has templates, `Reconcile` answers that they are ready only if every template of
-- the type in question has exactly one remote object under its labels, a playbook or a playbook
-- deployment as the kind of the template says, whose condition Synced is true and whose remote
-- phase is Succeeded.
pub reconcile_ready :
    {V : Type 0} (env : Env V) (obj : ControlObject V) (ts : PlaybookTemplates V) (type : String)
    (vars : Vars V)
    → obj.templates ≡ some ts
    → (reconcile env obj type vars).answer ≡ ok true
    → All (ReferenceDone env obj) (get_references ts.references type)
unfolding reconcile
reconcile_ready env obj ts type vars e h =
    let h' : (reconcile_any env obj type vars (some ts)).answer ≡ ok true =
      ap (λ t. (reconcile_any env obj type vars t).answer) (sym e) ∙ h in
    reconcile_templates-ready env obj ts type vars env.new_helper h'
