-- ===== src/Provider/Template/Files.antt =====
-- The files and the variables that
-- cluster-api-provider-kubeforce/controllers/playbook/reconciler.go gives to a remote object.
use kubeforce.Base.{
  ◌≡◌, refl, String, Option, none, some, [], ◌∷◌, StringMap, arith, Distinct, Distinct-Within,
  first_some, lookup-merge, merge_same, merge, lookup,
}
use kubeforce.Provider.Types.{ok, panicked, ControlObject, TemplateSpec}
use kubeforce.Provider.Template.{Env, Vars, entries, merge_vars, create_labels}
use kubeforce.Provider.Template.Create.{
  create_playbook, files_created, new_deployment, desired_deployment,
}

-- A variable of the object's templates overrides the variable of the same name that the caller
-- passes, and every other variable of the caller is kept.
pub lookup-merge_vars :
    {V : Type 0} (vars1 : Vars V) (vars2 : StringMap V) (key : String)
    → Distinct (entries vars1)
    → Distinct vars2
    → lookup key (entries (merge_vars vars1 vars2))
      ≡ first_some (lookup key vars2) (lookup key (entries vars1))
unfolding merge_vars lookup
lookup-merge_vars vars1 [] key d e = refl
lookup-merge_vars vars1 (v ∷ vars2) key d e = ground (
  arith,
  lookup-merge (v ∷ vars2) (merge (entries vars1) []) key e,
  lookup-merge (entries vars1) [] key d,
)

-- Where the template has no files and variables are passed that can be marshalled, creating the
-- playbook panics and sends nothing.
pub create_playbook_panics :
    {V : Type 0} (env : Env V) (obj : ControlObject V) (tmpl : TemplateSpec) (role content : String)
    (v : String × V) (vars : StringMap V)
    → tmpl.spec.files ≡ none
    → env.marshal (v ∷ vars) ≡ ok content
    → create_playbook env obj tmpl role (some (v ∷ vars)) ≡ (panicked, [])
unfolding create_playbook files_created
create_playbook_panics env obj tmpl role content v vars h m = ground (arith, h, m)

-- Setting a deployment that was created with some files to the same template, role and files
-- changes nothing, where the cluster label is none of the other labels.
pub desired-new_deployment :
    {V : Type 0} (env : Env V) (obj : ControlObject V) (tmpl : TemplateSpec) (role : String)
    (files : Option (StringMap String))
    → Distinct (create_labels env obj role)
    → desired_deployment env obj (new_deployment env obj tmpl role files) tmpl role files
      ≡ new_deployment env obj tmpl role files
unfolding desired_deployment new_deployment
desired-new_deployment env obj tmpl role files d =
    let labels = create_labels env obj role in
    rw (merge_same labels labels (Distinct-Within labels d)) refl
