-- ===== src/Provider/KubeforceMachine/Deletion.antt =====
-- When the finalizer of a machine is removed
-- (cluster-api-provider-kubeforce/controllers/kubeforcemachine_controller.go).
use mathlib.Core.Path.{fun_ext}
use kubeforce.Base.{
  ltb, ◌-◌, ◌≡◌, refl, ◌∙◌, ap, sym, [], ◌∷◌, keep, lookup, delete, str_eq, StringMap, String, Bool,
  true, false, not, ◌&&◌, ◌||◌, Option, none, some, List, if◌then◌else◌, Bool-cases, Option-cases,
  inl, inr,
}
use kubeforce.Api.{Error, ObjectMeta, is_nil, is_deleted}
use kubeforce.Provider.Types.{
  Answer, Answer-cases, ok, failed, panicked, Agent, MachineStatus, TemplateReference,
  PlaybookTemplates, RemotePlaybook, RemoteDeployment,
}
use kubeforce.Provider.Handler.{fail, done, when, ◌>>◌, ◌>>=◌}
use kubeforce.Provider.Call.{run}
use kubeforce.Provider.Remote.{is_healthy}
use kubeforce.Provider.Template.{create_labels, text_or_empty}
use kubeforce.Provider.KubeforceMachine.{
  Value, deleted_playbook, deleted_deployment, of_install, of_all, KubeforceMachine, Effect,
  deleting, Sweep, Env, machine_finalizer, Action,
}
use kubeforce.Provider.KubeforceMachine.Cleanup.{
  reconcile_delete_playbooks, reconcile_delete_playbook_deployments, reconcile_templates,
  reconcile_cleaner, is_recent, role_label, labels_of, found, delete_each, delete_listed,
}
use kubeforce.Provider.KubeforceMachine.AgentRef.{label}
use kubeforce.Provider.KubeforceMachine.Delete.{
  install_references, install_templates, has_text, installs, wait_until,
  delete_playbooks_of_install, delete_deployments_of_install, delete_all_playbooks,
  delete_all_deployments, is_cleaned, clean, released_agent, release, delete_rest,
  delete_with_agent, delete_with_ref, reconcile_delete,
}

abbrev pub holds : Answer Bool → Bool
holds (ok b) = b
holds _ = false

-- The objects of a machine and its agent, of any role, are found by these labels.
abbrev pub own_labels : Env → String → KubeforceMachine → StringMap String
own_labels env name m = delete "playbook.infrastructure.cluster.x-k8s.io/role" (
    (
      env.template.cluster_name_label,
      text_or_empty (lookup env.template.cluster_name_label m.metadata.labels),
    )
    ∷ ("playbook.infrastructure.cluster.x-k8s.io/role", "")
    ∷ ("playbook.infrastructure.cluster.x-k8s.io/agent", name)
    ∷ ("playbook.infrastructure.cluster.x-k8s.io/controller-name", m.metadata.name)
    ∷ ("playbook.infrastructure.cluster.x-k8s.io/controller-kind", m.group_kind)
    ∷ [])

-- A role is installed that is the one of the boot playbook or has an install template.
abbrev pub names_install : String → StringMap TemplateReference → Bool
names_install role [] = false
names_install role ((r, ref) ∷ refs) =
    let rest = names_install role refs in (str_eq ref.type "install" && str_eq r role) || rest

abbrev pub template_installs : String → Option (PlaybookTemplates Value) → Bool
template_installs role none = false
template_installs role (some ts) = names_install role ts.references

abbrev pub is_installed : KubeforceMachine → StringMap String → Bool
is_installed m labels =
    let role = text_or_empty (lookup "playbook.infrastructure.cluster.x-k8s.io/role" labels) in
    str_eq "boot" role || template_installs role m.spec.playbook_templates

abbrev is_empty : {A : Type 0} → List A → Bool
is_empty [] = true
is_empty (x ∷ xs) = false

-- An answer is a list in which no object passes the filter.
abbrev pub none_of : {A : Type 0} → (A → Bool) → Answer (List A) → Bool
none_of f (ok xs) = is_empty (keep f xs)
none_of f _ = false

abbrev pub no_playbooks : Env → Sweep → String → KubeforceMachine → (RemotePlaybook → Bool) → Bool
no_playbooks env sweep name m f = none_of f (env.list_playbooks sweep (own_labels env name m))

abbrev pub no_deployments :
    Env → Sweep → String → KubeforceMachine → (RemoteDeployment → Bool) → Bool
no_deployments env sweep name m f = none_of f (env.list_deployments sweep (own_labels env name m))

-- A healthy agent ran the delete templates; another one is itself being deleted, and the deletion of
-- the machine is 60 seconds old.
abbrev pub cleanup_done : Env → String → Agent → KubeforceMachine → Bool
cleanup_done env name a m =
    if is_healthy env.conds a
    then holds (reconcile_templates env name "delete" none m).0
    else (not (ltb (env.now - m.metadata.deletion_timestamp) 60_000_000_000)
        && is_deleted a.metadata)

abbrev pub is_clean : Env → String → Agent → KubeforceMachine → Bool
is_clean env name a m =
    env.conds.is_true m.status.conditions "CleanupPlaybooksCompleted" || cleanup_done env name a m

-- The agent without the labels that name its machine and its cluster.
abbrev pub unlabelled : Env → Agent → Agent
unlabelled env a = record a {
  metadata = record a.metadata {
    labels =
        delete env.template.cluster_name_label
          (delete "kubeforceagent.infrastructure.cluster.x-k8s.io/machine" a.metadata.labels);
  };
}

abbrev pub rest_gone : Env → String → Agent → KubeforceMachine → Bool
rest_gone env name a m =
    no_playbooks env of_all name m (λ p. true)
    && no_deployments env of_all name m (λ p. true)
    && is_nil (env.update_agent (unlabelled env a))

abbrev pub is_released : Env → String → Agent → KubeforceMachine → Bool
is_released env name a m =
    no_playbooks env of_install name m (λ p. is_installed m p.metadata.labels)
    && no_deployments env of_install name m (λ p. is_installed m p.metadata.labels)
    && is_clean env name a m
    && rest_gone env name a m

abbrev pub finalizers : KubeforceMachine → List String
finalizers m = m.metadata.finalizers

abbrev pub released_if : Env → Bool → KubeforceMachine → List String
released_if env b m =
    if b then env.finalizers.remove m.metadata.finalizers machine_finalizer else finalizers m

wait_until-finalizers :
    (answer : Answer Bool) (es : List Effect) (k : Action (Unit {0})) (m : KubeforceMachine)
    → finalizers ((wait_until (answer, es) >> k) m).1
      ≡ (if holds answer then finalizers (k m).1 else finalizers m)
wait_until-finalizers (ok true) es k m = refl
wait_until-finalizers (ok false) es k m = refl
wait_until-finalizers (failed e) es k m = refl
wait_until-finalizers panicked es k m = refl

release-finalizers :
    (env : Env) (a : Agent) (m : KubeforceMachine)
    → finalizers (release env a m).1
      ≡ released_if env (is_nil (env.update_agent (released_agent env a))) m
unfolding release
release-finalizers env a m = elim (Option-cases (env.update_agent (released_agent env a))) [
  | inl e ↦ rw e refl
  | inr (x, e) ↦ rw e refl
]

found-holds : (r : Answer Bool × List Effect) → holds (found r).0 ≡ false
found-holds (ok b, es) = refl
found-holds (failed e, es) = refl
found-holds (panicked, es) = refl

-- The loop answers that nothing was found exactly if nothing passes the filter.
delete_each-none_of :
    {A : Type 0} (meta : A → ObjectMeta) (remove : A → Option Error) (effect : A → Effect)
    (f : A → Bool) (ps : List A)
    → holds (delete_each meta remove effect f ps).0 ≡ none_of f (ok ps)
unfolding delete_each
delete_each-none_of meta remove effect f [] = refl
delete_each-none_of meta remove effect f (p ∷ ps) =
    let rest = delete_each meta remove effect f ps in
    elim (Bool-cases (f p)) [
      | inr n ↦ rw n (delete_each-none_of meta remove effect f ps)
      | inl y ↦ elim (Bool-cases (is_deleted (meta p))) [
        | inl d ↦ rw y (rw d (found-holds rest))
        | inr d ↦ elim (Option-cases (remove p)) [
          | inl r ↦ rw y (rw d (rw r (found-holds rest)))
          | inr (e, r) ↦ rw y (rw d (rw r refl))
        ]
      ]
    ]

delete_listed-none_of :
    {A : Type 0} (meta : A → ObjectMeta) (remove : A → Option Error) (effect : A → Effect)
    (f : A → Bool) (x : Answer (List A))
    → holds (delete_listed meta remove effect f x).0 ≡ none_of f x
delete_listed-none_of meta remove effect f (ok ps) = delete_each-none_of meta remove effect f ps
delete_listed-none_of meta remove effect f (failed e) = refl
delete_listed-none_of meta remove effect f panicked = refl

labels_of-own :
    (env : Env) (name : String) (m : KubeforceMachine)
    → labels_of env name m ≡ own_labels env name m
unfolding create_labels
labels_of-own env name m = refl

has_text-names :
    (role : String) (refs : StringMap TemplateReference)
    → has_text role (install_references refs) ≡ names_install role refs
has_text-names role [] = refl
has_text-names role ((r, ref) ∷ refs) = elim (Bool-cases (str_eq ref.type "install")) [
  | inl e ↦ rw e (ap (λ b. str_eq r role || b) (has_text-names role refs))
  | inr e ↦ rw e (has_text-names role refs)
]

has_text-template :
    (role : String) (ts : Option (PlaybookTemplates Value))
    → has_text role (install_templates ts) ≡ template_installs role ts
has_text-template role none = refl
has_text-template role (some ts) = has_text-names role ts.references

installs-is_installed :
    (m : KubeforceMachine) (labels : StringMap String) → installs m labels ≡ is_installed m labels
installs-is_installed m labels =
    let role = label role_label labels in
    ap (λ b. str_eq "boot" role || b) (has_text-template role m.spec.playbook_templates)

module _ (env : Env) (sweep : Sweep) (name : String) (m : KubeforceMachine) where
  playbooks-none :
      (f : RemotePlaybook → Bool)
      → holds (reconcile_delete_playbooks env sweep name m f).0 ≡ no_playbooks env sweep name m f
  unfolding reconcile_delete_playbooks
  playbooks-none f =
      delete_listed-none_of (λ p. p.metadata) (env.delete_playbook sweep) deleted_playbook f
        (env.list_playbooks sweep (labels_of env name m))
      ∙ ap (λ ls. none_of f (env.list_playbooks sweep ls)) (labels_of-own env name m)

  deployments-none :
      (f : RemoteDeployment → Bool)
      → holds (reconcile_delete_playbook_deployments env sweep name m f).0
        ≡ no_deployments env sweep name m f
  unfolding reconcile_delete_playbook_deployments
  deployments-none f =
      delete_listed-none_of (λ p. p.metadata) (env.delete_deployment sweep) deleted_deployment f
        (env.list_deployments sweep (labels_of env name m))
      ∙ ap (λ ls. none_of f (env.list_deployments sweep ls)) (labels_of-own env name m)

-- The same, for what an install template made.
install_playbooks-none :
    (env : Env) (name : String) (m : KubeforceMachine)
    → holds (delete_playbooks_of_install env name m).0
      ≡ no_playbooks env of_install name m (λ p. is_installed m p.metadata.labels)
install_playbooks-none env name m =
    playbooks-none env of_install name m (λ p. installs m p.metadata.labels)
    ∙ ap (λ f. no_playbooks env of_install name m f)
        (fun_ext (λ p. installs-is_installed m p.metadata.labels))

install_deployments-none :
    (env : Env) (name : String) (m : KubeforceMachine)
    → holds (delete_deployments_of_install env name m).0
      ≡ no_deployments env of_install name m (λ p. is_installed m p.metadata.labels)
install_deployments-none env name m =
    deployments-none env of_install name m (λ p. installs m p.metadata.labels)
    ∙ ap (λ f. no_deployments env of_install name m f)
        (fun_ext (λ p. installs-is_installed m p.metadata.labels))

delete_rest-finalizers :
    (env : Env) (name : String) (a : Agent) (m : KubeforceMachine)
    → finalizers (delete_rest env name a m).1 ≡ released_if env (rest_gone env name a m) m
unfolding delete_rest released_agent
delete_rest-finalizers env name a m =
    let ps = delete_all_playbooks env name m in
    let ds = delete_all_deployments env name m in
    let first = wait_until-finalizers ps.0 ps.1 (wait_until ds >> release env a) m in
    let second = wait_until-finalizers ds.0 ds.1 (release env a) m in
    rw
      (
        sym (playbooks-none env of_all name m (λ p. true)),
        sym (deployments-none env of_all name m (λ p. true)),
      )
      (elim (Bool-cases (holds ps.0)) [
        | inr e ↦ rw (first, e) refl
        | inl e ↦ elim (Bool-cases (holds ds.0)) [
          | inr f ↦ rw (first, e, second, f) refl
          | inl f ↦ rw (first, e, second, f) (release-finalizers env a m)
        ]
      ])

rest_gone-status :
    (env : Env) (name : String) (a : Agent) (m : KubeforceMachine) (s : MachineStatus)
    → rest_gone env name a (record m { status = s }) ≡ rest_gone env name a m
rest_gone-status env name a m s = refl

abbrev CleanedTo : Env → String → Agent → KubeforceMachine → Type 0
CleanedTo env name a m =
    (s : MachineStatus) × ((reconcile_cleaner env name a m).1 ≡ record m { status = s })
    × (holds (reconcile_cleaner env name a m).0 ≡ cleanup_done env name a m)

reconcile_cleaner-status :
    (env : Env) (name : String) (a : Agent) (m : KubeforceMachine) → CleanedTo env name a m
unfolding reconcile_cleaner reconcile_templates
reconcile_cleaner-status env name a m = elim (Bool-cases (is_healthy env.conds a)) [
  | inl h ↦ rw h (_, refl, refl)
  | inr h ↦ elim (Bool-cases (is_recent env m)) [
    | inl r ↦ rw h (rw r (_, refl, refl))
    | inr r ↦ elim (Bool-cases (is_deleted a.metadata)) [
      | inl d ↦ rw h (rw r (rw d (_, refl, refl)))
      | inr d ↦ rw h (rw r (rw d (_, refl, refl)))
    ]
  ]
]

run_then-finalizers :
    (x : Answer Bool) (m m' : KubeforceMachine) (es : List Effect) (k : Action (Unit {0}))
    → finalizers (((do ready ← run (λ _. (x, m', es)) fail; when (not ready) done) >> k) m).1
      ≡ (if holds x then finalizers (k m').1 else finalizers m')
run_then-finalizers (ok true) m m' es k = refl
run_then-finalizers (ok false) m m' es k = refl
run_then-finalizers (failed e) m m' es k = refl
run_then-finalizers panicked m m' es k = refl

cleaned_rest-finalizers :
    (env : Env) (name : String) (a : Agent) (m : KubeforceMachine) (s : MachineStatus) (b : Bool)
    → (if b then finalizers (delete_rest env name a (record m { status = s })).1 else finalizers m)
      ≡ released_if env (b && rest_gone env name a m) m
cleaned_rest-finalizers env name a m s false = refl
cleaned_rest-finalizers env name a m s true =
    delete_rest-finalizers env name a (record m { status = s })
    ∙ ap (λ b. released_if env b m) (rest_gone-status env name a m s)

clean_rest-finalizers :
    (env : Env) (name : String) (a : Agent) (m : KubeforceMachine)
    → finalizers ((clean env name a >> delete_rest env name a) m).1
      ≡ released_if env (is_clean env name a m && rest_gone env name a m) m
unfolding clean
clean_rest-finalizers env name a m = elim (Bool-cases (is_cleaned env m)) [
  | inl e ↦ rw e (delete_rest-finalizers env name a m)
  | inr e ↦
      let c = reconcile_cleaner env name a m in
      let (s, same, cleaned) = reconcile_cleaner-status env name a m in
      rw e (
        run_then-finalizers c.0 m c.1 c.2 (delete_rest env name a)
        ∙ rw (same, cleaned) (cleaned_rest-finalizers env name a m s (cleanup_done env name a m)))
]

delete_with_agent-finalizers :
    (env : Env) (name : String) (a : Agent) (m : KubeforceMachine)
    → finalizers (delete_with_agent env name a m).1 ≡ released_if env (is_released env name a m) m
unfolding delete_with_agent
delete_with_agent-finalizers env name a m =
    let ps = delete_playbooks_of_install env name m in
    let ds = delete_deployments_of_install env name m in
    let rest = clean env name a >> delete_rest env name a in
    let first = wait_until-finalizers ps.0 ps.1 (wait_until ds >> rest) m in
    let second = wait_until-finalizers ds.0 ds.1 rest m in
    rw (sym (install_playbooks-none env name m), sym (install_deployments-none env name m))
      (elim (Bool-cases (holds ps.0)) [
        | inr e ↦ rw (first, e) refl
        | inl e ↦ elim (Bool-cases (holds ds.0)) [
          | inr f ↦ rw (first, e, second, f) refl
          | inl f ↦ rw (first, e, second, f) (clean_rest-finalizers env name a m)
        ]
      ])

abbrev pub get_deleted : Env → String → KubeforceMachine → Answer Agent
get_deleted env name m = env.get_agent deleting (m.metadata.namespace, name)

abbrev pub leaves_agent : Env → String → KubeforceMachine → Answer Agent → Bool
leaves_agent env name m (ok a) = is_released env name a m
leaves_agent env name m _ = false

abbrev pub leaves : Env → KubeforceMachine → Option String → Bool
leaves env m none = true
leaves env m (some name) = leaves_agent env name m (get_deleted env name m)

delete_with_ref-finalizers :
    (env : Env) (m : KubeforceMachine) (ref : Option String)
    → finalizers (delete_with_ref env ref m).1 ≡ released_if env (leaves env m ref) m
delete_with_ref-finalizers env m none = refl
delete_with_ref-finalizers env m (some name) = elim (Answer-cases (get_deleted env name m)) [
  | inl (a, e) ↦ rw e (delete_with_agent-finalizers env name a m)
  | inr (inl (x, e)) ↦ rw e refl
  | inr (inr e) ↦ rw e refl
]

-- Deleting a machine that has the finalizer changes its finalizers only by removing this one, and
-- does so exactly if it has no agent, or if the agent was read, no listed playbook and no listed
-- deployment with the machine's labels has the role of the boot playbook or of an install template,
-- the cleanup is recorded or done (by the delete templates on a healthy agent; given up after 60
-- seconds if the agent is unhealthy and being deleted), no playbook and no deployment with the
-- machine's labels is listed at all, and the update that takes its labels off the agent succeeds.
pub reconcile_delete-leaves :
    (env : Env) (m : KubeforceMachine)
    → env.finalizers.contains m.metadata.finalizers machine_finalizer ≡ true
    → finalizers (reconcile_delete env m).1 ≡ released_if env (leaves env m m.status.agent_ref) m
unfolding reconcile_delete
reconcile_delete-leaves env m h = rw h (delete_with_ref-finalizers env m m.status.agent_ref)
