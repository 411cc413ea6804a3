-- ===== src/Provider/Playbook/Completion.antt =====
-- What the conditions of a Playbook say of its run on the agent
-- (cluster-api-provider-kubeforce/controllers/playbook_controller.go).
use mathlib.Core.Path.{subst}
use kubeforce.Base.{
  ◌≡◌, ◌≢◌, refl, ◌∙◌, String, Bool, true, false, Option, none, some, List, [], ◌∷◌, arith, str_eq,
  str_eq_iff, str_append, if◌then◌else◌, Bool-cases, Option-cases, inl, inr,
}
use kubeforce.Api.{Error, text}
use kubeforce.Conditions
use kubeforce.Conditions.{
  ConditionStatus, condition_true, condition_false, condition_unknown, status_eq,
}
use kubeforce.Conditions.Transition.{Unique}
use kubeforce.Provider.Types.{
  Answer, Answer-cases, ok, failed, panicked, Agent, RemotePlaybook, ClusterConditions,
}
use kubeforce.Provider.Remote.{ConditionOps, is_healthy, assign_label}
use kubeforce.Provider.Playbook.{
  Env, ExternalPlaybook, execution, external_labels, cluster_status, cluster_condition,
  append_conditions, find_external, only_external, record_failure, new_external,
}
use kubeforce.Provider.Playbook.Sync.{
  has_ended, sync_error, sync_mismatch, on_found, sync_found, sync_client, sync_agent, with_labels,
  adopted, reconcile_normal,
}
use kubeforce.Provider.Playbook.Delete.{wait_for_agent, get_agent}

status_is_true :
    (s : ConditionStatus) → str_eq (cluster_status s) "True" ≡ status_eq s condition_true
unfolding str_eq
status_is_true condition_true = refl
status_is_true condition_false = refl
status_is_true condition_unknown = refl

-- The copied conditions speak for their own types, and the others stay.
pub is_true-append_conditions :
    (conds : ConditionOps) (l : List Conditions.Condition) (cs : ClusterConditions) (t : String)
    → Unique l
    → conds.is_true (append_conditions conds l cs) t
      ≡ (if Conditions.has l t then Conditions.is_true l t else conds.is_true cs t)
unfolding append_conditions Conditions.has Conditions.is_true Conditions.get
is_true-append_conditions conds [] cs t u = refl
is_true-append_conditions conds (c ∷ l) cs t u = elim (Bool-cases (str_eq c.type t)) [
  | inl e ↦
      let p = (str_eq_iff c.type t).0 e in
      let cs' = conds.set cs (cluster_condition c) in
      let here : conds.is_true cs' t ≡ str_eq (cluster_status c.status) "True" =
        subst (λ x. conds.is_true cs' x ≡ str_eq (cluster_status c.status) "True") p
          (conds.is_true-set cs (cluster_condition c)) in
      let absent : Conditions.get l t ≡ none = subst (λ x. Conditions.get l x ≡ none) p u.0 in
      let rest = is_true-append_conditions conds l cs' t u.1 in
      ground (arith, rest, here, absent, status_is_true c.status)
  | inr e ↦
      let other : c.type ≢ t = λ p. ground (arith, str_eq_iff c.type t) in
      let rest = is_true-append_conditions conds l (conds.set cs (cluster_condition c)) t u.1 in
      ground (arith, rest, conds.is_true-set_other cs (cluster_condition c) t other)
]

synced-ne-execution : ◌≢◌ {A = String} "Synced" execution
unfolding str_eq
synced-ne-execution h = elim (Bool-cases (str_eq "Synced" execution)) [
  | inl e ↦ ground arith
  | inr e ↦ ground (arith, str_eq_iff "Synced" execution)
]

abbrev pub executed : Env → RemotePlaybook → Bool
executed env pb = env.conds.is_true pb.status.conditions execution

record_failure-executed :
    (env : Env) (reason message cond_reason severity cond_message : String) (pb : RemotePlaybook)
    → executed env (record_failure env.conds reason message cond_reason severity cond_message pb)
      ≡ executed env pb
record_failure-executed env reason message cond_reason severity cond_message pb =
    env.conds.is_true-mark_false_other pb.status.conditions "Synced" cond_reason severity
      cond_message execution synced-ne-execution

synced-executed :
    (env : Env) (cs : ClusterConditions)
    → env.conds.is_true (env.conds.mark_true cs "Synced") execution ≡ env.conds.is_true cs execution
synced-executed env cs = env.conds.is_true-mark_true_other cs "Synced" execution synced-ne-execution

sync_error-executed :
    (A : Type 0) (env : Env) (reason prefix : String) (e : Error) (pb : RemotePlaybook)
    → executed env (sync_error {A = A} env reason prefix e pb).1 ≡ executed env pb
sync_error-executed A env reason prefix e pb =
    record_failure-executed env reason (str_append prefix (text e)) "SynchronizationFailed" "Error"
      (text e) pb

sync_mismatch-executed :
    (env : Env) (message : String) (pb : RemotePlaybook)
    → executed env (sync_mismatch env message pb).1 ≡ executed env pb
sync_mismatch-executed env message pb =
    record_failure-executed env "ExternalPlaybookError" message "SynchronizationFailed" "Error"
      message pb

missing_unexecuted :
    (env : Env) (pb : RemotePlaybook) → executed env (on_found env none pb).1 ≡ executed env pb
unfolding on_found
missing_unexecuted env pb = elim (Bool-cases (str_eq pb.status.external_name "")) [
  | inl e ↦ elim (Answer-cases (env.create_external (new_external pb))) [
    | inl (x, c) ↦ rw e (rw c (synced-executed env pb.status.conditions))
    | inr (inl (x, c)) ↦ rw e (
        rw c (
          sync_error-executed (Unit {0}) env "ExternalPlaybookError"
            "unable to create ExternalPlaybook err: " x pb))
    | inr (inr c) ↦ rw e (rw c refl)
  ]
  | inr e ↦ rw e (sync_mismatch-executed env _ pb)
]

listed_executed :
    (env : Env) (ext : ExternalPlaybook) (pb : RemotePlaybook)
    → Unique ext.status.conditions
    → executed env pb ≡ false
    → executed env (on_found env (some ext) pb).1 ≡ true
    → Conditions.is_true ext.status.conditions execution ≡ true
unfolding on_found Conditions.has Conditions.is_true
listed_executed env ext pb u f h = ground (
  arith,
  sync_mismatch-executed env
      (str_append "extarnal playbook: " (
        str_append ext.metadata.name
          (str_append " is not equal to specified " pb.status.external_name)))
      pb,
  synced-executed env (append_conditions env.conds ext.status.conditions pb.status.conditions),
  is_true-append_conditions env.conds ext.status.conditions pb.status.conditions execution u,
)

-- The one external playbook that is listed, in which the condition is true.
abbrev pub ExecutedOn : Env → RemotePlaybook → Type 0
ExecutedOn env pb =
    (ext : ExternalPlaybook) × (env.list_external (external_labels pb) ≡ ok (ext ∷ []))
    × (Conditions.is_true ext.status.conditions execution ≡ true)

abbrev pub ListsUnique : Env → RemotePlaybook → Type 0
ListsUnique env pb =
    (ext : ExternalPlaybook)
    → env.list_external (external_labels pb) ≡ ok (ext ∷ [])
    → Unique ext.status.conditions

only_external-ok :
    (env : Env) (a : Answer (List ExternalPlaybook)) (x : ExternalPlaybook)
    → only_external env a ≡ ok (some x)
    → a ≡ ok (x ∷ [])
only_external-ok env (ok []) x h = ground arith
only_external-ok env (ok (y ∷ [])) x h = ground arith
only_external-ok env (ok (y ∷ z ∷ ys)) x h = ground arith
only_external-ok env (failed e) x h = ground arith
only_external-ok env panicked x h = ground arith

sync_found-executed :
    (env : Env) (found : Answer (Option ExternalPlaybook)) (pb s : RemotePlaybook)
    → ListsUnique env pb
    → find_external env pb ≡ found
    → executed env s ≡ false
    → executed env (sync_found env found s).1 ≡ true
    → ExecutedOn env pb
unfolding find_external
sync_found-executed env (ok none) pb s u e f h = ground (arith, missing_unexecuted env s)
sync_found-executed env (ok (some ext)) pb s u e f h =
    let l = only_external-ok env (env.list_external (external_labels pb)) ext e in
    (ext, l, listed_executed env ext s (u ext l) f h)
sync_found-executed env (failed x) pb s u e f h = ground (
  arith,
  sync_error-executed (Option ExternalPlaybook) env "ExternalPlaybookError"
      "unable to find external Playbook err: " x s,
)
sync_found-executed env panicked pb s u e f h = ground arith

sync_client-executed :
    (env : Env) (a : Agent) (pb s : RemotePlaybook)
    → ListsUnique env pb
    → executed env s ≡ false
    → executed env (sync_client env a pb s).1 ≡ true
    → ExecutedOn env pb
unfolding sync_client
sync_client-executed env a pb s u f h = elim (Bool-cases (env.has_paused a.metadata)) [
  | inl e ↦ ground arith
  | inr e ↦ elim (Bool-cases (is_healthy env.conds a)) [
    | inl w ↦ elim (Option-cases (env.client_set a.metadata.namespace a.metadata.name)) [
      | inl c ↦
          sync_found-executed env (find_external env pb) pb s u refl f
            (rw (e, w, c, sync_client) at h)
      | inr (x, c) ↦ ground (
        arith,
        sync_error-executed (Unit {0}) env "AgentClientError" "unable to get agent ClientSet err: "
            x s,
      )
    ]
    | inr w ↦ ground (
      arith,
      record_failure-executed env "AgentIsNotReady" wait_for_agent "WaitingForAgent" "Info"
          wait_for_agent s,
    )
  ]
]

adopted-executed :
    (env : Env) (a : Agent) (pb : RemotePlaybook)
    → executed env (adopted env a pb) ≡ executed env pb
adopted-executed env a pb = ground arith

sync_agent-executed :
    (env : Env) (a : Agent) (pb : RemotePlaybook)
    → ListsUnique env pb
    → executed env pb ≡ false
    → executed env (sync_agent env a pb pb).1 ≡ true
    → ExecutedOn env pb
unfolding sync_agent
sync_agent-executed env a pb u f h =
    elim (Answer-cases (
      assign_label pb.metadata.labels "playbook.infrastructure.cluster.x-k8s.io/agent"
        a.metadata.name)) [
          | inl (ls, e) ↦
              let s = adopted env a (with_labels ls pb) in
              sync_client-executed env a pb s u (adopted-executed env a (with_labels ls pb) ∙ f)
                (rw (e, sync_agent) at h)
          | inr (inl (x, e)) ↦ ground arith
          | inr (inr e) ↦ ground arith
        ]

-- A reconciliation of a Playbook whose condition Execution is not true makes it true only if exactly
-- one external playbook is listed and its condition Execution is true, where the condition types of
-- that playbook are distinct.
pub reconcile_normal-executed :
    (env : Env) (pb : RemotePlaybook)
    → ListsUnique env pb
    → executed env pb ≡ false
    → executed env (reconcile_normal env pb).1 ≡ true
    → ExecutedOn env pb
unfolding reconcile_normal
reconcile_normal-executed env pb u f h = elim (Bool-cases (has_ended env pb)) [
  | inl e ↦ ground arith
  | inr e ↦ elim (Answer-cases (get_agent env pb)) [
    | inl (a, g) ↦ sync_agent-executed env a pb u f (rw (e, g, reconcile_normal) at h)
    | inr (inl (x, g)) ↦ ground (
      arith,
      sync_error-executed Agent env "AgentClientError" "unable to get KubeforceAgent err: " x pb,
    )
    | inr (inr g) ↦ ground arith
  ]
]
