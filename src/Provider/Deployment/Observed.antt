-- ===== src/Provider/Deployment/Observed.antt =====
-- What a true condition Synced of a PlaybookDeployment says of the one on the agent, and when the
-- latter is patched (cluster-api-provider-kubeforce/controllers/playbookdeployment_controller.go).
use kubeforce.Base.{
  ◌≡◌, refl, ◌∙◌, String, Bool, true, false, not, ◌&&◌, Option, none, some, List, [], ◌∷◌, arith,
  str_eq, str_append, StringMap, Bool-cases, Option-cases, inl, inr,
}
use kubeforce.Api.{Error, text}
use kubeforce.Agent.Checksum.{Sum, sum, sum_failed}
use kubeforce.Provider.Types.{
  Answer, Answer-cases, ok, failed, panicked, Agent, RemoteDeployment, has_changes,
}
use kubeforce.Provider.Remote.{is_healthy, assign_label}
use kubeforce.Provider.Playbook.Delete.{wait_for_agent}
use kubeforce.Provider.Deployment.{
  Env, ExternalDeployment, external_labels, find_external, only_external, updated_external,
  new_external, current_checksum, with_status, should_adopt,
}
use kubeforce.Provider.Deployment.Sync.{
  on_updated, update_external, on_found, sync_found, sync_client, sync_agent, is_observed,
  reconcile_normal, has_ended, on_checksum, with_labels, adopted, follow, generation_message,
  sync_error, sync_mismatch,
}
use kubeforce.Provider.Deployment.Delete.{get_agent, record_failure, mark_not_synced}

abbrev pub is_synced : Env → RemoteDeployment → Bool
is_synced env pd = env.conds.is_true pd.status.conditions "Synced"

abbrev pub IsUnchanged : Env → RemoteDeployment → ExternalDeployment → Type 0
IsUnchanged env pd ext =
    has_changes env.patch_data env.unmarshal env.wrapf ext (updated_external pd ext) ≡ ok false

record_failure-is_synced :
    (env : Env) (reason message cond_reason severity cond_message : String) (pd : RemoteDeployment)
    → is_synced env (record_failure env reason message cond_reason severity cond_message pd).1
      ≡ false
record_failure-is_synced env reason message cond_reason severity cond_message pd =
    env.conds.is_true-mark_false pd.status.conditions "Synced" cond_reason severity cond_message

sync_error-is_synced :
    (A : Type 0) (env : Env) (reason prefix : String) (e : Error) (pd : RemoteDeployment)
    → is_synced env (sync_error {A = A} env reason prefix e pd).1 ≡ false
sync_error-is_synced A env reason prefix e pd =
    record_failure-is_synced env reason (str_append prefix (text e)) "SynchronizationFailed" "Error"
      (text e) pd

sync_mismatch-is_synced :
    (env : Env) (message : String) (pd : RemoteDeployment)
    → is_synced env (sync_mismatch env message pd).1 ≡ false
sync_mismatch-is_synced env message pd =
    record_failure-is_synced env "ExternalPlaybookError" message "SynchronizationFailed" "Error"
      message pd

mark_not_synced-is_synced :
    (env : Env) (reason severity message : String) (pd : RemoteDeployment)
    → is_synced env (mark_not_synced env reason severity message pd).1 ≡ false
mark_not_synced-is_synced env reason severity message pd =
    env.conds.is_true-mark_false pd.status.conditions "Synced" reason severity message

on_updated-is_synced :
    (env : Env) (checksum : String) (ext : ExternalDeployment) (a : Answer Bool)
    (pd : RemoteDeployment)
    → is_synced env pd ≡ false
    → is_synced env (on_updated env checksum ext a pd).1 ≡ true
    → (a ≡ ok false) × (is_observed ext ≡ true)
unfolding on_updated
on_updated-is_synced env checksum ext (failed e) pd f h =
    let message = str_append "unable to update ExternalPlaybook err: " (text e) in
    ground (
      arith,
      record_failure-is_synced env "ExternalPlaybookError" message "SynchronizationFailed" "Error"
          message pd,
    )
on_updated-is_synced env checksum ext panicked pd f h = ground arith
on_updated-is_synced env checksum ext (ok true) pd f h = ground (
  arith,
  mark_not_synced-is_synced env "WaitingForObservedGeneration" "Info"
      "external PlaybookDeployment has been updated" pd,
)
on_updated-is_synced env checksum ext (ok false) pd f h = elim (Bool-cases (is_observed ext)) [
  | inl o ↦ (refl, o)
  | inr o ↦ ground (
    arith,
    mark_not_synced-is_synced env "WaitingForObservedGeneration" "Info" (generation_message env ext)
        pd,
  )
]

-- The answer to the update is that nothing changed, exactly if the patch has no fields.
update_external-IsUnchanged :
    (env : Env) (pd : RemoteDeployment) (ext : ExternalDeployment)
    → (update_external env pd ext).0 ≡ ok false
    → IsUnchanged env pd ext
unfolding update_external
update_external-IsUnchanged env pd ext h =
    let new = updated_external pd ext in
    elim (Answer-cases (has_changes env.patch_data env.unmarshal env.wrapf ext new)) [
      | inl (true, c) ↦ ground arith
      | inl (false, c) ↦ c
      | inr (inl (e, c)) ↦ absurd (ground arith)
      | inr (inr c) ↦ absurd (ground arith)
    ]

missing_unsynced :
    (env : Env) (checksum : String) (pd : RemoteDeployment)
    → is_synced env pd ≡ false
    → is_synced env (on_found env checksum none pd).1 ≡ false
unfolding on_found
missing_unsynced env checksum pd f = elim (Bool-cases (str_eq pd.status.external_name "")) [
  | inl e ↦ elim (Answer-cases (env.create_external (new_external pd))) [
    | inl (x, c) ↦ rw e (
        rw c (
          mark_not_synced-is_synced env "WaitingForObservedGeneration" "Info"
            "PlaybookDeployment has been created" pd))
    | inr (inl (x, c)) ↦ rw e (
        rw c (
          sync_error-is_synced (Unit {0}) env "ExternalPlaybookError"
            "unable to create ExternalPlaybook err: " x pd))
    | inr (inr c) ↦ rw e (rw c f)
  ]
  | inr e ↦ rw e (sync_mismatch-is_synced env _ pd)
]

listed_synced :
    (env : Env) (checksum : String) (ext : ExternalDeployment) (pd : RemoteDeployment)
    → is_synced env pd ≡ false
    → is_synced env (on_found env checksum (some ext) pd).1 ≡ true
    → (is_observed ext ≡ true) × IsUnchanged env pd ext
unfolding on_found
listed_synced env checksum ext pd f h =
    elim (Bool-cases (
      not (str_eq pd.status.external_name "")
      && not (str_eq pd.status.external_name ext.metadata.name))) [
        | inl e ↦ ground (
          arith,
          sync_mismatch-is_synced env
              (str_append "extarnal PlaybookDeployment: " (
                str_append ext.metadata.name
                  (str_append " is not equal to specified " pd.status.external_name)))
              pd,
        )
        | inr e ↦
            let (a, o) =
              on_updated-is_synced env checksum ext (update_external env pd ext).0
                (with_status (follow ext) pd) f (rw (e, on_found) at h) in
            (o, update_external-IsUnchanged env pd ext a)
      ]

only_external-ok :
    (env : Env) (a : Answer (List ExternalDeployment)) (x : ExternalDeployment)
    → only_external env a ≡ ok (some x)
    → a ≡ ok (x ∷ [])
only_external-ok env (ok []) x h = ground arith
only_external-ok env (ok (y ∷ [])) x h = ground arith
only_external-ok env (ok (y ∷ z ∷ ys)) x h = ground arith
only_external-ok env (failed e) x h = ground arith
only_external-ok env panicked x h = ground arith

-- The external deployment that `pd` lists, and the specification of `s`.
abbrev pub SyncedAs : Env → RemoteDeployment → RemoteDeployment → Type 0
SyncedAs env pd s =
    (ext : ExternalDeployment) × (env.list_external (external_labels pd) ≡ ok (ext ∷ []))
    × (is_observed ext ≡ true)
    × IsUnchanged env s ext

sync_found-SyncedAs :
    (env : Env) (checksum : String) (found : Answer (Option ExternalDeployment))
    (pd s : RemoteDeployment)
    → find_external env pd ≡ found
    → is_synced env s ≡ false
    → is_synced env (sync_found env checksum found s).1 ≡ true
    → SyncedAs env pd s
unfolding find_external
sync_found-SyncedAs env checksum (ok none) pd s e f h =
    ground (arith, missing_unsynced env checksum s f)
sync_found-SyncedAs env checksum (ok (some ext)) pd s e f h =
    let (o, n) = listed_synced env checksum ext s f h in
    (ext, only_external-ok env (env.list_external (external_labels pd)) ext e, o, n)
sync_found-SyncedAs env checksum (failed x) pd s e f h = ground (
  arith,
  sync_error-is_synced (Option ExternalDeployment) env "ExternalPlaybookError"
      "unable to find external PlaybookDeployment err: " x s,
)
sync_found-SyncedAs env checksum panicked pd s e f h = ground arith

sync_client-SyncedAs :
    (env : Env) (checksum : String) (a : Agent) (pd s : RemoteDeployment)
    → is_synced env s ≡ false
    → is_synced env (sync_client env checksum a pd s).1 ≡ true
    → SyncedAs env pd s
unfolding sync_client
sync_client-SyncedAs env checksum a pd s f h = elim (Bool-cases (env.has_paused a.metadata)) [
  | inl e ↦ ground arith
  | inr e ↦ elim (Bool-cases (is_healthy env.conds a)) [
    | inl w ↦ elim (Option-cases (env.client_set a.metadata.namespace a.metadata.name)) [
      | inl c ↦
          sync_found-SyncedAs env checksum (find_external env pd) pd s refl f
            (rw (e, w, c, sync_client) at h)
      | inr (x, c) ↦ ground (
        arith,
        sync_error-is_synced (Unit {0}) env "AgentClientError"
            "unable to get the agent ClientSet err: " x s,
      )
    ]
    | inr w ↦ ground (
      arith,
      record_failure-is_synced env "AgentIsNotReady" wait_for_agent "WaitingForAgent" "Info"
          wait_for_agent s,
    )
  ]
]

adopted-updated_external :
    (env : Env) (a : Agent) (ls : StringMap String) (pd : RemoteDeployment)
    (ext : ExternalDeployment)
    → let s = adopted env a (with_labels ls pd) in
      (updated_external s ext ≡ updated_external pd ext) × (is_synced env s ≡ is_synced env pd)
unfolding updated_external
adopted-updated_external env a ls pd ext =
    elim (Bool-cases (should_adopt env pd.metadata.owner_references)) [
      | inl e ↦ rw e (refl, refl)
      | inr e ↦ rw e (refl, refl)
    ]

sync_agent-SyncedAs :
    (env : Env) (checksum : String) (a : Agent) (pd : RemoteDeployment)
    → is_synced env pd ≡ false
    → is_synced env (sync_agent env checksum a pd pd).1 ≡ true
    → SyncedAs env pd pd
unfolding sync_agent
sync_agent-SyncedAs env checksum a pd f h =
    elim (Answer-cases (
      assign_label pd.metadata.labels "playbook.infrastructure.cluster.x-k8s.io/agent"
        a.metadata.name)) [
          | inl (ls, e) ↦
              let s = adopted env a (with_labels ls pd) in
              let same = adopted-updated_external env a ls pd in
              let (ext, l, o, n) =
                sync_client-SyncedAs env checksum a pd s ((same (new_external pd)).1 ∙ f)
                  (rw (e, sync_agent) at h) in
              (ext, l, o, rw (← (same ext).0) n)
          | inr (inl (x, e)) ↦ ground arith
          | inr (inr e) ↦ ground arith
        ]

on_checksum-SyncedAs :
    (env : Env) (checksum : String) (pd : RemoteDeployment)
    → is_synced env pd ≡ false
    → is_synced env (on_checksum env (sum checksum) pd).1 ≡ true
    → SyncedAs env pd pd
on_checksum-SyncedAs env checksum pd f h = elim (Bool-cases (has_ended env checksum pd)) [
  | inl e ↦ ground arith
  | inr e ↦ elim (Answer-cases (get_agent env pd)) [
    | inl (a, g) ↦ sync_agent-SyncedAs env checksum a pd f (rw (e, g) at h)
    | inr (inl (x, g)) ↦ ground (
      arith,
      sync_error-is_synced Agent env "AgentClientError" "unable to get KubeforceAgent err: " x pd,
    )
    | inr (inr g) ↦ ground arith
  ]
]

-- A reconciliation makes the condition Synced of a PlaybookDeployment true, which was not, only if
-- exactly one external deployment is listed, whose controller has observed its generation, and the
-- patch to the specification of the PlaybookDeployment has no fields.
pub reconcile_normal-SyncedAs :
    (env : Env) (pd : RemoteDeployment)
    → is_synced env pd ≡ false
    → is_synced env (reconcile_normal env pd).1 ≡ true
    → SyncedAs env pd pd
unfolding reconcile_normal
reconcile_normal-SyncedAs env pd f h = go (current_checksum env pd) h
  where
    go : (c : Sum) → is_synced env (on_checksum env c pd).1 ≡ true → SyncedAs env pd pd
    go (sum checksum) t = on_checksum-SyncedAs env checksum pd f t
    go (sum_failed e) t = ground arith
