-- ===== src/Provider/KubeforceMachine/Bootstrapped.antt =====
-- What the bootstrap of a machine asks for
-- (cluster-api-provider-kubeforce/controllers/kubeforcemachine_controller.go).
use kubeforce.Base.{
  ◌≡◌, refl, ap, String, Bool, true, false, Option, none, some, List, StringMap, str_eq, str_append,
  Bool-cases, Option-cases, inl, inr, ◌⊎◌,
}
use kubeforce.Provider.Types.{Answer, Answer-cases, ok, Agent, RemotePlaybook}
use kubeforce.Provider.KubeforceMachine.{
  Value, KubeforceMachine, PlaybookData, Effect, Env, Config, is_some,
}
use kubeforce.Provider.KubeforceMachine.Deletion.{holds}
use kubeforce.Provider.KubeforceMachine.Boot.{
  find_playbook_by_role, boot_meta, boot_files, create_playbook, has_booted, boot_new,
  reconcile_cloud_init_playbook, hostname_of, node_identified, provider_id, identify,
  reconcile_node_provider_id,
}

abbrev pub Kept : KubeforceMachine → KubeforceMachine → Type 0
Kept m after = after.status.is_ready ≡ m.status.is_ready

-- The playbook of the role "boot" was synced and has succeeded.
pub record HasBooted (env : Env) (name : String) (m : KubeforceMachine) : Type 0 where
  pub playbook : RemotePlaybook
  pub listed : find_playbook_by_role env name m "boot" ≡ ok (some playbook)
  pub succeeded : has_booted env playbook ≡ true

abbrev Unbooted : Answer Bool × KubeforceMachine × List Effect → KubeforceMachine → Type 0
Unbooted r m = (holds r.0 ≡ false) × Kept m r.1

create_playbook-Kept :
    (env : Env) (name : String) (a : Agent) (d : PlaybookData) (role : String)
    (vars : StringMap Value) (m : KubeforceMachine)
    → (create_playbook env name a d role vars m).1 ≡ m
unfolding create_playbook
create_playbook-Kept env name a d role vars m =
    let what = str_append "Playbook " (boot_meta env name m role).name in
    elim (Answer-cases (boot_files env what vars d.files)) [
      | inl (files, e) ↦ rw e refl
      | inr (inl (x, e)) ↦ rw e refl
      | inr (inr e) ↦ rw e refl
    ]

boot_new-Unbooted :
    (env : Env) (config : Config) (name : String) (a : Agent) (vars : StringMap Value)
    (m : KubeforceMachine)
    → Unbooted (boot_new env config name a vars m) m
unfolding boot_new
boot_new-Unbooted env config name a vars m = elim (Answer-cases config.bootstrap_data) [
  | inr (inl (x, e)) ↦ rw e (refl, refl)
  | inr (inr e) ↦ rw e (refl, refl)
  | inl (contents, e) ↦ elim (Answer-cases config.kubeadm_config) [
    | inr (inl (x, f)) ↦ rw e (rw f (refl, refl))
    | inr (inr f) ↦ rw e (rw f (refl, refl))
    | inl (kubeadm, f) ↦ elim (Answer-cases (env.to_playbook kubeadm contents)) [
      | inr (inl (x, g)) ↦ rw e (rw f (rw g (refl, refl)))
      | inr (inr g) ↦ rw e (rw f (rw g (refl, refl)))
      | inl (d, g) ↦
          let kept = create_playbook-Kept env name a d "boot" vars m in
          elim (Answer-cases (create_playbook env name a d "boot" vars m).0) [
            | inl (pb, c) ↦ rw e (rw f (rw g (rw (c, kept) (refl, refl))))
            | inr (inl (x, c)) ↦ rw e (rw f (rw g (rw (c, kept) (refl, refl))))
            | inr (inr c) ↦ rw e (rw f (rw g (rw (c, kept) (refl, refl))))
          ]
    ]
  ]
]

pub reconcile_cloud_init_playbook-HasBooted :
    (env : Env) (config : Config) (name : String) (a : Agent) (vars : StringMap Value)
    (m : KubeforceMachine)
    → HasBooted env name m
      ⊎ (holds (reconcile_cloud_init_playbook env config name a vars m).0 ≡ false)
unfolding reconcile_cloud_init_playbook
reconcile_cloud_init_playbook-HasBooted env config name a vars m =
    elim (Answer-cases (find_playbook_by_role env name m "boot")) [
      | inr (inl (x, e)) ↦ rw e (inr refl)
      | inr (inr e) ↦ rw e (inr refl)
      | inl (none, e) ↦ rw e (inr (boot_new-Unbooted env config name a vars m).0)
      | inl (some pb, e) ↦ elim (Bool-cases (has_booted env pb)) [
        | inl h ↦ inl (record { playbook = pb; listed = e; succeeded = h })
        | inr h ↦ rw e (rw h (inr refl))
      ]
    ]

pub reconcile_cloud_init_playbook-Kept :
    (env : Env) (config : Config) (name : String) (a : Agent) (vars : StringMap Value)
    (m : KubeforceMachine)
    → Kept m (reconcile_cloud_init_playbook env config name a vars m).1
unfolding reconcile_cloud_init_playbook
reconcile_cloud_init_playbook-Kept env config name a vars m =
    elim (Answer-cases (find_playbook_by_role env name m "boot")) [
      | inr (inl (x, e)) ↦ rw e refl
      | inr (inr e) ↦ rw e refl
      | inl (none, e) ↦ rw e (boot_new-Unbooted env config name a vars m).1
      | inl (some pb, e) ↦ elim (Bool-cases (has_booted env pb)) [
        | inl h ↦ rw e (rw h refl)
        | inr h ↦ rw e (rw h refl)
      ]
    ]

abbrev pub succeeds : Answer (Unit {0}) → Bool
succeeds (ok u) = true
succeeds _ = false

-- With an identifier, or an error.
abbrev pub Identified :
    Answer (Unit {0}) × KubeforceMachine × List Effect → KubeforceMachine → Type 0
Identified r m = ((succeeds r.0 ≡ false) ⊎ (is_some r.1.spec.provider_id ≡ true)) × Kept m r.1

node_identified-Identified :
    (env : Env) (name hostname id : String) (m : KubeforceMachine)
    → Identified (node_identified env name hostname id m) m
node_identified-Identified env name hostname id m = elim (Bool-cases (str_eq id "")) [
  | inr e ↦ rw e (inr refl, refl)
  | inl e ↦ elim (Option-cases (env.patch_node hostname (provider_id name))) [
    | inl p ↦ rw e (rw p (inr refl, refl))
    | inr (x, p) ↦ rw e (rw p (inl refl, refl))
  ]
]

identify-Identified :
    (env : Env) (name : String) (a : Agent) (m : KubeforceMachine) (id : Option String)
    → m.spec.provider_id ≡ id
    → Identified (identify env name a id m) m
identify-Identified env name a m (some id) h = (inr (ap is_some h), refl)
identify-Identified env name a m none h = elim (Answer-cases (hostname_of a.status.system_info)) [
  | inr (inl (x, e)) ↦ rw e (inl refl, refl)
  | inr (inr e) ↦ rw e (inl refl, refl)
  | inl (hostname, e) ↦ elim (Option-cases env.node_client) [
    | inr (x, c) ↦ rw e (rw c (inl refl, refl))
    | inl c ↦ elim (Answer-cases (env.get_node hostname)) [
      | inr (inl (x, n)) ↦ rw e (rw c (rw n (inl refl, refl)))
      | inr (inr n) ↦ rw e (rw c (rw n (inl refl, refl)))
      | inl (id, n) ↦ rw e (rw c (rw n (node_identified-Identified env name hostname id m)))
    ]
  ]
]

pub reconcile_node_provider_id-Identified :
    (env : Env) (name : String) (a : Agent) (m : KubeforceMachine)
    → Identified (reconcile_node_provider_id env name a m) m
unfolding reconcile_node_provider_id
reconcile_node_provider_id-Identified env name a m =
    identify-Identified env name a m m.spec.provider_id refl
