-- ===== src/Provider/KubeforceCluster/Deletion.antt =====
-- When the finalizer of a cluster is removed
-- (cluster-api-provider-kubeforce/controllers/kubeforcecluster_controller.go).
use kubeforce.Base.{
  ◌≡◌, refl, ◌+◌, Bool, true, false, not, ◌&&◌, inl, inr, Option, none, some, List, [], ◌∷◌, String,
  Bool-cases, Option-cases, if◌then◌else◌, ltb, length, arith,
}
use kubeforce.Api.{is_nil, Error, ObjectMeta}
use kubeforce.Provider.Types.{Answer, Answer-cases, ok, KubeforceCluster, OwnerCluster}
use kubeforce.Provider.Handler.{◌>>=◌, ◌>>◌, check, fail}
use kubeforce.Provider.KubeforceCluster.{Env, cluster_finalizer, set_conditions}
use kubeforce.Provider.KubeforceCluster.Reconcile.{
  descendant_labels, list_descendants, summarized, release_unless, delete_patched, reconcile_delete,
}

abbrev pub lists_none : {A : Type 0} → Answer (List A) → Bool
lists_none (ok []) = true
lists_none _ = false

-- The object that the deletion patches.
abbrev pub marked_deleting : Env → KubeforceCluster → KubeforceCluster
marked_deleting env kfc = summarized env (
    set_conditions (λ cs. env.conds.mark_false cs "InfrastructureAvailable" "Deleting" "Info" "")
      kfc)

abbrev pub has_no_descendants : Env → OwnerCluster → Bool
has_no_descendants env owner =
    let labels = descendant_labels env owner in
    lists_none (env.list_machines_left owner.namespace labels)
    && lists_none (env.list_playbooks_left owner.namespace labels)
    && lists_none (env.list_deployments_left owner.namespace labels)

abbrev pub is_released : Env → OwnerCluster → KubeforceCluster → Bool
is_released env owner kfc =
    is_nil env.new_delete_helper
    && (is_nil (env.delete_patch_answer (marked_deleting env kfc)) && has_no_descendants env owner)

abbrev pub finalizers_if : Env → Bool → KubeforceCluster → List String
finalizers_if env b kfc =
    if b
    then env.finalizers.remove kfc.metadata.finalizers cluster_finalizer
    else kfc.metadata.finalizers

nothing_left :
    (ms ps ds : List ObjectMeta)
    → not (ltb 0 (length ms + length ps + length ds))
      ≡ (lists_none (ok ms) && lists_none (ok ps) && lists_none (ok ds))
nothing_left [] [] [] = refl
nothing_left [] [] (d ∷ ds) = ground arith
nothing_left [] (p ∷ ps) ds = ground arith
nothing_left (m ∷ ms) ps ds = ground arith

release_unless-finalizers :
    (env : Env) (ms ps ds : List ObjectMeta) (kfc : KubeforceCluster)
    → (release_unless env
        (record { machines = ms; playbooks = ps; deployments = ds })
        kfc).1.metadata.finalizers
      ≡ finalizers_if env (lists_none (ok ms) && lists_none (ok ps) && lists_none (ok ds)) kfc
unfolding release_unless
release_unless-finalizers env ms ps ds kfc =
    elim (Bool-cases (ltb 0 (length ms + length ps + length ds))) [
      | inl e ↦ rw (← nothing_left ms ps ds) (rw e refl)
      | inr e ↦ rw (← nothing_left ms ps ds) (rw e refl)
    ]

and_false : (b : Bool) → (b && false) ≡ false
and_false true = refl
and_false false = refl

left-finalizers :
    (env : Env) (owner : OwnerCluster) (kfc : KubeforceCluster)
    → ((list_descendants env owner >>= release_unless env) kfc).1.metadata.finalizers
      ≡ finalizers_if env (has_no_descendants env owner) kfc
unfolding list_descendants
left-finalizers env owner kfc =
    let labels = descendant_labels env owner in
    let ns = owner.namespace in
    elim (Answer-cases (env.list_machines_left ns labels)) [
      | inr (inl (x, e)) ↦ rw e refl
      | inr (inr e) ↦ rw e refl
      | inl (ms, e) ↦ elim (Answer-cases (env.list_playbooks_left ns labels)) [
        | inr (inl (x, f)) ↦ rw e (rw (f, and_false (lists_none (ok ms))) refl)
        | inr (inr f) ↦ rw e (rw (f, and_false (lists_none (ok ms))) refl)
        | inl (ps, f) ↦ elim (Answer-cases (env.list_deployments_left ns labels)) [
          | inr (inl (x, g)) ↦
              rw e (rw f (rw (g, and_false (lists_none (ok ms) && lists_none (ok ps))) refl))
          | inr (inr g) ↦
              rw e (rw f (rw (g, and_false (lists_none (ok ms) && lists_none (ok ps))) refl))
          | inl (ds, g) ↦ rw e (rw f (rw g (release_unless-finalizers env ms ps ds kfc)))
        ]
      ]
    ]

abbrev released_patched : Env → OwnerCluster → KubeforceCluster → Bool
released_patched env owner kfc =
    is_nil (env.delete_patch_answer (marked_deleting env kfc)) && has_no_descendants env owner

delete_patched-finalizers :
    (env : Env) (owner : OwnerCluster) (kfc : KubeforceCluster)
    → (delete_patched env owner kfc).1.metadata.finalizers
      ≡ finalizers_if env (released_patched env owner kfc) kfc
unfolding delete_patched
delete_patched-finalizers env owner kfc =
    elim (Option-cases (env.delete_patch_answer (marked_deleting env kfc))) [
      | inr (e, p) ↦ rw p refl
      | inl p ↦ rw p (left-finalizers env owner (marked_deleting env kfc))
    ]

checked-finalizers :
    (env : Env) (owner : OwnerCluster) (kfc : KubeforceCluster) (e : Option Error)
    → ((check e fail >> delete_patched env owner) kfc).1.metadata.finalizers
      ≡ finalizers_if env (is_nil e && released_patched env owner kfc) kfc
checked-finalizers env owner kfc none = delete_patched-finalizers env owner kfc
checked-finalizers env owner kfc (some e) = refl

-- Deleting a cluster changes its finalizers only by removing this one, and does so exactly if its
-- patch succeeds and no machine, no playbook and no playbook deployment of the cluster is listed.
pub reconcile_delete-is_released :
    (env : Env) (owner : OwnerCluster) (kfc : KubeforceCluster)
    → (reconcile_delete env owner kfc).1.metadata.finalizers
      ≡ finalizers_if env (is_released env owner kfc) kfc
unfolding reconcile_delete
reconcile_delete-is_released env owner kfc = checked-finalizers env owner kfc env.new_delete_helper
