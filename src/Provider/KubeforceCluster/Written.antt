-- ===== src/Provider/KubeforceCluster/Written.antt =====
-- What the load balancer of a cluster consists of once it is available, and that it is then left
-- alone (cluster-api-provider-kubeforce/controllers/kubeforcecluster_controller.go).
use kubeforce.Base.{◌≡◌, refl, Bool, true, false, ◌⊎◌, inl, inr, none, [], Option-cases}
use kubeforce.Provider.Types.{Answer, Answer-cases, ok, KubeforceCluster, has_changes}
use kubeforce.Provider.KubeforceAgent.{Key}
use kubeforce.Provider.KubeforceMachine.Bootstrapped.{succeeds}
use kubeforce.Provider.KubeforceCluster.{Client, Env}
use kubeforce.Provider.KubeforceCluster.Sync.{Kind, found_or_empty, reconcile_object, write_object}

abbrev pub changes : {O : Type 0} → Env → Client O → O → O → Answer Bool
changes env client old new = has_changes client.patch_data env.unmarshal env.wrapf old new

-- The object was created, or it was patched, or it needed no patch.
abbrev pub IsStored : {O : Type 0} → Env → Client O → Bool → O → O → Type 0
IsStored env client false old new = client.create new ≡ none
IsStored env client true old new =
    (changes env client old new ≡ ok false)
    ⊎ ((changes env client old new ≡ ok true) × (client.patch new ≡ none))

-- The object with the key was read, where it is there, and stands as it was filled.
pub record IsWritten {O : Type 0} (env : Env) (client : Client O) (kind : Kind O) (key : Key)
    : Type 0 where
  pub is_found : Bool
  pub old : O
  pub new : O
  pub read : found_or_empty kind (client.read key) ≡ ok (is_found, old)
  pub filled : kind.fill (kind.rename key old) ≡ ok new
  pub stored : IsStored env client is_found old new

pub no_success {ℓ} : {A : Type ℓ} → false ≡ true → A
no_success h = cc

module _ {O : Type 0} (env : Env) (client : Client O) (kind : Kind O) (key : Key) where
  write_object-IsStored :
      (is_found : Bool) (old new : O) (m : KubeforceCluster)
      → succeeds (write_object env client kind is_found old new m).0 ≡ true
      → IsStored env client is_found old new
  write_object-IsStored false old new m h = elim (Option-cases (client.create new)) [
    | inl e ↦ e
    | inr (x, e) ↦ no_success (rw e at h)
  ]
  write_object-IsStored true old new m h = elim (Answer-cases (changes env client old new)) [
    | inl (false, c) ↦ inl c
    | inl (true, c) ↦ elim (Option-cases (client.patch new)) [
      | inl e ↦ inr (c, e)
      | inr (x, e) ↦ no_success (rw (c, e) at h)
    ]
    | inr (inl (x, c)) ↦ no_success (rw c at h)
    | inr (inr c) ↦ no_success (rw c at h)
  ]

  write_object-machine :
      (is_found : Bool) (old new : O) (m : KubeforceCluster)
      → (write_object env client kind is_found old new m).1 ≡ m
  write_object-machine false old new m = elim (Option-cases (client.create new)) [
    | inl e ↦ rw e refl
    | inr (x, e) ↦ rw e refl
  ]
  write_object-machine true old new m = elim (Answer-cases (changes env client old new)) [
    | inl (false, c) ↦ rw c refl
    | inl (true, c) ↦ elim (Option-cases (client.patch new)) [
      | inl e ↦ rw c (rw e refl)
      | inr (x, e) ↦ rw c (rw e refl)
    ]
    | inr (inl (x, c)) ↦ rw c refl
    | inr (inr c) ↦ rw c refl
  ]

  pub reconcile_object-machine :
      (m : KubeforceCluster) → (reconcile_object env client kind key m).1 ≡ m
  unfolding reconcile_object
  reconcile_object-machine m = elim (Answer-cases (found_or_empty kind (client.read key))) [
    | inr (inl (x, r)) ↦ rw r refl
    | inr (inr r) ↦ rw r refl
    | inl ((is_found, old), r) ↦ elim (Answer-cases (kind.fill (kind.rename key old))) [
      | inr (inl (x, f)) ↦ rw r (rw f refl)
      | inr (inr f) ↦ rw r (rw f refl)
      | inl (new, f) ↦ rw r (rw f (write_object-machine is_found old new m))
    ]
  ]

  pub reconcile_object-IsWritten :
      (m : KubeforceCluster)
      → succeeds (reconcile_object env client kind key m).0 ≡ true
      → IsWritten env client kind key
  unfolding reconcile_object
  reconcile_object-IsWritten m h = elim (Answer-cases (found_or_empty kind (client.read key))) [
    | inr (inl (x, r)) ↦ no_success (rw r at h)
    | inr (inr r) ↦ no_success (rw r at h)
    | inl ((is_found, old), r) ↦ elim (Answer-cases (kind.fill (kind.rename key old))) [
      | inr (inl (x, f)) ↦ no_success (rw (r, f) at h)
      | inr (inr f) ↦ no_success (rw (r, f) at h)
      | inl (new, f) ↦ record {
        is_found = is_found;
        old = old;
        new = new;
        read = r;
        filled = f;
        stored = write_object-IsStored is_found old new m (rw (r, f) at h);
      }
    ]
  ]

  -- An object that is read as it was filled before, which filling leaves as it is.
  pub reconcile_object_same :
      (x : O) (m : KubeforceCluster)
      → client.read key ≡ ok x
      → kind.fill (kind.rename key x) ≡ ok x
      → changes env client x x ≡ ok false
      → reconcile_object env client kind key m ≡ (ok tt, m, [])
  unfolding reconcile_object
  reconcile_object_same x m r f c = rw r (rw f (rw c refl))
