-- ===== src/Api.antt =====
-- What the reconcilers share of Kubernetes and controller-runtime, none of it under this
-- repository: errors, object metadata, and the finalizer functions, which are a parameter with the
-- behaviour that their documentation states.
use kubeforce.Base.{
  ℕ, String, Bool, true, false, Option, none, some, List, ◌≡◌, ◌≢◌, StringMap, ◌==◌, not,
}

-- An error is told apart by `apierrors.IsNotFound`, and is otherwise its text.
pub data Error : Type 0 where
  not_found failure : String → Error

abbrev pub is_not_found : Error → Bool
is_not_found (not_found s) = true
is_not_found (failure s) = false

-- `err.Error()`.
abbrev pub text : Error → String
text (not_found s) = s
text (failure s) = s

pub record OwnerReference : Type 0 where
  pub api_version : String
  pub kind : String
  pub name : String
  pub uid : String
  pub controller : Bool
  pub block_owner_deletion : Bool

-- A zero deletion timestamp means that the object is not being deleted.
pub record ObjectMeta : Type 0 where
  pub name : String
  pub generate_name : String
  pub namespace : String
  pub uid : String
  pub labels : StringMap String
  pub annotations : StringMap String
  pub generation : ℕ
  pub creation_timestamp : ℕ
  pub deletion_timestamp : ℕ
  pub finalizers : List String
  pub owner_references : List OwnerReference

abbrev pub is_deleted : ObjectMeta → Bool
is_deleted m = not (m.deletion_timestamp == 0)

-- `err == nil`.
abbrev pub is_nil : Option Error → Bool
is_nil none = true
is_nil (some e) = false

-- controllerutil.ContainsFinalizer, AddFinalizer and RemoveFinalizer.
pub record Finalizers : Type 0 where
  pub contains : List String → String → Bool
  pub add : List String → String → List String
  pub remove : List String → String → List String
  pub contains-add : (fs : List String) (f : String) → contains (add fs f) f ≡ true
  pub contains-add_other :
      (fs : List String) (f g : String) → f ≢ g → contains (add fs f) g ≡ contains fs g
  pub contains-remove : (fs : List String) (f : String) → contains (remove fs f) f ≡ false
  pub contains-remove_other :
      (fs : List String) (f g : String) → f ≢ g → contains (remove fs f) g ≡ contains fs g
