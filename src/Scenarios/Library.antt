-- ===== src/Scenarios/Library.antt =====
-- Concrete functions for the parameters that stand for code outside of the repository.
use kubeforce.Base.{
  ◌≡◌, ◌≢◌, refl, String, Bool, true, false, List, [], ◌∷◌, ◌||◌, arith, str_eq, str_eq_iff,
  str_eq_refl, if◌then◌else◌, Option, none, some,
}
use kubeforce.Api.{Finalizers, ObjectMeta, Error}
use kubeforce.Provider.Types.{CertTemplate}

abbrev pub no_cert_template : CertTemplate
no_cert_template = record {
  issuer_ref = record { name = ""; kind = ""; group = "" };
  duration = none;
  renew_before = none;
  dns_names = [];
  ip_addresses = [];
  private_key = none;
}

abbrev contains : List String → String → Bool
contains [] f = false
contains (g ∷ fs) f = str_eq g f || contains fs f

abbrev add : List String → String → List String
add [] f = f ∷ []
add (g ∷ fs) f = let rest = add fs f in if str_eq g f then g ∷ fs else g ∷ rest

abbrev remove : List String → String → List String
remove [] f = []
remove (g ∷ fs) f = let rest = remove fs f in if str_eq g f then rest else g ∷ rest

pub contains-add : (fs : List String) (f : String) → contains (add fs f) f ≡ true
contains-add [] f = ground (arith, str_eq_refl f)
contains-add (g ∷ fs) f = ground (arith, contains-add fs f)

pub contains-add_other :
    (fs : List String) (f g : String) → f ≢ g → contains (add fs f) g ≡ contains fs g
contains-add_other [] f g n = ground (arith, str_eq_iff f g)
contains-add_other (h ∷ fs) f g n = ground (arith, contains-add_other fs f g n)

pub contains-remove : (fs : List String) (f : String) → contains (remove fs f) f ≡ false
contains-remove [] f = refl
contains-remove (g ∷ fs) f = ground (arith, contains-remove fs f)

pub contains-remove_other :
    (fs : List String) (f g : String) → f ≢ g → contains (remove fs f) g ≡ contains fs g
contains-remove_other [] f g n = refl
contains-remove_other (h ∷ fs) f g n =
    ground (arith, contains-remove_other fs f g n, str_eq_iff h f, str_eq_iff h g)

abbrev pub finalizers : Finalizers
finalizers = record {
  contains = contains;
  add = add;
  remove = remove;
  contains-add = contains-add;
  contains-add_other = contains-add_other;
  contains-remove = contains-remove;
  contains-remove_other = contains-remove_other;
}

-- An object with a name and finalizers, created at a time.
abbrev pub object_meta : String → List String → ObjectMeta
object_meta name fs = record {
  name = name;
  generate_name = "";
  namespace = "default";
  uid = "uid-1";
  labels = [];
  annotations = [];
  generation = 1;
  creation_timestamp = 1_000;
  deletion_timestamp = 0;
  finalizers = fs;
  owner_references = [];
}

abbrev pub first_of_two : Option Error → Option Error → Option Error
first_of_two none e = e
first_of_two (some d) e = some d
