-- ===== src/Provider/Template/Order.antt =====
-- The order in which cluster-api-provider-kubeforce/controllers/playbook/reconciler.go visits the
-- templates of an object.
use kubeforce.Base.{String, StringMap, arith, IsOrder, Sorted, sort_stable-Sorted, sort_stable-perm}
use mathlib.Core.List.{Perm}
use kubeforce.Provider.Types.{TemplateReference}
use kubeforce.Provider.Template.{has_priority, references_of, get_references}

has_priority-IsOrder : IsOrder has_priority
has_priority-IsOrder = record { asymm = λ a b h. ground arith; trans = λ a b c h k. ground arith }

-- The references that are visited are those of the type in question, each as often as the object
-- names it, and none comes before one of higher priority.
pub get_references_lem :
    (templates : StringMap TemplateReference) (type : String)
    → Sorted has_priority (get_references templates type)
      × Perm (get_references templates type) (references_of templates type)
unfolding get_references
get_references_lem templates type = (
  sort_stable-Sorted has_priority-IsOrder (references_of templates type),
  sort_stable-perm has_priority (references_of templates type),
)
