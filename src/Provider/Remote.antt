-- ===== src/Provider/Remote.antt =====
-- What the controllers of remote objects share: the conditions of Cluster API, which are a
-- parameter with their documented behaviour, `IsHealthy` of
-- cluster-api-provider-kubeforce/pkg/agent/client.go, and the assignment to a label.
use kubeforce.Base.{
  String, Bool, true, false, ◌&&◌, Option, [], ◌∷◌, ◌≡◌, ◌≢◌, StringMap, insert, str_eq,
}
use kubeforce.Provider.Types.{Answer, ok, panicked, ClusterCondition, ClusterConditions, Agent}

-- `mark_false` takes the type, the reason, the severity and the message.
pub record ConditionOps : Type 0 where
  pub is_true : ClusterConditions → String → Bool
  pub get : ClusterConditions → String → Option ClusterCondition
  pub mark_true : ClusterConditions → String → ClusterConditions
  pub mark_unknown : ClusterConditions → String → String → String → ClusterConditions
  pub mark_false : ClusterConditions → String → String → String → String → ClusterConditions
  pub set : ClusterConditions → ClusterCondition → ClusterConditions
  pub is_true-mark_true : (cs : ClusterConditions) (t : String) → is_true (mark_true cs t) t ≡ true
  pub is_true-mark_true_other :
      (cs : ClusterConditions) (t u : String) → t ≢ u → is_true (mark_true cs t) u ≡ is_true cs u
  pub is_true-mark_unknown :
      (cs : ClusterConditions) (t r m : String) → is_true (mark_unknown cs t r m) t ≡ false
  pub is_true-mark_false :
      (cs : ClusterConditions) (t r s m : String) → is_true (mark_false cs t r s m) t ≡ false
  pub is_true-mark_false_other :
      (cs : ClusterConditions) (t r s m u : String)
      → t ≢ u
      → is_true (mark_false cs t r s m) u ≡ is_true cs u
  pub is_true-set :
      (cs : ClusterConditions) (c : ClusterCondition)
      → is_true (set cs c) c.type ≡ str_eq c.status "True"
  pub is_true-set_other :
      (cs : ClusterConditions) (c : ClusterCondition) (u : String)
      → c.type ≢ u
      → is_true (set cs c) u ≡ is_true cs u

abbrev pub is_healthy : ConditionOps → Agent → Bool
is_healthy conds a = a.spec.is_installed && conds.is_true a.status.conditions "Healthy"

-- `IsReady` of the same file.
abbrev pub is_ready : ConditionOps → Agent → Bool
is_ready conds a =
    a.spec.is_installed
    && conds.is_true a.status.conditions "Healthy"
    && conds.is_true a.status.conditions "Ready"

-- `labels[key] = value` on the labels of an object that was read. The API server leaves empty
-- labels out, so that the map is nil where there is no label, and the assignment panics.
abbrev pub assign_label : StringMap String → String → String → Answer (StringMap String)
assign_label [] key value = panicked
assign_label (l ∷ labels) key value = ok (insert key value (l ∷ labels))
