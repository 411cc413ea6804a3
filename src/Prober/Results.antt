-- ===== src/Prober/Results.antt =====
-- cluster-api-provider-kubeforce/controllers/prober/results_manager.go: the cache of probe results
-- and the channel of its changes. A successful result is `true`.
pub mod Updates
use kubeforce.Base.{
  ℕ, String, Bool, true, false, not, ◌||◌, Option, none, some, List, [], ◌∷◌, ◌++◌, StringMap,
  lookup, insert, if◌then◌else◌, ltb, length, delete,
}
use kubeforce.Conditions.{ConditionStatus, condition_true, condition_false}

pub record ResultItem : Type 0 where
  pub probe_result : Bool
  pub time : ℕ
  pub reason : String
  pub message : String

abbrev pub result_string : Bool → String
result_string true = "Success"
result_string false = "Failure"

unfoldable pub new_result_item : ℕ → Bool → String → String → ResultItem
new_result_item now r reason message = record {
  probe_result = r;
  time = now;
  reason = reason;
  message = message;
}

unfoldable pub to_condition_status : ResultItem → ConditionStatus
to_condition_status i = if i.probe_result then condition_true else condition_false

pub record Update : Type 0 where
  pub key : String
  pub result : ResultItem

pub record ResultManager : Type 0 where
  pub cache : StringMap ResultItem
  pub updates : List Update

abbrev pub updates_capacity : ℕ
updates_capacity = 20

unfoldable pub new_result_manager : ResultManager
new_result_manager = record { cache = []; updates = [] }

unfoldable pub get : ResultManager → String → Option ResultItem
get m key = lookup key m.cache

abbrev pub same_result : Bool → Bool → Bool
same_result true r = r
same_result false r = not r

-- `!exists || prev.ProbeResult != res.ProbeResult`.
abbrev pub is_updated : Option ResultItem → ResultItem → Bool
is_updated none res = true
is_updated (some prev) res = not (same_result prev.probe_result res.probe_result)

-- The new cache, and whether the result is new or another than before.
unfoldable pub set_internal : ResultManager → String → ResultItem → ResultManager × Bool
set_internal m key res =
    (record m { cache = insert key res m.cache }, is_updated (lookup key m.cache) res)

-- A send on the channel goes through while the buffer has room; `none` is a sender that waits.
unfoldable pub send : ResultManager → Update → Option ResultManager
send m u =
    if ltb (length m.updates) updates_capacity
    then some (record m { updates = m.updates ++ (u ∷ []) })
    else none

-- `Set` where nobody else acts between the write and the send.
unfoldable pub set : ResultManager → String → ResultItem → Option ResultManager
set m key res =
    let (m', updated) = set_internal m key res in
    if updated then send m' (record { key = key; result = res }) else some m'

unfoldable pub remove : ResultManager → String → ResultManager
remove m key = record m { cache = delete key m.cache }

-- What the receiver takes from the channel.
unfoldable pub receive : ResultManager → Option (Update × ResultManager)
receive m = elim m.updates [ [] ↦ none | u ∷ us ↦ some (u, record m { updates = us }) ]
