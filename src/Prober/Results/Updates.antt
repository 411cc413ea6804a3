-- ===== src/Prober/Results/Updates.antt =====
-- Which results are announced on the channel
-- (cluster-api-provider-kubeforce/controllers/prober/results_manager.go).
use kubeforce.Base.{
  ◌≡◌, refl, String, Bool, true, not, Option, none, some, List, [], ◌∷◌, arith, lookup,
  lookup-insert, str_eq, str_eq_iff, if◌then◌else◌, length, ◌≤◌, length-append,
}
use kubeforce.Prober.Results.{
  ResultItem, Update, ResultManager, same_result, is_updated, set_internal, get, send, set,
  updates_capacity,
}

-- The updates that a list of calls of `Set` hands to the channel, in order.
unfoldable pub announced : ResultManager → List (String × ResultItem) → List Update
announced m [] = []
announced m ((key, res) ∷ sets) =
    let (m', updated) = set_internal m key res in
    let rest = announced m' sets in
    if updated then record { key = key; result = res } ∷ rest else rest

-- The results among them for one key.
abbrev pub for_key : String → List Update → List Bool
for_key k [] = []
for_key k (u ∷ us) =
    let rest = for_key k us in if str_eq u.key k then u.result.probe_result ∷ rest else rest

abbrev pub result_of : Option ResultItem → Option Bool
result_of none = none
result_of (some i) = some i.probe_result

abbrev pub differs : Option Bool → Bool → Bool
differs none r = true
differs (some p) r = not (same_result p r)

-- The results set for one key, each only where it differs from the one before.
abbrev pub changes : String → Option Bool → List (String × ResultItem) → List Bool
changes k prev [] = []
changes k prev ((j, res) ∷ sets) =
    let here = changes k (some res.probe_result) sets in
    let there = changes k prev sets in
    if str_eq j k
    then (if differs prev res.probe_result then res.probe_result ∷ here else here)
    else there

differs-is_updated :
    (o : Option ResultItem) (res : ResultItem)
    → is_updated o res ≡ differs (result_of o) res.probe_result
differs-is_updated o res = ground arith

-- For every key, what is announced of it are exactly the changes of its result: the results that
-- were set for it, without those that equal the one before, the cached one at the start.
pub announced-changes :
    (k : String) (m : ResultManager) (sets : List (String × ResultItem))
    → for_key k (announced m sets) ≡ changes k (result_of (lookup k m.cache)) sets
unfolding announced set_internal
announced-changes k m [] = refl
announced-changes k m ((j, res) ∷ sets) = ground (
  arith,
  str_eq_iff j k,
  announced-changes k (set_internal m j res).0 sets,
  lookup-insert j k res m.cache,
  differs-is_updated (lookup j m.cache) res,
)

-- After a `Set` that goes through, the key has the item that was set and the other keys have what
-- they had; the channel holds at most its capacity of updates if it did before.
pub set-get :
    (m m' : ResultManager) (key k : String) (res : ResultItem)
    → set m key res ≡ some m'
    → length m.updates ≤ updates_capacity
    → (get m' k ≡ (if str_eq key k then some res else get m k))
      × (length m'.updates ≤ updates_capacity)
unfolding set set_internal send get
set-get m m' key k res h c = ground (
  arith,
  lookup-insert key k res m.cache,
  length-append m.updates (record { key = key; result = res } ∷ []),
)
