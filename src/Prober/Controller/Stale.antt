-- ===== src/Prober/Controller/Stale.antt =====
-- That a result outlives its probe (cluster-api-provider-kubeforce/controllers/prober/controller.go).
use kubeforce.Base.{
  ◌≡◌, ◌≢◌, refl, inl, inr, String, none, some, arith, lookup, lookup-insert, lookup-delete,
  str_eq_iff, str_eq_refl, Option-cases, lookup-insert_self,
}
use kubeforce.Prober.Worker.{stop}
use kubeforce.Prober.Controller.{
  Running, Controller, remove_probe, remove_worker, get_current_status,
}

-- `RemoveProbe` stops the worker of the key, if there is one, and leaves the other workers and every
-- status alone.
pub remove_probe_stops :
    (key : String) (r : Running) (c : Controller)
    → lookup key c.workers ≡ some r
    → (lookup key (remove_probe key c).workers ≡ some (record r { worker = stop r.worker }))
      × ((k : String) → key ≢ k → lookup k (remove_probe key c).workers ≡ lookup k c.workers)
      × ((k : String) → get_current_status k (remove_probe key c) ≡ get_current_status k c)
unfolding remove_probe get_current_status
remove_probe_stops key r c h = (
  rw (h, remove_probe) (lookup-insert_self key _ c.workers),
  λ k n. rw (h, remove_probe) (rw lookup-insert (ground (arith, str_eq_iff key k))),
  λ k. rw (h, remove_probe) refl,
)

-- After the worker of a key has been told to stop and has left, there is no worker under the key, and
-- `GetCurrentStatus` still gives, for every key, what it gave before.
pub get_current_status-removed :
    (key k : String) (c : Controller)
    → let gone = remove_worker key (remove_probe key c) in
      (lookup key gone.workers ≡ none) × (get_current_status k gone ≡ get_current_status k c)
unfolding remove_worker remove_probe get_current_status
get_current_status-removed key k c = elim (Option-cases (lookup key c.workers)) [
  | inl e ↦ (rw lookup-delete (rw str_eq_refl), rw (e, remove_probe) refl)
  | inr (r, e) ↦ (rw lookup-delete (rw str_eq_refl), rw (e, remove_probe) refl)
]
