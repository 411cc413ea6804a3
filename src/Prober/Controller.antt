-- ===== src/Prober/Controller.antt =====
-- cluster-api-provider-kubeforce/controllers/prober/controller.go: the controller of the probe
-- workers, and the steps that its calls and its goroutines take. A step is one critical section or
-- one operation on a channel.
pub mod Invariant
pub mod Stale
pub mod Leave
use kubeforce.Base.{
  ℕ, String, Bool, true, false, Option, none, some, List, [], ◌∷◌, ◌≡◌, ◌≢◌, StringMap, lookup,
  insert, delete, if◌then◌else◌,
}
use kubeforce.Api.{Error}
use kubeforce.Prober.Results.{
  ResultItem, Update, ResultManager, new_result_manager, get, set_internal, send, receive,
}
use kubeforce.Prober.Worker.{
  ProbeParams, params_equal, Worker, new_worker, stop, set_probe_params, do_probe,
}

-- Where the goroutine of a worker stands: before a probe, at the send of an update, in the
-- `select` between two probes, or behind the loop.
pub data Stage : Type 0 where
  probing waiting leaving : Stage
  sending : Update → Bool → Stage

pub record Running : Type 0 where
  pub worker : Worker
  pub stage : Stage

pub record Controller : Type 0 where
  pub workers : StringMap Running
  pub result_manager : ResultManager

unfoldable pub new_controller : Controller
new_controller = record { workers = []; result_manager = new_result_manager }

-- `EnsureProbe`: the worker of the key gets changed parameters, or there is none and one is started.
unfoldable pub ensure_probe : String → ProbeParams → Controller → Controller
ensure_probe key params c = elim (lookup key c.workers) [
  | some old ↦ if params_equal old.worker.probe_params params then c else record c {
    workers = insert key (record old { worker = set_probe_params params old.worker }) c.workers;
  }
  | none ↦ record c {
    workers = insert key (record { worker = new_worker key params; stage = probing }) c.workers;
  }
]

-- `RemoveProbe` only tells the worker to stop.
unfoldable pub remove_probe : String → Controller → Controller
remove_probe key c = elim (lookup key c.workers) [
  | some r ↦ record c { workers = insert key (record r { worker = stop r.worker }) c.workers }
  | none ↦ c
]

unfoldable pub get_current_status : String → Controller → Option ResultItem
get_current_status key c = get c.result_manager key

unfoldable pub remove_worker : String → Controller → Controller
remove_worker key c = record c { workers = delete key c.workers }

-- Whether the loop goes on after a probe.
abbrev pub next_stage : Bool → Stage
next_stage true = waiting
next_stage false = leaving

abbrev pub set_stage : Stage → Running → Running
set_stage s r = record r { stage = s }

abbrev pub put : String → Running → Controller → Controller
put key r c = record c { workers = insert key r c.workers }

-- A probe of the worker under the key, with the answer of its handler: the worker counts it, and the
-- result that it sets, if any, is written to the cache; a changed one is to be sent.
abbrev pub write_result : String → Running → Bool → Option ResultItem → Controller → Controller
write_result key r keep_going none c = put key (set_stage (next_stage keep_going) r) c
write_result key r keep_going (some res) c =
    let (m, updated) = set_internal c.result_manager r.worker.key res in
    let stage =
      if updated
      then sending (record { key = r.worker.key; result = res }) keep_going
      else next_stage keep_going in
    put key (set_stage stage r) (record c { result_manager = m })

unfoldable pub probe : ℕ → String → Running → Bool → Option Error → Controller → Controller
probe now key r keep_going err c =
    let (w, res) = do_probe now r.worker err in
    write_result key (record r { worker = w }) keep_going res c

-- The answer of `updateStatus`: the worker to which an update is handed, if it is still there.
unfoldable pub update_status : Update → Controller → Option Running
update_status u c = lookup u.key c.workers

pub data Step : Controller → Controller → Type 0 where
  ensured :
      (key : String) (params : ProbeParams) (c : Controller) → Step c (ensure_probe key params c)
  removed : (key : String) (c : Controller) → Step c (remove_probe key c)
  probed :
      (now : ℕ) (key : String) (r : Running) (keep_going : Bool) (err : Option Error)
      (c : Controller)
      → lookup key c.workers ≡ some r
      → r.stage ≡ probing
      → Step c (probe now key r keep_going err c)
  sent :
      (key : String) (r : Running) (u : Update) (keep_going : Bool) (m : ResultManager)
      (c : Controller)
      → lookup key c.workers ≡ some r
      → r.stage ≡ sending u keep_going
      → send c.result_manager u ≡ some m
      → Step c (put key (set_stage (next_stage keep_going) r) (record c { result_manager = m }))
  ticked :
      (key : String) (r : Running) (c : Controller)
      → lookup key c.workers ≡ some r
      → r.stage ≡ waiting
      → Step c (put key (set_stage probing r) c)
  -- The stop channel is closed.
  broke :
      (key : String) (r : Running) (c : Controller)
      → lookup key c.workers ≡ some r
      → r.stage ≡ waiting
      → r.worker.stopped ≡ true
      → Step c (put key (set_stage leaving r) c)
  -- The context of the worker is done, which it can be at any time.
  cancelled :
      (key : String) (r : Running) (c : Controller)
      → lookup key c.workers ≡ some r
      → r.stage ≡ waiting
      → Step c (put key (set_stage leaving r) c)
  -- The deferred function: `stop`, then `removeWorker`.
  left :
      (key : String) (r : Running) (c : Controller)
      → lookup key c.workers ≡ some r
      → r.stage ≡ leaving
      → Step c (remove_worker r.worker.key c)
  received :
      (u : Update) (m : ResultManager) (c : Controller)
      → receive c.result_manager ≡ some (u, m)
      → Step c (record c { result_manager = m })

pub data Reach (c : Controller) : Controller → Type 0 where
  here : Reach c c
  next : {d e : Controller} → Reach c d → Step d e → Reach c e
