-- ===== src/Prober/Controller/Leave.antt =====
-- That a probe worker that is told to stop can leave (cluster-api-provider-kubeforce/controllers/prober).
use kubeforce.Api.{Error}
use kubeforce.Base.{
  ℕ, ◌⊎◌, ◌≤◌, ◌≡◌, ◌≢◌, refl, ◌∙◌, inl, inr, String, Bool, true, false, Option, none, some, List,
  [], ◌∷◌, ◌++◌, arith, length, lookup, lookup-insert, lookup-delete, str_eq_iff, str_eq_refl,
  Option-cases, if◌then◌else◌, lookup-insert_self,
}
use kubeforce.Prober.Results.{
  set_internal, ResultItem, Update, ResultManager, send, receive, updates_capacity,
}
use kubeforce.Prober.Worker.{Worker, stop, do_probe, count_result}
use kubeforce.Prober.Controller.{
  Stage, probing, waiting, leaving, sending, Running, Controller, new_controller, remove_worker,
  remove_probe, next_stage, set_stage, put, write_result, probe, Step, ensured, removed, probed,
  sent, ticked, broke, cancelled, left, received, Reach,
}
use kubeforce.Prober.Controller.Invariant.{Inv, Step-Inv, Reach-Inv}
use kubeforce.Prober.Controller.Stale.{remove_probe_stops}

-- The steps that need no call, no new probe and no end of a context: a worker sends its update, leaves
-- its loop for the closed stop channel and removes itself, and the receiver takes an update.
abbrev pub is_draining : {c d : Controller} → Step c d → Bool
is_draining (ensured key params c) = false
is_draining (removed key c) = false
is_draining (probed now key r keep_going err c h s) = false
is_draining (sent key r u keep_going m c h s e) = true
is_draining (ticked key r c h s) = false
is_draining (broke key r c h s t) = true
is_draining (cancelled key r c h s) = false
is_draining (left key r c h s) = true
is_draining (received u m c h) = true

pub data Drain : Controller → Controller → Type 0 where
  drained : {c : Controller} → Drain c c
  before : {c d e : Controller} → (s : Step c d) → is_draining s ≡ true → Drain d e → Drain c e

-- A run of such steps to a state without the worker of the key, which leaves the other workers alone.
abbrev pub Leaves : String → Controller → Type 0
Leaves key c =
    (d : Controller) × Drain c d
    × (lookup key d.workers ≡ none)
    × ((k : String) → key ≢ k → lookup k d.workers ≡ lookup k c.workers)

follow_on :
    (key : String) (c d : Controller) (s : Step c d)
    → is_draining s ≡ true
    → ((k : String) → key ≢ k → lookup k d.workers ≡ lookup k c.workers)
    → Leaves key d
    → Leaves key c
follow_on key c d s i same (e, r, gone, others) =
    (e, before s i r, gone, λ k n. others k n ∙ same k n)

put_others :
    (key : String) (r : Running) (c : Controller) (k : String)
    → key ≢ k
    → lookup k (put key r c).workers ≡ lookup k c.workers
put_others key r c k n = rw lookup-insert (ground (arith, str_eq_iff key k))

leaving-Leaves :
    (key : String) (r : Running) (c : Controller)
    → Inv c
    → lookup key c.workers ≡ some r
    → r.stage ≡ leaving
    → Leaves key c
unfolding remove_worker
leaving-Leaves key r c v h s =
    let at = (v.entries key r h).0 in
    (
      remove_worker r.worker.key c,
      before (left key r c h s) refl drained,
      rw at (rw lookup-delete (rw str_eq_refl refl)),
      λ k n. rw at (rw lookup-delete (ground (arith, str_eq_iff key k))),
    )

waiting-Leaves :
    (key : String) (r : Running) (c : Controller)
    → Inv c
    → lookup key c.workers ≡ some r
    → r.worker.stopped ≡ true
    → r.stage ≡ waiting
    → Leaves key c
waiting-Leaves key r c v h t s =
    let st = broke key r c h s t in
    let q = set_stage leaving r in
    follow_on key c (put key q c) st refl (λ k n. put_others key q c k n)
      (leaving-Leaves key q (put key q c) (Step-Inv st v) (lookup-insert_self key q c.workers) refl)

next_stage-Leaves :
    (key : String) (r : Running) (keep_going : Bool) (c : Controller)
    → Inv c
    → lookup key c.workers ≡ some r
    → r.worker.stopped ≡ true
    → r.stage ≡ next_stage keep_going
    → Leaves key c
next_stage-Leaves key r true c v h t s = waiting-Leaves key r c v h t s
next_stage-Leaves key r false c v h t s = leaving-Leaves key r c v h s

sent-Leaves :
    (key : String) (r : Running) (u : Update) (keep_going : Bool) (m : ResultManager)
    (c : Controller)
    → Inv c
    → lookup key c.workers ≡ some r
    → r.worker.stopped ≡ true
    → r.stage ≡ sending u keep_going
    → send c.result_manager u ≡ some m
    → Leaves key c
sent-Leaves key r u keep_going m c v h t s e =
    let q = set_stage (next_stage keep_going) r in
    let d = record c { result_manager = m } in
    let st = sent key r u keep_going m c h s e in
    follow_on key c (put key q d) st refl (λ k n. put_others key q d k n)
      (next_stage-Leaves key q keep_going (put key q d) (Step-Inv st v)
        (lookup-insert_self key q d.workers) t refl)

-- What the receiver leaves of a channel that is full.
send_after_receive :
    (m : ResultManager) (u : Update)
    → length m.updates ≤ updates_capacity
    → send m u ≡ none
    → (w : Update) × (m' : ResultManager) × (m'' : ResultManager) × (receive m ≡ some (w, m'))
      × (send m' u ≡ some m'')
unfolding send receive
send_after_receive m u b h = go m.updates refl
  where
    go :
        (ws : List Update)
        → m.updates ≡ ws
        → (w : Update) × (m' : ResultManager) × (m'' : ResultManager) × (receive m ≡ some (w, m'))
          × (send m' u ≡ some m'')
    go [] e = absurd (ground arith)
    go (w ∷ us) e = (
      w,
      record m { updates = us },
      record m { updates = us ++ (u ∷ []) },
      rw (e, receive) refl,
      ground arith,
    )

sending-Leaves :
    (key : String) (r : Running) (u : Update) (keep_going : Bool) (c : Controller)
    → Inv c
    → lookup key c.workers ≡ some r
    → r.worker.stopped ≡ true
    → r.stage ≡ sending u keep_going
    → Leaves key c
sending-Leaves key r u keep_going c v h t s = elim (Option-cases (send c.result_manager u)) [
  | inr (m, e) ↦ sent-Leaves key r u keep_going m c v h t s e
  | inl e ↦
      let (w, m, m', g, room) = send_after_receive c.result_manager u v.bounded e in
      let st = received w m c g in
      follow_on key c (record c { result_manager = m }) st refl (λ k n. refl)
        (sent-Leaves key r u keep_going m' (record c { result_manager = m }) (Step-Inv st v) h t s
          room)
]

-- A worker behind its probe: at a send, in the `select`, or behind its loop.
abbrev IsBehind : Bool → Running → Type 0
IsBehind keep_going r =
    (r.stage ≡ next_stage keep_going) ⊎ ((u : Update) × (r.stage ≡ sending u keep_going))

behind-Leaves :
    (key : String) (r : Running) (keep_going : Bool) (c : Controller)
    → Inv c
    → lookup key c.workers ≡ some r
    → r.worker.stopped ≡ true
    → IsBehind keep_going r
    → Leaves key c
behind-Leaves key r keep_going c v h t (inl s) = next_stage-Leaves key r keep_going c v h t s
behind-Leaves key r keep_going c v h t (inr (u, s)) = sending-Leaves key r u keep_going c v h t s

-- Where a probe leaves its worker.
abbrev ProbedAt : String → Running → Bool → Controller → Type 0
ProbedAt key r keep_going d =
    (q : Running) × (lookup key d.workers ≡ some q)
    × (q.worker.stopped ≡ r.worker.stopped)
    × IsBehind keep_going q

write_result-ProbedAt :
    (key : String) (r : Running) (keep_going : Bool) (res : Option ResultItem) (c : Controller)
    → ProbedAt key r keep_going (write_result key r keep_going res c)
write_result-ProbedAt key r keep_going none c =
    let q = set_stage (next_stage keep_going) r in
    (q, lookup-insert_self key q c.workers, refl, inl refl)
write_result-ProbedAt key r keep_going (some res) c =
    let (m, updated) = set_internal c.result_manager r.worker.key res in
    let u : Update = record { key = r.worker.key; result = res } in
    let q = set_stage (if updated then sending u keep_going else next_stage keep_going) r in
    (q, lookup-insert_self key q c.workers, refl, behind updated u)
  where
    behind :
        (updated : Bool) (u : Update)
        → IsBehind keep_going
            (set_stage (if updated then sending u keep_going else next_stage keep_going) r)
    behind true u = inr (u, refl)
    behind false u = inl refl

do_probe_stopped :
    (now : ℕ) (w : Worker) (err : Option Error) → (do_probe now w err).0.stopped ≡ w.stopped
unfolding do_probe count_result
do_probe_stopped now w err = ground arith

probing-Leaves :
    (key : String) (r : Running) (c : Controller)
    → Inv c
    → lookup key c.workers ≡ some r
    → r.worker.stopped ≡ true
    → r.stage ≡ probing
    → (now : ℕ) (keep_going : Bool) (err : Option Error)
    → Leaves key (probe now key r keep_going err c)
unfolding probe
probing-Leaves key r c v h t s now keep_going err =
    let st = probed now key r keep_going err c h s in
    let (q, at, same, behind) =
      write_result-ProbedAt key (record r { worker = (do_probe now r.worker err).0 }) keep_going
        (do_probe now r.worker err).1 c in
    behind-Leaves key q keep_going (probe now key r keep_going err c) (Step-Inv st v) at
      (same ∙ do_probe_stopped now r.worker err ∙ t) behind

-- A worker that is in a probe leaves once the probe has answered, whatever it answers; any other
-- leaves as it is.
abbrev pub Finishes : String → Running → Controller → Type 0
Finishes key r c =
    ((r.stage ≡ probing)
      × ((now : ℕ) (keep_going : Bool) (err : Option Error)
          → Leaves key (probe now key r keep_going err c)))
    ⊎ Leaves key c

stopped-Finishes :
    (key : String) (r : Running) (c : Controller)
    → Inv c
    → lookup key c.workers ≡ some r
    → r.worker.stopped ≡ true
    → (s : Stage) → r.stage ≡ s
    → Finishes key r c
stopped-Finishes key r c v h t probing s = inl (s, probing-Leaves key r c v h t s)
stopped-Finishes key r c v h t waiting s = inr (waiting-Leaves key r c v h t s)
stopped-Finishes key r c v h t leaving s = inr (leaving-Leaves key r c v h s)
stopped-Finishes key r c v h t (sending u b) s = inr (sending-Leaves key r u b c v h t s)

stop_stops : (w : Worker) → (stop w).stopped ≡ true
unfolding stop
stop_stops w = refl

-- After `RemoveProbe` of a key that has a worker, in any state that is reached from a new controller,
-- there are steps to a state without that worker in which all other workers are as they were. They
-- start no probe and end no context: a probe that is under way first answers, in any way, an update is
-- sent, also on the full channel, and the worker leaves its loop for the closed stop channel.
pub remove_probe-Finishes :
    (key : String) (r : Running) (c : Controller)
    → Reach new_controller c
    → lookup key c.workers ≡ some r
    → Finishes key (record r { worker = stop r.worker }) (remove_probe key c)
remove_probe-Finishes key r c reach h =
    stopped-Finishes key (record r { worker = stop r.worker }) (remove_probe key c)
      (Step-Inv (removed key c) (Reach-Inv reach)) (remove_probe_stops key r c h).0
      (stop_stops r.worker) r.stage refl
