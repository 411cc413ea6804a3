-- ===== src/Prober/Controller/Invariant.antt =====
-- What holds of the prober after any calls and any interleaving of its goroutines
-- (cluster-api-provider-kubeforce/controllers/prober).
use mathlib.Core.Path.{subst}
use kubeforce.Base.{
  ℕ, ◌≤◌, ◌≡◌, ◌≢◌, refl, ◌∙◌, inl, inr, String, Bool, true, false, Option, none, some, [], ◌∷◌,
  arith, length, length-append, lookup, insert, lookup-insert, lookup-delete, str_eq, str_eq_iff,
  str_eq_refl, Bool-cases, Option-cases, if◌then◌else◌,
}
use kubeforce.Api.{Error}
use kubeforce.Prober.Results.{
  ResultItem, Update, ResultManager, new_result_manager, get, set_internal, send, receive,
  updates_capacity,
}
use kubeforce.Prober.Worker.{
  ProbeParams, Worker, new_worker, stop, set_probe_params, params_equal, do_probe, count_result,
}
use kubeforce.Prober.Controller.{
  Stage, sending, Running, Controller, new_controller, ensure_probe, remove_probe, remove_worker,
  next_stage, set_stage, put, write_result, probe, Step, ensured, removed, probed, sent, ticked,
  broke, cancelled, left, received, Reach, here, next,
}

-- A worker stands under its own key, and an update that it is about to send is the cached result.
abbrev pub Entry : ResultManager → String → Running → Type 0
Entry m k r =
    (r.worker.key ≡ k)
    × ((u : Update) (b : Bool) → r.stage ≡ sending u b → (u.key ≡ k) × (get m k ≡ some u.result))

pub record Inv (c : Controller) : Type 0 where
  pub entries :
      (k : String) (r : Running) → lookup k c.workers ≡ some r → Entry c.result_manager k r
  pub bounded : length c.result_manager.updates ≤ updates_capacity

pub new_controller-Inv : Inv new_controller
unfolding new_controller new_result_manager lookup
new_controller-Inv = record { entries = λ k r h. cc; bounded = omega arith }

-- The worker of one key and the result manager change, and the results of other keys do not.
put-Inv :
    (key : String) (r : Running) (m : ResultManager) (c : Controller)
    → Inv c
    → Entry m key r
    → ((k : String) → key ≢ k → get m k ≡ get c.result_manager k)
    → length m.updates ≤ updates_capacity
    → Inv (put key r (record c { result_manager = m }))
put-Inv key r m c v e same b = record { entries = entries; bounded = b }
  where
    entries : (k : String) (q : Running) → lookup k (insert key r c.workers) ≡ some q → Entry m k q
    entries k q h = elim (Bool-cases (str_eq key k)) [
      | inl p ↦
          let same_key : key ≡ k = (str_eq_iff key k).0 p in
          let same_worker : r ≡ q = ground (arith, lookup-insert key k r c.workers) in
          subst (λ x. Entry m k x) same_worker (subst (λ x. Entry m x r) same_key e)
      | inr p ↦
          let found : lookup k c.workers ≡ some q =
            ground (arith, lookup-insert key k r c.workers) in
          let other : key ≢ k = λ x. ground (arith, str_eq_iff key k) in
          let old = v.entries k q found in
          (old.0, λ u b s. let (at, cached) = old.1 u b s in (at, same k other ∙ cached))
    ]

-- A worker that is not at a send.
abbrev IsQuiet : Stage → Type 0
IsQuiet s = (u : Update) (b : Bool) → s ≡ sending u b → ⊥

next_stage-IsQuiet : (keep_going : Bool) → IsQuiet (next_stage keep_going)
next_stage-IsQuiet true u b h = cc
next_stage-IsQuiet false u b h = cc

quiet_Entry :
    (m : ResultManager) (k : String) (r : Running)
    → r.worker.key ≡ k
    → IsQuiet r.stage
    → Entry m k r
quiet_Entry m k r e q = (e, λ u b s. absurd (q u b s))

-- The same worker at another stage, while the results stay.
put_quiet-Inv :
    (key : String) (r : Running) (c : Controller)
    → Inv c
    → r.worker.key ≡ key
    → IsQuiet r.stage
    → Inv (put key r c)
put_quiet-Inv key r c v e q =
    put-Inv key r c.result_manager c v (quiet_Entry c.result_manager key r e q) (λ k n. refl)
      v.bounded

do_probe_key : (now : ℕ) (w : Worker) (err : Option Error) → (do_probe now w err).0.key ≡ w.key
unfolding do_probe count_result
do_probe_key now w err = ground arith

send-cache :
    (m m' : ResultManager) (u : Update)
    → send m u ≡ some m'
    → ((k : String) → get m' k ≡ get m k) × (length m'.updates ≤ updates_capacity)
unfolding send get
send-cache m m' u h = (λ k. ground arith, ground (arith, length-append m.updates (u ∷ [])))

ensure_probe-Inv :
    (key : String) (params : ProbeParams) (c : Controller) → Inv c → Inv (ensure_probe key params c)
unfolding ensure_probe
ensure_probe-Inv key params c v = elim (Option-cases (lookup key c.workers)) [
  | inl e ↦ rw (e, ensure_probe) (put_quiet-Inv key _ c v (unfold new_worker in refl) (λ u b h. cc))
  | inr (old, e) ↦ elim (Bool-cases (params_equal old.worker.probe_params params)) [
    | inl same ↦ rw (e, ensure_probe) (rw same v)
    | inr changed ↦
        rw (e, ensure_probe)
          (rw changed (
            put-Inv key _ c.result_manager c v (unfold set_probe_params in v.entries key old e)
              (λ k n. refl) v.bounded))
  ]
]

remove_probe-Inv : (key : String) (c : Controller) → Inv c → Inv (remove_probe key c)
unfolding remove_probe
remove_probe-Inv key c v = elim (Option-cases (lookup key c.workers)) [
  | inl e ↦ rw (e, remove_probe) v
  | inr (old, e) ↦
      rw (e, remove_probe)
        (put-Inv key _ c.result_manager c v (unfold stop in v.entries key old e) (λ k n. refl)
          v.bounded)
]

remove_worker-Inv : (key : String) (c : Controller) → Inv c → Inv (remove_worker key c)
unfolding remove_worker
remove_worker-Inv key c v = record {
  entries = λ k r h. v.entries k r (ground (arith, lookup-delete key k c.workers));
  bounded = v.bounded;
}

abbrev written_stage : Running → Bool → ResultItem → Bool → Stage
written_stage r keep_going res updated =
    if updated
    then sending (record { key = r.worker.key; result = res }) keep_going
    else next_stage keep_going

written_Entry :
    (m : ResultManager) (key : String) (r : Running) (keep_going : Bool) (res : ResultItem)
    (updated : Bool)
    → r.worker.key ≡ key
    → get m key ≡ some res
    → Entry m key (set_stage (written_stage r keep_going res updated) r)
written_Entry m key r keep_going res true e g = (e, λ u b s. (cc, cc))
written_Entry m key r keep_going res false e g =
    quiet_Entry m key (set_stage (next_stage keep_going) r) e (next_stage-IsQuiet keep_going)

get-set_internal :
    (m : ResultManager) (key k : String) (res : ResultItem)
    → get (set_internal m key res).0 k ≡ (if str_eq key k then some res else get m k)
unfolding get set_internal
get-set_internal m key k res = lookup-insert key k res m.cache

received_cache :
    (u : Update) (m : ResultManager) (c : Controller)
    → receive c.result_manager ≡ some (u, m)
    → (k : String) → get m k ≡ get c.result_manager k
unfolding receive get
received_cache u m c h k = ground arith

write_result-Inv :
    (key : String) (r : Running) (keep_going : Bool) (res : Option ResultItem) (c : Controller)
    → Inv c
    → r.worker.key ≡ key
    → Inv (write_result key r keep_going res c)
unfolding set_internal
write_result-Inv key r keep_going none c v e =
    put_quiet-Inv key _ c v e (next_stage-IsQuiet keep_going)
write_result-Inv key r keep_going (some res) c v e =
    let m = (set_internal c.result_manager r.worker.key res).0 in
    let updated = (set_internal c.result_manager r.worker.key res).1 in
    let cached = λ (k : String). get-set_internal c.result_manager r.worker.key k res in
    put-Inv key (set_stage (written_stage r keep_going res updated) r) m c v
      (written_Entry m key r keep_going res updated e (cached key ∙ simp (e, str_eq_refl)))
      (λ k n. cached k ∙ ground (arith, str_eq_iff r.worker.key k)) v.bounded

probe-Inv :
    (now : ℕ) (key : String) (r : Running) (keep_going : Bool) (err : Option Error) (c : Controller)
    → Inv c
    → r.worker.key ≡ key
    → Inv (probe now key r keep_going err c)
unfolding probe
probe-Inv now key r keep_going err c v e =
    write_result-Inv key (record r { worker = (do_probe now r.worker err).0 }) keep_going
      (do_probe now r.worker err).1 c v (do_probe_key now r.worker err ∙ e)

sent-Inv :
    (key : String) (r : Running) (u : Update) (keep_going : Bool) (m : ResultManager)
    (c : Controller)
    → Inv c
    → r.worker.key ≡ key
    → send c.result_manager u ≡ some m
    → Inv (put key (set_stage (next_stage keep_going) r) (record c { result_manager = m }))
sent-Inv key r u keep_going m c v e h =
    let (cache, room) = send-cache c.result_manager m u h in
    put-Inv key _ m c v
      (quiet_Entry m key (set_stage (next_stage keep_going) r) e (next_stage-IsQuiet keep_going))
      (λ k n. cache k) room

received-Inv :
    (u : Update) (m : ResultManager) (c : Controller)
    → receive c.result_manager ≡ some (u, m)
    → Inv c
    → Inv (record c { result_manager = m })
unfolding receive
received-Inv u m c h v = record {
  entries = λ k r p.
      let (at, on) = v.entries k r p in
      (at, λ w b s. let (key, cached) = on w b s in (key, received_cache u m c h k ∙ cached));
  bounded = ground (arith, v.bounded);
}

-- Every step keeps the invariant.
pub Step-Inv : {c d : Controller} → Step c d → Inv c → Inv d
Step-Inv (ensured key params c) v = ensure_probe-Inv key params c v
Step-Inv (removed key c) v = remove_probe-Inv key c v
Step-Inv (probed now key r keep_going err c h s) v =
    probe-Inv now key r keep_going err c v (v.entries key r h).0
Step-Inv (sent key r u keep_going m c h s e) v =
    sent-Inv key r u keep_going m c v (v.entries key r h).0 e
Step-Inv (ticked key r c h s) v = put_quiet-Inv key _ c v (v.entries key r h).0 (λ u b p. cc)
Step-Inv (broke key r c h s t) v = put_quiet-Inv key _ c v (v.entries key r h).0 (λ u b p. cc)
Step-Inv (cancelled key r c h s) v = put_quiet-Inv key _ c v (v.entries key r h).0 (λ u b p. cc)
Step-Inv (left key r c h s) v = remove_worker-Inv r.worker.key c v
Step-Inv (received u m c h) v = received-Inv u m c h v

-- After any sequence of steps from a new controller every worker stands under its own key, an update
-- that a worker is about to send is its key's cached result, and the channel is within its capacity.
pub Reach-Inv : {c : Controller} → Reach new_controller c → Inv c
Reach-Inv here = new_controller-Inv
Reach-Inv (next r st) = Step-Inv st (Reach-Inv r)
