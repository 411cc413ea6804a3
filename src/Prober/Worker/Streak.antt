-- ===== src/Prober/Worker/Streak.antt =====
-- When a worker reports a result: the debouncing of probes
-- (cluster-api-provider-kubeforce/controllers/prober/worker.go).
use kubeforce.Base.{
  ℕ, suc, ◌≤◌, ◌<◌, ◌^◌, ◌≡◌, ◌↔◌, refl, ap, String, Bool, true, false, not, Option, none, some,
  List, [], ◌∷◌, arith, length, if◌then◌else◌,
}
use kubeforce.Api.{is_nil, Error}
use kubeforce.Prober.Results.{ResultItem, same_result, new_result_item}
use kubeforce.Prober.Worker.{
  ProbeParams, Worker, new_worker, count_result, below_threshold, do_probe,
}

-- A worker after a list of handler errors, the newest first, each at its time.
pub after : String → ProbeParams → List (ℕ × Option Error) → Worker
after key params [] = new_worker key params
after key params ((now, err) ∷ errs) = (do_probe now (after key params errs) err).0

-- The length of the run of `r` at the head of a list of probes.
abbrev pub run_of : Bool → List (ℕ × Option Error) → ℕ
run_of r [] = 0
run_of r ((now, err) ∷ errs) =
    let rest = run_of r errs in if same_result r (is_nil err) then suc rest else 0

run_of-le-length : (r : Bool) (errs : List (ℕ × Option Error)) → run_of r errs ≤ length errs
run_of-le-length r [] = omega arith
run_of-le-length r ((now, err) ∷ errs) = ground (arith, run_of-le-length r errs)

-- The worker as a function of the history: its run is the run at the head of the history.
after_counts :
    (key : String) (params : ProbeParams) (errs : List (ℕ × Option Error))
    → length errs < 2 ^ 63
    → let w = after key params errs in
      (w.result_run ≡ run_of w.last_result errs)
      × (run_of (not w.last_result) errs ≡ 0)
      × (w.probe_params ≡ params)
unfolding after new_worker do_probe count_result
after_counts key params [] h = (refl, refl, refl)
after_counts key params ((now, err) ∷ errs) h =
    let w = after key params errs in
    ground (arith, after_counts key params errs (omega arith), run_of-le-length w.last_result errs)

abbrev pub threshold : ProbeParams → Bool → ℕ
threshold params true = params.success_threshold
threshold params false = params.failure_threshold

below_threshold_iff :
    (params : ProbeParams) (r : Bool) (run : ℕ)
    → run < 2 ^ 63
    → params.success_threshold < 2 ^ 31
    → params.failure_threshold < 2 ^ 31
    → (below_threshold params r run ≡ true) ↔ (run < threshold params r)
unfolding below_threshold
below_threshold_iff params r run h s f = ground arith

count_result_run :
    (key : String) (params : ProbeParams) (errs : List (ℕ × Option Error)) (r : Bool)
    → suc (length errs) < 2 ^ 63
    → (count_result r (after key params errs)).result_run ≡ suc (run_of r errs)
unfolding count_result
count_result_run key params errs r h =
    ground (arith, after_counts key params errs (omega arith), run_of-le-length r errs)

reported_iff :
    {N : Type 0} (b : Bool) (item : ResultItem)
    → (b ≡ true) ↔ N
    → ((if b then none else some item) ≡ none) ↔ N
reported_iff true item e = (λ _. e.0 refl, λ n. refl)
reported_iff false item e =
    (λ h. e.0 (absurd (ground arith)), λ n. ap (λ b. if b then none else some item) (e.1 n))

reported_result :
    (b : Bool) (now : ℕ) (r : Bool) (reason message : String) (item : ResultItem)
    → (if b then none else some (new_result_item now r reason message)) ≡ some item
    → item.probe_result ≡ r
unfolding new_result_item
reported_result b now r reason message item h = ground arith

same_result_self : (r : Bool) → same_result r r ≡ true
same_result_self r = ground arith

-- For positive int32 thresholds and fewer than 2 ^ 63 probes: after any history, the newest probe
-- makes the worker set a result exactly if the run of probes with the same outcome, the newest
-- included, is at least the threshold of that outcome; the set result has that outcome.
pub do_probe_streak :
    (key : String) (params : ProbeParams) (errs : List (ℕ × Option Error)) (now : ℕ)
    (err : Option Error)
    → suc (length errs) < 2 ^ 63
    → params.success_threshold < 2 ^ 31
    → params.failure_threshold < 2 ^ 31
    → let r = is_nil err in
      let reported = (do_probe now (after key params errs) err).1 in
      ((reported ≡ none) ↔ (run_of r ((now, err) ∷ errs) < threshold params r))
      × ((item : ResultItem) → reported ≡ some item → item.probe_result ≡ r)
unfolding do_probe
do_probe_streak key params errs now err h s f =
    let r = is_nil err in
    let run = count_result_run key params errs r h in
    let kept = (after_counts key params errs (omega arith)).2 in
    let iff =
      below_threshold_iff params r (suc (run_of r errs)) (omega (arith, run_of-le-length r errs)) s
        f in
    (
      rw (same_result_self r) (reported_iff _ _ (rw (run, kept) iff)),
      λ item e. reported_result _ now r _ _ item e,
    )
