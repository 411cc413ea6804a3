-- ===== src/Prober/Worker.antt =====
-- cluster-api-provider-kubeforce/controllers/prober/worker.go: one probe worker, with `ProbeParams`
-- of controller.go. The metrics are left out; a panic of the handler is outside of the model.
pub mod Streak
use kubeforce.Base.{
  ℕ, String, Bool, true, false, not, ◌||◌, ◌&&◌, Option, none, some, ◌==◌, if◌then◌else◌, slt64,
  inc64, int_of_int32,
}
use kubeforce.Api.{is_nil, Error, text}
use kubeforce.Prober.Results.{ResultItem, result_string, new_result_item, same_result}

-- Each field is an int32.
pub record ProbeParams : Type 0 where
  pub timeout_seconds : ℕ
  pub period_seconds : ℕ
  pub success_threshold : ℕ
  pub failure_threshold : ℕ

unfoldable pub params_equal : ProbeParams → ProbeParams → Bool
params_equal p o =
    p.timeout_seconds == o.timeout_seconds
    && p.period_seconds == o.period_seconds
    && p.success_threshold == o.success_threshold
    && p.failure_threshold == o.failure_threshold

-- `key` is the key of the probe handler, and `stopped` says that the stop channel is closed.
pub record Worker : Type 0 where
  pub key : String
  pub probe_params : ProbeParams
  pub stopped : Bool
  pub last_result : Bool
  pub result_run : ℕ

unfoldable pub new_worker : String → ProbeParams → Worker
new_worker key params = record {
  key = key;
  probe_params = params;
  stopped = false;
  last_result = false;
  result_run = 0;
}

unfoldable pub stop : Worker → Worker
stop w = record w { stopped = true }

unfoldable pub set_probe_params : ProbeParams → Worker → Worker
set_probe_params p w = record w { probe_params = p }

-- The run of equal results after one more.
unfoldable pub count_result : Bool → Worker → Worker
count_result result w =
    if same_result w.last_result result
    then record w { result_run = inc64 w.result_run }
    else record w { last_result = result; result_run = 1 }

unfoldable pub below_threshold : ProbeParams → Bool → ℕ → Bool
below_threshold params result run =
    (not result && slt64 run (int_of_int32 params.failure_threshold))
    || (result && slt64 run (int_of_int32 params.success_threshold))

abbrev pub message_of : Option Error → String
message_of none = ""
message_of (some e) = text e

-- `doProbe` on the error that the handler returned: the worker, and the result to be set, if any.
unfoldable pub do_probe : ℕ → Worker → Option Error → Worker × Option ResultItem
do_probe now w err =
    let result = is_nil err in
    let w' = count_result result w in
    (
      w',
      if below_threshold w.probe_params result w'.result_run
          then none
          else some (new_result_item now result (result_string result) (message_of err)),
    )
