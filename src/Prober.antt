-- ===== src/Prober.antt =====
-- cluster-api-provider-kubeforce/controllers/prober: the probes of the agents, their results, and
-- the controller that owns the probe workers.
pub mod Results
pub mod Worker
pub mod Controller
