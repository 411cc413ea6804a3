-- ===== src/Scenarios/RemoteAgent.antt =====
-- Runs of the controller of the agents.
use kubeforce.Base.{◌≡◌, refl, true, false, none, [], ◌∷◌, lookup, str_eq, if◌then◌else◌}
use kubeforce.Api.{not_found}
use kubeforce.Prober.Controller.{remove_probe, remove_worker, get_current_status}
use kubeforce.Provider.Types.{ok, failed, panicked, has_changes, Addresses, Agent}
use kubeforce.Provider.Remote.{is_healthy}
use kubeforce.Provider.KubeforceAgent.{
  World, Secret, key_text, object_key, connected, Env, agent_finalizer,
}
use kubeforce.Provider.KubeforceAgent.Secrets.{refresh, tls_sync, new_secret}
use kubeforce.Provider.KubeforceAgent.Request.{
  filter_nonempty, serv_certificate, create_agent_serv_certificate,
}
use kubeforce.Provider.KubeforceAgent.Delete.{
  get_playbooks, get_playbook_deployments, reconcile_delete, reconcile_delete_machine,
  remove_finalizer,
}
use kubeforce.Provider.KubeforceAgent.Reconcile.{reconcile_health}
use kubeforce.Provider.KubeforceAgent.Deletion.{is_released, reconcile_delete-agent}
use kubeforce.Provider.KubeforceAgent.Health.{is_good, reconcile_health_stale}
use kubeforce.Provider.KubeforceAgent.Uploads.{writes, is_written, refresh-writes}
use kubeforce.Scenarios.Library.{finalizers, object_meta}
use kubeforce.Scenarios.Remote.{conds, healthy_agent}

-- A patch of a secret has fields if the names differ; nothing is found but the agent.
abbrev env : Env
env = record {
  conds = conds;
  finalizers = finalizers;
  bytes = record { to_bytes = λ s. []; of_bytes = λ bs. "agent-1-tls" };
  context_done = false;
  request = ("default", "agent-1");
  quote = λ s. s;
  wrapf = λ s e. e;
  has_paused = λ m. false;
  has_owner = λ os v ks. false;
  ensure_owner_ref = λ os o. o ∷ os;
  set_summary = λ b cs. cs;
  patch_data = λ x y. ok (if str_eq x.metadata.uid y.metadata.uid then "" else "uid");
  unmarshal = λ s. ok (if str_eq s "" then [] else ("metadata", s) ∷ []);
  get_answer = ok healthy_agent;
  cluster_answer = ok none;
  new_helper = none;
  patch_answer = λ a. none;
  get_machine = λ k. failed (not_found "gone");
  delete_machine = λ k. none;
  list_playbooks = λ ns name. ok [];
  list_deployments = λ ns name. ok [];
  client_set = λ k. none;
  uninstall = none;
  upload = λ path c. none;
  get_secret = λ r k. failed (not_found "gone");
  create_secret = λ r s. none;
  patch_secret = λ r s. none;
  get_certificate = λ k. failed (not_found "gone");
  create_certificate = λ k. none;
  get_helper = none;
  get_ssh_config = none;
  install = none;
  server_version = ok "v1";
  sys_info = ok (record { hostname = "host-1"; default_ip_address = ""; others = "" });
}

abbrev leaving_agent : Agent
leaving_agent = record healthy_agent { metadata = object_meta "agent-1" (agent_finalizer ∷ []) }

abbrev world : World
world = record {
  agent = leaving_agent;
  probes = record {
    workers = [];
    result_manager = record {
      cache =
          (
            "default/agent-1",
            record { probe_result = true; time = 10; reason = "Success"; message = "" },
          )
          ∷ [];
      updates = [];
    };
  };
}

has_finalizer : finalizers.contains world.agent.metadata.finalizers agent_finalizer ≡ true
unfolding str_eq
has_finalizer = refl

reconcile_delete-agent_example :
    (reconcile_delete env world.agent world).1.agent
    ≡ (if is_released env world.agent then remove_finalizer env world.agent else world.agent)
reconcile_delete-agent_example = reconcile_delete-agent env world has_finalizer

released : is_released env world.agent ≡ true
unfolding str_eq reconcile_delete_machine lookup get_playbooks get_playbook_deployments
released = refl

reconcile_health_stale_example :
    let key = key_text (object_key leaving_agent.metadata) in
    let w : World = record {
      agent = leaving_agent;
      probes = remove_worker key (remove_probe key world.probes);
    } in
    is_healthy env.conds (reconcile_health env w).agent
    ≡ is_good (get_current_status key world.probes)
reconcile_health_stale_example = reconcile_health_stale env leaving_agent world.probes refl

abbrev changed_secret : Secret
changed_secret = record new_secret { metadata = object_meta "agent-1-tls-active" [] }

refresh-writes_example :
    writes
      (refresh env connected leaving_agent
        (tls_sync env leaving_agent)
        ("default", "agent-1")
        new_secret
        false
        changed_secret
        world).2
    ≡ is_written env connected leaving_agent changed_secret
        (tls_sync env leaving_agent).files
        false
        (has_changes env.patch_data env.unmarshal env.wrapf new_secret changed_secret)
refresh-writes_example =
    refresh-writes env connected leaving_agent (tls_sync env leaving_agent) ("default", "agent-1")
      new_secret false changed_secret world

-- The addresses that are set are asked for after those of the template.
abbrev some_addresses : Addresses
some_addresses = record {
  external_dns = "";
  external_ip = "10.0.0.1";
  internal_dns = "host-1";
  internal_ip = "10.0.0.2";
}

dns_names_of_request :
    (serv_certificate leaving_agent some_addresses ("ns", "tls")).dns_names ≡ "host-1" ∷ []
unfolding filter_nonempty str_eq
dns_names_of_request = refl

ip_addresses_of_request :
    (serv_certificate leaving_agent some_addresses ("ns", "tls")).ip_addresses
    ≡ "10.0.0.1" ∷ "10.0.0.2" ∷ []
unfolding filter_nonempty str_eq
ip_addresses_of_request = refl

request_without_addresses :
    (create_agent_serv_certificate env leaving_agent ("ns", "tls") world).0 ≡ panicked
unfolding create_agent_serv_certificate
request_without_addresses = refl
