-- ===== src/Scenarios/ClientCache.antt =====
-- Operations of the cache of the agents' clients.
use kubeforce.Base.{◌≡◌, refl, true, false, List, insert, ◌||◌, none, some, [], ◌∷◌, lookup, str_eq}
use kubeforce.Agent.Checksum.{json}
use kubeforce.Provider.Names.{build_bytes}
use kubeforce.Provider.Types.{ok, Agent}
use kubeforce.Provider.KubeforceAgent.{get_agent_tls_object_key, get_agent_client_cert_object_key}
use kubeforce.Provider.ClientCache.{
  Env, ClientCache, ClientHolder, Operation, get_client_holder, new_client_holder, prepare_holder,
  start_holder, KeyPair, new_client_cache, started, is_running, ended, steps, got, deleted,
  reconciled, get_keys, get_server, calc_checksum, current_checksum, delete_holder, get_checksum,
  reconcile_cache,
}
use kubeforce.Provider.ClientCache.Checksum.{reconcile_cache-checksum}
use kubeforce.Scenarios.Remote.{healthy_agent}

abbrev installed_agent : Agent
installed_agent = record healthy_agent {
  spec = record healthy_agent.spec {
    addresses = some (record {
      external_dns = "";
      external_ip = "10.0.0.1";
      internal_dns = "";
      internal_ip = "";
    });
    client_secret = "client";
  };
}

abbrev pair : KeyPair
pair = record { cert = "cert"; key = "key"; ca = "ca" }

abbrev env : Env
env = record {
  context = 7;
  bytes = record { to_bytes = λ s. []; of_bytes = λ bs. "name" };
  hash = record { marshal = λ k. json "keys"; write = λ s. none; sum_hex = λ s. "5eec" };
  wrapf = λ s e. e;
  join_host_port = λ h p. h;
  get_agent = ok installed_agent;
  lookup_key_pair = λ k. ok (some pair);
  new_client_set = none;
  new_mapper = none;
  new_client = none;
  new_cache = none;
  cache_syncs = true;
  new_delegating_client = none;
}

abbrev operations : List Operation
operations = got env "a" ∷ got env "b" ∷ deleted "a" ∷ ended 7 ∷ reconciled env "b" ∷ []

abbrev holder : ClientHolder
holder = record { checksum = "5eec"; cache = 0 }

abbrev one : ClientCache
one = record {
  client_holders = ("a", holder) ∷ [];
  caches = λ i. started 7;
  next = 1;
  is_done = λ i. false;
}

has_checksum : current_checksum env installed_agent ≡ ok "5eec"
unfolding get_keys get_server calc_checksum get_agent_tls_object_key
    get_agent_client_cert_object_key build_bytes str_eq
has_checksum = refl

keeps : lookup "a" (reconcile_cache env "a" one).1.client_holders ≡ some holder
unfolding reconcile_cache get_checksum delete_holder lookup str_eq get_keys get_server calc_checksum
    get_agent_tls_object_key get_agent_client_cert_object_key build_bytes
keeps = refl

reconcile_cache-checksum_example : str_eq "5eec" "5eec" || str_eq "5eec" "" ≡ true
reconcile_cache-checksum_example =
    reconcile_cache-checksum env "a" one installed_agent "5eec" holder refl refl refl has_checksum
      keeps

-- The client of a call is held on after the context of the call has ended, and its cache is not.
abbrev outlived : ClientCache
outlived = steps (got env "a" ∷ ended 7 ∷ []) new_client_cache

still_held : lookup "a" outlived.client_holders ≡ some holder
unfolding get_client_holder new_client_holder prepare_holder start_holder lookup insert str_eq
    get_keys get_server calc_checksum get_agent_tls_object_key get_agent_client_cert_object_key
    build_bytes
still_held = refl

runs_no_more : is_running outlived 0 ≡ false
unfolding get_client_holder new_client_holder prepare_holder start_holder lookup insert str_eq
    get_keys get_server calc_checksum get_agent_tls_object_key get_agent_client_cert_object_key
    build_bytes
runs_no_more = refl
