-- ===== src/Provider/ClientCache.antt =====
-- cluster-api-provider-kubeforce/controllers/agent: the cache of the agents' clients
-- (client_cache.go, stoppable_cache.go) and the reconciler that drops a client whose keys or address
-- have changed (cache_reconciler.go), with GetKeys and GetServer of pkg/agent.
pub mod Invariant
pub mod Checksum
use kubeforce.Base.{
  ℕ, ◌+◌, ◌==◌, String, Bool, true, false, not, ◌||◌, Option, none, some, List, [], ◌∷◌, StringMap,
  lookup, insert, delete, str_eq, str_append, if◌then◌else◌,
}
use kubeforce.Api.{Error, failure, is_not_found}
use kubeforce.Agent.Checksum.{Hash, Json, json, json_failed}
use kubeforce.Provider.Names.{Bytes}
use kubeforce.Provider.Types.{Answer, ok, failed, panicked, and_then, Addresses, Agent}
use kubeforce.Provider.Call.{Call, ◌>>=◌, ◌>>◌, give, lift, change, demand, wrapped}
use kubeforce.Provider.KubeforceAgent.{
  Key, active_key, get_agent_tls_object_key, get_agent_client_cert_object_key,
}

pub record KeyPair : Type 0 where
  pub cert : String
  pub key : String
  pub ca : String

-- The keys of the clients and of the agent's server.
pub record Keys : Type 0 where
  pub auth_client : KeyPair
  pub tls : KeyPair

-- A cache that was started stands with the context of the call that started it: its own context ends
-- with that one, as `context.WithCancel` has it, or when its cancel function is called.
pub data CacheState : Type 0 where
  unused stopped : CacheState
  started : ℕ → CacheState

pub record ClientHolder : Type 0 where
  pub checksum : String
  pub cache : ℕ

-- A holder names its cache by a number, since the cache runs on by itself; those from `next` on were
-- never made. Contexts are numbers too, and `is_done` tells which of them have ended.
pub record ClientCache : Type 0 where
  pub client_holders : StringMap ClientHolder
  pub caches : ℕ → CacheState
  pub next : ℕ
  pub is_done : ℕ → Bool

abbrev pub is_running : ClientCache → ℕ → Bool
is_running c id = elim (c.caches id) [
  | unused ↦ false
  | stopped ↦ false
  | started context ↦ not (c.is_done context)
]

-- The context of one operation, and the answers to its calls.
pub record Env : Type 0 where
  pub context : ℕ
  pub bytes : Bytes
  pub hash : Hash Keys
  pub wrapf : String → Error → Error
  pub join_host_port : String → String → String
  pub get_agent : Answer Agent
  pub lookup_key_pair : Key → Answer (Option KeyPair)
  pub new_client_set : Option Error
  pub new_mapper : Option Error
  pub new_client : Option Error
  pub new_cache : Option Error
  pub cache_syncs : Bool
  pub new_delegating_client : Option Error

abbrev pub new_client_cache : ClientCache
new_client_cache = record {
  client_holders = [];
  caches = λ i. unused;
  next = 0;
  is_done = λ i. false;
}

-- The error for a key pair that is not there.
abbrev pub required : String → Answer (Option KeyPair) → Answer KeyPair
required message (ok (some k)) = ok k
required message (ok none) = failed (failure message)
required message (failed e) = failed e
required message panicked = panicked

unfoldable pub get_keys : Env → Agent → Answer Keys
get_keys env a = and_then (get_agent_client_cert_object_key env.bytes a active_key) (λ client_name.
    and_then (required "unable to find agent client cert" (env.lookup_key_pair client_name))
      (λ client. and_then (get_agent_tls_object_key env.bytes a active_key) (λ tls_name.
        and_then (required "unable to find agent TLS cert" (env.lookup_key_pair tls_name))
          (λ tls. ok (record { auth_client = client; tls = tls })))))

abbrev pub find_address : Addresses → String
find_address addresses =
    if str_eq addresses.external_dns "" then addresses.external_ip else addresses.external_dns

-- Addresses that are nil are dereferenced.
unfoldable pub get_server : Env → Option Addresses → Answer String
get_server env none = panicked
get_server env (some addresses) =
    if str_eq (find_address addresses) ""
    then failed (failure "not found external address")
    else ok (str_append "https://" (env.join_host_port (find_address addresses) "5443"))

abbrev pub write_host : Hash Keys → String → String → Answer String
write_host h content host = elim (h.write host) [
  | none ↦ ok (h.sum_hex (str_append content host))
  | some e ↦ failed e
]

-- Both are written to one hash.
unfoldable pub calc_checksum : Env → String → Keys → Answer String
calc_checksum env host keys = elim (env.hash.marshal keys) [
  | json_failed e ↦ failed e
  | json content ↦ elim (env.hash.write content) [
    | some e ↦ failed e
    | none ↦ write_host env.hash content host
  ]
]

abbrev pub set_state : ℕ → CacheState → ClientCache → ClientCache
set_state id s c = record c { caches = λ i. if i == id then s else c.caches i }

-- `stoppableCache.Stop`: a cache that is stopped stays so.
abbrev pub stop : ℕ → ClientCache → ClientCache
stop id c = set_state id stopped c

-- A new cache that is started under a context.
abbrev pub start : ℕ → ClientCache → ClientCache
start context c = record (set_state c.next (started context) c) { next = c.next + 1 }

abbrev pub Action : Type 0 → Type 0
Action A = Call ClientCache (Unit {0}) A

abbrev pub next_id : Action ℕ
next_id c = (ok c.next, c, [])

-- From the start of the cache on: its cancel function is not called on an error.
unfoldable pub start_holder : Env → String → String → Action ClientHolder
start_holder env agent_key checksum = do
  id ← next_id
  change (start env.context)
  demand
      (if env.cache_syncs
        then none
        else some (failure (str_append "failed waiting for cache for agent " agent_key)))
      (λ e. e)
  demand env.new_delegating_client (λ e. e)
  give (record { checksum = checksum; cache = id })

abbrev pub failed_for : Env → String → String → Error → Error
failed_for env what agent_key e = env.wrapf (str_append what agent_key) e

abbrev pub required_call : {A : Type 0} → Option Error → (Error → Error) → Answer A → Answer A
required_call none f a = a
required_call (some e) f a = failed (f e)

-- The calls that make the clients, after which the checksum is returned.
abbrev pub connect : Env → String → String → Answer String
connect env agent_key checksum =
    required_call env.new_client_set (λ e. e)
      (required_call env.new_mapper
        (failed_for env "error creating dynamic rest mapper for agent " agent_key)
        (required_call env.new_client (failed_for env "error creating client for agent " agent_key)
          (required_call env.new_cache (failed_for env "error creating cache for agent " agent_key)
            (ok checksum))))

-- What is done before the cache is started.
unfoldable pub prepare_holder : Env → String → Answer String
prepare_holder env agent_key =
    and_then (wrapped (failed_for env "unable to get agent " agent_key) env.get_agent) (λ a.
      and_then (wrapped (failed_for env "unable to get agent keys " agent_key) (get_keys env a))
        (λ keys. and_then (get_server env a.spec.addresses) (λ host.
          and_then (calc_checksum env host keys) (λ checksum. connect env agent_key checksum))))

unfoldable pub new_client_holder : Env → String → Action ClientHolder
new_client_holder env agent_key = do
  checksum ← lift (prepare_holder env agent_key)
  start_holder env agent_key checksum

abbrev pub with_error : {A : Type 0} → (Error → Error) → Action A → Action A
with_error f m c = let (x, c', es) = m c in (wrapped f x, c', es)

abbrev pub hold : String → ClientHolder → ClientCache → ClientCache
hold agent_key h c = record c { client_holders = insert agent_key h c.client_holders }

abbrev pub make_holder : Env → String → Action ClientHolder
make_holder env agent_key = do
  h ←
      with_error (failed_for env "error creating client and cache for agent " agent_key)
        (new_client_holder env agent_key)
  change (hold agent_key h)
  give h

-- The client set of the holder stands for it.
unfoldable pub get_client_holder : Env → String → Action ClientHolder
get_client_holder env agent_key c = elim (lookup agent_key c.client_holders) [
  | some h ↦ (ok h, c, [])
  | none ↦ make_holder env agent_key c
]

unfoldable pub delete_holder : String → ClientCache → ClientCache
delete_holder agent_key c = elim (lookup agent_key c.client_holders) [
  | none ↦ c
  | some h ↦ record (stop h.cache c) { client_holders = delete agent_key c.client_holders }
]

unfoldable pub get_checksum : String → ClientCache → String
get_checksum agent_key c = elim (lookup agent_key c.client_holders) [
  | none ↦ ""
  | some h ↦ h.checksum
]

abbrev pub current_checksum : Env → Agent → Answer String
current_checksum env a =
    and_then (get_keys env a)
      (λ keys. and_then (get_server env a.spec.addresses) (λ host. calc_checksum env host keys))

abbrev pub is_unset : Option Addresses → Bool
is_unset none = true
is_unset (some a) = false

abbrev pub drop_changed : String → ClientCache → Answer String → Answer (Unit {0}) × ClientCache
drop_changed agent_key c (ok checksum) =
    if str_eq checksum (get_checksum agent_key c)
    then (ok tt, c)
    else (ok tt, delete_holder agent_key c)
drop_changed agent_key c (failed e) = (failed e, c)
drop_changed agent_key c panicked = (panicked, c)

-- `CacheReconciler.Reconcile`, up to the wrapping of its last error.
unfoldable pub reconcile_cache : Env → String → ClientCache → Answer (Unit {0}) × ClientCache
reconcile_cache env agent_key c = elim env.get_agent [
  | failed e ↦ if is_not_found e then (ok tt, delete_holder agent_key c) else (failed e, c)
  | panicked ↦ (panicked, c)
  | ok a ↦
      if is_unset a.spec.addresses
        || not a.spec.is_installed
        || str_eq (get_checksum agent_key c) ""
      then (ok tt, c)
      else drop_changed agent_key c (current_checksum env a)
]

pub data Operation : Type 0 where
  got : Env → String → Operation
  deleted : String → Operation
  reconciled : Env → String → Operation
  ended : ℕ → Operation

-- A context ends: it was cancelled, or its time is over.
abbrev pub end_context : ℕ → ClientCache → ClientCache
end_context context c = record c { is_done = λ i. if i == context then true else c.is_done i }

abbrev pub step : Operation → ClientCache → ClientCache
step (got env k) c = (get_client_holder env k c).1
step (deleted k) c = delete_holder k c
step (reconciled env k) c = (reconcile_cache env k c).1
step (ended context) c = end_context context c

-- The operations, which the lock puts in an order, and the ends of contexts between them.
abbrev pub steps : List Operation → ClientCache → ClientCache
steps [] c = c
steps (o ∷ os) c = steps os (step o c)
