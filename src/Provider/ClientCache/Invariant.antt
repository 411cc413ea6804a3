-- ===== src/Provider/ClientCache/Invariant.antt =====
-- What holds of the cache of clients after any operations
-- (cluster-api-provider-kubeforce/controllers/agent/client_cache.go).
use kubeforce.Base.{ℕ, ◌⊎◌, ◌≡◌, ◌<◌, String, not, some, List, lookup}
use kubeforce.Provider.Types.{Answer, ok}
use kubeforce.Provider.ClientCache.{
  ClientCache, ClientHolder, started, is_running, new_client_cache, start,
}

-- A cache was started under a context, and runs exactly as long as that one has not ended.
abbrev pub IsStarted : ClientCache → ℕ → Type 0
IsStarted c id =
    (context : ℕ) × (c.caches id ≡ started context) × (is_running c id ≡ not (c.is_done context))

-- A held cache was made and was not stopped, and no two agents share one.
pub record Inv (c : ClientCache) : Type 0 where
  pub held :
      (k : String) (h : ClientHolder)
      → lookup k c.client_holders ≡ some h
      → (h.cache < c.next) × IsStarted c h.cache
  pub distinct :
      (j k : String) (h i : ClientHolder)
      → lookup j c.client_holders ≡ some h
      → lookup k c.client_holders ≡ some i
      → h.cache ≡ i.cache
      → j ≡ k

pub new_client_cache-Inv : Inv new_client_cache
unfolding lookup
new_client_cache-Inv = record { held = λ k h e. cc; distinct = λ j k h i e f g. cc }

-- What a call for a new holder leaves: the caches as they were, or one more that runs; and a holder,
-- where there is one, is of that one.
abbrev Made : ℕ → ClientCache → Answer ClientHolder × ClientCache × List (Unit {0}) → Type 0
Made context c r =
    ((r.1 ≡ c) × ((h : ClientHolder) → r.0 ≡ ok h → ⊥))
    ⊎ ((r.1 ≡ start context c) × ((h : ClientHolder) → r.0 ≡ ok h → h.cache ≡ c.next))
