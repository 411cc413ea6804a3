-- ===== src/Provider/ClientCache/Checksum.antt =====
-- That no client of old keys is kept
-- (cluster-api-provider-kubeforce/controllers/agent/cache_reconciler.go).
use kubeforce.Base.{
  ◌≡◌, refl, String, true, false, ◌||◌, none, some, arith, lookup, lookup-delete, str_eq,
  str_eq_iff, str_eq_refl, Bool-cases, Option-cases, inl, inr,
}
use kubeforce.Provider.Types.{ok, Agent}
use kubeforce.Provider.ClientCache.{
  Env, ClientCache, ClientHolder, get_checksum, delete_holder, current_checksum, is_unset,
  reconcile_cache,
}

pub delete_holder-lookup :
    (key : String) (c : ClientCache) → lookup key (delete_holder key c).client_holders ≡ none
unfolding delete_holder
delete_holder-lookup key c = elim (Option-cases (lookup key c.client_holders)) [
  | inl e ↦ rw (e, delete_holder) e
  | inr (h, e) ↦ rw (e, delete_holder) (rw lookup-delete (rw str_eq_refl refl))
]

-- Where an installed agent with addresses is found, whose keys and address have a checksum, a client
-- that is held after the reconciliation has that checksum, or an empty one.
pub reconcile_cache-checksum :
    (env : Env) (key : String) (c : ClientCache) (a : Agent) (sum : String) (h : ClientHolder)
    → env.get_agent ≡ ok a
    → is_unset a.spec.addresses ≡ false
    → a.spec.is_installed ≡ true
    → current_checksum env a ≡ ok sum
    → lookup key (reconcile_cache env key c).1.client_holders ≡ some h
    → str_eq h.checksum sum || str_eq h.checksum "" ≡ true
unfolding reconcile_cache get_checksum
reconcile_cache-checksum env key c a sum h g u i s l =
    elim (Option-cases (lookup key c.client_holders)) [
      | inl e ↦ ground (arith, str_eq_refl "", delete_holder-lookup key c)
      | inr (old, e) ↦ elim (Bool-cases (str_eq old.checksum "")) [
        | inl z ↦ ground (
          arith,
          str_eq_refl "",
          str_eq_iff sum old.checksum,
          str_eq_iff old.checksum sum,
          delete_holder-lookup key c,
        )
        | inr z ↦ elim (Bool-cases (str_eq sum old.checksum)) [
          | inl q ↦ ground (
            arith,
            str_eq_refl "",
            str_eq_iff sum old.checksum,
            str_eq_iff old.checksum sum,
            delete_holder-lookup key c,
          )
          | inr q ↦ ground (
            arith,
            str_eq_refl "",
            str_eq_iff sum old.checksum,
            str_eq_iff old.checksum sum,
            delete_holder-lookup key c,
          )
        ]
      ]
    ]
