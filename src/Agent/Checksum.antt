-- ===== src/Agent/Checksum.antt =====
-- agent/pkg/util/checksum/checksum.go. JSON, SHA-256 and hex are the standard library's, and are a
-- parameter: `marshal` and `write` may give an error, and `sum_hex` is the text of the digest.
use kubeforce.Base.{String, Option, none, some}
use kubeforce.Api.{Error}

pub data Sum : Type 0 where
  sum : String → Sum
  sum_failed : Error → Sum

pub data Json : Type 0 where
  json : String → Json
  json_failed : Error → Json

pub record Hash {ℓ} (A : Type ℓ) : Type ℓ where
  pub marshal : A → Json
  pub write : String → Option Error
  pub sum_hex : String → String

abbrev pub calc_sha256_sum {ℓ} : {A : Type ℓ} → Hash A → String → Sum
calc_sha256_sum h content = elim (h.write content) [
  | none ↦ sum (h.sum_hex content)
  | some e ↦ sum_failed e
]

abbrev pub calc_sha256_for_object {ℓ} : {A : Type ℓ} → Hash A → A → Sum
calc_sha256_for_object h obj = elim (h.marshal obj) [
  | json content ↦ calc_sha256_sum h content
  | json_failed e ↦ sum_failed e
]
