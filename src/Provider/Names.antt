-- ===== src/Provider/Names.antt =====
-- cluster-api-provider-kubeforce/pkg/util/names/build.go: `BuildName`. The bytes of a Go string and
-- the string of some bytes are parameters.
use kubeforce.Base.{
  ◌≡◌, refl, ap, ℕ, zero, suc, ◌-◌, ◌≤◌, String, List, [], ◌∷◌, ◌++◌, arith, length, length-append,
  ltb, if◌then◌else◌, Bool-cases, inl, inr,
}
use kubeforce.Provider.Types.{Answer, ok, panicked, and_then}

pub record Bytes : Type 0 where
  pub to_bytes : String → List ℕ
  pub of_bytes : List ℕ → String

abbrev pub max_name_length : ℕ
max_name_length = 63

-- `base[:n]` where `n` is at most the length.
unfoldable pub take : ℕ → List ℕ → List ℕ
take n [] = []
take zero (b ∷ bs) = []
take (suc n) (b ∷ bs) = b ∷ take n bs

-- `63 - len(suffix)` is negative for a longer suffix: the slice of the base then panics.
unfoldable pub build_bytes : List ℕ → List ℕ → Answer (List ℕ)
build_bytes base suffix =
    if ltb max_name_length (length suffix)
    then panicked
    else (if ltb (max_name_length - length suffix) (length base)
        then ok (take (max_name_length - length suffix) base ++ suffix)
        else ok (base ++ suffix))

abbrev pub build_name : Bytes → String → String → Answer String
build_name bytes base suffix =
    and_then (build_bytes (bytes.to_bytes base) (bytes.to_bytes suffix))
      (λ bs. ok (bytes.of_bytes bs))

length-take : (n : ℕ) (bs : List ℕ) → n ≤ length bs → length (take n bs) ≡ n
unfolding take
length-take n [] h = omega arith
length-take zero (b ∷ bs) h = refl
length-take (suc n) (b ∷ bs) h = omega (arith, length-take n bs (omega arith))

take-all : (n : ℕ) (bs : List ℕ) → length bs ≤ n → take n bs ≡ bs
unfolding take
take-all n [] h = refl
take-all zero (b ∷ bs) h = ground arith
take-all (suc n) (b ∷ bs) h = ap (λ l. b ∷ l) (take-all n bs (omega arith))

-- For a suffix of at most 63 bytes a name of at most 63 bytes is built: as much of the base as
-- leaves room for the suffix, and the whole suffix.
pub build_bytes_lem :
    (base suffix : List ℕ)
    → length suffix ≤ max_name_length
    → (build_bytes base suffix ≡ ok (take (max_name_length - length suffix) base ++ suffix))
      × (length (take (max_name_length - length suffix) base ++ suffix) ≤ max_name_length)
unfolding build_bytes
build_bytes_lem base suffix h =
    let n = max_name_length - length suffix in
    let t = take n base in
    elim (Bool-cases (ltb n (length base))) [
      | inl e ↦
          let l : length t ≡ n = length-take n base (ground arith) in
          (ground arith, omega (arith, l, length-append t suffix))
      | inr e ↦
          let l : t ≡ base = take-all n base (ground arith) in
          (rw l (ground arith), rw l (ground (arith, length-append base suffix)))
    ]
