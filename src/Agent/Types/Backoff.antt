-- ===== src/Agent/Types/Backoff.antt =====
-- Bounds and order of `getBackoff` (agent/pkg/controllers/playbook.go), for int32 bit patterns.
use Prim.Native.Nat.{min}
use native.Mathlib.Nat.{pow-le-pow_right}
use kubeforce.Base.{ℕ, ◌-◌, ◌*◌, ◌^◌, ◌≤◌, ◌<◌, ◌≡◌, refl, true, arith, sle32}
use kubeforce.Agent.Types.{default_job_backoff, max_job_backoff, get_backoff}

-- For every failure count the backoff is at most `MaxJobBackOff`.
pub get_backoff-le-max : (exp : ℕ) → get_backoff exp ≤ max_job_backoff
unfolding get_backoff
get_backoff-le-max exp = ground arith

-- For a positive int32 the backoff is ten seconds doubled once for each failure after the first,
-- capped at 360 seconds; for 0 and for the negative ones it is 0.
pub get_backoff-eq-min :
    (exp : ℕ)
    → exp < 2 ^ 32
    → (0 < exp
        → exp < 2 ^ 31
        → get_backoff exp ≡ min (default_job_backoff * 2 ^ (exp - 1)) max_job_backoff)
      × (2 ^ 31 ≤ exp → get_backoff exp ≡ 0)
      × (get_backoff 0 ≡ 0)
unfolding get_backoff
get_backoff-eq-min exp h = (λ p q. ground arith, λ p. ground arith, refl)

pow_mono : (a b : ℕ) → a ≤ b → 2 ^ (a - 1) ≤ 2 ^ (b - 1)
pow_mono a b h = pow-le-pow_right (omega arith) (omega arith)

-- On int32 values the backoff never falls as the failure count grows.
pub get_backoff_mono :
    (a b : ℕ) → a < 2 ^ 32 → b < 2 ^ 32 → sle32 a b ≡ true → get_backoff a ≤ get_backoff b
unfolding get_backoff
get_backoff_mono a b p q h = ground (arith, pow_mono a b)
