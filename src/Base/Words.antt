-- ===== src/Base/Words.antt =====
-- Go's int32 as the bit pattern of 32 bits, a number below 2 ^ 32; `bias` maps the signed order to
-- the order of the numbers.
use Prim.Native.Nat.{ℕ, ◌+◌, ◌%◌}
use mathlib.Core.Bool.{Bool}
use kubeforce.Base.Tests.{ltb, leb, if◌then◌else◌}

abbrev pub bias32 : ℕ → ℕ
bias32 n = (n + 2147483648) % 4294967296

abbrev pub slt32 : ℕ → ℕ → Bool
slt32 a b = ltb (bias32 a) (bias32 b)

abbrev pub sle32 : ℕ → ℕ → Bool
sle32 a b = leb (bias32 a) (bias32 b)

abbrev pub inc32 : ℕ → ℕ
inc32 n = (n + 1) % 4294967296

-- Go's int on a 64-bit machine, and the conversion of an int32 to it.
abbrev pub bias64 : ℕ → ℕ
bias64 n = (n + 9223372036854775808) % 18446744073709551616

abbrev pub slt64 : ℕ → ℕ → Bool
slt64 a b = ltb (bias64 a) (bias64 b)

abbrev pub inc64 : ℕ → ℕ
inc64 n = (n + 1) % 18446744073709551616

abbrev pub int_of_int32 : ℕ → ℕ
int_of_int32 n = if ltb n 2147483648 then n else n + 18446744069414584320
