-- ===== src/Prelude/Decimal.antt =====
-- A number printed in decimal, as `format!("{n}")` prints a `u64`.
use Prim.Native.Nat.{ℕ, zero, suc, ◌+◌, ◌/◌, ◌%◌}
use mathlib.Core.List.{[], ◌∷◌, ◌++◌}
use apohara_agentguard.Prelude.Tests.{ltb, if◌then◌else◌}
use apohara_agentguard.Prelude.Strings.{Text}

digits_within : ℕ → ℕ → Text
digits_within zero n = []
digits_within (suc k) n =
    let front = digits_within k (n / 10) in
    if ltb n 10 then (b'0' + n) ∷ [] else front ++ ((b'0' + n % 10) ∷ [])

-- A `u64` has at most 20 digits.
unfoldable pub decimal : ℕ → Text
unfolding digits_within
decimal n = digits_within 20 n
