-- ===== src/Prelude/Durations.antt =====
-- `std::time::Duration` as a number of nanoseconds, and `Instant` as nanoseconds on one clock.
use Prim.Native.Nat.{ℕ, ◌+◌, ◌-◌, ◌*◌, ◌^◌, min}

unfoldable pub duration_max : ℕ
duration_max = (2 ^ 64 - 1) * 1000000000 + 999999999

unfoldable pub saturating_add : ℕ → ℕ → ℕ
unfolding duration_max
saturating_add a b = min (a + b) duration_max

unfoldable pub saturating_mul : ℕ → ℕ → ℕ
unfolding duration_max
saturating_mul a b = min (a * b) duration_max

abbrev pub from_secs : ℕ → ℕ
from_secs s = s * 1000000000

abbrev pub from_millis : ℕ → ℕ
from_millis ms = ms * 1000000

-- `Instant::elapsed`, and `saturating_duration_since`.
abbrev pub elapsed : ℕ → ℕ → ℕ
elapsed now started = now - started
