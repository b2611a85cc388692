-- ===== src/Prelude/Counts.antt =====
-- Performance counters: arrays of uint32_t indexed by the constants of an enum.
use Prim.Native.Nat.{ℕ, ◌+◌, ◌%◌}
use psych.Prelude.Tests.{◌==◌, if◌then◌else◌}

-- An array of counters, by index.
abbrev pub Stats : Type 0
Stats = ℕ → ℕ

abbrev pub u32_mod : ℕ
u32_mod = 4294967296

-- `stats[i] = v`
abbrev pub store : ℕ → ℕ → Stats → Stats
store i v s j = if i == j then v else s j

-- `stats[i] += n`, on uint32_t
abbrev pub add_to : ℕ → ℕ → Stats → Stats
add_to i n s = store i ((s i + n) % u32_mod) s

-- `stats[i]++`
abbrev pub bump : ℕ → Stats → Stats
bump i s = add_to i 1 s

-- All counters zero, as `ZeroMemory` leaves them.
abbrev pub no_stats : Stats
no_stats j = 0
