-- ===== src/Rfa/Version.antt =====
-- `VerifyVersion` of src/rfa.cc: the version of RFA at hand begins with the one of the headers.
use psych.Prelude.{ℕ, zero, suc, Bool, true, false, length}
use psych.Prelude.Int.{ℤ, pos, negsuc}
use psych.Prelude.Bytes.{Bytes}

-- The two operations of `RFA_String` that are called, as RFA implements them.
pub record RfaString : Type 0 where
  pub substr : Bytes → ℕ → ℕ → Bytes
  pub compare_case : Bytes → Bytes → ℕ → ℤ

-- an int as a condition, negated
is_zero : ℤ → Bool
is_zero (pos zero) = true
is_zero (pos (suc n)) = false
is_zero (negsuc n) = false

-- Where the version differs, a fatal message is logged, and it is false that comes back.
unfoldable pub verify_version : RfaString → (library runtime : Bytes) → Bool
unfolding is_zero
verify_version rfa library runtime =
    is_zero (rfa.compare_case (rfa.substr runtime 0 (length library)) library (length library))
