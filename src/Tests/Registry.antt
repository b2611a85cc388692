-- ===== src/Tests/Registry.antt =====
-- The configuration database of RFA: src/rfa.cc.
use psych.Prelude.{◌≡◌, true, false, refl, take, drop, if◌then◌else◌}
use psych.Prelude.Int.{pos}
use psych.Prelude.Bytes.{codes, equal, starts_with}
use psych.Rfa.Paths.{expand_hive, replace_slashes, fix_rfa_string_path}
use psych.Rfa.Staging.{RfaEnv}
use psych.Rfa.Version.{RfaString, verify_version}

-- Every call succeeds.
abbrev willing : RfaEnv
willing = record {
  creates = true;
  creates_again = true;
  acquires = true;
  merges = true;
  merges_again = true;
}

machine : fix_rfa_string_path (codes "HKLM/SOFTWARE") ≡ codes "HKEY_LOCAL_MACHINE\\SOFTWARE"
unfolding fix_rfa_string_path expand_hive replace_slashes starts_with
machine = refl

-- The separator behind HKU is lost.
users : fix_rfa_string_path (codes "HKU/S-1") ≡ codes "HKEY_USERSS-1"
unfolding fix_rfa_string_path expand_hive replace_slashes starts_with
users = refl

-- A string class whose comparison gives 0 just where the texts are equal.
abbrev rfa_string : RfaString
rfa_string = record {
  substr = λ s at n. take n (drop at s);
  compare_case = λ a b n. if equal a b then pos 0 else pos 1;
}

newer : verify_version rfa_string (codes "7.2") (codes "7.2.1") ≡ true
unfolding verify_version equal
newer = refl

older : verify_version rfa_string (codes "7.2") (codes "7.1.9") ≡ false
unfolding verify_version equal
older = refl
