-- ===== src/Rfa/Paths.antt =====
-- `fix_rfa_string_path` of src/rfa.cc: names of the registry's hives in full, and slashes.
use psych.Prelude.{
  ℕ, false, [], ◌∷◌, ◌++◌, ◌≡◌, refl, ◌==◌, if◌then◌else◌, take, drop, All, Bool-cases, inl, inr,
}
use psych.Prelude.Bytes.{Bytes, codes, starts_with}

-- `str.replace (2, 2, text)`
abbrev replace_2 : Bytes → Bytes → Bytes
replace_2 text s = take 2 s ++ text ++ drop 4 s

-- an abbreviation of a hive, written out
unfoldable pub expand_hive : Bytes → Bytes
expand_hive s =
    if starts_with (codes "HKLM") s
    then replace_2 (codes "EY_LOCAL_MACHINE") s
    else if starts_with (codes "HKCC") s
    then replace_2 (codes "EY_CURRENT_CONFIG") s
    else if starts_with (codes "HKCR") s
    then replace_2 (codes "EY_CLASSES_ROOT") s
    else if starts_with (codes "HKCU") s
    then replace_2 (codes "EY_CURRENT_USER") s
    else if starts_with (codes "HKU") s
    then replace_2 (codes "EY_USERS") s
    else s

abbrev pub slash : ℕ
slash = 47

abbrev pub backslash : ℕ
backslash = 92

-- the loop that replaces each slash that `find` finds
unfoldable pub replace_slashes : Bytes → Bytes
replace_slashes [] = []
replace_slashes (c ∷ s) =
    let rest = replace_slashes s in if c == slash then backslash ∷ rest else c ∷ rest

unfoldable pub fix_rfa_string_path : Bytes → Bytes
unfolding expand_hive replace_slashes starts_with
fix_rfa_string_path s = replace_slashes (if starts_with (codes "HK") s then expand_hive s else s)

-- No byte is a slash.
abbrev pub NoSlash : Bytes → Type 0
NoSlash s = All (λ c. (c == slash) ≡ false) s

replace_slashes-NoSlash : (s : Bytes) → NoSlash (replace_slashes s)
unfolding replace_slashes
replace_slashes-NoSlash [] = tt
replace_slashes-NoSlash (c ∷ s) = elim (Bool-cases (c == slash)) [
  | inl here ↦ rw here (refl, replace_slashes-NoSlash s)
  | inr there ↦ rw there (there, replace_slashes-NoSlash s)
]

pub fix_rfa_string_path-NoSlash : (s : Bytes) → NoSlash (fix_rfa_string_path s)
unfolding fix_rfa_string_path
fix_rfa_string_path-NoSlash s =
    replace_slashes-NoSlash (if starts_with (codes "HK") s then expand_hive s else s)

-- Behind "HKU" one byte is lost: whatever it is, the path is the same.
pub fix_rfa_string_path_hku :
    (c d : ℕ) (s : Bytes)
    → fix_rfa_string_path (codes "HKU" ++ c ∷ s) ≡ fix_rfa_string_path (codes "HKU" ++ d ∷ s)
unfolding fix_rfa_string_path expand_hive starts_with
fix_rfa_string_path_hku c d s = refl
