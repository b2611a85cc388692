-- ===== src/Http/Trace.antt =====
-- The trace of a transfer in the log: `on_http_trace` of src/psych.cc.
pub mod Suffix
pub mod Rows
pub mod Dumped
use psych.Prelude.{
  ℕ, zero, suc, ◌+◌, ◌-◌, ◌%◌, ◌^◌, Bool, true, false, Option, none, some, List, [], ◌∷◌, ◌++◌,
  ◌==◌, ◌&&◌, ltb, leb, if◌then◌else◌, length, drop, map,
}
use psych.Prelude.Bytes.{Bytes, codes}
use psych.Config.Print.{decimal}
use psych.Schedule.Flex.{padded}

-- `curl_infotype`
pub data InfoType : Type 0 where
  info_text header_out data_out ssl_data_out header_in data_in ssl_data_in other : InfoType

-- `size_t`
abbrev pub size_mod : ℕ
size_mod = 2 ^ 64

-- `std::isprint` in the C locale
abbrev pub is_print : ℕ → Bool
is_print b = leb 32 b && leb b 126

abbrev pub shown : ℕ → ℕ
shown b = if is_print b then b else b'.'

-- A carriage return and a new line stand at the pointer, and both are within the data.
abbrev pub is_crlf : Bytes → Bool
is_crlf (a ∷ b ∷ rest) = a == 0x0d && b == 0x0a
is_crlf s = false

-- `i += c + skip - 0x40`
abbrev pub moved : (i c skip : ℕ) → ℕ
moved i c skip = (i + (c + skip + size_mod - 0x40)) % size_mod

abbrev pub onto : ℕ → Bytes × ℕ → Bytes × ℕ
onto b (s, i) = (b ∷ s, i)

-- The inner loop: `left` rounds are left of 0x40, `c` are done, and `rest` are the data from `i + c`
-- on. It gives the characters that are written, and `i`.
unfoldable pub row : (left c i : ℕ) → (rest : Bytes) → Bytes × ℕ
row zero c i rest = ([], i)
row (suc left) c i [] = ([], i)
row (suc left) c i (b ∷ rest) =
    let later = row left (c + 1) i rest in
    if is_crlf (b ∷ rest)
    then ([], moved i c 2)
    else if is_crlf rest
    then (shown b ∷ [], moved i c 3)
    else onto (shown b) later

abbrev pub cons_row : ℕ → Bytes → Option (List (ℕ × Bytes)) → Option (List (ℕ × Bytes))
cons_row i text none = none
cons_row i text (some rows) = some ((i, text) ∷ rows)

-- The outer loop: the position and the text of each row; `none` is out of fuel.
unfoldable pub dump : (fuel : ℕ) → (payload : Bytes) → (i : ℕ) → Option (List (ℕ × Bytes))
unfolding row
dump zero payload i = none
dump (suc fuel) payload i =
    let (text, j) = row 0x40 0 i (drop i payload) in
    let later = dump fuel payload ((j + 0x40) % size_mod) in
    if ltb i (length payload) then cons_row i text later else some []

abbrev pub print_row : ℕ × Bytes → Bytes
print_row (i, text) = padded 4 i ++ text

abbrev pub print_rows : Bytes → Option (List (ℕ × Bytes)) → Option (List Bytes)
print_rows first none = none
print_rows first (some rows) = some (first ∷ map print_row rows)

unfoldable pub trace_with : (fuel : ℕ) → Bytes → Bytes → Option (List Bytes)
unfolding dump decimal padded
trace_with fuel name payload =
    print_rows (name ++ codes ", " ++ decimal (length payload) ++ codes " bytes")
      (dump fuel payload 0)

-- `on_http_trace`: the lines that are logged
unfoldable pub on_http_trace : (fuel : ℕ) → InfoType → Bytes → Option (List Bytes)
unfolding trace_with
on_http_trace fuel info_text payload = some (payload ∷ [])
on_http_trace fuel header_out payload = trace_with fuel (codes "send header") payload
on_http_trace fuel data_out payload = trace_with fuel (codes "send data") payload
on_http_trace fuel ssl_data_out payload = trace_with fuel (codes "send ssl data") payload
on_http_trace fuel header_in payload = trace_with fuel (codes "recv header") payload
on_http_trace fuel data_in payload = trace_with fuel (codes "recv data") payload
on_http_trace fuel ssl_data_in payload = trace_with fuel (codes "recv ssl data") payload
on_http_trace fuel other payload = some []
