-- ===== src/Http/Transfer.antt =====
-- A connection and what libcurl's callbacks append to it: `connection_t` of src/psych.hh, and
-- `on_http_data` of src/psych.cc.
use psych.Prelude.{
  ℕ, ◌+◌, ◌≤◌, ◌<◌, ◌⊎◌, ltb→lt, refl, Bool, true, false, none, List, [], ◌∷◌, ◌++◌, ◌≡◌, arith,
  ltb, if◌then◌else◌, length, length-append, Bool-cases, inl, inr,
}
use mathlib.Core.List.{append-nil, append_assoc}
use psych.Prelude.Int.{ℤ, pos}
use psych.Prelude.Bytes.{Bytes}
use psych.Config.{Resource}
use psych.Platform.{Ptime}

-- `payload` is the string `data`, and `capacity` what was reserved for it. `handle` says whether an
-- easy handle is held.
pub record Connection : Type 0 where
  pub resource : Resource
  pub url : Bytes
  pub handle : Bool
  pub payload : Bytes
  pub capacity : ℕ
  pub request_ptime : ℤ
  pub httpd_ptime : Ptime
  pub last_filetime : ℤ

-- The constructor of `connection_t`.
abbrev pub new_connection : Resource → Bytes → Connection
new_connection r url = record {
  resource = r;
  url = url;
  handle = false;
  payload = [];
  capacity = 0;
  request_ptime = pos 0;
  httpd_ptime = none;
  last_filetime = pos 0;
}

-- `on_http_data` on the bytes that libcurl hands over: the connection, and the count it returns.
unfoldable pub on_http_data : Connection → Bytes → Connection × ℕ
on_http_data c chunk =
    if ltb c.capacity (length c.payload + length chunk)
    then (c, 0)
    else (record c { payload = c.payload ++ chunk }, length chunk)

-- libcurl hands over chunk after chunk, and gives up when a count differs from what it sent.
unfoldable pub receive : Connection → List Bytes → Connection × Bool
unfolding on_http_data
receive c [] = (c, true)
receive c (chunk ∷ rest) =
    let later = receive (on_http_data c chunk).0 rest in
    if ltb (on_http_data c chunk).1 (length chunk) then ((on_http_data c chunk).0, false) else later

abbrev pub joined : List Bytes → Bytes
joined [] = []
joined (x ∷ xs) = x ++ joined xs

on_http_data-within :
    (c : Connection) (x : Bytes)
    → length c.payload ≤ c.capacity
    → (length (on_http_data c x).0.payload ≤ c.capacity)
      × ((on_http_data c x).0.capacity ≡ c.capacity)
unfolding on_http_data
on_http_data-within c x h = ground (arith, length-append {0} c.payload x)

on_http_data_fits :
    (c : Connection) (x : Bytes)
    → length c.payload + length x ≤ c.capacity
    → on_http_data c x ≡ (record c { payload = c.payload ++ x }, length x)
unfolding on_http_data
on_http_data_fits c x h = ground arith

receive-within :
    (c : Connection) (chunks : List Bytes)
    → length c.payload ≤ c.capacity
    → length (receive c chunks).0.payload ≤ c.capacity
unfolding receive
receive-within c [] h = h
receive-within c (x ∷ xs) h =
    let c' = (on_http_data c x).0 in
    let (fits, same) = on_http_data-within c x h in
    let later = receive-within c' xs (rw same fits) in
    elim (Bool-cases (ltb (on_http_data c x).1 (length x))) [
      | inl stop ↦ rw stop fits
      | inr more ↦ rw more (omega (arith, later, same))
    ]

ltb_self : (n : ℕ) → ltb n n ≡ false
ltb_self n = ground arith

receive-joined :
    (c : Connection) (chunks : List Bytes)
    → length c.payload + length (joined chunks) ≤ c.capacity
    → receive c chunks ≡ (record c { payload = c.payload ++ joined chunks }, true)
unfolding receive
receive-joined c [] h = rw append-nil
receive-joined c (x ∷ xs) h =
    let now = on_http_data_fits c x (omega (arith, length-append {0} x (joined xs))) in
    let later =
      receive-joined (record c { payload = c.payload ++ x }) xs
        (omega (arith, length-append {0} x (joined xs), length-append {0} c.payload x)) in
    let whole = ltb_self (length x) in rw (now, whole, later) (rw append_assoc)

refused_lem :
    (c : Connection) (x : Bytes)
    → c.capacity < length c.payload + length x
    → on_http_data c x ≡ (c, 0)
unfolding on_http_data
refused_lem c x h = ground arith

receive-refused :
    (c : Connection) (chunks : List Bytes)
    → length c.payload ≤ c.capacity
    → c.capacity < length c.payload + length (joined chunks)
    → (receive c chunks).1 ≡ false
unfolding receive
receive-refused c [] fits h = absurd (omega arith)
receive-refused c (x ∷ xs) fits h =
    elim (Bool-cases (ltb c.capacity (length c.payload + length x))) [
      | inl over ↦
          let none_taken = refused_lem c x (ltb→lt c.capacity (length c.payload + length x) over) in
          let short : ltb 0 (length x) ≡ true = ground arith in rw (none_taken, short) refl
      | inr under ↦
          let room : length c.payload + length x ≤ c.capacity = ground arith in
          let now = on_http_data_fits c x room in
          let later =
            receive-refused (record c { payload = c.payload ++ x }) xs
              (omega (arith, room, length-append {0} c.payload x))
              (omega (arith, length-append {0} x (joined xs), length-append {0} c.payload x)) in
          let whole = ltb_self (length x) in rw (now, whole) later
    ]

-- If the payload fits what was reserved for it, then it does whatever is received; and either the
-- chunks do not fit and the transfer is given up, or they are all taken, in order, and it is not.
pub receive-decided :
    (c : Connection) (chunks : List Bytes)
    → length c.payload ≤ c.capacity
    → (length (receive c chunks).0.payload ≤ c.capacity)
      × (((c.capacity < length c.payload + length (joined chunks)) × ((receive c chunks).1 ≡ false))
          ⊎ (receive c chunks ≡ (record c { payload = c.payload ++ joined chunks }, true)))
receive-decided c chunks h = (
  receive-within c chunks h,
  elim (Bool-cases (ltb c.capacity (length c.payload + length (joined chunks)))) [
    | inl over ↦
        let over' = ltb→lt c.capacity (length c.payload + length (joined chunks)) over in
        inl (over', receive-refused c chunks h over')
    | inr under ↦ inr (receive-joined c chunks (ground arith))
  ],
)
