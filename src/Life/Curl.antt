-- ===== src/Life/Curl.antt =====
-- `curl_ref_count_` of src/psych.cc, which Init counts up and Clear counts down. Destroy clears, and
-- so does the destructor behind it.
use psych.Prelude.{
  ℕ, zero, suc, ◌+◌, ◌-◌, ◌%◌, ◌<◌, Bool, true, false, ◌≡◌, refl, ap, ◌∙◌, arith, ◌==◌, ==_iff,
  if◌then◌else◌, u32_mod,
}

-- `refs` is the LONG in two's complement; `is_up` says whether libcurl is initialised.
pub record Curl : Type 0 where
  pub refs : ℕ
  pub is_up : Bool

-- the first step of `Init`, where `ok` says what curl_global_init returns; false ends Init
unfoldable pub init_curl : Bool → Curl → Curl × Bool
init_curl ok c =
    if c.refs == 0
    then (record { refs = (c.refs + 1) % u32_mod; is_up = ok }, ok)
    else (record c { refs = (c.refs + 1) % u32_mod }, true)

-- the last step of `Clear`
unfoldable pub clear_curl : Curl → Curl
clear_curl c =
    if c.refs == 1
    then record { refs = (c.refs + (u32_mod - 1)) % u32_mod; is_up = false }
    else record c { refs = (c.refs + (u32_mod - 1)) % u32_mod }

-- The life of a plug-in, one after the other: Init, and Clear from `init` or Destroy, and again from
-- the destructor.
unfoldable pub live : Bool → Curl → Curl
unfolding init_curl clear_curl
live ok c = clear_curl (clear_curl (init_curl ok c).0)

unfoldable pub lives : (ℕ → Bool) → ℕ → Curl → Curl
unfolding live
lives ok zero c = c
lives ok (suc n) c = live (ok n) (lives ok n c)

abbrev pub unused : Curl
unused = record { refs = 0; is_up = false }

abbrev down : ℕ → Curl
down r = record { refs = r; is_up = false }

live_first : (ok : Bool) → live ok unused ≡ down (u32_mod - 1)
unfolding live
live_first true = refl
live_first false = refl

live_later : (ok : Bool) (r : ℕ) → 1 < r → r < u32_mod → live ok (down r) ≡ down (r - 1)
unfolding live init_curl clear_curl
live_later ok r low high = ground (arith, ==_iff r 0)

lives_lem :
    (ok : ℕ → Bool) (n : ℕ) → n < u32_mod - 1 → lives ok (suc n) unused ≡ down (u32_mod - 1 - n)
unfolding lives
lives_lem ok zero h = live_first (ok 0)
lives_lem ok (suc n) h =
    ap (live (ok (suc n))) (lives_lem ok n (omega arith))
    ∙ live_later (ok (suc n)) (u32_mod - 1 - n) (omega arith) (omega arith)
    ∙ ap down (omega arith)

-- After one life or more, up to 2^32 - 2, libcurl is down, and the Init of the next plug-in goes on
-- without initialising it.
pub init_curl_again :
    (ok : ℕ → Bool) (n : ℕ)
    → n < u32_mod - 2
    → ((lives ok (suc n) unused).is_up ≡ false)
      × ((init_curl (ok (suc n)) (lives ok (suc n) unused)).0.is_up ≡ false)
      × ((init_curl (ok (suc n)) (lives ok (suc n) unused)).1 ≡ true)
unfolding init_curl
init_curl_again ok n h = rw (lives_lem ok n (omega arith)) (refl, ground arith, ground arith)
