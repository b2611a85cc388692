-- ===== src/Refresh/Fields.antt =====
-- The fields of one message.
use psych.Prelude.{ℕ, zero, suc, Option, none, some, List, [], ◌∷◌, if◌then◌else◌, get_elem?}
use psych.Prelude.Int.{ℤ, pos}
use psych.Prelude.Bytes.{Bytes, equal}
use psych.Config.{Resource}
use psych.Messages.{FieldEntry, ascii, rmtes, time_of_day, date, real, blank}
use psych.Platform.{Platform, Calendar}

-- `kRdm…Id`
abbrev pub stock_ric : ℤ
stock_ric = pos 1026

abbrev pub source_feed_name : ℤ
source_feed_name = pos 1686

abbrev pub time_of_update : ℤ
time_of_update = pos 6640

abbrev pub active_date : ℤ
active_date = pos 6772

abbrev pub engine_version_id : ℤ
engine_version_id = pos 8569

unfoldable pub round_half_up : (plat : Platform) → plat.Double → plat.Double
round_half_up plat x = plat.floor (plat.add x plat.half)

unfoldable pub mantissa : (plat : Platform) → plat.Double → ℤ
unfolding round_half_up
mantissa plat x = plat.to_int64 (round_half_up plat (plat.mul x plat.million))

-- What building a message ends in: the result, a failed CHECK, which is to end the process, or a
-- read past the end of a vector.
pub data Built {ℓ} (A : Type ℓ) : Type ℓ where
  built : A → Built A
  check_failed out_of_bounds : Built A

infixl 5 ◌>>=◌
abbrev pub ◌>>=◌ {ℓ κ} : {A : Type ℓ} {B : Type κ} → Built A → (A → Built B) → Built B
built a >>= f = f a
check_failed >>= f = check_failed
out_of_bounds >>= f = out_of_bounds

-- `resource.fields.find`
unfoldable pub find_field : Bytes → List (Bytes × ℤ) → Option ℤ
find_field column [] = none
find_field column ((k, fid) ∷ rest) = if equal k column then some fid else find_field column rest

unfoldable pub value_entry : (plat : Platform) → ℤ → plat.Double → FieldEntry
unfolding mantissa
value_entry plat fid x = record {
  fid = fid;
  value = if plat.is_nan x then blank else real (mantissa plat x);
}

abbrev value_at : (plat : Platform) → ℤ → Option plat.Double → Built FieldEntry
value_at plat fid none = out_of_bounds
value_at plat fid (some x) = built (value_entry plat fid x)

-- `CHECK (column_idx > 0)`, and the value at `column_idx - 1`
unfoldable pub column_entry : (plat : Platform) → ℤ → ℕ → List plat.Double → Built FieldEntry
unfolding value_entry
column_entry plat fid zero values = check_failed
column_entry plat fid (suc i) values = value_at plat fid (get_elem? values i)

-- one column, given what the columns after it make
unfoldable pub column_first :
    (plat : Platform)
    → Option ℤ
    → ℕ
    → List plat.Double
    → Built (List FieldEntry)
    → Built (List FieldEntry)
unfolding column_entry
column_first plat none i values later = later
column_first plat (some fid) i values later =
    column_entry plat fid i values >>= λ e. later >>= λ es. built (e ∷ es)

-- the loop over the columns
unfoldable pub column_fields :
    (plat : Platform)
    → List (Bytes × ℤ)
    → ℕ
    → List Bytes
    → List plat.Double
    → Built (List FieldEntry)
unfolding find_field column_first
column_fields plat fields i [] values = built []
column_fields plat fields i (column ∷ rest) values =
    column_first plat (find_field column fields) i values
      (column_fields plat fields (suc i) rest values)

-- the five fields in front of the columns
unfoldable pub common_fields : Resource → Bytes → Bytes → Calendar → List FieldEntry
common_fields resource topic engine_version t =
    record { fid = stock_ric; value = ascii topic }
    ∷ record { fid = source_feed_name; value = rmtes resource.source }
    ∷ record { fid = engine_version_id; value = rmtes engine_version }
    ∷ record { fid = time_of_update; value = time_of_day t.hour t.minute t.second }
    ∷ record { fid = active_date; value = date t.year t.month t.day }
    ∷ []
