-- ===== src/Rfa/Print/Masks.antt =====
-- The hint and indication masks of src/rfaostream.hh: the names of the flags that are set.
use psych.Prelude.{
  ℕ, Bool, true, false, List, [], ◌∷◌, ◌++◌, ◌≡◌, refl, ap, ◌∙◌, arith, if◌then◌else◌, is_empty,
  All,
}
use mathlib.Core.List.{append-nil, append_assoc}
use psych.Prelude.Bytes.{Bytes, codes}
use psych.Prelude.Split.{join_with, later_texts, split, lacks, split-join_with}

-- the flags of `AttribInfo`, `Manifest` and `RespMsg`, in the order in which they are tested
pub data AttribFlag : Type 0 where
  data_mask_flag name_flag name_type_flag service_name_flag id_flag attrib_flag service_id_flag :
      AttribFlag

pub data ManifestFlag : Type 0 where
  seq_flag filtered_flag item_group_flag permission_data_flag : ManifestFlag

pub data RespFlag : Type 0 where
  resp_type_num_flag resp_status_flag quality_of_service_flag attrib_info_flag manifest_flag
        header_flag payload_flag principal_identity_flag :
      RespFlag

pub data IndicationFlag : Type 0 where
  do_not_cache_flag do_not_filter_flag clear_cache_flag refresh_complete_flag do_not_ripple_flag :
      IndicationFlag

-- Whether each flag is set, with its name, in order.
abbrev pub Flags : Type 0
Flags = List (Bool × Bytes)

abbrev pub attrib_flags : (AttribFlag → Bool) → Flags
attrib_flags has =
    (has data_mask_flag, codes "DataMaskFlag")
    ∷ (has name_flag, codes "NameFlag")
    ∷ (has name_type_flag, codes "NameTypeFlag")
    ∷ (has service_name_flag, codes "ServiceNameFlag")
    ∷ (has id_flag, codes "IDFlag")
    ∷ (has attrib_flag, codes "AttribFlag")
    ∷ (has service_id_flag, codes "ServiceIDFlag")
    ∷ []

abbrev pub manifest_flags : (ManifestFlag → Bool) → Flags
manifest_flags has =
    (has seq_flag, codes "SeqFlag")
    ∷ (has filtered_flag, codes "FilteredFlag")
    ∷ (has item_group_flag, codes "ItemGroupFlag")
    ∷ (has permission_data_flag, codes "PermissionDataFlag")
    ∷ []

abbrev pub resp_flags : (RespFlag → Bool) → Flags
resp_flags has =
    (has resp_type_num_flag, codes "RespTypeNumFlag")
    ∷ (has resp_status_flag, codes "RespStatusFlag")
    ∷ (has quality_of_service_flag, codes "QualityOfServiceFlag")
    ∷ (has attrib_info_flag, codes "AttribInfoFlag")
    ∷ (has manifest_flag, codes "ManifestFlag")
    ∷ (has header_flag, codes "HeaderFlag")
    ∷ (has payload_flag, codes "PayloadFlag")
    ∷ (has principal_identity_flag, codes "PrincipalIdentityFlag")
    ∷ []

abbrev pub indication_flags : (IndicationFlag → Bool) → Flags
indication_flags has =
    (has do_not_cache_flag, codes "DoNotCacheFlag")
    ∷ (has do_not_filter_flag, codes "DoNotFilterFlag")
    ∷ (has clear_cache_flag, codes "ClearCacheFlag")
    ∷ (has refresh_complete_flag, codes "RefreshCompleteFlag")
    ∷ (has do_not_ripple_flag, codes "DoNotRippleFlag")
    ∷ []

-- The stream of the first flag is empty; a later one puts a bar behind what is there.
abbrev pub put_first : Bool → Bytes → Bytes
put_first set name = if set then name else []

abbrev pub put_later : Bytes → Bool → Bytes → Bytes
put_later mask set name =
    if set then (if is_empty mask then mask else mask ++ codes "|") ++ name else mask

unfoldable pub put_flags : Bytes → Flags → Bytes
put_flags mask [] = mask
put_flags mask ((set, name) ∷ rest) = put_flags (put_later mask set name) rest

unfoldable pub mask_text : Flags → Bytes
unfolding put_flags
mask_text [] = []
mask_text ((set, name) ∷ rest) = put_flags (put_first set name) rest

-- the names of the flags that are set
abbrev pub set_names : Flags → List Bytes
set_names [] = []
set_names ((true, name) ∷ rest) = name ∷ set_names rest
set_names ((false, name) ∷ rest) = set_names rest

-- a text that has bytes, none of which is a bar
abbrev pub is_word : Bytes → Bool
is_word [] = false
is_word (c ∷ s) = lacks b'|' (c ∷ s)

put_flags-some :
    (first : ℕ) (mask : Bytes) (flags : Flags)
    → All (λ f. is_word f.1 ≡ true) flags
    → put_flags (first ∷ mask) flags ≡ (first ∷ mask) ++ later_texts (codes "|") (set_names flags)
unfolding put_flags later_texts
put_flags-some first mask [] h = rw append-nil refl
put_flags-some first mask ((true, name) ∷ rest) (h, hs) =
    put_flags-some first (mask ++ codes "|" ++ name) rest hs ∙ simp append_assoc
put_flags-some first mask ((false, name) ∷ rest) (h, hs) = put_flags-some first mask rest hs

put_flags-none :
    (flags : Flags)
    → All (λ f. is_word f.1 ≡ true) flags
    → put_flags [] flags ≡ join_with (codes "|") (set_names flags)
unfolding put_flags join_with
put_flags-none [] h = refl
put_flags-none ((false, name) ∷ rest) (h, hs) = put_flags-none rest hs
put_flags-none ((true, []) ∷ rest) (h, hs) = cc
put_flags-none ((true, c ∷ name) ∷ rest) (h, hs) = put_flags-some c name rest hs

mask_text-joined :
    (flags : Flags)
    → All (λ f. is_word f.1 ≡ true) flags
    → mask_text flags ≡ join_with (codes "|") (set_names flags)
unfolding mask_text put_flags join_with
mask_text-joined [] h = refl
mask_text-joined ((false, name) ∷ rest) (h, hs) = put_flags-none rest hs
mask_text-joined ((true, []) ∷ rest) (h, hs) = cc
mask_text-joined ((true, c ∷ name) ∷ rest) (h, hs) = put_flags-some c name rest hs

-- what a mask's text says: nothing, or the names between the bars
abbrev pub read_mask : Bytes → List Bytes
read_mask [] = []
read_mask (c ∷ s) = split b'|' (c ∷ s)

All-set_names :
    (flags : Flags)
    → All (λ f. is_word f.1 ≡ true) flags
    → All (λ x. is_word x ≡ true) (set_names flags)
All-set_names [] h = tt
All-set_names ((true, name) ∷ rest) (h, hs) = (h, All-set_names rest hs)
All-set_names ((false, name) ∷ rest) (h, hs) = All-set_names rest hs

lacks-words :
    (names : List Bytes) → All (λ x. is_word x ≡ true) names → All (λ x. lacks b'|' x ≡ true) names
lacks-words [] h = tt
lacks-words ([] ∷ rest) (h, hs) = (refl, lacks-words rest hs)
lacks-words ((c ∷ s) ∷ rest) (h, hs) = (h, lacks-words rest hs)

read_mask-join_with :
    (names : List Bytes)
    → All (λ x. is_word x ≡ true) names
    → read_mask (join_with (codes "|") names) ≡ names
unfolding join_with
read_mask-join_with [] h = refl
read_mask-join_with ([] ∷ rest) (h, hs) = cc
read_mask-join_with ((c ∷ s) ∷ rest) h =
    split-join_with b'|' (c ∷ s) rest (lacks-words ((c ∷ s) ∷ rest) h)

read_mask-mask_text :
    (flags : Flags)
    → All (λ f. is_word f.1 ≡ true) flags
    → read_mask (mask_text flags) ≡ set_names flags
read_mask-mask_text flags h =
    ap read_mask (mask_text-joined flags h)
    ∙ read_mask-join_with (set_names flags) (All-set_names flags h)

-- Whichever flags are set in the four masks of a message, the text of each mask, read as names between
-- bars, gives the names of the flags that are set, in order.
read_mask-text :
    (a : AttribFlag → Bool) (m : ManifestFlag → Bool) (r : RespFlag → Bool)
    (i : IndicationFlag → Bool)
    → (read_mask (mask_text (attrib_flags a)) ≡ set_names (attrib_flags a))
      × (read_mask (mask_text (manifest_flags m)) ≡ set_names (manifest_flags m))
      × (read_mask (mask_text (resp_flags r)) ≡ set_names (resp_flags r))
      × (read_mask (mask_text (indication_flags i)) ≡ set_names (indication_flags i))
read_mask-text a m r i = (
  read_mask-mask_text (attrib_flags a) (ground arith),
  read_mask-mask_text (manifest_flags m) (ground arith),
  read_mask-mask_text (resp_flags r) (ground arith),
  read_mask-mask_text (indication_flags i) (ground arith),
)
