-- ===== src/Life/Instances.antt =====
-- The static members of `psych_t` in src/psych.cc: the numbers of the plug-in instances and the list of
-- them that the SNMP agent reads. A plug-in stands in the list by its address.
pub mod Survivors
use psych.Prelude.{
  ℕ, zero, suc, ◌+◌, ◌-◌, ◌%◌, ◌<◌, ◌≤◌, Bool, true, false, List, [], ◌∷◌, ◌++◌, ◌≡◌, refl, ap, sym,
  ◌∙◌, arith, ◌==◌, if◌then◌else◌, Bool-cases, inl, inr, u32_mod,
}
use mathlib.Core.List.{append_assoc, append-nil}

-- a plug-in: its address, and `instance_`, a LONG that is read as unsigned, as the agent's tables do
pub record Instance : Type 0 where
  pub address : ℕ
  pub number : ℕ

-- `instance_count_`, modulo 2^32, and `global_list_`
pub record Instances : Type 0 where
  pub count : ℕ
  pub global_list : List Instance

abbrev pub no_instances : Instances
no_instances = record { count = 0; global_list = [] }

-- the constructor, of a plug-in at an address
unfoldable pub construct : ℕ → Instances → Instances
construct this s = record {
  count = (s.count + 1) % u32_mod;
  global_list = s.global_list ++ record { address = this; number = s.count } ∷ [];
}

-- `list::remove`, which removes every element that is equal
unfoldable pub remove : ℕ → List Instance → List Instance
remove this [] = []
remove this (p ∷ rest) =
    let later = remove this rest in if p.address == this then later else p ∷ later

-- the destructor, before it clears the plug-in
unfoldable pub destruct : ℕ → Instances → Instances
unfolding remove
destruct this s = record s { global_list = remove this s.global_list }

-- What the engine does with the plug-ins, which the factory makes.
pub data Event : Type 0 where
  constructed destructed : ℕ → Event

abbrev pub happen : Event → Instances → Instances
unfolding construct destruct
happen (constructed this) s = construct this s
happen (destructed this) s = destruct this s

unfoldable pub play_all : List Event → Instances → Instances
unfolding construct destruct
play_all [] s = s
play_all (e ∷ es) s = play_all es (happen e s)
