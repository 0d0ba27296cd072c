-- ===== src/CpuMask/Tests.antt =====
-- Runs of the CPU masks, with CPU sets that are functions and a small configuration.
use trading_base.Base.{
  ℕ, ◌≡◌, refl, true, false, ◌==◌, if◌then◌else◌, Option, none, some, List, [], ◌∷◌, arith,
}
use trading_base.Base.Int.{pos, negsuc}
use trading_base.ResultCode.{a_ok}
use trading_base.Config.{
  JsonType, json_object, json_array, json_integer, Jansson, atom_integer, atom_array, config_get,
  config_get_integer,
}
use trading_base.CpuMask.{
  CpuSets, CpuMask, Field, cpu_mask_create, cpu_mask_destroy, cpu_mask_from_config,
}
use trading_base.CpuMask.Members.{
  IsCpuSets, HasMembers, set, clear, after, change_all, after_all, cpu_mask_create-change_all,
}
use trading_base.CpuMask.FromConfig.{
  working, first_get, AllOrNothing, from_config_integer, from_config_unset,
  cpu_mask_from_config-AllOrNothing,
}

-- A set that does not look at its size.
abbrev plain : CpuSets (ℕ → ℕ)
plain = record {
  alloc_size = λ n. n;
  zeroed = λ size s c. 0;
  with_cpu = λ d size s c. if c == d then 1 else s c;
  without_cpu = λ d size s c. if c == d then 0 else s c;
  isset = λ c size s. s c;
}

plain-IsCpuSets : IsCpuSets plain
plain-IsCpuSets = record {
  zeroed_isset = λ n c b lt. refl;
  with_isset = λ n c d b lt lt'. refl;
  without_isset = λ n c d b lt lt'. refl;
}

abbrev garbage : ℕ → ℕ
garbage c = 9

-- A configuration with "core", a CPU, and "cores", an array.
data Document : Type 0 where
  tree : Document
  core : Document
  cores : Document

abbrev find_item : Document → List ℕ → Option Document
find_item tree (c ∷ o ∷ r ∷ e ∷ []) = some core
find_item tree (c ∷ o ∷ r ∷ e ∷ s ∷ []) = some cores
find_item document key = none

abbrev kind : Document → JsonType
kind tree = json_object
kind core = json_integer
kind cores = json_array

abbrev plain_json : Jansson Document
plain_json = record {
  type_of = kind;
  integer_value = λ j. pos 3;
  string_value = λ j. 0;
  real_value = λ j. 0;
  object_get = find_item;
  array_size = λ j. 1;
  array_get = λ j i. some core;
}

abbrev core_field : Field Document
core_field = record {
  cfg = tree;
  field_name = b'c' ∷ b'o' ∷ b'r' ∷ b'e' ∷ [];
  first_copy = true;
  second_copy = true;
}

abbrev cores_field : Field Document
cores_field = record core_field { field_name = b'c' ∷ b'o' ∷ b'r' ∷ b'e' ∷ b's' ∷ [] }

cpu_mask_create-change_all_example :
    (mask : CpuMask (ℕ → ℕ)) × (cpu_mask_create plain (working 4 garbage) 0
      ≡ record { ret = a_ok; stored = some mask; blocks = 2 })
    × HasMembers plain
        (change_all plain mask (set 1 ∷ set 3 ∷ clear 1 ∷ []))
        4
        (after_all (λ c. false) (set 1 ∷ set 3 ∷ clear 1 ∷ []))
    × (cpu_mask_destroy plain (change_all plain mask (set 1 ∷ set 3 ∷ clear 1 ∷ [])) 2
        ≡ record { ret = a_ok; stored = none; blocks = 0 })
cpu_mask_create-change_all_example =
    cpu_mask_create-change_all plain plain-IsCpuSets garbage 4 0 (set 1 ∷ set 3 ∷ clear 1 ∷ [])
      (omega arith, (omega arith, (omega arith, tt)))

core_found : first_get plain_json core_field ≡ (a_ok, some (atom_integer (pos 3)))
unfolding config_get
core_found = refl

cores_found : first_get plain_json cores_field ≡ (a_ok, some (atom_array cores))
unfolding config_get
cores_found = refl

from_config_integer_example :
    (mask : CpuMask (ℕ → ℕ)) × (cpu_mask_from_config plain plain_json
        (working 4 garbage)
        core_field
        none
        0
      ≡ record { ret = a_ok; stored = some mask; blocks = 2 })
    × HasMembers plain mask 4 (after (λ c. false) (set 3))
from_config_integer_example =
    from_config_integer plain plain_json core_field 3 4 garbage none 0 plain-IsCpuSets core_found
      (omega arith)

from_config_unset_example :
    (mask : CpuMask (ℕ → ℕ)) × ((config_get_integer plain_json true tree cores_field.field_name
        (negsuc 0)).0
      ≡ a_ok)
    × (cpu_mask_from_config plain plain_json (working 4 garbage) cores_field none 0
        ≡ record { ret = a_ok; stored = some mask; blocks = 2 })
    × HasMembers plain mask 4 (λ c. false)
from_config_unset_example =
    from_config_unset plain plain_json cores_field (atom_array cores) 4 garbage none 0
      plain-IsCpuSets cores_found tt

cpu_mask_from_config-AllOrNothing_example : AllOrNothing none 0 (
    cpu_mask_from_config plain plain_json
      (working 4 garbage)
      (record cores_field { first_copy = false })
      none
      0)
cpu_mask_from_config-AllOrNothing_example =
    cpu_mask_from_config-AllOrNothing plain plain_json (working 4 garbage)
      (record cores_field { first_copy = false }) none 0
