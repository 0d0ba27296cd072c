-- ===== src/Config.antt =====
-- The part of tsl/config/engine.h and tsl/config/engine.c that looks up integers and arrays of them. The Jansson library is
-- a parameter, and so is the answer of strdup. The pointers are not NULL, and a character is its code.
use trading_base.Base.{
  ℕ, ◌-◌, ◌%◌, ◌^◌, Bool, true, false, ltb, leb, if◌then◌else◌, Option, none, some, List, [], ◌∷◌,
  ◌++◌, ◌==◌,
}
use trading_base.Base.Int.{ℤ, pos, negsuc}
use trading_base.ResultCode.{AResult, a_ok, a_e_badargs, a_e_nomem, a_e_notfound, a_e_inval}

-- json_typeof
pub data JsonType : Type 0 where
  json_object : JsonType
  json_array : JsonType
  json_string : JsonType
  json_integer : JsonType
  json_real : JsonType
  json_true : JsonType
  json_false : JsonType
  json_null : JsonType

-- The calls of jansson.h. A string value is its address, a real is the word of its value as a float, and a key is the
-- list of its characters.
pub record Jansson (Json : Type 0) : Type 0 where
  pub type_of : Json → JsonType
  pub integer_value : Json → ℤ
  pub string_value : Json → ℕ
  pub real_value : Json → ℕ
  pub object_get : Json → List ℕ → Option Json
  pub array_size : Json → ℕ
  pub array_get : Json → ℕ → Option Json

-- struct config
pub data ConfigAtom (Json : Type 0) : Type 0 where
  atom_integer : ℤ → ConfigAtom Json
  atom_string : ℕ → ConfigAtom Json
  atom_array : Json → ConfigAtom Json
  atom_nested : Json → ConfigAtom Json
  atom_boolean : Bool → ConfigAtom Json
  atom_float : ℕ → ConfigAtom Json
  atom_null : ConfigAtom Json

-- The low 32 bits of a 64-bit integer, read as an `int`.
abbrev pub int_of_word : ℕ → ℤ
int_of_word w = if ltb w (2 ^ 31) then pos w else negsuc (2 ^ 32 - 1 - w)

abbrev pub to_int : ℤ → ℤ
to_int (pos v) = int_of_word (v % 2 ^ 32)
to_int (negsuc v) = int_of_word (2 ^ 32 - 1 - v % 2 ^ 32)

-- The value that a lookup of an integer leaves in its out-parameter.
abbrev pub integer_or : {Json : Type 0} → ConfigAtom Json → ℤ → ℤ
integer_or (atom_integer v) val = v
integer_or (atom_string v) val = val
integer_or (atom_array v) val = val
integer_or (atom_nested v) val = val
integer_or (atom_boolean v) val = val
integer_or (atom_float v) val = val
integer_or atom_null val = val

abbrev pub is_empty : List ℕ → Bool
is_empty [] = true
is_empty (c ∷ cs) = false

-- The parts of a name between its dots, `current` being the start of the first; an empty part at the end is none.
abbrev pub parts : List ℕ → List ℕ → List (List ℕ)
parts current [] = if is_empty current then [] else current ∷ []
parts current (c ∷ cs) =
    let rest = parts (if c == b'.' then [] else current ++ (c ∷ [])) cs in
    if c == b'.' then current ∷ rest else rest

-- The end of config_get_integer and of config_array_at_integer.
abbrev pub integer_found : {Json : Type 0} → AResult × Option (ConfigAtom Json) → ℤ → AResult × ℤ
integer_found (r, none) val = (r, val)
integer_found (r, some atm) val = (r, integer_or atm val)

module _ {Json : Type 0} (json : Jansson Json) where
  abbrev pub atom_of : JsonType → Json → ConfigAtom Json
  atom_of json_array j = atom_array j
  atom_of json_integer j = atom_integer (to_int (json.integer_value j))
  atom_of json_string j = atom_string (json.string_value j)
  atom_of json_true j = atom_boolean true
  atom_of json_false j = atom_boolean false
  atom_of json_real j = atom_float (json.real_value j)
  atom_of json_null j = atom_null
  atom_of json_object j = atom_nested j

  -- __config_from_json
  abbrev pub config_from_json : Json → ConfigAtom Json
  config_from_json j = atom_of (json.type_of j) j

  -- The loop of config_get over the parts of the name.
  abbrev pub walk : List (List ℕ) → Json → Option Json
  walk [] item = some item
  walk (key ∷ keys) item = elim (json.object_get item key) [ none ↦ none | some j ↦ walk keys j ]

  -- The end of config_get.
  abbrev pub atom_found : Option Json → AResult × Option (ConfigAtom Json)
  atom_found none = (a_e_notfound, none)
  atom_found (some j) = (a_ok, some (config_from_json j))

  -- `copied` tells whether strdup has memory. The atom is there exactly where the result is A_OK.
  unfoldable pub config_get : Bool → Json → List ℕ → AResult × Option (ConfigAtom Json)
  config_get copied cfg [] = (a_e_badargs, none)
  config_get copied cfg (c ∷ cs) =
      if copied then atom_found (walk (parts [] (c ∷ cs)) cfg) else (a_e_nomem, none)

  -- `val` is what the out-parameter holds before the call, and the last part what it holds after it.
  unfoldable pub config_get_integer : Bool → Json → List ℕ → ℤ → AResult × ℤ
  config_get_integer copied cfg item_id val = integer_found (config_get copied cfg item_id) val

  -- json_is_array
  abbrev pub is_array : JsonType → Bool
  is_array json_array = true
  is_array json_object = false
  is_array json_string = false
  is_array json_integer = false
  is_array json_real = false
  is_array json_true = false
  is_array json_false = false
  is_array json_null = false

  unfoldable pub config_array_length : ConfigAtom Json → ℕ → AResult × ℕ
  config_array_length (atom_array j) length =
      if is_array (json.type_of j) then (a_ok, json.array_size j) else (a_e_inval, length)
  config_array_length (atom_integer v) length = (a_e_inval, length)
  config_array_length (atom_string v) length = (a_e_inval, length)
  config_array_length (atom_nested v) length = (a_e_inval, length)
  config_array_length (atom_boolean v) length = (a_e_inval, length)
  config_array_length (atom_float v) length = (a_e_inval, length)
  config_array_length atom_null length = (a_e_inval, length)

  -- The end of config_array_at.
  abbrev pub item_found : Option Json → AResult × Option (ConfigAtom Json)
  item_found none = (a_e_inval, none)
  item_found (some item) = (a_ok, some (config_from_json item))

  -- The item is there exactly where the result is A_OK.
  unfoldable pub config_array_at : ConfigAtom Json → ℕ → AResult × Option (ConfigAtom Json)
  config_array_at (atom_array j) index =
      if is_array (json.type_of j)
      then (if leb (json.array_size j) index
          then (a_e_inval, none)
          else item_found (json.array_get j index))
      else (a_e_inval, none)
  config_array_at (atom_integer v) index = (a_e_inval, none)
  config_array_at (atom_string v) index = (a_e_inval, none)
  config_array_at (atom_nested v) index = (a_e_inval, none)
  config_array_at (atom_boolean v) index = (a_e_inval, none)
  config_array_at (atom_float v) index = (a_e_inval, none)
  config_array_at atom_null index = (a_e_inval, none)

  unfoldable pub config_array_at_integer : ConfigAtom Json → ℕ → AResult × ℤ
  config_array_at_integer array index = integer_found (config_array_at array index) (pos 0)
