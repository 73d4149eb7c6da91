-- ===== src/Json/Access.antt =====
-- The accesses that Python code makes on the values of `json`, with what they raise.
use linux_cmnd.Prelude.{ℕ, ◌*◌, ◌^◌, suc, String, Bool, true, false, Option, none, some, List, ◌==◌}
use linux_cmnd.Result.{Result, ok, err, key_error, type_error, attribute_error}
use linux_cmnd.Json.{Json, bool, int, float, arr, obj, Fields, lookup, to_list, ℤ, pos, negsuc}

-- `value.get`, `value[key]`
abbrev pub fields_of : Json → Result Fields
fields_of (obj fields) = ok fields
fields_of _ = err (attribute_error "object has no attribute 'get'")

abbrev pub present : String → Option Json → Result Json
present key (some v) = ok v
present key none = err (key_error key)

abbrev pub index : String → Json → Result Json
index key (obj fields) = present key (lookup key fields)
index key _ = err (type_error "indices must be integers or slices")

-- `value.get(key, default)`, with the default where the value is absent
abbrev pub or_value : Json → Option Json → Json
or_value default none = default
or_value default (some v) = v

-- `for x in value`; a text or a table would give its parts.
abbrev pub iterate : Json → Result (List Json)
iterate (arr items) = ok (to_list items)
iterate _ = err (type_error "object is not iterable")

abbrev pub int_same : ℤ → ℤ → Bool
int_same (pos a) (pos b) = a == b
int_same (negsuc a) (negsuc b) = a == b
int_same _ _ = false

-- An integer as a float of `k` decimals.
abbrev pub scaled : ℕ → ℤ → ℤ → Bool
scaled k (pos a) (pos m) = m == a * 10 ^ k
scaled k (negsuc a) (negsuc m) = suc m == suc a * 10 ^ k
scaled k _ _ = false

-- `value == z` for an integer `z`: Booleans and floats are equal to integers in Python.
abbrev pub equals_int : ℤ → Option Json → Bool
equals_int z (some (int y)) = int_same z y
equals_int z (some (bool true)) = int_same z (pos 1)
equals_int z (some (bool false)) = int_same z (pos 0)
equals_int z (some (float m k)) = scaled k z m
equals_int z _ = false
