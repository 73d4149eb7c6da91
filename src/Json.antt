-- ===== src/Json.antt =====
-- The values that `json.loads` returns, and the tests that Python code makes on them. A float is
-- a mantissa and a number of decimals; NaN and the infinities are left out.
pub mod Access
use linux_cmnd.Prelude.{
  ℕ, ◌^◌, String, Bool, true, false, not, Option, none, some, List, [], ◌∷◌, leb, ◌==◌, str_eq,
  if◌then◌else◌,
}

-- A Python integer; `negsuc n` is -(n + 1).
pub data ℤ : Type 0 where
  pos : ℕ → ℤ
  negsuc : ℕ → ℤ

mutual
  pub data Json : Type 0 where
    null : Json
    bool : Bool → Json
    int : ℤ → Json
    float : ℤ → ℕ → Json
    str : String → Json
    arr : Items → Json
    obj : Fields → Json

  pub data Items : Type 0 where
    nil : Items
    cons : Json → Items → Items

  -- A `dict` in insertion order; its keys are distinct.
  pub data Fields : Type 0 where
    end : Fields
    field : String → Json → Fields → Fields

-- `d.get(key)`
unfoldable pub lookup : String → Fields → Option Json
lookup key end = none
lookup key (field k v rest) = if str_eq key k then some v else lookup key rest

abbrev pub keys : Fields → List String
keys end = []
keys (field k v rest) = k ∷ keys rest

abbrev pub to_list : Items → List Json
to_list nil = []
to_list (cons v rest) = v ∷ to_list rest

-- `bool(value)`
abbrev pub truthy : Json → Bool
truthy null = false
truthy (bool b) = b
truthy (int (pos n)) = not (n == 0)
truthy (int (negsuc n)) = true
truthy (float (pos m) k) = not (m == 0)
truthy (float (negsuc m) k) = true
truthy (str s) = not (str_eq s "")
truthy (arr nil) = false
truthy (arr (cons v rest)) = true
truthy (obj end) = false
truthy (obj (field k v rest)) = true

-- `bool(d.get(key))`
abbrev pub truthy? : Option Json → Bool
truthy? none = false
truthy? (some v) = truthy v

-- `value == 1`: `True` and `1.0` are equal to 1 in Python.
abbrev pub equals_one : Option Json → Bool
equals_one (some (int (pos n))) = n == 1
equals_one (some (bool b)) = b
equals_one (some (float (pos m) k)) = m == 10 ^ k
equals_one _ = false

-- `value is True`, `value is False`
abbrev pub is_bool : Bool → Option Json → Bool
is_bool true (some (bool b)) = b
is_bool false (some (bool b)) = not b
is_bool _ _ = false

-- `value == s` for a text `s`
abbrev pub is_text : String → Option Json → Bool
is_text s (some (str t)) = str_eq t s
is_text s _ = false

-- `type(value) is int and value >= 1`, with the number. A Boolean is no `int` here.
abbrev pub positive : Option Json → Option ℕ
positive (some (int (pos n))) = if leb 1 n then some n else none
positive _ = none
