-- ===== src/Updates/Version.antt =====
-- `version_tuple` of src/cmnd_linux/updates.py, and the order on the tuples that it returns.
pub mod Canonical
use linux_cmnd.Prelude.{
  ℕ, ◌+◌, ◌-◌, ◌*◌, String, Bool, true, false, ◌&&◌, ◌||◌, Option, none, some, List, [], ◌∷◌, leb,
  ltb, ◌==◌, all, if◌then◌else◌,
}
use linux_cmnd.Prelude.Chars.{Text, codes, is_digit}
use linux_cmnd.Result.{Result, ok, err, update_error}

pub record Version : Type 0 where
  pub major : ℕ
  pub minor : ℕ
  pub patch : ℕ

-- `int(digits)`
abbrev pub digits_value : ℕ → Text → ℕ
digits_value acc [] = acc
digits_value acc (c ∷ cs) = digits_value (acc * 10 + (c - b'0')) cs

-- `0|[1-9][0-9]*`, with its value
unfoldable pub numeral : Text → Option ℕ
numeral [] = none
numeral (c ∷ []) = if is_digit c then some (c - b'0') else none
numeral (c ∷ d ∷ cs) =
    if leb b'1' c && leb c b'9' && all is_digit (d ∷ cs)
    then some (digits_value 0 (c ∷ d ∷ cs))
    else none

-- `value.split('.')`
abbrev pub prepend : ℕ → List Text → List Text
prepend c [] = (c ∷ []) ∷ []
prepend c (part ∷ parts) = (c ∷ part) ∷ parts

unfoldable pub split_dots : Text → List Text
split_dots [] = [] ∷ []
split_dots (c ∷ cs) = let rest = split_dots cs in if c == b'.' then [] ∷ rest else prepend c rest

abbrev pub join_numerals : Option ℕ → Option ℕ → Option ℕ → Result Version
join_numerals (some a) (some b) (some c) = ok (record { major = a; minor = b; patch = c })
join_numerals _ _ _ = err (update_error "unsupported release version")

abbrev pub from_parts : List Text → Result Version
from_parts (a ∷ b ∷ c ∷ []) = join_numerals (numeral a) (numeral b) (numeral c)
from_parts _ = err (update_error "unsupported release version")

-- The pattern holds exactly where the text has three numerals between two dots.
unfoldable pub version_tuple : String → Result Version
unfolding numeral split_dots
version_tuple value = from_parts (split_dots (codes value))

-- `a < b` on tuples
unfoldable pub version_lt : Version → Version → Bool
version_lt a b =
    ltb a.major b.major
    || (a.major == b.major && (ltb a.minor b.minor || (a.minor == b.minor && ltb a.patch b.patch)))
