-- ===== src/Packages/Ranges.antt =====
-- `send_head` and `copyfile` of `RangeHandler` in src/cmnd_linux/packages.py, once the file is open.
-- A header is in Latin-1, where `\d` is `[0-9]`.
pub mod Exact
use linux_cmnd.Prelude.{
  ℕ, zero, suc, ◌+◌, ◌-◌, Bool, true, false, ◌&&◌, ◌||◌, Option, none, some, List, [], ◌∷◌, ◌++◌,
  leb, ltb, ◌==◌, all, length, take, drop, if◌then◌else◌,
}
use linux_cmnd.Prelude.Chars.{Text, codes, is_digit, starts_with}
use linux_cmnd.Updates.Version.{digits_value}

-- The digits in front, and what is behind them.
unfoldable pub leading : Text → Text × Text
leading [] = ([], [])
leading (c ∷ rest) =
    let (digits, behind) = leading rest in
    if is_digit c then (c ∷ digits, behind) else ([], c ∷ rest)

abbrev pub last_of : Text → Option ℕ
last_of [] = none
last_of (c ∷ cs) = some (digits_value 0 (c ∷ cs))

abbrev pub bounds : Text → Text → Option (ℕ × Option ℕ)
bounds [] behind = none
bounds (c ∷ cs) [] = none
bounds (c ∷ cs) (d ∷ last) =
    if d == b'-' && all is_digit last then some (digits_value 0 (c ∷ cs), last_of last) else none

-- `bytes=(\d+)-(\d*)`
unfoldable pub parse_range : Text → Option (ℕ × Option ℕ)
unfolding leading
parse_range header =
    if starts_with header (codes "bytes=")
    then (let (digits, behind) = leading (drop 6 header) in bounds digits behind)
    else none

-- A 206 with its first and last position, a 200, and a 416.
pub data Head : Type 0 where
  partial : ℕ → ℕ → Head
  whole unsatisfied : Head

abbrev pub end_of : ℕ → Option ℕ → ℕ
end_of size none = size - 1
end_of size (some last) = last

abbrev pub satisfied : ℕ → ℕ → ℕ → Head
satisfied size start last =
    if leb size start || ltb last start || leb size last then unsatisfied else partial start last

abbrev pub head_of : ℕ → Option (ℕ × Option ℕ) → Head
head_of size none = whole
head_of size (some (start, last)) = satisfied size start (end_of size last)

unfoldable pub send_head : ℕ → Text → Head
unfolding parse_range
send_head size header = head_of size (parse_range header)

-- `min(64 * 1024, remaining)`
abbrev pub chunk_size : ℕ → ℕ
chunk_size remaining = if leb 65536 remaining then 65536 else remaining

-- The `while` loop of `copyfile` on what is left of the file; a round takes a byte or more.
unfoldable pub copy : ℕ → ℕ → Text → Text
copy zero remaining source = []
copy (suc fuel) remaining source =
    let chunk = take (chunk_size remaining) source in
    let rest = copy fuel (remaining - length chunk) (drop (chunk_size remaining) source) in
    if remaining == 0 || length chunk == 0 then [] else chunk ++ rest

-- The body of the response to a request with a range; a 416 has none.
unfoldable pub body : Head → Text → Text
unfolding copy
body whole content = content
body unsatisfied content = []
body (partial start last) content =
    copy (suc (last - start + 1)) (last - start + 1) (drop start content)
