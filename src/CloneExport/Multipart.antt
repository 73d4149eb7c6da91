-- ===== src/CloneExport/Multipart.antt =====
-- The parts of a multipart body, as `extract_multipart_files` of src/cmnd_linux/clone_export.py
-- finds them. A position in the source is the text that is left behind it.
pub mod Exact
use linux_cmnd.Prelude.{
  ℕ, zero, suc, ◌+◌, Bool, true, false, not, ◌&&◌, ◌||◌, Option, none, some, List, [], ◌∷◌, ◌++◌,
  ltb, length, drop, if◌then◌else◌,
}
use linux_cmnd.Prelude.Chars.{Text, codes, starts_with, text_eq}
use linux_cmnd.Result.{Error, Result, ok, err, value_error}
use linux_cmnd.Result.Chain.{◌>>=◌, ◌>>◌, refuse}

-- A part: its headers without the blank line, and its content.
pub record Part : Type 0 where
  pub headers : Text
  pub content : Text

abbrev pub crlf : Text
crlf = 13 ∷ 10 ∷ []

abbrev pub blank_line : Text
blank_line = 13 ∷ 10 ∷ 13 ∷ 10 ∷ []

abbrev pub dashes : Text
dashes = b'-' ∷ b'-' ∷ []

abbrev pub Split : Type 0
Split = Option (Text × Text)

abbrev pub before : ℕ → Split → Split
before c none = none
before c (some (span, rest)) = some (c ∷ span, rest)

-- `data.find(needle, …)`: what stands before the needle, and what behind it.
unfoldable pub split_at : Text → Text → Split
split_at needle [] = if starts_with [] needle then some ([], []) else none
split_at needle (c ∷ rest) =
    let later = before c (split_at needle rest) in
    if starts_with (c ∷ rest) needle then some ([], drop (length needle) (c ∷ rest)) else later

abbrev pub closes : Text → Bool
closes rest = starts_with rest dashes || starts_with rest crlf

-- The first delimiter that `--` or a line end follows.
unfoldable pub split_delimiter : Text → Text → Split
split_delimiter delimiter [] = none
split_delimiter delimiter (c ∷ rest) =
    let later = before c (split_delimiter delimiter rest) in
    if starts_with (c ∷ rest) delimiter && closes (drop (length delimiter) (c ∷ rest))
    then some ([], drop (length delimiter) (c ∷ rest))
    else later

abbrev pub found : Error → Split → Result (Text × Text)
found e none = err e
found e (some r) = ok r

abbrev pub unended : Error
unended = value_error "missing multipart closing delimiter"

abbrev pub trailing : Text → Bool
trailing rest = text_eq rest [] || text_eq rest crlf

-- The loop, with the rounds that are left, at the headers of a part.
unfoldable pub parts_of : ℕ → Text → Text → Result (List Part)
unfolding split_at split_delimiter
parts_of zero delimiter position = err (value_error "too many multipart parts")
parts_of (suc rounds) delimiter position = do
  (headers, start) ←
      found (value_error "missing or oversized multipart part headers")
        (split_at blank_line position)
  refuse (ltb 8192 (length headers + 4)) (value_error "missing or oversized multipart part headers")
  (content, behind) ← found unended (split_delimiter delimiter start)
  let part : Part = record { headers = headers; content = content }
  if starts_with behind dashes
      then (do
        refuse (not (trailing (drop 2 behind))) (value_error "unexpected multipart trailing bytes")
        ok (part ∷ []))
      else (do others ← parts_of rounds delimiter (drop 2 behind); ok (part ∷ others))

abbrev pub delimiter_of : Text → Text
delimiter_of boundary = crlf ++ (dashes ++ boundary)

abbrev pub prefix_of : Text → Text
prefix_of boundary = dashes ++ (boundary ++ crlf)

unfoldable pub multipart : Text → Text → Result (List Part)
unfolding parts_of
multipart boundary body = do
  refuse (not (starts_with body (prefix_of boundary)))
      (value_error "missing multipart opening delimiter")
  parts_of 64 (delimiter_of boundary) (drop (length (prefix_of boundary)) body)
