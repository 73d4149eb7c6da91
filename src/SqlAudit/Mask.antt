-- ===== src/SqlAudit/Mask.antt =====
-- `_blank` and `_lexically_mask` of src/cmnd_linux/sql_audit.py. The position in the source is the
-- text that is left; a span is what was consumed and what is left after it. The nested call on the
-- body of an executable comment takes fuel, and so does the loop; a text never needs more than its
-- length and one.
pub mod Positions
use linux_cmnd.Prelude.{
  ℕ, zero, suc, ◌+◌, ◌≤◌, ◌<◌, ◌≡◌, Bool, true, false, not, ◌&&◌, ◌||◌, Option, none, some, List,
  [], ◌∷◌, ◌++◌, map, ◌==◌, length, take, drop, if◌then◌else◌,
}
use linux_cmnd.Prelude.Chars.{Text, codes, starts_with}

-- `"\n" if char == "\n" else "\r" if char == "\r" else " "`
unfoldable pub blank_char : ℕ → ℕ
blank_char c = if c == b'\n' then b'\n' else if c == b'\r' then b'\r' else b' '

unfoldable pub blank : Text → Text
unfolding blank_char
blank = map blank_char

abbrev pub Span : Type 0
Span = Text × Text

abbrev pub push : ℕ → Span → Span
push c (span, rest) = (c ∷ span, rest)

-- The loop over a literal, from behind its opening quote: a backslash takes the next character,
-- and a doubled quote does not close.
unfoldable pub literal : ℕ → Text → Span
literal quote [] = ([], [])
literal quote (c ∷ []) = (c ∷ [], [])
literal quote (c ∷ d ∷ rest) =
    let escaped = push c (push d (literal quote rest)) in
    let next = push c (literal quote (d ∷ rest)) in
    if c == b'\\'
    then escaped
    else if c == quote
    then (if d == quote then escaped else (c ∷ [], d ∷ rest))
    else next

-- The loop over an identifier in backticks.
unfoldable pub identifier : Text → Span
identifier [] = ([], [])
identifier (c ∷ []) = (c ∷ [], [])
identifier (c ∷ d ∷ rest) =
    let doubled = push c (push d (identifier rest)) in
    let next = push c (identifier (d ∷ rest)) in
    if c == b'`' then (if d == b'`' then doubled else (c ∷ [], d ∷ rest)) else next

-- `sql.find('*/', …)`: what stands before it, and the rest from it on; all, if there is none.
unfoldable pub to_close : Text → Span
to_close [] = ([], [])
to_close (c ∷ []) = (c ∷ [], [])
to_close (c ∷ d ∷ rest) =
    let next = push c (to_close (d ∷ rest)) in
    if c == b'*' && d == b'/' then ([], c ∷ d ∷ rest) else next

-- `sql.find('\n', …)`: the text before the line feed.
unfoldable pub to_newline : Text → Span
to_newline [] = ([], [])
to_newline (c ∷ rest) =
    let next = push c (to_newline rest) in if c == b'\n' then ([], c ∷ rest) else next

-- `str.isspace` and `str.isdigit`
pub record Unicode : Type 0 where
  pub isspace : ℕ → Bool
  pub isdigit : ℕ → Bool

-- What starts at a position.
pub data Token : Type 0 where
  quoted backtick executable comment line_comment plain : Token

abbrev pub Masked : Type 0
Masked = Option (Text × ℕ)

-- `output.append(…)` before the rest of the loop
abbrev pub emit : Text → Masked → Masked
emit out none = none
emit out (some (rest, comments)) = some (out ++ rest, comments)

-- The nested call of an executable comment, between its blanked ends.
abbrev pub enclose : Text → Text → Masked → Masked → Masked
enclose start close none rest = none
enclose start close (some (body, nested)) none = none
enclose start close (some (body, nested)) (some (rest, comments)) =
    some (start ++ (body ++ (close ++ rest)), suc (nested + comments))

module _ (u : Unicode) where
  open u use {isspace, isdigit}

  -- `while … sql[body_start].isdigit()`
  unfoldable pub leading_digits : Text → Span
  leading_digits [] = ([], [])
  leading_digits (c ∷ rest) =
      let next = push c (leading_digits rest) in if isdigit c then next else ([], c ∷ rest)

  -- `index + 2 == length or sql[index + 2].isspace()`
  abbrev pub ends_dashes : Text → Bool
  ends_dashes [] = true
  ends_dashes (c ∷ rest) = isspace c

  -- The tests of the loop, in their order.
  unfoldable pub token : Text → Token
  token s =
      if starts_with s (codes "'") || starts_with s (codes "\"")
      then quoted
      else if starts_with s (codes "`")
      then backtick
      else if starts_with s (codes "/*!")
      then executable
      else if starts_with s (codes "/*")
      then comment
      else if starts_with s (codes "#") || (starts_with s (codes "--") && ends_dashes (drop 2 s))
      then line_comment
      else plain

  -- One round of the loop at `c ∷ rest`; `again` is the function on a shorter text.
  unfoldable pub round : (Text → Masked) → Token → ℕ → Text → Masked
  unfolding literal identifier to_close to_newline leading_digits blank
  round again quoted c rest =
      let (span, left) = literal c rest in emit (blank (c ∷ span)) (again left)
  round again backtick c rest = let (span, left) = identifier rest in emit (c ∷ span) (again left)
  round again executable c rest =
      let (inner, after) = to_close (drop 2 rest) in
      let (digits, body) = leading_digits inner in
      enclose (blank (c ∷ (take 2 rest ++ digits))) (blank (take 2 after)) (again body)
        (again (drop 2 after))
  round again comment c rest =
      let (inner, after) = to_close (drop 1 rest) in
      emit (blank (c ∷ (take 1 rest ++ (inner ++ take 2 after)))) (again (drop 2 after))
  round again line_comment c rest =
      let (span, left) = to_newline (c ∷ rest) in emit (blank span) (again left)
  round again plain c rest = emit (c ∷ []) (again rest)

  unfoldable pub mask : ℕ → Text → Masked
  unfolding token round
  mask zero s = none
  mask (suc fuel) [] = some ([], 0)
  mask (suc fuel) (c ∷ rest) = round (mask fuel) (token (c ∷ rest)) c rest

  -- `_lexically_mask(sql)`
  unfoldable pub lexically_mask : Text → Masked
  unfolding mask
  lexically_mask sql = mask (suc (length sql)) sql
