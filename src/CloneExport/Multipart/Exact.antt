-- ===== src/CloneExport/Multipart/Exact.antt =====
-- The parts of a multipart body (src/cmnd_linux/clone_export.py) are all of it.
use linux_cmnd.Prelude.{
  ℕ, zero, suc, ◌+◌, ◌≤◌, ◌≡◌, refl, sym, ap, ◌∙◌, Bool, true, false, not, ◌&&◌, ◌||◌, none, some,
  List, [], ◌∷◌, ◌++◌, arith, length, drop, ◌⊎◌, inl, inr, Bool-cases, All, ==_iff,
}
use linux_cmnd.Prelude.Chars.{Text, starts_with, text_eq, text_eq_iff}
use linux_cmnd.Result.{Error, ok}
use linux_cmnd.Result.Chain.{
  Ensures, Ensures-ok, Ensures-bind, Ensures-refuse, Ensures-err, Ensures-cases,
}
use linux_cmnd.CloneExport.Multipart.{
  Part, Split, before, split_at, split_delimiter, found, closes, trailing, parts_of, crlf,
  blank_line, dashes, delimiter_of, prefix_of, multipart,
}

-- The text is the needle and what is behind it.
pub starts_with-eq : (s t : Text) → starts_with s t ≡ true → s ≡ t ++ drop (length t) s
starts_with-eq s [] h = refl
starts_with-eq [] (d ∷ t) h = cc
starts_with-eq (c ∷ s) (d ∷ t) h =
    let later = starts_with-eq s t (ground arith) in
    let same : c ≡ d = (==_iff c d).0 (ground arith) in rw same (ap (λ u. d ∷ u) later)

abbrev Exact : Text → Text → Split → Type 0
Exact needle s none = Unit
Exact needle s (some (span, rest)) = s ≡ span ++ (needle ++ rest)

before-Exact :
    (needle : Text) (c : ℕ) (s : Text) (r : Split)
    → Exact needle s r
    → Exact needle (c ∷ s) (before c r)
before-Exact needle c s none h = tt
before-Exact needle c s (some (span, rest)) h = ap (λ u. c ∷ u) h

split_at-Exact : (needle s : Text) → Exact needle s (split_at needle s)
unfolding split_at
split_at-Exact needle [] = elim (Bool-cases (starts_with [] needle)) [
  | inl here ↦ rw here (empty needle here)
  | inr not_here ↦ rw not_here tt
]
  where
    empty : (t : Text) → starts_with [] t ≡ true → [] ≡ t ++ []
    empty [] h = refl
    empty (d ∷ t) h = cc
split_at-Exact needle (c ∷ rest) =
    let later = before-Exact needle c rest (split_at needle rest) (split_at-Exact needle rest) in
    elim (Bool-cases (starts_with (c ∷ rest) needle)) [
      | inl here ↦ rw here (starts_with-eq (c ∷ rest) needle here)
      | inr not_here ↦ rw not_here later
    ]

first : (a b : Bool) → (a && b) ≡ true → a ≡ true
first a b h = ground arith

split_delimiter-Exact : (delimiter s : Text) → Exact delimiter s (split_delimiter delimiter s)
unfolding split_delimiter
split_delimiter-Exact delimiter [] = tt
split_delimiter-Exact delimiter (c ∷ rest) =
    let later =
      before-Exact delimiter c rest (split_delimiter delimiter rest)
        (split_delimiter-Exact delimiter rest) in
    elim (Bool-cases
      (starts_with (c ∷ rest) delimiter && closes (drop (length delimiter) (c ∷ rest)))) [
        | inl here ↦ rw here (starts_with-eq (c ∷ rest) delimiter (first _ _ here))
        | inr not_here ↦ rw not_here later
      ]

found-Exact :
    (needle s : Text) (e : Error) (r : Split) (p : Text × Text)
    → Exact needle s r
    → found e r ≡ ok p
    → s ≡ p.0 ++ (needle ++ p.1)
found-Exact needle s e none p x h = cc
found-Exact needle s e (some q) p x h = rw (← ok_eq q p h) x
  where
    ok_eq : (a b : Text × Text) → ok a ≡ ok b → a ≡ b
    ok_eq a b k = cc

-- What stands behind the last delimiter that is not followed by a line end.
abbrev pub Closing : Text → Type 0
Closing tail = (tail ≡ dashes) ⊎ (tail ≡ dashes ++ crlf)

-- The parts with their delimiters; a line end stands between two parts.
abbrev pub joined : Text → Text → List Part → Text
joined delimiter tail [] = []
joined delimiter tail (p ∷ []) = p.headers ++ (blank_line ++ (p.content ++ (delimiter ++ tail)))
joined delimiter tail (p ∷ q ∷ rest) =
    p.headers
    ++ (blank_line ++ (p.content ++ (delimiter ++ (crlf ++ joined delimiter tail (q ∷ rest)))))

abbrev pub Small : Part → Type 0
Small p = length p.headers + 4 ≤ 8192

pub record AreParts (rounds : ℕ) (delimiter position : Text) (parts : List Part) : Type 0 where
  pub tail : Text
  pub closed : Closing tail
  pub exact : position ≡ joined delimiter tail parts
  pub some_part : 1 ≤ length parts
  pub few : length parts ≤ rounds
  pub small : All Small parts

Closed : Split → Type 0
Closed none = Unit
Closed (some (span, rest)) = closes rest ≡ true

before-Closed : (c : ℕ) (r : Split) → Closed r → Closed (before c r)
unfolding Closed
before-Closed c none h = tt
before-Closed c (some (span, rest)) h = h

second : (a b : Bool) → (a && b) ≡ true → b ≡ true
second a b h = ground arith

split_delimiter-Closed : (delimiter s : Text) → Closed (split_delimiter delimiter s)
unfolding split_delimiter Closed
split_delimiter-Closed delimiter [] = tt
split_delimiter-Closed delimiter (c ∷ rest) =
    let later =
      before-Closed c (split_delimiter delimiter rest) (split_delimiter-Closed delimiter rest) in
    elim (Bool-cases
      (starts_with (c ∷ rest) delimiter && closes (drop (length delimiter) (c ∷ rest)))) [
        | inl here ↦ rw here (second _ _ here)
        | inr not_here ↦ rw not_here later
      ]

found-Closed :
    (e : Error) (r : Split) (p : Text × Text) → Closed r → found e r ≡ ok p → closes p.1 ≡ true
unfolding Closed
found-Closed e none p x h = cc
found-Closed e (some q) p x h = ground arith

ended :
    (behind : Text)
    → starts_with behind dashes ≡ true
    → not (trailing (drop 2 behind)) ≡ false
    → Closing behind
ended behind h t =
    let whole = starts_with-eq behind dashes h in
    elim (Bool-cases (text_eq (drop 2 behind) [])) [
      | inl nothing ↦
          inl (whole ∙ ap (λ u. dashes ++ u) ((text_eq_iff (drop 2 behind) []).0 nothing))
      | inr more ↦
          inr (whole ∙ ap (λ u. dashes ++ u) ((text_eq_iff (drop 2 behind) crlf).0 (ground arith)))
    ]

or_last : (a b : Bool) → (a || b) ≡ true → a ≡ false → b ≡ true
or_last a b h k = ground arith

joined-cons :
    (delimiter tail : Text) (p : Part) (qs : List Part)
    → 1 ≤ length qs
    → joined delimiter tail (p ∷ qs)
      ≡ p.headers
        ++ (blank_line ++ (p.content ++ (delimiter ++ (crlf ++ joined delimiter tail qs))))
joined-cons delimiter tail p [] h = absurd (omega arith)
joined-cons delimiter tail p (q ∷ qs) h = refl

module _ (delimiter : Text) where
  placed :
      (position headers start content behind rest : Text)
      → position ≡ headers ++ (blank_line ++ start)
      → start ≡ content ++ (delimiter ++ behind)
      → behind ≡ rest
      → position ≡ headers ++ (blank_line ++ (content ++ (delimiter ++ rest)))
  placed position headers start content behind rest h k e =
      h ∙ ap (λ s. headers ++ (blank_line ++ s)) (k ∙ ap (λ b. content ++ (delimiter ++ b)) e)

  parts_of-AreParts :
      (rounds : ℕ) (position : Text)
      → Ensures (AreParts rounds delimiter position) (parts_of rounds delimiter position)
  unfolding parts_of
  parts_of-AreParts zero position = Ensures-err _
  parts_of-AreParts (suc rounds) position = Ensures-bind _ _ λ h fh. Ensures-refuse _ _ _ λ size.
      Ensures-bind _ _ λ c fc.
        let head = found-Exact blank_line position _ _ h (split_at-Exact blank_line position) fh in
        let body = found-Exact delimiter h.1 _ _ c (split_delimiter-Exact delimiter h.1) fc in
        let closed = found-Closed _ _ c (split_delimiter-Closed delimiter h.1) fc in
        Ensures-cases _ _ _
          (λ last. Ensures-refuse _ _ _ λ trail. Ensures-ok _ (record {
            tail = c.1;
            closed = ended c.1 last trail;
            exact = placed position h.0 h.1 c.0 c.1 c.1 head body refl;
            some_part = omega arith;
            few = omega arith;
            small = (ground arith, tt);
          }))
          (λ goes_on.
            let behind = starts_with-eq c.1 crlf (or_last _ _ closed goes_on) in
            let more = parts_of-AreParts rounds (drop 2 c.1) in
            Ensures-bind _ _ λ others o.
              let a = more.holds others o in
              Ensures-ok _ (record {
                tail = a.tail;
                closed = a.closed;
                exact =
                    placed position h.0 h.1 c.0 c.1 (crlf ++ joined delimiter a.tail others) head
                      body (behind ∙ ap (λ u. crlf ++ u) a.exact)
                    ∙ sym (
                        joined-cons delimiter a.tail (record { headers = h.0; content = c.0 })
                          others a.some_part);
                some_part = omega arith;
                few = omega (arith, a.few);
                small = (ground arith, a.small);
              }))

-- The parts that are found, with their delimiters, are all of the body, to the byte: one to 64
-- parts with headers below 8 KiB, behind the opening delimiter and before a closing one that at
-- most a line end follows.
pub multipart-AreParts :
    (boundary body : Text) (parts : List Part)
    → multipart boundary body ≡ ok parts
    → (rest : Text) × (body ≡ prefix_of boundary ++ rest)
      × AreParts 64 (delimiter_of boundary) rest parts
multipart-AreParts boundary body parts h = whole.holds parts h
  where
    not-eq_false : (b : Bool) → not b ≡ false → b ≡ true
    not-eq_false b h = ground arith

    whole :
        Ensures
          (λ parts.
            (rest : Text) × (body ≡ prefix_of boundary ++ rest)
            × AreParts 64 (delimiter_of boundary) rest parts)
          (multipart boundary body)
    whole =
        unfold multipart in
        Ensures-refuse _ _ _ λ opened. record {
          holds = λ ps found. (
            drop (length (prefix_of boundary)) body,
            starts_with-eq body (prefix_of boundary) (not-eq_false _ opened),
            (parts_of-AreParts (delimiter_of boundary) 64 _).holds ps found,
          );
        }
