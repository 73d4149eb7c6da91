-- ===== src/Packages/Ranges/Exact.antt =====
-- What a range request to the package server (src/cmnd_linux/packages.py) gets.
use linux_cmnd.Prelude.{
  ℕ, subst, all, ◌&&◌, &&-eq_true, ==_iff, ◌⊎◌, zero, suc, ◌+◌, ◌-◌, ◌≤◌, ◌<◌, ◌≡◌, refl, sym, ap,
  ◌∙◌, Bool, true, false, ◌||◌, Option, none, some, [], ◌∷◌, ◌++◌, arith, leb, ltb, ◌==◌, length,
  take, drop, if◌then◌else◌, Bool-cases, inl, inr,
}
use linux_cmnd.Prelude.Chars.{Text, codes, is_digit, starts_with}
use linux_cmnd.Packages.Ranges.{
  Head, partial, whole, unsatisfied, send_head, head_of, parse_range, chunk_size, copy, body,
  end_of, leading, bounds, last_of,
}
use linux_cmnd.Updates.Version.{digits_value}
use linux_cmnd.CloneExport.Multipart.Exact.{starts_with-eq}

-- Reading in two parts is reading at once.
take-split :
    (k n : ℕ) (xs : Text)
    → k ≤ n
    → take k xs ++ take (n - length (take k xs)) (drop k xs) ≡ take n xs
take-split zero n xs h = ap (λ m. take m xs) (omega arith)
take-split (suc k) zero xs h = absurd (omega arith)
take-split (suc k) (suc n) [] h = take-nil (suc n - 0)
  where
    take-nil : (m : ℕ) → take {A = ℕ} m [] ≡ []
    take-nil zero = refl
    take-nil (suc m) = refl
take-split (suc k) (suc n) (x ∷ xs) h =
    let later = take-split k n xs (omega arith) in
    let same : suc n - suc (length (take k xs)) ≡ n - length (take k xs) = omega arith in
    ap (λ ys. x ∷ ys) (ap (λ m. take k xs ++ take m (drop k xs)) same ∙ later)

length-take_le : (n : ℕ) (xs : Text) → n ≤ length xs → length (take n xs) ≡ n
length-take_le zero xs h = refl
length-take_le (suc n) [] h = absurd (omega arith)
length-take_le (suc n) (x ∷ xs) h = ap suc (length-take_le n xs (omega arith))

length-drop_le : (n : ℕ) (xs : Text) → length (drop n xs) ≡ length xs - n
length-drop_le zero xs = omega arith
length-drop_le (suc n) [] = omega arith
length-drop_le (suc n) (x ∷ xs) = omega (arith, length-drop_le n xs)

take-empty : (k : ℕ) (xs : Text) → 0 < k → length (take k xs) ≡ 0 → xs ≡ []
take-empty zero xs p h = absurd (omega arith)
take-empty (suc k) [] p h = refl
take-empty (suc k) (x ∷ xs) p h = absurd (omega arith)

stopped :
    (n : ℕ) (source : Text)
    → (n == 0 || length (take (chunk_size n) source) == 0) ≡ true
    → take n source ≡ []
stopped zero source h = refl
stopped (suc n) source h =
    rw (take-empty (chunk_size (suc n)) source (ground arith) (ground arith)) refl

chunk_small : (n : ℕ) → chunk_size n ≤ n
chunk_small n = ground arith

copy-take : (fuel n : ℕ) (source : Text) → n < fuel → copy fuel n source ≡ take n source
unfolding copy
copy-take zero n source h = absurd (omega arith)
copy-take (suc fuel) n source h =
    let chunk = take (chunk_size n) source in
    elim (Bool-cases (n == 0 || length chunk == 0)) [
      | inl stop ↦ rw stop (sym (stopped n source stop))
      | inr go ↦ rw go (
          ap (λ rest. chunk ++ rest)
            (copy-take fuel (n - length chunk) (drop (chunk_size n) source) (ground arith))
          ∙ take-split (chunk_size n) n source (chunk_small n))
    ]

-- The digits behind the dash are the last position; without any there is none.
abbrev pub IsLast : Text → Option ℕ → Type 0
IsLast [] last = last ≡ none
IsLast (c ∷ cs) last = last ≡ some (digits_value 0 (c ∷ cs))

-- The header is `bytes=`, digits, a dash, and digits or nothing.
pub record IsRange (header : Text) (start : ℕ) (last : Option ℕ) : Type 0 where
  pub first : ℕ
  pub digits : Text
  pub behind : Text
  pub written : header ≡ codes "bytes=" ++ ((first ∷ digits) ++ b'-' ∷ behind)
  pub numeric : all is_digit (first ∷ digits) ≡ true
  pub numeric_last : all is_digit behind ≡ true
  pub starts : start ≡ digits_value 0 (first ∷ digits)
  pub ends : IsLast behind last

-- The digits in front are digits, and the text is made of the two parts.
leading-parts :
    (t : Text) → (t ≡ (leading t).0 ++ (leading t).1) × (all is_digit (leading t).0 ≡ true)
unfolding leading
leading-parts [] = (refl, refl)
leading-parts (c ∷ rest) =
    let later = leading-parts rest in
    elim (Bool-cases (is_digit c)) [
      | inl digit ↦ rw digit (ap (λ u. c ∷ u) later.0, rw digit later.1)
      | inr other ↦ rw other (refl, refl)
    ]

leading-append :
    (digits behind : Text)
    → all is_digit digits ≡ true
    → leading (digits ++ b'-' ∷ behind) ≡ (digits, b'-' ∷ behind)
unfolding leading
leading-append [] behind h = refl
leading-append (c ∷ digits) behind h =
    let both = &&-eq_true (is_digit c) (all is_digit digits) h in
    rw (both.0, leading-append digits behind both.1) refl

IsLast-last_of : (t : Text) → IsLast t (last_of t)
IsLast-last_of [] = refl
IsLast-last_of (c ∷ cs) = refl

last_of-IsLast : (t : Text) (last : Option ℕ) → IsLast t last → last ≡ last_of t
last_of-IsLast [] last h = h
last_of-IsLast (c ∷ cs) last h = h

bounds-IsRange :
    (digits behind : Text) (start : ℕ) (last : Option ℕ)
    → all is_digit digits ≡ true
    → bounds digits behind ≡ some (start, last)
    → IsRange (codes "bytes=" ++ (digits ++ behind)) start last
bounds-IsRange [] behind start last d h = absurd (cc h)
bounds-IsRange (c ∷ cs) [] start last d h = absurd (cc h)
bounds-IsRange (c ∷ cs) (e ∷ more) start last d h =
    elim (Bool-cases (e == b'-' && all is_digit more)) [
      | inr other ↦ absurd (cc (rw other at h))
      | inl good ↦
          let both = &&-eq_true (e == b'-') (all is_digit more) good in
          let same = pair_eq _ _ start last (rw good at h) in
          record {
            first = c;
            digits = cs;
            behind = more;
            written = ap (λ x. codes "bytes=" ++ ((c ∷ cs) ++ x ∷ more)) ((==_iff e b'-').0 both.0);
            numeric = d;
            numeric_last = both.1;
            starts = sym same.0;
            ends = subst (IsLast more) same.1 (IsLast-last_of more);
          }
    ]
  where
    pair_eq :
        (a : ℕ) (b : Option ℕ) (x : ℕ) (y : Option ℕ)
        → ◌≡◌ {A = Option (ℕ × Option ℕ)} (some (a, b)) (some (x, y))
        → (a ≡ x) × (b ≡ y)
    pair_eq a b x y e = (cc e, cc e)

parse_range-IsRange :
    (header : Text) (start : ℕ) (last : Option ℕ)
    → parse_range header ≡ some (start, last)
    → IsRange header start last
unfolding parse_range
parse_range-IsRange header start last h = elim (Bool-cases (starts_with header (codes "bytes="))) [
  | inr other ↦ absurd (cc (rw other at h))
  | inl good ↦
      let parts = leading-parts (drop 6 header) in
      subst (λ t. IsRange t start last)
        (sym (starts_with-eq header (codes "bytes=") good ∙ ap (λ t. codes "bytes=" ++ t) parts.0))
        (bounds-IsRange (leading (drop 6 header)).0 (leading (drop 6 header)).1 start last parts.1
          (rw good at h))
]

-- A header of that form is parsed, to its bounds.
IsRange-parsed :
    (header : Text) (start : ℕ) (last : Option ℕ)
    → IsRange header start last
    → parse_range header ≡ some (start, last)
unfolding parse_range
IsRange-parsed header start last h = rw h.written (
    rw (leading-append (h.first ∷ h.digits) h.behind h.numeric)
      (rw (h.numeric_last, h.starts, last_of-IsLast h.behind last h.ends) refl))

-- The last position of a range: what the header says, or the end of the file.
abbrev pub IsEnd : ℕ → Option ℕ → ℕ → Type 0
IsEnd size none last = last ≡ size - 1
IsEnd size (some n) last = last ≡ n

-- The range is not inside the file.
pub record IsOutside (header content : Text) : Type 0 where
  pub start : ℕ
  pub given : Option ℕ
  pub last : ℕ
  pub asked : IsRange header start given
  pub ends : IsEnd (length content) given last
  pub outside : (length content ≤ start) ⊎ (last < start) ⊎ (length content ≤ last)

pub record IsInside (header content : Text) (start last : ℕ) : Type 0 where
  pub given : Option ℕ
  pub asked : IsRange header start given
  pub ends : IsEnd (length content) given last
  pub ordered : start ≤ last
  pub within : last < length content
  pub copied : body (partial start last) content ≡ take (last - start + 1) (drop start content)
  pub all_copied : length (body (partial start last) content) ≡ last - start + 1

-- What the response promises.
abbrev pub Promised : Text → Head → Text → Type 0
Promised header whole content =
    ((start : ℕ) (last : Option ℕ) → IsRange header start last → ⊥) × (body whole content ≡ content)
Promised header unsatisfied content = IsOutside header content × (body unsatisfied content ≡ [])
Promised header (partial start last) content = IsInside header content start last

end_of-IsEnd : (size : ℕ) (given : Option ℕ) → IsEnd size given (end_of size given)
end_of-IsEnd size none = refl
end_of-IsEnd size (some n) = refl

module _ (header content : Text) (start last : ℕ) (given : Option ℕ)
    (asked : IsRange header start given) (ends : IsEnd (length content) given last) where
  exact : start ≤ last → last < length content → IsInside header content start last
  unfolding body
  exact low high =
      let size = last - start + 1 in
      let copied = copy-take (suc size) size (drop start content) (omega arith) in
      let enough : size ≤ length (drop start content) =
        omega (arith, length-drop_le start content) in
      record {
        given = given;
        asked = asked;
        ends = ends;
        ordered = low;
        within = high;
        copied = copied;
        all_copied = ap length copied ∙ length-take_le size (drop start content) enough;
      }

  beyond :
      (n : ℕ)
      → (leb n start || ltb last start || leb n last) ≡ true
      → (n ≤ start) ⊎ (last < start) ⊎ (n ≤ last)
  beyond n h = elim (Bool-cases (leb n start)) [
    | inl a ↦ inl (ground arith)
    | inr a ↦ elim (Bool-cases (ltb last start)) [
      | inl b ↦ inr (inl (ground arith))
      | inr b ↦ inr (inr (ground arith))
    ]
  ]

  judged :
      (b : Bool)
      → (leb (length content) start || ltb last start || leb (length content) last) ≡ b
      → Promised header (if b then unsatisfied else partial start last) content
  unfolding body
  judged true h = (
    record {
      start = start;
      given = given;
      last = last;
      asked = asked;
      ends = ends;
      outside = beyond (length content) h;
    },
    refl,
  )
  judged false h = exact (ground arith) (ground arith)

head_of-Promised :
    (header content : Text) (range : Option (ℕ × Option ℕ))
    → parse_range header ≡ range
    → Promised header (head_of (length content) range) content
unfolding body
head_of-Promised header content none e =
    (λ start last h. absurd (cc (sym e ∙ IsRange-parsed header start last h)), refl)
head_of-Promised header content (some (start, given)) e =
    judged header content start (end_of (length content) given) given
      (parse_range-IsRange header start given e) (end_of-IsEnd (length content) given) _ refl

-- A header is a range if it is `bytes=`, a number, a dash and a number or nothing. Without a range
-- the response is the whole file. With one whose first and last position are in order and inside the
-- file, where the last is the end of the file if it is not given, it is partial and has exactly the
-- bytes between them, both included; with any other one it is refused, and empty.
pub send_head-Promised :
    (content header : Text) → Promised header (send_head (length content) header) content
unfolding send_head
send_head-Promised content header = head_of-Promised header content (parse_range header) refl
