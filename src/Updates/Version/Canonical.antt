-- ===== src/Updates/Version/Canonical.antt =====
-- A version has exactly one text: the numbers in decimal, with no leading zero, between two dots.
use mathlib.Core.Logic.{ite, dite, if_pos, if_neg}
use mathlib.Core.Path.{ap₂}
use mathlib.Core.WellFounded
use mathlib.Core.List.{append-nil, append_assoc}
use native.Mathlib.Decide.{dec_lt}
use linux_cmnd.Prelude.{
  ℕ, ◌+◌, ◌-◌, ◌*◌, ◌/◌, ◌%◌, ◌<◌, ◌≤◌, String, ◌≡◌, refl, ◌∙◌, ◌↔◌, true, false, Option, none,
  some, List, [], ◌∷◌, ◌++◌, arith, ◌==◌, all, ap, sym, Bool-cases, inl, inr, ==_iff,
}
use linux_cmnd.Prelude.Induction.{lt_wf}
use linux_cmnd.Prelude.Chars.{Text, codes, is_digit}
use linux_cmnd.Result.{ok}
use linux_cmnd.Updates.Version.{
  Version, digits_value, numeral, split_dots, prepend, from_parts, join_numerals, version_tuple,
}

abbrev decimal_step : (n : ℕ) → ((m : ℕ) → m < n → Text) → Text
decimal_step n rec =
    dite (dec_lt n 10) (λ _. (b'0' + n) ∷ [])
      (λ large. rec (n / 10) (omega arith) ++ ((b'0' + n % 10) ∷ []))

-- The decimal digits of a number.
pub decimal : ℕ → Text
decimal = WellFounded.fix lt_wf decimal_step

decimal_lem :
    (n : ℕ)
    → decimal n ≡ ite (dec_lt n 10) ((b'0' + n) ∷ []) (decimal (n / 10) ++ ((b'0' + n % 10) ∷ []))
unfolding decimal
decimal_lem n = WellFounded.fix-eq lt_wf decimal_step n

decimal_small : (n : ℕ) → n < 10 → decimal n ≡ (b'0' + n) ∷ []
decimal_small n h =
    decimal_lem n ∙ if_pos (dec_lt n 10) h _ (decimal (n / 10) ++ ((b'0' + n % 10) ∷ []))

decimal_large : (n : ℕ) → 10 ≤ n → decimal n ≡ decimal (n / 10) ++ ((b'0' + n % 10) ∷ [])
decimal_large n h = decimal_lem n ∙ if_neg (dec_lt n 10) (omega arith) ((b'0' + n) ∷ []) _

decimal_snoc :
    (n c : ℕ) → 0 < n → is_digit c ≡ true → decimal (n * 10 + (c - b'0')) ≡ decimal n ++ (c ∷ [])
decimal_snoc n c h d =
    let low : c - b'0' < 10 = ground arith in
    let up : b'0' ≤ c = ground arith in
    let quotient : (n * 10 + (c - b'0')) / 10 ≡ n = omega arith in
    let back : b'0' + (n * 10 + (c - b'0')) % 10 ≡ c = omega arith in
    decimal_large (n * 10 + (c - b'0')) (omega arith)
    ∙ ap (λ k. decimal k ++ ((b'0' + (n * 10 + (c - b'0')) % 10) ∷ [])) quotient
    ∙ ap (λ k. decimal n ++ (k ∷ [])) back

decimal-digits_value :
    (n : ℕ) (cs : Text)
    → 0 < n
    → all is_digit cs ≡ true
    → decimal (digits_value n cs) ≡ decimal n ++ cs
decimal-digits_value n [] h d = sym (append-nil (decimal n))
decimal-digits_value n (c ∷ cs) h d =
    let first : is_digit c ≡ true = ground arith in
    let others : all is_digit cs ≡ true = ground arith in
    decimal-digits_value (n * 10 + (c - b'0')) cs (omega arith) others
    ∙ ap (λ t. t ++ cs) (decimal_snoc n c h first)
    ∙ append_assoc (decimal n) (c ∷ []) cs

-- An accepted numeral is the decimal text of its value.
decimal-numeral : (cs : Text) (n : ℕ) → numeral cs ≡ some n → decimal n ≡ cs
unfolding numeral
decimal-numeral [] n h = cc
decimal-numeral (c ∷ []) n h =
    let up : b'0' + (c - b'0') ≡ c = ground arith in
    let value : c - b'0' ≡ n = ground arith in
    let small : n < 10 = ground arith in decimal_small n small ∙ ap (λ k. k ∷ []) (omega arith)
decimal-numeral (c ∷ d ∷ cs) n h =
    let first : is_digit c ≡ true = ground arith in
    let up : b'0' + (c - b'0') ≡ c = ground arith in
    let digits : all is_digit (d ∷ cs) ≡ true = ground arith in
    let value : digits_value (c - b'0') (d ∷ cs) ≡ n = ground arith in
    ap decimal (sym value)
    ∙ decimal-digits_value (c - b'0') (d ∷ cs) (ground arith) digits
    ∙ ap (λ t. t ++ d ∷ cs) (decimal_small (c - b'0') (ground arith) ∙ ap (λ k. k ∷ []) up)

all_digits-numeral : (cs : Text) (n : ℕ) → numeral cs ≡ some n → all is_digit cs ≡ true
unfolding numeral
all_digits-numeral [] n h = cc
all_digits-numeral (c ∷ []) n h = ground arith
all_digits-numeral (c ∷ d ∷ cs) n h = ground arith

all_digits-snoc :
    (cs : Text) (c : ℕ)
    → all is_digit cs ≡ true
    → is_digit c ≡ true
    → all is_digit (cs ++ (c ∷ [])) ≡ true
all_digits-snoc [] c h d = ground arith
all_digits-snoc (b ∷ cs) c h d = ground (arith, all_digits-snoc cs c)

digits_value-snoc :
    (acc : ℕ) (cs : Text) (c : ℕ)
    → digits_value acc (cs ++ (c ∷ [])) ≡ digits_value acc cs * 10 + (c - b'0')
digits_value-snoc acc [] c = refl
digits_value-snoc acc (b ∷ cs) c = digits_value-snoc (acc * 10 + (b - b'0')) cs c

numeral-snoc :
    (cs : Text) (n c : ℕ)
    → numeral cs ≡ some n
    → 0 < n
    → is_digit c ≡ true
    → numeral (cs ++ (c ∷ [])) ≡ some (n * 10 + (c - b'0'))
unfolding numeral
numeral-snoc [] n c h p d = cc
numeral-snoc (a ∷ []) n c h p d = ground arith
numeral-snoc (a ∷ b ∷ cs) n c h p d =
    ground (arith, all_digits-snoc cs c, digits_value-snoc (0 * 10 + (a - b'0')) (b ∷ cs) c)

numeral-decimal : (n : ℕ) → numeral (decimal n) ≡ some n
numeral-decimal n = WellFounded.induction lt_wf {C = λ k. numeral (decimal k) ≡ some k} n λ k ih.
    elim (dec_lt k 10) [
      | yes small ↦ rw (decimal_small k small) (unfold numeral in ground arith)
      | no large ↦ rw (decimal_large k (omega arith)) (
          numeral-snoc (decimal (k / 10)) (k / 10) (b'0' + k % 10) (ih (k / 10) (omega arith))
            (omega arith) (ground arith)
          ∙ ap some (omega arith))
    ]

-- The text of a version.
pub version_text : Version → Text
version_text v = decimal v.major ++ (b'.' ∷ (decimal v.minor ++ (b'.' ∷ decimal v.patch)))

join_dots : List Text → Text
join_dots [] = []
join_dots (part ∷ []) = part
join_dots (part ∷ next ∷ parts) = part ++ (b'.' ∷ join_dots (next ∷ parts))

join_dots-prepend : (c : ℕ) (parts : List Text) → join_dots (prepend c parts) ≡ c ∷ join_dots parts
unfolding join_dots
join_dots-prepend c [] = refl
join_dots-prepend c (part ∷ []) = refl
join_dots-prepend c (part ∷ next ∷ parts) = refl

-- Splitting at the dots loses nothing.
split_dots-cons : (cs : Text) → (first : Text) × (rest : List Text) × (split_dots cs ≡ first ∷ rest)
unfolding split_dots
split_dots-cons [] = ([], [], refl)
split_dots-cons (c ∷ cs) = elim (Bool-cases (c == b'.')) [
  | inl dot ↦ ([], split_dots cs, rw dot)
  | inr other ↦ let (first, rest, e) = split_dots-cons cs in (c ∷ first, rest, rw (other, e))
]

join_dots-nil_cons :
    (first : Text) (rest : List Text)
    → join_dots ([] ∷ first ∷ rest) ≡ b'.' ∷ join_dots (first ∷ rest)
unfolding join_dots
join_dots-nil_cons first rest = refl

join_dots-split_dots : (cs : Text) → join_dots (split_dots cs) ≡ cs
unfolding split_dots
join_dots-split_dots [] = unfold join_dots in refl
join_dots-split_dots (c ∷ cs) = elim (Bool-cases (c == b'.')) [
  | inl dot ↦
      let (first, rest, e) = split_dots-cons cs in
      let ih = join_dots-split_dots cs in
      rw (dot, e)
        (join_dots-nil_cons first rest
          ∙ ap₂ (λ a t. a ∷ t) (sym ((==_iff c b'.').0 dot)) (rw e at ih))
  | inr other ↦
      rw other (join_dots-prepend c (split_dots cs) ∙ ap (λ t. c ∷ t) (join_dots-split_dots cs))
]

split_dots-digits : (cs : Text) → all is_digit cs ≡ true → split_dots cs ≡ cs ∷ []
unfolding split_dots
split_dots-digits [] h = refl
split_dots-digits (c ∷ cs) h =
    let plain : (c == b'.') ≡ false = ground arith in
    let others : all is_digit cs ≡ true = ground arith in rw (plain, split_dots-digits cs others)

split_dots-digits_dot :
    (cs rest : Text)
    → all is_digit cs ≡ true
    → split_dots (cs ++ (b'.' ∷ rest)) ≡ cs ∷ split_dots rest
unfolding split_dots
split_dots-digits_dot [] rest h = refl
split_dots-digits_dot (c ∷ cs) rest h =
    let plain : (c == b'.') ≡ false = ground arith in
    let others : all is_digit cs ≡ true = ground arith in
    rw (plain, split_dots-digits_dot cs rest others)

decimal_digits : (n : ℕ) → all is_digit (decimal n) ≡ true
decimal_digits n = all_digits-numeral (decimal n) n (numeral-decimal n)

split_dots-version_text :
    (v : Version)
    → split_dots (version_text v) ≡ decimal v.major ∷ decimal v.minor ∷ decimal v.patch ∷ []
unfolding version_text
split_dots-version_text v =
    split_dots-digits_dot (decimal v.major) _ (decimal_digits v.major)
    ∙ ap (λ r. decimal v.major ∷ r)
        (split_dots-digits_dot (decimal v.minor) _ (decimal_digits v.minor)
          ∙ ap (λ r. decimal v.minor ∷ r)
              (split_dots-digits (decimal v.patch) (decimal_digits v.patch)))

join_numerals-eq_ok :
    (x y z : Option ℕ) (v : Version)
    → join_numerals x y z ≡ ok v
    → (x ≡ some v.major) × (y ≡ some v.minor) × (z ≡ some v.patch)
join_numerals-eq_ok (some a) (some b) (some c) v h = ground arith
join_numerals-eq_ok (some a) (some b) none v h = cc
join_numerals-eq_ok (some a) none z v h = cc
join_numerals-eq_ok none y z v h = cc

from_parts-eq_ok :
    (parts : List Text) (v : Version) → from_parts parts ≡ ok v → join_dots parts ≡ version_text v
unfolding join_dots version_text
from_parts-eq_ok [] v h = cc
from_parts-eq_ok (a ∷ []) v h = cc
from_parts-eq_ok (a ∷ b ∷ []) v h = cc
from_parts-eq_ok (a ∷ b ∷ c ∷ []) v h =
    let found = join_numerals-eq_ok (numeral a) (numeral b) (numeral c) v h in
    rw (
      decimal-numeral a v.major found.0,
      decimal-numeral b v.minor found.1,
      decimal-numeral c v.patch found.2,
    )
from_parts-eq_ok (a ∷ b ∷ c ∷ d ∷ r) v h = cc

-- A text is accepted with a version exactly when it is the canonical text of that version, so two
-- accepted texts of one version are the same text.
pub version_tuple-iff-version_text :
    (value : String) (v : Version) → (version_tuple value ≡ ok v) ↔ (codes value ≡ version_text v)
unfolding version_tuple
version_tuple-iff-version_text value v = (
  λ h. sym (join_dots-split_dots (codes value)) ∙ from_parts-eq_ok (split_dots (codes value)) v h,
  λ h. rw h (rw split_dots-version_text (simp numeral-decimal)),
)
