-- ===== src/SqlAudit/Mask/Positions.antt =====
-- The mask keeps every position: each character is kept or blanked, and line ends stay.
use mathlib.Core.List.{append_assoc}
use linux_cmnd.Prelude.{
  ℕ, zero, suc, ◌+◌, ◌≤◌, ◌<◌, ◌≡◌, refl, sym, ap, subst, ◌∙◌, ◌⊎◌, inl, inr, Bool, true, false,
  ◌&&◌, some, [], ◌∷◌, ◌++◌, ◌==◌, length, take, drop, if◌then◌else◌, arith, Bool-cases, ==_iff,
  Option-cases, length-append,
}
use linux_cmnd.Prelude.Chars.{Text}
use linux_cmnd.SqlAudit.Mask.{
  blank_char, blank, Span, push, literal, identifier, to_close, to_newline, Unicode, leading_digits,
  Token, quoted, backtick, executable, comment, line_comment, plain, Masked, emit, enclose, token,
  round, mask, lexically_mask,
}

-- A span and what is left of it are the text.
record Splits (s : Text) (p : Span) : Type 0 where
  whole : p.0 ++ p.1 ≡ s

Splits-push : (c : ℕ) (s : Text) (p : Span) → Splits s p → Splits (c ∷ s) (push c p)
Splits-push c s p h = record { whole = ap (λ t. c ∷ t) h.whole }

Splits-all : (s : Text) → Splits s ([], s)
Splits-all s = record { whole = refl }

Splits-if :
    (b : Bool) (s : Text) (p q : Span) → Splits s p → Splits s q → Splits s (if b then p else q)
Splits-if true s p q h k = h
Splits-if false s p q h k = k

literal-Splits : (quote : ℕ) (s : Text) → Splits s (literal quote s)
unfolding literal
literal-Splits quote [] = Splits-all []
literal-Splits quote (c ∷ []) = record { whole = refl }
literal-Splits quote (c ∷ d ∷ rest) =
    let pair = Splits-push c _ _ (Splits-push d _ _ (literal-Splits quote rest)) in
    Splits-if (c == b'\\') _ _ _ pair (
      Splits-if (c == quote) _ _ _ (Splits-if (d == quote) _ _ _ pair (record { whole = refl }))
        (Splits-push c _ _ (literal-Splits quote (d ∷ rest))))

identifier-Splits : (s : Text) → Splits s (identifier s)
unfolding identifier
identifier-Splits [] = Splits-all []
identifier-Splits (c ∷ []) = record { whole = refl }
identifier-Splits (c ∷ d ∷ rest) =
    let pair = Splits-push c _ _ (Splits-push d _ _ (identifier-Splits rest)) in
    Splits-if (c == b'`') _ _ _ (Splits-if (d == b'`') _ _ _ pair (record { whole = refl }))
      (Splits-push c _ _ (identifier-Splits (d ∷ rest)))

to_close-Splits : (s : Text) → Splits s (to_close s)
unfolding to_close
to_close-Splits [] = Splits-all []
to_close-Splits (c ∷ []) = record { whole = refl }
to_close-Splits (c ∷ d ∷ rest) =
    Splits-if (c == b'*' && d == b'/') _ _ _ (Splits-all _)
      (Splits-push c _ _ (to_close-Splits (d ∷ rest)))

to_newline-Splits : (s : Text) → Splits s (to_newline s)
unfolding to_newline
to_newline-Splits [] = Splits-all []
to_newline-Splits (c ∷ rest) =
    Splits-if (c == b'\n') _ _ _ (Splits-all _) (Splits-push c _ _ (to_newline-Splits rest))

digits-Splits : (u : Unicode) (s : Text) → Splits s (leading_digits u s)
unfolding leading_digits
digits-Splits u [] = Splits-all []
digits-Splits u (c ∷ rest) =
    Splits-if (u.isdigit c) _ _ _ (Splits-push c _ _ (digits-Splits u rest)) (Splits-all _)

take-drop : (n : ℕ) (s : Text) → take n s ++ drop n s ≡ s
take-drop zero s = refl
take-drop (suc n) [] = refl
take-drop (suc n) (c ∷ s) = ap (λ t. c ∷ t) (take-drop n s)

-- Each character of a masked text is the character of the source, or its blank.
abbrev pub Covers : Text → Text → Type 0
Covers [] [] = Unit
Covers (c ∷ s) (d ∷ t) = ((d ≡ c) ⊎ (d ≡ blank_char c)) × Covers s t
Covers _ _ = ⊥

Covers-same : (s : Text) → Covers s s
Covers-same [] = tt
Covers-same (c ∷ s) = (inl refl, Covers-same s)

Covers-blank : (s : Text) → Covers s (blank s)
unfolding blank
Covers-blank [] = tt
Covers-blank (c ∷ s) = (inr refl, Covers-blank s)

Covers-append : (s t s' t' : Text) → Covers s t → Covers s' t' → Covers (s ++ s') (t ++ t')
Covers-append [] [] s' t' h k = k
Covers-append [] (d ∷ t) s' t' h k = absurd h
Covers-append (c ∷ s) [] s' t' h k = absurd h
Covers-append (c ∷ s) (d ∷ t) s' t' h k = (h.0, Covers-append s t s' t' h.1 k)

emit-Covers :
    (again : Text → Masked) (keep : (t m : Text) (n : ℕ) → again t ≡ some (m, n) → Covers t m)
    (consumed out left s m : Text) (n : ℕ)
    → consumed ++ left ≡ s
    → Covers consumed out
    → emit out (again left) ≡ some (m, n)
    → Covers s m
emit-Covers again keep consumed out left s m n e c h = elim (Option-cases (again left)) [
  | inl stop ↦ absurd (cc (rw stop at h))
  | inr ((rest, k), found) ↦
      let same : out ++ rest ≡ m = ground arith in
      subst (λ t. Covers s t) same
        (subst (λ t. Covers t (out ++ rest)) e
          (Covers-append consumed out left rest c (keep left rest k found)))
]

-- The parts of an executable comment are the text.
executable_splits :
    (u : Unicode) (c : ℕ) (rest : Text)
    → let inner = (to_close (drop 2 rest)).0 in
      let after = (to_close (drop 2 rest)).1 in
      let digits = (leading_digits u inner).0 in
      let body = (leading_digits u inner).1 in
      (c ∷ (take 2 rest ++ digits)) ++ (body ++ (take 2 after ++ drop 2 after)) ≡ c ∷ rest
executable_splits u c rest =
    let (inner, after) = to_close (drop 2 rest) in
    let (digits, body) = leading_digits u inner in
    let whole = (to_close-Splits (drop 2 rest)).whole in
    let inside = (digits-Splits u inner).whole in
    ap (λ t. c ∷ t)
      (append_assoc (take 2 rest) digits _
        ∙ ap (λ t. take 2 rest ++ t)
            (sym (append_assoc digits body _)
              ∙ ap (λ t. t ++ (take 2 after ++ drop 2 after)) inside
              ∙ ap (λ t. inner ++ t) (take-drop 2 after)
              ∙ whole)
        ∙ take-drop 2 rest)

comment_splits :
    (c : ℕ) (rest : Text)
    → let inner = (to_close (drop 1 rest)).0 in
      let after = (to_close (drop 1 rest)).1 in
      (c ∷ (take 1 rest ++ (inner ++ take 2 after))) ++ drop 2 after ≡ c ∷ rest
comment_splits c rest =
    let (inner, after) = to_close (drop 1 rest) in
    ap (λ t. c ∷ t)
      (append_assoc (take 1 rest) (inner ++ take 2 after) _
        ∙ ap (λ t. take 1 rest ++ t)
            (append_assoc inner (take 2 after) (drop 2 after)
              ∙ ap (λ t. inner ++ t) (take-drop 2 after)
              ∙ (to_close-Splits (drop 1 rest)).whole)
        ∙ take-drop 1 rest)

module _ (again : Text → Masked)
    (keep : (t m : Text) (n : ℕ) → again t ≡ some (m, n) → Covers t m) where
  enclose-Covers :
      (a z body tail start close m : Text) (n : ℕ)
      → Covers a start
      → Covers z close
      → enclose start close (again body) (again tail) ≡ some (m, n)
      → Covers (a ++ (body ++ (z ++ tail))) m
  enclose-Covers a z body tail start close m n ca cz h = elim (Option-cases (again body)) [
    | inl stop ↦ absurd (cc (rw stop at h))
    | inr ((b, k), inside) ↦ elim (Option-cases (again tail)) [
      | inl stop ↦ absurd (cc (rw (inside, stop) at h))
      | inr ((r, j), behind) ↦
          let same : start ++ (b ++ (close ++ r)) ≡ m = ground arith in
          subst (λ t. Covers (a ++ (body ++ (z ++ tail))) t) same
            (Covers-append a start _ _ ca (
              Covers-append body b _ _ (keep body b k inside)
                (Covers-append z close tail r cz (keep tail r j behind))))
    ]
  ]

  round-Covers :
      (u : Unicode) (k : Token) (c : ℕ) (rest m : Text) (n : ℕ)
      → round u again k c rest ≡ some (m, n)
      → Covers (c ∷ rest) m
  unfolding round
  round-Covers u quoted c rest m n h =
      let (span, left) = literal c rest in
      emit-Covers again keep (c ∷ span) (blank (c ∷ span)) left (c ∷ rest) m n
        (ap (λ t. c ∷ t) (literal-Splits c rest).whole) (Covers-blank (c ∷ span)) h
  round-Covers u backtick c rest m n h =
      let (span, left) = identifier rest in
      emit-Covers again keep (c ∷ span) (c ∷ span) left (c ∷ rest) m n
        (ap (λ t. c ∷ t) (identifier-Splits rest).whole) (Covers-same (c ∷ span)) h
  round-Covers u executable c rest m n h =
      let (inner, after) = to_close (drop 2 rest) in
      let (digits, body) = leading_digits u inner in
      let start = c ∷ (take 2 rest ++ digits) in
      subst (λ t. Covers t m) (executable_splits u c rest)
        (enclose-Covers start (take 2 after) body (drop 2 after) (blank start)
          (blank (take 2 after)) m n (Covers-blank start) (Covers-blank (take 2 after)) h)
  round-Covers u comment c rest m n h =
      let (inner, after) = to_close (drop 1 rest) in
      let consumed = c ∷ (take 1 rest ++ (inner ++ take 2 after)) in
      emit-Covers again keep consumed (blank consumed) (drop 2 after) (c ∷ rest) m n
        (comment_splits c rest) (Covers-blank consumed) h
  round-Covers u line_comment c rest m n h =
      let (span, left) = to_newline (c ∷ rest) in
      emit-Covers again keep span (blank span) left (c ∷ rest) m n
        (to_newline-Splits (c ∷ rest)).whole (Covers-blank span) h
  round-Covers u plain c rest m n h =
      emit-Covers again keep (c ∷ []) (c ∷ []) rest (c ∷ rest) m n refl (inl refl, tt) h

mask-Covers :
    (u : Unicode) (fuel : ℕ) (s m : Text) (n : ℕ) → mask u fuel s ≡ some (m, n) → Covers s m
unfolding mask
mask-Covers u zero s m n h = cc
mask-Covers u (suc fuel) [] m n h =
    let empty : [] ≡ m = ground arith in subst (λ t. Covers [] t) empty tt
mask-Covers u (suc fuel) (c ∷ rest) m n h =
    round-Covers (mask u fuel) (mask-Covers u fuel) u (token u (c ∷ rest)) c rest m n h

-- The length of what is left of a span.
left_le : (s : Text) (p : Span) → Splits s p → length p.1 ≤ length s
left_le s p h = omega (arith, length-append p.0 p.1, ap (λ (t : Text). length t) h.whole)

span_le : (s : Text) (p : Span) → Splits s p → length p.0 ≤ length s
span_le s p h = omega (arith, length-append p.0 p.1, ap (λ (t : Text). length t) h.whole)

drop_le : (n : ℕ) (s : Text) → length (drop n s) ≤ length s
drop_le zero s = omega arith
drop_le (suc n) [] = omega arith
drop_le (suc n) (c ∷ s) = omega (arith, drop_le n s)

abbrev Given : Masked → Type 0
Given r = (x : Text × ℕ) × (r ≡ some x)

emit-Given : (out : Text) (r : Masked) → Given r → Given (emit out r)
emit-Given out r ((m, n), e) = ((out ++ m, n), rw e)

enclose-Given :
    (start close : Text) (x y : Masked) → Given x → Given y → Given (enclose start close x y)
enclose-Given start close x y ((b, k), e) ((r, j), d) =
    ((start ++ (b ++ (close ++ r)), suc (k + j)), rw (e, d))

round-Given :
    (u : Unicode) (again : Text → Masked) (bound : ℕ)
    → ((t : Text) → length t ≤ bound → Given (again t))
    → (k : Token) (c : ℕ) (rest : Text)
    → (k ≡ line_comment → length (to_newline (c ∷ rest)).1 ≤ length rest)
    → length rest ≤ bound
    → Given (round u again k c rest)
unfolding round
round-Given u again bound g quoted c rest nl h =
    let (span, left) = literal c rest in
    emit-Given (blank (c ∷ span)) (again left)
      (g left (omega (arith, left_le rest (span, left) (literal-Splits c rest))))
round-Given u again bound g backtick c rest nl h =
    let (span, left) = identifier rest in
    emit-Given (c ∷ span) (again left)
      (g left (omega (arith, left_le rest (span, left) (identifier-Splits rest))))
round-Given u again bound g executable c rest nl h =
    let (inner, after) = to_close (drop 2 rest) in
    let (digits, body) = leading_digits u inner in
    let small = drop_le 2 rest in
    let within = span_le (drop 2 rest) (inner, after) (to_close-Splits (drop 2 rest)) in
    let behind = left_le (drop 2 rest) (inner, after) (to_close-Splits (drop 2 rest)) in
    enclose-Given (blank (c ∷ (take 2 rest ++ digits))) (blank (take 2 after)) (again body)
      (again (drop 2 after))
      (g body (omega (arith, small, within, left_le inner (digits, body) (digits-Splits u inner))))
      (g (drop 2 after) (omega (arith, small, behind, drop_le 2 after)))
round-Given u again bound g comment c rest nl h =
    let (inner, after) = to_close (drop 1 rest) in
    let behind = left_le (drop 1 rest) (inner, after) (to_close-Splits (drop 1 rest)) in
    emit-Given (blank (c ∷ (take 1 rest ++ (inner ++ take 2 after)))) (again (drop 2 after))
      (g (drop 2 after) (omega (arith, drop_le 1 rest, behind, drop_le 2 after)))
round-Given u again bound g line_comment c rest nl h =
    let (span, left) = to_newline (c ∷ rest) in
    emit-Given (blank span) (again left) (g left (omega (arith, nl refl)))
round-Given u again bound g plain c rest nl h = emit-Given (c ∷ []) (again rest) (g rest h)

-- A line comment does not begin with a line feed, so that its loop goes on.
line_comment_moves :
    (u : Unicode) (c : ℕ) (rest : Text)
    → token u (c ∷ rest) ≡ line_comment
    → length (to_newline (c ∷ rest)).1 ≤ length rest
unfolding token to_newline
line_comment_moves u c rest h = elim (Bool-cases (c == b'\n')) [
  | inl feed ↦
      let at_feed : token u (b'\n' ∷ rest) ≡ line_comment =
        subst (λ d. token u (d ∷ rest) ≡ line_comment) ((==_iff c b'\n').0 feed) h in
      absurd (cc at_feed)
  | inr other ↦ rw other (left_le rest (to_newline rest) (to_newline-Splits rest))
]

mask-Given : (u : Unicode) (fuel : ℕ) (s : Text) → length s < fuel → Given (mask u fuel s)
unfolding mask
mask-Given u zero s h = absurd (omega arith)
mask-Given u (suc fuel) [] h = (([], 0), refl)
mask-Given u (suc fuel) (c ∷ rest) h =
    round-Given u (mask u fuel) (length rest) (λ t small. mask-Given u fuel t (omega arith))
      (token u (c ∷ rest)) c rest (line_comment_moves u c rest) (omega arith)

Covers-length : (s m : Text) → Covers s m → length m ≡ length s
Covers-length [] [] h = refl
Covers-length [] (d ∷ m) h = absurd h
Covers-length (c ∷ s) [] h = absurd h
Covers-length (c ∷ s) (d ∷ m) h = ap suc (Covers-length s m h.1)

-- The mask of a text is there, whatever the text is: the loop and the nested calls end. It has the
-- length of the text, and each of its characters is that of the text at the same position or its
-- blank, so that a span found in the mask is the span of the text, and no line end moves.
pub lexically_mask-Covers :
    (u : Unicode) (sql : Text)
    → (m : Text) × (n : ℕ) × (lexically_mask u sql ≡ some (m, n))
      × Covers sql m
      × (length m ≡ length sql)
unfolding lexically_mask
lexically_mask-Covers u sql =
    let ((m, n), found) = mask-Given u (suc (length sql)) sql (omega arith) in
    let covers = mask-Covers u (suc (length sql)) sql m n found in
    (m, n, found, covers, Covers-length sql m covers)
