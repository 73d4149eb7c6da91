-- ===== src/SqlAudit/Report/Scope.antt =====
-- What an accepted report says of the document (`audit_sql` of src/cmnd_linux/sql_audit.py).
use linux_cmnd.Prelude.{
  ℕ, ◌≡◌, refl, ◌↔◌, ◌⊎◌, inl, inr, String, Bool, true, false, not, ◌&&◌, Option, none, some, List,
  [], ◌∷◌, ◌++◌, arith, ltb, All, select, one_of,
}
use linux_cmnd.Prelude.Chars.{Text}
use linux_cmnd.Result.{ok}
use linux_cmnd.SqlAudit.Mask.{lexically_mask}
use linux_cmnd.SqlAudit.Mask.Positions.{lexically_mask-Covers}
use linux_cmnd.SqlAudit.Report.{
  Patterns, Report, cmnd_databases, privileged_checks, is_empty, seen, references, counted, report,
  lowered, is_expected, audit_sql,
}

module _ {A : Type 0} (p : A → Bool) where
  -- Nothing is selected exactly when the test fails everywhere.
  pub select-empty : (xs : List A) → (is_empty (select p xs) ≡ true) ↔ All (λ x. p x ≡ false) xs
  select-empty [] = (λ _. tt, λ _. refl)
  select-empty (x ∷ xs) = ground (arith, select-empty xs)

-- A name of one of the five CMND databases.
abbrev pub IsCmnd : String → Type 0
IsCmnd name = one_of name cmnd_databases ≡ true

-- Where a database is expected, the document names it, or names none.
abbrev pub Names : Option String → List String → Type 0
Names none names = Unit
Names (some expected) names = (names ≡ []) ⊎ (one_of expected names ≡ true)

known :
    (names : List String)
    → All (λ n. not (one_of n cmnd_databases) ≡ false) names ↔ All IsCmnd names
known [] = (λ h. h, λ h. h)
known (n ∷ names) =
    let (forth, back) = known names in
    (
      λ h. (unnot (one_of n cmnd_databases) h.0, forth h.1),
      λ h. (not_true (one_of n cmnd_databases) h.0, back h.1),
    )
  where
    unnot : (b : Bool) → not b ≡ false → b ≡ true
    unnot b h = ground arith

    not_true : (b : Bool) → b ≡ true → not b ≡ false
    not_true b h = ground arith

seen-iff-Names : (e : Option String) (names : List String) → (seen e names ≡ true) ↔ Names e names
seen-iff-Names none names = (λ _. tt, λ _. refl)
seen-iff-Names (some e) [] = (λ _. inl refl, λ _. refl)
seen-iff-Names (some e) (n ∷ names) = (λ h. inr h, λ h. ground arith)

uncounted :
    (counts : String → ℕ) (names : List String)
    → All (λ n. ltb 0 (counts n) ≡ false) names ↔ All (λ n. counts n ≡ 0) names
uncounted counts [] = (λ h. h, λ h. h)
uncounted counts (n ∷ names) =
    let (forth, back) = uncounted counts names in
    (λ h. (none_left (counts n) h.0, forth h.1), λ h. (none_seen (counts n) h.1 h.0, back h.1))
  where
    none_left : (k : ℕ) → ltb 0 k ≡ false → k ≡ 0
    none_left k h = ground arith

    none_seen : {B : Type 0} (k : ℕ) → B → k ≡ 0 → ltb 0 k ≡ false
    none_seen k _ h = ground arith

-- What the two verdicts of a report mean.
pub record IsJudged (r : Report) : Type 0 where
  pub scope :
      (r.accepted_scope ≡ true)
      ↔ (All IsCmnd r.database_names × Names r.expected_database r.database_names)
  pub review :
      (r.requires_privileged_review ≡ false) ↔ All (λ n. r.statement_counts n ≡ 0) privileged_checks

and_iff : (a b : Bool) → (a && b) ≡ true → (a ≡ true) × (b ≡ true)
and_iff a b h = ground arith

not-false : (b : Bool) → not b ≡ false → b ≡ true
not-false b h = ground arith

module _ (p : Patterns) (e : Option String) (scanned : Text) (comments : ℕ) where
  pub report-IsJudged : IsJudged (report p e scanned comments)
  unfolding report
  report-IsJudged =
      let names = references p scanned in
      let unknown = select-empty (λ n. not (one_of n cmnd_databases)) names in
      let expected = seen-iff-Names e names in
      let known_names = known names in
      let counts = counted p scanned comments in
      let privileged = select-empty (λ n. ltb 0 (counts n)) privileged_checks in
      let zero = uncounted counts privileged_checks in
      record {
        scope = (
          λ h.
              let both =
                and_iff (is_empty (select (λ n. not (one_of n cmnd_databases)) names)) _ h in
              (known_names.0 (unknown.0 both.0), expected.0 both.1),
          λ h. rw (unknown.1 (known_names.1 h.0)) (expected.1 h.1),
        );
        review = (λ h. zero.0 (privileged.0 (not-false _ h)), λ h. rw (privileged.1 (zero.1 h)));
      }

-- The expected name, in lower case.
abbrev pub IsLowered : Patterns → Option String → Option String → Type 0
IsLowered p none e = e ≡ none
IsLowered p (some name) e = e ≡ some (p.lower name)

-- The report is one of the document: of the names that the three patterns find in the masked text,
-- of the expected name, and of the matches of each check, where the executable comments are those
-- that the mask has counted.
pub record IsAudit (p : Patterns) (sql : Text) (expected : Option String) (r : Report)
    : Type 0 where
  pub scanned : Text
  pub comments : ℕ
  pub masked_text : lexically_mask p.unicode sql ≡ some (scanned, comments)
  pub names :
      r.database_names
      ≡ p.database_references scanned ++ (p.object_references scanned ++ p.grant_references scanned)
  pub expects : IsLowered p expected r.expected_database
  pub counted_comments : r.statement_counts "executable_comment" ≡ comments
  pub counted_checks :
      All
        (λ n. r.statement_counts n ≡ p.count n (p.without_backtick_identifiers scanned))
        privileged_checks
  pub judged : IsJudged r

lowered-IsLowered : (p : Patterns) (e : Option String) → IsLowered p e (lowered p e)
lowered-IsLowered p none = refl
lowered-IsLowered p (some name) = refl

report-IsAudit :
    (p : Patterns) (sql : Text) (expected : Option String) (scanned : Text) (comments : ℕ)
    → lexically_mask p.unicode sql ≡ some (scanned, comments)
    → IsAudit p sql expected (report p (lowered p expected) scanned comments)
unfolding report references counted
report-IsAudit p sql expected scanned comments h = record {
  scanned = scanned;
  comments = comments;
  masked_text = h;
  names = refl;
  expects = lowered-IsLowered p expected;
  counted_comments = refl;
  counted_checks =
      (refl, (refl, (refl, (refl, (refl, (refl, (refl, (refl, (refl, (refl, tt))))))))));
  judged = report-IsJudged p (lowered p expected) scanned comments;
}

-- Every text is audited, whatever it holds, unless the expected name is no CMND database. The report
-- has the names that the three patterns find in the masked text, the expected name in lower case,
-- and the matches of each privileged check outside of quoted identifiers. The scope is accepted
-- exactly when all those names are of the five databases and the expected one is among them, if there
-- are any; no review is asked for exactly when no privileged construct is counted.
pub audit_sql-IsJudged :
    (p : Patterns) (sql : Text) (expected : Option String)
    → is_expected p (lowered p expected) ≡ true
    → (r : Report) × (audit_sql p sql expected ≡ ok r) × IsAudit p sql expected r
unfolding audit_sql
audit_sql-IsJudged p sql expected h =
    let (scanned, comments, found, _, _) = lexically_mask-Covers p.unicode sql in
    (
      report p (lowered p expected) scanned comments,
      rw (h, found),
      report-IsAudit p sql expected scanned comments found,
    )
