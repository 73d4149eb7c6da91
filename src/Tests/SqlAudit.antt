-- ===== src/Tests/SqlAudit.antt =====
-- The theorems on src/cmnd_linux/sql_audit.py at concrete texts.
use linux_cmnd.Prelude.{
  ℕ, String, List, true, ◌≡◌, refl, some, [], ◌∷◌, ◌==◌, length, str_eq, false, if◌then◌else◌,
}
use linux_cmnd.Prelude.Chars.{Text, codes, is_digit}
use linux_cmnd.Result.{ok}
use linux_cmnd.SqlAudit.Mask.{Unicode, lexically_mask}
use linux_cmnd.SqlAudit.Mask.Positions.{Covers, lexically_mask-Covers}
use linux_cmnd.SqlAudit.Report.{Patterns, Report, audit_sql}
use linux_cmnd.SqlAudit.Report.{Bundle}
use linux_cmnd.SqlAudit.Report.Scope.{IsAudit, audit_sql-IsJudged}

abbrev unicode : Unicode
unicode = record { isspace = λ c. c == b' '; isdigit = is_digit }

abbrev patterns : Patterns
patterns = record {
  unicode = unicode;
  lower = λ s. s;
  count = λ name t. 0;
  database_references = λ t. "cas" ∷ [];
  object_references = λ t. [];
  grant_references = λ t. [];
  without_backtick_identifiers = λ t. t;
}

-- The body of the executable comment stays, the literal does not.
masked : lexically_mask unicode (codes "/*!5USE a*/'x'") ≡ some (codes "    USE a     ", 1)
unfolding lexically_mask
masked = refl

lexically_mask-Covers_example :
    (m : Text) × (n : ℕ) × (lexically_mask unicode (codes "/*!5USE a*/'x'") ≡ some (m, n))
    × Covers (codes "/*!5USE a*/'x'") m
    × (length m ≡ length (codes "/*!5USE a*/'x'"))
lexically_mask-Covers_example = lexically_mask-Covers unicode (codes "/*!5USE a*/'x'")

audit_sql-IsJudged_example :
    (r : Report) × (audit_sql patterns (codes "USE cas;") (some "cas") ≡ ok r)
    × IsAudit patterns (codes "USE cas;") (some "cas") r
audit_sql-IsJudged_example = audit_sql-IsJudged patterns (codes "USE cas;") (some "cas") refl

abbrev documents : List (String × Text)
documents =
    ("cas", codes "USE cas;")
    ∷ ("tpvision", [])
    ∷ ("smartcms", [])
    ∷ ("smartcontroldb", [])
    ∷ ("smartinstall", [])
    ∷ []

-- The patterns find no name, as in a dump of one database.
abbrev plain : Patterns
plain = record patterns { database_references = λ t. [] }

abbrev counts : String → ℕ
counts name = if str_eq name "executable_comment" then 0 else 0

abbrev clean : String → Report
clean name = record {
  database_names = [];
  unknown_database_names = [];
  expected_database = some name;
  expected_database_seen = true;
  statement_counts = counts;
  privileged_constructs = [];
  requires_privileged_review = false;
  has_executable_comments = false;
  accepted_scope = true;
}

abbrev bundle : Bundle plain
bundle = record {
  missing_databases = [];
  unexpected_databases = [];
  databases =
      ("cas", clean "cas")
      ∷ ("tpvision", clean "tpvision")
      ∷ ("smartcms", clean "smartcms")
      ∷ ("smartcontroldb", clean "smartcontroldb")
      ∷ ("smartinstall", clean "smartinstall")
      ∷ [];
  complete = true;
  bundle_accepted = true;
}
