-- ===== src/SqlAudit/Report/Whole.antt =====
-- What an accepted bundle is (`audit_database_bundle` of src/cmnd_linux/sql_audit.py).
use linux_cmnd.Prelude.{◌≡◌, Any, map, String, List, [], All}
use linux_cmnd.Prelude.Chars.{Text}
use linux_cmnd.SqlAudit.Report.{Patterns, Report, Bundle, cmnd_databases}
use linux_cmnd.SqlAudit.Report.Scope.{IsJudged, IsCmnd}

module _ (p : Patterns) where
  abbrev pub Judged : List (String × Report) → Type 0
  Judged = All (λ (name, r). IsJudged r)

  abbrev supplied : List (String × Text) → List String
  supplied = map (λ (name, _). name)

  -- The database is that of a document, by its name in lower case.
  abbrev pub IsGiven : List (String × Text) → String → Type 0
  IsGiven documents n = Any (λ (name, _). p.lower name ≡ n) documents

  -- Each of the five databases is that of a document by its name in lower case, and no document is of
  -- another one; and each report refers to CMND databases only.
  pub record IsWhole (documents : List (String × Text)) (b : Bundle p) : Type 0 where
    pub each_given : All (IsGiven documents) cmnd_databases
    pub known : All (λ (name, _). IsCmnd (p.lower name)) documents
    pub none_missing : b.missing_databases ≡ []
    pub none_unexpected : b.unexpected_databases ≡ []
    pub scoped : All (λ (name, r). All IsCmnd r.database_names) b.databases
