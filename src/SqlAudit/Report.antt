-- ===== src/SqlAudit/Report.antt =====
-- `audit_sql` and `audit_database_bundle` of src/cmnd_linux/sql_audit.py. The regular expressions
-- are run by Python's `re`: `Patterns` has what they find. A Python set is a list here, and the
-- sorting of the reports is left out.
pub mod Scope
pub mod Whole
use linux_cmnd.Prelude.{
  ℕ, String, Bool, true, false, not, ◌&&◌, ◌||◌, Option, none, some, List, [], ◌∷◌, ◌++◌, ltb, ◌==◌,
  str_eq, all, any, select, one_of, map, if◌then◌else◌,
}
use linux_cmnd.Prelude.Chars.{Text}
use linux_cmnd.Result.{Result, ok, err, value_error, runtime_error, ◌>>=◌, ◌>>◌, refuse}
use linux_cmnd.SqlAudit.Mask.{Unicode, lexically_mask}

-- `count name text` is the number of matches of `_CHECKS[name]`; the references are the names that
-- the patterns capture, in lower case.
pub record Patterns : Type 0 where
  pub unicode : Unicode
  pub lower : String → String
  pub count : String → Text → ℕ
  pub database_references : Text → List String
  pub object_references : Text → List String
  pub grant_references : Text → List String
  pub without_backtick_identifiers : Text → Text

-- `CMND_DATABASES`
abbrev pub cmnd_databases : List String
cmnd_databases = "cas" ∷ "tpvision" ∷ "smartcms" ∷ "smartcontroldb" ∷ "smartinstall" ∷ []

-- `PRIVILEGED_CHECKS`
abbrev pub privileged_checks : List String
privileged_checks =
    "drop_database" ∷ "drop_user" ∷ "grant" ∷ "create_user" ∷ "definer" ∷ "set_global"
    ∷ "load_data_local" ∷ "file_write" ∷ "file_read" ∷ "mysql_system" ∷ []

pub record Report : Type 0 where
  pub database_names : List String
  pub unknown_database_names : List String
  pub expected_database : Option String
  pub expected_database_seen : Bool
  pub statement_counts : String → ℕ
  pub privileged_constructs : List String
  pub requires_privileged_review : Bool
  pub has_executable_comments : Bool
  pub accepted_scope : Bool

abbrev pub is_empty {ℓ} : {A : Type ℓ} → List A → Bool
is_empty [] = true
is_empty (x ∷ xs) = false

-- `expected_database is None or not database_names or expected_database in database_names`
abbrev pub seen : Option String → List String → Bool
seen none names = true
seen (some expected) names = is_empty names || one_of expected names

module _ (p : Patterns) where
  unfoldable pub references : Text → List String
  references scanned =
      p.database_references scanned ++ (p.object_references scanned ++ p.grant_references scanned)

  -- The counts of the checks, with that of executable comments from the mask.
  unfoldable pub counted : Text → ℕ → String → ℕ
  counted scanned comments name =
      if str_eq name "executable_comment"
      then comments
      else p.count name (p.without_backtick_identifiers scanned)

  unfoldable pub report : Option String → Text → ℕ → Report
  unfolding references counted
  report expected scanned comments =
      let names = references scanned in
      let unknown = select (λ n. not (one_of n cmnd_databases)) names in
      let counts = counted scanned comments in
      let privileged = select (λ n. ltb 0 (counts n)) privileged_checks in
      record {
        database_names = names;
        unknown_database_names = unknown;
        expected_database = expected;
        expected_database_seen = seen expected names;
        statement_counts = counts;
        privileged_constructs = privileged;
        requires_privileged_review = not (is_empty privileged);
        has_executable_comments = ltb 0 (counts "executable_comment");
        accepted_scope = is_empty unknown && seen expected names;
      }

  abbrev pub lowered : Option String → Option String
  lowered none = none
  lowered (some name) = some (p.lower name)

  abbrev pub is_expected : Option String → Bool
  is_expected none = true
  is_expected (some name) = one_of name cmnd_databases

  abbrev pub masked : Option (Text × ℕ) → Result (Text × ℕ)
  masked (some r) = ok r
  masked none = err (runtime_error "out of fuel")

  unfoldable pub audit_sql : Text → Option String → Result Report
  unfolding report
  audit_sql sql expected = do
    refuse (not (is_expected (lowered expected)))
        (value_error "expected database is not a CMND database")
    (scanned, comments) ← masked (lexically_mask p.unicode sql)
    ok (report (lowered expected) scanned comments)

  -- `normalized[key] = text`: a later text replaces an earlier one.
  unfoldable pub store : String → Text → List (String × Text) → List (String × Text)
  store key text [] = (key, text) ∷ []
  store key text ((k, t) ∷ rest) =
      if str_eq k key then (k, text) ∷ rest else (k, t) ∷ store key text rest

  unfoldable pub normalize : List (String × Text) → List (String × Text) → List (String × Text)
  unfolding store
  normalize done [] = done
  normalize done ((name, text) ∷ rest) = normalize (store (p.lower name) text done) rest

  unfoldable pub reports : List (String × Text) → Result (List (String × Report))
  unfolding audit_sql
  reports [] = ok []
  reports ((name, text) ∷ rest) =
      let others = reports rest in
      if one_of name cmnd_databases
      then (do r ← audit_sql text (some name); more ← others; ok ((name, r) ∷ more))
      else others

  pub record Bundle : Type 0 where
    pub missing_databases : List String
    pub unexpected_databases : List String
    pub databases : List (String × Report)
    pub complete : Bool
    pub bundle_accepted : Bool

  unfoldable pub audit_database_bundle : List (String × Text) → Result Bundle
  unfolding normalize reports
  audit_database_bundle documents = do
    let normalized = normalize [] documents
    let supplied = map (λ (name, _). name) normalized
    let missing = select (λ n. not (one_of n supplied)) cmnd_databases
    let unexpected = select (λ n. not (one_of n cmnd_databases)) supplied
    found ← reports normalized
    ok (record {
      missing_databases = missing;
      unexpected_databases = unexpected;
      databases = found;
      complete = is_empty missing && is_empty unexpected;
      bundle_accepted =
          is_empty missing && is_empty unexpected && all (λ (_, r). r.accepted_scope) found;
    })
