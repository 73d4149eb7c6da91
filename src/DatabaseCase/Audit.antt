-- ===== src/DatabaseCase/Audit.antt =====
-- The audit of src/cmnd_linux/database_case.py: what is read before anything is changed is a record
-- of facts, in the order of the source.
use linux_cmnd.Prelude.{
  ℕ, ◌+◌, ◌*◌, ◌^◌, String, Bool, true, false, not, ◌&&◌, ◌||◌, List, [], ◌∷◌, ◌++◌, ltb, leb, ◌==◌,
  str_eq, all, any, length, one_of, if◌then◌else◌, select,
}
use linux_cmnd.Prelude.Chars.{codes, is_digit, contains, starts_with}
use linux_cmnd.Result.{Result, ok, config_error}
use linux_cmnd.Result.Chain.{◌>>=◌, ◌>>◌, refuse}
use linux_cmnd.Json.{ℤ}

pub record Mount : Type 0 where
  pub destination : String
  pub source : String

-- What `docker inspect` says of the container.
pub record Container : Type 0 where
  pub image : String
  pub running : Bool
  pub mounts : List Mount
  pub cmd : List String

pub record Facts : Type 0 where
  pub loaded : Result (Unit {0})
  pub root : Bool
  pub container : Result Container
  pub version_mode : Result (String × String)
  pub schemas : Result (List String)
  pub tables : Result (List (List String))
  pub int_of : String → Result ℤ
  pub counts : Result (List ℤ)
  pub config_test : ℕ
  pub symlink : Bool
  pub state_symlink : Bool
  pub size : ℕ
  pub free : ℕ
  pub made : Result (Unit {0})
  pub active : List String
  pub lock : Result (Unit {0})

pub data Outcome : Type 0 where
  compatible planned repaired : Outcome

pub record CaseReport : Type 0 where
  pub outcome : Outcome
  pub mode : ℤ
  pub schemas_checked : ℕ
  pub tables_checked : ℕ
  pub package_counts : List ℤ

-- `[a-z0-9_$]+`
abbrev pub is_lower_char : ℕ → Bool
is_lower_char c = (leb b'a' c && leb c b'z') || is_digit c || c == b'_' || c == b'$'

abbrev pub is_lower_name : String → Bool
is_lower_name name = leb 1 (length (codes name)) && all is_lower_char (codes name)

abbrev pub pair_names : List (List String) → List String
pair_names [] = []
pair_names (row ∷ rest) = row ++ pair_names rest

abbrev pub same_row : List String → List String → Bool
same_row [] [] = true
same_row (a ∷ s) (b ∷ t) = str_eq a b && same_row s t
same_row _ _ = false

-- `len(set(xs)) == len(xs)`
abbrev pub distinct_names : List String → Bool
distinct_names [] = true
distinct_names (x ∷ xs) = not (one_of x xs) && distinct_names xs

abbrev pub distinct_rows : List (List String) → Bool
distinct_rows [] = true
distinct_rows (r ∷ rs) = not (any (same_row r) rs) && distinct_rows rs

abbrev pub no_names : List String → Bool
no_names [] = true
no_names (x ∷ xs) = false

unfoldable pub validate_identifiers : List String → List (List String) → Result (Unit {0})
validate_identifiers schemas tables = do
  let identifiers = schemas ++ pair_names tables
  refuse (no_names identifiers || not (all is_lower_name identifiers)) (
      config_error
        "Case repair requires all stored schema/table names already lowercase; use a reviewed dump/reload migration")
  refuse (not (distinct_names schemas) || not (distinct_rows tables))
      (config_error "Duplicate database identifiers")

abbrev pub mysql_image : String
mysql_image = "mysql@sha256:4bc6bc963e6d8443453676cae56536f4b8156d78bae03c0145cbe47c2aad73bb"

-- The one mount of the data, from the directory of the deployment.
abbrev pub is_data_mount : List Mount → Bool
is_data_mount (m ∷ []) = str_eq m.source "/var/lib/cmnd-deployment/mysql"
is_data_mount _ = false

abbrev pub has_case_option : List String → Bool
has_case_option cmd =
    any
      (λ arg.
        contains (codes "lower-case-table") (codes arg)
        || contains (codes "lower_case_table") (codes arg))
      cmd

module _ (facts : Facts) where
  -- The reading part; the flag says that nothing is to be done.
  unfoldable pub audit : Result (Bool × CaseReport)
  unfolding validate_identifiers
  audit = do
    facts.loaded
    refuse (not facts.root) (config_error "Database case audit/repair requires Linux root")
    info ← facts.container
    refuse (not (str_eq info.image mysql_image) || not info.running)
        (config_error "Requires the running, pinned CMND MySQL container")
    refuse (not (is_data_mount (select (λ m. str_eq m.destination "/var/lib/mysql") info.mounts)))
        (config_error "Unexpected database mount; refusing repair")
    (version, mode) ← facts.version_mode
    refuse (not (starts_with (codes version) (codes "5.7.")))
        (config_error "This repair is only reviewed for MySQL 5.7")
    schemas ← facts.schemas
    tables ← facts.tables
    validate_identifiers schemas tables
    number ← facts.int_of mode
    counts ← facts.counts
    let report : CaseReport = record {
      outcome = compatible;
      mode = number;
      schemas_checked = length schemas;
      tables_checked = length tables;
      package_counts = counts;
    }
    if str_eq mode "1" then ok (true, report) else (do
      refuse (not (str_eq mode "0") || has_case_option info.cmd)
          (config_error "Conflicting MySQL case option; refusing repair")
      refuse (not (facts.config_test == 1))
          (config_error "Case configuration already exists; inspect the previous repair")
      ok (false, record report { outcome = planned }))

  -- What is required before the first step.
  unfoldable pub prepare : Result (Unit {0})
  prepare = do
    refuse facts.symlink (config_error "Database/backup path must not traverse symlinks")
    refuse (ltb facts.free (facts.size * 2 + 512 * 1024 ^ 2))
        (config_error "Insufficient free disk for a verified cold backup")
    facts.made
