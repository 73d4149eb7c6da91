-- ===== src/Updates/Manifest.antt =====
-- `validate_manifest` and `validate_job` of src/cmnd_linux/updates.py.
use linux_cmnd.Prelude.{
  ℕ, ◌≡◌, refl, ap, eq_iff, ◌↔◌, String, Bool, true, false, not, ◌&&◌, Option, none, some, [], ◌∷◌,
  arith, ==_iff, ◌==◌, all, one_of, length,
}
use linux_cmnd.Result.{
  Error, Result, ok, err, update_error, key_error, ◌>>=◌, ◌>>◌, refuse, >>=-eq-ok, refuse-eq-ok,
}
use linux_cmnd.Json.{
  Json, null, bool, str, obj, Fields, lookup, keys, is_bool, is_text, positive, equals_one,
}
use linux_cmnd.Updates.Version.{Version, version_tuple, version_lt}

-- `manifest.get('minimum_version', '')` under `version_tuple`, which refuses what is no text
abbrev pub version_of : Option Json → Result Version
version_of (some (str s)) = version_tuple s
version_of none = version_tuple ""
version_of (some _) = err (update_error "unsupported release version")

abbrev pub manual : Error
manual = update_error "update requires a manual vendor/database/major-version migration"

-- The tests of the `or` chain that only read the manifest.
abbrev pub names_update : Fields → String → String → Bool
names_update manifest selected vendor =
    equals_one (lookup "schema" manifest)
    && is_text selected (lookup "version" manifest)
    && is_text "tooling-only" (lookup "scope" manifest)
    && is_text vendor (lookup "vendor" manifest)
    && is_bool false (lookup "database_migration" manifest)
    && is_bool false (lookup "vendor_payload_changed" manifest)

unfoldable pub validate_manifest : Fields → String → String → String → Result (Unit {0})
validate_manifest manifest current selected vendor = do
  refuse (not (names_update manifest selected vendor)) manual
  installed ← version_tuple current
  minimum ← version_of (lookup "minimum_version" manifest)
  refuse (version_lt installed minimum) manual
  target ← version_tuple selected
  refuse (not (installed.major == target.major)) manual

is_text_iff : (s : String) (o : Option Json) → (is_text s o ≡ true) ↔ (o ≡ some (str s))
is_text_iff s o = (forth o, λ e. rw e ((eq_iff s s).1 refl))
  where
    forth : (o : Option Json) → is_text s o ≡ true → o ≡ some (str s)
    forth (some (str t)) h = ap (λ u. some (str u)) ((eq_iff t s).0 h)
    forth none h = absurd (cc h)
    forth (some null) h = absurd (cc h)
    forth (some _) h = absurd (cc h)

pub is_false_iff : (o : Option Json) → (is_bool false o ≡ true) ↔ (o ≡ some (bool false))
is_false_iff o = (forth o, λ e. rw e refl)
  where
    forth : (o : Option Json) → is_bool false o ≡ true → o ≡ some (bool false)
    forth (some (bool false)) h = refl
    forth (some (bool true)) h = absurd (cc h)
    forth none h = absurd (cc h)
    forth (some null) h = absurd (cc h)
    forth (some _) h = absurd (cc h)

six :
    (a b c d e f : Bool)
    → (a && b && c && d && e && f) ≡ true
    → (a ≡ true) × (b ≡ true) × (c ≡ true) × (d ≡ true) × (e ≡ true) × (f ≡ true)
six a b c d e f h = ground arith

-- What a manifest must say for the update to go on without a migration.
pub record IsCompatible (manifest : Fields) (current selected vendor : String) : Type 0 where
  pub installed : Version
  pub minimum : Version
  pub target : Version
  pub schema : equals_one (lookup "schema" manifest) ≡ true
  pub version : lookup "version" manifest ≡ some (str selected)
  pub scope : lookup "scope" manifest ≡ some (str "tooling-only")
  pub same_vendor : lookup "vendor" manifest ≡ some (str vendor)
  pub no_migration : lookup "database_migration" manifest ≡ some (bool false)
  pub same_payload : lookup "vendor_payload_changed" manifest ≡ some (bool false)
  pub current_parsed : version_tuple current ≡ ok installed
  pub minimum_parsed : version_of (lookup "minimum_version" manifest) ≡ ok minimum
  pub selected_parsed : version_tuple selected ≡ ok target
  pub recent : version_lt installed minimum ≡ false
  pub same_major : installed.major ≡ target.major

-- The manifest is accepted only if it names the update, the installed version is at least the
-- minimum and the major version stays.
accepted-IsCompatible :
    (manifest : Fields) (current selected vendor : String)
    → validate_manifest manifest current selected vendor ≡ ok tt
    → IsCompatible manifest current selected vendor
unfolding validate_manifest
accepted-IsCompatible manifest current selected vendor h =
    let (named, rest) = refuse-eq-ok (not (names_update manifest selected vendor)) manual _ h in
    let (installed, ci, rest1) = >>=-eq-ok (version_tuple current) _ rest in
    let (minimum, mi, rest2) = >>=-eq-ok (version_of (lookup "minimum_version" manifest)) _ rest1 in
    let (recent, rest3) = refuse-eq-ok (version_lt installed minimum) manual _ rest2 in
    let (target, ti, rest4) = >>=-eq-ok (version_tuple selected) _ rest3 in
    let (schema, version, scope, same_vendor, migration, payload) =
      six (equals_one (lookup "schema" manifest)) (is_text selected (lookup "version" manifest))
        (is_text "tooling-only" (lookup "scope" manifest))
        (is_text vendor (lookup "vendor" manifest))
        (is_bool false (lookup "database_migration" manifest))
        (is_bool false (lookup "vendor_payload_changed" manifest)) (ground arith) in
    record {
      installed = installed;
      minimum = minimum;
      target = target;
      schema = schema;
      version = (is_text_iff selected _).0 version;
      scope = (is_text_iff "tooling-only" _).0 scope;
      same_vendor = (is_text_iff vendor _).0 same_vendor;
      no_migration = (is_false_iff _).0 migration;
      same_payload = (is_false_iff _).0 payload;
      current_parsed = ci;
      minimum_parsed = mi;
      selected_parsed = ti;
      recent = recent;
      same_major = ground arith;
    }

compatible-accepted :
    (manifest : Fields) (current selected vendor : String)
    → IsCompatible manifest current selected vendor
    → validate_manifest manifest current selected vendor ≡ ok tt
unfolding validate_manifest
compatible-accepted manifest current selected vendor c =
    let names : names_update manifest selected vendor ≡ true =
      rw
        (
          c.schema,
          (is_text_iff selected _).1 c.version,
          (is_text_iff "tooling-only" _).1 c.scope,
          (is_text_iff vendor _).1 c.same_vendor,
          (is_false_iff _).1 c.no_migration,
          (is_false_iff _).1 c.same_payload,
        )
        refl in
    rw (names, c.current_parsed, c.minimum_parsed)
      (rw (c.recent, c.selected_parsed)
        (rw ((==_iff c.installed.major c.target.major).1 c.same_major)))

-- A manifest is accepted exactly when it has schema 1 and scope tooling-only, names the selected
-- version and the vendor, declares no database migration and no vendor change, its minimum version
-- is not above the installed one, and the selected version has the installed major number.
pub validate_manifest-iff-IsCompatible :
    (manifest : Fields) (current selected vendor : String)
    → (validate_manifest manifest current selected vendor ≡ ok tt)
      ↔ IsCompatible manifest current selected vendor
validate_manifest-iff-IsCompatible manifest current selected vendor = (
  accepted-IsCompatible manifest current selected vendor,
  compatible-accepted manifest current selected vendor,
)

-- An installation that an operator confirmed.
pub record Job : Type 0 where
  pub version : String
  pub release_id : ℕ

-- `set(job) != {'version', 'release_id', 'execute'}`: keys of a `dict` are distinct.
abbrev pub job_keys : Fields → Bool
job_keys job =
    length (keys job) == 3
    && all (λ k. one_of k ("version" ∷ "release_id" ∷ "execute" ∷ [])) (keys job)

abbrev pub unconfirmed : Error
unconfirmed = update_error "installation requires an explicit, version-scoped confirmation"

abbrev pub release_number : Option ℕ → Result ℕ
release_number (some n) = ok n
release_number none = err unconfirmed

abbrev pub job_version : Option Json → Result String
job_version (some (str s)) = do _ ← version_tuple s; ok s
job_version none = err (key_error "version")
job_version (some _) = err (update_error "unsupported release version")

-- The function returns nothing; the model returns the job that it passed.
unfoldable pub validate_job : Json → Result Job
validate_job (obj job) = do
  refuse (not (job_keys job && is_bool true (lookup "execute" job))) unconfirmed
  release_id ← release_number (positive (lookup "release_id" job))
  version ← job_version (lookup "version" job)
  ok (record { version = version; release_id = release_id })
validate_job _ = err unconfirmed
