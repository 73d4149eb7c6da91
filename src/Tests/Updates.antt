-- ===== src/Tests/Updates.antt =====
-- The theorems on src/cmnd_linux/updates.py at concrete releases, networks and hosts.
use Prim.Native.String.{◌++◌ as ◌<>◌}
use linux_cmnd.Prelude.{
  ℕ, ◌≤◌, ◌+◌, ◌≡◌, refl, ◌↔◌, String, true, false, none, some, [], ◌∷◌, All, length, str_eq,
  if◌then◌else◌,
}
use linux_cmnd.Prelude.Chars.{Text, codes}
use linux_cmnd.Result.{Result, ok}
use linux_cmnd.Json.{
  Json, str, bool, int, arr, obj, nil, cons, Items, end, field, Fields, pos, to_list,
}
use linux_cmnd.Updates.Version.{Version, version_tuple}
use linux_cmnd.Updates.Version.Canonical.{version_text, version_tuple-iff-version_text}
use linux_cmnd.Updates.Release.{Asset, Release, select_release}
use linux_cmnd.Updates.Release.Newest.{IsSelected, select_release-IsSelected}
use linux_cmnd.Updates.Manifest.{
  validate_manifest, IsCompatible, validate_manifest-iff-IsCompatible,
}
use linux_cmnd.Updates.Fetch.{
  Url, Request, Requests, Answer, opened, http_error, Net, api, fetch, download_asset,
}
use linux_cmnd.Updates.Fetch.Safe.{IsSafe, fetch-IsSafe, download_asset_verified}
use linux_cmnd.Updates.Host.{
  Host, Worker, Trace, Act, Command, granted, exited, baseline_version, package_field,
}
use linux_cmnd.Updates.Worker.{install_pending}
use linux_cmnd.Updates.Worker.Order.{Ordered}
use linux_cmnd.Updates.Worker.Order.Run.{install_pending-Ordered}
use linux_cmnd.Updates.Worker.Outcome.{IsClosed, IsComplete, install_pending-IsComplete}

version_tuple-iff-version_text_example :
    (version_tuple "1.20.3" ≡ ok (record { major = 1; minor = 20; patch = 3 }))
    ↔ (codes "1.20.3" ≡ version_text (record { major = 1; minor = 20; patch = 3 }))
version_tuple-iff-version_text_example =
    version_tuple-iff-version_text "1.20.3" (record { major = 1; minor = 20; patch = 3 })

abbrev digest : String
digest = "sha256:0123456789abcdef0123456789abcdef0123456789abcdef0123456789abcdef"

abbrev asset : String → ℕ → Json
asset name id = obj (
    field "name" (str name)
      (field "id" (int (pos id)) (field "size" (int (pos 3)) (field "digest" (str digest) end))))

abbrev release : String → ℕ → Json
release version id = obj (
    field "id" (int (pos id)) (
      field "draft" (bool false) (
        field "prerelease" (bool false) (
          field "tag_name" (str ("v" <> version)) (
            field "assets"
              (arr (
                cons (asset ("linux-cmnd_" <> (version <> "_amd64.deb")) 11)
                  (cons (asset "linux-cmnd-update.json" 12) nil)))
              end)))))

abbrev releases : Items
releases = cons (release "1.2.0" 1) (cons (release "1.10.0" 2) (cons (release "0.9.9" 3) nil))

abbrev newest_release : Release
newest_release = record {
  version = "1.10.0";
  release_id = 2;
  deb = record { id = 11; size = 3; digest = digest; name = "linux-cmnd_1.10.0_amd64.deb" };
  manifest = record { id = 12; size = 3; digest = digest; name = "linux-cmnd-update.json" };
  prerelease = false;
}

selected : select_release (arr releases) "1.1.0" "stable" ≡ ok (some newest_release)
unfolding select_release version_tuple linux_cmnd.Updates.Release.candidates
    linux_cmnd.Updates.Release.candidate linux_cmnd.Json.lookup
    linux_cmnd.Updates.Version.version_lt linux_cmnd.Updates.Release.describe
    linux_cmnd.Updates.Release.newest linux_cmnd.Updates.Release.find_asset
selected = refl

select_release-IsSelected_example : IsSelected (to_list releases) "1.1.0" "stable" newest_release
select_release-IsSelected_example =
    select_release-IsSelected releases "1.1.0" "stable" newest_release selected

abbrev manifest : Fields
manifest = field "schema" (int (pos 1)) (
    field "version" (str "1.10.0") (
      field "scope" (str "tooling-only") (
        field "vendor" (str "tpv") (
          field "database_migration" (bool false) (
            field "vendor_payload_changed" (bool false)
              (field "minimum_version" (str "1.0.0") end))))))

validate_manifest-iff-IsCompatible_example :
    (validate_manifest manifest "1.1.0" "1.10.0" "tpv" ≡ ok tt)
    ↔ IsCompatible manifest "1.1.0" "1.10.0" "tpv"
validate_manifest-iff-IsCompatible_example =
    validate_manifest-iff-IsCompatible manifest "1.1.0" "1.10.0" "tpv"

abbrev asset_url : Url
asset_url = record {
  scheme = "https";
  hostname = some "objects.githubusercontent.com";
  username = none;
  password = none;
  port = ok none;
}

-- The API redirects, and the other host sends three bytes.
abbrev answer : Requests → Request → Answer
answer made r =
    if str_eq r.url "https://objects.githubusercontent.com/a"
    then opened (record { payload = codes "abc"; late = false } ∷ [])
    else http_error 302 "https://objects.githubusercontent.com/a"

abbrev net : Net
net = record {
  urlsplit = λ u. asset_url;
  answer = answer;
  sha256_hex = λ t. "0123456789abcdef0123456789abcdef0123456789abcdef0123456789abcdef";
}

abbrev nothing : Requests
nothing = []

fetch-IsSafe_example :
    All (IsSafe net "/releases/assets/11") (fetch net "/releases/assets/11" true true 64 []).1
    × (length (fetch net "/releases/assets/11" true true 64 []).1 ≤ length nothing + 5)
fetch-IsSafe_example = fetch-IsSafe net "/releases/assets/11" true true 64 [] tt

downloaded :
    (download_asset net newest_release.deb "/releases/assets/11" true 64 []).0 ≡ ok (codes "abc")
unfolding download_asset linux_cmnd.Updates.Fetch.check_redirect
downloaded = refl

download_asset_verified_example :
    (length (codes "abc") ≡ 3)
    × ("sha256:" <> "0123456789abcdef0123456789abcdef0123456789abcdef0123456789abcdef" ≡ digest)
    × (length (codes "abc") ≤ 64)
download_asset_verified_example =
    download_asset_verified net newest_release.deb "/releases/assets/11" true 64 [] (codes "abc")
      downloaded

-- Every step of the host succeeds; `dpkg-deb` prints the three fields in turn.
abbrev run : Trace → Command → Result (ℕ × String)
run [] c = ok (0, "")
run (a ∷ b ∷ []) package_field = ok (0, "linux-cmnd\n")
run (a ∷ b ∷ c ∷ []) package_field = ok (0, "amd64\n")
run t package_field = ok (0, "1.10.0\n")
run t baseline_version = ok (0, "1.1.0")
run t _ = ok (0, "")

abbrev host_answer : Requests → Request → Answer
host_answer made r =
    if str_eq r.url (api <> "/releases?per_page=100")
    then opened (record { payload = codes "r"; late = false } ∷ [])
    else answer made r

abbrev loads : Text → Result Json
loads (c ∷ []) = ok (arr releases)
loads _ = ok (obj manifest)

abbrev host : Host
host = record {
  net = record { urlsplit = net.urlsplit; answer = host_answer; sha256_hex = net.sha256_hex };
  str_int = λ n. "7";
  loads = loads;
  current = "1.1.0";
  lock = granted;
  queue_present = λ t. ok false;
  read_queue = λ t. ok (obj end);
  settings_file = λ t. ok (obj end);
  credential = λ t. ok true;
  vendor = λ t. ok "tpv";
  baseline_present = λ t. true;
  disk_free = λ t. ok 9999999999;
  act = λ t a. ok tt;
  run = run;
  mysqldump = λ t. exited 0;
  wait_ready = λ t. ok true;
}

abbrev start : Worker
start = record {
  trace = [];
  requests = [];
  stopped = false;
  upgraded = false;
  database_backup_complete = false;
}

abbrev job : Json
job = obj (
    field "version" (str "1.10.0")
      (field "release_id" (int (pos 2)) (field "execute" (bool true) end)))

abbrev same : String → String
same s = s

install_pending-Ordered_example :
    Ordered (install_pending host same true true (some job) start).1.trace
install_pending-Ordered_example = install_pending-Ordered host same true true (some job) start tt

installed : (install_pending host same true true (some job) start).0 ≡ ok tt
unfolding install_pending linux_cmnd.Exec.◌>>=◌ linux_cmnd.Exec.pure linux_cmnd.Exec.lift
    linux_cmnd.Exec.catch linux_cmnd.Exec.throw linux_cmnd.Updates.Manifest.validate_job
    linux_cmnd.Json.lookup version_tuple linux_cmnd.Updates.Host.ask linux_cmnd.Updates.Host.act
    linux_cmnd.Updates.Host.fetch_releases linux_cmnd.Updates.Host.command
    linux_cmnd.Updates.Host.download linux_cmnd.Updates.Worker.settings fetch download_asset
    select_release validate_manifest linux_cmnd.Updates.Release.candidates
    linux_cmnd.Updates.Release.candidate linux_cmnd.Updates.Release.describe
    linux_cmnd.Updates.Release.find_asset linux_cmnd.Updates.Release.is_digest
    linux_cmnd.Updates.Release.newest linux_cmnd.Updates.Version.version_lt
    linux_cmnd.Updates.Version.numeral linux_cmnd.Updates.Version.split_dots
    linux_cmnd.Updates.Fetch.attempt linux_cmnd.Updates.Fetch.check_redirect
    linux_cmnd.Updates.Fetch.is_endpoint linux_cmnd.Updates.Fetch.react
    linux_cmnd.Updates.Fetch.read_body linux_cmnd.Updates.Fetch.redirected
    linux_cmnd.Updates.Fetch.verify_asset linux_cmnd.Updates.Worker.asset_path
    linux_cmnd.Updates.Worker.back_up linux_cmnd.Updates.Worker.check_identity
    linux_cmnd.Updates.Worker.check_ready linux_cmnd.Updates.Worker.check_release
    linux_cmnd.Updates.Worker.confirmed_job linux_cmnd.Updates.Worker.dump_databases
    linux_cmnd.Updates.Worker.finally_close linux_cmnd.Updates.Worker.install
    linux_cmnd.Updates.Worker.keep_current linux_cmnd.Updates.Worker.locked
    linux_cmnd.Updates.Worker.on_failure linux_cmnd.Updates.Worker.publish
    linux_cmnd.Updates.Worker.queued_job linux_cmnd.Updates.Worker.recover
    linux_cmnd.Updates.Worker.recovery linux_cmnd.Updates.Worker.restore_previous
    linux_cmnd.Updates.Worker.update linux_cmnd.Updates.Worker.verify_release
    linux_cmnd.Updates.Worker.with_lock
installed = refl

install_pending-IsComplete_example :
    IsClosed IsComplete (install_pending host same true true (some job) start).1.trace
install_pending-IsComplete_example =
    install_pending-IsComplete host same true true (some job) start installed
