-- ===== src/Updates/Worker.antt =====
-- `install_pending` of src/cmnd_linux/updates.py, a phase at a time. The phases stand in the order
-- of the source; a `finally` or an `except` is a `catch`, or the code after an action.
pub mod Order
pub mod Outcome
use Prim.Native.String.{◌++◌ as ◌<>◌}
use linux_cmnd.Prelude.{
  ℕ, ◌*◌, ◌^◌, String, Bool, true, false, not, ◌&&◌, ◌||◌, Option, none, some, List, [], ◌∷◌, ltb,
  ◌==◌, str_eq, if◌then◌else◌,
}
use linux_cmnd.Result.{Error, Result, ok, err, update_error, type_error}
use linux_cmnd.Exec.{Exec, pure, throw, lift, catch, ◌>>=◌, ◌>>◌, refuse, when}
use linux_cmnd.Json.{Json, str, obj, bool, Fields, lookup}
use linux_cmnd.Updates.Release.{Release, select_release, max_package}
use linux_cmnd.Updates.Manifest.{Job, validate_job, validate_manifest}
use linux_cmnd.Updates.Host.{
  Host, Worker, Status, verifying, backing_up, installing, complete, failed, invalid_job,
  write_status, unlink_queue, make_attempt, archive_configuration, compress_dump, publish_package,
  publish_previous, package_field, baseline_version, keep_baseline, stop_services, start_services,
  install_new, install_previous, daemon_reload, restart_admin, copy_package, copy_previous, dumped,
  ready, identity, lock_closed, Lock, granted, busy, unopened, flock_failed, Dump, exited,
  timed_out, unstarted, note, act, command, ask, fetch_releases, download,
}

pub record Settings : Type 0 where
  pub enabled : Bool
  pub channel : String

abbrev pub invalid_settings : Error
invalid_settings = update_error "invalid updater settings"

abbrev pub channel_of : Option Json → Result String
channel_of none = ok "stable"
channel_of (some (str s)) =
    if str_eq s "stable" || str_eq s "preview" then ok s else err invalid_settings
channel_of (some _) = err invalid_settings

abbrev pub enabled_of : Option Json → Result Bool
enabled_of none = ok true
enabled_of (some (bool b)) = ok b
enabled_of (some _) = err invalid_settings

abbrev pub read_settings : Result String → Result Bool → Result Settings
read_settings (ok channel) (ok enabled) = ok (record { enabled = enabled; channel = channel })
read_settings (err e) _ = err e
read_settings _ (err e) = err e

-- `settings`, on the JSON of its file
unfoldable pub settings : Json → Result Settings
settings (obj fields) =
    read_settings (channel_of (lookup "channel" fields)) (enabled_of (lookup "enabled" fields))
settings _ = err (type_error "settings must be an object")

abbrev pub wrong_release : Error
wrong_release = update_error "selected release changed or is no longer a newer permitted release"

-- `not candidate or any(candidate[key] != job[key] …)`
abbrev pub same_release : Job → Option Release → Result Release
same_release job none = err wrong_release
same_release job (some r) =
    if str_eq r.version job.version && r.release_id == job.release_id
    then ok r
    else err wrong_release

abbrev pub as_fields : Json → Result Fields
as_fields (obj fields) = ok fields
as_fields _ = err (type_error "manifest must be an object")

module _ (host : Host) where
  -- `check_release(config, __version__).get('release')`
  unfoldable pub check_release : Settings → Exec Worker (Option Release)
  check_release config =
      if config.enabled
      then (do
        releases ← fetch_releases host
        lift (select_release releases host.current config.channel))
      else pure none

  unfoldable pub asset_path : ℕ → String
  asset_path id = "/releases/assets/" <> host.str_int id

  -- From the status `verifying` to the check of the manifest.
  unfoldable pub verify_release : Job → Exec Worker Release
  unfolding check_release asset_path
  verify_release job = do
    act host (write_status (verifying job.version))
    file ← ask host host.settings_file
    config ← lift (settings file)
    found ← check_release config
    candidate ← lift (same_release job found)
    text ← download host candidate.manifest (asset_path candidate.manifest.id) 65536
    vendor ← ask host host.vendor
    value ← lift (host.loads text)
    manifest ← lift (as_fields value)
    lift (validate_manifest manifest host.current candidate.version vendor)
    pure candidate

  abbrev pub same_identity : Bool → Exec Worker (Unit {0})
  same_identity true w = (ok tt, note (identity true) w)
  same_identity false w =
      (err (update_error "downloaded package identity differs from selected release"), w)

  -- The three fields that `dpkg-deb -f` prints, against the selected release.
  unfoldable pub check_identity : Release → Exec Worker (Unit {0})
  check_identity candidate = do
    name ← command host package_field
    architecture ← command host package_field
    version ← command host package_field
    same_identity (
        str_eq (name <> (architecture <> version))
          ("linux-cmnd\namd64\n" <> (candidate.version <> "\n")))

  -- `strip` is the library's: the output of `dpkg-deb` is compared after it.
  unfoldable pub keep_current : (String → String) → Exec Worker (Unit {0})
  keep_current strip = do
    present ← (λ w. (ok (host.baseline_present w.trace), w))
    refuse (not present)
        (update_error "retained current installer .deb required before updates can be installed")
    version ← command host baseline_version
    refuse (not (str_eq (strip version) host.current))
        (update_error "rollback package does not match the installed version")
    command host keep_baseline
    act host archive_configuration

  abbrev pub dump_result : Dump → Exec Worker (Unit {0})
  dump_result (exited code) w =
      if code == 0
      then (ok tt, note (dumped true) w)
      else (err (update_error "pre-update database backup failed"), note (dumped false) w)
  dump_result timed_out w =
      (err (update_error "pre-update database backup timed out"), note (dumped false) w)
  dump_result (unstarted e) w = (err e, note (dumped false) w)

  unfoldable pub dump_databases : Exec Worker (Unit {0})
  dump_databases w = dump_result (host.mysqldump w.trace) w

  -- `stopped = True` stands before the command: a failed stop can have stopped some services.
  abbrev pub set_stopped : Exec Worker (Unit {0})
  set_stopped w = (ok tt, record w { stopped = true })

  abbrev pub set_upgraded : Exec Worker (Unit {0})
  set_upgraded w = (ok tt, record w { upgraded = true })

  abbrev pub set_backed_up : Exec Worker (Unit {0})
  set_backed_up w = (ok tt, record w { database_backup_complete = true })

  unfoldable pub back_up : Job → Exec Worker (Unit {0})
  back_up job = do
    act host (write_status (backing_up job.version))
    set_stopped
    command host stop_services
    free ← ask host host.disk_free
    refuse (ltb free (4 * 1024 ^ 3))
        (update_error "at least 4GiB free space required for the private update backup")
    dump_databases
    act host compress_dump
    set_backed_up

  abbrev pub ready_result : Result Bool → Exec Worker Bool
  ready_result (ok answer) w = (ok answer, note (ready answer) w)
  ready_result (err e) w = (err e, w)

  -- `wait_ready(…)['readiness_verified']`
  unfoldable pub check_ready : Exec Worker Bool
  check_ready w = ready_result (host.wait_ready w.trace) w

  unfoldable pub install : Job → Exec Worker (Unit {0})
  install job = do
    act host (write_status (installing job.version))
    set_upgraded
    command host install_new
    command host daemon_reload
    command host start_services
    verified ← check_ready
    refuse (not verified) (update_error "post-update application readiness failed")

  unfoldable pub publish : Job → Exec Worker (Unit {0})
  publish job = do
    command host restart_admin
    command host copy_package
    act host publish_package
    act host (write_status (complete job.version))

  -- The body of the `try` from the status `verifying` on.
  unfoldable pub update : (String → String) → Job → Exec Worker (Unit {0})
  unfolding verify_release check_identity keep_current back_up install publish
  update strip job = do
    candidate ← verify_release job
    download host candidate.deb (asset_path candidate.deb.id) max_package
    check_identity candidate
    keep_current strip
    back_up job
    install job
    publish job

  unfoldable pub restore_previous : Exec Worker (Unit {0})
  restore_previous = do
    command host install_previous
    command host daemon_reload
    command host copy_previous
    act host publish_previous
    command host restart_admin
    pure tt

  -- The inner `try` of the handler, by `stopped` and `upgraded`: `recovered` stays `False` where a
  -- step raises.
  unfoldable pub recovery : Bool → Bool → Exec Worker Bool
  unfolding restore_previous
  recovery true upgraded =
      catch (do when upgraded restore_previous; command host start_services; check_ready)
        (λ _. pure false)
  recovery false upgraded = pure false

  unfoldable pub recover : Exec Worker Bool
  unfolding recovery
  recover w = recovery w.stopped w.upgraded w

  -- `except Exception as error`: recovery, the status, and the exception again.
  unfoldable pub on_failure : Error → Exec Worker (Unit {0})
  unfolding recover
  on_failure error = do
    recovered ← recover
    (λ w. act host (write_status (failed recovered w.database_backup_complete)) w)
    throw error

  -- `finally: lock.close()`
  unfoldable pub finally_close : {A : Type 0} → Exec Worker A → Exec Worker A
  finally_close m w = let (r, w') = m w in (r, note lock_closed w')

  abbrev pub invalid_queued : Error
  invalid_queued = update_error "invalid queued job rejected; runtime unchanged"

  -- The job from the queue, or the one that was confirmed on the command line. The lock is held.
  unfoldable pub queued_job : Exec Worker Job
  queued_job =
      catch
        (do
          content ← ask host host.read_queue
          job ← lift (validate_job content)
          act host unlink_queue
          pure job)
        (λ _. do act host unlink_queue; act host (write_status invalid_job); throw invalid_queued)

  unfoldable pub confirmed_job : Job → Exec Worker Job
  confirmed_job job = do
    present ← ask host host.queue_present
    refuse present (update_error "another update is queued; inspect its status before retrying")
    pure job

  abbrev pub take_job : Option Job → Exec Worker Job
  take_job none = queued_job
  take_job (some job) = confirmed_job job

  unfoldable pub with_lock : (String → String) → Option Job → Exec Worker (Unit {0})
  unfolding queued_job confirmed_job update on_failure
  with_lock strip given = do
    job ← take_job given
    act host make_attempt
    catch (update strip job) on_failure

  -- Taking the lock; `close` comes on every path that has opened its file.
  unfoldable pub locked : Lock → (String → String) → Option Job → Exec Worker (Unit {0})
  unfolding with_lock finally_close
  locked granted strip given = finally_close (with_lock strip given)
  locked busy strip given =
      finally_close (
        throw (update_error "another update worker is running; inspect its status before retrying"))
  locked (flock_failed e) strip given = finally_close (throw e)
  locked (unopened e) strip given = throw e

  abbrev pub checked_job : Option Json → Result (Option Job)
  checked_job none = ok none
  checked_job (some value) = elim (validate_job value) [ ok job ↦ ok (some job) | err e ↦ err e ]

  -- `install_pending(execute=…, confirmed_job=…)`; `root` is the test on the platform and the user.
  unfoldable pub install_pending :
      (String → String) → (execute root : Bool) → Option Json → Exec Worker (Unit {0})
  unfolding locked
  install_pending strip execute root confirmed = do
    refuse (not (execute && root)) (update_error "update worker requires Linux root and --execute")
    given ← lift (checked_job confirmed)
    locked host.lock strip given
