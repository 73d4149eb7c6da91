-- ===== src/Updates/Host.antt =====
-- What the update worker (src/cmnd_linux/updates.py, `install_pending`) asks of its host: files,
-- commands and the network. An answer may depend on all that was done before.
pub mod Steps
use linux_cmnd.Prelude.{
  ℕ, String, Bool, true, false, Option, none, some, List, [], ◌∷◌, ◌==◌, if◌then◌else◌,
}
use linux_cmnd.Prelude.Chars.{Text}
use linux_cmnd.Result.{Error, Result, ok, err, update_error, is_ok}
use linux_cmnd.Exec.{Exec, pure, throw, lift, ◌>>=◌, ◌>>◌}
use linux_cmnd.Json.{Json}
use linux_cmnd.Updates.Release.{Asset}
use linux_cmnd.Updates.Fetch.{Net, Requests, fetch, download_asset}

-- The documents of `write_status`.
pub data Status : Type 0 where
  verifying backing_up installing : String → Status
  complete : String → Status
  failed : (recovered backup_retained : Bool) → Status
  invalid_job : Status

-- Steps on the host that return nothing.
pub data Act : Type 0 where
  unlink_queue make_attempt log_error archive_configuration : Act
  compress_dump publish_package publish_previous : Act
  write_status : Status → Act

-- The commands that `command` runs.
pub data Command : Type 0 where
  package_field baseline_version keep_baseline stop_services start_services : Command
  install_new install_previous daemon_reload restart_admin : Command
  copy_package copy_previous : Command

-- What was done, with its outcome. `dumped` is the end of `mysqldump`.
pub data Event : Type 0 where
  acted : Act → Bool → Event
  ran : Command → Bool → Event
  dumped ready identity : Bool → Event
  lock_closed : Event

abbrev pub Trace : Type 0
Trace = List Event

pub data Lock : Type 0 where
  granted busy : Lock
  unopened flock_failed : Error → Lock

pub data Dump : Type 0 where
  exited : ℕ → Dump
  timed_out : Dump
  unstarted : Error → Dump

-- The names of the fields are those of the calls; a value is what the call returns or raises.
pub record Host : Type 0 where
  pub net : Net
  pub str_int : ℕ → String
  pub loads : Text → Result Json
  pub current : String
  pub lock : Lock
  pub queue_present : Trace → Result Bool
  pub read_queue : Trace → Result Json
  pub settings_file : Trace → Result Json
  pub credential : Trace → Result Bool
  pub vendor : Trace → Result String
  pub baseline_present : Trace → Bool
  pub disk_free : Trace → Result ℕ
  pub act : Trace → Act → Result (Unit {0})
  pub run : Trace → Command → Result (ℕ × String)
  pub mysqldump : Trace → Dump
  pub wait_ready : Trace → Result Bool

-- The variables of `install_pending` that its handlers read, with what was done, the newest first.
pub record Worker : Type 0 where
  pub trace : Trace
  pub requests : Requests
  pub stopped : Bool
  pub upgraded : Bool
  pub database_backup_complete : Bool

abbrev pub command_failed : Error
command_failed = update_error "update command failed; inspect private attempt log"

abbrev pub note : Event → Worker → Worker
note e w = record w { trace = e ∷ w.trace }

module _ (host : Host) where
  unfoldable pub act : Act → Exec Worker (Unit {0})
  act a w = let r = host.act w.trace a in (r, note (acted a (is_ok r)) w)

  abbrev pub exit_zero : Result (ℕ × String) → Bool
  exit_zero (ok (code, output)) = code == 0
  exit_zero (err e) = false

  -- `if result.returncode:` the error log, and the exception
  abbrev pub check_exit : Result (ℕ × String) → Exec Worker String
  check_exit (ok (code, output)) =
      if code == 0 then pure output else act log_error >>= λ _. throw command_failed
  check_exit (err e) = throw e

  -- `command(…)`
  unfoldable pub command : Command → Exec Worker String
  unfolding act ◌>>=◌ pure
  command c w = let r = host.run w.trace c in check_exit r (note (ran c (exit_zero r)) w)

  -- A value that is read from the host, without an event.
  unfoldable pub ask : {A : Type 0} → (Trace → Result A) → Exec Worker A
  ask question w = (question w.trace, w)

  -- `json.loads(fetch('/releases?per_page=100', config))`
  unfoldable pub fetch_releases : Exec Worker Json
  fetch_releases w = elim (host.credential w.trace) [
    | err e ↦ (err e, w)
    | ok token ↦
        let (body, made) = fetch host.net "/releases?per_page=100" token false 2097152 w.requests in
        (elim body [ ok text ↦ host.loads text | err e ↦ err e ], record w { requests = made })
  ]

  -- `download_asset` at the path of the asset's ID
  unfoldable pub download : Asset → String → ℕ → Exec Worker Text
  download asset path limit w = elim (host.credential w.trace) [
    | err e ↦ (err e, w)
    | ok token ↦
        let (body, made) = download_asset host.net asset path token limit w.requests in
        (body, record w { requests = made })
  ]
