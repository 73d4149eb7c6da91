-- ===== src/Updates/Worker/Order/Run.antt =====
-- A whole run of `install_pending` (src/cmnd_linux/updates.py) keeps the order.
use linux_cmnd.Prelude.{String, Bool, true, false, Option, none, some, []}
use linux_cmnd.Result.{Error, Result, ok, err}
use linux_cmnd.Exec.{Exec}
use linux_cmnd.Exec.Triple.{Triple, Settles}
use linux_cmnd.Exec.Keeps.{
  Keeps, bind-Keeps, catch-Keeps, refuse-Keeps, lift-Keeps, throw-Keeps, pure-Keeps, when-Keeps,
}
use linux_cmnd.Json.{Json}
use linux_cmnd.Updates.Manifest.{Job}
use linux_cmnd.Updates.Host.{
  Host, Worker, ran, Command, failed, invalid_job, write_status, make_attempt, unlink_queue,
  install_previous, daemon_reload, copy_previous, publish_previous, restart_admin, start_services,
  lock_closed, command, Lock, granted, busy, unopened, flock_failed,
}
use linux_cmnd.Updates.Worker.{
  restore_previous, recovery, recover, on_failure, finally_close, queued_job, confirmed_job,
  take_job, with_lock, locked, install_pending, check_ready, ready_result, checked_job,
}
use linux_cmnd.Updates.Worker.Order.{
  Ordered, Seen-cons, Keeping, Raised, Plain, act_stays, ask_stays, command_keeps,
}
use linux_cmnd.Updates.Worker.Order.Phases.{update_order}

-- A triple whose two outcomes leave the trace ordered is an invariant.
ordered_of_settles :
    {A : Type 0} (r : Result A) (w : Worker) → Settles (λ _. Keeping []) Raised r w → Keeping [] w
ordered_of_settles (ok a) w s = s
ordered_of_settles (err e) w o = record { ordered = o; happened = tt }

Triple-Keeps :
    {A : Type 0} (m : Exec Worker A)
    → Triple (Keeping []) m (λ _. Keeping []) Raised
    → Keeps (Keeping []) m
Triple-Keeps m t = record { kept = λ w s. ordered_of_settles (m w).0 (m w).1 (t.run w s) }

module _ (host : Host) where
  command_stays : (c : Command) → Plain (ran c) → Keeps (Keeping []) (command host c)
  command_stays c plain = Triple-Keeps _ (command_keeps host [] c plain)

  restore_previous_order : Keeps (Keeping []) (restore_previous host)
  unfolding restore_previous
  restore_previous_order = bind-Keeps _ _ (command_stays install_previous (λ b t. tt)) λ _.
      bind-Keeps _ _ (command_stays daemon_reload (λ b t. tt)) λ _.
        bind-Keeps _ _ (command_stays copy_previous (λ b t. tt)) λ _.
          bind-Keeps _ _ (act_stays host _ publish_previous (λ b t. tt))
            λ _. bind-Keeps _ _ (command_stays restart_admin (λ b t. tt)) λ _. pure-Keeps tt

  ready_stays : (r : Result Bool) (w : Worker) → Keeping [] w → Keeping [] (ready_result host r w).1
  ready_stays (ok answer) w s = Seen-cons [] _ w.trace tt s
  ready_stays (err e) w s = s

  check_ready_stays : Keeps (Keeping []) (check_ready host)
  unfolding check_ready
  check_ready_stays = record { kept = λ w s. ready_stays (host.wait_ready w.trace) w s }

  recovery_order : (stopped upgraded : Bool) → Keeps (Keeping []) (recovery host stopped upgraded)
  unfolding recovery
  recovery_order false upgraded = pure-Keeps false
  recovery_order true upgraded =
      catch-Keeps _ _
        (bind-Keeps _ _ (when-Keeps upgraded _ restore_previous_order)
          λ _. bind-Keeps _ _ (command_stays start_services (λ b t. tt)) λ _. check_ready_stays)
        (λ _. pure-Keeps false)

  recover_order : Keeps (Keeping []) (recover host)
  unfolding recover
  recover_order = record { kept = λ w s. (recovery_order w.stopped w.upgraded).kept w s }

  on_failure_order : (e : Error) → Keeps (Keeping []) (on_failure host e)
  unfolding on_failure
  on_failure_order e = bind-Keeps _ _ recover_order λ recovered.
      bind-Keeps _ _
        (record {
          kept = λ w.
              (act_stays host [] (write_status (failed recovered w.database_backup_complete))
                  (λ b t. tt)).kept
                w;
        })
        λ _. throw-Keeps e

  queued_job_order : Keeps (Keeping []) (queued_job host)
  unfolding queued_job
  queued_job_order =
      catch-Keeps _ _
        (bind-Keeps _ _ (ask_stays host _ _) λ content.
          bind-Keeps _ _ (lift-Keeps _)
            λ job. bind-Keeps _ _ (act_stays host _ unlink_queue (λ b t. tt)) λ _. pure-Keeps job)
        λ _. bind-Keeps _ _ (act_stays host _ unlink_queue (λ b t. tt)) λ _.
          bind-Keeps _ _ (act_stays host _ (write_status invalid_job) (λ b t. tt))
            λ _. throw-Keeps _

  take_job_order : (given : Option Job) → Keeps (Keeping []) (take_job host given)
  unfolding confirmed_job
  take_job_order none = queued_job_order
  take_job_order (some job) =
      bind-Keeps _ _ (ask_stays host _ _)
        λ present. bind-Keeps _ _ (refuse-Keeps present _) λ _. pure-Keeps job

  with_lock_order :
      (strip : String → String) (given : Option Job)
      → Keeps (Keeping []) (with_lock host strip given)
  unfolding with_lock
  with_lock_order strip given = bind-Keeps _ _ (take_job_order given) λ job.
      bind-Keeps _ _ (act_stays host _ make_attempt (λ b t. tt))
        λ _. catch-Keeps _ _ (Triple-Keeps _ (update_order host strip job)) on_failure_order

  finally_close_order :
      {A : Type 0} (m : Exec Worker A)
      → Keeps (Keeping []) m
      → Keeps (Keeping []) (finally_close host m)
  unfolding finally_close
  finally_close_order m k = record { kept = λ w s. Seen-cons [] lock_closed _ tt (k.kept w s) }

  locked_order :
      (l : Lock) (strip : String → String) (given : Option Job)
      → Keeps (Keeping []) (locked host l strip given)
  unfolding locked
  locked_order granted strip given = finally_close_order _ (with_lock_order strip given)
  locked_order busy strip given = finally_close_order _ (throw-Keeps _)
  locked_order (flock_failed e) strip given = finally_close_order _ (throw-Keeps e)
  locked_order (unopened e) strip given = throw-Keeps e

  -- However the host answers, a run adds to the trace only what the trace allows: the new package
  -- is installed only after its identity was checked, the running package and the configuration
  -- were kept, the services stopped and the databases were dumped and compressed; it becomes the
  -- baseline only while the last answer since the installation is that the host is ready; and an
  -- update is reported complete only after that.
  pub install_pending-Ordered :
      (strip : String → String) (execute root : Bool) (confirmed : Option Json) (w : Worker)
      → Ordered w.trace
      → Ordered (install_pending host strip execute root confirmed w).1.trace
  unfolding install_pending
  install_pending-Ordered strip execute root confirmed w o =
      let k : Keeps (Keeping []) (install_pending host strip execute root confirmed) =
        bind-Keeps _ _ (refuse-Keeps _ _) λ _.
          bind-Keeps _ _ (lift-Keeps (checked_job host confirmed))
            λ given. locked_order host.lock strip given in
      (k.kept w (record { ordered = o; happened = tt })).ordered
