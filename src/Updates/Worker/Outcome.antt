-- ===== src/Updates/Worker/Outcome.antt =====
-- What a run of `install_pending` (src/cmnd_linux/updates.py) that returns, or fails, has done.
use linux_cmnd.Prelude.{◌≡◌, refl, String, Bool, true, false, Option, ◌∷◌}
use linux_cmnd.Result.{Error, Result, ok, err}
use linux_cmnd.Exec.{Exec, pure, throw, lift, resume, ◌>>=◌}
use linux_cmnd.Exec.Triple.{Triple, Triple-bind, Triple-catch, Triple-throw, Settles}
use linux_cmnd.Json.{Json}
use linux_cmnd.Updates.Manifest.{Job}
use linux_cmnd.Updates.Host.{
  Host, Worker, Trace, acted, write_status, complete, lock_closed, Lock, granted, busy, unopened,
  flock_failed,
}
use linux_cmnd.Updates.Host.Steps.{act_rule}
use linux_cmnd.Updates.Worker.{
  on_failure, with_lock, locked, install_pending, update, publish, checked_job,
}

abbrev Anything : {A : Type 0} → A → Worker → Type 0
Anything a w = Unit

-- The update was reported complete, and nothing came after that.
pub record IsComplete (t : Trace) : Type 0 where
  pub version : String
  pub before : Trace
  pub ends : t ≡ acted (write_status (complete version)) true ∷ before

-- The lock was closed as the last step.
pub record IsClosed (P : Trace → Type 0) (t : Trace) : Type 0 where
  pub before : Trace
  pub ends : t ≡ lock_closed ∷ before
  pub holds : P before

trivial_settles : {A : Type 0} (r : Result A) (w : Worker) → Settles (Anything {A = A}) Anything r w
trivial_settles (ok a) w = tt
trivial_settles (err e) w = tt

trivial : {A : Type 0} (m : Exec Worker A) → Triple (λ _. Unit) m (Anything {A = A}) Anything
trivial m = record { run = λ w _. trivial_settles (m w).0 (m w).1 }

module _ (host : Host) where
  publish-IsComplete :
      (job : Job) → Triple (λ _. Unit) (publish host job) (λ _ w. IsComplete w.trace) Anything
  unfolding publish
  publish-IsComplete job = Triple-bind _ _ Anything (trivial _) λ _.
      Triple-bind _ _ Anything (trivial _) λ _. Triple-bind _ _ Anything (trivial _) λ _.
        act_rule host (λ _. Unit) IsComplete (λ _. Unit) (write_status (complete job.version))
          (λ t _. record { version = job.version; before = t; ends = refl }) (λ t _. tt)

  update-IsComplete :
      (strip : String → String) (job : Job)
      → Triple (λ _. Unit) (update host strip job) (λ _ w. IsComplete w.trace) Anything
  unfolding update
  update-IsComplete strip job = Triple-bind _ _ Anything (trivial _) λ r.
      Triple-bind _ _ Anything (trivial _) λ _. Triple-bind _ _ Anything (trivial _) λ _.
        Triple-bind _ _ Anything (trivial _) λ _.
          Triple-bind _ _ Anything (trivial _)
            λ _. Triple-bind _ _ Anything (trivial _) λ _. publish-IsComplete job

  on_failure_raises :
      (e : Error) → Triple (λ _. Unit) (on_failure host e) (λ _ w. IsComplete w.trace) Anything
  unfolding on_failure
  on_failure_raises e =
      Triple-bind _ _ Anything (trivial _)
        λ recovered. Triple-bind _ _ Anything (trivial _) λ _. Triple-throw e (λ w _. tt)

  with_lock-IsComplete :
      (strip : String → String) (given : Option Job)
      → Triple (λ _. Unit) (with_lock host strip given) (λ _ w. IsComplete w.trace) Anything
  unfolding with_lock
  with_lock-IsComplete strip given = Triple-bind _ _ Anything (trivial _) λ job.
      Triple-bind _ _ Anything (trivial _)
        λ _. Triple-catch _ _ Anything (update-IsComplete strip job) on_failure_raises

  IsClosed-settles :
      (r : Result (Unit {0})) (w : Worker)
      → Settles (λ _ w. IsComplete w.trace) Anything r w
      → r ≡ ok tt
      → IsClosed IsComplete (lock_closed ∷ w.trace)
  IsClosed-settles (ok u) w s h = record { before = w.trace; ends = refl; holds = s }
  IsClosed-settles (err e) w s h = cc

  locked-IsComplete :
      (l : Lock) (strip : String → String) (given : Option Job) (w : Worker)
      → (locked host l strip given w).0 ≡ ok tt
      → IsClosed IsComplete (locked host l strip given w).1.trace
  unfolding locked throw
  locked-IsComplete granted strip given w h =
      IsClosed-settles _ _ ((with_lock-IsComplete strip given).run w tt) h
  locked-IsComplete busy strip given w h = cc
  locked-IsComplete (flock_failed e) strip given w h = cc
  locked-IsComplete (unopened e) strip given w h = cc

  given-IsComplete :
      (r : Result (Option Job)) (strip : String → String) (w : Worker)
      → (resume r (λ given. locked host host.lock strip given) w).0 ≡ ok tt
      → IsClosed IsComplete (resume r (λ given. locked host host.lock strip given) w).1.trace
  given-IsComplete (ok given) strip w h = locked-IsComplete host.lock strip given w h
  given-IsComplete (err e) strip w h = cc

  -- A run that returns has closed the lock as its last step, directly after the status `complete`.
  pub install_pending-IsComplete :
      (strip : String → String) (execute root : Bool) (confirmed : Option Json) (w : Worker)
      → (install_pending host strip execute root confirmed w).0 ≡ ok tt
      → IsClosed IsComplete (install_pending host strip execute root confirmed w).1.trace
  unfolding install_pending throw lift pure ◌>>=◌
  install_pending-IsComplete strip true true confirmed w h =
      given-IsComplete (checked_job host confirmed) strip w h
  install_pending-IsComplete strip true false confirmed w h = cc
  install_pending-IsComplete strip false root confirmed w h = cc
