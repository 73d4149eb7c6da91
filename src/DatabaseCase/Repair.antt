-- ===== src/DatabaseCase/Repair.antt =====
-- The repair of src/cmnd_linux/database_case.py: each step is answered by the host, by all that was
-- done before.
pub mod Ordered
pub mod Change
pub mod Safe
use linux_cmnd.Prelude.{
  ℕ, String, Bool, true, false, not, ◌&&◌, ◌||◌, Option, none, some, List, [], ◌∷◌, ◌++◌, str_eq,
  if◌then◌else◌,
}
use linux_cmnd.Result.{Error, Result, ok, err, config_error}
use linux_cmnd.Json.{ℤ, pos}
use linux_cmnd.Json.Access.{int_same}
use linux_cmnd.Exec.{Exec, pure, throw, lift, get, modify, catch, ◌>>=◌, ◌>>◌, refuse, when}
use linux_cmnd.DatabaseCase.Audit.{Facts, CaseReport, repaired, no_names, audit, prepare}

-- A step of the repair.
pub data Step : Type 0 where
  stop_services start_services : List String → Step
  stop_database start_database wait_database : Step
  archive list_archive : Step
  write_container write_before write_case write_disabled write_success : Step
  copy_case copy_disabled : Step
  query_mixed : Step

-- The steps, the newest first, each with its success.
abbrev pub Steps : Type 0
Steps = List (Step × Bool)

pub record Host : Type 0 where
  pub perform : Steps → Step → Result (Unit {0})
  pub is_running : Steps → Result Bool
  pub package_counts : Steps → Result (List ℤ)
  pub table_mode : Steps → Result String

pub record Repairing : Type 0 where
  pub steps : Steps
  pub changed : Bool

abbrev pub is_exit_zero : Result (Unit {0}) → Bool
is_exit_zero (ok u) = true
is_exit_zero (err e) = false

abbrev pub same_counts : List ℤ → List ℤ → Bool
same_counts [] [] = true
same_counts (a ∷ s) (b ∷ t) = int_same a b && same_counts s t
same_counts _ _ = false

module _ (host : Host) where
  -- `run` and the like: the step is done or raises.
  unfoldable pub do_step : Step → Exec Repairing (Unit {0})
  do_step step s =
      let r = host.perform s.steps step in
      (r, record s { steps = (step, is_exit_zero r) ∷ s.steps })

  abbrev pub asked : {A : Type 0} → (Steps → Result A) → Exec Repairing A
  asked f = get >>= λ s. lift (f s.steps)

  -- The archive of the stopped database and the files of the repair.
  unfoldable pub cold_backup : Exec Repairing (Unit {0})
  unfolding do_step
  cold_backup = do
    do_step archive
    do_step list_archive
    do_step write_container
    do_step write_before
    do_step write_case
    do_step write_disabled

  -- The change of the container and the tests on it.
  unfoldable pub apply : (before : List ℤ) → Exec Repairing (List ℤ)
  unfolding do_step
  apply before = do
    do_step copy_case
    do_step start_database
    do_step wait_database
    mode ← asked host.table_mode
    refuse (not (str_eq mode "1"))
        (config_error "MySQL did not enable case-insensitive table lookup")
    after ← asked host.package_counts
    refuse (not (same_counts after before))
        (config_error "Package row counts changed; application remains stopped pending review")
    do_step query_mixed
    do_step write_success
    pure before

  -- The body of the `try`.
  unfoldable pub change : List String → Exec Repairing (List ℤ)
  unfolding do_step cold_backup apply
  change active = do
    when (not (no_names active)) (do_step (stop_services active))
    before ← asked host.package_counts
    do_step stop_database
    running ← asked host.is_running
    refuse running (config_error "Database did not stop; backup aborted")
    cold_backup
    modify (λ s. record s { changed = true })
    apply before

  -- The `except`; the exception is raised again.
  unfoldable pub roll_back : {A : Type 0} → Error → Exec Repairing A
  unfolding do_step
  roll_back e = do
    s ← get
    when s.changed (do_step stop_database >> do_step copy_disabled)
    do_step start_database
    do_step wait_database
    throw e

  abbrev pub reversed : List String → List String
  reversed [] = []
  reversed (x ∷ xs) = reversed xs ++ x ∷ []

  unfoldable pub change_database : List String → Exec Repairing (List ℤ)
  unfolding change roll_back
  change_database active = do
    counts ← catch (change active) roll_back
    when (not (no_names active)) (do_step (start_services (reversed active)))
    pure counts

  module _ (facts : Facts) where
    unfoldable pub repair_now : (execute : Bool) → Exec Repairing CaseReport
    unfolding change_database
    repair_now execute = do
      (done, report) ← lift (audit facts)
      if done || not execute then pure report else (do
        lift (prepare facts)
        counts ← change_database facts.active
        pure (record report { outcome = repaired; mode = pos 1 }))

    unfoldable pub repair : (execute : Bool) → Exec Repairing CaseReport
    unfolding repair_now
    repair execute = if not execute then repair_now false else (do
      lift facts.loaded
      refuse (not facts.root) (config_error "Database repair requires Linux root")
      refuse facts.state_symlink (config_error "Deployment state must not traverse symlinks")
      lift facts.lock
      repair_now true)
