-- ===== src/DatabaseCase/Repair/Safe.antt =====
-- What a repair of src/cmnd_linux/database_case.py leaves, whether it returns or raises.
use linux_cmnd.Prelude.{◌≡◌, ◌⊎◌, true, false, List, [], ◌∷◌}
use linux_cmnd.Result.{Result}
use linux_cmnd.Json.{ℤ}
use linux_cmnd.Exec.Triple.{Triple}
use linux_cmnd.DatabaseCase.Audit.{Facts, CaseReport, repaired}
use linux_cmnd.DatabaseCase.Repair.{
  Steps, Host, Repairing, stop_database, start_database, write_disabled,
}
use linux_cmnd.DatabaseCase.Repair.Ordered.{
  did, AllDid, AreOrdered, IsReverted, IsRolledBack, IsChecked,
}
use linux_cmnd.DatabaseCase.Repair.Change.{success}

module _ (host : Host) where
  -- What a raise leaves.
  abbrev pub Left : Repairing → Type 0
  Left s = AreOrdered s.steps × IsRolledBack s.changed s.steps

  abbrev Reverted : Repairing → Type 0
  Reverted s = AreOrdered s.steps × (s.changed ≡ true → IsReverted s.steps)

  -- The database has been stopped last.
  abbrev Stopped : Repairing → Type 0
  Stopped s =
      (AreOrdered s.steps × (did write_disabled s.steps ≡ true) × (s.changed ≡ true))
      × ((before : Steps) × (s.steps ≡ (stop_database, true) ∷ before))

  abbrev Started : Repairing → Type 0
  Started s =
      AreOrdered s.steps
      × ((before : Steps) × ((s.steps ≡ (start_database, true) ∷ before)
            × (s.changed ≡ true → IsReverted before)))

  -- What a return leaves: the steps in order, and the evidence if there was a repair.
  pub record IsRepaired (s : Repairing) : Type 0 where
    pub all_done : AllDid success s.steps
    pub counts : List ℤ
    pub checked : IsChecked host counts

  module _ (facts : Facts) where
    -- Before the first step, nothing has changed.
    abbrev pub Fresh : Repairing → Type 0
    Fresh s = (s.steps ≡ []) × (s.changed ≡ false)

    -- A report of a repair has its evidence; another report leaves everything as it was.
    abbrev pub IsReported : CaseReport → Repairing → Type 0
    IsReported report s =
        Fresh s ⊎ (AreOrdered s.steps × IsRepaired s × (report.outcome ≡ repaired))
