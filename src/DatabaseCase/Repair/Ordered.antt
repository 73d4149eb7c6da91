-- ===== src/DatabaseCase/Repair/Ordered.antt =====
-- The order of the steps of a repair (src/cmnd_linux/database_case.py) and what a failure leaves.
use linux_cmnd.Prelude.{
  ℕ, ◌≡◌, subst, String, Bool, true, false, ◌&&◌, ◌||◌, List, [], ◌∷◌, arith, any, ◌==◌, str_eq,
  All,
}
use linux_cmnd.Result.{Result, ok, err}
use linux_cmnd.Json.{ℤ}
use linux_cmnd.Exec.Triple.{Triple, Settles, Triple-lift, Triple-get, Triple-bind}
use linux_cmnd.DatabaseCase.Repair.{
  Step, Steps, Host, Repairing, do_step, asked, stop_services, start_services, stop_database,
  start_database, wait_database, archive, list_archive, write_container, write_before, write_case,
  write_disabled, write_success, copy_case, copy_disabled, query_mixed, is_exit_zero, same_counts,
}

-- The kind of a step.
abbrev pub kind : Step → ℕ
kind (stop_services names) = 0
kind (start_services names) = 1
kind stop_database = 2
kind start_database = 3
kind wait_database = 4
kind archive = 5
kind list_archive = 6
kind write_container = 7
kind write_before = 8
kind write_case = 9
kind write_disabled = 10
kind write_success = 11
kind copy_case = 12
kind copy_disabled = 13
kind query_mixed = 14

-- The step has been done with success.
abbrev pub did : Step → Steps → Bool
did step steps = any (λ (s, b). b && kind s == kind step) steps

-- The steps that have to be done before.
abbrev pub needs : Step → List Step
needs (start_services names) =
    copy_case ∷ start_database ∷ wait_database ∷ query_mixed ∷ write_success ∷ []
needs archive = stop_database ∷ []
needs list_archive = archive ∷ []
needs write_success = copy_case ∷ query_mixed ∷ []
needs copy_case =
    stop_database ∷ archive ∷ list_archive ∷ write_container ∷ write_before ∷ write_case
    ∷ write_disabled ∷ []
needs copy_disabled = write_disabled ∷ stop_database ∷ []
needs query_mixed = copy_case ∷ wait_database ∷ []
needs _ = []

abbrev pub AllDid : List Step → Steps → Type 0
AllDid wanted steps = All (λ s. did s steps ≡ true) wanted

abbrev pub AreOrdered : Steps → Type 0
AreOrdered [] = Unit
AreOrdered ((step, b) ∷ before) = AllDid (needs step) before × AreOrdered before

abbrev pub IsReverted : Steps → Type 0
IsReverted ((copy_disabled, true) ∷ (stop_database, true) ∷ before) = Unit
IsReverted _ = ⊥

-- The last step of the way back is to wait for the database that was started, behind the steps that
-- replace a file of the repair. Where a step of the way back fails, it is the last one; where the
-- applications do not start, the repair has been recorded as a success.
abbrev pub IsRolledBack : Bool → Steps → Type 0
IsRolledBack changed [] = changed ≡ false
IsRolledBack changed ((start_services names, false) ∷ before) = did write_success before ≡ true
IsRolledBack changed ((stop_database, false) ∷ before) = changed ≡ true
IsRolledBack changed ((copy_disabled, false) ∷ (stop_database, true) ∷ before) = changed ≡ true
IsRolledBack changed ((start_database, false) ∷ before) = changed ≡ true → IsReverted before
IsRolledBack changed ((wait_database, false) ∷ (start_database, true) ∷ before) =
    changed ≡ true → IsReverted before
IsRolledBack changed ((wait_database, true) ∷ (start_database, true) ∷ before) =
    changed ≡ true → IsReverted before
IsRolledBack changed _ = ⊥

module _ (host : Host) where
  -- The counts of the packages were the same before the container was changed and behind that, when
  -- the database answered, and then the lookup was seen to be on.
  pub record IsChecked (counts : List ℤ) : Type 0 where
    pub before : Steps
    pub after : Steps
    pub on : Steps
    pub later : List ℤ
    pub untouched : did copy_case before ≡ false
    pub copied : did copy_case after ≡ true
    pub answering : did wait_database after ≡ true
    pub on_copied : did copy_case on ≡ true
    pub on_answering : did wait_database on ≡ true
    pub first : host.package_counts before ≡ ok counts
    pub second : host.package_counts after ≡ ok later
    pub same : same_counts later counts ≡ true
    pub mode : String
    pub seen : host.table_mode on ≡ ok mode
    pub enabled : str_eq mode "1" ≡ true

  abbrev pub push : Step → Bool → Repairing → Repairing
  push step b s = record s { steps = (step, b) ∷ s.steps }

  module _ {P Q R : Repairing → Type 0} where
    pub step_Triple :
        (step : Step)
        → ((s : Repairing) → P s → Q (push step true s))
        → ((s : Repairing) → P s → R (push step false s))
        → Triple P (do_step host step) (λ _ s. Q s) (λ _ s. R s)
    unfolding do_step
    step_Triple step h k = record { run = λ s p. after s p (host.perform s.steps step) }
      where
        after :
            (s : Repairing)
            → P s
            → (r : Result (Unit {0}))
            → Settles (λ _ t. Q t) (λ _ t. R t) r (push step (is_exit_zero r) s)
        after s p (ok u) = h s p
        after s p (err e) = k s p

  -- What has been done so far, in order, and whether the repair has changed the container.
  abbrev pub Done : Bool → List Step → Repairing → Type 0
  Done changed ds s = (AreOrdered s.steps × AllDid ds s.steps) × (s.changed ≡ changed)

  -- What the way back finds.
  abbrev pub Failed : Repairing → Type 0
  Failed s = AreOrdered s.steps × (s.changed ≡ true → did write_disabled s.steps ≡ true)

  pub kept :
      (step : Step) (b : Bool) (ds : List Step) (steps : Steps)
      → AllDid ds steps
      → AllDid ds ((step, b) ∷ steps)
  kept step b [] steps h = tt
  kept step b (d ∷ ds) steps h = (later (b && kind step == kind d) _ h.0, kept step b ds steps h.1)
    where
      later : (x y : Bool) → y ≡ true → (x || y) ≡ true
      later x y h = ground arith

  self : (step : Step) (steps : Steps) → did step ((step, true) ∷ steps) ≡ true
  self step steps = same (kind step) _
    where
      same : (n : ℕ) (y : Bool) → ((n == n) || y) ≡ true
      same n y = ground arith

  unchanged : (ds : List Step) (s : Repairing) → Done false ds s → Failed s
  unchanged ds s h = (h.0.0, λ c. absurd (cc (c, h.1)))

  pub step_before :
      (step : Step) (ds : List Step)
      → ((steps : Steps) → AllDid ds steps → AllDid (needs step) steps)
      → Triple
          (Done false ds)
          (do_step host step)
          (λ _ s. Done false (step ∷ ds) s)
          (λ _ s. Failed s)
  step_before step ds enough =
      step_Triple step
        (λ s h. (
          ((enough s.steps h.0.1, h.0.0), (self step s.steps, kept step true ds s.steps h.0.1)),
          h.1,
        ))
        (λ s h.
          unchanged ds (push step false s)
            (((enough s.steps h.0.1, h.0.0), kept step false ds s.steps h.0.1), h.1))

  -- The same, once the container is changed: the file that is copied back was written before.
  pub step_after :
      (step : Step) (ds : List Step)
      → ((steps : Steps) → AllDid ds steps → AllDid (needs step) steps)
      → ((steps : Steps) → AllDid ds steps → did write_disabled steps ≡ true)
      → Triple (Done true ds) (do_step host step) (λ _ s. Done true (step ∷ ds) s) (λ _ s. Failed s)
  step_after step ds enough written =
      step_Triple step
        (λ s h. (
          ((enough s.steps h.0.1, h.0.0), (self step s.steps, kept step true ds s.steps h.0.1)),
          h.1,
        ))
        (λ s h. (
          (enough s.steps h.0.1, h.0.0),
          λ _. written ((step, false) ∷ s.steps) (kept step false ds s.steps h.0.1),
        ))

  module _ {A : Type 0} {P : Repairing → Type 0} where
    -- What the host is asked changes nothing.
    pub asked_Triple :
        (f : Steps → Result A)
        → ((s : Repairing) → P s → Failed s)
        → Triple P
            (asked host f)
            (λ v s. P s × ((a : Repairing) × (P a × (f a.steps ≡ ok v))))
            (λ _ s. Failed s)
    asked_Triple f w =
        Triple-bind _ _ (λ a s. P s × (s ≡ a)) Triple-get
          λ a. Triple-lift _ (λ s v e h. (h.0, (a, (subst P h.1 h.0, e)))) (λ s e _ h. w s h.0)
