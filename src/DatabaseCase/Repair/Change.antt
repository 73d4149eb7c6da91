-- ===== src/DatabaseCase/Repair/Change.antt =====
-- How the change of the container in src/cmnd_linux/database_case.py is made, step behind step.
use linux_cmnd.Prelude.{
  ◌≡◌, refl, String, Bool, true, false, not, List, [], ◌∷◌, ◌++◌, arith, str_eq,
}
use linux_cmnd.Result.{ok}
use linux_cmnd.Json.{ℤ}
use linux_cmnd.Exec.Triple.{
  Triple, Triple-pure, Triple-modify, Triple-bind, Triple-refuse, Triple-when, Triple-assume,
  Triple-weaken,
}
use linux_cmnd.DatabaseCase.Audit.{no_names}
use linux_cmnd.DatabaseCase.Repair.{
  Step, Steps, Host, Repairing, do_step, change, cold_backup, apply, stop_services, stop_database,
  start_database, wait_database, archive, list_archive, write_container, write_before, write_case,
  write_disabled, write_success, copy_case, query_mixed, same_counts,
}
use linux_cmnd.DatabaseCase.Repair.Ordered.{
  did, needs, AllDid, IsChecked, Done, Failed, step_before, step_after, step_Triple, asked_Triple,
}

-- The steps before the container is changed, the newest first.
abbrev pub backup : List Step
backup =
    write_disabled ∷ write_case ∷ write_before ∷ write_container ∷ list_archive ∷ archive
    ∷ stop_database ∷ []

abbrev pub waited : List Step
waited = wait_database ∷ start_database ∷ copy_case ∷ backup

abbrev pub success : List Step
success = write_success ∷ query_mixed ∷ waited

module _ (host : Host) where
  raised : (ds : List Step) (s : Repairing) → Done host false ds s → Failed host s
  raised ds s h = (h.0.0, λ c. absurd (cc (c, h.1)))

  written :
      (ds : List Step) (steps : Steps)
      → AllDid (ds ++ backup) steps
      → did write_disabled steps ≡ true
  written [] steps k = k.0
  written (d ∷ ds) steps k = written ds steps k.1

  changed_Failed :
      (ds : List Step) (s : Repairing) → Done host true (ds ++ backup) s → Failed host s
  changed_Failed ds s h = (h.0.0, λ _. written ds s.steps h.0.1)

  cold_backup-Done :
      Triple
        (λ s. Done host false (stop_database ∷ []) s)
        (cold_backup host)
        (λ _ s. Done host false backup s)
        (λ _ s. Failed host s)
  unfolding cold_backup
  cold_backup-Done =
      Triple-bind _ _ (λ _ s. Done host false (archive ∷ stop_database ∷ []) s)
        (step_before host archive (stop_database ∷ []) (λ t h. h))
        λ _.
          Triple-bind _ _ (λ _ s. Done host false (list_archive ∷ archive ∷ stop_database ∷ []) s)
            (step_before host list_archive (archive ∷ stop_database ∷ []) (λ t h. (h.0, tt)))
            λ _.
              Triple-bind _ _
                (λ _ s.
                  Done host false (write_container ∷ list_archive ∷ archive ∷ stop_database ∷ []) s)
                (step_before host write_container (list_archive ∷ archive ∷ stop_database ∷ [])
                  (λ t h. tt))
                λ _.
                  Triple-bind _ _
                    (λ _ s.
                      Done host false
                        (write_before ∷ write_container ∷ list_archive ∷ archive ∷ stop_database
                          ∷ [])
                        s)
                    (step_before host write_before
                      (write_container ∷ list_archive ∷ archive ∷ stop_database ∷ []) (λ t h. tt))
                    λ _.
                      Triple-bind _ _
                        (λ _ s.
                          Done host false
                            (write_case ∷ write_before ∷ write_container ∷ list_archive ∷ archive
                              ∷ stop_database ∷ [])
                            s)
                        (step_before host write_case
                          (write_before ∷ write_container ∷ list_archive ∷ archive ∷ stop_database
                            ∷ [])
                          (λ t h. tt))
                        λ _.
                          step_before host write_disabled
                            (write_case ∷ write_before ∷ write_container ∷ list_archive ∷ archive
                              ∷ stop_database ∷ [])
                            (λ t h. tt)

  then_after :
      (step : Step) (ds : List Step)
      → ((steps : Steps) → AllDid (ds ++ backup) steps → AllDid (needs step) steps)
      → Triple
          (λ s. Done host true (ds ++ backup) s)
          (do_step host step)
          (λ _ s. Done host true (step ∷ (ds ++ backup)) s)
          (λ _ s. Failed host s)
  then_after step ds enough = step_after host step (ds ++ backup) enough (written ds)

  apply-IsChecked :
      (counts : List ℤ)
      → ((t : Steps) × ((host.package_counts t ≡ ok counts) × (did copy_case t ≡ false)))
      → Triple
          (λ s. Done host true backup s)
          (apply host counts)
          (λ counts s. Done host true success s × IsChecked host counts)
          (λ _ s. Failed host s)
  apply-IsChecked counts (t1, (first, untouched)) =
      unfold apply in
      Triple-bind _ _ (λ _ s. Done host true (copy_case ∷ backup) s)
        (then_after copy_case [] (λ t (dis, (cas, (bef, (con, (lis, (arc, (sto, u))))))).
          (sto, (arc, (lis, (con, (bef, (cas, (dis, tt)))))))))
        λ _.
          Triple-bind _ _ (λ _ s. Done host true (start_database ∷ copy_case ∷ backup) s)
            (then_after start_database (copy_case ∷ []) (λ t h. tt))
            λ _.
              Triple-bind _ _ (λ _ s. Done host true waited s)
                (then_after wait_database (start_database ∷ copy_case ∷ []) (λ t h. tt))
                λ _.
                  Triple-bind _ _
                    (λ mode s.
                      Done host true waited s
                      × ((t : Repairing) × (Done host true waited t
                            × (host.table_mode t.steps ≡ ok mode))))
                    (asked_Triple host host.table_mode still)
                    λ mode.
                      Triple-bind _ _
                        (λ _ s.
                          Done host true waited s
                          × (((t : Repairing) × (Done host true waited t
                                  × (host.table_mode t.steps ≡ ok mode)))
                              × (str_eq mode "1" ≡ true)))
                        (Triple-refuse _ _ (λ s _ h. still s h.0)
                          (λ s e h. (h.0, (h.1, affirmed _ e))))
                        λ _.
                          Triple-assume _ (λ s h. h.1)
                            λ seen.
                              Triple-weaken _ (λ s h. h.0) (λ a s h. h) (λ e s h. h)
                                (Triple-bind _ _
                                  (λ after s.
                                    Done host true waited s
                                    × ((t : Repairing) × (Done host true waited t
                                          × (host.package_counts t.steps ≡ ok after))))
                                  (asked_Triple host host.package_counts still)
                                  λ after.
                                    Triple-bind _ _
                                      (λ _ s.
                                        Done host true waited s
                                        × (((t : Repairing) × (Done host true waited t
                                                × (host.package_counts t.steps ≡ ok after)))
                                            × (same_counts after counts ≡ true)))
                                      (Triple-refuse _ _ (λ s _ h. still s h.0)
                                        (λ s e h. (h.0, (h.1, affirmed _ e))))
                                      λ _.
                                        Triple-assume _ (λ s h. h.1)
                                          λ second.
                                            Triple-weaken _ (λ s h. h.0) (λ a s h. h) (λ e s h. h)
                                              (Triple-bind _ _
                                                (λ _ s. Done host true (query_mixed ∷ waited) s)
                                                (then_after query_mixed
                                                  (wait_database ∷ start_database ∷ copy_case ∷ [])
                                                  (λ t (w, (st, (c, h))). (c, (w, tt))))
                                                λ _.
                                                  Triple-bind _ _ (λ _ s. Done host true success s)
                                                    (then_after write_success
                                                      (query_mixed ∷ wait_database ∷ start_database
                                                        ∷ copy_case ∷ [])
                                                      (λ t (q, (w, (st, (c, h)))). (c, (q, tt))))
                                                    λ _.
                                                      Triple-pure counts (λ s h.
                                                        (h, checked mode after seen second))))
    where
      still : (s : Repairing) → Done host true waited s → Failed host s
      still s h = changed_Failed (wait_database ∷ start_database ∷ copy_case ∷ []) s h

      affirmed : (b : Bool) → not b ≡ false → b ≡ true
      affirmed b h = ground arith

      checked :
          (mode : String) (after : List ℤ)
          → ((t : Repairing) × (Done host true waited t × (host.table_mode t.steps ≡ ok mode)))
            × (str_eq mode "1" ≡ true)
          → ((t : Repairing) × (Done host true waited t × (host.package_counts t.steps ≡ ok after)))
            × (same_counts after counts ≡ true)
          → IsChecked host counts
      checked mode after ((t, (k, seen)), on) ((u, (l, second)), same) = record {
        before = t1;
        after = u.steps;
        on = t.steps;
        untouched = untouched;
        copied = l.0.1.1.1.0;
        answering = l.0.1.0;
        on_copied = k.0.1.1.1.0;
        on_answering = k.0.1.0;
        later = after;
        first = first;
        second = second;
        same = same;
        mode = mode;
        seen = seen;
        enabled = on;
      }

  -- Nothing is needed so far, and the container has not been changed.
  abbrev pub Untouched : Repairing → Type 0
  Untouched s = Done host false [] s × (did copy_case s.steps ≡ false)

  stop-Untouched :
      (active : List String)
      → Triple
          (λ s. Untouched s)
          (do_step host (stop_services active))
          (λ _ s. Untouched s)
          (λ _ s. Failed host s)
  stop-Untouched active =
      step_Triple host (stop_services active) (λ s h. ((((tt, h.0.0.0), tt), h.0.1), h.1))
        (λ s h. ((tt, h.0.0.0), λ c. absurd (cc (c, h.0.1))))

  pub change-IsChecked :
      (active : List String)
      → Triple
          (λ s. Untouched s)
          (change host active)
          (λ counts s. Done host true success s × IsChecked host counts)
          (λ _ s. Failed host s)
  change-IsChecked active =
      unfold change in
      Triple-bind _ _ (λ _ s. Untouched s)
        (Triple-when (not (no_names active)) _ (λ _. stop-Untouched active) (λ s _ h. h))
        λ _.
          Triple-bind _ _
            (λ counts s.
              Untouched s
              × ((t : Repairing) × (Untouched t × (host.package_counts t.steps ≡ ok counts))))
            (asked_Triple host host.package_counts (λ s h. raised [] s h.0))
            λ counts.
              Triple-assume _ (λ s h. h.1)
                λ first.
                  Triple-weaken _ (λ s h. h.0.0) (λ a s h. h) (λ e s h. h)
                    (Triple-bind _ _ (λ _ s. Done host false (stop_database ∷ []) s)
                      (step_before host stop_database [] (λ t h. tt))
                      λ _.
                        Triple-bind _ _ (λ _ s. Done host false (stop_database ∷ []) s)
                          (Triple-weaken _ (λ s h. h) (λ _ s h. h.0) (λ e s h. h)
                            (asked_Triple host host.is_running (raised (stop_database ∷ []))))
                          λ running.
                            Triple-bind _ _ (λ _ s. Done host false (stop_database ∷ []) s)
                              (Triple-refuse _ _ (λ s _ h. raised (stop_database ∷ []) s h)
                                (λ s _ h. h))
                              λ _.
                                Triple-bind _ _ (λ _ s. Done host false backup s) cold_backup-Done
                                  λ _.
                                    Triple-bind _ _ (λ _ s. Done host true backup s)
                                      (Triple-modify _ (λ s h. (h.0, refl)))
                                      λ _.
                                        apply-IsChecked counts
                                          (first.0.steps, (first.1.1, first.1.0.1)))
