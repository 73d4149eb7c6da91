-- ===== src/Updates/Worker/Order/Phases.antt =====
-- The phases of `install_pending` (src/cmnd_linux/updates.py) keep the order.
use Prim.Native.String.{◌++◌ as ◌<>◌}
use linux_cmnd.Prelude.{
  ◌≡◌, refl, ◌∙◌, String, Bool, true, false, List, [], ◌∷◌, arith, str_eq, ◌==◌, Bool-cases, inl,
  inr,
}
use linux_cmnd.Result.{Result, ok, err}
use linux_cmnd.Exec.Triple.{Triple, Triple-bind, Triple-refuse, Settles}
use linux_cmnd.Exec.Keeps.{Keeps, keeps_rules, refuse-Keeps, bind-Keeps}
use linux_cmnd.Updates.Release.{Release}
use linux_cmnd.Updates.Manifest.{Job}
use linux_cmnd.Updates.Host.Steps.{act_rule, command_rule}
use linux_cmnd.Updates.Host.{
  Host, Worker, Trace, Event, ran, dumped, ready, identity, write_status, complete, compress_dump,
  archive_configuration, publish_package, Command, stop_services, install_new, keep_baseline,
  installing, daemon_reload, start_services, restart_admin, copy_package, command, verifying,
  baseline_version, package_field, backing_up, Dump, exited, timed_out, unstarted,
}
use linux_cmnd.Updates.Worker.{
  check_identity, keep_current, back_up, install, publish, verify_release, same_identity,
  ready_result, check_ready, update, dump_result, dump_databases,
}
use linux_cmnd.Updates.Worker.Order.{
  is_identity, is_kept, is_archived, is_stopped, is_dumped, is_compressed, is_published, prepared,
  ready_now, Ordered, Seen, Seen-cons, Seen-new, Keeping, Raised, Plain, act_keeps, act_shows,
  command_keeps, command_shows, act_stays, ask_stays, fetch_releases_stays, download_stays, silent,
}

dump_settles :
    (host : Host) (kinds : List (Event → Bool)) (d : Dump) (w : Worker)
    → Keeping kinds w
    → Settles
        (λ _. Keeping (is_dumped ∷ kinds))
        Raised
        (dump_result host d w).0
        (dump_result host d w).1
dump_settles host kinds timed_out w s = (tt, s.ordered)
dump_settles host kinds (unstarted e) w s = (tt, s.ordered)
dump_settles host kinds (exited code) w s = elim (Bool-cases (code == 0)) [
  | inl zero ↦ rw zero (Seen-new kinds is_dumped (dumped true) w.trace tt refl s)
  | inr other ↦ rw other (tt, s.ordered)
]

module _ (host : Host) where
  dump_order :
      (kinds : List (Event → Bool))
      → Triple (Keeping kinds) (dump_databases host) (λ _. Keeping (is_dumped ∷ kinds)) Raised
  unfolding dump_databases
  dump_order kinds = record { run = λ w s. dump_settles host kinds (host.mysqldump w.trace) w s }

  keep_current_order :
      (strip : String → String)
      → Triple
          (Keeping (is_identity ∷ []))
          (keep_current host strip)
          (λ _. Keeping (is_archived ∷ is_kept ∷ is_identity ∷ []))
          Raised
  unfolding keep_current
  keep_current_order strip =
      Triple-bind _ _ _ (silent host _ _ (record { kept = λ w h. h })) λ present.
        Triple-bind _ _ _ (silent host _ _ (refuse-Keeps _ _)) λ _.
          Triple-bind _ _ _ (command_keeps host _ baseline_version (λ b t. tt)) λ version.
            Triple-bind _ _ _ (silent host _ _ (refuse-Keeps _ _)) λ _.
              Triple-bind _ _ _ (command_shows host _ is_kept keep_baseline (λ b t. tt) refl)
                λ _. act_shows host _ is_archived archive_configuration (λ b t. tt) refl

  verify_release_order : (job : Job) → Keeps (Keeping []) (verify_release host job)
  unfolding verify_release
  verify_release_order job =
      bind-Keeps _ _ (act_stays host _ (write_status (verifying job.version)) (λ b t. tt)) λ _.
        search (keeps_rules, ask_stays host, fetch_releases_stays host, download_stays host) depth
          40

  same_identity_settles :
      (b : Bool) (w : Worker)
      → Keeping [] w
      → Settles
          (λ _. Keeping (is_identity ∷ []))
          Raised
          (same_identity host b w).0
          (same_identity host b w).1
  same_identity_settles true w s = Seen-new [] is_identity (identity true) w.trace tt refl s
  same_identity_settles false w s = s.ordered

  check_identity_order :
      (r : Release)
      → Triple (Keeping []) (check_identity host r) (λ _. Keeping (is_identity ∷ [])) Raised
  unfolding check_identity
  check_identity_order r =
      Triple-bind _ _ _ (command_keeps host _ package_field (λ b t. tt)) λ name.
        Triple-bind _ _ _ (command_keeps host _ package_field (λ b t. tt)) λ architecture.
          Triple-bind _ _ _ (command_keeps host _ package_field (λ b t. tt)) λ version. record {
            run = λ w s. same_identity_settles (str_eq (name <> (architecture <> version)) _) w s;
          }

  back_up_order :
      (job : Job)
      → Triple
          (Keeping (is_archived ∷ is_kept ∷ is_identity ∷ []))
          (back_up host job)
          (λ _.
            Keeping
              (is_compressed ∷ is_dumped ∷ is_stopped ∷ is_archived ∷ is_kept ∷ is_identity ∷ []))
          Raised
  unfolding back_up
  back_up_order job =
      Triple-bind _ _ _ (act_keeps host _ (write_status (backing_up job.version)) (λ b t. tt)) λ _.
        Triple-bind _ _ _ (silent host _ _ (record { kept = λ w h. h })) λ _.
          Triple-bind _ _ _ (command_shows host _ is_stopped stop_services (λ b t. tt) refl) λ _.
            Triple-bind _ _ _ (silent host _ _ (ask_stays host _ _)) λ free.
              Triple-bind _ _ _ (silent host _ _ (refuse-Keeps _ _)) λ _.
                Triple-bind _ _ _ (dump_order _) λ _.
                  Triple-bind _ _ _ (act_shows host _ is_compressed compress_dump (λ b t. tt) refl)
                    λ _. silent host _ _ (record { kept = λ w h. h })

abbrev Prepared : Trace → Type 0
Prepared = Seen (is_compressed ∷ is_dumped ∷ is_stopped ∷ is_archived ∷ is_kept ∷ is_identity ∷ [])

prepared-Prepared : (t : Trace) → Prepared t → prepared t ≡ true
prepared-Prepared t s = ground (arith, s.happened)

-- The host has answered that it is ready, and nothing was installed since.
record Ready (kinds : List (Event → Bool)) (t : Trace) : Type 0 where
  seen : Seen kinds t
  now : ready_now t ≡ true

abbrev Answered : Bool → Worker → Type 0
Answered a w = Seen [] w.trace × (ready_now w.trace ≡ a)

module _ (host : Host) where
  install_new_order :
      Triple (λ w. Prepared w.trace) (command host install_new) (λ _. Keeping []) Raised
  install_new_order =
      command_rule host Prepared (Seen []) Ordered install_new
        (λ t s. record { ordered = (prepared-Prepared t s, s.ordered); happened = tt })
        (λ t s. (prepared-Prepared t s, s.ordered))
        (λ t b s. (tt, (prepared-Prepared t s, s.ordered)))

  answer_settles :
      (r : Result Bool) (w : Worker)
      → Keeping [] w
      → Settles Answered Raised (ready_result host r w).0 (ready_result host r w).1
  answer_settles (ok answer) w s = (Seen-cons [] (ready answer) w.trace tt s, refl)
  answer_settles (err e) w s = s.ordered

  check_ready_order : Triple (Keeping []) (check_ready host) Answered Raised
  unfolding check_ready
  check_ready_order = record { run = λ w s. answer_settles (host.wait_ready w.trace) w s }

  install_order :
      (job : Job)
      → Triple (λ w. Prepared w.trace) (install host job) (λ _ w. Ready [] w.trace) Raised
  unfolding install
  install_order job =
      Triple-bind _ _ _ (act_keeps host _ (write_status (installing job.version)) (λ b t. tt)) λ _.
        Triple-bind _ _ _ (silent host _ _ (record { kept = λ w h. h })) λ _.
          Triple-bind _ _ _ install_new_order λ _.
            Triple-bind _ _ _ (command_keeps host _ daemon_reload (λ b t. tt)) λ _.
              Triple-bind _ _ _ (command_keeps host _ start_services (λ b t. tt)) λ _.
                Triple-bind _ _ _ check_ready_order λ verified.
                  Triple-refuse _ _ (λ w no h. h.0.ordered)
                    (λ w no h. record { seen = h.0; now = ground arith })

  publish_order :
      (job : Job) → Triple (λ w. Ready [] w.trace) (publish host job) (λ _. Keeping []) Raised
  unfolding publish
  publish_order job = Triple-bind _ _ _ (ready_command restart_admin (λ b t. tt) (λ b t. refl)) λ _.
      Triple-bind _ _ _ (ready_command copy_package (λ b t. tt) (λ b t. refl)) λ _.
        Triple-bind _ _ _
          (act_rule host (Ready []) (Ready (is_published ∷ [])) Ordered publish_package
            (λ t s. record { seen = Seen-new [] is_published _ t s.now refl s.seen; now = s.now })
            (λ t s. (s.now, s.seen.ordered)))
          λ _.
            act_rule host (Ready (is_published ∷ [])) (Seen []) Ordered
              (write_status (complete job.version))
              (λ t s. record {
                ordered = ((s.seen.happened.0, s.now), s.seen.ordered);
                happened = tt;
              })
              (λ t s. ((s.seen.happened.0, s.now), s.seen.ordered))
    where
      ready_command :
          (c : Command)
          → Plain (ran c)
          → ((b : Bool) (t : Trace) → ready_now (ran c b ∷ t) ≡ ready_now t)
          → Triple (λ w. Ready [] w.trace) (command host c) (λ _ w. Ready [] w.trace) Raised
      ready_command c plain still =
          command_rule host (Ready []) (Ready []) Ordered c
            (λ t s. record {
              seen = Seen-cons [] _ t (plain true t) s.seen;
              now = still true t ∙ s.now;
            })
            (λ t s. (plain false t, s.seen.ordered))
            (λ t b s. (tt, (plain false t, s.seen.ordered)))

  pub update_order :
      (strip : String → String) (job : Job)
      → Triple (Keeping []) (update host strip job) (λ _. Keeping []) Raised
  unfolding update
  update_order strip job = Triple-bind _ _ _ (silent host _ _ (verify_release_order host job)) λ r.
      Triple-bind _ _ _ (silent host _ _ (download_stays host _ _ _ _)) λ _.
        Triple-bind _ _ _ (check_identity_order host r) λ _.
          Triple-bind _ _ _ (keep_current_order host strip) λ _.
            Triple-bind _ _ _ (back_up_order host job)
              λ _. Triple-bind _ _ _ (install_order job) λ _. publish_order job
