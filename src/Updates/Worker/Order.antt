-- ===== src/Updates/Worker/Order.antt =====
-- What has happened before the new package is installed, published or reported complete.
pub mod Phases
pub mod Run
use Prim.Native.String.{◌++◌ as ◌<>◌}
use linux_cmnd.Prelude.{
  ℕ, ◌≡◌, refl, ◌∙◌, String, Bool, true, false, not, ◌&&◌, ◌||◌, Option, none, some, List, [], ◌∷◌,
  arith, any, All, str_eq, ◌==◌, Bool-cases, inl, inr, if◌then◌else◌,
}
use linux_cmnd.Result.{Error, Result, ok, err}
use linux_cmnd.Exec.{Exec, pure, throw, lift, catch, ◌>>=◌, ◌>>◌, refuse, when}
use linux_cmnd.Exec.Triple.{Triple, Triple-bind, Triple-refuse, Settles}
use linux_cmnd.Exec.Keeps.{Keeps, Keeps-Triple, keeps_rules, refuse-Keeps, bind-Keeps}
use linux_cmnd.Updates.Release.{Asset, Release}
use linux_cmnd.Updates.Manifest.{Job}
use linux_cmnd.Updates.Host.Steps.{
  act_rule, command_rule, ask-Keeps, fetch_releases-Keeps, download-Keeps,
}
use linux_cmnd.Updates.Host.{
  Host, Worker, Trace, Event, acted, ran, dumped, ready, identity, lock_closed, Act, write_status,
  complete, compress_dump, archive_configuration, publish_package, Command, stop_services,
  install_new, keep_baseline, installing, daemon_reload, start_services, restart_admin,
  copy_package, act, command, ask, fetch_releases, download, verifying, baseline_version,
  package_field, backing_up, Dump, exited, timed_out, unstarted,
}
use linux_cmnd.Updates.Worker.{
  check_identity, keep_current, back_up, install, publish, verify_release, same_identity,
  ready_result, check_ready, update, dump_result, dump_databases,
}

or_left : (a b : Bool) → a ≡ true → (a || b) ≡ true
or_left a b h = ground arith

or_right : (a b : Bool) → b ≡ true → (a || b) ≡ true
or_right a b h = ground arith

abbrev pub is_identity : Event → Bool
is_identity (identity b) = b
is_identity _ = false

abbrev pub is_kept : Event → Bool
is_kept (ran keep_baseline b) = b
is_kept _ = false

abbrev pub is_archived : Event → Bool
is_archived (acted archive_configuration b) = b
is_archived _ = false

abbrev pub is_stopped : Event → Bool
is_stopped (ran stop_services b) = b
is_stopped _ = false

abbrev pub is_dumped : Event → Bool
is_dumped (dumped b) = b
is_dumped _ = false

abbrev pub is_compressed : Event → Bool
is_compressed (acted compress_dump b) = b
is_compressed _ = false

abbrev pub is_published : Event → Bool
is_published (acted publish_package b) = b
is_published _ = false

-- All that has to succeed before the package may be installed.
abbrev pub prepared : Trace → Bool
prepared t =
    any is_identity t
    && any is_kept t
    && any is_archived t
    && any is_stopped t
    && any is_dumped t
    && any is_compressed t

-- The last answer about readiness since the package was installed is that it is ready.
abbrev pub ready_now : Trace → Bool
ready_now [] = false
ready_now (ready b ∷ t) = b
ready_now (ran install_new b ∷ t) = false
ready_now (_ ∷ t) = ready_now t

abbrev pub Allowed : Event → Trace → Type 0
Allowed (ran install_new b) t = prepared t ≡ true
Allowed (acted publish_package b) t = ready_now t ≡ true
Allowed (acted (write_status (complete v)) b) t = (any is_published t ≡ true) × (ready_now t ≡ true)
Allowed _ t = Unit

-- Each event was allowed by what stood before it.
abbrev pub Ordered : Trace → Type 0
Ordered [] = Unit
Ordered (e ∷ t) = Allowed e t × Ordered t

-- The knowledge that a phase collects: the kinds of events that have succeeded.
pub record Seen (kinds : List (Event → Bool)) (t : Trace) : Type 0 where
  pub ordered : Ordered t
  pub happened : All (λ k. any k t ≡ true) kinds

happened-cons :
    (kinds : List (Event → Bool)) (e : Event) (t : Trace)
    → All (λ k. any k t ≡ true) kinds
    → All (λ k. any k (e ∷ t) ≡ true) kinds
happened-cons [] e t h = tt
happened-cons (k ∷ kinds) e t (x, h) = (or_right (k e) (any k t) x, happened-cons kinds e t h)

pub Seen-cons :
    (kinds : List (Event → Bool)) (e : Event) (t : Trace)
    → Allowed e t
    → Seen kinds t
    → Seen kinds (e ∷ t)
Seen-cons kinds e t a s = record {
  ordered = (a, s.ordered);
  happened = happened-cons kinds e t s.happened;
}

pub Seen-new :
    (kinds : List (Event → Bool)) (k : Event → Bool) (e : Event) (t : Trace)
    → Allowed e t
    → k e ≡ true
    → Seen kinds t
    → Seen (k ∷ kinds) (e ∷ t)
Seen-new kinds k e t a x s = record {
  ordered = (a, s.ordered);
  happened = (or_left (k e) (any k t) x, happened-cons kinds e t s.happened);
}

-- The state of a worker whose trace is ordered, after a return and after an exception.
abbrev pub Keeping : List (Event → Bool) → Worker → Type 0
Keeping kinds w = Seen kinds w.trace

abbrev pub Raised : Error → Worker → Type 0
Raised e w = Ordered w.trace

-- An event of these kinds is allowed everywhere.
abbrev pub Plain : (Bool → Event) → Type 0
Plain e = (b : Bool) (t : Trace) → Allowed (e b) t

module _ (host : Host) (kinds : List (Event → Bool)) where
  pub act_keeps :
      (a : Act) → Plain (acted a) → Triple (Keeping kinds) (act host a) (λ _. Keeping kinds) Raised
  act_keeps a plain =
      act_rule host (Seen kinds) (Seen kinds) Ordered a
        (λ t h. Seen-cons kinds _ t (plain true t) h) (λ t h. (plain false t, h.ordered))

  pub act_shows :
      (k : Event → Bool) (a : Act)
      → Plain (acted a)
      → k (acted a true) ≡ true
      → Triple (Keeping kinds) (act host a) (λ _. Keeping (k ∷ kinds)) Raised
  act_shows k a plain x =
      act_rule host (Seen kinds) (Seen (k ∷ kinds)) Ordered a
        (λ t h. Seen-new kinds k _ t (plain true t) x h) (λ t h. (plain false t, h.ordered))

  pub command_keeps :
      (c : Command)
      → Plain (ran c)
      → Triple (Keeping kinds) (command host c) (λ _. Keeping kinds) Raised
  command_keeps c plain =
      command_rule host (Seen kinds) (Seen kinds) Ordered c
        (λ t h. Seen-cons kinds _ t (plain true t) h) (λ t h. (plain false t, h.ordered))
        (λ t b h. (tt, (plain false t, h.ordered)))

  pub command_shows :
      (k : Event → Bool) (c : Command)
      → Plain (ran c)
      → k (ran c true) ≡ true
      → Triple (Keeping kinds) (command host c) (λ _. Keeping (k ∷ kinds)) Raised
  command_shows k c plain x =
      command_rule host (Seen kinds) (Seen (k ∷ kinds)) Ordered c
        (λ t h. Seen-new kinds k _ t (plain true t) x h) (λ t h. (plain false t, h.ordered))
        (λ t b h. (tt, (plain false t, h.ordered)))

  pub act_stays : (a : Act) → Plain (acted a) → Keeps (Keeping kinds) (act host a)
  unfolding act
  act_stays a plain = record { kept = λ w h. Seen-cons kinds _ w.trace (plain _ w.trace) h }

  pub ask_stays :
      {A : Type 0} (question : Trace → Result A) → Keeps (Keeping kinds) (ask host question)
  ask_stays question = ask-Keeps host (Seen kinds) question

  pub fetch_releases_stays : Keeps (Keeping kinds) (fetch_releases host)
  fetch_releases_stays = fetch_releases-Keeps host (Seen kinds)

  pub download_stays :
      (asset : Asset) (path : String) (limit : ℕ)
      → Keeps (Keeping kinds) (download host asset path limit)
  download_stays asset path limit = download-Keeps host (Seen kinds) asset path limit

  -- A step that leaves no event.
  pub silent :
      {A : Type 0} (m : Exec Worker A)
      → Keeps (Keeping kinds) m
      → Triple (Keeping kinds) m (λ _. Keeping kinds) Raised
  silent m km = Keeps-Triple m Raised (λ e w h. h.ordered) km
