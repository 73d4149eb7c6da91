-- ===== src/Updates/Host/Steps.antt =====
-- Rules for the steps of the worker, over predicates of what was done.
use linux_cmnd.Prelude.{
  ◌≡◌, refl, sym, subst, ap, ℕ, String, Bool, true, false, ◌∷◌, arith, ◌==◌, Bool-cases, inl, inr,
}
use linux_cmnd.Result.{Result, ok, err, is_ok}
use linux_cmnd.Exec.{pure, throw, resume, ◌>>=◌}
use linux_cmnd.Exec.Triple.{Triple, Settles}
use linux_cmnd.Exec.Keeps.{Keeps}
use linux_cmnd.Updates.Release.{Asset}
use linux_cmnd.Updates.Host.{
  Host, Worker, Trace, acted, ran, Act, log_error, Command, act, command, ask, fetch_releases,
  download, check_exit, exit_zero, note, command_failed,
}

module _ (host : Host) where
  act_settles :
      (Q R : Trace → Type 0) (a : Act) (r : Result (Unit {0})) (t : Trace)
      → Q (acted a true ∷ t)
      → R (acted a false ∷ t)
      → (w : Worker) → w.trace ≡ acted a (is_ok r) ∷ t
      → Settles (λ _ w. Q w.trace) (λ _ w. R w.trace) r w
  act_settles Q R a (ok u) t q r w e = subst Q (sym e) q
  act_settles Q R a (err x) t q r w e = subst R (sym e) r

  pub act_rule :
      (P Q R : Trace → Type 0) (a : Act)
      → ((t : Trace) → P t → Q (acted a true ∷ t))
      → ((t : Trace) → P t → R (acted a false ∷ t))
      → Triple (λ w. P w.trace) (act host a) (λ _ w. Q w.trace) (λ _ w. R w.trace)
  unfolding act
  act_rule P Q R a q r = record {
    run = λ w h. act_settles Q R a (host.act w.trace a) w.trace (q w.trace h) (r w.trace h) _ refl;
  }

  log_settles :
      (Q R : Trace → Type 0) (r : Result (Unit {0})) (w : Worker)
      → ((b : Bool) → R (acted log_error b ∷ w.trace))
      → let (x, v) =
          resume {B = String} r (λ _. throw command_failed) (note (acted log_error (is_ok r)) w) in
        Settles (λ _ w. Q w.trace) (λ _ w. R w.trace) x v
  unfolding throw
  log_settles Q R (ok u) w l = l true
  log_settles Q R (err e) w l = l false

  exit_settles :
      (Q R : Trace → Type 0) (c : Command) (x : Result (ℕ × String)) (t : Trace)
      → Q (ran c true ∷ t)
      → R (ran c false ∷ t)
      → ((b : Bool) → R (acted log_error b ∷ ran c false ∷ t))
      → (w : Worker) → w.trace ≡ ran c (exit_zero host x) ∷ t
      → Settles
          (λ _ w. Q w.trace)
          (λ _ w. R w.trace)
          (check_exit host x w).0
          (check_exit host x w).1
  unfolding pure throw act ◌>>=◌
  exit_settles Q R c (err e) t q r l w same = subst R (sym same) r
  exit_settles Q R c (ok (code, output)) t q r l w same = elim (Bool-cases (code == 0)) [
    | inl zero ↦ rw zero (subst Q (sym (rw zero at same)) q)
    | inr other ↦ rw other (
        log_settles Q R (host.act w.trace log_error) w
          (λ b. subst R (ap (λ u. acted log_error b ∷ u) (sym (rw other at same))) (l b)))
  ]

  pub command_rule :
      (P Q R : Trace → Type 0) (c : Command)
      → ((t : Trace) → P t → Q (ran c true ∷ t))
      → ((t : Trace) → P t → R (ran c false ∷ t))
      → ((t : Trace) (b : Bool) → P t → R (acted log_error b ∷ ran c false ∷ t))
      → Triple (λ w. P w.trace) (command host c) (λ _ w. Q w.trace) (λ _ w. R w.trace)
  unfolding command
  command_rule P Q R c q r l = record {
    run = λ w h.
        exit_settles Q R c (host.run w.trace c) w.trace (q w.trace h) (r w.trace h)
          (λ b. l w.trace b h) _ refl;
  }

  -- These leave no event.
  pub ask-Keeps :
      {A : Type 0} (P : Trace → Type 0) (question : Trace → Result A)
      → Keeps (λ w. P w.trace) (ask host question)
  unfolding ask
  ask-Keeps P question = record { kept = λ w h. h }

  pub fetch_releases-Keeps : (P : Trace → Type 0) → Keeps (λ w. P w.trace) (fetch_releases host)
  unfolding fetch_releases
  fetch_releases-Keeps P = record { kept = λ w h. ground arith }

  pub download-Keeps :
      (P : Trace → Type 0) (asset : Asset) (path : String) (limit : ℕ)
      → Keeps (λ w. P w.trace) (download host asset path limit)
  unfolding download
  download-Keeps P asset path limit = record { kept = λ w h. ground arith }
