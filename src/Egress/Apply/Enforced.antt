-- ===== src/Egress/Apply/Enforced.antt =====
-- What stands when `apply_policy` of src/cmnd_linux/egress.py returns, and what it may have changed
-- when it raises.
use linux_cmnd.Prelude.{
  ◌≡◌, String, Bool, true, false, not, ◌&&◌, ◌||◌, List, [], ◌∷◌, arith, ◌==◌, if◌then◌else◌,
}
use linux_cmnd.Result.{Error, Result, ok, err}
use linux_cmnd.Prelude.Chars.{codes, contains}
use linux_cmnd.Exec.{Exec, lift}
use linux_cmnd.Exec.Triple.{
  Triple, Settles, Triple-bind, Triple-lift, Triple-refuse, Triple-when, Triple-weaken,
}
use linux_cmnd.Exec.Keeps.{Keeps, Keeps-Triple, bind-Keeps, refuse-Keeps, pure-Keeps, when-Keeps}
use linux_cmnd.Json.{ℤ}
use linux_cmnd.Config.Types.{IpLibrary}
use linux_cmnd.Egress.Policy.{EgressPolicy, marker}
use linux_cmnd.Egress.Apply.{
  Family, v4, v6, Command, list_chain, restore, check, attach, Completed, Trace, inspected, run,
  inspect, attach_uid, verify_uid, each, activate, apply_policy,
}

abbrev pub same_family : Family → Family → Bool
same_family v4 v4 = true
same_family v6 v6 = true
same_family _ _ = false

-- The listing worked and shows the marker of the program, or it failed since there is no chain.
abbrev pub is_clear : Result Completed → Bool
is_clear (ok probe) =
    if probe.returncode == 0
    then contains (codes marker) probe.stdout
    else (contains (codes "No chain/target/match") probe.stderr
        || contains (codes "does not exist") probe.stderr)
is_clear (err e) = false

-- The chain of a family was listed, and it was the program's own or was not there.
abbrev pub cleared : Family → Trace → Bool
cleared family [] = false
cleared family ((list_chain other, r) ∷ t) =
    (same_family other family && is_clear r) || cleared family t
cleared family (_ ∷ t) = cleared family t

-- A command that changes the rules of the host comes after both listings.
abbrev pub Allowed : Command → Trace → Type 0
Allowed (restore family rules) t = (cleared v4 t ≡ true) × (cleared v6 t ≡ true)
Allowed (attach family uid) t = (cleared v4 t ≡ true) × (cleared v6 t ≡ true)
Allowed _ t = Unit

abbrev pub Guarded : Trace → Type 0
Guarded [] = Unit
Guarded ((c, r) ∷ t) = Allowed c t × Guarded t

pub record Inspected (t : Trace) : Type 0 where
  pub guarded : Guarded t
  pub clear4 : cleared v4 t ≡ true
  pub clear6 : cleared v6 t ≡ true

-- One family was listed.
pub record Listed (t : Trace) : Type 0 where
  pub guarded : Guarded t
  pub clear4 : cleared v4 t ≡ true

pub record IsGuarded (t : Trace) : Type 0 where
  pub holds : Guarded t

module _ (runner : Trace → Command → Result Completed) where
  run_settles :
      (Q : Completed → Trace → Type 0) (R : Error → Trace → Type 0) (c : Command) (t : Trace)
      (r : Result Completed)
      → ((p : Completed) → Q p ((c, ok p) ∷ t))
      → ((e : Error) → R e ((c, err e) ∷ t))
      → Settles Q R r ((c, r) ∷ t)
  run_settles Q R c t (ok p) q k = q p
  run_settles Q R c t (err e) q k = k e

  pub run_rule :
      (P : Trace → Type 0) (Q : Completed → Trace → Type 0) (R : Error → Trace → Type 0)
      (c : Command)
      → ((t : Trace) (p : Completed) → P t → Q p ((c, ok p) ∷ t))
      → ((t : Trace) (e : Error) → P t → R e ((c, err e) ∷ t))
      → Triple P (run runner c) Q R
  unfolding run
  run_rule P Q R c q k = record {
    run = λ t h. run_settles Q R c t (runner t c) (λ p. q t p h) (λ e. k t e h);
  }

  pub run_stays :
      (P : Trace → Type 0) (c : Command)
      → ((t : Trace) (r : Result Completed) → P t → P ((c, r) ∷ t))
      → Keeps P (run runner c)
  unfolding run
  run_stays P c k = record { kept = λ t h. k t (runner t c) h }

  pub each-Keeps :
      (P : Trace → Type 0) (action : ℤ → Exec Trace (Unit {0})) (uids : List ℤ)
      → ((uid : ℤ) → Keeps P (action uid))
      → Keeps P (each runner action uids)
  unfolding each
  each-Keeps P action [] k = pure-Keeps tt
  each-Keeps P action (uid ∷ rest) k = bind-Keeps _ _ (k uid) λ _. each-Keeps P action rest k

  module _ (P : Trace → Type 0) (family : Family) (lists : Keeps P (run runner (list_chain family)))
      (checks : (uid : ℤ) → Keeps P (run runner (check family uid)))
      (restores : (rules : String) → Keeps P (run runner (restore family rules)))
      (attaches : (uid : ℤ) → Keeps P (run runner (attach family uid))) where
    attach_uid-Keeps : (uid : ℤ) → Keeps P (attach_uid runner family uid)
    unfolding attach_uid
    attach_uid-Keeps uid =
        bind-Keeps _ _ (checks uid)
          λ probe. when-Keeps _ _ (bind-Keeps _ _ (attaches uid) λ result. refuse-Keeps _ _)

    verify_uid-Keeps : (uid : ℤ) → Keeps P (verify_uid runner family uid)
    unfolding verify_uid
    verify_uid-Keeps uid = bind-Keeps _ _ (checks uid) λ found. refuse-Keeps _ _

    pub activate-Keeps :
        (uids : List ℤ) (rules : String) → Keeps P (activate runner uids family rules)
    unfolding activate
    activate-Keeps uids rules = bind-Keeps _ _ (restores rules) λ restored.
        bind-Keeps _ _ (refuse-Keeps _ _) λ _.
          bind-Keeps _ _ (each-Keeps P _ uids attach_uid-Keeps) λ _.
            bind-Keeps _ _ lists
              λ final. bind-Keeps _ _ (refuse-Keeps _ _) λ _. each-Keeps P _ uids verify_uid-Keeps

  -- Once both families were inspected, every command is allowed.
  allowed : (c : Command) (t : Trace) → Inspected t → Allowed c t
  allowed (restore family rules) t i = (i.clear4, i.clear6)
  allowed (attach family uid) t i = (i.clear4, i.clear6)
  allowed (list_chain family) t i = tt
  allowed (check family uid) t i = tt

  cleared-cons :
      (family : Family) (c : Command) (r : Result Completed) (t : Trace)
      → cleared family t ≡ true
      → cleared family ((c, r) ∷ t) ≡ true
  cleared-cons family (restore other rules) r t h = h
  cleared-cons family (attach other uid) r t h = h
  cleared-cons family (list_chain other) r t h = ground arith
  cleared-cons family (check other uid) r t h = h

  Inspected-stays : (c : Command) → Keeps Inspected (run runner c)
  Inspected-stays c = run_stays Inspected c λ t r i. record {
    guarded = (allowed c t i, i.guarded);
    clear4 = cleared-cons v4 c r t i.clear4;
    clear6 = cleared-cons v6 c r t i.clear6;
  }

  activate_stays :
      (uids : List ℤ) (family : Family) (rules : String)
      → Keeps Inspected (activate runner uids family rules)
  activate_stays uids family rules =
      activate-Keeps Inspected family (Inspected-stays _) (λ uid. Inspected-stays _)
        (λ s. Inspected-stays _) (λ uid. Inspected-stays _) uids rules

  clear_probe : (p : Completed) (u : Unit {0}) → inspected p ≡ ok u → is_clear (ok p) ≡ true
  unfolding inspected
  clear_probe p u h = ground arith

  -- A listing that passes the tests clears its family.
  inspect_clears :
      (P : Trace → Type 0) (Q : Trace → Type 0) (R : Trace → Type 0) (family : Family)
      → ((t : Trace) (r : Result Completed) → P t → R ((list_chain family, r) ∷ t))
      → ((t : Trace) (p : Completed)
          → is_clear (ok p) ≡ true
          → P t
          → Q ((list_chain family, ok p) ∷ t))
      → Triple P (inspect runner family) (λ _ t. Q t) (λ _ t. R t)
  unfolding inspect
  inspect_clears P Q R family left clears =
      Triple-bind _ _ (λ p t. R t × (is_clear (ok p) ≡ true → Q t))
        (run_rule P _ _ (list_chain family)
          (λ t p h. (left t (ok p) h, λ clear. clears t p clear h)) (λ t e h. left t (err e) h))
        (λ p.
          Triple-lift (inspected p) (λ t u good h. h.1 (clear_probe p u good)) (λ t e bad h. h.0))

  module _ (lib : IpLibrary) (str_int : ℤ → String) where
    -- However the commands answer, a run adds no change of the rules to the trace but behind a
    -- listing of the chain in both families, each of which returned 0 and shows the marker of the
    -- program, or failed with the message that there is no such chain.
    pub apply_policy-Guarded :
        (policy : EgressPolicy) (execute root : Bool) (t : Trace)
        → Guarded t
        → Guarded (apply_policy runner lib str_int policy execute root t).1
    unfolding apply_policy
    apply_policy-Guarded policy execute root t g =
        (either_way (apply_policy runner lib str_int policy execute root t).0 _
          (whole.run t (record { holds = g }))).holds
      where
        either_way :
            (r : Result (Unit {0})) (u : Trace)
            → Settles (λ _ t. IsGuarded t) (λ _ t. IsGuarded t) r u
            → IsGuarded u
        either_way (ok a) u h = h
        either_way (err e) u h = h

        weak : (t : Trace) → Inspected t → IsGuarded t
        weak t i = record { holds = i.guarded }

        stays :
            (m : Exec Trace (Unit {0}))
            → Keeps Inspected m
            → Triple Inspected m (λ _ t. Inspected t) (λ _ t. IsGuarded t)
        stays m k = Keeps-Triple m _ (λ e. weak) k

        lifted :
            {A : Type 0} (r : Result A)
            → Triple IsGuarded (lift r) (λ _ t. IsGuarded t) (λ _ t. IsGuarded t)
        lifted r = Triple-lift r (λ t a _ h. h) (λ t e _ h. h)

        listed4 : Triple IsGuarded (inspect runner v4) (λ _ t. Listed t) (λ _ t. IsGuarded t)
        listed4 =
            inspect_clears IsGuarded Listed IsGuarded v4 (λ t r g. record { holds = (tt, g.holds) })
              (λ t p clear g. record { guarded = (tt, g.holds); clear4 = ground arith })

        listed6 : Triple Listed (inspect runner v6) (λ _ t. Inspected t) (λ _ t. IsGuarded t)
        listed6 =
            inspect_clears Listed Inspected IsGuarded v6
              (λ t r l. record { holds = (tt, l.guarded) })
              (λ t p clear l. record {
                guarded = (tt, l.guarded);
                clear4 = l.clear4;
                clear6 = ground arith;
              })

        whole :
            Triple IsGuarded
              (apply_policy runner lib str_int policy execute root)
              (λ _ t. IsGuarded t)
              (λ _ t. IsGuarded t)
        whole =
            unfold apply_policy in
            Triple-bind _ _ _ (lifted _) λ _. Triple-bind _ _ _ (lifted _) λ rules4.
              Triple-bind _ _ _ (lifted _) λ rules6.
                Triple-when execute _
                  (λ _.
                    Triple-bind _ _ (λ _ t. IsGuarded t)
                      (Triple-refuse (not root) _ (λ t _ h. h) (λ t _ h. h))
                      λ _.
                        Triple-bind _ _ (λ _ t. Listed t) listed4
                          λ _.
                            Triple-bind _ _ (λ _ t. Inspected t) listed6
                              λ _.
                                Triple-bind _ _ (λ _ t. Inspected t)
                                  (stays _ (activate_stays policy.uids v4 rules4))
                                  λ _.
                                    Triple-weaken _ (λ t h. h) (λ a. weak) (λ e t h. h)
                                      (stays _ (activate_stays policy.uids v6 rules6)))
                  (λ t _ h. h)
