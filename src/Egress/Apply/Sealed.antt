-- ===== src/Egress/Apply/Sealed.antt =====
-- What stands when `apply_policy` of src/cmnd_linux/egress.py returns.
use linux_cmnd.Prelude.{
  ◌≡◌, refl, String, Bool, true, false, not, ◌&&◌, ◌||◌, List, [], ◌∷◌, arith, ◌==◌, All, All-map,
}
use linux_cmnd.Result.{Result, ok, err}
use linux_cmnd.Exec.{Exec, ◌>>=◌}
use linux_cmnd.Exec.Triple.{Triple, Settles, Triple-bind, Triple-refuse, Triple-pure, Triple-weaken}
use linux_cmnd.Exec.Keeps.{Keeps, Triple-Keeping, bind-Keeps, refuse-Keeps}
use linux_cmnd.Json.{ℤ, pos, negsuc}
use linux_cmnd.Config.Types.{IpLibrary}
use linux_cmnd.Config.Load.{int_eq}
use linux_cmnd.Egress.Policy.{EgressPolicy}
use linux_cmnd.Egress.Apply.{
  Family, v4, v6, Command, list_chain, restore, check, attach, Completed, Trace, has_marker, run,
  verify_uid, each, activate, apply_policy,
}
use linux_cmnd.Egress.Apply.Enforced.{same_family, each-Keeps, run_rule, run_stays, activate-Keeps}

abbrev pub is_found : Result Completed → Bool
is_found (ok p) = p.returncode == 0
is_found (err e) = false

abbrev pub is_marked : Result Completed → Bool
is_marked (ok p) = (p.returncode == 0) && has_marker p
is_marked (err e) = false

-- Since the last change of the family's rules, the UID was found to be sent through the chain.
abbrev pub attached : Family → ℤ → Trace → Bool
attached family uid [] = false
attached family uid ((check other u, r) ∷ t) =
    (same_family other family && int_eq u uid && is_found r) || attached family uid t
attached family uid ((restore other rules, r) ∷ t) =
    not (same_family other family) && attached family uid t
attached family uid ((attach other u, r) ∷ t) =
    not (same_family other family) && attached family uid t
attached family uid (_ ∷ t) = attached family uid t

-- Since the last change of the family's rules, the final rule was found in the chain.
abbrev pub marked : Family → Trace → Bool
marked family [] = false
marked family ((list_chain other, r) ∷ t) =
    (same_family other family && is_marked r) || marked family t
marked family ((restore other rules, r) ∷ t) = not (same_family other family) && marked family t
marked family ((attach other u, r) ∷ t) = not (same_family other family) && marked family t
marked family (_ ∷ t) = marked family t

-- Since its last change a family has its final rule, and every UID is attached.
pub record Sealed (family : Family) (uids : List ℤ) (t : Trace) : Type 0 where
  pub reject : marked family t ≡ true
  pub all_attached : All (λ uid. attached family uid t ≡ true) uids

abbrev Anything : {A : Type 0} → A → Trace → Type 0
Anything a t = Unit

trivial_settles : {A : Type 0} (r : Result A) (t : Trace) → Settles (Anything {A = A}) Anything r t
trivial_settles (ok a) t = tt
trivial_settles (err e) t = tt

trivial : {A : Type 0} (m : Exec Trace A) → Triple (λ _. Unit) m (Anything {A = A}) Anything
trivial m = record { run = λ t _. trivial_settles (m t).0 (m t).1 }

int_eq_refl : (z : ℤ) → int_eq z z ≡ true
int_eq_refl (pos n) = ground arith
int_eq_refl (negsuc n) = ground arith

same_family_refl : (f : Family) → same_family f f ≡ true
same_family_refl v4 = refl
same_family_refl v6 = refl

pub record Marked (family : Family) (t : Trace) : Type 0 where
  pub holds : marked family t ≡ true

pub record Attached (family : Family) (uid : ℤ) (t : Trace) : Type 0 where
  pub holds : attached family uid t ≡ true

module _ (runner : Trace → Command → Result Completed) (family : Family) where
  check-Marked : (uid : ℤ) → Keeps (Marked family) (run runner (check family uid))
  check-Marked uid = run_stays runner _ _ λ t r m. record { holds = m.holds }

  check-Attached : (uid other : ℤ) → Keeps (Attached family other) (run runner (check family uid))
  check-Attached uid other =
      run_stays runner _ _ λ t r a. record { holds = ground (arith, a.holds) }

  verify-Attached : (uid other : ℤ) → Keeps (Attached family other) (verify_uid runner family uid)
  unfolding verify_uid
  verify-Attached uid other = bind-Keeps _ _ (check-Attached uid other) λ found. refuse-Keeps _ _

  found_attached :
      (uid : ℤ) (p : Completed) (t : Trace)
      → not (p.returncode == 0) ≡ false
      → attached family uid ((check family uid, ok p) ∷ t) ≡ true
  found_attached uid p t h = ground (arith, same_family_refl family, int_eq_refl uid)

  verify_rule :
      (uid : ℤ)
      → Triple
          (Marked family)
          (verify_uid runner family uid)
          (λ _ t. Marked family t × Attached family uid t)
          Anything
  unfolding verify_uid
  verify_rule uid =
      Triple-bind _ _
        (λ p t. Marked family t × (not (p.returncode == 0) ≡ false → Attached family uid t))
        (run_rule runner (Marked family) _ _ (check family uid)
          (λ t p m. (record { holds = m.holds }, λ h. record { holds = found_attached uid p t h }))
          (λ t e m. tt))
        (λ p. Triple-refuse _ _ (λ t bad h. tt) (λ t good h. (h.0, h.1 good)))

  each_seals :
      (uids : List ℤ)
      → Triple
          (Marked family)
          (each runner (verify_uid runner family) uids)
          (λ _ t. Sealed family uids t)
          Anything
  unfolding each
  each_seals [] = Triple-pure tt (λ t m. record { reject = m.holds; all_attached = tt })
  each_seals (uid ∷ rest) =
      let others = each_seals rest in
      Triple-bind _ _ (λ _ t. Marked family t × Attached family uid t) (verify_rule uid)
        λ _.
          Triple-weaken _ (λ t h. h)
            (λ a t h. record { reject = h.0.reject; all_attached = (h.1.holds, h.0.all_attached) })
            (λ e t h. tt)
            (Triple-Keeping _
              (each-Keeps runner (Attached family uid) _ rest (λ other. verify-Attached other uid))
              others)

  marked_now :
      (p : Completed) (t : Trace)
      → (not (p.returncode == 0) || not (has_marker p)) ≡ false
      → marked family ((list_chain family, ok p) ∷ t) ≡ true
  marked_now p t h = ground (arith, same_family_refl family)

  activate_seals :
      (uids : List ℤ) (rules : String)
      → Triple
          (λ _. Unit)
          (activate runner uids family rules)
          (λ _ t. Sealed family uids t)
          Anything
  unfolding activate
  activate_seals uids rules = Triple-bind _ _ Anything (trivial _) λ restored.
      Triple-bind _ _ Anything (trivial _) λ _. Triple-bind _ _ Anything (trivial _) λ _.
        Triple-bind _ _
          (λ p t. (not (p.returncode == 0) || not (has_marker p)) ≡ false → Marked family t)
          (run_rule runner (λ _. Unit) _ _ (list_chain family)
            (λ t p _ h. record { holds = marked_now p t h }) (λ t e _. tt))
          λ final.
            Triple-bind _ _ (λ _ t. Marked family t)
              (Triple-refuse _ _ (λ t bad h. tt) (λ t good h. h good)) λ _. each_seals uids

module _ (runner : Trace → Command → Result Completed) (uids : List ℤ) where
  -- A command on IPv6 leaves what was found for IPv4.
  keeps4 :
      (c : Command)
      → ((t : Trace) (r : Result Completed) → marked v4 t ≡ true → marked v4 ((c, r) ∷ t) ≡ true)
      → ((t : Trace) (r : Result Completed) (uid : ℤ)
          → attached v4 uid t ≡ true
          → attached v4 uid ((c, r) ∷ t) ≡ true)
      → Keeps (Sealed v4 uids) (run runner c)
  keeps4 c m a = run_stays runner _ _ λ t r s. record {
    reject = m t r s.reject;
    all_attached = All-map _ _ uids (a t r) s.all_attached;
  }

  activate_keeps4 : (rules : String) → Keeps (Sealed v4 uids) (activate runner uids v6 rules)
  activate_keeps4 rules =
      activate-Keeps runner (Sealed v4 uids) v6 (keeps4 _ (λ t r h. h) (λ t r uid h. h))
        (λ u. keeps4 _ (λ t r h. h) (λ t r uid h. h)) (λ s. keeps4 _ (λ t r h. h) (λ t r uid h. h))
        (λ u. keeps4 _ (λ t r h. h) (λ t r uid h. h)) uids rules

  -- Both families are sealed.
  pub record IsSealed (t : Trace) : Type 0 where
    pub sealed4 : Sealed v4 uids t
    pub sealed6 : Sealed v6 uids t

  both_seal :
      (rules4 rules6 : String)
      → Triple
          (λ _. Unit)
          (activate runner uids v4 rules4 >>= λ _. activate runner uids v6 rules6)
          (λ _ t. IsSealed t)
          Anything
  both_seal rules4 rules6 =
      Triple-bind _ _ (λ _ t. Unit × Sealed v4 uids t)
        (Triple-weaken _ (λ t h. h) (λ a t h. (tt, h)) (λ e t h. h)
          (activate_seals runner v4 uids rules4))
        λ _.
          Triple-weaken _ (λ t h. h) (λ a t h. record { sealed4 = h.1; sealed6 = h.0 }) (λ e t h. h)
            (Triple-Keeping _ (activate_keeps4 rules6) (activate_seals runner v6 uids rules6))

module _ (runner : Trace → Command → Result Completed) (lib : IpLibrary)
    (str_int : ℤ → String) where
  executed :
      (policy : EgressPolicy)
      → Triple
          (λ _. Unit)
          (apply_policy runner lib str_int policy true true)
          (λ _ t. IsSealed runner policy.uids t)
          Anything
  unfolding apply_policy
  executed policy = Triple-bind _ _ Anything (trivial _) λ _.
      Triple-bind _ _ Anything (trivial _) λ rules4. Triple-bind _ _ Anything (trivial _) λ rules6.
        Triple-bind _ _ Anything (trivial _) λ _.
          Triple-bind _ _ Anything (trivial _) λ _.
            Triple-bind _ _ Anything (trivial _) λ _. both_seal runner policy.uids rules4 rules6

  settled_ok :
      (P : Trace → Type 0) (r : Result (Unit {0})) (t : Trace)
      → Settles (λ _ u. P u) Anything r t
      → r ≡ ok tt
      → P t
  settled_ok P (ok a) t s h = s
  settled_ok P (err e) t s h = cc

  -- When `--execute` returns, each family of the host has its final reject rule in the chain, and
  -- each UID of the policy was found to be sent there, both since the last change of that family.
  pub apply_policy-IsSealed :
      (policy : EgressPolicy) (t : Trace)
      → (apply_policy runner lib str_int policy true true t).0 ≡ ok tt
      → IsSealed runner policy.uids (apply_policy runner lib str_int policy true true t).1
  apply_policy-IsSealed policy t h =
      settled_ok (IsSealed runner policy.uids) _ _ ((executed policy).run t tt) h
