-- ===== src/Egress/Apply.antt =====
-- `apply_policy` of src/cmnd_linux/egress.py. `runner` is `subprocess.run`; what it is asked to run
-- is kept with what it returned, the newest first.
pub mod Enforced
pub mod Sealed
use linux_cmnd.Prelude.{
  ℕ, String, Bool, true, false, not, ◌&&◌, ◌||◌, List, [], ◌∷◌, ◌==◌, if◌then◌else◌,
}
use linux_cmnd.Prelude.Chars.{Text, codes, contains}
use linux_cmnd.Result.{Error, Result, ok, err, value_error, runtime_error, permission_error}
use linux_cmnd.Exec.{Exec, pure, lift, ◌>>=◌, ◌>>◌, refuse, when}
use linux_cmnd.Json.{ℤ}
use linux_cmnd.Config.Types.{IpLibrary}
use linux_cmnd.Egress.Policy.{EgressPolicy, marker, validate, render_rules}

-- `iptables` or `ip6tables`
pub data Family : Type 0 where
  v4 v6 : Family

abbrev pub version_of : Family → ℕ
version_of v4 = 4
version_of v6 = 6

-- `-S chain`, `-restore` with its input, `-C` and `-I` for a UID
pub data Command : Type 0 where
  list_chain : Family → Command
  restore : Family → String → Command
  check attach : Family → ℤ → Command

pub record Completed : Type 0 where
  pub returncode : ℕ
  pub stdout : Text
  pub stderr : Text

abbrev pub Trace : Type 0
Trace = List (Command × Result Completed)

abbrev pub has_marker : Completed → Bool
has_marker p = contains (codes marker) p.stdout

abbrev pub is_absent : Completed → Bool
is_absent p =
    contains (codes "No chain/target/match") p.stderr || contains (codes "does not exist") p.stderr

abbrev pub unknown_chain : Error
unknown_chain = value_error "existing egress chain is not managed by this module"

abbrev pub not_inspected : Error
not_inspected = runtime_error "unable to inspect egress chain; no policy changes made"

-- The tests on the first listing of the chain.
unfoldable pub inspected : Completed → Result (Unit {0})
inspected probe =
    if probe.returncode == 0
    then (if has_marker probe then ok tt else err unknown_chain)
    else (if is_absent probe then ok tt else err not_inspected)

module _ (runner : Trace → Command → Result Completed) where
  unfoldable pub run : Command → Exec Trace Completed
  run c t = let r = runner t c in (r, (c, r) ∷ t)

  unfoldable pub inspect : Family → Exec Trace (Unit {0})
  unfolding inspected
  inspect family = do probe ← run (list_chain family); lift (inspected probe)

  -- The UID is attached where the check does not find it.
  unfoldable pub attach_uid : Family → ℤ → Exec Trace (Unit {0})
  attach_uid family uid = do
    probe ← run (check family uid)
    when (not (probe.returncode == 0)) (do
      result ← run (attach family uid)
      refuse (not (result.returncode == 0))
          (runtime_error "egress attachment failed; application startup must remain blocked"))

  unfoldable pub verify_uid : Family → ℤ → Exec Trace (Unit {0})
  verify_uid family uid = do
    found ← run (check family uid)
    refuse (not (found.returncode == 0)) (runtime_error "egress UID verification failed")

  -- `for uid in uids:`
  unfoldable pub each : (ℤ → Exec Trace (Unit {0})) → List ℤ → Exec Trace (Unit {0})
  each action [] = pure tt
  each action (uid ∷ rest) = do action uid; each action rest

  -- One round of the loop over the families.
  unfoldable pub activate : List ℤ → Family → String → Exec Trace (Unit {0})
  unfolding attach_uid verify_uid each
  activate uids family rules = do
    restored ← run (restore family rules)
    refuse (not (restored.returncode == 0))
        (runtime_error "egress chain setup failed; application startup must remain blocked")
    each (attach_uid family) uids
    final ← run (list_chain family)
    refuse (not (final.returncode == 0) || not (has_marker final))
        (runtime_error "egress rule verification failed")
    each (verify_uid family) uids

  module _ (lib : IpLibrary) (str_int : ℤ → String) where
    -- The report holds the arguments; `root` is the test on the platform and the user.
    unfoldable pub apply_policy : EgressPolicy → (execute root : Bool) → Exec Trace (Unit {0})
    unfolding inspect activate
    apply_policy policy execute root = do
      lift (validate lib policy)
      rules4 ← lift (render_rules lib str_int policy 4)
      rules6 ← lift (render_rules lib str_int policy 6)
      when execute (do
        refuse (not root) (permission_error "egress activation requires Linux root")
        inspect v4
        inspect v6
        activate policy.uids v4 rules4
        activate policy.uids v6 rules6)
