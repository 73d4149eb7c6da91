-- ===== src/LicenseNetwork/Enable.antt =====
-- `enable` of src/cmnd_linux/license_network.py. The policy is applied by Egress, whose commands are
-- kept; the lock and the copy of the file of before are left out.
pub mod Enabled
use linux_cmnd.Prelude.{Bool, true, false, Option, none, some, if◌then◌else◌}
use linux_cmnd.Prelude.{String}
use linux_cmnd.Result.{Error, Result, ok, err}
use linux_cmnd.Exec.{Exec, pure, throw, lift, get, modify, catch, ◌>>=◌, ◌>>◌}
use linux_cmnd.Json.{ℤ}
use linux_cmnd.Config.Types.{IpLibrary}
use linux_cmnd.Egress.Policy.{EgressPolicy}
use linux_cmnd.Egress.Apply.{Command, Completed, Trace, apply_policy}
use linux_cmnd.LicenseNetwork.Resolve.{PolicyFile, HostFacts, check_host, new_file}

-- The policy file, and the commands of the firewall.
pub record Firewall : Type 0 where
  pub file : PolicyFile
  pub commands : Trace

module _ (runner : Trace → Command → Result Completed) (lib : IpLibrary) (str_int : ℤ → String)
    (facts : HostFacts) where
  unfoldable pub activate_policy : EgressPolicy → Exec Firewall (Unit {0})
  activate_policy policy s =
      let (r, t) = apply_policy runner lib str_int policy true facts.root s.commands in
      (r, record s { commands = t })

  -- The body of the `try`.
  unfoldable pub install : PolicyFile → Exec Firewall (Unit {0})
  unfolding activate_policy
  install file = do
    activate_policy file.policy
    lift facts.replaced
    modify (λ s. record s { file = file })

  -- The `except`: the policy of before is applied again.
  unfoldable pub reinstate : PolicyFile → Error → Exec Firewall (Unit {0})
  unfolding activate_policy
  reinstate prior e = activate_policy prior.policy >> throw e

  -- None is the report of a call that does not execute.
  unfoldable pub enable : (execute : Bool) → Exec Firewall (Option PolicyFile)
  unfolding install reinstate
  enable execute =
      if execute
      then (do
        lift (check_host lib facts)
        s ← get
        file ← lift (new_file lib facts s.file)
        catch (install file) (reinstate s.file)
        pure (some file))
      else pure none
