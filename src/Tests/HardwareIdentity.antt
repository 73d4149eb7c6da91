-- ===== src/Tests/HardwareIdentity.antt =====
-- The theorem on src/cmnd_linux/hardware_identity.py for a file that only root can read.
use linux_cmnd.Prelude.{◌≡◌, refl, true, some, []}
use linux_cmnd.Prelude.Chars.{codes}
use linux_cmnd.Result.{ok}
use linux_cmnd.Exec.Triple.{Settles}
use linux_cmnd.HardwareIdentity.{FileStat, SerialFile, HardwareFacts, available, grant_access}
use linux_cmnd.HardwareIdentity.Granted.{IsGranted, IsRestored, grant_access-IsGranted}

abbrev serial_facts : HardwareFacts
serial_facts = record {
  root = true;
  group = ok 997;
  resolved = ok (some "/sys/devices/virtual/dmi/id/board_serial");
  is_regular = true;
  value = some (codes "BSN12345");
  lower = λ t. t;
  answers = λ calls c. ok tt;
}

abbrev root_only : FileStat
root_only = record { uid = 0; gid = 0; permissions = 256 }

abbrev serial_file : SerialFile
serial_file = record { stat = root_only; calls = [] }

opened : (grant_access serial_facts true serial_file).0 ≡ ok available
unfolding grant_access linux_cmnd.Exec.◌>>=◌ linux_cmnd.Exec.pure linux_cmnd.Exec.lift
    linux_cmnd.Exec.get linux_cmnd.Exec.catch
opened = refl

grant_access-IsGranted_example :
    Settles
      (λ a t. IsGranted serial_facts root_only a t)
      (λ _ t. IsRestored root_only t)
      (grant_access serial_facts true serial_file).0
      (grant_access serial_facts true serial_file).1
grant_access-IsGranted_example = grant_access-IsGranted serial_facts root_only true serial_file refl
