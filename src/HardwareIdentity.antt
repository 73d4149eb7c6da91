-- ===== src/HardwareIdentity.antt =====
-- `usable_serial` and `grant_access` of src/cmnd_linux/hardware_identity.py. What is read of the host
-- is a record of facts. A call that changes the file is answered by all calls before it; one that
-- fails leaves the file as it is.
pub mod Granted
use linux_cmnd.Prelude.{
  ℕ, ◌/◌, ◌%◌, String, Bool, true, false, not, ◌&&◌, ◌||◌, Option, none, some, List, [], ◌∷◌, ltb,
  leb, ◌==◌, str_eq, any, length, if◌then◌else◌,
}
use linux_cmnd.Prelude.Chars.{Text, codes, text_eq}
use linux_cmnd.Result.{Error, Result, ok, err, value_error, permission_error, os_error}
use linux_cmnd.Exec.{Exec, pure, throw, lift, get, catch, ◌>>=◌, ◌>>◌, refuse, when}

abbrev pub placeholders : List String
placeholders =
    "unknown" ∷ "none" ∷ "not specified" ∷ "default string" ∷ "to be filled by o.e.m."
    ∷ "to be filled by oem" ∷ []

-- `value` is the decoded text without the white space around it, if it could be decoded.
unfoldable pub usable_serial : (lower : Text → Text) → Option Text → Bool
usable_serial lower none = false
usable_serial lower (some value) =
    leb 1 (length value)
    && leb (length value) 256
    && not (any (λ c. ltb c 32) value)
    && not (any (λ p. text_eq (lower value) (codes p)) placeholders)

-- What `stat` says of the owner, the group and the permissions.
pub record FileStat : Type 0 where
  pub uid : ℕ
  pub gid : ℕ
  pub permissions : ℕ

pub data FileCall : Type 0 where
  chown : (uid gid : ℕ) → FileCall
  chmod : (mode : ℕ) → FileCall

pub record SerialFile : Type 0 where
  pub stat : FileStat
  pub calls : List (FileCall × Bool)

pub record HardwareFacts : Type 0 where
  pub root : Bool
  pub group : Result ℕ
  pub resolved : Result (Option String)
  pub is_regular : Bool
  pub value : Option Text
  pub lower : Text → Text
  pub answers : List (FileCall × Bool) → FileCall → Result (Unit {0})

-- The reports of `grant_access`.
pub data Access : Type 0 where
  not_executed no_serial placeholder available : Access

abbrev pub changed : FileCall → FileStat → FileStat
changed (chown uid gid) s = record s { uid = uid; gid = gid }
changed (chmod mode) s = record s { permissions = mode }

-- `st_mode & stat.S_IROTH`
abbrev pub is_world_readable : FileStat → Bool
is_world_readable s = s.permissions / 4 % 2 == 1

abbrev pub after_call : FileCall → Result (Unit {0}) → SerialFile → Result (Unit {0}) × SerialFile
after_call c (ok u) f = (ok tt, record { stat = changed c f.stat; calls = (c, true) ∷ f.calls })
after_call c (err e) f = (err e, record { stat = f.stat; calls = (c, false) ∷ f.calls })

module _ (facts : HardwareFacts) where
  unfoldable pub call : FileCall → Exec SerialFile (Unit {0})
  call c f = after_call c (facts.answers f.calls c) f

  -- The `except OSError`: the calls raise nothing else.
  unfoldable pub restore_file : FileStat → Error → Exec SerialFile (Unit {0})
  unfolding call
  restore_file before e = do
    call (chown before.uid before.gid)
    call (chmod before.permissions)
    throw e

  -- 288 is 0o440.
  unfoldable pub permit_group : ℕ → FileStat → Exec SerialFile (Unit {0})
  unfolding call restore_file
  permit_group group before = catch (call (chown 0 group) >> call (chmod 288)) (restore_file before)

  abbrev pub grant_file : ℕ → Option String → Exec SerialFile Access
  grant_file group none = pure no_serial
  grant_file group (some path) = do
    refuse (not (str_eq path "/sys/devices/virtual/dmi/id/board_serial"))
        (value_error "Unexpected kernel DMI serial path")
    f ← get
    refuse (not facts.is_regular || not (f.stat.uid == 0))
        (value_error "Unexpected kernel DMI serial ownership/type")
    if usable_serial facts.lower facts.value
        then (do when (not (is_world_readable f.stat)) (permit_group group f.stat); pure available)
        else pure placeholder

  unfoldable pub grant_access : (execute : Bool) → Exec SerialFile Access
  unfolding permit_group usable_serial
  grant_access execute =
      if execute
      then (do
        refuse (not facts.root) (permission_error "Hardware identity access requires Linux root")
        group ← lift facts.group
        path ← lift facts.resolved
        grant_file group path)
      else pure not_executed
