-- ===== src/CloneExport/Receive.antt =====
-- `ReceiveState` and the handler of `receive_handler` in src/cmnd_linux/clone_export.py, without the
-- lock: each access is a step of its own. A reader stands for the socket and the clock: what a read
-- returns and whether the deadline has passed is given by what has been read before.
pub mod Body
pub mod Steady
pub mod Bounded
pub mod Budget
use linux_cmnd.Prelude.{
  ℕ, zero, suc, ◌+◌, ◌-◌, ◌≤◌, String, Bool, true, false, not, ◌&&◌, ◌||◌, Option, none, some, List,
  [], ◌∷◌, ◌++◌, ltb, leb, ◌==◌, str_eq, length, if◌then◌else◌,
}
use linux_cmnd.Prelude.Chars.{Text}
use linux_cmnd.Result.{
  Error, Result, ok, err, value_error, config_error, update_error, key_error, type_error,
  attribute_error, runtime_error, permission_error, os_error, unsafe_archive, backup_error,
  restore_error, protocol_error,
}
use linux_cmnd.Exec.{Exec, pure, lift, get, modify, catch, ◌>>=◌, ◌>>◌, refuse}
use linux_cmnd.Json.{ℤ, pos, negsuc}
use linux_cmnd.Config.Types.{IpLibrary}
use linux_cmnd.Protocol.Requests.{parsed_address}
use linux_cmnd.Discovery.Targets.{same_address}
use linux_cmnd.CloneExport.Received.{Received, ReceiveLibrary, extract_files}

pub record ReceiveState : Type 0 where
  pub target : String
  pub path : String
  pub max_bytes : ℕ
  pub files : List Received
  pub failures : List String
  pub total_bytes : ℕ

pub record Reader : Type 0 where
  pub read1 : (limit : ℕ) → (before : Text) → Text
  pub late : Text → Bool

-- A request; `content_length` is its last header of that name as `int` reads it, and `answered`
-- says whether the answer could be sent.
pub record Upload : Type 0 where
  pub path : String
  pub client_address : String
  pub transfer_encoding : String
  pub content_lengths : List (Result ℤ)
  pub content_type : String
  pub reader : Reader
  pub answered : Result (Unit {0})

pub data Status : Type 0 where
  received rejected forbidden : Status

-- `type(error).__name__`
abbrev pub class_name : Error → String
class_name (value_error m) = "ValueError"
class_name (config_error m) = "ConfigError"
class_name (update_error m) = "UpdateError"
class_name (key_error m) = "KeyError"
class_name (type_error m) = "TypeError"
class_name (attribute_error m) = "AttributeError"
class_name (runtime_error m) = "RuntimeError"
class_name (permission_error m) = "PermissionError"
class_name (os_error m) = "OSError"
class_name (unsafe_archive m) = "UnsafeArchive"
class_name (backup_error m) = "BackupError"
class_name (restore_error m) = "RestorePreparationError"
class_name (protocol_error m) = "ProtocolError"

abbrev pub max_upload : ℕ
max_upload = 1572864000

abbrev pub min : ℕ → ℕ → ℕ
min a b = if leb a b then a else b

abbrev pub is_empty : Text → Bool
is_empty [] = true
is_empty (c ∷ cs) = false

-- `while remaining:`, on fuel; none is a loop that the fuel does not suffice for.
unfoldable pub receive_body : Reader → (fuel remaining : ℕ) → Text → Option (Result Text)
receive_body reader zero remaining before = if remaining == 0 then some (ok before) else none
receive_body reader (suc fuel) remaining before =
    let chunk = reader.read1 (min 65536 remaining) before in
    let later = receive_body reader fuel (remaining - length chunk) (before ++ chunk) in
    if remaining == 0
    then some (ok before)
    else if reader.late before
    then some (err (value_error "clone receive deadline exceeded"))
    else if is_empty chunk
    then some (err (value_error "truncated clone upload"))
    else later

abbrev pub finished : Option (Result Text) → Result Text
finished none = err (value_error "out of fuel")
finished (some r) = r

abbrev pub single_length : List (Result ℤ) → Result ℤ
single_length (size ∷ []) = size
single_length _ = err (value_error "upload requires a single Content-Length and no transfer coding")

-- The size of an upload that is within both limits.
unfoldable pub allowed_size : ReceiveState → ℤ → Result ℕ
allowed_size s (negsuc n) = err (value_error "upload byte limit exceeded")
allowed_size s (pos n) =
    if not (leb 1 n && leb n max_upload) || ltb s.max_bytes (s.total_bytes + n)
    then err (value_error "upload byte limit exceeded")
    else ok n

abbrev pub add_bytes : ℕ → ReceiveState → ReceiveState
add_bytes n s = record s { total_bytes = s.total_bytes + n }

abbrev pub add_files : List Received → ReceiveState → ReceiveState
add_files files s = record s { files = s.files ++ files }

abbrev pub add_failure : Error → ReceiveState → ReceiveState
add_failure e s = record s { failures = s.failures ++ class_name e ∷ [] }

module _ (ips : IpLibrary) (lib : ReceiveLibrary) where
  unfoldable pub allowed : ReceiveState → Upload → Result Bool
  allowed s r =
      if str_eq r.path s.path
      then elim (parsed_address (ips.ip_address r.client_address)) [
        | err e ↦ err e
        | ok client ↦ elim (parsed_address (ips.ip_address s.target)) [
          | err e ↦ err e
          | ok target ↦ ok (same_address client target)
        ]
      ]
      else ok false

  -- The body of the `try`.
  unfoldable pub accept : Upload → Exec ReceiveState Status
  unfolding receive_body allowed_size
  accept r = do
    refuse (not (str_eq r.transfer_encoding ""))
        (value_error "upload requires a single Content-Length and no transfer coding")
    declared ← lift (single_length r.content_lengths)
    s ← get
    size ← lift (allowed_size s declared)
    modify (add_bytes size)
    body ← lift (finished (receive_body r.reader size size []))
    files ← lift (extract_files lib r.content_type body)
    modify (add_files files)
    lift r.answered
    pure received

  abbrev pub reject : Error → Exec ReceiveState Status
  reject e = modify (add_failure e) >> pure rejected

  abbrev pub post : Upload → Bool → Exec ReceiveState Status
  post r true = catch (accept r) reject
  post r false = pure forbidden

  unfoldable pub do_post : Upload → Exec ReceiveState Status
  unfolding allowed accept
  do_post r = do s ← get; permitted ← lift (allowed s r); post r permitted
