-- ===== src/CloneExport/Session.antt =====
-- `export_clone` of src/cmnd_linux/clone_export.py. Its surroundings give the network, the clock and
-- the cookies by what has been done before, and the uploads that arrive by when they are handled:
-- before the first look at the receiver, between two looks until the deadline, and before the server
-- has stopped. The files of the report are written without an error.
pub mod Guarded
pub mod Seen
pub mod Complete
use Prim.Native.String.{◌++◌ as ◌<>◌}
use linux_cmnd.Prelude.{
  ℕ, ◌+◌, ◌*◌, ◌^◌, String, Bool, true, false, not, ◌&&◌, ◌||◌, Option, none, some, List, [], ◌∷◌,
  ltb, leb, ◌==◌, str_eq, all, any, one_of, if◌then◌else◌,
}
use linux_cmnd.Result.{Result, ok, err, config_error}
use linux_cmnd.Exec.{Exec, pure, throw, lift, get, modify, catch, ◌>>=◌, ◌>>◌, refuse}
use linux_cmnd.Json.{Json, Fields, ℤ}
use linux_cmnd.Config.Types.{Address, IpLibrary, Config}
use linux_cmnd.Config.Authorize.{authorize}
use linux_cmnd.Simulator.Url.{SplitUrl}
use linux_cmnd.Protocol.Requests.{Message, parsed_address, clone_info_request, clone_export_request}
use linux_cmnd.Protocol.Send.{Transport, send}
use linux_cmnd.Discovery.Targets.{Network, scan_targets}
use linux_cmnd.Discovery.Identify.{Tv, verify_identity}
use linux_cmnd.CloneExport.Received.{Received, ReceiveLibrary, Capabilities, export_capabilities}
use linux_cmnd.CloneExport.Checks.{check_origin, check_limits, check_offer}
use linux_cmnd.CloneExport.Receive.{ReceiveState, Upload, do_post, max_upload}

pub record Report : Type 0 where
  pub completed : Bool
  pub files : List Received
  pub failures : List String

-- A call of `verify_identity`, a message that is sent, and a file of the output.
pub data Event : Type 0 where
  asked : String → Event
  sent : Message → Event
  wrote_response : Fields → Event
  wrote_report : Report → Event

-- The events, the newest first, and what the handler of the uploads shares with the session.
pub record Session : Type 0 where
  pub events : List Event
  pub receiver : ReceiveState

pub record Surroundings : Type 0 where
  pub ips : IpLibrary
  pub library : ReceiveLibrary
  pub ip_network : String → Option Network
  pub urlsplit : String → Result SplitUrl
  pub to_str : Json → String
  pub lower : String → String
  pub rstrip_slash : String → String
  pub net : List Event → Transport
  pub fresh : List Event → ℤ
  pub now : List Event → String
  pub token : String
  pub free : ℕ
  pub directory : Result (Unit {0})
  pub bound : Result (Unit {0})
  pub during : List Upload
  pub polls : List (List Upload)
  pub closing : List Upload

-- `state.failures`
abbrev pub is_failed : ReceiveState → Bool
is_failed s = elim s.failures [ [] ↦ false | f ∷ fs ↦ true ]

abbrev pub is_crc_valid : Received → Bool
is_crc_valid f = elim f.zip_crc_valid [ none ↦ false | some valid ↦ valid ]

-- `set(items) <= observed and all(…)`
unfoldable pub has_all : List String → List Received → Bool
has_all items files =
    all (λ i. any (λ f. one_of i f.identified_items) files) items && all is_crc_valid files

module _ (w : Surroundings) where
  abbrev pub record_event : Event → Exec Session (Unit {0})
  record_event e = modify (λ s. record s { events = e ∷ s.events })

  unfoldable pub handle_all : List Upload → Exec Session (Unit {0})
  handle_all [] = pure tt
  handle_all (r ∷ rest) =
      modify (λ s. record s { receiver = (do_post w.ips w.library r s.receiver).1 })
      >> handle_all rest

  -- The loop that looks at the receiver; it ends at the last entry, the deadline.
  unfoldable pub wait : List String → List (List Upload) → Exec Session Bool
  unfolding handle_all has_all
  wait items [] = pure false
  wait items (arriving ∷ rest) = do
    s ← get
    if is_failed s.receiver
        then pure false
        else if has_all items s.receiver.files
        then pure true
        else (handle_all arriving >> wait items rest)

  -- The `finally`, with the report as it is then.
  unfoldable pub conclude : Bool → Exec Session Report
  unfolding handle_all
  conclude completed = do
    handle_all w.closing
    s ← get
    let report : Report = record {
      completed = completed && not (is_failed s.receiver);
      files = s.receiver.files;
      failures = s.receiver.failures;
    }
    record_event (wrote_report report)
    pure report

  module _ (config : Config) (target identity : String) where
    -- `verify_identity` at its default port.
    unfoldable pub verify : Exec Session Tv
    verify = do
      s ← get
      record_event (asked target)
      lift (
          verify_identity w.ips w.to_str (w.now s.events) (w.net s.events) w.ip_network config
            (w.fresh s.events) target identity 9079)

    unfoldable pub send_message : Message → Exec Session Fields
    send_message message = do
      s ← get
      record_event (sent message)
      lift (send w.ips (w.net s.events) target message 9079)

    module _ (items : List String) (service_version : String) where
      abbrev pub upload_url : String
      upload_url =
          w.rstrip_slash config.callback_base_url <> ("/SmartInstall/CloneToServer/" <> w.token)

      abbrev pub export_message : ℤ → String → Result Message
      export_message fresh id =
          clone_export_request w.ips w.urlsplit fresh id items upload_url service_version none

      -- The body of the `try`, with the identity that was verified first.
      unfoldable pub exchange : String → Exec Session Bool
      unfolding verify send_message handle_all wait
      exchange selected = do
        handle_all w.during
        current ← verify
        refuse (not (str_eq current.identity selected))
            (config_error "TV unique identity changed before export; no Change command sent")
        s ← get
        message ← lift (export_message (w.fresh s.events) current.identity)
        response ← send_message message
        record_event (wrote_response response)
        wait items w.polls

      unfoldable pub export_executed : (max_bytes : ℕ) → Exec Session Report
      unfolding exchange conclude
      export_executed max_bytes = do
        lift (authorize w.ips config target identity "clone-export" true)
        selected ← verify
        s ← get
        info ← lift (clone_info_request (w.fresh s.events) service_version none)
        response ← send_message info
        capabilities ← lift (export_capabilities w.to_str w.lower response)
        lift (check_offer capabilities items w.free max_bytes)
        lift w.directory
        lift w.bound
        completed ← catch (exchange selected.identity) (λ e. conclude false >> throw e)
        conclude completed

      -- None is the report of a call that does not execute.
      unfoldable pub export_clone :
          (execute : Bool) → (wait_seconds max_bytes : ℕ) → Exec Session (Option Report)
      unfolding export_executed
      export_clone execute wait_seconds max_bytes = do
        lift (scan_targets w.ips w.ip_network config (target ∷ []) 1)
        origin ← lift (w.urlsplit config.callback_base_url)
        lift (check_origin w.ips config.bind origin)
        lift (check_limits wait_seconds max_bytes)
        s ← get
        lift (export_message (w.fresh s.events) identity)
        if execute then (export_executed max_bytes >>= λ report. pure (some report)) else pure none

-- What the session starts from.
abbrev pub new_session : Surroundings → String → ℕ → Session
new_session w target max_bytes = record {
  events = [];
  receiver = record {
    target = target;
    path = "/SmartInstall/CloneToServer/" <> w.token;
    max_bytes = max_bytes;
    files = [];
    failures = [];
    total_bytes = 0;
  };
}
