-- ===== src/Discovery/Identify.antt =====
-- `identify` and `verify_identity` of src/cmnd_linux/discovery.py; `now` is the text of the clock.
pub mod Verified
use linux_cmnd.Prelude.{
  ℕ, String, Bool, true, false, not, ◌&&◌, ◌||◌, Option, none, some, List, [], ◌∷◌, leb, str_eq,
  all, one_of, if◌then◌else◌,
}
use linux_cmnd.Prelude.Chars.{codes}
use linux_cmnd.Result.{Error, Result, ok, err, config_error, protocol_error}
use linux_cmnd.Result.Chain.{◌>>=◌, ◌>>◌, refuse}
use linux_cmnd.Json.{Json, str, obj, Fields, end, lookup, ℤ}
use linux_cmnd.Json.Access.{or_value}
use linux_cmnd.Config.Types.{Address, IpLibrary, Config}
use linux_cmnd.Protocol.Requests.{discovery_request, parsed_address, has_length, is_identity_char}
use linux_cmnd.Protocol.Send.{Transport, send}
use linux_cmnd.Discovery.Targets.{Network, same_address, scan_targets}

-- What `identify` returns.
pub record Tv : Type 0 where
  pub ip : String
  pub identity : String
  pub serial : String
  pub mac : String
  pub model : Json
  pub room_id : String
  pub power : Json
  pub service_version : Option Json
  pub observed_at : String

-- `value.get(key, {})`, which has to be a `dict`
abbrev pub object_or : Error → Option Json → Result Fields
object_or bad none = ok end
object_or bad (some (obj fields)) = ok fields
object_or bad (some _) = err bad

-- `value.get(key, '')`, which has to be a text
abbrev pub text_of : Error → Option Json → Result String
text_of bad none = ok ""
text_of bad (some (str s)) = ok s
text_of bad (some _) = err bad

-- `[A-Za-z0-9._:-]{1,128}`
unfoldable pub is_unique_id : String → Bool
is_unique_id s = has_length 1 128 (codes s) && all is_identity_char (codes s)

module _ (lib : IpLibrary) (to_str : Json → String) (now : String) where
  abbrev pub invalid_types : Error
  invalid_types = protocol_error "invalid identity field types"

  unfoldable pub identify : String → Fields → Result Tv
  unfolding is_unique_id
  identify target response = do
    details ←
        object_or (protocol_error "invalid discovery details") (lookup "CommandDetails" response)
    discovery ←
        object_or (protocol_error "invalid discovery parameter objects")
          (lookup "TVDiscoveryParameters" details)
    listening ←
        object_or (protocol_error "invalid discovery parameter objects")
          (lookup "WebListeningServiceParameters" details)
    unique_id ← text_of invalid_types (lookup "TVUniqueID" listening)
    serial ← text_of invalid_types (lookup "TVSerialNumber" discovery)
    mac ← text_of invalid_types (lookup "TVMACAddress" discovery)
    refuse (str_eq unique_id "" || str_eq serial "" || not (is_unique_id unique_id))
        (protocol_error "discovery response lacks stable identity")
    claimed ←
        parsed_address
          (lib.ip_address (to_str (or_value (str target) (lookup "TVIPAddress" discovery))))
    queried ← parsed_address (lib.ip_address target)
    refuse (not (same_address claimed queried))
        (protocol_error "TV advertised an IP different from the queried target")
    room ←
        text_of (protocol_error "room ID must be returned as a string")
          (lookup "TVRoomID" discovery)
    ok (record {
      ip = lib.show queried;
      identity = unique_id;
      serial = serial;
      mac = mac;
      model = or_value (str "") (lookup "TVModelNumber" discovery);
      room_id = room;
      power = or_value (str "") (lookup "PowerStatus" discovery);
      service_version = lookup "SvcVer" response;
      observed_at = now;
    })

  module _ (net : Transport) (ip_network : String → Option Network) (config : Config) where
    -- `fresh` is the cookie that is drawn.
    unfoldable pub verify_identity : ℤ → (target expected_identity : String) → ℕ → Result Tv
    unfolding identify
    verify_identity fresh target expected_identity port = do
      targets ← scan_targets lib ip_network config (target ∷ []) 1
      refuse (not (leb 1 port && leb port 65535)) (config_error "port must be 1..65535")
      response ← send lib net target (discovery_request fresh none) port
      tv ← identify target response
      refuse (not (one_of expected_identity (tv.identity ∷ tv.serial ∷ tv.mac ∷ [])))
          (protocol_error "identity changed or differs from the selected scan result")
      ok tv
