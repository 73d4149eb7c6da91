-- ===== src/Tests/Tv.antt =====
-- The theorems on src/cmnd_linux/protocol.py and src/cmnd_linux/discovery.py for a TV that answers.
use linux_cmnd.Prelude.{◌≡◌, refl, String, Option, none, some, [], ◌∷◌, str_eq, if◌then◌else◌}
use linux_cmnd.Prelude.Chars.{text_eq}
use linux_cmnd.Result.{Result, ok, err, value_error, protocol_error}
use linux_cmnd.Result.Chain.{Ensures}
use linux_cmnd.Json.{
  Json, str, int, obj, arr, nil, cons, Fields, end, field, lookup, is_text, pos, ℤ,
}
use linux_cmnd.Config.Types.{Config, finite}
use linux_cmnd.Simulator.Url.{SplitUrl}
use linux_cmnd.Protocol.Requests.{Message, clone_export_request, discovery_request}
use linux_cmnd.Protocol.Requests.Export.{IsExport, clone_export_request-IsExport}
use linux_cmnd.Protocol.Send.{Transport, send}
use linux_cmnd.Protocol.Send.Answer.{IsAnswer, send-IsAnswer, IsProtocol, send_fails}
use linux_cmnd.Discovery.Targets.{Network, scan_targets}
use linux_cmnd.Discovery.Targets.Permitted.{IsTargetList, scan_targets-IsTargetList}
use linux_cmnd.Discovery.Identify.{Tv, verify_identity}
use linux_cmnd.Discovery.Identify.Verified.{IsVerified, verify_identity-IsVerified}
use linux_cmnd.Discovery.Inventory.{add_tv}
use linux_cmnd.Discovery.Inventory.Consistent.{IsAdded, add_tv-IsAdded}
use linux_cmnd.Tests.Config.{address, library, to_str}

abbrev pub path : String
path = "/SmartInstall/CloneToServer/aaaaaaaaaaaaaaaaaaaaaaaaaaaaaaaaaaaaaaaaaaaaaaaa"

abbrev pub callback : String
callback = "http://10.0.0.1"

abbrev pub receive_url : String
receive_url =
    "http://10.0.0.1/SmartInstall/CloneToServer/aaaaaaaaaaaaaaaaaaaaaaaaaaaaaaaaaaaaaaaaaaaaaaaa"

abbrev pub urlsplit : String → Result SplitUrl
urlsplit url = ok (record {
  scheme = "http";
  hostname = some "10.0.0.1";
  username = none;
  password = none;
  port = ok none;
  query = "";
  fragment = "";
  path = if str_eq url callback then "" else path;
})

abbrev pub fields_in : Json → Fields
fields_in (obj fields) = fields
fields_in _ = end

abbrev answer : String → Fields → Json
answer fun details = obj (
    field "Cookie" (int (pos 293)) (
      field "Fun" (str fun)
        (field "CmdType" (str "Response") (field "CommandDetails" (obj details) end))))

abbrev discovered : Json
discovered = answer "TVDiscoveryService" (
    field "TVDiscoveryParameters"
      (obj (
        field "TVSerialNumber" (str "SERIAL1")
          (field "TVMACAddress" (str "02:00:00:00:00:01") end)))
      (field "WebListeningServiceParameters" (obj (field "TVUniqueID" (str "TV000001") end)) end))

abbrev offered : Json
offered = answer "IPCloneService" (
    field "CloneToServerParameters"
      (obj (
        field "CloneToServerStatus" (str "ready") (
          field "CloneToServerSessionStatus" (obj end) (
            field "CloneItemsAvailableToServer"
              (arr (cons (obj (field "CloneItemName" (str "TVSettings") end)) nil)) end))))
      end)

-- A TV that answers a discovery with its identity, and else with the items that it has.
abbrev pub tv_net : Transport
tv_net = record {
  open_url = λ url request. ok (record {
    content_type = "application/json";
    read =
        if is_text "TVDiscoveryService" (lookup "Fun" (fields_in request)) then 1 ∷ [] else 2 ∷ [];
  });
  loads = λ t. if text_eq t (1 ∷ []) then ok discovered else ok offered;
  str_int = λ n. "9079";
}

abbrev pub ip_network : String → Option Network
ip_network s = some (record { num_addresses = 1; hosts = []; network_address = address })

abbrev pub config : Config
config = record {
  mode = "lab";
  bind = "10.0.0.1";
  callback_base_url = callback;
  permitted_ranges = "10.0.0.0/8" ∷ [];
  allowed_tvs =
      record { ip = "10.0.0.1"; identity = "TV000001"; operations = "clone-export" ∷ [] } ∷ [];
  timeout_seconds = finite (pos 5) 0;
  tomcat_http = pos 8080;
  tomcat_https = pos 8443;
  apache_http = pos 80;
  apache_https = pos 443;
  database_port = pos 3306;
  cms_upload_limit_mb = pos 8096;
  cms_memory_limit_mb = pos 512;
  cms_execution_timeout_seconds = pos 600;
}

abbrev pub fresh : ℤ
fresh = pos 293

clone_export_request-IsExport_example :
    Ensures
      (IsExport library urlsplit fresh "TV000001" ("TVSettings" ∷ []) receive_url "3.0" none)
      (clone_export_request library urlsplit fresh "TV000001"
        ("TVSettings" ∷ [])
        receive_url
        "3.0"
        none)
clone_export_request-IsExport_example =
    clone_export_request-IsExport library urlsplit fresh "TV000001" ("TVSettings" ∷ []) receive_url
      "3.0" none

send-IsAnswer_example :
    Ensures
      (IsAnswer library tv_net "10.0.0.1" (discovery_request fresh none) 9079)
      (send library tv_net "10.0.0.1" (discovery_request fresh none) 9079)
send-IsAnswer_example = send-IsAnswer library tv_net "10.0.0.1" (discovery_request fresh none) 9079

-- A network that cannot be reached.
abbrev no_net : Transport
no_net = record {
  open_url = λ url request. err (value_error "unreachable");
  loads = λ t. err (value_error "bad");
  str_int = λ n. "9079";
}

unreachable :
    send library no_net "10.0.0.1" (discovery_request fresh none) 9079
    ≡ err (protocol_error "WIXP request failed")
unfolding send linux_cmnd.Result.Chain.◌>>=◌
unreachable = refl

send_fails_example : IsProtocol (protocol_error "WIXP request failed")
send_fails_example =
    send_fails library no_net "10.0.0.1" (discovery_request fresh none) 9079 address
      (protocol_error "WIXP request failed") refl unreachable

targets : scan_targets library ip_network config ("10.0.0.1" ∷ []) 1 ≡ ok ("10.0.0.1" ∷ [])
unfolding scan_targets linux_cmnd.Result.Chain.◌>>=◌ linux_cmnd.Result.Chain.refuse
targets = refl

scan_targets-IsTargetList_example :
    Ensures
      (IsTargetList library ip_network config ("10.0.0.1" ∷ []) 1)
      (scan_targets library ip_network config ("10.0.0.1" ∷ []) 1)
scan_targets-IsTargetList_example =
    scan_targets-IsTargetList library ip_network config ("10.0.0.1" ∷ []) 1

abbrev tv : Tv
tv = record {
  ip = "10.0.0.1";
  identity = "TV000001";
  serial = "SERIAL1";
  mac = "02:00:00:00:00:01";
  model = str "";
  room_id = "";
  power = str "";
  service_version = none;
  observed_at = "now";
}

verified :
    verify_identity library to_str "now" tv_net ip_network config fresh "10.0.0.1" "SERIAL1" 9079
    ≡ ok tv
unfolding verify_identity linux_cmnd.Result.Chain.◌>>=◌ scan_targets linux_cmnd.Result.Chain.refuse
    send lookup linux_cmnd.Protocol.Requests.to_json discovery_request
verified = refl

verify_identity-IsVerified_example :
    Ensures
      (IsVerified library to_str "now" tv_net ip_network config fresh "10.0.0.1" "SERIAL1" 9079)
      (verify_identity library to_str "now" tv_net ip_network config fresh "10.0.0.1" "SERIAL1"
        9079)
verify_identity-IsVerified_example =
    verify_identity-IsVerified library to_str "now" tv_net ip_network config fresh "10.0.0.1"
      "SERIAL1" 9079

added :
    add_tv library to_str "now" tv_net ip_network config fresh "10.0.0.1" "SERIAL1" 9079 []
    ≡ ok (tv ∷ [])
unfolding add_tv linux_cmnd.Result.Chain.◌>>=◌ verify_identity scan_targets
    linux_cmnd.Result.Chain.refuse send lookup linux_cmnd.Protocol.Requests.to_json
    discovery_request
added = refl

add_tv-IsAdded_example :
    Ensures
      (IsAdded library to_str "now" tv_net ip_network config fresh "10.0.0.1" "SERIAL1" 9079 [])
      (add_tv library to_str "now" tv_net ip_network config fresh "10.0.0.1" "SERIAL1" 9079 [])
add_tv-IsAdded_example =
    add_tv-IsAdded library to_str "now" tv_net ip_network config fresh "10.0.0.1" "SERIAL1" 9079 []
      tt
