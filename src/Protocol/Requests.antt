-- ===== src/Protocol/Requests.antt =====
-- The requests of src/cmnd_linux/protocol.py. A cookie that the caller does not give is drawn by
-- the caller of these functions; `urlsplit` and `ip_address` are the libraries'.
pub mod Export
use linux_cmnd.Prelude.{
  ℕ, String, Bool, true, false, not, ◌&&◌, ◌||◌, Option, none, some, List, [], ◌∷◌, leb, ◌==◌,
  str_eq, all, any, length, drop, map, one_of, if◌then◌else◌,
}
use linux_cmnd.Prelude.Chars.{Text, codes, is_digit, is_hex, is_letter, starts_with}
use linux_cmnd.Result.{Error, Result, ok, err, value_error}
use linux_cmnd.Result.Chain.{◌>>=◌, ◌>>◌, refuse}
use linux_cmnd.Json.{Json, int, str, arr, obj, Fields, end, field, Items, nil, cons, ℤ}
use linux_cmnd.Config.Types.{Address, IpLibrary}
use linux_cmnd.Config.PackageUrl.{given}
use linux_cmnd.Simulator.Url.{SplitUrl, is_given}
use linux_cmnd.Simulator.Handler.{of_list}

-- A request; its `Svc` is "WebListeningServices".
pub record Message : Type 0 where
  pub version : String
  pub cookie : ℤ
  pub cmd_type : String
  pub fun : String
  pub details : Option Fields

abbrev pub with_details : Option Fields → Fields
with_details none = end
with_details (some fields) = field "CommandDetails" (obj fields) end

-- The `dict` that is sent.
unfoldable pub to_json : Message → Json
to_json m = obj (
    field "Svc" (str "WebListeningServices") (
      field "SvcVer" (str m.version) (
        field "Cookie" (int m.cookie)
          (field "CmdType" (str m.cmd_type) (field "Fun" (str m.fun) (with_details m.details))))))

-- `correlation if correlation is not None else cookie()`
abbrev pub cookie_or : ℤ → Option ℤ → ℤ
cookie_or fresh none = fresh
cookie_or fresh (some z) = z

-- `EXPORT_ITEMS`
abbrev pub export_items : List String
export_items =
    "TVSettings" ∷ "TVChannelList" ∷ "WelcomeLogo" ∷ "SmartInfoImages" ∷ "SmartInfoPages"
    ∷ "AndroidApps" ∷ "RoomSpecificSettings" ∷ "DataDump" ∷ "CustomDashboardFallback" ∷ "Script"
    ∷ "MediaChannels" ∷ "WeatherForecast" ∷ "HTVCfg.xml" ∷ "Banner" ∷ "PMS" ∷ "AndroidAppsData"
    ∷ "ProfessionalApps" ∷ "ProfessionalAppsData" ∷ "Schedules" ∷ "MyChoice" ∷ "Vsecure" ∷ []

abbrev pub clone_request_items : List String
clone_request_items =
    "RoomSpecificSettings" ∷ "TVSettings" ∷ "TVChannelList" ∷ "AndroidApps" ∷ "MyChoice"
    ∷ "HTVCfg.xml" ∷ "ProfessionalAppsData" ∷ []

-- `[A-Za-z0-9:._-]`
abbrev pub is_identity_char : ℕ → Bool
is_identity_char c = is_letter c || is_digit c || c == b':' || c == b'.' || c == b'_' || c == b'-'

abbrev pub has_length : ℕ → ℕ → Text → Bool
has_length lower upper t = leb lower (length t) && leb (length t) upper

-- `[A-Za-z0-9:._-]{8,128}`
unfoldable pub is_tv_identity : String → Bool
is_tv_identity identity = has_length 8 128 (codes identity) && all is_identity_char (codes identity)

-- `/SmartInstall/CloneToServer/[a-f0-9]{48}`
unfoldable pub is_receive_path : String → Bool
is_receive_path path =
    starts_with (codes path) (codes "/SmartInstall/CloneToServer/")
    && length (drop 28 (codes path)) == 48
    && all is_hex (drop 28 (codes path))

-- `len(set(items)) == len(items)`
abbrev pub all_distinct : List String → Bool
all_distinct [] = true
all_distinct (x ∷ xs) = not (one_of x xs) && all_distinct xs

abbrev pub is_some_list : List String → Bool
is_some_list [] = false
is_some_list (x ∷ xs) = true

module _ (fresh : ℤ) where
  unfoldable pub discovery_request : Option ℤ → Message
  discovery_request correlation = record {
    version = "1.0";
    cookie = cookie_or fresh correlation;
    cmd_type = "Request";
    fun = "TVDiscoveryService";
    details = none;
  }

  unfoldable pub power_request : String → Option ℤ → Result Message
  power_request state correlation = do
    refuse (not (one_of state ("On" ∷ "Standby" ∷ [])))
        (value_error "observed power states are On and Standby")
    ok (record {
      version = "1.0";
      cookie = cookie_or fresh correlation;
      cmd_type = "Change";
      fun = "PowerService";
      details = some (field "ToPowerState" (str state) end);
    })

  unfoldable pub clone_info_request : String → Option ℤ → Result Message
  clone_info_request service_version correlation = do
    refuse (not (one_of service_version ("1.0" ∷ "3.0" ∷ "5.0" ∷ []))) (
        value_error
          "clone service version must match the inspected vendor mapping: 1.0, 3.0, or 5.0")
    ok (record {
      version = service_version;
      cookie = cookie_or fresh correlation;
      cmd_type = "Request";
      fun = "IPCloneService";
      details = none;
    })

  abbrev pub tv_parameters : String → Json
  tv_parameters identity = obj (field "TVUniqueID" (str identity) end)

  unfoldable pub clone_request : (identity item version url : String) → Option ℤ → Result Message
  clone_request identity item version url correlation = do
    refuse (not (one_of item clone_request_items))
        (value_error "clone item is not in the capture-qualified set")
    ok (record {
      version = "3.0";
      cookie = cookie_or fresh correlation;
      cmd_type = "Change";
      fun = "IPCloneService";
      details = some (
          field "WebListeningServiceParameters" (tv_parameters identity) (
            field "IPCloneParameters"
              (obj (
                field "CloneItemDownloadDetails"
                  (arr (
                    cons
                      (obj (
                        field "CloneItemDetails"
                          (obj (
                            field "CloneItemName" (str item)
                              (field "CloneItemVersionNo" (str version) end)))
                          (field "URL" (str url) end)))
                      nil))
                  end))
              end));
    })

abbrev pub invalid_export : Error
invalid_export = value_error "invalid identity, export items, or private receive URL"

abbrev pub port_in_range : Option ℕ → Bool
port_in_range none = true
port_in_range (some p) = leb 1 p && leb p 65535

abbrev pub parsed_address : Option Address → Result Address
parsed_address (some a) = ok a
parsed_address none = err (value_error "does not appear to be an IPv4 or IPv6 address")

abbrev pub address_of : IpLibrary → Option String → Option Address
address_of lib none = none
address_of lib (some h) = lib.ip_address h

-- The tests on the URL that receives the items.
abbrev pub is_receive_url : SplitUrl → Bool
is_receive_url parsed =
    str_eq parsed.scheme "http"
    && given parsed.hostname
    && not (is_given parsed.username)
    && not (is_given parsed.password)
    && str_eq parsed.query ""
    && str_eq parsed.fragment ""
    && is_receive_path parsed.path

abbrev pub are_items : List String → Bool
are_items items = is_some_list items && all_distinct items && all (λ i. one_of i export_items) items

abbrev pub export_details : String → List String → String → Fields
export_details identity items upload_url =
    field "WebListeningServiceParameters" (obj (field "TVUniqueID" (str identity) end)) (
      field "CloneToServerParameters"
        (obj (
          field "CloneToServerDetails"
            (arr (
              of_list (
                map
                  (λ item.
                    obj (field "CloneItemName" (str item) (field "URL" (str upload_url) end)))
                  items)))
            end))
        end)

module _ (lib : IpLibrary) (urlsplit : String → Result SplitUrl) (fresh : ℤ) where
  unfoldable pub clone_export_request :
      (identity : String)
      → List String
      → (upload_url service_version : String) → Option ℤ
      → Result Message
  unfolding is_tv_identity is_receive_path clone_info_request
  clone_export_request identity items upload_url service_version correlation = do
    parsed ← urlsplit upload_url
    refuse (not (is_tv_identity identity && are_items items && is_receive_url parsed))
        invalid_export
    port ← parsed.port
    refuse (not (port_in_range port)) (value_error "invalid receiver port")
    address ← parsed_address (address_of lib parsed.hostname)
    refuse (lib.is_unspecified address || lib.is_multicast address)
        (value_error "receiver must have an explicit unicast address")
    message ← clone_info_request fresh service_version correlation
    ok (record message {
      cmd_type = "Change";
      details = some (export_details identity items upload_url);
    })
