-- ===== src/Simulator/State.antt =====
-- `TVState` of src/cmnd_linux/simulator.py, without its lock: each access is a step of its own.
use linux_cmnd.Prelude.{
  ℕ, ◌-◌, String, Option, none, some, List, [], ◌∷◌, str_eq, length, drop, if◌then◌else◌,
}
use linux_cmnd.Result.{Result}
use linux_cmnd.Result.Chain.{◌>>=◌}
use linux_cmnd.Result.{ok}
use linux_cmnd.Json.{Json}
use linux_cmnd.Simulator.Url.{Origin, UrlLibrary, configured_origin}

pub record CloneItem : Type 0 where
  pub name : String
  pub version : String
  pub url : String
  pub path : String

-- An entry of `requests`.
pub record Logged : Type 0 where
  pub function : Json
  pub type : Option Json

-- An entry of `callbacks`.
pub data Callback : Type 0 where
  sent not_sent : Callback

-- The `dict`s are lists of pairs with distinct keys; `started` has the items of each thread.
pub record TvState : Type 0 where
  pub identity : String
  pub model : String
  pub serial : String
  pub callback_base_url : Option String
  pub callback_origin : Option Origin
  pub requests : List Logged
  pub power : String
  pub room_id : String
  pub reboot_count : ℕ
  pub enabled_services : List (String × String)
  pub available_applications : List String
  pub active_application : String
  pub clone_status : List (String × String)
  pub callbacks : List Callback
  pub started : List (List CloneItem)

abbrev pub services : List (String × String)
services =
    ("ApplicationControlService", "Off")
    ∷ ("AudioService", "Off")
    ∷ ("ChannelSelectionService", "Off")
    ∷ ("PowerService", "Off")
    ∷ ("SourceService", "Off")
    ∷ ("MyChoiceService", "Off")
    ∷ ("ProfessionalSettingsService", "Off")
    ∷ []

-- `serial or identity`
abbrev pub serial_or : Option String → String → String
serial_or none identity = identity
serial_or (some s) identity = if str_eq s "" then identity else s

-- `d[key] = value`
unfoldable pub put : String → String → List (String × String) → List (String × String)
put key value [] = (key, value) ∷ []
put key value ((k, v) ∷ rest) =
    let later = put key value rest in if str_eq k key then (k, value) ∷ rest else (k, v) ∷ later

-- `del values[:-n]`
unfoldable pub keep_last {ℓ} : {A : Type ℓ} → ℕ → List A → List A
keep_last n xs = drop (length xs - n) xs

-- `callback_base_url.rstrip('/') if callback_base_url else None`
abbrev pub stripped : (String → String) → Option String → Option String
stripped rstrip none = none
stripped rstrip (some s) = if str_eq s "" then none else some (rstrip s)

-- `TVState(…)`
unfoldable pub new_state :
    UrlLibrary
    → (String → String)
    → (identity model : String) → Option String
    → Option String
    → Result TvState
unfolding configured_origin
new_state lib rstrip identity model serial url = do
  found ← configured_origin lib url
  ok (record {
    identity = identity;
    model = model;
    serial = serial_or serial identity;
    callback_base_url = stripped rstrip url;
    callback_origin = found;
    requests = [];
    power = "On";
    room_id = "0001";
    reboot_count = 0;
    enabled_services = services;
    available_applications = "DefaultDashboard" ∷ "Googlecast" ∷ "TVChannels" ∷ "Weather" ∷ [];
    active_application = "TVChannels";
    clone_status = [];
    callbacks = [];
    started = [];
  })
