-- ===== src/Simulator/Handler.antt =====
-- `do_POST` of src/cmnd_linux/simulator.py, on the request that `json.loads` returned. The details
-- of the response are `Fields`, as are those of the request.
pub mod Invariant
use linux_cmnd.Prelude.{
  ℕ, suc, ◌*◌, String, Bool, true, false, not, ◌&&◌, ◌||◌, Option, none, some, List, [], ◌∷◌, ◌++◌,
  leb, one_of, str_eq, any, map, if◌then◌else◌,
}
use linux_cmnd.Prelude.Chars.{codes, contains}
use linux_cmnd.Result.{Error, Result, ok, err, value_error, key_error, type_error, attribute_error}
use linux_cmnd.Result.Chain.{◌>>=◌, ◌>>◌, refuse}
use linux_cmnd.Json.{
  Json, null, bool, int, float, str, arr, obj, Items, nil, cons, Fields, end, field, lookup,
  to_list, truthy, is_text, ℤ, pos,
}
use linux_cmnd.Json.Access.{fields_of, present, index}
use linux_cmnd.Simulator.Url.{UrlLibrary, allowed_clone_url}
use linux_cmnd.Simulator.State.{CloneItem, Logged, TvState, put, keep_last}

-- What a branch returns: the state and the fields that it adds to the response.
abbrev pub Branch : Type 0
Branch = Result (TvState × Fields)

abbrev pub of_list : List Json → Items
of_list [] = nil
of_list (v ∷ rest) = cons v (of_list rest)

-- `request.get('CommandDetails') or {}`
abbrev pub details_of : Option Json → Json
details_of none = obj end
details_of (some v) = if truthy v then v else obj end

-- `value in {…}` on a set of texts
abbrev pub member : Error → List String → Option Json → Result String
member bad texts (some (str s)) = if one_of s texts then ok s else err bad
member bad texts (some (arr items)) = err (type_error "unhashable type: 'list'")
member bad texts (some (obj fields)) = err (type_error "unhashable type: 'dict'")
member bad texts _ = err bad

abbrev pub names : String → List String → Json
names key texts = arr (of_list (map (λ t. obj (field key (str t) end)) texts))

unfoldable pub discover : String → TvState → Option Json → Branch
discover address s type = do
  refuse (not (is_text "Request" type)) (value_error "discovery requires CmdType Request")
  ok (
    s,
    field "TVDiscoveryParameters"
        (obj (
          field "PowerStatus" (str s.power) (
            field "TVIPAddress" (str address) (
              field "TVMACAddress" (str "02:00:00:00:00:01") (
                field "TVModelNumber" (str s.model) (
                  field "TVRoomID" (str s.room_id) (
                    field "TVSerialNumber" (str s.serial)
                      (field "VSecureTVID" (str "NO") end))))))))
        end,
  )

unfoldable pub change_power : TvState → Json → Result TvState
change_power s details = do
  fields ← fields_of details
  if is_text "Reboot" (lookup "PowerAction" fields)
      then ok (record s { reboot_count = suc s.reboot_count; power = "On" })
      else (do
        power ←
            member (value_error "unsupported power state") ("On" ∷ "Standby" ∷ [])
              (lookup "ToPowerState" fields)
        ok (record s { power = power }))

abbrev pub powered : TvState → TvState × Fields
powered s = (
  s,
  field "PowerServiceParameters"
      (obj (
        field "CurrentPowerState" (str s.power)
          (field "Error" (str "No") (field "Transition" (str "No") end))))
      end,
)

unfoldable pub power_service : TvState → Option Json → Json → Branch
unfolding change_power
power_service s type details =
    if is_text "Request" type
    then ok (powered s)
    else if is_text "Change" type
    then (do t ← change_power s details; ok (powered t))
    else err (value_error "power requires CmdType Request or Change")

abbrev pub unsupported : Error
unsupported = value_error "enabler contains an unsupported service or state"

abbrev pub known_service : String → List (String × String) → Bool
known_service key services = any (λ (k, _). str_eq k key) services

abbrev pub known_keys : List (String × String) → Fields → Bool
known_keys services end = true
known_keys services (field k v rest) = known_service k services && known_keys services rest

-- The values of the parameters, which are texts behind the test.
unfoldable pub switches : Fields → Result (List (String × String))
switches end = ok []
switches (field k v rest) = do
  value ← member unsupported ("On" ∷ "Off" ∷ []) (some v)
  others ← switches rest
  ok ((k, value) ∷ others)

-- `state.enabled_services.update(parameters)`
unfoldable pub update_services :
    List (String × String) → List (String × String) → List (String × String)
unfolding put
update_services services [] = services
update_services services ((k, v) ∷ rest) = update_services (put k v services) rest

abbrev pub pairs : List (String × String) → Fields
pairs [] = end
pairs ((k, v) ∷ rest) = field k (str v) (pairs rest)

abbrev pub enabler_parameters : Option Json → Result Fields
enabler_parameters (some (obj (field k v rest))) = ok (field k v rest)
enabler_parameters _ = err (value_error "enabler parameters are missing")

unfoldable pub enabler_service : TvState → Option Json → Json → Branch
unfolding switches update_services
enabler_service s type details = do
  refuse (not (is_text "Change" type)) (value_error "enabler requires CmdType Change")
  fields ← fields_of details
  parameters ← enabler_parameters (lookup "WebListeningServicesEnablerParameters" fields)
  refuse (not (known_keys s.enabled_services parameters)) unsupported
  values ← switches parameters
  let enabled = update_services s.enabled_services values
  ok (
    record s { enabled_services = enabled },
    field "WebListeningServicesEnablerParameters" (obj (pairs enabled)) end,
  )

abbrev pub has_filter : Option Json → Bool
has_filter (some (arr items)) = true
has_filter _ = false

abbrev pub is_application_list : Json → Bool
is_application_list (obj fields) = has_filter (lookup "Filter" fields)
is_application_list _ = false

abbrev pub listed_applications : TvState → Option Json → Bool → Branch
listed_applications s (some request) empty =
    if is_application_list request
    then ok (
      s,
      field "CurrentAvailableApplicationList" (names "ApplicationName" s.available_applications)
          end,
    )
    else err (value_error "application list request has an invalid Filter")
listed_applications s none true =
    ok (s, field "ActiveApplications" (names "ApplicationName" (s.active_application ∷ [])) end)
listed_applications s none false = err (value_error "unsupported application request details")

abbrev pub is_end : Fields → Bool
is_end end = true
is_end (field k v rest) = false

abbrev pub list_key : String
list_key = "RequestListOfAvailableApplications"

abbrev pub indexed_text : Bool → Branch
indexed_text true = err (type_error "indices must be integers or slices")
indexed_text false = err (value_error "unsupported application request details")

-- `in` looks for a key, an element or a part; a number has none. What is false became `{}`.
abbrev pub request_applications : TvState → Json → Branch
request_applications s (obj fields) = listed_applications s (lookup list_key fields) (is_end fields)
request_applications s (arr items) =
    indexed_text (any (λ v. is_text list_key (some v)) (to_list items))
request_applications s (str t) = indexed_text (contains (codes list_key) (codes t))
request_applications s _ = err (type_error "argument is not iterable")

abbrev pub application_name : Option Json → Option Json
application_name (some (obj fields)) = lookup "ApplicationName" fields
application_name _ = none

-- `name in state.available_applications`, on a tuple
abbrev pub available : List String → Option Json → Result String
available texts (some (str s)) =
    if one_of s texts then ok s else err (value_error "unsupported application activation")
available texts _ = err (value_error "unsupported application activation")

unfoldable pub activate_application : TvState → Json → Branch
activate_application s details = do
  fields ← fields_of details
  refuse (not (is_text "Activate" (lookup "ApplicationState" fields)))
      (value_error "unsupported application activation")
  name ← available s.available_applications (application_name (lookup "ApplicationDetails" fields))
  ok (
    record s { active_application = name },
    field "ActiveApplications" (names "ApplicationName" (name ∷ [])) end,
  )

unfoldable pub application_control : TvState → Option Json → Json → Branch
unfolding activate_application
application_control s type details =
    if is_text "Request" type
    then request_applications s details
    else if is_text "Change" type
    then activate_application s details
    else err (value_error "application control requires CmdType Request or Change")

module _ (lib : UrlLibrary) (to_str : Json → String) where
  -- `str(item_details.get('CloneItemVersionNo', ''))`
  abbrev pub version_or : Option Json → String
  version_or none = ""
  version_or (some v) = to_str v

  unfoldable pub clone_item : TvState → Json → Result CloneItem
  clone_item s raw = do
    details ← index "CloneItemDetails" raw
    location ← index "URL" raw
    (url, path) ← allowed_clone_url lib (to_str location) s.callback_origin
    name ← index "CloneItemName" details
    fields ← fields_of details
    ok (record {
      name = to_str name;
      version = version_or (lookup "CloneItemVersionNo" fields);
      url = url;
      path = path;
    })

  unfoldable pub clone_items : TvState → List Json → Result (List CloneItem)
  unfolding clone_item
  clone_items s [] = ok []
  clone_items s (raw ∷ rest) = do
    item ← clone_item s raw
    items ← clone_items s rest
    ok (item ∷ items)

  abbrev pub download_items : Json → Result (List Json)
  download_items (arr (cons v rest)) = ok (v ∷ to_list rest)
  download_items _ = err (value_error "clone command has no download items")

  abbrev pub in_progress : List CloneItem → List (String × String) → List (String × String)
  in_progress [] status = status
  in_progress (item ∷ rest) status = in_progress rest (put item.name "InProgress" status)

  -- `status(item, result)`
  abbrev pub status : String → CloneItem → Json
  status result item = obj (
      field "CloneStatus" (str result) (
        field "CloneItemDetails"
          (obj (
            field "CloneItemName" (str item.name)
              (field "CloneItemVersionNo" (str item.version) end)))
          end))

  unfoldable pub clone_service : TvState → Option Json → Json → Branch
  unfolding clone_items
  clone_service s type details = do
    refuse (not (is_text "Change" type)) (value_error "IP clone requires CmdType Change")
    parameters ← index "IPCloneParameters" details
    raw ← index "CloneItemDownloadDetails" parameters
    listed ← download_items raw
    items ← clone_items s listed
    ok (
      record s { clone_status = in_progress items s.clone_status; started = items ∷ s.started },
      field "IPCloneParameters"
          (obj (
            field "CurrentUpgradeStatus" (str "UpgradeInProgress") (
              field "CloneSessionStatus"
                (obj (
                  field "SessionStatus" (str "InProgress") (
                    field "CloneItemStatus" (arr (of_list (map (status "InProgress") items))) end)))
                end)))
          end,
    )

  -- The chain of tests on the function; `address` is that of the socket.
  unfoldable pub dispatch : String → TvState → Json → Option Json → Json → Branch
  unfolding discover power_service enabler_service application_control clone_service
  dispatch address s function type details =
      if is_text "TVDiscoveryService" (some function)
      then discover address s type
      else if is_text "PowerService" (some function)
      then power_service s type details
      else if is_text "EnablerService" (some function)
      then enabler_service s type details
      else if is_text "ApplicationControl" (some function)
      then application_control s type details
      else if is_text "IPCloneService" (some function)
      then clone_service s type details
      else err (value_error "unsupported function")

abbrev pub or_default : Json → Option Json → Json
or_default default none = default
or_default default (some v) = v

-- What is sent, or what is raised out of the handler: an `AttributeError` is not caught.
abbrev pub Reply : Type 0
Reply = Result (ℕ × Json)

abbrev pub failed : Error → Reply
failed (attribute_error m) = err (attribute_error m)
failed e = ok (400, obj end)

-- The response to a branch that returned.
unfoldable pub respond : Fields → Json → Fields → Result (ℕ × Json)
respond request function details = do
  cookie ← present "Cookie" (lookup "Cookie" request)
  ok (
    200,
    obj (
        field "Svc" (str "WebListeningServices") (
          field "SvcVer" (or_default (str "1.0") (lookup "SvcVer" request)) (
            field "Cookie" cookie (
              field "CmdType" (str "Response")
                (field "Fun" function (field "CommandDetails" (obj details) end)))))),
  )

abbrev pub replied : Result (ℕ × Json) → Reply
replied (ok r) = ok r
replied (err e) = failed e

-- The rest of the handler, once the branch is through.
abbrev pub finish : TvState → Fields → Json → Branch → Reply × TvState
finish s request function (err e) = (failed e, s)
finish s request function (ok (t, details)) = (
  replied (
      respond request function (
        field "WebListeningServiceParameters" (obj (field "TVUniqueID" (str s.identity) end))
          details)),
  t,
)

abbrev pub log_request : Json → Option Json → TvState → TvState
log_request function type s = record s {
  requests = keep_last 50 (s.requests ++ (record { function = function; type = type } ∷ []));
}

abbrev pub valid_length : Result ℤ → Bool
valid_length (ok (pos n)) = leb 1 n && leb n (1024 * 1024)
valid_length _ = false

module _ (lib : UrlLibrary) (to_str : Json → String) where
  abbrev pub with_function : String → TvState → Fields → Option Json → Reply × TvState
  with_function address s request none = (failed (key_error "Fun"), s)
  with_function address s request (some function) =
      let t = log_request function (lookup "CmdType" request) s in
      finish t request function (
        dispatch lib to_str address t function (lookup "CmdType" request)
          (details_of (lookup "CommandDetails" request)))

  abbrev pub with_request : String → TvState → Result Json → Reply × TvState
  with_request address s (ok (obj request)) = with_function address s request (lookup "Fun" request)
  with_request address s (ok v) = (failed (value_error "command must be a JSON object"), s)
  with_request address s (err e) = (failed e, s)

  -- `length` is `int(…)` of the header, `wixp` the test on the path; the text of an error is left out.
  unfoldable pub do_post : String → Bool → Result ℤ → Result Json → TvState → Reply × TvState
  unfolding dispatch respond
  do_post address wixp length body s =
      if wixp
      then (if valid_length length
          then with_request address s body
          else (failed (value_error "invalid content length"), s))
      else (ok (404, obj end), s)
