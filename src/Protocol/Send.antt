-- ===== src/Protocol/Send.antt =====
-- `WIXPClient.send` and `clone_session_state` of src/cmnd_linux/protocol.py. The opener, which
-- raises where a TV redirects, and `json` are the libraries'; a message of an exception that is
-- wrapped is left out.
pub mod Answer
use Prim.Native.String.{◌++◌ as ◌<>◌}
use linux_cmnd.Prelude.{
  ℕ, ◌*◌, String, Bool, true, false, not, ◌&&◌, ◌||◌, Option, none, some, List, [], ◌∷◌, ltb, ◌==◌,
  str_eq, length, if◌then◌else◌,
}
use linux_cmnd.Prelude.Chars.{Text}
use linux_cmnd.Result.{Error, Result, ok, err, protocol_error}
use linux_cmnd.Result.Chain.{◌>>=◌, ◌>>◌, refuse}
use linux_cmnd.Json.{Json, str, arr, obj, nil, Fields, end, lookup, is_text}
use linux_cmnd.Json.Access.{fields_of, or_value, iterate, equals_int}
use linux_cmnd.Config.Types.{Address, IpLibrary}
use linux_cmnd.Protocol.Requests.{Message, to_json, parsed_address}

-- What the opener returns: the content type, and at most one byte more than 1 MiB.
pub record Response : Type 0 where
  pub content_type : String
  pub read : Text

pub record Transport : Type 0 where
  pub open_url : (url : String) → Json → Result Response
  pub loads : Text → Result Json
  pub str_int : ℕ → String

abbrev pub max_response : ℕ
max_response = 1024 * 1024

-- `except Exception as exc: raise ProtocolError(…)`
abbrev pub wrapped : Result Json → Result Json
wrapped (ok v) = ok v
wrapped (err e) = err (protocol_error "WIXP request failed")

abbrev pub object_of : Json → Result Fields
object_of (obj fields) = ok fields
object_of _ = err (protocol_error "TV response must be a JSON object")

unfoldable pub check_response : Message → Json → Result Fields
check_response message value = do
  parsed ← object_of value
  refuse (not (equals_int message.cookie (lookup "Cookie" parsed)))
      (protocol_error "response correlation cookie does not match request")
  refuse
      (not (is_text message.fun (lookup "Fun" parsed))
        || not (is_text "Response" (lookup "CmdType" parsed)))
      (protocol_error "response function/type does not match request")
  ok parsed

module _ (lib : IpLibrary) (net : Transport) where
  -- `f'[{addr}]' if addr.version == 6 else str(addr)`
  abbrev pub host_of : Address → String
  host_of a = if a.version == 6 then "[" <> (lib.show a <> "]") else lib.show a

  abbrev pub wixp_url : Address → ℕ → String
  wixp_url a port = "http://" <> (host_of a <> (":" <> (net.str_int port <> "/WIXP")))

  -- The body of the `try`.
  unfoldable pub exchange : Address → ℕ → Message → Result Json
  exchange a port message = do
    response ← net.open_url (wixp_url a port) (to_json message)
    refuse (not (str_eq response.content_type "application/json"))
        (protocol_error "unexpected response content type")
    refuse (ltb max_response (length response.read)) (protocol_error "response exceeds 1 MiB limit")
    net.loads response.read

  unfoldable pub send : String → Message → ℕ → Result Fields
  unfolding exchange check_response
  send target message port = do
    a ← parsed_address (lib.ip_address target)
    value ← wrapped (exchange a port message)
    check_response message value

module _ (to_str : Json → String) where
  -- `str(status.get(key, 'Unknown'))`
  abbrev pub state_text : Option Json → String
  state_text v = to_str (or_value (str "Unknown") v)

  unfoldable pub item_state : String → Fields → List Json → Result String
  item_state item session [] = ok (state_text (lookup "SessionStatus" session))
  item_state item session (status ∷ rest) = do
    fields ← fields_of status
    details ← fields_of (or_value (obj end) (lookup "CloneItemDetails" fields))
    if is_text item (lookup "CloneItemName" details)
        then ok (state_text (lookup "CloneStatus" fields))
        else item_state item session rest

  unfoldable pub clone_session_state : Fields → String → Result String
  unfolding item_state
  clone_session_state response item = do
    details ← fields_of (or_value (obj end) (lookup "CommandDetails" response))
    params ← fields_of (or_value (obj end) (lookup "IPCloneParameters" details))
    session ← fields_of (or_value (obj end) (lookup "CloneSessionStatus" params))
    statuses ← iterate (or_value (arr nil) (lookup "CloneItemStatus" session))
    item_state item session statuses
