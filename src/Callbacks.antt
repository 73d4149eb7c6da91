-- ===== src/Callbacks.antt =====
-- `CallbackState`, `polling_command` and the handler of src/cmnd_linux/callbacks.py, without the lock.
-- The values of the messages are immutable here, so that the copy of `latest` is the value itself.
pub mod Recorded
use linux_cmnd.Prelude.{
  ℕ, ◌*◌, String, Bool, true, false, not, ◌&&◌, ◌||◌, Option, none, some, List, [], ◌∷◌, ltb, leb,
  str_eq, if◌then◌else◌,
}
use linux_cmnd.Result.{Error, Result, ok, err, value_error}
use linux_cmnd.Result.Chain.{◌>>=◌, ◌>>◌, refuse}
use linux_cmnd.Json.{Json, int, str, obj, Fields, end, field, lookup, is_text, ℤ, pos, negsuc}
use linux_cmnd.Json.Access.{fields_of, or_value}

-- `_latest`
abbrev pub CallbackState : Type 0
CallbackState = List (String × Fields)

unfoldable pub record_message : String → Fields → CallbackState → CallbackState
record_message identity message [] = (identity, message) ∷ []
record_message identity message ((k, v) ∷ rest) =
    let later = record_message identity message rest in
    if str_eq k identity then (k, message) ∷ rest else (k, v) ∷ later

abbrev pub or_none : Fields → Option Fields
or_none end = none
or_none fields = some fields

-- An empty message is no value.
unfoldable pub latest : String → CallbackState → Option Fields
latest identity [] = none
latest identity ((k, v) ∷ rest) =
    let later = latest identity rest in if str_eq k identity then or_none v else later

abbrev pub clone_details : String → Fields
clone_details fun =
    if str_eq fun "IPCloneService"
    then field "IPCloneParameters" (obj end) (field "CloneToServerParameters" (obj end) end)
    else end

unfoldable pub polling_command : (identity fun : String) → (correlation : ℤ) → Json
polling_command identity fun correlation = obj (
    field "Svc" (str "WebServices") (
      field "SvcVer" (str "1.0") (
        field "Cookie" (int correlation) (
          field "CmdType" (str "Change") (
            field "Fun" (str fun) (
              field "CommandDetails"
                (obj (
                  field "WebServiceParameters"
                    (obj (
                      field "PollingFrequency" (int (pos 10)) (
                        field "PollingFrequencyGreen" (int (pos 60))
                          (field "TVUniqueID" (str identity) end))))
                    (clone_details fun)))
                end))))))

pub data Reply : Type 0 where
  not_found : Reply
  command : Json → Reply
  bad_request : Reply

-- A request: `content_length` is what `int` makes of the header, `loads` what `json.loads` makes of a
-- body of that length, and `write` what the socket does with an answer.
pub record Callback : Type 0 where
  pub path : String
  pub content_length : Result ℤ
  pub loads : ℕ → Result Json
  pub write : Reply → Result (Unit {0})

abbrev pub bounded_length : ℤ → Result ℕ
bounded_length (negsuc n) = err (value_error "callback body must be 1..1048576 bytes")
bounded_length (pos n) =
    if not (leb 1 n) || ltb (1024 * 1024) n
    then err (value_error "callback body must be 1..1048576 bytes")
    else ok n

-- What a message is about.
pub record Notice : Type 0 where
  pub identity : String
  pub fun : String
  pub message : Fields

-- The answer is written, unless the socket raises.
abbrev pub written : Reply → Result (Unit {0}) → Result Reply
written reply (ok u) = ok reply
written reply (err e) = err e

-- `except (ValueError, json.JSONDecodeError)`: another exception ends the handler.
abbrev pub rejected : Callback → Error → Result Reply
rejected r (value_error m) = written bad_request (r.write bad_request)
rejected r e = err e

-- The command is written inside the `try`, behind the record.
abbrev pub commanded : Callback → Reply → Result (Unit {0}) → Result Reply
commanded r reply (ok u) = ok reply
commanded r reply (err e) = rejected r e

abbrev pub answer : Callback → Result Notice → CallbackState → Result Reply × CallbackState
answer r (err e) s = (rejected r e, s)
answer r (ok n) s =
    let reply = command (polling_command n.identity n.fun (pos 293)) in
    (commanded r reply (r.write reply), record_message n.identity n.message s)

module _ (to_str : Json → String) where
  -- The body of the `try`, up to the record.
  unfoldable pub read_notice : Callback → Result Notice
  read_notice r = do
    declared ← r.content_length
    size ← bounded_length declared
    value ← r.loads size
    message ← fields_of value
    refuse
        (not (is_text "WebServices" (lookup "Svc" message))
          || not (is_text "Response" (lookup "CmdType" message)))
        (value_error "unexpected callback service/type")
    details ← fields_of (or_value (obj end) (lookup "CommandDetails" message))
    web ← fields_of (or_value (obj end) (lookup "WebServiceParameters" details))
    let identity = to_str (or_value (str "") (lookup "TVUniqueID" web))
    refuse (str_eq identity "") (value_error "callback is missing TVUniqueID")
    let fun = to_str (or_value (str "") (lookup "Fun" message))
    refuse (str_eq fun "") (value_error "callback is missing Fun")
    ok (record { identity = identity; fun = fun; message = message })

  unfoldable pub post : Callback → CallbackState → Result Reply × CallbackState
  unfolding read_notice record_message polling_command
  post r s =
      if str_eq r.path "/SmartInstall/webservices.jsp"
      then answer r (read_notice r) s
      else (written not_found (r.write not_found), s)
