-- ===== src/Simulator/Clone.antt =====
-- `fetch_all` and `send_callback` of src/cmnd_linux/simulator.py: the thread that fetches the items
-- of a clone command. The requests on the network are arguments.
pub mod Room
use linux_cmnd.Prelude.{
  String, Bool, true, false, not, ◌&&◌, List, [], ◌∷◌, ◌++◌, Option, none, some, str_eq, all,
  if◌then◌else◌,
}
use linux_cmnd.Prelude.Chars.{Text}
use linux_cmnd.Result.{Error, Result, ok, err, value_error, is_ok}
use linux_cmnd.Result.Chain.{◌>>=◌, ◌>>◌, refuse}
use linux_cmnd.Simulator.State.{CloneItem, TvState, Callback, sent, not_sent, put, keep_last}
use linux_cmnd.Simulator.Archive.{ZipFile, ZipLibrary, validate_zip, room_values}

-- What an item brings: the room, if it is the item with the room settings.
abbrev pub Fetched : Type 0
Fetched = Result (Option String)

module _ (lib : ZipLibrary) (serial : String) where
  unfoldable pub matching_room : ZipFile → Result (Option String)
  matching_room archive = do
    (found, room) ← room_values lib archive
    refuse (not (str_eq (lib.casefold found) (lib.casefold serial)))
        (value_error "RoomSpecificSettings serial does not match this TV")
    ok (some room)

  -- The `try` of the loop, on the payload of the request or what it raised.
  unfoldable pub fetch_item : CloneItem → Result Text → Fetched
  unfolding matching_room
  fetch_item item payload = do
    body ← payload
    (archive, uncompressed) ← validate_zip lib body
    if str_eq item.name "RoomSpecificSettings" then matching_room archive else ok none

abbrev pub result_of : Fetched → String
result_of (ok room) = "Successful"
result_of (err e) = "Failed"

abbrev pub with_room : Fetched → TvState → TvState
with_room (ok (some room)) s = record s { room_id = room }
with_room _ s = s

abbrev pub with_status : CloneItem → String → TvState → TvState
with_status item result s = record s { clone_status = put item.name result s.clone_status }

module _ (lib : ZipLibrary) (download : CloneItem → Result Text) where
  abbrev pub fetched : TvState → CloneItem → Fetched
  fetched s item = fetch_item lib s.serial item (download item)

  -- One round of the loop.
  unfoldable pub fetch_round : CloneItem → TvState → TvState
  unfolding fetch_item
  fetch_round item s = with_status item (result_of (fetched s item)) (with_room (fetched s item) s)

  -- The results, in the order of the items, with the state.
  unfoldable pub fetch_items : List CloneItem → TvState → List Bool × TvState
  unfolding fetch_round
  fetch_items [] s = ([], s)
  fetch_items (item ∷ rest) s =
      let (results, t) = fetch_items rest (fetch_round item s) in
      (is_ok (fetched s item) ∷ results, t)

  abbrev pub callback_of : Bool → Callback
  callback_of true = sent
  callback_of false = not_sent

  abbrev pub add_callback : Bool → TvState → Option String → TvState
  add_callback answered s none = s
  add_callback answered s (some url) = record s {
    callbacks = keep_last 20 (s.callbacks ++ (callback_of answered ∷ []));
  }

  -- `post` says whether the message with the session's result was sent.
  unfoldable pub send_callback : (Bool → Bool) → Bool → TvState → TvState
  send_callback post session s = add_callback (post session) s s.callback_base_url

  unfoldable pub fetch_all : (Bool → Bool) → List CloneItem → TvState → TvState
  unfolding fetch_items send_callback
  fetch_all post items s =
      let (results, t) = fetch_items items s in send_callback post (all (λ b. b) results) t
