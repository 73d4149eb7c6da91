-- ===== src/Simulator/Clone/Room.antt =====
-- What the thread of a clone command of the simulator (src/cmnd_linux/simulator.py) does to a TV.
use linux_cmnd.Prelude.{
  ◌≤◌, ◌≡◌, refl, String, Bool, true, not, ◌&&◌, Option, none, some, List, [], ◌∷◌, arith, length,
  str_eq, all,
}
use linux_cmnd.Prelude.Chars.{Text}
use linux_cmnd.Result.{Result, ok, err}
use linux_cmnd.Result.Chain.{Ensures, Ensures-ok, Ensures-bind, Ensures-refuse, Ensures-if}
use linux_cmnd.Simulator.Url.{UrlLibrary}
use linux_cmnd.Simulator.State.{CloneItem, TvState, new_state}
use linux_cmnd.Simulator.Handler.Invariant.{IsTv, keep_last_bound}
use linux_cmnd.Simulator.Archive.{ZipFile, ZipLibrary, is_room}
use linux_cmnd.Simulator.Archive.Valid.{room_values-IsRoom}
use linux_cmnd.Simulator.Clone.{
  Fetched, matching_room, fetch_item, fetched, with_room, with_status, result_of, fetch_round,
  fetch_items, add_callback, send_callback, fetch_all,
}

-- A room is a number of 1 to 16 digits.
abbrev pub valid_room : String → Bool
valid_room room = not (str_eq room "") && is_room room

abbrev pub ValidFetch : Option String → Type 0
ValidFetch none = Unit
ValidFetch (some room) = valid_room room ≡ true

pub record IsFetch (r : Option String) : Type 0 where
  pub holds : ValidFetch r

-- The TV is sound, its room is valid, and it remembers at most twenty callbacks.
pub record IsRoomTv (s : TvState) : Type 0 where
  pub tv : IsTv s
  pub room : valid_room s.room_id ≡ true
  pub callbacks : length s.callbacks ≤ 20

module _ (lib : ZipLibrary) (download : CloneItem → Result Text) where
  matching_room-IsFetch :
      (serial : String) (archive : ZipFile) → Ensures IsFetch (matching_room lib serial archive)
  unfolding matching_room
  matching_room-IsFetch serial archive = Ensures-bind _ _ λ r found. Ensures-refuse _ _ _ λ _.
      let room = (room_values-IsRoom lib archive).holds r found in
      Ensures-ok _ (record { holds = ground (arith, room.has_room, room.digits) })

  fetch_item-IsFetch :
      (serial : String) (item : CloneItem) (payload : Result Text)
      → Ensures IsFetch (fetch_item lib serial item payload)
  unfolding fetch_item
  fetch_item-IsFetch serial item payload = Ensures-bind _ _ λ body _. Ensures-bind _ _ λ r _.
      Ensures-if _ _ _ (matching_room-IsFetch serial r.0) (Ensures-ok _ (record { holds = tt }))

  with_room-IsRoomTv :
      (r : Fetched) (item : CloneItem) (s : TvState)
      → ((o : Option String) → r ≡ ok o → IsFetch o)
      → IsRoomTv s
      → IsRoomTv (with_status item (result_of r) (with_room r s))
  with_room-IsRoomTv (err e) item s h i = record {
    tv = record {
      powered = i.tv.powered;
      running = i.tv.running;
      switched = i.tv.switched;
      bounded = i.tv.bounded;
    };
    room = i.room;
    callbacks = i.callbacks;
  }
  with_room-IsRoomTv (ok none) item s h i = record {
    tv = record {
      powered = i.tv.powered;
      running = i.tv.running;
      switched = i.tv.switched;
      bounded = i.tv.bounded;
    };
    room = i.room;
    callbacks = i.callbacks;
  }
  with_room-IsRoomTv (ok (some room)) item s h i = record {
    tv = record {
      powered = i.tv.powered;
      running = i.tv.running;
      switched = i.tv.switched;
      bounded = i.tv.bounded;
    };
    room = (h (some room) refl).holds;
    callbacks = i.callbacks;
  }

  fetch_round-IsRoomTv :
      (item : CloneItem) (s : TvState) → IsRoomTv s → IsRoomTv (fetch_round lib download item s)
  unfolding fetch_round
  fetch_round-IsRoomTv item s i =
      with_room-IsRoomTv (fetched lib download s item) item s
        (fetch_item-IsFetch s.serial item (download item)).holds i

  fetch_items-IsRoomTv :
      (items : List CloneItem) (s : TvState)
      → IsRoomTv s
      → IsRoomTv (fetch_items lib download items s).1
  unfolding fetch_items
  fetch_items-IsRoomTv [] s i = i
  fetch_items-IsRoomTv (item ∷ rest) s i =
      fetch_items-IsRoomTv rest (fetch_round lib download item s) (fetch_round-IsRoomTv item s i)

  add_callback-IsRoomTv :
      (answered : Bool) (s : TvState) (url : Option String)
      → IsRoomTv s
      → IsRoomTv (add_callback lib download answered s url)
  add_callback-IsRoomTv answered s none i = i
  add_callback-IsRoomTv answered s (some url) i = record {
    tv = record {
      powered = i.tv.powered;
      running = i.tv.running;
      switched = i.tv.switched;
      bounded = i.tv.bounded;
    };
    room = i.room;
    callbacks = keep_last_bound 20 _;
  }

  -- Whatever the network answers, and whatever the items are, a clone session leaves a sound TV
  -- whose room is a number of 1 to 16 digits and that remembers at most twenty callbacks.
  pub fetch_all-IsRoomTv :
      (post : Bool → Bool) (items : List CloneItem) (s : TvState)
      → IsRoomTv s
      → IsRoomTv (fetch_all lib download post items s)
  unfolding fetch_all send_callback
  fetch_all-IsRoomTv post items s i =
      let (results, t) = fetch_items lib download items s in
      add_callback-IsRoomTv (post (all (λ b. b) results)) t t.callback_base_url
        (fetch_items-IsRoomTv items s i)

-- The state that `TVState` builds is such a TV.
new_state-IsRoomTv :
    (lib : UrlLibrary) (rstrip : String → String) (identity model : String)
    (serial url : Option String)
    → Ensures IsRoomTv (new_state lib rstrip identity model serial url)
unfolding new_state
new_state-IsRoomTv lib rstrip identity model serial url = Ensures-bind _ _ λ found _.
    Ensures-ok _ (record {
      tv = record {
        powered = refl;
        running = refl;
        switched = (refl, (refl, (refl, (refl, (refl, (refl, (refl, tt)))))));
        bounded = omega arith;
      };
      room = refl;
      callbacks = omega arith;
    })
