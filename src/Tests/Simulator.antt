-- ===== src/Tests/Simulator.antt =====
-- The theorems on src/cmnd_linux/simulator.py at a concrete TV and package.
use linux_cmnd.Prelude.{
  ◌≡◌, refl, String, Bool, true, false, none, some, List, [], ◌∷◌, arith, str_eq, if◌then◌else◌,
}
use linux_cmnd.Prelude.Chars.{Text, codes}
use linux_cmnd.Result.{Result, ok, err, type_error}
use linux_cmnd.Result.Chain.{Ensures}
use linux_cmnd.Json.{Json, str, int, obj, field, end, Fields, pos, ℤ}
use linux_cmnd.Simulator.Url.{SplitUrl, UrlLibrary, Origin, allowed_clone_url}
use linux_cmnd.Simulator.Url.Safe.{IsCloneUrl, allowed_clone_url-IsCloneUrl}
use linux_cmnd.Simulator.State.{CloneItem, TvState, services}
use linux_cmnd.Simulator.Handler.{do_post}
use linux_cmnd.Simulator.Handler.Invariant.{IsTv, Kept, do_post-Kept}
use linux_cmnd.Simulator.Archive.{ZipFile, ZipLibrary, Node, validate_zip, room_item_name}
use linux_cmnd.Simulator.Archive.Valid.{IsPackage, validate_zip-IsPackage}
use linux_cmnd.Simulator.Clone.{fetch_all}
use linux_cmnd.Simulator.Clone.Room.{IsRoomTv, fetch_all-IsRoomTv}
use linux_cmnd.Tests.Config.{address, to_str}

abbrev split : SplitUrl
split = record {
  scheme = "http";
  hostname = some "10.0.0.9";
  username = none;
  password = none;
  port = ok (some 8080);
  query = "";
  fragment = "";
  path = "/SmartInstall/Profile/Clone/a.zip";
}

abbrev urls : UrlLibrary
urls = record {
  urlsplit = λ s. ok (if str_eq s "" then record split { path = "" } else split);
  urlunsplit = λ parts. "http://10.0.0.9:8080/SmartInstall/Profile/Clone/a.zip";
  unquote = λ s. s;
  lower = λ s. s;
  ip_address = λ s. some address;
  is_loopback = λ a. false;
}

abbrev here : Origin
here = record { scheme = "http"; host = "10.0.0.9"; port = 8080 }

abbrev clone_url : String × String
clone_url =
    ("http://10.0.0.9:8080/SmartInstall/Profile/Clone/a.zip", "/SmartInstall/Profile/Clone/a.zip")

allowed : allowed_clone_url urls "http://10.0.0.9:8080/a" (some here) ≡ ok clone_url
unfolding allowed_clone_url linux_cmnd.Result.Chain.◌>>=◌ linux_cmnd.Result.Chain.refuse
    linux_cmnd.Config.PackageUrl.split_path
allowed = refl

allowed_clone_url-IsCloneUrl_example :
    IsCloneUrl urls "http://10.0.0.9:8080/a" (some here) clone_url
allowed_clone_url-IsCloneUrl_example =
    allowed_clone_url-IsCloneUrl urls "http://10.0.0.9:8080/a" (some here) clone_url allowed

abbrev tv : TvState
tv = record {
  identity = "TV1";
  model = "SIMULATOR";
  serial = "TV1";
  callback_base_url = some "http://10.0.0.9:8080";
  callback_origin = some here;
  requests = [];
  power = "On";
  room_id = "0001";
  reboot_count = 0;
  enabled_services = services;
  available_applications = "TVChannels" ∷ [];
  active_application = "TVChannels";
  clone_status = [];
  callbacks = [];
  started = [];
}

tv_sound : IsTv tv
tv_sound = record {
  powered = refl;
  running = refl;
  switched = (refl, (refl, (refl, (refl, (refl, (refl, (refl, tt)))))));
  bounded = omega arith;
}

abbrev standby : Json
standby = obj (
    field "Fun" (str "PowerService") (
      field "CmdType" (str "Change") (
        field "Cookie" (int (pos 7))
          (field "CommandDetails" (obj (field "ToPowerState" (str "Standby") end)) end))))

do_post-Kept_example : Kept tv (do_post urls to_str "10.0.0.1" true (ok (pos 90)) (ok standby) tv).1
do_post-Kept_example =
    do_post-Kept urls to_str "10.0.0.1" true (ok (pos 90)) (ok standby) tv tv_sound

goes_standby :
    (do_post urls to_str "10.0.0.1" true (ok (pos 90)) (ok standby) tv).1.power ≡ "Standby"
unfolding do_post linux_cmnd.Json.lookup linux_cmnd.Result.Chain.◌>>=◌
goes_standby = refl

abbrev archive : ZipFile
archive = record {
  infos =
      record { filename = codes "RoomSpecificSettings.xml"; flag_bits = 0; file_size = 90 } ∷ [];
  names = "RoomSpecificSettings.xml" ∷ [];
  bad = none;
  read = λ name. codes "<x/>";
}

abbrev nodes : List Node
nodes =
    record { tag = codes "SerialNumber"; text = "TV1"; attributes = []; children = [] }
    ∷ record {
      tag = codes "item";
      text = "";
      attributes = ("Name", room_item_name) ∷ ("Value", "0042") ∷ [];
      children = [];
    }
    ∷ []

abbrev zips : ZipLibrary
zips = record {
  open_zip = λ payload. some archive;
  parse = λ xml. some nodes;
  upper = λ xml. xml;
  casefold = λ s. s;
}

validated : validate_zip zips (codes "PK") ≡ ok (archive, 90)
unfolding validate_zip linux_cmnd.Result.Chain.◌>>=◌ linux_cmnd.Result.Chain.refuse
    linux_cmnd.Simulator.Url.posix_parts linux_cmnd.Config.PackageUrl.split_path
validated = refl

validate_zip-IsPackage_example : IsPackage zips (codes "PK") (archive, 90)
validate_zip-IsPackage_example = validate_zip-IsPackage zips (codes "PK") (archive, 90) validated

abbrev room_item : CloneItem
room_item = record {
  name = "RoomSpecificSettings";
  version = "1";
  url = clone_url.0;
  path = clone_url.1;
}

abbrev payload_of : CloneItem → Result Text
payload_of item = ok (codes "PK")

abbrev answered : Bool → Bool
answered session = true

tv_room : IsRoomTv tv
tv_room = record { tv = tv_sound; room = refl; callbacks = omega arith }

fetch_all-IsRoomTv_example : IsRoomTv (fetch_all zips payload_of answered (room_item ∷ []) tv)
fetch_all-IsRoomTv_example = fetch_all-IsRoomTv zips payload_of answered (room_item ∷ []) tv tv_room

moved : (fetch_all zips payload_of answered (room_item ∷ []) tv).room_id ≡ "0042"
unfolding fetch_all linux_cmnd.Result.Chain.◌>>=◌ validate_zip linux_cmnd.Result.Chain.refuse
    linux_cmnd.Simulator.Url.posix_parts linux_cmnd.Config.PackageUrl.split_path
    linux_cmnd.Simulator.Archive.room_values
moved = refl

abbrev rstrip : String → String
rstrip s = s
