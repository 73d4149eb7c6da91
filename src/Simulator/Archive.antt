-- ===== src/Simulator/Archive.antt =====
-- `_validate_zip` and `_room_values` of src/cmnd_linux/simulator.py. The archive is what `zipfile`
-- read, and the document what `ElementTree` parsed.
pub mod Valid
use linux_cmnd.Prelude.{
  ℕ, ◌+◌, ◌*◌, ◌^◌, ◌%◌, String, Bool, true, false, not, ◌&&◌, ◌||◌, Option, none, some, List, [],
  ◌∷◌, ◌==◌, ltb, leb, all, any, map, select, length, one_of, str_eq, if◌then◌else◌,
}
use linux_cmnd.Prelude.Chars.{Text, codes, contains, is_digit, starts_with, text_eq}
use linux_cmnd.Result.{Error, Result, ok, err, value_error}
use linux_cmnd.Result.Chain.{◌>>=◌, ◌>>◌, refuse}
use linux_cmnd.Simulator.Url.{posix_parts}

-- A `ZipInfo`.
pub record Entry : Type 0 where
  pub filename : Text
  pub flag_bits : ℕ
  pub file_size : ℕ

-- An archive that `ZipFile` opened; `bad` is what `testzip` found.
pub record ZipFile : Type 0 where
  pub infos : List Entry
  pub names : List String
  pub bad : Option String
  pub read : String → Text

-- A child of a node, and a node of `root.iter()`.
pub record Child : Type 0 where
  pub tag : Text
  pub text : String

pub record Node : Type 0 where
  pub tag : Text
  pub text : String
  pub attributes : List (String × String)
  pub children : List Child

-- The values of a node and of its children are stripped texts; an absent text is empty.
pub record ZipLibrary : Type 0 where
  pub open_zip : Text → Option ZipFile
  pub parse : Text → Option (List Node)
  pub upper : Text → Text
  pub casefold : String → String

abbrev pub max_clone_bytes : ℕ
max_clone_bytes = 16 * 1024 ^ 2

abbrev pub max_uncompressed_bytes : ℕ
max_uncompressed_bytes = 32 * 1024 ^ 2

abbrev pub max_zip_entries : ℕ
max_zip_entries = 256

-- `filename.replace('\\', '/')`
abbrev pub slashed : Text → Text
slashed = map (λ c. if c == b'\\' then b'/' else c)

abbrev pub unsafe_entry : Entry → Bool
unsafe_entry e =
    starts_with (slashed e.filename) (codes "/")
    || any (λ part. text_eq part (codes "..")) (posix_parts (slashed e.filename))
    || e.flag_bits % 2 == 1

-- The loop over the entries, from the size so far.
unfoldable pub entries_size : ℕ → List Entry → Result ℕ
entries_size total [] = ok total
entries_size total (e ∷ rest) = do
  refuse (unsafe_entry e) (value_error "clone ZIP contains an unsafe entry")
  refuse (ltb max_uncompressed_bytes (total + e.file_size))
      (value_error "clone ZIP expands beyond the safety limit")
  entries_size (total + e.file_size) rest

abbrev pub opened_zip : Option ZipFile → Result ZipFile
opened_zip none = err (value_error "clone package is not a ZIP archive")
opened_zip (some archive) = ok archive

abbrev pub is_some : Option String → Bool
is_some none = false
is_some (some x) = true

abbrev pub entry_count : ZipFile → Bool
entry_count archive = leb 1 (length archive.infos) && leb (length archive.infos) max_zip_entries

module _ (lib : ZipLibrary) where
  unfoldable pub validate_zip : Text → Result (ZipFile × ℕ)
  unfolding entries_size
  validate_zip payload = do
    refuse (length payload == 0 || ltb max_clone_bytes (length payload))
        (value_error "clone package is empty or oversized")
    archive ← opened_zip (lib.open_zip payload)
    refuse (not (entry_count archive)) (value_error "clone ZIP has an invalid entry count")
    uncompressed ← entries_size 0 archive.infos
    refuse (is_some archive.bad) (value_error "clone ZIP failed its CRC check")
    ok (archive, uncompressed)

-- `tag.rsplit('}', 1)[-1]`: what is behind the last brace.
unfoldable pub local_name : Text → Text
local_name [] = []
local_name (c ∷ rest) =
    let behind = local_name rest in
    if c == b'}' || any (λ d. d == b'}') rest then behind else c ∷ rest

abbrev pub is_tag : String → Text → Bool
is_tag name tag = text_eq (local_name tag) (codes name)

-- `children.get(key)`: a later child replaces an earlier one with its tag.
unfoldable pub child_text : String → List Child → Option String
child_text key [] = none
child_text key (c ∷ rest) =
    let later = child_text key rest in
    elim later [ some t ↦ some t | none ↦ if is_tag key c.tag then some c.text else none ]

unfoldable pub attribute : String → List (String × String) → Option String
attribute key [] = none
attribute key ((k, v) ∷ rest) = if str_eq k key then some v else attribute key rest

abbrev pub or_text : Option String → Option String → String
or_text (some v) other = v
or_text none (some v) = v
or_text none none = ""

-- `node.attrib.get(key, children.get(key, ''))`
unfoldable pub value_of : String → Node → String
unfolding attribute child_text
value_of key node = or_text (attribute key node.attributes) (child_text key node.children)

abbrev pub room_item_name : String
room_item_name = "Professional Settings.Advanced.Identification Settings.RoomID"

unfoldable pub serial_number : List Node → String
unfolding local_name
serial_number [] = ""
serial_number (node ∷ rest) =
    let later = serial_number rest in if is_tag "SerialNumber" node.tag then node.text else later

unfoldable pub room_number : List Node → String
unfolding local_name value_of
room_number [] = ""
room_number (node ∷ rest) =
    let later = room_number rest in
    if (is_tag "item" node.tag || is_tag "Item" node.tag)
      && str_eq (value_of "Name" node) room_item_name
    then value_of "Value" node
    else later

abbrev pub missing_room : Error
missing_room = value_error "RoomSpecificSettings.xml is missing"

abbrev pub only_name : List String → Result String
only_name [] = err missing_room
only_name (name ∷ []) = ok name
only_name (a ∷ b ∷ rest) =
    err (value_error "clone ZIP has ambiguous RoomSpecificSettings.xml entries")

abbrev pub parsed_xml : Option (List Node) → Result (List Node)
parsed_xml none = err (value_error "RoomSpecificSettings.xml is malformed")
parsed_xml (some nodes) = ok nodes

-- `isascii`, `isdigit` and the length, of a text that is not empty
abbrev pub is_room : String → Bool
is_room room = all is_digit (codes room) && leb (length (codes room)) 16

module _ (lib : ZipLibrary) where
  abbrev pub declares : Text → Bool
  declares xml =
      contains (codes "<!DOCTYPE") (lib.upper xml) || contains (codes "<!ENTITY") (lib.upper xml)

  unfoldable pub room_values : ZipFile → Result (String × String)
  unfolding serial_number room_number
  room_values archive = do
    name ← only_name (
        select
          (λ n.
            one_of n
              ("RoomSpecificSettings.xml" ∷ "RoomSpecificSettings/RoomSpecificSettings.xml" ∷ []))
          archive.names)
    let xml = archive.read name
    refuse (declares xml) (value_error "RoomSpecificSettings.xml declarations are not allowed")
    nodes ← parsed_xml (lib.parse xml)
    let serial = serial_number nodes
    let room = room_number nodes
    refuse (str_eq serial "" || str_eq room "")
        (value_error "RoomSpecificSettings.xml lacks serial or RoomID")
    refuse (not (is_room room)) (value_error "RoomSpecificSettings.xml has an invalid RoomID")
    ok (serial, room)
