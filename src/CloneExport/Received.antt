-- ===== src/CloneExport/Received.antt =====
-- `export_capabilities`, `inspect_received_zip` and the files of `extract_multipart_files` in
-- src/cmnd_linux/clone_export.py. The archive is what `zipfile` read; sorting, hashes and the file
-- names on the disk are left out.
pub mod Sound
pub mod Files
pub mod Sizes
use linux_cmnd.Prelude.{
  ℕ, ◌+◌, ◌*◌, ◌^◌, ◌%◌, String, Bool, true, false, not, ◌&&◌, ◌||◌, Option, none, some, List, [],
  ◌∷◌, ◌++◌, ltb, leb, ◌==◌, all, any, length, select, one_of, str_eq, if◌then◌else◌,
}
use linux_cmnd.Prelude.Chars.{Text, codes, text_eq, starts_with, is_letter, is_digit}
use linux_cmnd.Result.{Error, Result, ok, err, value_error, config_error}
use linux_cmnd.Result.Chain.{◌>>=◌, ◌>>◌, refuse}
use linux_cmnd.Json.{Json, str, obj, arr, Fields, lookup, to_list}
use linux_cmnd.Json.Access.{or_value}
use linux_cmnd.Simulator.Archive.{slashed}
use linux_cmnd.Artifacts.Members.{Member, safe_member, is_link, seen_text, total_size}
use linux_cmnd.Protocol.Requests.{export_items}
use linux_cmnd.CloneExport.Multipart.{Part, multipart}

pub record Capabilities : Type 0 where
  pub ready : Bool
  pub available_items : List String
  pub session_start : Option Json

abbrev pub dict_of : Error → Option Json → Result Fields
dict_of bad (some (obj fields)) = ok fields
dict_of bad _ = err bad

abbrev pub list_of : Error → Option Json → Result (List Json)
list_of bad (some (arr items)) = ok (to_list items)
list_of bad _ = err bad

abbrev pub exported_name : Option Json → Option String
exported_name (some (str s)) = if one_of s export_items then some s else none
exported_name _ = none

abbrev pub item_name : Json → Option String
item_name (obj fields) = exported_name (lookup "CloneItemName" fields)
item_name _ = none

unfoldable pub item_names : List Json → List String
item_names [] = []
item_names (item ∷ rest) =
    let others = item_names rest in elim (item_name item) [ none ↦ others | some s ↦ s ∷ others ]

-- `details.get('CloneToServerParameters') if isinstance(details, dict) else None`
abbrev pub server_parameters : Option Json → Option Json
server_parameters (some (obj fields)) = lookup "CloneToServerParameters" fields
server_parameters _ = none

module _ (to_str : Json → String) (lower : String → String) where
  unfoldable pub export_capabilities : Fields → Result Capabilities
  unfolding item_names
  export_capabilities response = do
    params ←
        dict_of (config_error "TV did not advertise clone-export parameters")
          (server_parameters (lookup "CommandDetails" response))
    session ←
        dict_of
          (config_error "TV did not advertise the vendor clone-export capability/session fields")
          (lookup "CloneToServerSessionStatus" params)
    items ←
        list_of
          (config_error "TV did not advertise the vendor clone-export capability/session fields")
          (lookup "CloneItemsAvailableToServer" params)
    ok (record {
      ready =
          str_eq (lower (to_str (or_value (str "") (lookup "CloneToServerStatus" params)))) "ready";
      available_items = item_names items;
      session_start = lookup "SessionStartTime" session;
    })

-- A `ZipInfo`.
pub record Entry : Type 0 where
  pub member : Member
  pub flag_bits : ℕ
  pub is_dir : Bool

-- An archive; `bad` says whether `testzip` found a bad member.
pub record Archive : Type 0 where
  pub entries : List Entry
  pub bad : Bool

pub record Received : Type 0 where
  pub bytes : ℕ
  pub members : ℕ
  pub identified_items : List String
  pub encrypted : Bool
  pub zip_crc_valid : Option Bool

pub record ReceiveLibrary : Type 0 where
  pub open_zip : Text → Result Archive
  pub as_posix : List Text → Text
  pub casefold : Text → Text
  pub lower : Text → Text
  pub filename : Text → Option Text
  pub content_type : String → String
  pub boundary : String → Option Text

abbrev pub members_of : List Entry → List Member
members_of [] = []
members_of (e ∷ rest) = e.member ∷ members_of rest

abbrev pub has_content : Entry → Bool
has_content e = not e.is_dir && ltb 0 e.member.file_size

abbrev pub too_dense : Member → Bool
too_dense m = not (m.compress_size == 0) && ltb (1000 * m.compress_size) m.file_size

abbrev pub is_named : List Text → String → Bool
is_named parts name = any (λ part. text_eq part (codes name)) parts

abbrev pub channel_marker : Text → Bool
channel_marker path =
    text_eq path (codes "ChannelList/htvchlist.db")
    || text_eq path (codes "ChannelList/ChannelList_Identifier.txt")

-- The two markers that are files with content.
abbrev pub has_marker_file : (List Text → Text) → Text → List (Entry × List Text) → Bool
has_marker_file as_posix path [] = false
has_marker_file as_posix path ((e, parts) ∷ rest) =
    (ltb 0 e.member.file_size && text_eq (as_posix parts) path)
    || has_marker_file as_posix path rest

abbrev pub any_named : String → List (Entry × List Text) → Bool
any_named name [] = false
any_named name ((e, parts) ∷ rest) = is_named parts name || any_named name rest

module _ (lib : ReceiveLibrary) where
  -- The loop over the entries, with the folded names that it has seen.
  unfoldable pub check_entries : List Text → List Entry → Result (List (Entry × List Text))
  check_entries seen [] = ok []
  check_entries seen (e ∷ rest) = do
    parts ← safe_member e.member.filename
    let folded = lib.casefold (lib.as_posix parts)
    refuse (seen_text seen folded || is_link e.member)
        (value_error "ambiguous or symlink ZIP member")
    refuse (too_dense e.member) (value_error "received ZIP expansion ratio exceeds limit")
    others ← check_entries (folded ∷ seen) rest
    ok ((e, parts) ∷ others)

  abbrev pub has_channels : List (Entry × List Text) → Bool
  has_channels checked =
      has_marker_file lib.as_posix (codes "ChannelList/htvchlist.db") checked
      && has_marker_file lib.as_posix (codes "ChannelList/ChannelList_Identifier.txt") checked

  -- Parts that are names of items, and the channel list by its two files.
  abbrev pub identified : List (Entry × List Text) → List String
  identified checked =
      select
        (λ name. any_named name checked || (str_eq name "TVChannelList" && has_channels checked))
        export_items

  abbrev pub is_encrypted : Entry → Bool
  is_encrypted e = e.flag_bits % 2 == 1

  unfoldable pub inspect_received_zip : Text → Result Received
  unfolding check_entries
  inspect_received_zip content = do
    archive ← lib.open_zip content
    refuse (not (any has_content archive.entries))
        (value_error "received ZIP has no nonempty file content")
    refuse
        (ltb 20000 (length archive.entries)
          || ltb (4 * 1024 ^ 3) (total_size (members_of archive.entries)))
        (value_error "received ZIP exceeds safe inspection limits")
    checked ← check_entries [] archive.entries
    let encrypted = any is_encrypted archive.entries
    refuse (not encrypted && archive.bad) (value_error "received ZIP CRC validation failed")
    ok (record {
      bytes = length content;
      members = length archive.entries;
      identified_items = identified checked;
      encrypted = encrypted;
      zip_crc_valid = if encrypted then none else some true;
    })

  -- `rsplit('/', 1)[-1]`
  unfoldable pub base_name : Text → Text
  base_name [] = []
  base_name (c ∷ rest) =
      let behind = base_name rest in
      if c == b'/' || any (λ d. d == b'/') rest then behind else c ∷ rest

  -- `basename[:-4] if basename.lower().endswith('.zip') else basename`
  unfoldable pub without_zip : Text → Text
  without_zip [] = []
  without_zip (c ∷ rest) =
      let stem = without_zip rest in
      if text_eq (lib.lower (c ∷ rest)) (codes ".zip") then [] else c ∷ stem

  abbrev pub stem_of : Text → Text
  stem_of filename = without_zip (base_name (slashed filename))

  -- The name of the file may name an item.
  abbrev pub with_stem : Text → Received → Received
  with_stem filename r = record r {
    identified_items =
        select (λ name. one_of name r.identified_items || text_eq (stem_of filename) (codes name))
          export_items;
  }

  -- The file of a part, if it has a name.
  abbrev pub file_of : Option Text → Part → Result (List Received)
  file_of none part = do
    refuse (ltb 65536 (length part.content)) (value_error "oversized multipart text field")
    ok []
  file_of (some filename) part = do
    r ← inspect_received_zip part.content
    ok (with_stem filename r ∷ [])

  unfoldable pub files_of : List Part → Result (List Received)
  unfolding inspect_received_zip
  files_of [] = ok []
  files_of (part ∷ rest) = do
    file ← file_of (lib.filename part.headers) part
    others ← files_of rest
    ok (file ++ others)

  -- `[A-Za-z0-9'()+_,./:=?-]`
  abbrev pub is_boundary_char : ℕ → Bool
  is_boundary_char c = is_letter c || is_digit c || any (λ d. d == c) (codes "'()+_,./:=?-")

  abbrev pub is_boundary : Text → Bool
  is_boundary b = leb 1 (length b) && leb (length b) 70 && all is_boundary_char b

  abbrev pub boundary_of : String → Option Text → Result Text
  boundary_of type none = err (value_error "invalid multipart boundary")
  boundary_of type (some b) =
      if str_eq type "multipart/form-data" && is_boundary b
      then ok b
      else err (value_error "invalid multipart boundary")

  abbrev pub no_files : List Received → Bool
  no_files [] = true
  no_files (r ∷ rest) = false

  -- The delimiters are looked for before any part is inspected, which the source does in turn: it
  -- raises in the same cases, but where two parts are bad it may be the exception of the other.
  unfoldable pub extract_files : String → Text → Result (List Received)
  unfolding files_of
  extract_files content_type body = do
    boundary ← boundary_of (lib.content_type content_type) (lib.boundary content_type)
    parts ← multipart boundary body
    files ← files_of parts
    refuse (no_files files) (value_error "clone upload contained no files")
    ok files
