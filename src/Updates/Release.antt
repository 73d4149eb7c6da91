-- ===== src/Updates/Release.antt =====
-- `select_release` and `check_release` of src/cmnd_linux/updates.py, on what GitHub answered.
pub mod Newest
use Prim.Native.String.{◌++◌ as ◌<>◌}
use linux_cmnd.Prelude.{
  ℕ, ◌*◌, ◌^◌, String, Bool, true, false, not, ◌&&◌, ◌||◌, Option, none, some, List, [], ◌∷◌, leb,
  ==_iff, code, ◌==◌, str_eq, all, length, drop, any, select, one_of, if◌then◌else◌,
}
use linux_cmnd.Prelude.Chars.{Text, codes, is_hex, starts_with}
use linux_cmnd.Result.{Error, Result, ok, err, update_error, type_error, ◌>>=◌, ◌>>◌, refuse}
use linux_cmnd.Json.{
  Json, str, arr, obj, Fields, lookup, Items, to_list, truthy?, is_bool, is_text, positive,
}
use linux_cmnd.Updates.Version.{Version, version_tuple, version_lt}

-- `MAX_PACKAGE`
abbrev pub max_package : ℕ
max_package = 64 * 1024 ^ 2

pub record Asset : Type 0 where
  pub id : ℕ
  pub size : ℕ
  pub digest : String
  pub name : String

-- The result of `select_release`: `assets` has one entry for the package and one for the manifest.
pub record Release : Type 0 where
  pub version : String
  pub release_id : ℕ
  pub deb : Asset
  pub manifest : Asset
  pub prerelease : Bool

pub record Candidate : Type 0 where
  pub number : Version
  pub version : String
  pub fields : Fields

-- `tag.startswith('v')` with `tag[1:]`
abbrev pub after_v : Option Json → Option String
after_v (some (str (String.◌∷◌ c rest))) = if code c == b'v' then some rest else none
after_v _ = none

abbrev pub newer : Version → Fields → String → Result Version → Option Candidate
newer current fields version (ok number) =
    if version_lt current number
    then some (record { number = number; version = version; fields = fields })
    else none
newer current fields version (err e) = none

-- One round of the loop over the releases: the candidate that it appends, if any.
unfoldable pub candidate : Version → String → Json → Option Candidate
candidate current channel (obj fields) =
    if is_bool false (lookup "draft" fields)
    then (if truthy? (lookup "prerelease" fields) && not (str_eq channel "preview")
        then none
        else elim (after_v (lookup "tag_name" fields)) [
          | none ↦ none
          | some version ↦ newer current fields version (version_tuple version)
        ])
    else none
candidate current channel _ = none

unfoldable pub candidates : Version → String → List Json → List Candidate
candidates current channel [] = []
candidates current channel (release ∷ rest) =
    let others = candidates current channel rest in
    elim (candidate current channel release) [ none ↦ others | some c ↦ c ∷ others ]

-- `max(candidates, key=…)`: the first of those with the greatest version.
unfoldable pub newest : Candidate → List Candidate → Candidate
newest best [] = best
newest best (c ∷ rest) = newest (if version_lt best.number c.number then c else best) rest

-- `sha256:[a-f0-9]{64}`
unfoldable pub is_digest : String → Bool
is_digest digest =
    starts_with (codes digest) (codes "sha256:")
    && length (drop 7 (codes digest)) == 64
    && all is_hex (drop 7 (codes digest))

-- `asset.get('digest') or ''`, which `re.fullmatch` wants to be a text
abbrev pub digest_text : Option Json → Result String
digest_text none = ok ""
digest_text (some (str s)) = ok s
digest_text v = if truthy? v then err (type_error "expected string") else ok ""

abbrev pub invalid_asset : Error
invalid_asset = update_error "release asset lacks a valid size, ID or GitHub SHA-256 digest"

abbrev pub checked_asset : String → Option ℕ → Option ℕ → Result String → Result Asset
checked_asset name (some id) (some size) digest =
    if leb size max_package
    then (do
      d ← digest
      if is_digest d
          then ok (record { id = id; size = size; digest = d; name = name })
          else err invalid_asset)
    else err invalid_asset
checked_asset name _ _ digest = err invalid_asset

-- `isinstance(asset, dict) and asset.get('name') == name`
abbrev pub named : String → Json → Bool
named name (obj fields) = is_text name (lookup "name" fields)
named name _ = false

abbrev pub only_asset : String → List Json → Result Asset
only_asset name (obj fields ∷ []) =
    checked_asset name (positive (lookup "id" fields)) (positive (lookup "size" fields))
      (digest_text (lookup "digest" fields))
only_asset name _ =
    err (update_error "new release lacks an unambiguous installable package/manifest")

-- `release.get('assets', [])`: what is no list has no `dict` to offer, or cannot be iterated over.
abbrev pub iterated : Option Json → Result (List Json)
iterated none = ok []
iterated (some (arr items)) = ok (to_list items)
iterated (some (str s)) = ok []
iterated (some (obj fields)) = ok []
iterated (some _) = err (type_error "object is not iterable")

unfoldable pub find_asset : String → Fields → Result Asset
unfolding is_digest
find_asset name fields = do
  assets ← iterated (lookup "assets" fields)
  only_asset name (select (named name) assets)

abbrev pub package_name : String → String
package_name version = "linux-cmnd_" <> (version <> "_amd64.deb")

abbrev pub with_id : Option ℕ → Result ℕ
with_id (some id) = ok id
with_id none = err (update_error "release lacks a valid immutable ID")

unfoldable pub describe : Candidate → Result Release
describe c = do
  release_id ← with_id (positive (lookup "id" c.fields))
  deb ← find_asset (package_name c.version) c.fields
  manifest ← find_asset "linux-cmnd-update.json" c.fields
  ok (record {
    version = c.version;
    release_id = release_id;
    deb = deb;
    manifest = manifest;
    prerelease = truthy? (lookup "prerelease" c.fields);
  })

abbrev pub choose : List Candidate → Result (Option Release)
choose [] = ok none
choose (c ∷ rest) = do release ← describe (newest c rest); ok (some release)

abbrev pub releases_of : Json → Result (List Json)
releases_of (arr items) = ok (to_list items)
releases_of _ = err (update_error "invalid release channel/response")

unfoldable pub select_release : Json → String → String → Result (Option Release)
select_release releases current channel = do
  current_version ← version_tuple current
  refuse (not (one_of channel ("stable" ∷ "preview" ∷ [])))
      (update_error "invalid release channel/response")
  items ← releases_of releases
  choose (candidates current_version channel items)
