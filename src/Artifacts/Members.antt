-- ===== src/Artifacts/Members.antt =====
-- `_safe_member` and the checks of `safe_extract_zip` of src/cmnd_linux/artifacts.py. `casefold` and
-- the test on the resolved path, which follows the links of the target, are the library's. The
-- ratio is compared without the rounding of a float division.
pub mod Safe
use linux_cmnd.Prelude.{
  ℕ, ◌+◌, ◌*◌, ◌/◌, ◌%◌, Bool, true, false, not, ◌&&◌, ◌||◌, List, [], ◌∷◌, ◌==◌, ltb, any, length,
}
use linux_cmnd.Prelude.Chars.{Text, codes, starts_with, text_eq}
use linux_cmnd.Result.{Error, Result, ok, err, unsafe_archive}
use linux_cmnd.Result.Chain.{◌>>=◌, ◌>>◌, refuse}
use linux_cmnd.Simulator.Url.{posix_parts}
use linux_cmnd.Simulator.Archive.{slashed}

-- A `ZipInfo`.
pub record Member : Type 0 where
  pub filename : Text
  pub file_size : ℕ
  pub compress_size : ℕ
  pub external_attr : ℕ

pub record Limits : Type 0 where
  pub max_files : ℕ
  pub max_bytes : ℕ
  pub max_ratio : ℕ

pub record PathLibrary : Type 0 where
  pub as_posix : List Text → Text
  pub casefold : Text → Text
  pub within_target : List Text → Bool

-- `len(normalized) >= 2 and normalized[1] == ':'`
abbrev pub has_drive : Text → Bool
has_drive (a ∷ b ∷ rest) = b == b':'
has_drive _ = false

abbrev pub is_empty_text : Text → Bool
is_empty_text [] = true
is_empty_text (c ∷ cs) = false

abbrev pub special : Text → Bool
special part = is_empty_text part || text_eq part (codes ".") || text_eq part (codes "..")

-- The parts of the path that it returns.
unfoldable pub safe_member : Text → Result (List Text)
safe_member name = do
  let normalized = slashed name
  refuse (starts_with normalized (codes "/") || has_drive normalized)
      (unsafe_archive "absolute/drive archive path rejected")
  refuse (is_empty_text normalized || any special (posix_parts normalized))
      (unsafe_archive "unsafe archive path rejected")
  ok (posix_parts normalized)

abbrev pub total_size : List Member → ℕ
total_size [] = 0
total_size (m ∷ rest) = m.file_size + total_size rest

-- `stat.S_ISLNK(external_attr >> 16)`
abbrev pub is_link : Member → Bool
is_link m = m.external_attr / 65536 / 4096 % 16 == 10

abbrev pub is_dense : Limits → Member → Bool
is_dense limits m =
    not (m.compress_size == 0) && ltb (limits.max_ratio * m.compress_size) m.file_size

abbrev pub seen_text : List Text → Text → Bool
seen_text seen folded = any (text_eq folded) seen

abbrev pub Planned : Type 0
Planned = Member × List Text

module _ (lib : PathLibrary) (limits : Limits) where
  abbrev pub folded : List Text → Text
  folded parts = lib.casefold (lib.as_posix parts)

  -- The loop over the members, with the folded names that it has seen.
  unfoldable pub validate_members : List Text → List Member → Result (List Planned)
  unfolding safe_member
  validate_members seen [] = ok []
  validate_members seen (m ∷ rest) = do
    parts ← safe_member m.filename
    refuse (seen_text seen (folded parts)) (unsafe_archive "normalized-name collision")
    refuse (is_link m) (unsafe_archive "symbolic link rejected")
    refuse (is_dense limits m) (unsafe_archive "compression-ratio limit exceeded")
    refuse (not (lib.within_target parts)) (unsafe_archive "path traversal rejected")
    others ← validate_members (folded parts ∷ seen) rest
    ok ((m, parts) ∷ others)

  -- All checks of `safe_extract_zip` before it writes.
  unfoldable pub plan_extraction : List Member → Result (List Planned)
  unfolding validate_members
  plan_extraction members = do
    refuse (ltb limits.max_files (length members))
        (unsafe_archive "archive file-count limit exceeded")
    refuse (ltb limits.max_bytes (total_size members))
        (unsafe_archive "archive expansion-size limit exceeded")
    validate_members [] members
