-- ===== src/Simulator/Archive/Valid.antt =====
-- What an archive that the simulator (src/cmnd_linux/simulator.py) accepts is.
use linux_cmnd.Prelude.{
  ℕ, ◌+◌, ◌%◌, ◌==◌, ◌≤◌, ◌≡◌, ◌||◌, Option, none, some, any, Bool, String, true, false, List, [],
  ◌∷◌, arith, All, length, str_eq,
}
use linux_cmnd.Prelude.Chars.{Text, codes, starts_with, text_eq}
use linux_cmnd.Simulator.Url.{posix_parts}
use linux_cmnd.Result.{ok}
use linux_cmnd.Result.Chain.{Ensures, Ensures-ok, Ensures-bind, Ensures-refuse}
use linux_cmnd.Simulator.Archive.{
  Entry, ZipFile, ZipLibrary, max_clone_bytes, max_uncompressed_bytes, max_zip_entries,
  unsafe_entry, slashed, opened_zip, entries_size, validate_zip, room_values, is_room, is_some,
}

abbrev pub sum_sizes : List Entry → ℕ
sum_sizes [] = 0
sum_sizes (e ∷ rest) = e.file_size + sum_sizes rest

-- The name is relative and has no `..` part, both read with `/` for a backslash, and the entry is
-- not encrypted.
pub record IsSafeEntry (e : Entry) : Type 0 where
  pub relative : starts_with (slashed e.filename) (codes "/") ≡ false
  pub no_parent : any (λ part. text_eq part (codes "..")) (posix_parts (slashed e.filename)) ≡ false
  pub unencrypted : (e.flag_bits % 2 == 1) ≡ false

unsafe_entry-false : (e : Entry) → unsafe_entry e ≡ false → IsSafeEntry e
unsafe_entry-false e h =
    let parts = three (starts_with (slashed e.filename) (codes "/")) _ (e.flag_bits % 2 == 1) h in
    record { relative = parts.0; no_parent = parts.1; unencrypted = parts.2 }
  where
    three : (a b c : Bool) → (a || b || c) ≡ false → (a ≡ false) × (b ≡ false) × (c ≡ false)
    three a b c h = ground arith

-- Every entry is safe, and the sizes are those that were counted, within the limit.
pub record IsCounted (total : ℕ) (entries : List Entry) (n : ℕ) : Type 0 where
  pub safe : All IsSafeEntry entries
  pub counted : n ≡ total + sum_sizes entries
  pub bounded : n ≤ max_uncompressed_bytes

entries_size-IsCounted :
    (total : ℕ) (entries : List Entry)
    → total ≤ max_uncompressed_bytes
    → Ensures (IsCounted total entries) (entries_size total entries)
unfolding entries_size
entries_size-IsCounted total [] h =
    Ensures-ok _ (record { safe = tt; counted = omega arith; bounded = h })
entries_size-IsCounted total (e ∷ rest) h = Ensures-refuse _ _ _ λ safe.
    Ensures-refuse _ _ _ λ small.
      let others = entries_size-IsCounted (total + e.file_size) rest (ground arith) in
      record {
        holds = λ n found.
            let c = others.holds n found in
            record {
              safe = (unsafe_entry-false e safe, c.safe);
              counted = omega (arith, c.counted);
              bounded = c.bounded;
            };
      }

pub record IsPackage (lib : ZipLibrary) (payload : Text) (r : ZipFile × ℕ) : Type 0 where
  pub opened : lib.open_zip payload ≡ some r.0
  pub not_empty : 1 ≤ length payload
  pub not_large : length payload ≤ max_clone_bytes
  pub some_entries : 1 ≤ length r.0.infos
  pub few_entries : length r.0.infos ≤ max_zip_entries
  pub counted : IsCounted 0 r.0.infos r.1
  pub intact : is_some r.0.bad ≡ false

opened_zip-some :
    (o : Option ZipFile) (archive : ZipFile) → opened_zip o ≡ ok archive → o ≡ some archive
opened_zip-some none archive h = absurd (cc h)
opened_zip-some (some x) archive h = ground arith

module _ (lib : ZipLibrary) where
  -- An accepted package is opened as an archive; it has 1 byte to 16 MiB and 1 to 256 entries, none of them encrypted, absolute
  -- or with a `..` part; the result is the sum of their sizes, at most 32 MiB; and no entry is bad.
  pub validate_zip-IsPackage :
      (payload : Text) (r : ZipFile × ℕ) → validate_zip lib payload ≡ ok r → IsPackage lib payload r
  validate_zip-IsPackage payload r h = whole.holds r h
    where
      whole : Ensures (IsPackage lib payload) (validate_zip lib payload)
      whole =
          unfold validate_zip in
          Ensures-refuse _ _ _ λ size. Ensures-bind _ _ λ archive o. Ensures-refuse _ _ _ λ count.
            Ensures-bind _ _ λ n counted. Ensures-refuse _ _ _ λ intact. Ensures-ok _ (record {
              opened = opened_zip-some (lib.open_zip payload) archive o;
              not_empty = ground arith;
              not_large = ground arith;
              some_entries = ground arith;
              few_entries = ground arith;
              counted = (entries_size-IsCounted 0 archive.infos (omega arith)).holds n counted;
              intact = intact;
            })

  pub record IsRoom (r : String × String) : Type 0 where
    pub has_serial : str_eq r.0 "" ≡ false
    pub has_room : str_eq r.1 "" ≡ false
    pub digits : is_room r.1 ≡ true

  pub room_values-IsRoom : (archive : ZipFile) → Ensures IsRoom (room_values lib archive)
  unfolding room_values
  room_values-IsRoom archive = Ensures-bind _ _ λ name _. Ensures-refuse _ _ _ λ _.
      Ensures-bind _ _ λ nodes _. Ensures-refuse _ _ _ λ given. Ensures-refuse _ _ _ λ digits.
        Ensures-ok _
          (record { has_serial = ground arith; has_room = ground arith; digits = ground arith })
