-- ===== src/CloneExport/Received/Sound.antt =====
-- What an archive that was received (src/cmnd_linux/clone_export.py) is.
use linux_cmnd.Prelude.{
  ◌≤◌, ◌*◌, ◌^◌, ◌≡◌, refl, String, Bool, true, false, not, ◌&&◌, ◌||◌, Option, none, some, List,
  [], ◌∷◌, arith, all, any, All, length, one_of, select, if◌then◌else◌, &&-eq_true, str_eq,
}
use linux_cmnd.Prelude.Chars.{Text}
use linux_cmnd.Result.{ok}
use linux_cmnd.Result.Chain.{Ensures, Ensures-ok, Ensures-bind, Ensures-refuse}
use linux_cmnd.Artifacts.Members.{special, safe_member, is_link, total_size, seen_text}
use linux_cmnd.Artifacts.Members.Safe.{safe_parts}
use linux_cmnd.Protocol.Requests.{export_items}
use linux_cmnd.CloneExport.Received.{
  Entry, Archive, Received, ReceiveLibrary, has_content, too_dense, members_of, check_entries,
  inspect_received_zip, is_encrypted, any_named, has_channels,
}

pub select-known :
    (p : String → Bool) (names : List String)
    → all (λ n. one_of n export_items) names ≡ true
    → All (λ n. one_of n export_items ≡ true) (select p names)
select-known p [] h = tt
select-known p (n ∷ rest) h =
    let both = &&-eq_true (one_of n export_items) _ h in
    placed (select p rest) (p n) both.0 (select-known p rest both.1)
  where
    placed :
        (xs : List String) (b : Bool)
        → one_of n export_items ≡ true
        → All (λ m. one_of m export_items ≡ true) xs
        → All (λ m. one_of m export_items ≡ true) (elim b [ true ↦ n ∷ xs | false ↦ xs ])
    placed xs true k l = (k, l)
    placed xs false k l = l

module _ (lib : ReceiveLibrary) where
  pub record IsSound (e : Entry) : Type 0 where
    pub parts : List Text
    pub named : safe_member e.member.filename ≡ ok parts
    pub safe : any special parts ≡ false
    pub no_link : is_link e.member ≡ false
    pub sparse : too_dense e.member ≡ false

  either_false : (a b : Bool) → (a || b) ≡ false → (a ≡ false) × (b ≡ false)
  either_false a b h = ground arith

  check_entries-All :
      (seen : List Text) (entries : List Entry)
      → Ensures (λ checked. All IsSound entries) (check_entries lib seen entries)
  unfolding check_entries
  check_entries-All seen [] = Ensures-ok _ tt
  check_entries-All seen (e ∷ rest) = Ensures-bind _ _ λ parts p. Ensures-refuse _ _ _ λ fresh.
      Ensures-refuse _ _ _ λ sparse. Ensures-bind _ _ λ others o.
        let later = check_entries-All (lib.casefold (lib.as_posix parts) ∷ seen) rest in
        let link = either_false (seen_text seen _) (is_link e.member) fresh in
        Ensures-ok _ (
          record {
            parts = parts;
            named = p;
            safe = (safe_parts e.member.filename).holds parts p;
            no_link = link.1;
            sparse = sparse;
          },
          later.holds others o,
        )

  -- What the report says of the archive in the content is so.
  pub record IsReceived (content : Text) (r : Received) : Type 0 where
    pub archive : Archive
    pub opened : lib.open_zip content ≡ ok archive
    pub sized : r.bytes ≡ length content
    pub some_content : any has_content archive.entries ≡ true
    pub few : length archive.entries ≤ 20000
    pub small : total_size (members_of archive.entries) ≤ 4 * 1024 ^ 3
    pub sound : All IsSound archive.entries
    pub counted : r.members ≡ length archive.entries
    pub sealed : r.encrypted ≡ any (is_encrypted lib) archive.entries
    pub intact : r.zip_crc_valid ≡ some true → (r.encrypted ≡ false) × (archive.bad ≡ false)
    pub known : All (λ name. one_of name export_items ≡ true) r.identified_items

  crc_means :
      (encrypted bad : Bool)
      → (not encrypted && bad) ≡ false
      → ◌≡◌ {A = Option Bool} (if encrypted then none else some true) (some true)
      → (encrypted ≡ false) × (bad ≡ false)
  crc_means true bad h k = cc
  crc_means false bad h k = (refl, h)

  pub inspect_received_zip-IsReceived :
      (content : Text) → Ensures (IsReceived content) (inspect_received_zip lib content)
  unfolding inspect_received_zip
  inspect_received_zip-IsReceived content = Ensures-bind _ _ λ archive opened.
      Ensures-refuse _ _ _ λ full. Ensures-refuse _ _ _ λ limits. Ensures-bind _ _ λ checked c.
        Ensures-refuse _ _ _ λ crc. Ensures-ok _ (record {
          archive = archive;
          opened = opened;
          sized = refl;
          some_content = ground arith;
          few = ground arith;
          small = ground arith;
          sound = (check_entries-All [] archive.entries).holds checked c;
          counted = refl;
          sealed = refl;
          intact = crc_means (any (is_encrypted lib) archive.entries) archive.bad crc;
          known =
              select-known
                (λ name.
                  any_named name checked
                  || (str_eq name "TVChannelList" && has_channels lib checked))
                export_items refl;
        })
