-- ===== src/Artifacts/Members/Safe.antt =====
-- What `safe_extract_zip` (src/cmnd_linux/artifacts.py) may write.
use linux_cmnd.Prelude.{◌≤◌, ◌≡◌, refl, true, false, List, [], ◌∷◌, arith, any, All, length}
use linux_cmnd.Prelude.Chars.{Text}
use linux_cmnd.Result.{ok}
use linux_cmnd.Result.Chain.{Ensures, Ensures-ok, Ensures-bind, Ensures-refuse}
use linux_cmnd.Artifacts.Members.{
  Member, Limits, PathLibrary, Planned, special, safe_member, total_size, is_link, is_dense,
  seen_text, folded, validate_members, plan_extraction,
}

pub safe_parts : (name : Text) → Ensures (λ parts. any special parts ≡ false) (safe_member name)
unfolding safe_member
safe_parts name =
    Ensures-refuse _ _ _ λ _. Ensures-refuse _ _ _ λ plain. Ensures-ok _ (ground arith)

module _ (lib : PathLibrary) (limits : Limits) where
  -- A member that may be written: no part of its path is special, it is within the target, no link
  -- and not too dense.
  pub record IsSafe (p : Planned) : Type 0 where
    pub parts_safe : any special p.1 ≡ false
    pub inside : lib.within_target p.1 ≡ true
    pub no_link : is_link p.0 ≡ false
    pub sparse : is_dense limits p.0 ≡ false

  -- No folded name is among those before it.
  abbrev pub AreDistinct : List Text → List Planned → Type 0
  AreDistinct seen [] = Unit
  AreDistinct seen ((m, parts) ∷ rest) =
      (seen_text seen (folded lib limits parts) ≡ false)
      × AreDistinct (folded lib limits parts ∷ seen) rest

  abbrev pub members_of : List Planned → List Member
  members_of [] = []
  members_of ((m, parts) ∷ rest) = m ∷ members_of rest

  pub record ArePlanned (seen : List Text) (members : List Member) (ps : List Planned)
      : Type 0 where
    pub safe : All IsSafe ps
    pub unique : AreDistinct seen ps
    pub complete : members_of ps ≡ members

  validate_members-ArePlanned :
      (seen : List Text) (members : List Member)
      → Ensures (ArePlanned seen members) (validate_members lib limits seen members)
  unfolding validate_members
  validate_members-ArePlanned seen [] =
      Ensures-ok _ (record { safe = tt; unique = tt; complete = refl })
  validate_members-ArePlanned seen (m ∷ rest) = Ensures-bind _ _ λ parts made.
      Ensures-refuse _ _ _ λ new. Ensures-refuse _ _ _ λ link. Ensures-refuse _ _ _ λ dense.
        Ensures-refuse _ _ _ λ inside. Ensures-bind _ _ λ others found.
          let later =
            (validate_members-ArePlanned (folded lib limits parts ∷ seen) rest).holds others
              found in
          let sound : IsSafe (m, parts) = record {
            parts_safe = (safe_parts m.filename).holds parts made;
            inside = ground arith;
            no_link = link;
            sparse = dense;
          } in
          Ensures-ok _ (record {
            safe = (sound, later.safe);
            unique = (new, later.unique);
            complete = ground (arith, later.complete);
          })

  pub record IsPlan (members : List Member) (ps : List Planned) : Type 0 where
    pub few : length members ≤ limits.max_files
    pub small : total_size members ≤ limits.max_bytes
    pub planned : ArePlanned [] members ps

  -- When the checks pass, the archive is within its limits of files and bytes, and each member, in
  -- its order, has a path with no `..` part that stays in the target, is no link and not too dense,
  -- and has another folded name than those before it.
  pub plan_extraction-IsPlan :
      (members : List Member) (ps : List Planned)
      → plan_extraction lib limits members ≡ ok ps
      → IsPlan members ps
  plan_extraction-IsPlan members ps h = whole.holds ps h
    where
      whole : Ensures (IsPlan members) (plan_extraction lib limits members)
      whole =
          unfold plan_extraction in
          Ensures-refuse _ _ _ λ few. Ensures-refuse _ _ _ λ small. record {
            holds = λ qs found. record {
              few = ground arith;
              small = ground arith;
              planned = (validate_members-ArePlanned [] members).holds qs found;
            };
          }
