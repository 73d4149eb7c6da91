-- ===== src/Updates/Release/Newest.antt =====
-- What `select_release` chose.
use linux_cmnd.Prelude.{
  refl, ◌≤◌, ◌≡◌, String, Bool, true, false, not, ◌&&◌, Option, none, some, List, [], ◌∷◌, arith,
  str_eq, eq_iff, ==_iff, ◌==◌, code, ap, Any, All, if◌then◌else◌, Bool-cases, Option-cases, inl,
  inr, subst, sym, select,
}
use Prim.Native.Char.{Char}
use linux_cmnd.Updates.Manifest.{is_false_iff}
use linux_cmnd.Result.{Result, ok, err, >>=-eq-ok, refuse-eq-ok}
use linux_cmnd.Json.{
  Json, arr, obj, null, str, bool, Fields, Items, lookup, to_list, truthy?, positive, is_bool,
}
use linux_cmnd.Updates.Version.{Version, version_tuple, version_lt}
use linux_cmnd.Updates.Release.{
  Release, Asset, Candidate, candidate, candidates, newest, describe, find_asset, choose,
  select_release, max_package, is_digest, after_v, newer, checked_asset, only_asset, iterated,
  named, package_name,
}

-- Version order.
not_before_trans :
    (a b c : Version) → version_lt b a ≡ false → version_lt c b ≡ false → version_lt c a ≡ false
unfolding version_lt
not_before_trans a b c h k = ground arith

not_before_of_lt : (a b : Version) → version_lt a b ≡ true → version_lt b a ≡ false
unfolding version_lt
not_before_of_lt a b h = ground arith

not_before_refl : (a : Version) → version_lt a a ≡ false
unfolding version_lt
not_before_refl a = ground arith

-- What a candidate has passed: its version is newer than the installed one, it is published, and it
-- is a preview only on the preview channel.
pub record IsPermitted (current : Version) (channel : String) (c : Candidate) : Type 0 where
  pub parsed : version_tuple c.version ≡ ok c.number
  pub later : version_lt current c.number ≡ true
  pub published : is_bool false (lookup "draft" c.fields) ≡ true
  pub preview : (truthy? (lookup "prerelease" c.fields) && not (str_eq channel "preview")) ≡ false

candidate-IsPermitted :
    (current : Version) (channel : String) (release : Json) (c : Candidate)
    → candidate current channel release ≡ some c
    → IsPermitted current channel c
unfolding candidate
candidate-IsPermitted current channel (obj fields) c h = ground arith
candidate-IsPermitted current channel null c h = cc
candidate-IsPermitted current channel _ c h = cc

-- The release of the list that has these fields is published, a preview only on the preview channel,
-- and its tag is `v` and a version that is newer than the installed one.
pub record IsCandidate (current : Version) (channel : String) (release : Json) (fields : Fields)
    (version : String) (number : Version) : Type 0 where
  pub of_object : release ≡ obj fields
  pub published : lookup "draft" fields ≡ some (bool false)
  pub preview : truthy? (lookup "prerelease" fields) ≡ true → channel ≡ "preview"
  pub first : Char
  pub tagged : lookup "tag_name" fields ≡ some (str (String.◌∷◌ first version))
  pub is_v : code first ≡ b'v'
  pub parsed : version_tuple version ≡ ok number
  pub later : version_lt current number ≡ true

record IsTag (o : Option Json) (version : String) : Type 0 where
  pub first : Char
  pub tagged : o ≡ some (str (String.◌∷◌ first version))
  pub is_v : code first ≡ b'v'

after_v-IsTag : (o : Option Json) (version : String) → after_v o ≡ some version → IsTag o version
after_v-IsTag (some (str (String.◌∷◌ c rest))) version h = elim (Bool-cases (code c == b'v')) [
  | inl v ↦ record {
    first = c;
    tagged = ap (λ t. some (str (String.◌∷◌ c t))) (same rest version (rw v at h));
    is_v = (==_iff (code c) b'v').0 v;
  }
  | inr other ↦ absurd (cc (rw other at h))
]
  where
    same : (a b : String) → some a ≡ some b → a ≡ b
    same a b k = cc
after_v-IsTag (some (str String.[])) version h = absurd (cc h)
after_v-IsTag none version h = absurd (cc h)
after_v-IsTag (some null) version h = absurd (cc h)
after_v-IsTag (some _) version h = absurd (cc h)

newer-parts :
    (current : Version) (fields : Fields) (version : String) (r : Result Version) (c : Candidate)
    → newer current fields version r ≡ some c
    → (r ≡ ok c.number)
      × (version_lt current c.number ≡ true)
      × (c.version ≡ version)
      × (c.fields ≡ fields)
newer-parts current fields version (ok number) c h = ground arith
newer-parts current fields version (err e) c h = absurd (cc h)

candidate-IsCandidate :
    (current : Version) (channel : String) (release : Json) (c : Candidate)
    → candidate current channel release ≡ some c
    → IsCandidate current channel release c.fields c.version c.number
unfolding candidate
candidate-IsCandidate current channel (obj fields) c h =
    elim (Bool-cases (is_bool false (lookup "draft" fields))) [
      | inr draft ↦ absurd (cc (rw draft at h))
      | inl published ↦
          elim (Bool-cases
            (truthy? (lookup "prerelease" fields) && not (str_eq channel "preview"))) [
              | inl hidden ↦ absurd (cc (rw (published, hidden) at h))
              | inr shown ↦ elim (Option-cases (after_v (lookup "tag_name" fields))) [
                | inl untagged ↦ absurd (cc (rw (published, shown, untagged) at h))
                | inr (version, tag) ↦ made published shown version (after_v-IsTag _ version tag) (
                    newer-parts current fields version (version_tuple version) c
                      (rw (published, shown, tag) at h))
              ]
            ]
    ]
  where
    allowed : (a b : Bool) → (a && not b) ≡ false → a ≡ true → b ≡ true
    allowed a b h k = ground arith

    made :
        is_bool false (lookup "draft" fields) ≡ true
        → (truthy? (lookup "prerelease" fields) && not (str_eq channel "preview")) ≡ false
        → (version : String) → IsTag (lookup "tag_name" fields) version
        → (version_tuple version ≡ ok c.number)
          × (version_lt current c.number ≡ true)
          × (c.version ≡ version)
          × (c.fields ≡ fields)
        → IsCandidate current channel (obj fields) c.fields c.version c.number
    made published shown version tag (parsed, later, same_version, same_fields) =
        rw (same_version, same_fields)
          (record {
            of_object = refl;
            published = (is_false_iff _).0 published;
            preview = λ k. (eq_iff channel "preview").0 (allowed _ _ shown k);
            first = tag.first;
            tagged = tag.tagged;
            is_v = tag.is_v;
            parsed = parsed;
            later = later;
          })
candidate-IsCandidate current channel null c h = absurd (cc h)
candidate-IsCandidate current channel _ c h = absurd (cc h)

-- Every release that is permitted is a candidate.
IsCandidate-found :
    (current : Version) (channel : String) (release : Json) (fields : Fields) (version : String)
    (number : Version)
    → IsCandidate current channel release fields version number
    → candidate current channel release
      ≡ some (record { number = number; version = version; fields = fields })
unfolding candidate
IsCandidate-found current channel release fields version number h = rw h.of_object (
    rw ((is_false_iff _).1 h.published, shown, h.tagged, (==_iff (code h.first) b'v').1 h.is_v)
      (rw (h.parsed, h.later) refl))
  where
    shown : (truthy? (lookup "prerelease" fields) && not (str_eq channel "preview")) ≡ false
    shown = hidden (truthy? (lookup "prerelease" fields)) refl h.preview
      where
        hidden :
            (b : Bool)
            → truthy? (lookup "prerelease" fields) ≡ b
            → (truthy? (lookup "prerelease" fields) ≡ true → channel ≡ "preview")
            → (b && not (str_eq channel "preview")) ≡ false
        hidden false e k = refl
        hidden true e k = rw ((eq_iff channel "preview").1 (k e)) refl

-- No candidate of the release is newer than `v`.
abbrev pub NotNewer : Version → Option Candidate → Type 0
NotNewer v none = Unit
NotNewer v (some c) = version_lt v c.number ≡ false

module _ (current : Version) (channel : String) where
  candidates-IsPermitted :
      (releases : List Json)
      → All (IsPermitted current channel) (candidates current channel releases)
  unfolding candidates
  candidates-IsPermitted [] = tt
  candidates-IsPermitted (release ∷ rest) =
      elim (Option-cases (candidate current channel release)) [
        | inl e ↦ rw (e, All) (candidates-IsPermitted rest)
        | inr (c, e) ↦
            rw (e, All)
              (candidate-IsPermitted current channel release c e, candidates-IsPermitted rest)
      ]

  abbrev Listed : List Json → Candidate → Type 0
  Listed releases c =
      Any (λ release. IsCandidate current channel release c.fields c.version c.number) releases

  candidates-Listed :
      (releases : List Json) → All (Listed releases) (candidates current channel releases)
  unfolding candidates
  candidates-Listed [] = tt
  candidates-Listed (release ∷ rest) =
      let later = behind (candidates current channel rest) (candidates-Listed rest) in
      elim (Option-cases (candidate current channel release)) [
        | inl e ↦ rw (e, All) later
        | inr (c, e) ↦ rw (e, All) (inl (candidate-IsCandidate current channel release c e), later)
      ]
    where
      behind : (cs : List Candidate) → All (Listed rest) cs → All (Listed (release ∷ rest)) cs
      behind [] h = tt
      behind (c ∷ cs) h = (inr h.0, behind cs h.1)

  -- A permitted release is not newer.
  abbrev pub IsBelow : Version → Json → Type 0
  IsBelow top release =
      (fields : Fields) (version : String) (number : Version)
      → IsCandidate current channel release fields version number
      → version_lt top number ≡ false

  NotNewer-IsBelow :
      (top : Version) (releases : List Json)
      → All (λ release. NotNewer top (candidate current channel release)) releases
      → All (IsBelow top) releases
  NotNewer-IsBelow top [] h = tt
  NotNewer-IsBelow top (release ∷ rest) h = (
    λ fields version number k.
        subst (NotNewer top) (IsCandidate-found current channel release fields version number k)
          h.0,
    NotNewer-IsBelow top rest h.1,
  )

  -- A bound on the candidates is one on the releases.
  NotNewer-candidates :
      (v : Version) (releases : List Json)
      → All (λ c. version_lt v c.number ≡ false) (candidates current channel releases)
      → All (λ release. NotNewer v (candidate current channel release)) releases
  unfolding candidates
  NotNewer-candidates v [] h = tt
  NotNewer-candidates v (release ∷ rest) h =
      elim (Option-cases (candidate current channel release)) [
        | inl e ↦ rw e (tt, NotNewer-candidates v rest (rw (e, candidates) at h))
        | inr (c, e) ↦
            let both = rw (e, candidates) at h in rw e (both.0, NotNewer-candidates v rest both.1)
      ]

abbrev IsTop : Candidate → Candidate → List Candidate → Type 0
IsTop top best rest =
    (version_lt top.number best.number ≡ false)
    × All (λ c. version_lt top.number c.number ≡ false) rest

newest-cons :
    (best c : Candidate) (rest : List Candidate) (b : Bool)
    → version_lt best.number c.number ≡ b
    → newest best (c ∷ rest) ≡ newest (if b then c else best) rest
unfolding newest
newest-cons best c rest b h = rw h

newest-IsTop : (best : Candidate) (rest : List Candidate) → IsTop (newest best rest) best rest
newest-IsTop best [] = unfold newest in (not_before_refl best.number, tt)
newest-IsTop best (c ∷ rest) = elim (Bool-cases (version_lt best.number c.number)) [
  | inl less ↦
      let top = newest-IsTop c rest in
      subst (λ t. IsTop t best (c ∷ rest)) (sym (newest-cons best c rest true less))
        (
          not_before_trans best.number c.number _ (not_before_of_lt best.number c.number less)
              top.0,
          top,
        )
  | inr more ↦
      let top = newest-IsTop best rest in
      subst (λ t. IsTop t best (c ∷ rest)) (sym (newest-cons best c rest false more))
        (top.0, (not_before_trans c.number best.number _ more top.0, top.1))
]

newest-All :
    (P : Candidate → Type 0) (best : Candidate) (rest : List Candidate)
    → P best
    → All P rest
    → P (newest best rest)
unfolding newest
newest-All P best [] h k = h
newest-All P best (c ∷ rest) h (p, k) = elim (Bool-cases (version_lt best.number c.number)) [
  | inl less ↦ subst P (sym (newest-cons best c rest true less)) (newest-All P c rest p k)
  | inr more ↦ subst P (sym (newest-cons best c rest false more)) (newest-All P best rest h k)
]

describe-version :
    (c : Candidate) (r : Release)
    → describe c ≡ ok r
    → (r.version ≡ c.version) × (r.prerelease ≡ truthy? (lookup "prerelease" c.fields))
unfolding describe
describe-version c r h = ground arith

-- An asset that was accepted has a size and an ID in range, and a SHA-256 digest.
pub record IsSound (name : String) (asset : Asset) : Type 0 where
  pub has_id : 1 ≤ asset.id
  pub not_empty : 1 ≤ asset.size
  pub bounded : asset.size ≤ max_package
  pub has_digest : is_digest asset.digest ≡ true
  pub right_name : asset.name ≡ name

checked_asset-IsSound :
    (name : String) (id size : Option Json) (digest : Result String) (a : Asset)
    → checked_asset name (positive id) (positive size) digest ≡ ok a
    → IsSound name a
checked_asset-IsSound name id size digest a h = ground arith

only_asset-IsSound :
    (name : String) (found : List Json) (a : Asset) → only_asset name found ≡ ok a → IsSound name a
only_asset-IsSound name (obj fields ∷ []) a h =
    checked_asset-IsSound name (lookup "id" fields) (lookup "size" fields) _ a h
only_asset-IsSound name [] a h = cc
only_asset-IsSound name (_ ∷ _) a h = cc

find_asset-IsSound :
    (name : String) (fields : Fields) (a : Asset) → find_asset name fields ≡ ok a → IsSound name a
unfolding find_asset
find_asset-IsSound name fields a h =
    let found = >>=-eq-ok (iterated (lookup "assets" fields)) _ h in
    only_asset-IsSound name (select (named name) found.0) a found.2

-- The two assets of a described release.
describe-assets :
    (c : Candidate) (r : Release)
    → describe c ≡ ok r
    → IsSound (package_name c.version) r.deb × IsSound "linux-cmnd-update.json" r.manifest
unfolding describe
describe-assets c r h = (
  find_asset-IsSound (package_name c.version) c.fields r.deb (ground arith),
  find_asset-IsSound "linux-cmnd-update.json" c.fields r.manifest (ground arith),
)

-- What `select_release` promises of the release that it returns.
pub record IsSelected (releases : List Json) (current channel : String) (r : Release) : Type 0 where
  pub installed : Version
  pub number : Version
  pub current_parsed : version_tuple current ≡ ok installed
  pub selected_parsed : version_tuple r.version ≡ ok number
  pub later : version_lt installed number ≡ true
  pub fields : Fields
  pub listed :
      Any (λ release. IsCandidate installed channel release fields r.version number) releases
  pub greatest : All (IsBelow installed channel number) releases
  pub same_prerelease : r.prerelease ≡ truthy? (lookup "prerelease" fields)
  pub channel_kept : (r.prerelease && not (str_eq channel "preview")) ≡ false
  pub deb_sound : IsSound (package_name r.version) r.deb
  pub manifest_sound : IsSound "linux-cmnd-update.json" r.manifest

choose-IsSelected :
    (releases : List Json) (current channel : String) (installed : Version) (r : Release)
    → version_tuple current ≡ ok installed
    → (cs : List Candidate) → candidates installed channel releases ≡ cs
    → choose cs ≡ ok (some r)
    → IsSelected releases current channel r
choose-IsSelected releases current channel installed r parsed [] e h = cc
choose-IsSelected releases current channel installed r parsed (c ∷ rest) e h =
    let top = newest c rest in
    let (described, de, re) = >>=-eq-ok (describe top) _ h in
    let made : describe top ≡ ok r = ground arith in
    let permitted = rw e at (candidates-IsPermitted installed channel releases) in
    let chosen = newest-All (IsPermitted installed channel) c rest permitted.0 permitted.1 in
    let listed = rw e at (candidates-Listed installed channel releases) in
    let texts = describe-version top r made in
    let assets = describe-assets top r made in
    let above = newest-IsTop c rest in
    record {
      installed = installed;
      number = top.number;
      current_parsed = parsed;
      selected_parsed = rw texts.0 chosen.parsed;
      later = chosen.later;
      fields = top.fields;
      listed = rw texts.0 (newest-All (Listed installed channel releases) c rest listed.0 listed.1);
      greatest =
          NotNewer-IsBelow installed channel top.number releases
            (NotNewer-candidates installed channel top.number releases (rw e above));
      same_prerelease = texts.1;
      channel_kept = rw texts.1 chosen.preview;
      deb_sound = rw texts.0 assets.0;
      manifest_sound = assets.1;
    }

-- When `select_release` returns a release of a list of releases, the list has it: it is no draft, its
-- tag is `v` and its version, that version is newer than the installed one, and a preview comes only
-- on the preview channel. No release of the list with these properties is newer, and both assets have
-- an ID, a size from 1 to 64 MiB and a SHA-256 digest.
pub select_release-IsSelected :
    (releases : Items) (current channel : String) (r : Release)
    → select_release (arr releases) current channel ≡ ok (some r)
    → IsSelected (to_list releases) current channel r
unfolding select_release
select_release-IsSelected releases current channel r h =
    let (installed, parsed, rest) = >>=-eq-ok (version_tuple current) _ h in
    let chosen = refuse-eq-ok _ _ _ rest in
    choose-IsSelected (to_list releases) current channel installed r parsed _ refl chosen.1
