-- ===== src/Discovery/Inventory/Consistent.antt =====
-- The inventory of src/cmnd_linux/discovery.py keeps its keys.
use linux_cmnd.Prelude.{
  ℕ, ◌≡◌, refl, String, true, false, Option, none, some, List, [], ◌∷◌, All, All-map, ap, str_eq,
  Bool-cases, inl, inr, eq_iff, sym, if◌then◌else◌, ◌∙◌,
}
use linux_cmnd.Result.Chain.{Ensures, Ensures-ok, Ensures-bind, Ensures-refuse}
use linux_cmnd.Json.{Json, ℤ}
use linux_cmnd.Config.Types.{IpLibrary, Config}
use linux_cmnd.Protocol.Send.{Transport}
use linux_cmnd.Discovery.Targets.{Network}
use linux_cmnd.Discovery.Identify.{Tv}
use linux_cmnd.Discovery.Identify.Verified.{IsVerified, verify_identity-IsVerified}
use linux_cmnd.Discovery.Inventory.{find_ip, conflicts, upsert, save, add_tv}

-- Two rows share neither identity nor address.
abbrev pub Apart : Tv → Tv → Type 0
Apart a b = (str_eq a.identity b.identity ≡ false) × (str_eq a.ip b.ip ≡ false)

abbrev pub IsInventory : List Tv → Type 0
IsInventory [] = Unit
IsInventory (row ∷ rest) = All (Apart row) rest × IsInventory rest

abbrev pub find_identity : String → List Tv → Option Tv
find_identity identity [] = none
find_identity identity (row ∷ rest) =
    if str_eq row.identity identity then some row else find_identity identity rest

str_eq_sym : (a b : String) → str_eq a b ≡ false → str_eq b a ≡ false
str_eq_sym a b h = elim (Bool-cases (str_eq b a)) [
  | inl same ↦ absurd (cc (sym h ∙ (eq_iff a b).1 (sym ((eq_iff b a).0 same))))
  | inr other ↦ other
]

-- A row with another identity has another address.
abbrev Free : Tv → Tv → Type 0
Free tv row = str_eq row.identity tv.identity ≡ false → str_eq row.ip tv.ip ≡ false

str_eq_replace : (a b c : String) → str_eq a b ≡ true → str_eq a c ≡ false → str_eq b c ≡ false
str_eq_replace a b c same h = rw ((eq_iff a b).0 same) at h

module _ (tv : Tv) where
  no_conflict :
      (rows : List Tv)
      → IsInventory rows
      → conflicts tv.identity (find_ip tv.ip rows) ≡ false
      → All (Free tv) rows
  unfolding find_ip
  no_conflict [] i h = tt
  no_conflict (row ∷ rest) i h =
      let later = no_conflict rest i.1 in
      elim (Bool-cases (str_eq row.ip tv.ip)) [
        | inl same ↦ (
          λ other. absurd (cc (other, rw (same, other) at h)),
          All-map (Apart row) (Free tv) rest
              (λ r apart _. str_eq_sym tv.ip r.ip (str_eq_replace row.ip tv.ip r.ip same apart.1))
              i.0,
        )
        | inr other ↦ ((λ _. other), later (rw other at h))
      ]

  replaced :
      (row : Tv) (rest : List Tv)
      → str_eq row.identity tv.identity ≡ true
      → All (Apart row) rest
      → All (Free tv) rest
      → All (Apart tv) rest
  replaced row [] same a f = tt
  replaced row (r ∷ rest) same a f =
      let other = str_eq_replace row.identity tv.identity r.identity same a.0.0 in
      (
        (other, str_eq_sym r.ip tv.ip (f.0 (str_eq_sym tv.identity r.identity other))),
        replaced row rest same a.1 f.1,
      )

  upsert-All : (P : Tv → Type 0) (rows : List Tv) → P tv → All P rows → All P (upsert tv rows)
  unfolding upsert
  upsert-All P [] p h = (p, tt)
  upsert-All P (row ∷ rest) p h =
      let later = upsert-All P rest p h.1 in
      elim (Bool-cases (str_eq row.identity tv.identity)) [
        | inl same ↦ rw same (p, h.1)
        | inr other ↦ rw other (h.0, later)
      ]

  upsert-IsInventory :
      (rows : List Tv) → IsInventory rows → All (Free tv) rows → IsInventory (upsert tv rows)
  unfolding upsert
  upsert-IsInventory [] i f = (tt, tt)
  upsert-IsInventory (row ∷ rest) i f =
      let later = upsert-IsInventory rest i.1 f.1 in
      elim (Bool-cases (str_eq row.identity tv.identity)) [
        | inl same ↦ rw same (replaced row rest same i.0 f.1, i.1)
        | inr other ↦ rw other (upsert-All (Apart row) rest (other, f.0 other) i.0, later)
      ]

  upsert-found : (rows : List Tv) → find_identity tv.identity (upsert tv rows) ≡ some tv
  unfolding upsert
  upsert-found [] = rw ((eq_iff tv.identity tv.identity).1 refl) refl
  upsert-found (row ∷ rest) =
      let later = upsert-found rest in
      elim (Bool-cases (str_eq row.identity tv.identity)) [
        | inl same ↦ rw (same, (eq_iff tv.identity tv.identity).1 refl) refl
        | inr other ↦ rw (other, other) later
      ]

  upsert-others :
      (identity : String) (rows : List Tv)
      → str_eq tv.identity identity ≡ false
      → find_identity identity (upsert tv rows) ≡ find_identity identity rows
  unfolding upsert
  upsert-others identity [] h = rw h refl
  upsert-others identity (row ∷ rest) h =
      let later = upsert-others identity rest h in
      elim (Bool-cases (str_eq row.identity tv.identity)) [
        | inl same ↦
            rw (same, h, str_eq_replace tv.identity row.identity identity (flip same) h) refl
        | inr other ↦
            rw other (ap (λ o. if str_eq row.identity identity then some row else o) later)
      ]
    where
      flip : str_eq row.identity tv.identity ≡ true → str_eq tv.identity row.identity ≡ true
      flip same =
          (eq_iff tv.identity row.identity).1 (sym ((eq_iff row.identity tv.identity).0 same))

  -- The TV is in the inventory, whose keys are unique, and no other entry has changed.
  pub record IsSaved (rows after : List Tv) : Type 0 where
    pub inventory : IsInventory after
    pub saved : find_identity tv.identity after ≡ some tv
    pub others :
        (identity : String)
        → str_eq tv.identity identity ≡ false
        → find_identity identity after ≡ find_identity identity rows

  save-IsSaved : (rows : List Tv) → IsInventory rows → Ensures (IsSaved rows) (save tv rows)
  unfolding save
  save-IsSaved rows i = Ensures-refuse _ _ _ λ free. Ensures-ok _ (record {
    inventory = upsert-IsInventory rows i (no_conflict rows i free);
    saved = upsert-found rows;
    others = λ identity h. upsert-others identity rows h;
  })

module _ (lib : IpLibrary) (to_str : Json → String) (now : String) (net : Transport)
    (ip_network : String → Option Network) (config : Config) where
  pub record IsAdded (fresh : ℤ) (target expected : String) (port : ℕ) (rows after : List Tv)
      : Type 0 where
    pub tv : Tv
    pub verified : IsVerified lib to_str now net ip_network config fresh target expected port tv
    pub saved : IsSaved tv rows after

  -- What is added to an inventory with unique keys is a TV that was verified; the keys stay unique
  -- and the entries of other identities stay as they were.
  pub add_tv-IsAdded :
      (fresh : ℤ) (target expected : String) (port : ℕ) (rows : List Tv)
      → IsInventory rows
      → Ensures
          (IsAdded fresh target expected port rows)
          (add_tv lib to_str now net ip_network config fresh target expected port rows)
  unfolding add_tv
  add_tv-IsAdded fresh target expected port rows i = Ensures-bind _ _ λ tv v. record {
    holds = λ after s. record {
      tv = tv;
      verified =
          (verify_identity-IsVerified lib to_str now net ip_network config fresh target expected
              port).holds
            tv v;
      saved = (save-IsSaved tv rows i).holds after s;
    };
  }
