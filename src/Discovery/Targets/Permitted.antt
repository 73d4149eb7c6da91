-- ===== src/Discovery/Targets/Permitted.antt =====
-- Which addresses a scan (src/cmnd_linux/discovery.py) may contact.
use linux_cmnd.Prelude.{
  ℕ, ◌≤◌, ◌≡◌, refl, String, Bool, true, false, ◌||◌, Option, none, some, List, [], ◌∷◌, arith, any,
  All, length, map, if◌then◌else◌,
}
use linux_cmnd.Result.{ok}
use linux_cmnd.Result.Chain.{Ensures, Ensures-ok, Ensures-bind, Ensures-refuse}
use linux_cmnd.Config.Types.{Address, IpLibrary, Config}
use linux_cmnd.Discovery.Targets.{
  Network, same_address, address_lt, add_address, addresses_of, network_of, no_addresses, outside,
  not_isolated, add_addresses, add_targets, scan_addresses, scan_targets,
}

abbrev pub has : List Address → Address → Bool
has xs a = any (same_address a) xs

abbrev pub Ascending : List Address → Type 0
Ascending [] = Unit
Ascending (x ∷ xs) = All (λ y. address_lt x y ≡ true) xs × Ascending xs

lt_trans : (a b c : Address) → address_lt a b ≡ true → address_lt b c ≡ true → address_lt a c ≡ true
lt_trans a b c h k = ground arith

lt_total :
    (a b : Address) → same_address a b ≡ false → address_lt a b ≡ false → address_lt b a ≡ true
lt_total a b h k = ground arith

below_all :
    (a x : Address) (xs : List Address)
    → address_lt a x ≡ true
    → All (λ y. address_lt x y ≡ true) xs
    → All (λ y. address_lt a y ≡ true) xs
below_all a x [] h k = tt
below_all a x (y ∷ ys) h k = (lt_trans a x y h k.0, below_all a x ys h k.1)

pub add_address-All :
    (P : Address → Type 0) (a : Address) (xs : List Address)
    → P a
    → All P xs
    → All P (add_address a xs)
unfolding add_address
add_address-All P a [] p h = (p, tt)
add_address-All P a (x ∷ xs) p h =
    let later = add_address-All P a xs p h.1 in placed (same_address a x) (address_lt a x) later
  where
    placed :
        (b c : Bool)
        → All P (add_address a xs)
        → All P (if b then x ∷ xs else if c then a ∷ x ∷ xs else x ∷ add_address a xs)
    placed true c later = h
    placed false true later = (p, h)
    placed false false later = (h.0, later)

add_address-Ascending :
    (a : Address) (xs : List Address) → Ascending xs → Ascending (add_address a xs)
unfolding add_address
add_address-Ascending a [] h = (tt, tt)
add_address-Ascending a (x ∷ xs) h =
    let later = add_address-Ascending a xs h.1 in
    placed (same_address a x) (address_lt a x) refl refl later
  where
    placed :
        (b c : Bool)
        → same_address a x ≡ b
        → address_lt a x ≡ c
        → Ascending (add_address a xs)
        → Ascending (if b then x ∷ xs else if c then a ∷ x ∷ xs else x ∷ add_address a xs)
    placed true c e f later = h
    placed false true e f later = ((f, below_all a x xs f h.0), h)
    placed false false e f later =
        (add_address-All (λ y. address_lt x y ≡ true) a xs (lt_total a x e f) h.0, later)

-- The address is there, and so is what was there before.
pub add_address-has :
    (a : Address) (xs : List Address)
    → (has (add_address a xs) a ≡ true)
      × ((y : Address) → has xs y ≡ true → has (add_address a xs) y ≡ true)
unfolding add_address
add_address-has a [] = (ground arith, λ y h. ground arith)
add_address-has a (x ∷ xs) =
    let later = add_address-has a xs in placed (same_address a x) (address_lt a x) refl later
  where
    placed :
        (b c : Bool)
        → same_address a x ≡ b
        → (has (add_address a xs) a ≡ true)
          × ((y : Address) → has xs y ≡ true → has (add_address a xs) y ≡ true)
        → (has (if b then x ∷ xs else if c then a ∷ x ∷ xs else x ∷ add_address a xs) a ≡ true)
          × ((y : Address)
              → has (x ∷ xs) y ≡ true
              → has (if b then x ∷ xs else if c then a ∷ x ∷ xs else x ∷ add_address a xs) y ≡ true)
    placed true c e later = (ground arith, λ y h. h)
    placed false true e later = (ground arith, λ y h. ground arith)
    placed false false e later =
        (ground (arith, later.0), λ y h. kept y (same_address y x) (later.1 y) h)
      where
        kept :
            (y : Address) (b : Bool)
            → (has xs y ≡ true → has (add_address a xs) y ≡ true)
            → (b || has xs y) ≡ true
            → (b || has (add_address a xs) y) ≡ true
        kept y true k h = refl
        kept y false k h = k h

module _ (lib : IpLibrary) (ip_network : String → Option Network) (config : Config) where
  -- An address that the configuration lets a scan contact.
  abbrev pub IsPermitted : Address → Type 0
  IsPermitted a =
      (outside lib ip_network config a ≡ false) × (not_isolated lib ip_network config a ≡ false)

  -- A set of targets: permitted addresses in order, each once.
  pub record AreTargets (xs : List Address) : Type 0 where
    pub permitted : All IsPermitted xs
    pub ascending : Ascending xs

  pub record Extends (before wanted after : List Address) : Type 0 where
    pub targets : AreTargets after
    pub kept : (y : Address) → has before y ≡ true → has after y ≡ true
    pub added : All (λ a. has after a ≡ true) wanted

  add_addresses-Extends :
      (result wanted : List Address)
      → AreTargets result
      → Ensures (Extends result wanted) (add_addresses lib ip_network config result wanted)
  unfolding add_addresses
  add_addresses-Extends result [] t =
      Ensures-ok _ (record { targets = t; kept = λ y h. h; added = tt })
  add_addresses-Extends result (a ∷ rest) t = Ensures-refuse _ _ _ λ inside.
      Ensures-refuse _ _ _ λ isolated.
        let here = add_address-has a result in
        let next : AreTargets (add_address a result) = record {
          permitted = add_address-All IsPermitted a result (inside, isolated) t.permitted;
          ascending = add_address-Ascending a result t.ascending;
        } in
        let others = add_addresses-Extends (add_address a result) rest next in
        record {
          holds = λ after found.
              let e = others.holds after found in
              record {
                targets = e.targets;
                kept = λ y h. e.kept y (here.1 y h);
                added = (e.kept a here.0, e.added);
              };
        }

  -- Every address of every requested network is a target.
  abbrev pub Covered : List Address → String → Type 0
  Covered xs target =
      (network : Network) × (ip_network target ≡ some network)
      × All (λ a. has xs a ≡ true) (addresses_of network)

  all_kept :
      (before after wanted : List Address)
      → ((y : Address) → has before y ≡ true → has after y ≡ true)
      → All (λ a. has before a ≡ true) wanted
      → All (λ a. has after a ≡ true) wanted
  all_kept before after [] k h = tt
  all_kept before after (a ∷ rest) k h = (k a h.0, all_kept before after rest k h.1)

  network_of-some : (o : Option Network) (n : Network) → network_of o ≡ ok n → o ≡ some n
  network_of-some none n h = cc
  network_of-some (some m) n h = ground arith

  pub record IsScan (max_targets : ℕ) (before : List Address) (requested : List String)
      (after : List Address) : Type 0 where
    pub targets : AreTargets after
    pub kept : (y : Address) → has before y ≡ true → has after y ≡ true
    pub covered : All (Covered after) requested
    pub capped : length after ≤ max_targets

  add_targets-IsScan :
      (max_targets : ℕ) (result : List Address) (requested : List String)
      → AreTargets result
      → length result ≤ max_targets
      → Ensures
          (IsScan max_targets result requested)
          (add_targets lib ip_network config max_targets result requested)
  unfolding add_targets
  add_targets-IsScan max_targets result [] t small =
      Ensures-ok _ (record { targets = t; kept = λ y h. h; covered = tt; capped = small })
  add_targets-IsScan max_targets result (target ∷ rest) t small = Ensures-bind _ _ λ network n.
      Ensures-refuse _ _ _ λ few. Ensures-bind _ _ λ more m. Ensures-refuse _ _ _ λ cap.
        let e = (add_addresses-Extends result (addresses_of network) t).holds more m in
        let others = add_targets-IsScan max_targets more rest e.targets (ground arith) in
        record {
          holds = λ after found.
              let s = others.holds after found in
              record {
                targets = s.targets;
                kept = λ y h. s.kept y (e.kept y h);
                covered = (
                  (
                    network,
                    network_of-some (ip_network target) network n,
                    all_kept more after (addresses_of network) s.kept e.added,
                  ),
                  s.covered,
                );
                capped = s.capped;
              };
        }

  pub record IsTargetList (requested : List String) (max_targets : ℕ) (texts : List String)
      : Type 0 where
    pub addresses : List Address
    pub shown : texts ≡ map lib.show addresses
    pub some_target : no_addresses addresses ≡ false
    pub scan : IsScan max_targets [] requested addresses

  -- The targets of a scan are permitted unicast addresses, on loopback in isolated mode, in order
  -- and each once, at least one and no more than the cap, and every address of every requested
  -- network is among them.
  pub scan_targets-IsTargetList :
      (requested : List String) (max_targets : ℕ)
      → Ensures
          (IsTargetList requested max_targets)
          (scan_targets lib ip_network config requested max_targets)
  unfolding scan_targets scan_addresses
  scan_targets-IsTargetList requested max_targets = Ensures-bind _ _ λ result found. Ensures-ok _ (
      let r = (addresses_found).holds result found in
      record { addresses = result; shown = refl; some_target = r.0; scan = r.1 })
    where
      addresses_found :
          Ensures
            (λ xs. (no_addresses xs ≡ false) × IsScan max_targets [] requested xs)
            (scan_addresses lib ip_network config requested max_targets)
      addresses_found =
          unfold scan_addresses in
          Ensures-refuse _ _ _ λ cap. Ensures-refuse _ _ _ λ nets. Ensures-bind _ _ λ result found.
            Ensures-refuse _ _ _ λ some_target. Ensures-ok _ (
              some_target,
              (add_targets-IsScan max_targets [] requested
                    (record { permitted = tt; ascending = tt }) (omega arith)).holds
                  result found,
            )
