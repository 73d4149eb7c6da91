-- ===== src/Config/Authorize.antt =====
-- `Config.authorize` of src/cmnd_linux/config.py.
use linux_cmnd.Prelude.{
  ◌≡◌, refl, ap, sym, ◌∙◌, ◌↔◌, ◌++◌, All, Bool-cases, eq_iff, String, Bool, true, false, not, ◌&&◌,
  Option, none, some, List, [], ◌∷◌, arith, any, str_eq, one_of, if◌then◌else◌, Option-cases, inl,
  inr,
}
use linux_cmnd.Result.{Result, ok, err, config_error, ◌>>=◌, ◌>>◌, refuse}
use linux_cmnd.Config.Types.{Address, IpLibrary, AllowedTv, Config, write_operations}

-- `next((tv for tv in … if …), None)`
unfoldable pub find_tv : String → String → List AllowedTv → Option AllowedTv
find_tv ip identity [] = none
find_tv ip identity (tv ∷ rest) =
    let later = find_tv ip identity rest in
    if str_eq tv.ip ip && str_eq tv.identity identity then some tv else later

-- The TV is the first of the list with the address and the identity.
pub record IsFirst (ip identity : String) (tvs : List AllowedTv) (tv : AllowedTv) : Type 0 where
  pub before : List AllowedTv
  pub after : List AllowedTv
  pub split : tvs ≡ before ++ tv ∷ after
  pub none_before : All (λ t. (t.ip ≡ ip) × (t.identity ≡ identity) → ⊥) before
  pub same_ip : tv.ip ≡ ip
  pub same_identity : tv.identity ≡ identity

and_true : (a b : Bool) → (a && b) ≡ true → (a ≡ true) × (b ≡ true)
and_true a b h = ground arith

differs :
    (ip identity : String) (t : AllowedTv)
    → (str_eq t.ip ip && str_eq t.identity identity) ≡ false
    → (t.ip ≡ ip) × (t.identity ≡ identity)
    → ⊥
differs ip identity t h (e, f) =
    different (str_eq t.ip ip) (str_eq t.identity identity) ((eq_iff t.ip ip).1 e)
      ((eq_iff t.identity identity).1 f) h
  where
    different : (a b : Bool) → a ≡ true → b ≡ true → (a && b) ≡ false → ⊥
    different a b k l m = ground arith

find_tv-IsFirst :
    (ip identity : String) (tvs : List AllowedTv) (tv : AllowedTv)
    → find_tv ip identity tvs ≡ some tv
    → IsFirst ip identity tvs tv
unfolding find_tv
find_tv-IsFirst ip identity [] tv h = absurd (cc h)
find_tv-IsFirst ip identity (t ∷ rest) tv h =
    let later = find_tv-IsFirst ip identity rest tv in
    elim (Bool-cases (str_eq t.ip ip && str_eq t.identity identity)) [
      | inl same ↦ here same (rw same at h)
      | inr other ↦ there other (later (rw other at h))
    ]
  where
    here :
        (str_eq t.ip ip && str_eq t.identity identity) ≡ true
        → some t ≡ some tv
        → IsFirst ip identity (t ∷ rest) tv
    here same h =
        let e = some_injective t tv h in
        let both = and_true _ _ same in
        record {
          before = [];
          after = rest;
          split = ap (λ x. x ∷ rest) e;
          none_before = tt;
          same_ip = ap (λ x. x.ip) (sym e) ∙ (eq_iff t.ip ip).0 both.0;
          same_identity = ap (λ x. x.identity) (sym e) ∙ (eq_iff t.identity identity).0 both.1;
        }
      where
        some_injective : (a b : AllowedTv) → some a ≡ some b → a ≡ b
        some_injective a b k = cc

    there :
        (str_eq t.ip ip && str_eq t.identity identity) ≡ false
        → IsFirst ip identity rest tv
        → IsFirst ip identity (t ∷ rest) tv
    there other k = record {
      before = t ∷ k.before;
      after = k.after;
      split = ap (λ l. t ∷ l) k.split;
      none_before = (differs ip identity t other, k.none_before);
      same_ip = k.same_ip;
      same_identity = k.same_identity;
    }

found_first :
    (ip identity : String) (tv : AllowedTv) (before after : List AllowedTv)
    → All (λ t. (t.ip ≡ ip) × (t.identity ≡ identity) → ⊥) before
    → tv.ip ≡ ip
    → tv.identity ≡ identity
    → find_tv ip identity (before ++ tv ∷ after) ≡ some tv
unfolding find_tv
found_first ip identity tv [] after h e f =
    rw ((eq_iff tv.ip ip).1 e, (eq_iff tv.identity identity).1 f) refl
found_first ip identity tv (t ∷ before) after (apart, h) e f =
    let later = found_first ip identity tv before after h e f in
    elim (Bool-cases (str_eq t.ip ip && str_eq t.identity identity)) [
      | inl same ↦
          let both = and_true (str_eq t.ip ip) (str_eq t.identity identity) same in
          absurd (apart ((eq_iff t.ip ip).0 both.0, (eq_iff t.identity identity).0 both.1))
      | inr other ↦ rw other later
    ]

IsFirst-found :
    (ip identity : String) (tvs : List AllowedTv) (tv : AllowedTv)
    → IsFirst ip identity tvs tv
    → find_tv ip identity tvs ≡ some tv
IsFirst-found ip identity tvs tv h =
    ap (find_tv ip identity) h.split
    ∙ found_first ip identity tv h.before h.after h.none_before h.same_ip h.same_identity

module _ (lib : IpLibrary) (c : Config) where
  abbrev pub parsed_target : Option Address → Result Address
  parsed_target (some a) = ok a
  parsed_target none = err (config_error "write target must be a literal IP address")

  abbrev pub approved : String → Option AllowedTv → Result (Unit {0})
  approved operation none =
      err (
        config_error "write blocked: IP and stable MAC/serial identity are not jointly allowlisted")
  approved operation (some tv) =
      refuse (not (one_of operation tv.operations))
        (config_error "write blocked: operation is not approved for this device")

  -- The tests on the address of the target.
  abbrev pub reachable : Address → Bool
  reachable a =
      not (str_eq c.mode "isolated" && not (lib.is_loopback a))
      && any (λ net. lib.contains net a) c.permitted_ranges

  unfoldable pub authorize : String → String → String → Bool → Result (Unit {0})
  unfolding find_tv
  authorize target identity operation execute = do
    refuse (not (one_of operation write_operations)) (config_error "unsupported control operation")
    refuse (not execute)
        (config_error "write blocked: pass --execute after reviewing the exact target")
    addr ← parsed_target (lib.ip_address target)
    refuse (str_eq c.mode "isolated" && not (lib.is_loopback addr))
        (config_error "isolated mode permits only loopback TV targets")
    refuse (not (any (λ net. lib.contains net addr) c.permitted_ranges))
        (config_error "write target is outside permitted_ranges")
    approved operation (find_tv (lib.show addr) identity c.allowed_tvs)

  -- What a write needs.
  pub record IsAuthorized (target identity operation : String) (execute : Bool) : Type 0 where
    pub address : Address
    pub tv : AllowedTv
    pub supported : one_of operation write_operations ≡ true
    pub executed : execute ≡ true
    pub literal : lib.ip_address target ≡ some address
    pub isolated : (str_eq c.mode "isolated" && not (lib.is_loopback address)) ≡ false
    pub permitted : any (λ net. lib.contains net address) c.permitted_ranges ≡ true
    pub listed : IsFirst (lib.show address) identity c.allowed_tvs tv
    pub approves : one_of operation tv.operations ≡ true

  module _ (target identity operation : String) (execute : Bool) where
    found-IsAuthorized :
        (a : Address) (tv : AllowedTv)
        → lib.ip_address target ≡ some a
        → find_tv (lib.show a) identity c.allowed_tvs ≡ some tv
        → authorize target identity operation execute ≡ ok tt
        → IsAuthorized target identity operation execute
    unfolding authorize
    found-IsAuthorized a tv e f h = record {
      address = a;
      tv = tv;
      supported = ground arith;
      executed = ground arith;
      literal = e;
      isolated = ground arith;
      permitted = ground arith;
      listed = find_tv-IsFirst (lib.show a) identity c.allowed_tvs tv f;
      approves = ground arith;
    }

    accepted-IsAuthorized :
        authorize target identity operation execute ≡ ok tt
        → IsAuthorized target identity operation execute
    accepted-IsAuthorized h = elim (Option-cases (lib.ip_address target)) [
      | inl bad ↦ absurd (unparsed bad h)
      | inr (a, e) ↦ elim (Option-cases (find_tv (lib.show a) identity c.allowed_tvs)) [
        | inl missing ↦ absurd (unlisted a e missing h)
        | inr (tv, f) ↦ found-IsAuthorized a tv e f h
      ]
    ]
      where
        unparsed :
            lib.ip_address target ≡ none → authorize target identity operation execute ≡ ok tt → ⊥
        unparsed e k = unfold authorize in ground arith

        unlisted :
            (a : Address)
            → lib.ip_address target ≡ some a
            → find_tv (lib.show a) identity c.allowed_tvs ≡ none
            → authorize target identity operation execute ≡ ok tt
            → ⊥
        unlisted a e f k = unfold authorize in ground arith

    -- A write is authorized exactly when its operation is a write operation, `--execute` was given,
    -- the target is a literal address, on loopback in isolated mode and in a permitted range, and
    -- the first TV of the allowlist with that address and identity approves the operation.
    pub authorize-iff-IsAuthorized :
        (authorize target identity operation execute ≡ ok tt)
        ↔ IsAuthorized target identity operation execute
    unfolding authorize
    authorize-iff-IsAuthorized = (
      accepted-IsAuthorized,
      λ w. ground (
        arith,
        w.supported,
        w.executed,
        w.literal,
        w.isolated,
        w.permitted,
        IsFirst-found (lib.show w.address) identity c.allowed_tvs w.tv w.listed,
        w.approves,
      ),
    )
