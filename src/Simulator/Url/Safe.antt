-- ===== src/Simulator/Url/Safe.antt =====
-- What a clone URL that the simulator accepts (src/cmnd_linux/simulator.py) is.
use linux_cmnd.Prelude.{
  ℕ, zero, suc, ◌≤◌, ◌⊎◌, inl, inr, ◌&&◌, [], ◌∷◌, All, any, one_of, ltb, ◌==◌, ==_iff,
  if◌then◌else◌, Bool-cases, ◌≡◌, refl, String, Bool, true, false, not, ◌||◌, Option, none, some,
  arith, str_eq, eq_iff,
}
use linux_cmnd.Prelude.Chars.{Text, codes, starts_with}
use linux_cmnd.Result.{Result, ok, err, value_error}
use linux_cmnd.Config.PackageUrl.{given}
use linux_cmnd.Result.Chain.{refuse, Ensures, Ensures-ok, Ensures-bind, Ensures-refuse}
use linux_cmnd.Simulator.Url.{
  UrlLibrary, SplitUrl, Origin, origin, allowed_clone_url, same_origin, clone_path_prefix, has_part,
  is_given, port_or, valid_port, named_host, ends_with, loopback_host, host_address, is_served,
}

module _ (lib : UrlLibrary) where
  abbrev pub IsServed : Option Origin → Origin → SplitUrl → String → Type 0
  IsServed (some configured) found parts path =
      (found.scheme ≡ configured.scheme)
      × (found.host ≡ configured.host)
      × (found.port ≡ configured.port)
      × (starts_with (codes path) (codes clone_path_prefix) ≡ true)
  IsServed none found parts path = loopback_host lib (host_address lib parts.hostname) ≡ true

  -- The port that is written, unless it is 0, or that of the scheme.
  abbrev pub IsPort : String → Option ℕ → ℕ → Type 0
  IsPort scheme (some (suc n)) port = port ≡ suc n
  IsPort scheme _ port = port ≡ (if str_eq scheme "https" then 443 else 80)

  -- The origin of an absolute URL of http or https without credentials.
  pub record IsOrigin (parts : SplitUrl) (found : Origin) : Type 0 where
    pub host : String
    pub port : Option ℕ
    pub web : (parts.scheme ≡ "http") ⊎ (parts.scheme ≡ "https")
    pub named : parts.hostname ≡ some host
    pub no_username : is_given parts.username ≡ false
    pub no_password : is_given parts.password ≡ false
    pub numbered : parts.port ≡ ok port
    pub same_scheme : found.scheme ≡ lib.lower parts.scheme
    pub same_host : found.host ≡ lib.lower host
    pub same_port : IsPort found.scheme port found.port

  port_or-IsPort : (scheme : String) (port : Option ℕ) → IsPort scheme port (port_or scheme port)
  port_or-IsPort scheme none = refl
  port_or-IsPort scheme (some zero) = refl
  port_or-IsPort scheme (some (suc n)) = ground arith

  valid_port-ok : (r : Result (Option ℕ)) (port : Option ℕ) → valid_port r ≡ ok port → r ≡ ok port
  valid_port-ok (ok p) port h = h
  valid_port-ok (err e) port h = absurd (cc h)

  named_host-some : (o : Option String) (host : String) → named_host o ≡ ok host → o ≡ some host
  named_host-some none host h = absurd (cc h)
  named_host-some (some x) host h = ground arith

  web_scheme :
      (scheme : String)
      → one_of scheme ("http" ∷ "https" ∷ []) ≡ true
      → (scheme ≡ "http") ⊎ (scheme ≡ "https")
  web_scheme scheme h = elim (Bool-cases (str_eq scheme "http")) [
    | inl e ↦ inl ((eq_iff scheme "http").0 e)
    | inr e ↦ inr ((eq_iff scheme "https").0 (ground arith))
  ]

  both_given : (a b : Bool) → not (a && b) ≡ false → (a ≡ true) × (b ≡ true)
  both_given a b h = ground arith

  neither : (a b : Bool) → (a || b) ≡ false → (a ≡ false) × (b ≡ false)
  neither a b h = ground arith

  origin-IsOrigin : (parts : SplitUrl) → Ensures (IsOrigin parts) (origin lib parts)
  unfolding origin
  origin-IsOrigin parts = Ensures-refuse _ _ _ λ web. Ensures-refuse _ _ _ λ credentials.
      Ensures-bind _ _ λ port p. Ensures-bind _ _ λ host h.
        let scheme =
          both_given (one_of parts.scheme ("http" ∷ "https" ∷ [])) (given parts.hostname) web in
        let open_to = neither (is_given parts.username) (is_given parts.password) credentials in
        Ensures-ok _ (record {
          host = host;
          port = port;
          web = web_scheme parts.scheme scheme.0;
          named = named_host-some parts.hostname host h;
          no_username = open_to.0;
          no_password = open_to.1;
          numbered = valid_port-ok parts.port port p;
          same_scheme = refl;
          same_host = refl;
          same_port = port_or-IsPort (lib.lower parts.scheme) port;
        })

  -- A character that is no control character and no backslash.
  abbrev pub IsPlain : ℕ → Type 0
  IsPlain c = (32 ≤ c) × (c ≡ b'\\' → ⊥)

  plain_of :
      (cs : Text) → (any (λ c. ltb c 32) cs || any (λ c. c == b'\\') cs) ≡ false → All IsPlain cs
  plain_of [] h = tt
  plain_of (c ∷ cs) h =
      let apart = first (ltb c 32) (any (λ d. ltb d 32) cs) (c == b'\\') _ h in
      (plain c apart.0 apart.1, plain_of cs apart.2)
    where
      first :
          (a b c d : Bool)
          → ((a || b) || (c || d)) ≡ false
          → (a ≡ false) × (c ≡ false) × ((b || d) ≡ false)
      first a b c d h = ground arith

      plain : (c : ℕ) → ltb c 32 ≡ false → (c == b'\\') ≡ false → IsPlain c
      plain c h k = (ground arith, λ e. not_it c e k)
        where
          not_it : (c : ℕ) → c ≡ b'\\' → (c == b'\\') ≡ false → ⊥
          not_it c e k = ground arith

  -- The path is that of the URL, without encoding, without a `..` part, and names a ZIP file; the
  -- origin is the configured one, with the path below the clone prefix, or a loopback address.
  pub record IsCloneUrl (accepted : String) (configured : Option Origin) (result : String × String)
      : Type 0 where
    pub parts : SplitUrl
    pub found : Origin
    pub split : lib.urlsplit accepted ≡ ok parts
    pub plain : All IsPlain (codes accepted)
    pub no_query : parts.query ≡ ""
    pub no_fragment : parts.fragment ≡ ""
    pub origin_of : IsOrigin parts found
    pub url : result.0 ≡ lib.urlunsplit parts
    pub unencoded : result.1 ≡ parts.path
    pub no_parents : has_part lib ".." (codes result.1) ≡ false
    pub zip : ends_with (codes ".zip") (codes result.1) ≡ true
    pub served : IsServed configured found parts result.1

  IsServed-holds :
      (configured : Option Origin) (found : Origin) (parts : SplitUrl) (path : String)
      (u : Unit {0})
      → is_served lib configured found parts path ≡ ok u
      → IsServed configured found parts path
  unfolding refuse
  IsServed-holds none found parts path u h = ground arith
  IsServed-holds (some c) found parts path u h =
      let (same, _) = unrefused u h in
      ((eq_iff _ _).0 same.0, (eq_iff _ _).0 same.1, (==_iff found.port c.port).0 same.2, same.3)
    where
      unrefused :
          (u : Unit {0})
          → refuse
              (not (same_origin found c)
                || not (starts_with (codes path) (codes clone_path_prefix)))
              (value_error "clone URL is outside the configured CMND package origin/path")
            ≡ ok u
          → ((str_eq found.scheme c.scheme ≡ true)
              × (str_eq found.host c.host ≡ true)
              × ((found.port == c.port) ≡ true)
              × (starts_with (codes path) (codes clone_path_prefix) ≡ true))
            × Unit {0}
      unrefused u h = (
        parts_of (str_eq found.scheme c.scheme) (str_eq found.host c.host) (found.port == c.port) _
            (ground arith),
        tt,
      )
        where
          parts_of :
              (a b d s : Bool)
              → (not (a && b && d) || not s) ≡ false
              → (a ≡ true) × (b ≡ true) × (d ≡ true) × (s ≡ true)
          parts_of a b d s h = ground arith

  canonical :
      (decoded path : String) (up dot : Bool)
      → (not (str_eq decoded path) || up || dot) ≡ false
      → (decoded ≡ path) × (up ≡ false)
  canonical decoded path up dot h = ((eq_iff decoded path).0 (ground arith), ground arith)

  empty : (a b : Bool) → (not a || not b) ≡ false → (a ≡ true) × (b ≡ true)
  empty a b h = ground arith

  not-eq_false : (b : Bool) → not b ≡ false → b ≡ true
  not-eq_false b h = ground arith

  allowed_clone_url-Ensures :
      (url : String) (configured : Option Origin)
      → Ensures (IsCloneUrl url configured) (allowed_clone_url lib url configured)
  unfolding allowed_clone_url
  allowed_clone_url-Ensures url configured = Ensures-bind _ _ λ parts p. Ensures-bind _ _ λ found o.
      Ensures-refuse _ _ _ λ safe. Ensures-refuse _ _ _ λ plain. Ensures-refuse _ _ _ λ same.
        Ensures-refuse _ _ _ λ zip. Ensures-bind _ _ λ u s.
          let unquestioned = empty (str_eq parts.query "") (str_eq parts.fragment "") plain in
          let clean = canonical (lib.unquote parts.path) parts.path _ _ same in
          Ensures-ok _ (record {
            parts = parts;
            found = found;
            split = p;
            plain = plain_of (codes url) safe;
            no_query = (eq_iff _ _).0 (unquestioned.0);
            no_fragment = (eq_iff _ _).0 (unquestioned.1);
            origin_of = (origin-IsOrigin parts).holds found o;
            url = refl;
            unencoded = clean.0;
            no_parents = clean.1;
            zip = not-eq_false _ zip;
            served = IsServed-holds configured found parts (lib.unquote parts.path) u s;
          })

  -- An accepted clone URL is one of http or https with a host and no credentials, query, fragment,
  -- control character or backslash; its path has no encoding and no `..` part, and ends in `.zip`.
  -- With a configured origin it has the scheme, host and port of that, and a path below the clone
  -- prefix; without one its host is a literal loopback address.
  pub allowed_clone_url-IsCloneUrl :
      (url : String) (configured : Option Origin) (result : String × String)
      → allowed_clone_url lib url configured ≡ ok result
      → IsCloneUrl url configured result
  allowed_clone_url-IsCloneUrl url configured result h =
      (allowed_clone_url-Ensures url configured).holds result h
