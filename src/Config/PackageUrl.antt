-- ===== src/Config/PackageUrl.antt =====
-- `Config.validate_package_url` of src/cmnd_linux/config.py.
use linux_cmnd.Prelude.{
  ℕ, ◌≡◌, String, Bool, true, false, not, ◌&&◌, ◌||◌, Option, none, some, List, [], ◌∷◌, arith, ltb,
  ◌==◌, str_eq, any, All, if◌then◌else◌,
}
use linux_cmnd.Prelude.Chars.{Text, codes, text_eq, starts_with}
use linux_cmnd.Result.{Error, Result, ok, err, config_error, ◌>>=◌, ◌>>◌, refuse, refuse-eq-ok}
use linux_cmnd.Config.Types.{Config}

-- What `urlparse` returns; `path` is the path after `unquote`. Reading the port may raise.
pub record ParsedUrl : Type 0 where
  pub scheme : String
  pub hostname : Option String
  pub port : Result (Option ℕ)
  pub username : Option String
  pub password : Option String
  pub query : String
  pub fragment : String
  pub path : Text

abbrev pub option_eq : Option String → Option String → Bool
option_eq none none = true
option_eq (some a) (some b) = str_eq a b
option_eq _ _ = false

abbrev pub port_eq : Option ℕ → Option ℕ → Bool
port_eq none none = true
port_eq (some a) (some b) = a == b
port_eq _ _ = false

-- `bool(text)`, where `None` is false too
abbrev pub given : Option String → Bool
given none = false
given (some s) = not (str_eq s "")

abbrev pub prepend : ℕ → List Text → List Text
prepend c [] = (c ∷ []) ∷ []
prepend c (part ∷ parts) = (c ∷ part) ∷ parts

-- `path.split('/')`
unfoldable pub split_path : Text → List Text
split_path [] = [] ∷ []
split_path (c ∷ cs) = let rest = split_path cs in if c == b'/' then [] ∷ rest else prepend c rest

abbrev pub is_dots : Text → Bool
is_dots part = text_eq part (codes ".") || text_eq part (codes "..")

unfoldable pub ambiguous : Text → Bool
unfolding split_path
ambiguous path =
    any (λ c. c == b'\\') path
    || any (λ c. c == b'%') path
    || any (λ c. ltb c 32) path
    || any is_dots (split_path path)

abbrev pub clone_prefix : Text
clone_prefix = codes "/SmartInstall/Profile/Clone/"

abbrev pub wrong_host : Error
wrong_host = config_error "clone URL must use the configured callback host and port"

module _ (urlparse : String → ParsedUrl) where
  unfoldable pub validate_package_url : Config → String → Result (Unit {0})
  unfolding ambiguous
  validate_package_url c url = do
    let expected = urlparse c.callback_base_url
    let candidate = urlparse url
    refuse
        (not (
          str_eq candidate.scheme expected.scheme
          && option_eq candidate.hostname expected.hostname))
        wrong_host
    port ← candidate.port
    wanted ← expected.port
    refuse (not (port_eq port wanted)) wrong_host
    refuse
        (given candidate.username
          || given candidate.password
          || not (str_eq candidate.fragment "")
          || not (str_eq candidate.query ""))
        (config_error "clone URLs must not contain credentials, query, or fragment")
    refuse (ambiguous candidate.path)
        (config_error "clone URL contains ambiguous path encoding or traversal")
    refuse (not (starts_with candidate.path clone_prefix))
        (config_error "clone URL is outside the authorized SmartInstall clone prefix")

  -- A path under the clone prefix with no `.` or `..` part, backslash, percent or control sign.
  pub record IsConfined (path : Text) : Type 0 where
    pub under : starts_with path clone_prefix ≡ true
    pub plain : All (λ c. (c == b'\\') ≡ false) path
    pub unescaped : All (λ c. (c == b'%') ≡ false) path
    pub printable : All (λ c. ltb c 32 ≡ false) path
    pub no_dots : All (λ part. is_dots part ≡ false) (split_path path)

  all_of_none :
      {A : Type 0} (p : A → Bool) (xs : List A) → any p xs ≡ false → All (λ x. p x ≡ false) xs
  all_of_none p [] h = tt
  all_of_none p (x ∷ xs) h = (ground arith, all_of_none p xs (ground arith))

  four :
      (a b d e : Bool)
      → (a || b || d || e) ≡ false
      → (a ≡ false) × (b ≡ false) × (d ≡ false) × (e ≡ false)
  four a b d e h = ground arith

  clear-IsConfined :
      (path : Text)
      → ambiguous path ≡ false
      → starts_with path clone_prefix ≡ true
      → IsConfined path
  unfolding ambiguous
  clear-IsConfined path h s =
      let parts = four _ _ _ (any is_dots (split_path path)) h in
      record {
        under = s;
        plain = all_of_none _ path parts.0;
        unescaped = all_of_none _ path parts.1;
        printable = all_of_none _ path parts.2;
        no_dots = all_of_none is_dots (split_path path) parts.3;
      }

  port_settles :
      (p q : Result (Option ℕ)) (k : Option ℕ → Option ℕ → Result (Unit {0}))
      → (p >>= λ a. q >>= λ b. k a b) ≡ ok tt
      → (a : Option ℕ) × (b : Option ℕ) × (k a b ≡ ok tt)
  port_settles (ok a) (ok b) k h = (a, b, h)
  port_settles (ok a) (err e) k h = cc
  port_settles (err e) q k h = cc

  -- What an accepted URL has: the origin of the callback, no credentials, and a confined path.
  pub record IsPackageUrl (c : Config) (url : String) : Type 0 where
    pub same_scheme : str_eq (urlparse url).scheme (urlparse c.callback_base_url).scheme ≡ true
    pub same_host : option_eq (urlparse url).hostname (urlparse c.callback_base_url).hostname ≡ true
    pub no_username : given (urlparse url).username ≡ false
    pub no_password : given (urlparse url).password ≡ false
    pub confined : IsConfined (urlparse url).path

  -- An accepted clone URL has the scheme and host of the callback URL and no credentials, and its
  -- unquoted path lies under the clone prefix with no `.` or `..` part, backslash, percent sign or
  -- control character.
  pub validate_package_url-IsPackageUrl :
      (c : Config) (url : String) → validate_package_url c url ≡ ok tt → IsPackageUrl c url
  unfolding validate_package_url
  validate_package_url-IsPackageUrl c url h =
      let origin =
        refuse-eq-ok
          (not (
            str_eq (urlparse url).scheme (urlparse c.callback_base_url).scheme
            && option_eq (urlparse url).hostname (urlparse c.callback_base_url).hostname))
          wrong_host _ h in
      let ports = port_settles (urlparse url).port (urlparse c.callback_base_url).port _ origin.1 in
      let parts = refuse-eq-ok (not (port_eq ports.0 ports.1)) wrong_host _ ports.2 in
      let named = both _ (option_eq (urlparse url).hostname _) origin.0 in
      let plain =
        refuse-eq-ok
          (given (urlparse url).username
            || given (urlparse url).password
            || not (str_eq (urlparse url).fragment "")
            || not (str_eq (urlparse url).query ""))
          (config_error "clone URLs must not contain credentials, query, or fragment") _ parts.1 in
      let tests = four _ _ _ (not (str_eq (urlparse url).query "")) plain.0 in
      let clear =
        refuse-eq-ok (ambiguous (urlparse url).path)
          (config_error "clone URL contains ambiguous path encoding or traversal") _ plain.1 in
      let under : starts_with (urlparse url).path clone_prefix ≡ true =
        guarded (starts_with (urlparse url).path clone_prefix) _ clear.1 in
      record {
        same_scheme = named.0;
        same_host = named.1;
        no_username = tests.0;
        no_password = tests.1;
        confined = clear-IsConfined (urlparse url).path clear.0 under;
      }
    where
      both : (a b : Bool) → not (a && b) ≡ false → (a ≡ true) × (b ≡ true)
      both a b h = ground arith

      guarded : (b : Bool) (e : Error) → refuse (not b) e ≡ ok tt → b ≡ true
      guarded b e h = ground arith
