-- ===== src/Simulator/Url.antt =====
-- `_origin`, `_configured_origin` and `_allowed_clone_url` of src/cmnd_linux/simulator.py.
-- `urlsplit`, `urlunsplit`, `unquote`, `lower` and `ip_address` are the libraries'.
pub mod Safe
use linux_cmnd.Prelude.{
  ℕ, String, Bool, true, false, not, ◌&&◌, ◌||◌, Option, none, some, List, [], ◌∷◌, ◌++◌, ltb, ◌==◌,
  str_eq, any, one_of, select, if◌then◌else◌,
}
use linux_cmnd.Prelude.Chars.{Text, codes, text_eq, starts_with, contains}
use linux_cmnd.Result.{Error, Result, ok, err, value_error}
use linux_cmnd.Result.Chain.{◌>>=◌, ◌>>◌, refuse}
use linux_cmnd.Config.Types.{Address}
use linux_cmnd.Config.PackageUrl.{given, split_path}

-- What `urlsplit` returns. Reading the port may raise.
pub record SplitUrl : Type 0 where
  pub scheme : String
  pub hostname : Option String
  pub username : Option String
  pub password : Option String
  pub port : Result (Option ℕ)
  pub query : String
  pub fragment : String
  pub path : String

pub record UrlLibrary : Type 0 where
  pub urlsplit : String → Result SplitUrl
  pub urlunsplit : SplitUrl → String
  pub unquote : String → String
  pub lower : String → String
  pub ip_address : String → Option Address
  pub is_loopback : Address → Bool

pub record Origin : Type 0 where
  pub scheme : String
  pub host : String
  pub port : ℕ

abbrev pub clone_path_prefix : String
clone_path_prefix = "/SmartInstall/Profile/Clone/"

abbrev pub is_given : Option String → Bool
is_given none = false
is_given (some s) = true

-- `port or (443 if scheme == 'https' else 80)`
abbrev pub default_port : String → ℕ
default_port scheme = if str_eq scheme "https" then 443 else 80

abbrev pub port_or : String → Option ℕ → ℕ
port_or scheme none = default_port scheme
port_or scheme (some p) = if p == 0 then default_port scheme else p

abbrev pub named_host : Option String → Result String
named_host none = err (value_error "URL must use HTTP or HTTPS and include a host")
named_host (some h) = ok h

abbrev pub valid_port : Result (Option ℕ) → Result (Option ℕ)
valid_port (ok p) = ok p
valid_port (err e) = err (value_error "URL has an invalid port")

-- `PurePosixPath(path).parts` but for the root: empty and `.` parts are dropped.
abbrev pub is_part : Text → Bool
is_part [] = false
is_part (c ∷ cs) = not (text_eq (c ∷ cs) (codes "."))

unfoldable pub posix_parts : Text → List Text
posix_parts path = select is_part (split_path path)

unfoldable pub ends_with : Text → Text → Bool
ends_with suffix [] = text_eq [] suffix
ends_with suffix (c ∷ rest) = text_eq (c ∷ rest) suffix || ends_with suffix rest

abbrev pub same_origin : Origin → Origin → Bool
same_origin a b = str_eq a.scheme b.scheme && str_eq a.host b.host && a.port == b.port

module _ (lib : UrlLibrary) where
  unfoldable pub origin : SplitUrl → Result Origin
  origin parts = do
    refuse (not (one_of parts.scheme ("http" ∷ "https" ∷ []) && given parts.hostname))
        (value_error "URL must use HTTP or HTTPS and include a host")
    refuse (is_given parts.username || is_given parts.password)
        (value_error "URL credentials are not allowed")
    port ← valid_port parts.port
    host ← named_host parts.hostname
    let scheme = lib.lower parts.scheme
    ok (record { scheme = scheme; host = lib.lower host; port = port_or scheme port })

  unfoldable pub bare_origin : SplitUrl → Result (Option Origin)
  unfolding origin
  bare_origin parts = do
    found ← origin parts
    refuse
        (not (str_eq parts.query "")
          || not (str_eq parts.fragment "")
          || not (one_of parts.path ("" ∷ "/" ∷ [])))
        (value_error "callback base URL must contain only an origin")
    ok (some found)

  unfoldable pub configured_origin : Option String → Result (Option Origin)
  unfolding bare_origin
  configured_origin none = ok none
  configured_origin (some url) = lib.urlsplit url >>= bare_origin

  abbrev pub unconfigured : Error
  unconfigured = value_error "clone URL requires a configured CMND origin"

  abbrev pub loopback_host : Option Address → Bool
  loopback_host none = false
  loopback_host (some a) = lib.is_loopback a

  abbrev pub host_address : Option String → Option Address
  host_address none = none
  host_address (some h) = lib.ip_address h

  -- Whether the origin and the path may be fetched from.
  abbrev pub is_served : Option Origin → Origin → SplitUrl → String → Result (Unit {0})
  is_served (some configured) found parts decoded =
      refuse
        (not (same_origin found configured)
          || not (starts_with (codes decoded) (codes clone_path_prefix)))
        (value_error "clone URL is outside the configured CMND package origin/path")
  is_served none found parts decoded =
      refuse (not (loopback_host (host_address parts.hostname))) unconfigured

  abbrev pub is_unsafe : String → Bool
  is_unsafe url = any (λ c. ltb c 32) (codes url) || any (λ c. c == b'\\') (codes url)

  abbrev pub has_part : String → Text → Bool
  has_part name path = any (λ part. text_eq part (codes name)) (posix_parts path)

  unfoldable pub allowed_clone_url : String → Option Origin → Result (String × String)
  unfolding origin posix_parts ends_with
  allowed_clone_url url configured = do
    parts ← lib.urlsplit url
    found ← origin parts
    refuse (is_unsafe url) (value_error "clone URL contains unsafe characters")
    refuse (not (str_eq parts.query "") || not (str_eq parts.fragment ""))
        (value_error "clone URL queries and fragments are not allowed")
    let decoded = lib.unquote parts.path
    refuse
        (not (str_eq decoded parts.path)
          || has_part ".." (codes decoded)
          || has_part "." (codes decoded))
        (value_error "clone URL path must be canonical and unencoded")
    refuse (not (ends_with (codes ".zip") (codes decoded)))
        (value_error "clone URL must identify a ZIP package")
    is_served configured found parts decoded
    ok (lib.urlunsplit parts, decoded)
