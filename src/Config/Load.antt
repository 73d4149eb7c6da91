-- ===== src/Config/Load.antt =====
-- `load_config` of src/cmnd_linux/config.py, on the table that `tomllib` read. `str`, `int` and
-- `float` of a value, and the strip are Python's.
pub mod Safe
use linux_cmnd.Prelude.{
  ℕ, ◌*◌, ◌^◌, ◌≤◌, ◌<◌, ◌≡◌, refl, String, Bool, true, false, not, ◌&&◌, ◌||◌, Option, none, some,
  List, [], ◌∷◌, arith, ltb, leb, ◌==◌, str_eq, any, all, All, one_of, if◌then◌else◌,
}
use linux_cmnd.Result.{
  Error, Result, ok, err, config_error, value_error, type_error, attribute_error,
}
use linux_cmnd.Result.Chain.{◌>>=◌, ◌>>◌, refuse}
use linux_cmnd.Json.{Json, int, arr, obj, str, Fields, end, lookup, keys, to_list, ℤ, pos, negsuc}
use linux_cmnd.Config.Types.{
  Address, IpLibrary, AllowedTv, Float, not_finite, finite, Config, write_operations,
}
use linux_cmnd.Config.PackageUrl.{ParsedUrl, given}
use linux_cmnd.Protocol.Requests.{is_tv_identity}

pub record Python : Type 0 where
  pub to_str : Json → String
  pub to_int : Json → Result ℤ
  pub to_float : Json → Result Float
  pub strip : String → String
  pub rstrip_slash : String → String
  pub urlparse : String → ParsedUrl

-- `raw.get(key, {})`, on which the code calls `.get`
abbrev pub table : Option Json → Result Fields
table none = ok end
table (some (obj fields)) = ok fields
table (some _) = err (attribute_error "object has no attribute get")

-- The letters of a text, as texts.
abbrev pub letters : String → List Json
letters String.[] = []
letters (String.◌∷◌ c rest) = str (String.◌∷◌ c String.[]) ∷ letters rest

abbrev pub key_texts : List String → List Json
key_texts [] = []
key_texts (k ∷ rest) = str k ∷ key_texts rest

-- `raw.get(key, [])`, over which the code iterates: a text gives its letters, a table its keys.
abbrev pub items : Option Json → Result (List Json)
items none = ok []
items (some (arr values)) = ok (to_list values)
items (some (str s)) = ok (letters s)
items (some (obj fields)) = ok (key_texts (keys fields))
items (some _) = err (type_error "expected an array")

-- `lower <= value <= upper` for natural bounds
abbrev pub between : ℕ → ℕ → ℤ → Bool
between lower upper (pos n) = leb lower n && leb n upper
between lower upper (negsuc n) = false

abbrev pub int_eq : ℤ → ℤ → Bool
int_eq (pos a) (pos b) = a == b
int_eq (negsuc a) (negsuc b) = a == b
int_eq _ _ = false

-- `len(set(values)) == len(values)`
abbrev pub distinct : List ℤ → Bool
distinct [] = true
distinct (x ∷ xs) = not (any (int_eq x) xs) && distinct xs

-- `math.isfinite(t) and 0 < t <= 120`
abbrev pub timely : Float → Bool
timely not_finite = false
timely (finite (pos m) k) = ltb 0 m && leb m (120 * 2 ^ k)
timely (finite (negsuc m) k) = false

module _ (py : Python) (lib : IpLibrary) where
  -- `str(table.get(key, default))`
  abbrev pub text_or : String → Option Json → String
  text_or default none = default
  text_or default (some v) = py.to_str v

  -- `int(table.get(key, default))`
  abbrev pub int_or : ℕ → Option Json → Result ℤ
  int_or default none = ok (pos default)
  int_or default (some v) = py.to_int v

  abbrev pub texts : List Json → List String
  texts [] = []
  texts (v ∷ rest) = py.to_str v ∷ texts rest

  abbrev pub canonical : Option Address → Result String
  canonical (some a) = ok (lib.show a)
  canonical none = err (value_error "does not appear to be an IPv4 or IPv6 address")

  abbrev pub is_none : Option Address → Bool
  is_none none = true
  is_none (some a) = false

  abbrev pub bad_identity : Error
  bad_identity = config_error "each allowlisted TV requires a stable MAC or serial identity"

  abbrev pub unknown_operations : Error
  unknown_operations = config_error "unknown allowlisted operations"

  -- One entry of the allowlist.
  unfoldable pub load_tv : Fields → Result AllowedTv
  unfolding is_tv_identity
  load_tv item = do
    target ← canonical (lib.ip_address (text_or "" (lookup "ip" item)))
    let identity = py.strip (text_or "" (lookup "identity" item))
    refuse (not (is_tv_identity identity)) bad_identity
    raw ← items (lookup "operations" item)
    let operations = texts raw
    refuse (not (all (λ op. one_of op write_operations) operations)) unknown_operations
    ok (record { ip = target; identity = identity; operations = operations })

  unfoldable pub load_tvs : List Json → Result (List AllowedTv)
  unfolding load_tv
  load_tvs [] = ok []
  load_tvs (item ∷ rest) = do
    fields ← table (some item)
    tv ← load_tv fields
    tvs ← load_tvs rest
    ok (tv ∷ tvs)

  pub record Ports : Type 0 where
    pub tomcat_http : ℤ
    pub tomcat_https : ℤ
    pub apache_http : ℤ
    pub apache_https : ℤ
    pub database : ℤ

  abbrev pub port_list : Ports → List ℤ
  port_list p = p.tomcat_http ∷ p.tomcat_https ∷ p.apache_http ∷ p.apache_https ∷ p.database ∷ []

  unfoldable pub load_ports : Fields → Result Ports
  load_ports ports = do
    tomcat_http ← int_or 8080 (lookup "tomcat_http" ports)
    tomcat_https ← int_or 8443 (lookup "tomcat_https" ports)
    apache_http ← int_or 8082 (lookup "apache_http" ports)
    apache_https ← int_or 8444 (lookup "apache_https" ports)
    database ← int_or 3306 (lookup "database" ports)
    ok (record {
      tomcat_http = tomcat_http;
      tomcat_https = tomcat_https;
      apache_http = apache_http;
      apache_https = apache_https;
      database = database;
    })

  -- `type(value) is int and lower <= value <= upper`
  abbrev pub cms_value : ℕ → ℕ → ℕ → Option Json → Result ℤ
  cms_value lower upper default none = ok (pos default)
  cms_value lower upper default (some (int z)) =
      if between lower upper z then ok z else err (config_error "must be an integer in its range")
  cms_value lower upper default (some _) = err (config_error "must be an integer in its range")

  abbrev pub float_or : Option Json → Result Float
  float_or none = ok (finite (pos 5) 0)
  float_or (some v) = py.to_float v

  abbrev pub modes : List String
  modes = "isolated" ∷ "lab" ∷ "production-candidate" ∷ []

  abbrev pub bad_mode : Error
  bad_mode = config_error "safety.mode must be isolated, lab, or production-candidate"

  -- `safety.get('mode', '')` against the texts of the set
  abbrev pub mode_of : Option Json → Result String
  mode_of (some (str s)) = if one_of s modes then ok s else err bad_mode
  mode_of _ = err bad_mode

  abbrev pub local_host : Option String → Bool
  local_host none = false
  local_host (some h) = one_of h ("localhost" ∷ "127.0.0.1" ∷ "0.0.0.0" ∷ [])

  -- The values are checked in the order of the source.
  unfoldable pub load_config : Fields → Result Config
  unfolding load_tvs load_ports
  load_config raw = do
    safety ← table (lookup "safety" raw)
    network ← table (lookup "network" raw)
    ports ← table (lookup "ports" raw)
    cms ← table (lookup "cms" raw)
    mode ← mode_of (lookup "mode" safety)
    let bind = text_or "127.0.0.1" (lookup "bind" network)
    refuse (is_none (lib.ip_address bind))
        (config_error "network.bind must be a literal IP address")
    let callback = text_or "" (lookup "callback_base_url" network)
    let parsed = py.urlparse callback
    refuse (not (one_of parsed.scheme ("http" ∷ "https" ∷ []) && given parsed.hostname))
        (config_error "network.callback_base_url must be an absolute HTTP(S) URL")
    listed ← items (lookup "permitted_ranges" safety)
    let ranges = texts listed
    refuse (not (all lib.is_network ranges)) (value_error "does not appear to be a network")
    tv ← table (lookup "tv" raw)
    allowlist ← items (lookup "allowlist" tv)
    allowed ← load_tvs allowlist
    refuse (str_eq mode "production-candidate" && local_host parsed.hostname)
        (config_error "production-candidate callback URL must be reachable by TVs")
    timeout ← float_or (lookup "timeout_seconds" network)
    refuse (not (timely timeout))
        (config_error "network.timeout_seconds must be greater than zero and at most 120")
    values ← load_ports ports
    refuse (not (all (between 1 65535) (port_list values)))
        (config_error "all configured ports must be in 1..65535")
    refuse (not (distinct (port_list values))) (config_error "CMND listener ports must be distinct")
    upload ← cms_value 1 8096 8096 (lookup "upload_limit_mb" cms)
    memory ← cms_value 64 256 256 (lookup "memory_limit_mb" cms)
    execution ← cms_value 0 86400 0 (lookup "execution_timeout_seconds" cms)
    ok (record {
      mode = mode;
      bind = bind;
      callback_base_url = py.rstrip_slash callback;
      permitted_ranges = ranges;
      allowed_tvs = allowed;
      timeout_seconds = timeout;
      tomcat_http = values.tomcat_http;
      tomcat_https = values.tomcat_https;
      apache_http = values.apache_http;
      apache_https = values.apache_https;
      database_port = values.database;
      cms_upload_limit_mb = upload;
      cms_memory_limit_mb = memory;
      cms_execution_timeout_seconds = execution;
    })
