-- ===== src/Tests/Config.antt =====
-- The theorems on src/cmnd_linux/config.py at a concrete configuration.
use linux_cmnd.Prelude.{◌≡◌, refl, ◌↔◌, String, true, false, none, some, [], ◌∷◌}
use linux_cmnd.Prelude.Chars.{codes}
use linux_cmnd.Result.{Result, ok, err, type_error}
use linux_cmnd.Json.{Json, str, int, arr, obj, nil, cons, end, field, Fields, pos, ℤ}
use linux_cmnd.Config.Types.{Address, IpLibrary, Config, finite}
use linux_cmnd.Config.Authorize.{authorize, IsAuthorized, authorize-iff-IsAuthorized}
use linux_cmnd.Config.PackageUrl.{
  ParsedUrl, IsPackageUrl, validate_package_url, validate_package_url-IsPackageUrl,
}
use linux_cmnd.Config.Load.{Python, load_config}
use linux_cmnd.Config.Load.Safe.{IsSafe, load_config-IsSafe}

abbrev pub address : Address
address = record { version = 4; value = 167772161 }

abbrev pub library : IpLibrary
library = record {
  ip_address = λ s. some address;
  show = λ a. "10.0.0.1";
  is_loopback = λ a. false;
  is_multicast = λ a. false;
  is_unspecified = λ a. false;
  is_global = λ a. false;
  is_reserved = λ a. false;
  is_network = λ s. true;
  contains = λ s a. true;
  max_prefixlen = λ a. 32;
}

abbrev parsed : ParsedUrl
parsed = record {
  scheme = "http";
  hostname = some "10.0.0.9";
  port = ok (some 8080);
  username = none;
  password = none;
  query = "";
  fragment = "";
  path = codes "/SmartInstall/Profile/Clone/tv/a.zip";
}

abbrev pub to_str : Json → String
to_str (str s) = s
to_str _ = ""

abbrev to_int : Json → Result ℤ
to_int (int z) = ok z
to_int _ = err (type_error "int")

abbrev python : Python
python = record {
  to_str = to_str;
  to_int = to_int;
  to_float = λ v. ok (finite (pos 5) 0);
  strip = λ s. s;
  rstrip_slash = λ s. s;
  urlparse = λ s. parsed;
}

abbrev tv : Json
tv = obj (
    field "ip" (str "10.0.0.1")
      (field "identity" (str "TV000001") (field "operations" (arr (cons (str "power") nil)) end)))

abbrev raw : Fields
raw =
    field "safety"
      (obj (
        field "mode" (str "lab")
          (field "permitted_ranges" (arr (cons (str "10.0.0.0/8") nil)) end)))
      (field "network" (obj (field "callback_base_url" (str "http://10.0.0.9:8080") end))
        (field "tv" (obj (field "allowlist" (arr (cons tv nil)) end)) end))

abbrev config : Config
config = record {
  mode = "lab";
  bind = "127.0.0.1";
  callback_base_url = "http://10.0.0.9:8080";
  permitted_ranges = "10.0.0.0/8" ∷ [];
  allowed_tvs = record { ip = "10.0.0.1"; identity = "TV000001"; operations = "power" ∷ [] } ∷ [];
  timeout_seconds = finite (pos 5) 0;
  tomcat_http = pos 8080;
  tomcat_https = pos 8443;
  apache_http = pos 8082;
  apache_https = pos 8444;
  database_port = pos 3306;
  cms_upload_limit_mb = pos 8096;
  cms_memory_limit_mb = pos 256;
  cms_execution_timeout_seconds = pos 0;
}

loaded : load_config python library raw ≡ ok config
unfolding load_config linux_cmnd.Protocol.Requests.is_tv_identity linux_cmnd.Result.Chain.◌>>=◌
    linux_cmnd.Json.lookup linux_cmnd.Result.Chain.refuse
loaded = refl

load_config-IsSafe_example : IsSafe python library config
load_config-IsSafe_example = load_config-IsSafe python library raw config loaded

authorize-iff-IsAuthorized_example :
    (authorize library config "10.0.0.1" "TV000001" "power" true ≡ ok tt)
    ↔ IsAuthorized library config "10.0.0.1" "TV000001" "power" true
authorize-iff-IsAuthorized_example =
    authorize-iff-IsAuthorized library config "10.0.0.1" "TV000001" "power" true

accepted : validate_package_url (λ s. parsed) config "http://10.0.0.9:8080/x" ≡ ok tt
unfolding validate_package_url
accepted = refl

validate_package_url-IsPackageUrl_example :
    IsPackageUrl (λ s. parsed) config "http://10.0.0.9:8080/x"
validate_package_url-IsPackageUrl_example =
    validate_package_url-IsPackageUrl (λ s. parsed) config "http://10.0.0.9:8080/x" accepted
