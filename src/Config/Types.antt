-- ===== src/Config/Types.antt =====
-- The data of src/cmnd_linux/config.py, and what it uses of Python's libraries.
use linux_cmnd.Prelude.{ℕ, String, Bool, Option, List, [], ◌∷◌}
use linux_cmnd.Json.{ℤ}

-- An address of `ipaddress`.
pub record Address : Type 0 where
  pub version : ℕ
  pub value : ℕ

-- `ip_address`, `str`, the tests on an address, and `address in ip_network(text, strict=False)`,
-- which raises where the text is no network.
pub record IpLibrary : Type 0 where
  pub ip_address : String → Option Address
  pub show : Address → String
  pub is_loopback : Address → Bool
  pub is_multicast : Address → Bool
  pub is_unspecified : Address → Bool
  pub is_global : Address → Bool
  pub is_reserved : Address → Bool
  pub is_network : String → Bool
  pub contains : String → Address → Bool
  pub max_prefixlen : Address → ℕ

pub record AllowedTv : Type 0 where
  pub ip : String
  pub identity : String
  pub operations : List String

-- A binary float, `mantissa / 2 ^ shift`.
pub data Float : Type 0 where
  not_finite : Float
  finite : ℤ → ℕ → Float

pub record Config : Type 0 where
  pub mode : String
  pub bind : String
  pub callback_base_url : String
  pub permitted_ranges : List String
  pub allowed_tvs : List AllowedTv
  pub timeout_seconds : Float
  pub tomcat_http : ℤ
  pub tomcat_https : ℤ
  pub apache_http : ℤ
  pub apache_https : ℤ
  pub database_port : ℤ
  pub cms_upload_limit_mb : ℤ
  pub cms_memory_limit_mb : ℤ
  pub cms_execution_timeout_seconds : ℤ

-- `WRITE_OPERATIONS`
abbrev pub write_operations : List String
write_operations = "power" ∷ "room-id" ∷ "clone" ∷ "clone-export" ∷ []
