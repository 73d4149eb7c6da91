-- ===== src/LicenseNetwork/Resolve.antt =====
-- `resolve_endpoints` and the tests of `enable` in src/cmnd_linux/license_network.py. A Python set of
-- addresses is kept as the sorted list that the function returns in the end; what is read of the
-- files, and the names that the resolver gives, are facts.
use linux_cmnd.Prelude.{
  ℕ, ◌/◌, ◌%◌, String, Bool, true, false, not, ◌||◌, Option, none, some, List, [], ◌∷◌, ◌++◌, ltb,
  ◌==◌, str_eq, all, any, length, map, select,
}
use linux_cmnd.Result.{Result, ok, value_error, permission_error}
use linux_cmnd.Result.Chain.{◌>>=◌, ◌>>◌, refuse}
use linux_cmnd.Json.{pos}
use linux_cmnd.Config.Types.{Address, IpLibrary}
use linux_cmnd.Protocol.Requests.{parsed_address}
use linux_cmnd.Discovery.Targets.{add_address, no_addresses}
use linux_cmnd.Egress.Policy.{Endpoint, EgressPolicy, same_endpoint, sorted_set, validate}

abbrev pub license_host : String
license_host = "license.cmnd.pro"

-- `vendor_license` of the file
pub record VendorLicense : Type 0 where
  pub hostname : String
  pub endpoints : List Endpoint

pub record PolicyFile : Type 0 where
  pub policy : EgressPolicy
  pub vendor_license : Option VendorLicense

pub record HostFacts : Type 0 where
  pub root : Bool
  pub regular : Bool
  pub uid : ℕ
  pub mode : ℕ
  pub servers : List (Option Address)
  pub answers : Result (List String)
  pub replaced : Result (Unit {0})

abbrev pub wrong_license : Option VendorLicense → Bool
wrong_license none = false
wrong_license (some l) = not (str_eq l.hostname license_host)

abbrev pub previous_endpoints : Option VendorLicense → List Endpoint
previous_endpoints none = []
previous_endpoints (some l) = l.endpoints

abbrev pub no_servers : List (Option Address) → Bool
no_servers [] = true
no_servers (x ∷ xs) = false

abbrev pub is_old : List Endpoint → Endpoint → Bool
is_old old e = any (same_endpoint e) old

-- `sorted((set(prior) - previous) | set(endpoints))`
unfoldable pub updated_endpoints : (prior old endpoints : List Endpoint) → List Endpoint
updated_endpoints prior old endpoints =
    sorted_set (select (λ e. not (is_old old e)) prior ++ endpoints)

module _ (lib : IpLibrary) where
  abbrev pub is_private : Address → Bool
  is_private a =
      not (lib.is_global a) || (lib.is_multicast a || (lib.is_unspecified a || lib.is_reserved a))

  unfoldable pub collect : List String → Result (List Address)
  unfolding add_address
  collect [] = ok []
  collect (answer ∷ rest) = do
    a ← parsed_address (lib.ip_address answer)
    others ← collect rest
    ok (add_address a others)

  unfoldable pub resolve_endpoints : Result (List String) → Result (List Endpoint)
  unfolding collect
  resolve_endpoints resolved = do
    answers ← resolved
    addresses ← collect answers
    refuse (no_addresses addresses || (ltb 32 (length addresses) || any is_private addresses))
        (value_error "Vendor license DNS must resolve only to bounded public unicast addresses")
    ok (map (λ a. (lib.show a, pos 443)) addresses)

  abbrev pub is_loopback_server : Option Address → Bool
  is_loopback_server none = false
  is_loopback_server (some a) = lib.is_loopback a

  -- The tests before the policy is read; a server that is no address raises the same class.
  unfoldable pub check_host : HostFacts → Result (Unit {0})
  check_host facts = do
    refuse (not facts.root) (permission_error "License network configuration requires Linux root")
    refuse (not facts.regular) (value_error "Expected regular native egress policy")
    refuse (not (facts.uid == 0) || not (facts.mode / 16 % 2 == 0) || not (facts.mode / 2 % 2 == 0))
        (value_error "Native egress policy must be root owned and not writable by others")
    refuse (no_servers facts.servers || not (all is_loopback_server facts.servers))
        (value_error "Use a local loopback DNS resolver before enabling license access")

  -- The file that is to be written.
  unfoldable pub new_file : HostFacts → PolicyFile → Result PolicyFile
  unfolding resolve_endpoints updated_endpoints
  new_file facts file = do
    validate lib file.policy
    refuse (not (str_eq file.policy.chain "CMND_NATIVE"))
        (value_error "Only native CMND egress may be adjusted")
    endpoints ← resolve_endpoints facts.answers
    refuse (wrong_license file.vendor_license) (value_error "Unexpected previous license hostname")
    let candidate : EgressPolicy = record {
      chain = file.policy.chain;
      uids = file.policy.uids;
      tcp_endpoints =
          updated_endpoints file.policy.tcp_endpoints (previous_endpoints file.vendor_license)
            endpoints;
    }
    validate lib candidate
    ok (record {
      policy = candidate;
      vendor_license = some (record { hostname = license_host; endpoints = endpoints });
    })
