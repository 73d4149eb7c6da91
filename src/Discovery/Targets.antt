-- ===== src/Discovery/Targets.antt =====
-- `scan_targets` of src/cmnd_linux/discovery.py. A Python set of addresses is kept as the sorted
-- list that the function returns in the end.
pub mod Permitted
use linux_cmnd.Prelude.{
  ℕ, ◌+◌, String, Bool, true, false, not, ◌&&◌, ◌||◌, Option, none, some, List, [], ◌∷◌, leb, ltb,
  ◌==◌, str_eq, all, any, length, map, if◌then◌else◌,
}
use linux_cmnd.Result.{Error, Result, ok, err, value_error, config_error}
use linux_cmnd.Result.Chain.{◌>>=◌, ◌>>◌, refuse}
use linux_cmnd.Config.Types.{Address, IpLibrary, Config}

-- A network of `ipaddress`, with `list(network.hosts())`.
pub record Network : Type 0 where
  pub num_addresses : ℕ
  pub hosts : List Address
  pub network_address : Address

abbrev pub same_address : Address → Address → Bool
same_address a b = a.version == b.version && a.value == b.value

-- The order of `(addr.version, int(addr))`
abbrev pub address_lt : Address → Address → Bool
address_lt a b = ltb a.version b.version || (a.version == b.version && ltb a.value b.value)

unfoldable pub add_address : Address → List Address → List Address
add_address a [] = a ∷ []
add_address a (x ∷ xs) =
    let later = add_address a xs in
    if same_address a x then x ∷ xs else if address_lt a x then a ∷ x ∷ xs else x ∷ later

abbrev pub addresses_of : Network → List Address
addresses_of network =
    if ltb 1 network.num_addresses then network.hosts else network.network_address ∷ []

abbrev pub network_of : Option Network → Result Network
network_of (some network) = ok network
network_of none = err (value_error "does not appear to be an IPv4 or IPv6 network")

abbrev pub no_addresses : List Address → Bool
no_addresses [] = true
no_addresses (a ∷ rest) = false

module _ (lib : IpLibrary) (ip_network : String → Option Network) (config : Config) where
  abbrev pub outside : Address → Bool
  outside a =
      lib.is_multicast a
      || lib.is_unspecified a
      || not (any (λ net. lib.contains net a) config.permitted_ranges)

  abbrev pub not_isolated : Address → Bool
  not_isolated a = str_eq config.mode "isolated" && not (lib.is_loopback a)

  -- The loop over the addresses of one network.
  unfoldable pub add_addresses : List Address → List Address → Result (List Address)
  unfolding add_address
  add_addresses result [] = ok result
  add_addresses result (a ∷ rest) = do
    refuse (outside a) (config_error "target outside permitted unicast ranges")
    refuse (not_isolated a) (config_error "isolated mode permits only loopback TV targets")
    add_addresses (add_address a result) rest

  -- The loop over the requested networks.
  unfoldable pub add_targets : ℕ → List Address → List String → Result (List Address)
  unfolding add_addresses
  add_targets max_targets result [] = ok result
  add_targets max_targets result (target ∷ rest) = do
    network ← network_of (ip_network target)
    refuse (ltb (max_targets + 2) network.num_addresses)
        (config_error "requested range exceeds the target cap")
    more ← add_addresses result (addresses_of network)
    refuse (ltb max_targets (length more)) (config_error "combined target count exceeds cap")
    add_targets max_targets more rest

  unfoldable pub scan_addresses : List String → ℕ → Result (List Address)
  unfolding add_targets
  scan_addresses requested max_targets = do
    refuse (not (leb 1 max_targets && leb max_targets 4096))
        (config_error "max_targets must be between 1 and 4096")
    refuse (not (all lib.is_network config.permitted_ranges))
        (value_error "does not appear to be a network")
    result ← add_targets max_targets [] requested
    refuse (no_addresses result) (config_error "at least one target is required")
    ok result

  unfoldable pub scan_targets : List String → ℕ → Result (List String)
  unfolding scan_addresses
  scan_targets requested max_targets = do
    result ← scan_addresses requested max_targets
    ok (map lib.show result)
