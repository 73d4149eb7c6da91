-- ===== src/Discovery/Inventory.antt =====
-- `add_tv` of src/cmnd_linux/discovery.py: the table `devices`, whose primary key is the identity
-- and whose `ip` is unique. A row is the TV that was saved.
pub mod Consistent
use linux_cmnd.Prelude.{
  ℕ, String, Bool, true, false, not, ◌&&◌, ◌||◌, Option, none, some, List, [], ◌∷◌, str_eq, any,
  if◌then◌else◌,
}
use linux_cmnd.Result.{Error, Result, ok, err, protocol_error}
use linux_cmnd.Result.Chain.{◌>>=◌, ◌>>◌, refuse}
use linux_cmnd.Json.{Json, ℤ}
use linux_cmnd.Config.Types.{IpLibrary, Config}
use linux_cmnd.Protocol.Send.{Transport}
use linux_cmnd.Discovery.Targets.{Network}
use linux_cmnd.Discovery.Identify.{Tv, verify_identity}

-- `SELECT identity FROM devices WHERE ip=?`, the first row
unfoldable pub find_ip : String → List Tv → Option String
find_ip ip [] = none
find_ip ip (row ∷ rest) =
    let later = find_ip ip rest in if str_eq row.ip ip then some row.identity else later

abbrev pub conflicts : String → Option String → Bool
conflicts identity none = false
conflicts identity (some other) = not (str_eq other identity)

-- `INSERT … ON CONFLICT(identity) DO UPDATE`
unfoldable pub upsert : Tv → List Tv → List Tv
upsert tv [] = tv ∷ []
upsert tv (row ∷ rest) =
    let later = upsert tv rest in if str_eq row.identity tv.identity then tv ∷ rest else row ∷ later

unfoldable pub save : Tv → List Tv → Result (List Tv)
unfolding find_ip upsert
save tv rows = do
  refuse (conflicts tv.identity (find_ip tv.ip rows))
      (protocol_error "IP belongs to another saved device; review inventory conflict")
  ok (upsert tv rows)

module _ (lib : IpLibrary) (to_str : Json → String) (now : String) (net : Transport)
    (ip_network : String → Option Network) (config : Config) where
  unfoldable pub add_tv : ℤ → (target expected_identity : String) → ℕ → List Tv → Result (List Tv)
  unfolding save
  add_tv fresh target expected_identity port rows = do
    tv ← verify_identity lib to_str now net ip_network config fresh target expected_identity port
    save tv rows
