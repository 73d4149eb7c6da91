-- ===== src/CloneExport/Checks.antt =====
-- The tests that `export_clone` of src/cmnd_linux/clone_export.py makes before it sends anything.
use linux_cmnd.Prelude.{
  ℕ, ◌+◌, ◌*◌, ◌^◌, String, Bool, false, not, ◌&&◌, ◌||◌, Option, none, some, List, [], ◌∷◌, ltb,
  leb, ◌==◌, str_eq, all, one_of,
}
use linux_cmnd.Result.{Error, Result, config_error}
use linux_cmnd.Result.Chain.{◌>>=◌, ◌>>◌, refuse}
use linux_cmnd.Config.Types.{IpLibrary}
use linux_cmnd.Simulator.Url.{SplitUrl}
use linux_cmnd.Protocol.Requests.{parsed_address}
use linux_cmnd.CloneExport.Received.{Capabilities}
use linux_cmnd.CloneExport.Receive.{max_upload}

abbrev pub wrong_origin : Error
wrong_origin =
    config_error "receiver needs an explicit IPv4 bind matching its TV-reachable HTTP origin"

abbrev pub is_host : String → Option String → Bool
is_host bind none = false
is_host bind (some h) = str_eq h bind

unfoldable pub check_origin : IpLibrary → (bind : String) → SplitUrl → Result (Unit {0})
check_origin lib bind origin = do
  refuse (not (str_eq origin.scheme "http") || not (is_host bind origin.hostname)) wrong_origin
  a ← parsed_address (lib.ip_address bind)
  refuse
      (not (a.version == 4)
        || lib.is_unspecified a
        || not (one_of origin.path ("" ∷ "/" ∷ []))
        || not (str_eq origin.query "")
        || not (str_eq origin.fragment ""))
      wrong_origin

unfoldable pub check_limits : (wait_seconds max_bytes : ℕ) → Result (Unit {0})
check_limits wait_seconds max_bytes =
    refuse
      (not (leb 10 wait_seconds && leb wait_seconds 3600)
        || not (leb max_upload max_bytes && leb max_bytes (8 * 1024 ^ 3)))
      (config_error "invalid receive duration or byte cap")

unfoldable pub check_offer : Capabilities → List String → (free max_bytes : ℕ) → Result (Unit {0})
check_offer capabilities items free max_bytes = do
  refuse (not capabilities.ready || not (all (λ i. one_of i capabilities.available_items) items))
      (config_error "TV export is not ready or requested items are not advertised")
  refuse (ltb free (max_bytes * 2 + 100 * 1024 ^ 2))
      (config_error "insufficient private receive disk space")
