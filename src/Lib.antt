-- ===== src/Lib.antt =====
-- A verification library of linux-cmnd, the Python tooling (package src/cmnd_linux) that installs
-- and runs the CMND server on Linux, updates it, guards its network and simulates its TVs.
--
-- Common parts. Prelude has the notation and lemmas on lists, texts and native numbers; a text that
-- is looked into is the list of its code points. Result has Python's exceptions as values (a value
-- that the source interpolates into a message is left out of it); Result.Chain is the same bind,
-- shut, with the rules by which long validators are followed. Exec has the actions that carry a
-- state and may raise, with Hoare triples and invariants. Json has the values of `json` and
-- `tomllib`. What Python's libraries do (`ipaddress`, `urllib`, `re` on SQL, `zipfile`,
-- `ElementTree`, `hashlib`, `subprocess`) is a field of a record that the definitions take.
--
-- Updates (src/cmnd_linux/updates.py). Version is `version_tuple`, Release `select_release`,
-- Manifest `validate_manifest` and `validate_job`, Fetch `fetch` and `download_asset` with the
-- requests that were made, Host the steps of the host, and Worker `install_pending`, a phase at a
-- time. The host may answer each step as it likes, by all that was done before. Five redirect rounds
-- are the source's own bound. The token file, the temporary file of `write_status` and the page of
-- a release, which only names it, are left out.
--
-- SqlAudit (src/cmnd_linux/sql_audit.py). Mask is `_lexically_mask`: a position is the text that is
-- left, and the fuel, one more than the length of the text, is never used up. Report is `audit_sql`
-- and `audit_database_bundle`.
--
-- Config (src/cmnd_linux/config.py). Load is `load_config` on the table that was read, Authorize
-- `Config.authorize`, and PackageUrl `Config.validate_package_url`.
--
-- Egress (src/cmnd_linux/egress.py). Policy is `EgressPolicy.validate` and `render_rules`, with the
-- rules as data before they are printed; Apply is `apply_policy` with the trace of its commands.
--
-- Simulator (src/cmnd_linux/simulator.py). State is `TVState`, Handler `do_POST`, Url the origins and
-- `_allowed_clone_url`, Archive `_validate_zip` and `_room_values`, Clone `fetch_all` and
-- `send_callback`. The lock and the threads are left out: a session runs as one step, and the texts
-- of errors, the records of downloads and the GET handler, which only report, are left out too.
--
-- Artifacts (src/cmnd_linux/artifacts.py). Members is `_safe_member` and what `safe_extract_zip`
-- checks before it writes; the writing and the inventory are not modelled.
--
-- Packages (src/cmnd_linux/packages.py). Ranges is `send_head` and `copyfile` once the file is open;
-- the fuel of the copying is one more than the bytes that remain. Which file a path names and the
-- building of a package are not modelled.
--
-- Protocol (src/cmnd_linux/protocol.py). Requests is the messages that are sent to a TV, Send
-- `WIXPClient.send` and `clone_session_state`. The opener is a parameter, which raises where a TV
-- redirects; the draw of a cookie is the caller's.
--
-- Discovery (src/cmnd_linux/discovery.py). Targets is `scan_targets`, Identify `identify` and
-- `verify_identity`, Inventory `add_tv` with the table as a list of rows. The loop of `scan`, which
-- makes the same calls in threads at a pace, is not modelled.
--
-- CloneExport (src/cmnd_linux/clone_export.py). Multipart is the parts of an upload, Received
-- `export_capabilities`, `inspect_received_zip` and the files of `extract_multipart_files`, Receive
-- `ReceiveState` and its handler, Checks and Session `export_clone`. The session uses Config,
-- Discovery and Protocol; the uploads that arrive while it runs are handled between its steps. The
-- fuel of the loop that reads a body is its length, of which each round takes at least one byte.
-- The files on the disk and their hashes are left out.
--
-- Callbacks (src/cmnd_linux/callbacks.py) is the messages that TVs post and the commands that answer
-- them; the lock is left out.
--
-- DatabaseCase (src/cmnd_linux/database_case.py). Audit is what is read before a change, Repair the
-- steps of `repair`, each of which the host answers by all that was done before.
--
-- LicenseNetwork (src/cmnd_linux/license_network.py). Resolve is `resolve_endpoints` with the tests
-- and the new policy of `enable`, Enable its application, which uses Egress; the lock and the copy
-- of the former file are left out.
--
-- HardwareIdentity (src/cmnd_linux/hardware_identity.py) is `usable_serial` and `grant_access`; each
-- change of the file may fail.
--
-- Tests has the theorems at concrete inputs. Not modelled: the backups (src/cmnd_linux/backups.py,
-- src/cmnd_linux/restore_prepare.py), the vendor's configuration and the deployment
-- (src/cmnd_linux/vendor_config.py, src/cmnd_linux/native_deploy.py), the other network services,
-- and the scripts, which run commands in sequence.
pub mod Prelude
pub mod Result
pub mod Exec
pub mod Json
pub mod Artifacts
pub mod Callbacks
pub mod CloneExport
pub mod Config
pub mod DatabaseCase
pub mod Discovery
pub mod Egress
pub mod HardwareIdentity
pub mod LicenseNetwork
pub mod Packages
pub mod Protocol
pub mod Simulator
pub mod SqlAudit
pub mod Updates
pub mod Tests
