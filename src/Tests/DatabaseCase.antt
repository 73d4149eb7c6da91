-- ===== src/Tests/DatabaseCase.antt =====
-- The theorem on src/cmnd_linux/database_case.py for a host whose every step succeeds, and for one
-- that does not start.
use linux_cmnd.Prelude.{◌≡◌, refl, true, false, [], ◌∷◌}
use linux_cmnd.Result.{Result, ok, err, runtime_error}
use linux_cmnd.Json.{pos}
use linux_cmnd.DatabaseCase.Audit.{Facts, Container, CaseReport, repaired, mysql_image}
use linux_cmnd.DatabaseCase.Repair.{Host, Repairing, repair}

abbrev container : Container
container = record {
  image = mysql_image;
  running = true;
  mounts =
      record { destination = "/var/lib/mysql"; source = "/var/lib/cmnd-deployment/mysql" } ∷ [];
  cmd = [];
}

abbrev facts : Facts
facts = record {
  loaded = ok tt;
  root = true;
  container = ok container;
  version_mode = ok ("5.7.44", "0");
  schemas = ok ("smartinstall" ∷ []);
  tables = ok (("smartinstall" ∷ "upg_setting" ∷ []) ∷ []);
  int_of = λ s. ok (pos 0);
  counts = ok (pos 3 ∷ []);
  config_test = 1;
  symlink = false;
  state_symlink = false;
  size = 1000;
  free = 600000000;
  made = ok tt;
  active = "cmnd-admin" ∷ [];
  lock = ok tt;
}

abbrev host : Host
host = record {
  perform = λ steps step. ok tt;
  is_running = λ steps. ok false;
  package_counts = λ steps. ok (pos 3 ∷ []);
  table_mode = λ steps. ok "1";
}

abbrev before : Repairing
before = record { steps = []; changed = false }

abbrev repaired_report : CaseReport
repaired_report = record {
  outcome = repaired;
  mode = pos 1;
  schemas_checked = 1;
  tables_checked = 1;
  package_counts = pos 3 ∷ [];
}

done : (repair host facts true before).0 ≡ ok repaired_report
unfolding repair linux_cmnd.Exec.◌>>=◌ linux_cmnd.Exec.lift linux_cmnd.Exec.pure
    linux_cmnd.DatabaseCase.Audit.audit linux_cmnd.Result.Chain.◌>>=◌ linux_cmnd.Result.Chain.refuse
    linux_cmnd.DatabaseCase.Audit.prepare linux_cmnd.Exec.catch linux_cmnd.Exec.get
    linux_cmnd.Exec.modify
done = refl
