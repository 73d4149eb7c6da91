-- ===== src/Tests/LicenseNetwork.antt =====
-- The theorem on src/cmnd_linux/license_network.py for a name that is resolved to one address.
use linux_cmnd.Prelude.{◌≡◌, refl, String, true, ◌==◌, none, some, [], ◌∷◌}
use linux_cmnd.Prelude.Chars.{codes}
use linux_cmnd.Result.{Result, ok}
use linux_cmnd.Exec.Triple.{Settles}
use linux_cmnd.Json.{ℤ, pos}
use linux_cmnd.Config.Types.{IpLibrary}
use linux_cmnd.Egress.Policy.{EgressPolicy, marker}
use linux_cmnd.Egress.Apply.{Command, Completed, Trace}
use linux_cmnd.LicenseNetwork.Resolve.{PolicyFile, HostFacts, license_host}
use linux_cmnd.LicenseNetwork.Enable.{Firewall, enable}
use linux_cmnd.LicenseNetwork.Enable.Enabled.{IsEnabled, enable-IsEnabled}
use linux_cmnd.Tests.Config.{library as plain}

abbrev library : IpLibrary
library = record plain { is_global = λ a. true; is_loopback = λ a. a.value == 1 }

abbrev facts : HostFacts
facts = record {
  root = true;
  regular = true;
  uid = 0;
  mode = 384;
  servers = some (record { version = 4; value = 1 }) ∷ [];
  answers = ok ("10.0.0.1" ∷ []);
  replaced = ok tt;
}

abbrev firewall : Firewall
firewall = record {
  file = record {
    policy = record { chain = "CMND_NATIVE"; uids = pos 1001 ∷ []; tcp_endpoints = [] };
    vendor_license = none;
  };
  commands = [];
}

abbrev succeed : Trace → Command → Result Completed
succeed t c = ok (record { returncode = 0; stdout = codes marker; stderr = [] })

abbrev show_port : ℤ → String
show_port z = "443"

abbrev written : PolicyFile
written = record {
  policy = record {
    chain = "CMND_NATIVE";
    uids = pos 1001 ∷ [];
    tcp_endpoints = ("10.0.0.1", pos 443) ∷ [];
  };
  vendor_license =
      some (record { hostname = license_host; endpoints = ("10.0.0.1", pos 443) ∷ [] });
}

enabled : (enable succeed library show_port facts true firewall).0 ≡ ok (some written)
unfolding enable linux_cmnd.Exec.◌>>=◌ linux_cmnd.Exec.lift linux_cmnd.Exec.get
    linux_cmnd.Exec.catch linux_cmnd.Exec.pure linux_cmnd.Exec.modify
    linux_cmnd.LicenseNetwork.Resolve.check_host linux_cmnd.LicenseNetwork.Resolve.new_file
    linux_cmnd.LicenseNetwork.Resolve.collect linux_cmnd.LicenseNetwork.Resolve.resolve_endpoints
    linux_cmnd.LicenseNetwork.Resolve.updated_endpoints linux_cmnd.LicenseNetwork.Enable.install
    linux_cmnd.LicenseNetwork.Enable.activate_policy linux_cmnd.LicenseNetwork.Enable.reinstate
    linux_cmnd.Egress.Policy.validate linux_cmnd.Egress.Policy.sorted_set
    linux_cmnd.Egress.Policy.insert linux_cmnd.Egress.Policy.render_rules
    linux_cmnd.Egress.Apply.apply_policy linux_cmnd.Egress.Apply.run
    linux_cmnd.Discovery.Targets.add_address linux_cmnd.Result.Chain.◌>>=◌
    linux_cmnd.Result.Chain.refuse
enabled = refl

enable-IsEnabled_example :
    Settles
      (IsEnabled library facts succeed show_port firewall)
      (λ _ t. t.file ≡ firewall.file)
      (enable succeed library show_port facts true firewall).0
      (enable succeed library show_port facts true firewall).1
enable-IsEnabled_example = enable-IsEnabled library facts succeed show_port true firewall
