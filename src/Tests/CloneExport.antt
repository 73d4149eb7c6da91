-- ===== src/Tests/CloneExport.antt =====
-- The theorems on src/cmnd_linux/clone_export.py for one upload of the TV that answers.
use linux_cmnd.Prelude.{
  ◌≡◌, refl, ℕ, zero, suc, ◌≤◌, String, true, false, some, List, [], ◌∷◌, ◌++◌, arith, take, drop,
  length,
}
use linux_cmnd.Prelude.Chars.{Text, codes}
use linux_cmnd.Result.{Result, ok, err}
use linux_cmnd.Exec.Keeps.{Keeps}
use linux_cmnd.Exec.Triple.{Settles}
use linux_cmnd.Json.{pos, ℤ}
use linux_cmnd.CloneExport.Multipart.{Part, multipart, prefix_of, delimiter_of}
use linux_cmnd.CloneExport.Multipart.Exact.{AreParts, multipart-AreParts}
use linux_cmnd.CloneExport.Received.{Archive, Entry, Received, ReceiveLibrary, inspect_received_zip}
use linux_cmnd.CloneExport.Receive.{
  ReceiveState, Reader, Upload, Status, received, do_post, receive_body,
}
use linux_cmnd.CloneExport.Receive.Body.{IsWhole, receive_body-IsWhole}
use linux_cmnd.CloneExport.Receive.Bounded.{IsBounded}
use linux_cmnd.CloneExport.Receive.Budget.{IsBudgeted, do_post-IsBudgeted}
use linux_cmnd.CloneExport.Session.{Surroundings, Session, Report, new_session, export_clone}
use linux_cmnd.CloneExport.Session.Guarded.{AreGuarded, export_clone-AreGuarded}
use linux_cmnd.CloneExport.Session.Complete.{Reports, export_clone-Reports}
use linux_cmnd.Tests.Config.{to_str}
use linux_cmnd.Tests.Config.{library as ips}
use linux_cmnd.Tests.Tv.{path, urlsplit, tv_net, ip_network, config, fresh}

abbrev line_end : Text
line_end = 13 ∷ 10 ∷ []

abbrev boundary : Text
boundary = codes "b"

abbrev upload_body : Text
upload_body =
    codes "--b"
    ++ (line_end
        ++ (codes "n" ++ (line_end ++ (line_end ++ (codes "zip" ++ (line_end ++ codes "--b--"))))))

abbrev part : Part
part = record { headers = codes "n"; content = codes "zip" }

split : multipart boundary upload_body ≡ ok (part ∷ [])
unfolding multipart linux_cmnd.Result.Chain.◌>>=◌ linux_cmnd.Result.Chain.refuse
split = refl

multipart-AreParts_example :
    (rest : Text) × (upload_body ≡ prefix_of boundary ++ rest)
    × AreParts 64 (delimiter_of boundary) rest (part ∷ [])
multipart-AreParts_example = multipart-AreParts boundary upload_body (part ∷ []) split

abbrev entry : Entry
entry = record {
  member = record {
    filename = codes "TVSettings/a.xml";
    file_size = 50;
    compress_size = 20;
    external_attr = 0;
  };
  flag_bits = 0;
  is_dir = false;
}

abbrev joined : List Text → Text
joined [] = []
joined (p ∷ rest) = p ++ (b'/' ∷ joined rest)

abbrev library : ReceiveLibrary
library = record {
  open_zip = λ t. ok (record { entries = entry ∷ []; bad = false });
  as_posix = joined;
  casefold = λ t. t;
  lower = λ t. t;
  filename = λ t. some (codes "clone.zip");
  content_type = λ s. "multipart/form-data";
  boundary = λ s. some boundary;
}

abbrev file_report : Received
file_report = record {
  bytes = 3;
  members = 1;
  identified_items = "TVSettings" ∷ [];
  encrypted = false;
  zip_crc_valid = some true;
}

inspected : inspect_received_zip library (codes "zip") ≡ ok file_report
unfolding inspect_received_zip linux_cmnd.Result.Chain.◌>>=◌ linux_cmnd.Result.Chain.refuse
    linux_cmnd.Artifacts.Members.safe_member linux_cmnd.Simulator.Url.posix_parts
    linux_cmnd.Config.PackageUrl.split_path
inspected = refl

abbrev reader : Reader
reader = record { read1 = λ n t. take n (drop (length t) upload_body); late = λ t. false }

take_le : (n : ℕ) (t : Text) → length (take n t) ≤ n
take_le zero t = omega arith
take_le (suc n) [] = omega arith
take_le (suc n) (c ∷ t) = omega (arith, take_le n t)

receive_body-IsWhole_example : IsWhole 20 (receive_body reader 20 20 [])
receive_body-IsWhole_example =
    receive_body-IsWhole reader (λ n t. take_le n (drop (length t) upload_body)) 20 20 []
      (omega arith)

abbrev state : ReceiveState
state = record {
  target = "10.0.0.1";
  path = path;
  max_bytes = 1572864000;
  files = [];
  failures = [];
  total_bytes = 0;
}

abbrev upload : Upload
upload = record {
  path = path;
  client_address = "10.0.0.1";
  transfer_encoding = "";
  content_lengths = ok (pos (length upload_body)) ∷ [];
  content_type = "multipart/form-data; boundary=b";
  reader = reader;
  answered = ok tt;
}

handled : (do_post ips library upload state).0 ≡ ok received
unfolding do_post linux_cmnd.Exec.◌>>=◌ linux_cmnd.Exec.get linux_cmnd.Exec.lift
    linux_cmnd.Exec.catch linux_cmnd.Exec.pure linux_cmnd.Exec.modify
    linux_cmnd.CloneExport.Received.extract_files linux_cmnd.Result.Chain.◌>>=◌ multipart
    linux_cmnd.Result.Chain.refuse linux_cmnd.Artifacts.Members.safe_member
    linux_cmnd.Simulator.Url.posix_parts linux_cmnd.Config.PackageUrl.split_path
handled = refl

do_post-IsBudgeted_example : Keeps (IsBudgeted library) (do_post ips library upload)
do_post-IsBudgeted_example =
    do_post-IsBudgeted library ips upload (λ n t. take_le n (drop (length t) upload_body))

abbrev surroundings : Surroundings
surroundings = record {
  ips = ips;
  library = library;
  ip_network = ip_network;
  urlsplit = urlsplit;
  to_str = to_str;
  lower = λ s. s;
  rstrip_slash = λ s. s;
  net = λ events. tv_net;
  fresh = λ events. fresh;
  now = λ events. "now";
  token = "aaaaaaaaaaaaaaaaaaaaaaaaaaaaaaaaaaaaaaaaaaaaaaaa";
  free = 10000000000;
  directory = ok tt;
  bound = ok tt;
  during = [];
  polls = (upload ∷ []) ∷ [] ∷ [];
  closing = [];
}

abbrev wanted : List String
wanted = "TVSettings" ∷ []

abbrev start : Session
start = new_session surroundings "10.0.0.1" 1572864000

exported :
    (export_clone surroundings config "10.0.0.1" "TV000001" wanted "3.0" true 600 1572864000
      start).0
    ≡ ok (some (record { completed = true; files = file_report ∷ []; failures = [] }))
unfolding export_clone linux_cmnd.Exec.◌>>=◌ linux_cmnd.Exec.lift
    linux_cmnd.Discovery.Targets.scan_targets linux_cmnd.Result.Chain.◌>>=◌
    linux_cmnd.Result.Chain.refuse linux_cmnd.CloneExport.Checks.check_origin
    linux_cmnd.CloneExport.Checks.check_limits linux_cmnd.Exec.get
    linux_cmnd.Protocol.Requests.clone_export_request linux_cmnd.Config.Authorize.authorize
    linux_cmnd.Exec.modify linux_cmnd.Discovery.Identify.verify_identity
    linux_cmnd.Protocol.Send.send linux_cmnd.Json.lookup linux_cmnd.Protocol.Requests.to_json
    linux_cmnd.Protocol.Requests.discovery_request linux_cmnd.Artifacts.Members.safe_member
    linux_cmnd.CloneExport.Checks.check_offer multipart linux_cmnd.CloneExport.Multipart.parts_of
    linux_cmnd.CloneExport.Multipart.split_at linux_cmnd.CloneExport.Multipart.split_delimiter
    linux_cmnd.CloneExport.Receive.accept linux_cmnd.CloneExport.Receive.allowed
    linux_cmnd.CloneExport.Receive.allowed_size do_post receive_body
    linux_cmnd.CloneExport.Received.base_name linux_cmnd.CloneExport.Received.check_entries
    linux_cmnd.CloneExport.Received.export_capabilities
    linux_cmnd.CloneExport.Received.extract_files linux_cmnd.CloneExport.Received.files_of
    inspect_received_zip linux_cmnd.CloneExport.Received.item_names
    linux_cmnd.CloneExport.Received.without_zip linux_cmnd.CloneExport.Session.exchange
    linux_cmnd.CloneExport.Session.export_executed linux_cmnd.CloneExport.Session.conclude
    linux_cmnd.CloneExport.Session.handle_all linux_cmnd.CloneExport.Session.has_all
    linux_cmnd.CloneExport.Session.send_message linux_cmnd.CloneExport.Session.verify
    linux_cmnd.CloneExport.Session.wait linux_cmnd.Config.Authorize.find_tv
    linux_cmnd.Config.PackageUrl.split_path linux_cmnd.Discovery.Identify.identify
    linux_cmnd.Discovery.Identify.is_unique_id linux_cmnd.Discovery.Targets.add_address
    linux_cmnd.Discovery.Targets.add_addresses linux_cmnd.Discovery.Targets.add_targets
    linux_cmnd.Discovery.Targets.scan_addresses linux_cmnd.Exec.catch linux_cmnd.Exec.pure
    linux_cmnd.Exec.throw linux_cmnd.Protocol.Requests.clone_info_request
    linux_cmnd.Protocol.Requests.is_receive_path linux_cmnd.Protocol.Requests.is_tv_identity
    linux_cmnd.Protocol.Send.check_response linux_cmnd.Protocol.Send.exchange
    linux_cmnd.Simulator.Url.posix_parts
exported = refl

export_clone-AreGuarded_example :
    AreGuarded surroundings config "10.0.0.1" "TV000001" wanted "3.0" true 1
      (export_clone surroundings config "10.0.0.1" "TV000001" wanted "3.0" true 600 1572864000
        start).1
export_clone-AreGuarded_example =
    export_clone-AreGuarded surroundings config "10.0.0.1" "TV000001" wanted "3.0" true 600
      1572864000 start (tt, omega arith)

export_clone-Reports_example :
    Settles
      (Reports surroundings wanted config "10.0.0.1" "TV000001" "3.0")
      (λ _ t. IsBounded library t.receiver)
      (export_clone surroundings config "10.0.0.1" "TV000001" wanted "3.0" true 600 1572864000
        start).0
      (export_clone surroundings config "10.0.0.1" "TV000001" wanted "3.0" true 600 1572864000
        start).1
export_clone-Reports_example =
    export_clone-Reports surroundings wanted config "10.0.0.1" "TV000001" "3.0" true 600 1572864000
      start (record { within = omega arith; sound = tt })
