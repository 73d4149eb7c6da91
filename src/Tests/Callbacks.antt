-- ===== src/Tests/Callbacks.antt =====
-- The theorem on src/cmnd_linux/callbacks.py for one message of a TV.
use linux_cmnd.Prelude.{◌≡◌, refl, []}
use linux_cmnd.Result.{Result, ok}
use linux_cmnd.Json.{Json, str, obj, Fields, end, field, pos}
use linux_cmnd.Callbacks.{Callback, command, polling_command, post}
use linux_cmnd.Tests.Config.{to_str}

abbrev notice : Fields
notice = field "Svc" (str "WebServices") (
    field "CmdType" (str "Response") (
      field "Fun" (str "PowerService") (
        field "CommandDetails"
          (obj (field "WebServiceParameters" (obj (field "TVUniqueID" (str "TV000001") end)) end))
          end)))

abbrev callback : Callback
callback = record {
  path = "/SmartInstall/webservices.jsp";
  content_length = ok (pos 300);
  loads = λ n. ok (obj notice);
  write = λ reply. ok tt;
}

commanded :
    (post to_str callback []).0 ≡ ok (command (polling_command "TV000001" "PowerService" (pos 293)))
unfolding post linux_cmnd.Result.Chain.◌>>=◌ linux_cmnd.Result.Chain.refuse linux_cmnd.Json.lookup
commanded = refl
