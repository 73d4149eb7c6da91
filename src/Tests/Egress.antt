-- ===== src/Tests/Egress.antt =====
-- The theorems on src/cmnd_linux/egress.py at a concrete policy.
use linux_cmnd.Prelude.{◌≡◌, refl, String, true, false, ◌||◌, List, [], ◌∷◌, any}
use linux_cmnd.Prelude.Chars.{codes}
use linux_cmnd.Result.{Result, ok}
use linux_cmnd.Json.{ℤ, pos}
use linux_cmnd.Egress.Policy.{
  EgressPolicy, Rule, established, loopback, endpoint, reject, marker, chain_rules,
}
use linux_cmnd.Egress.Policy.Chain.{Packet, passes, is_local, allows, chain_rules-passes}
use linux_cmnd.Egress.Apply.{Command, Completed, Trace, apply_policy}
use linux_cmnd.Egress.Apply.Enforced.{Guarded, apply_policy-Guarded}
use linux_cmnd.Egress.Apply.Sealed.{IsSealed, apply_policy-IsSealed}
use linux_cmnd.Tests.Config.{library, address}

abbrev policy : EgressPolicy
policy = record {
  chain = "CMND_A";
  uids = pos 1001 ∷ [];
  tcp_endpoints = ("10.0.0.1", pos 443) ∷ [];
}

abbrev rules : List Rule
rules = established ∷ loopback "127.0.0.0/8" ∷ endpoint address (pos 443) ∷ reject ∷ []

abbrev packet : Packet
packet = record { known = false; address = address; port = pos 443 }

rendered : chain_rules library policy 4 ≡ ok rules
unfolding chain_rules
rendered = refl

chain_rules-passes_example : passes library 4 packet rules ≡ (
    packet.known
    || (is_local library 4 packet || any (allows library 4 packet) policy.tcp_endpoints))
chain_rules-passes_example = chain_rules-passes library 4 packet policy rules rendered

-- Every command succeeds and prints the marker.
abbrev runner : Trace → Command → Result Completed
runner t c = ok (record { returncode = 0; stdout = codes marker; stderr = [] })

abbrev str_int : ℤ → String
str_int z = "443"

apply_policy-Guarded_example : Guarded (apply_policy runner library str_int policy true true []).1
apply_policy-Guarded_example = apply_policy-Guarded runner library str_int policy true true [] tt

applied : (apply_policy runner library str_int policy true true []).0 ≡ ok tt
unfolding apply_policy linux_cmnd.Exec.◌>>=◌ linux_cmnd.Exec.lift linux_cmnd.Egress.Policy.validate
    linux_cmnd.Egress.Policy.render_rules linux_cmnd.Exec.pure linux_cmnd.Egress.Apply.run
applied = refl

apply_policy-IsSealed_example :
    IsSealed runner policy.uids (apply_policy runner library str_int policy true true []).1
apply_policy-IsSealed_example = apply_policy-IsSealed runner library str_int policy [] applied
