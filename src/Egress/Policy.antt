-- ===== src/Egress/Policy.antt =====
-- `EgressPolicy.validate` and `render_rules` of src/cmnd_linux/egress.py. The types of the fields
-- are the annotated ones, so that the tests on `type(...)` always hold.
pub mod Chain
use Prim.Native.String.{◌++◌ as ◌<>◌}
use linux_cmnd.Prelude.{
  ℕ, ◌-◌, ◌^◌, String, Bool, true, false, not, ◌&&◌, ◌||◌, Option, none, some, List, [], ◌∷◌, ◌++◌,
  leb, ltb, ◌==◌, str_eq, all, any, length, drop, map, if◌then◌else◌,
}
use linux_cmnd.Prelude.Chars.{Text, codes, is_digit, starts_with, text_eq}
use linux_cmnd.Result.{Error, Result, ok, err, value_error, ◌>>=◌, ◌>>◌, refuse}
use linux_cmnd.Json.{ℤ, pos, negsuc}
use linux_cmnd.Config.Types.{Address, IpLibrary}
use linux_cmnd.Config.Load.{between, distinct, int_eq}

-- `MARKER`
abbrev pub marker : String
marker = "linux-cmnd-managed-egress"

abbrev pub Endpoint : Type 0
Endpoint = String × ℤ

pub record EgressPolicy : Type 0 where
  pub chain : String
  pub uids : List ℤ
  pub tcp_endpoints : List Endpoint

-- `[A-Z0-9_]`
abbrev pub is_chain_char : ℕ → Bool
is_chain_char c = is_digit c || (leb b'A' c && leb c b'Z') || c == b'_'

abbrev pub in_bounds : ℕ → Bool
in_bounds n = leb 1 n && leb n 20

-- `CMND_[A-Z0-9_]{1,20}`
unfoldable pub is_chain_name : String → Bool
is_chain_name chain =
    starts_with (codes chain) (codes "CMND_")
    && in_bounds (length (drop 5 (codes chain)))
    && all is_chain_char (drop 5 (codes chain))

abbrev pub no_uids : List ℤ → Bool
no_uids [] = true
no_uids (x ∷ xs) = false

abbrev pub parsed : Option Address → Result Address
parsed (some a) = ok a
parsed none = err (value_error "does not appear to be an IPv4 or IPv6 address")

-- A tuple is less by its text first.
abbrev pub text_lt : Text → Text → Bool
text_lt [] [] = false
text_lt [] (d ∷ t) = true
text_lt (c ∷ s) [] = false
text_lt (c ∷ s) (d ∷ t) = ltb c d || (c == d && text_lt s t)

abbrev pub int_lt : ℤ → ℤ → Bool
int_lt (pos a) (pos b) = ltb a b
int_lt (pos a) (negsuc b) = false
int_lt (negsuc a) (pos b) = true
int_lt (negsuc a) (negsuc b) = ltb b a

abbrev pub same_endpoint : Endpoint → Endpoint → Bool
same_endpoint (a, p) (b, q) = str_eq a b && int_eq p q

abbrev pub less : Endpoint → Endpoint → Bool
less (a, p) (b, q) = text_lt (codes a) (codes b) || (str_eq a b && int_lt p q)

-- `sorted(set(endpoints))`
unfoldable pub insert : Endpoint → List Endpoint → List Endpoint
insert e [] = e ∷ []
insert e (x ∷ xs) =
    let later = insert e xs in
    if same_endpoint e x then x ∷ xs else if less e x then e ∷ x ∷ xs else x ∷ later

unfoldable pub sorted_set : List Endpoint → List Endpoint
unfolding insert
sorted_set [] = []
sorted_set (e ∷ rest) = insert e (sorted_set rest)

-- The rules behind `-A chain`, in the order of the lines.
pub data Rule : Type 0 where
  established : Rule
  loopback : String → Rule
  endpoint : Address → ℤ → Rule
  reject : Rule

module _ (lib : IpLibrary) where
  unfoldable pub check_endpoint : Endpoint → Result (Unit {0})
  check_endpoint (address, port) = do
    value ← parsed (lib.ip_address address)
    refuse (lib.is_multicast value || lib.is_unspecified value)
        (value_error "egress endpoint must be a unicast literal IP")
    refuse (not (between 1 65535 port)) (value_error "egress endpoint port is invalid")

  unfoldable pub check_endpoints : List Endpoint → Result (Unit {0})
  unfolding check_endpoint
  check_endpoints [] = ok tt
  check_endpoints (e ∷ rest) = check_endpoint e >>= λ _. check_endpoints rest

  unfoldable pub validate : EgressPolicy → Result (Unit {0})
  unfolding is_chain_name check_endpoints
  validate policy = do
    refuse (not (is_chain_name policy.chain))
        (value_error "egress chain must have a CMND_ prefix and safe identifier")
    refuse (no_uids policy.uids || not (distinct policy.uids))
        (value_error "egress requires distinct service UIDs")
    refuse (any (λ uid. not (between 1 (2 ^ 31 - 1) uid)) policy.uids)
        (value_error "egress must never target root or an invalid UID")
    check_endpoints policy.tcp_endpoints

  -- The loop over the endpoints, with the lines behind it.
  unfoldable pub endpoint_rules : ℕ → List Endpoint → Result (List Rule)
  endpoint_rules version [] = ok (reject ∷ [])
  endpoint_rules version ((address, port) ∷ rest) = do
    value ← parsed (lib.ip_address address)
    rules ← endpoint_rules version rest
    ok (if value.version == version then endpoint value port ∷ rules else rules)

  abbrev pub loopback_of : ℕ → String
  loopback_of version = if version == 4 then "127.0.0.0/8" else "::1/128"

  unfoldable pub chain_rules : EgressPolicy → ℕ → Result (List Rule)
  unfolding validate sorted_set endpoint_rules
  chain_rules policy version = do
    validate policy
    refuse (not (version == 4 || version == 6)) (value_error "IP version must be 4 or 6")
    rules ← endpoint_rules version (sorted_set policy.tcp_endpoints)
    ok (established ∷ loopback (loopback_of version) ∷ rules)

  module _ (str_int : ℤ → String) where
    abbrev pub show_rule : String → Rule → String
    show_rule chain established =
        "-A " <> (chain <> " -m conntrack --ctstate ESTABLISHED,RELATED -j ACCEPT")
    show_rule chain (loopback net) = "-A " <> (chain <> (" -d " <> (net <> " -j ACCEPT")))
    show_rule chain (endpoint value port) =
        "-A "
        <> (chain
            <> (" -d "
                <> (lib.show value
                    <> ("/"
                        <> (str_int (pos (lib.max_prefixlen value))
                            <> (" -p tcp --dport " <> (str_int port <> " -j ACCEPT")))))))
    show_rule chain reject =
        "-A " <> (chain <> (" -m comment --comment " <> (marker <> " -j REJECT")))

    -- `'\n'.join`, behind a line
    abbrev pub show_rules : String → List Rule → String
    show_rules chain [] = "COMMIT\n"
    show_rules chain (rule ∷ rest) = show_rule chain rule <> ("\n" <> show_rules chain rest)

    unfoldable pub render_rules : EgressPolicy → ℕ → Result String
    unfolding chain_rules
    render_rules policy version = do
      rules ← chain_rules policy version
      ok (
          "*filter\n:"
          <> (policy.chain
              <> (" - [0:0]\n-F " <> (policy.chain <> ("\n" <> show_rules policy.chain rules)))))
