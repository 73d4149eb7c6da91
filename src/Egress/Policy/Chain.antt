-- ===== src/Egress/Policy/Chain.antt =====
-- What the rules of src/cmnd_linux/egress.py let through, read as `iptables` does: the first rule
-- that matches a packet decides.
use linux_cmnd.Prelude.{
  ℕ, ◌≡◌, ◌⊎◌, refl, ◌∙◌, ap, Bool, true, false, not, ◌&&◌, ◌||◌, Option, none, some, List, [], ◌∷◌,
  arith, ◌==◌, str_eq, any, if◌then◌else◌, eq_iff, ==_iff, Bool-cases, Option-cases, inl, inr,
}
use linux_cmnd.Result.{ok, >>=-eq-ok, refuse-eq-ok}
use linux_cmnd.Json.{ℤ, pos, negsuc}
use linux_cmnd.Config.Types.{Address, IpLibrary}
use linux_cmnd.Config.Load.{int_eq}
use linux_cmnd.Egress.Policy.{
  Endpoint, EgressPolicy, Rule, established, loopback, endpoint, reject, same_endpoint, insert,
  less, sorted_set, parsed, endpoint_rules, chain_rules, validate, loopback_of,
}

-- A packet of a known connection, or of a new TCP connection to an address and a port.
pub record Packet : Type 0 where
  pub known : Bool
  pub address : Address
  pub port : ℤ

abbrev pub same_address : Address → Address → Bool
same_address a b = a.version == b.version && a.value == b.value

int_eq-eq : (a b : ℤ) → int_eq a b ≡ true → a ≡ b
int_eq-eq (pos a) (pos b) h = ap pos ((==_iff a b).0 h)
int_eq-eq (negsuc a) (negsuc b) h = ap negsuc ((==_iff a b).0 h)
int_eq-eq (pos a) (negsuc b) h = cc
int_eq-eq (negsuc a) (pos b) h = cc

and_parts : (a b : Bool) → (a && b) ≡ true → (a ≡ true) × (b ≡ true)
and_parts a b h = ground arith

same_endpoint-eq : (f : Endpoint → Bool) (e x : Endpoint) → same_endpoint e x ≡ true → f e ≡ f x
same_endpoint-eq f (a, p) (b, q) h =
    let (s, i) = and_parts (str_eq a b) (int_eq p q) h in
    rw ((eq_iff a b).0 s, int_eq-eq p q i) refl

or_absorb : (a b c : Bool) → a ≡ b → (b || c) ≡ (a || (b || c))
or_absorb a b c h = ground arith

or_swap : (a b c d : Bool) → d ≡ (a || c) → (b || d) ≡ (a || (b || c))
or_swap a b c d h = ground arith

-- Sorting and dropping what is there twice changes no test on the elements.
any-insert :
    (f : Endpoint → Bool) (e : Endpoint) (xs : List Endpoint)
    → any f (insert e xs) ≡ (f e || any f xs)
unfolding insert
any-insert f e [] = refl
any-insert f e (x ∷ xs) =
    let later = any-insert f e xs in
    elim (Bool-cases (same_endpoint e x)) [
      | inl same ↦ rw same (or_absorb (f e) (f x) (any f xs) (same_endpoint-eq f e x same))
      | inr other ↦ rw other (placed (less e x) later)
    ]
  where
    placed :
        (b : Bool)
        → any f (insert e xs) ≡ (f e || any f xs)
        → any f (if b then e ∷ x ∷ xs else x ∷ insert e xs) ≡ (f e || (f x || any f xs))
    placed true h = refl
    placed false h = or_swap (f e) (f x) (any f xs) (any f (insert e xs)) h

pub any-sorted_set : (f : Endpoint → Bool) (xs : List Endpoint) → any f (sorted_set xs) ≡ any f xs
unfolding sorted_set
any-sorted_set f [] = refl
any-sorted_set f (e ∷ rest) =
    any-insert f e (sorted_set rest) ∙ ap (λ b. f e || b) (any-sorted_set f rest)

module _ (lib : IpLibrary) (version : ℕ) (p : Packet) where
  -- The decision of a chain; behind its last rule a packet goes on.
  abbrev pub passes : List Rule → Bool
  passes [] = true
  passes (established ∷ rest) = p.known || passes rest
  passes (loopback net ∷ rest) = lib.contains net p.address || passes rest
  passes (endpoint a port ∷ rest) = (same_address a p.address && int_eq port p.port) || passes rest
  passes (reject ∷ rest) = false

  -- The address is in the loopback network of the version.
  abbrev pub is_local : Bool
  is_local =
      (version == 4 && lib.contains "127.0.0.0/8" p.address)
      || (version == 6 && lib.contains "::1/128" p.address)

  abbrev pub found : ℤ → Option Address → Bool
  found port none = false
  found port (some a) = a.version == version && (same_address a p.address && int_eq port p.port)

  -- The endpoint has the version of the chain, and the address and port of the packet.
  abbrev pub allows : Endpoint → Bool
  allows (address, port) = found port (lib.ip_address address)

  endpoint_rules-passes :
      (es : List Endpoint) (rules : List Rule)
      → endpoint_rules lib version es ≡ ok rules
      → passes rules ≡ any allows es
  unfolding endpoint_rules
  endpoint_rules-passes [] rules h = ground arith
  endpoint_rules-passes ((address, port) ∷ rest) rules h =
      let (a, parse, h1) = >>=-eq-ok (parsed (lib.ip_address address)) _ h in
      let (others, found_rest, h2) = >>=-eq-ok (endpoint_rules lib version rest) _ h1 in
      step a others (endpoint_rules-passes rest others found_rest) parse h2
    where
      step :
          (a : Address) (others : List Rule)
          → passes others ≡ any allows rest
          → parsed (lib.ip_address address) ≡ ok a
          → ok (if a.version == version then endpoint a port ∷ others else others) ≡ ok rules
          → passes rules ≡ (allows (address, port) || any allows rest)
      step a others same parse made = elim (Option-cases (lib.ip_address address)) [
        | inl e ↦ absurd (cc (rw e at parse))
        | inr (b, e) ↦ rw e (ground (arith, rw e at parse))
      ]

  -- A chain that is rendered lets a packet through exactly when it belongs to a known connection,
  -- goes to the loopback network of the version (127.0.0.0/8 or ::1/128), or has the address and the port of an endpoint of the policy.
  pub chain_rules-passes :
      (policy : EgressPolicy) (rules : List Rule)
      → chain_rules lib policy version ≡ ok rules
      → passes rules ≡ (p.known || (is_local || any allows policy.tcp_endpoints))
  unfolding chain_rules
  chain_rules-passes policy rules h =
      let (_, _, h1) = >>=-eq-ok (validate lib policy) _ h in
      let (versions, h2) = refuse-eq-ok (not (version == 4 || version == 6)) _ _ h1 in
      let (others, made, h3) =
        >>=-eq-ok (endpoint_rules lib version (sorted_set policy.tcp_endpoints)) _ h2 in
      let same = endpoint_rules-passes (sorted_set policy.tcp_endpoints) others made in
      let decided : passes others ≡ any allows policy.tcp_endpoints =
        same ∙ any-sorted_set allows policy.tcp_endpoints in
      joined others rules decided (no_other version versions) h3
    where
      no_other : (n : ℕ) → (not (n == 4 || n == 6)) ≡ false → (n ≡ 4) ⊎ (n ≡ 6)
      no_other n h = elim (Bool-cases (n == 4)) [
        | inl four ↦ inl ((==_iff n 4).0 four)
        | inr other ↦ inr ((==_iff n 6).0 (second (n == 4) (n == 6) other h))
      ]
        where
          second : (a b : Bool) → a ≡ false → not (a || b) ≡ false → b ≡ true
          second a b h k = ground arith

      joined :
          (others rules : List Rule)
          → passes others ≡ any allows policy.tcp_endpoints
          → (version ≡ 4) ⊎ (version ≡ 6)
          → ok (established ∷ loopback (loopback_of lib version) ∷ others) ≡ ok rules
          → passes rules ≡ (p.known || (is_local || any allows policy.tcp_endpoints))
      joined others rules same (inl four) h = rw four (ground (arith, same, rw four at h))
      joined others rules same (inr six) h = rw six (ground (arith, same, rw six at h))
