-- ===== src/LicenseNetwork/Enable/Enabled.antt =====
-- What the license network (src/cmnd_linux/license_network.py) opens, and what a failure leaves.
use linux_cmnd.Prelude.{
  ℕ, ◌≤◌, ◌≡◌, refl, ap, sym, ◌∙◌, String, Bool, true, false, not, ◌||◌, Option, none, some, List,
  [], ◌∷◌, ◌++◌, arith, any, All, Any, inl, inr, ltb, map, length, select,
}
use linux_cmnd.Result.{Error, Result, ok, err}
use linux_cmnd.Result.Chain.{Ensures, Ensures-ok, Ensures-bind, Ensures-refuse}
use linux_cmnd.Exec.Triple.{
  Triple, Settles, Triple-pure, Triple-lift, Triple-throw, Triple-get, Triple-modify, Triple-bind,
  Triple-catch, Triple-if, Triple-assume, Triple-weaken,
}
use linux_cmnd.Json.{ℤ, pos}
use linux_cmnd.Config.Types.{Address, IpLibrary}
use linux_cmnd.Discovery.Targets.{no_addresses, add_address}
use linux_cmnd.Discovery.Targets.Permitted.{has, add_address-has, add_address-All}
use linux_cmnd.Protocol.Requests.Export.{parsed_address-some}
use linux_cmnd.Egress.Policy.{Endpoint, EgressPolicy, validate}
use linux_cmnd.Egress.Policy.Chain.{any-sorted_set}
use linux_cmnd.Egress.Apply.{Command, Completed, Trace, apply_policy}
use linux_cmnd.LicenseNetwork.Resolve.{
  PolicyFile, HostFacts, license_host, is_private, is_old, previous_endpoints, updated_endpoints,
  resolve_endpoints, new_file, collect,
}
use linux_cmnd.LicenseNetwork.Enable.{Firewall, activate_policy, install, reinstate, enable}

any-append :
    (f : Endpoint → Bool) (xs ys : List Endpoint) → any f (xs ++ ys) ≡ (any f xs || any f ys)
any-append f [] ys = refl
any-append f (x ∷ xs) ys =
    ap (λ b. f x || b) (any-append f xs ys) ∙ assoc (f x) (any f xs) (any f ys)
  where
    assoc : (a b c : Bool) → (a || (b || c)) ≡ ((a || b) || c)
    assoc a b c = ground arith

module _ (lib : IpLibrary) (facts : HostFacts) where
  -- Every answer is a literal address among the addresses.
  abbrev pub AllFound : List String → List Address → Type 0
  AllFound answers xs =
      All (λ t. (a : Address) × (lib.ip_address t ≡ some a) × (has xs a ≡ true)) answers

  record IsCollected (answers : List String) (xs : List Address) : Type 0 where
    pub complete : AllFound answers xs
    pub sound : All (λ a. Any (λ t. lib.ip_address t ≡ some a) answers) xs

  found_more :
      (xs ys : List Address)
      → ((y : Address) → has xs y ≡ true → has ys y ≡ true)
      → (answers : List String) → AllFound answers xs
      → AllFound answers ys
  found_more xs ys k [] h = tt
  found_more xs ys k (t ∷ rest) ((a, e, f), h) = ((a, e, k a f), found_more xs ys k rest h)

  answered_more :
      (t : String) (answers : List String) (xs : List Address)
      → All (λ a. Any (λ u. lib.ip_address u ≡ some a) answers) xs
      → All (λ a. Any (λ u. lib.ip_address u ≡ some a) (t ∷ answers)) xs
  answered_more t answers [] h = tt
  answered_more t answers (x ∷ xs) h = (inr h.0, answered_more t answers xs h.1)

  collect-IsCollected :
      (answers : List String) → Ensures (IsCollected answers) (collect lib answers)
  unfolding collect
  collect-IsCollected [] = Ensures-ok _ (record { complete = tt; sound = tt })
  collect-IsCollected (t ∷ rest) = Ensures-bind _ _ λ a p. Ensures-bind _ _ λ others o.
      let later = (collect-IsCollected rest).holds others o in
      let placed = add_address-has a others in
      let literal = parsed_address-some (lib.ip_address t) a p in
      Ensures-ok _ (record {
        complete = (
          (a, literal, placed.0),
          found_more others (add_address a others) placed.1 rest later.complete,
        );
        sound =
            add_address-All (λ x. Any (λ u. lib.ip_address u ≡ some x) (t ∷ rest)) a others
              (inl literal) (answered_more t rest others later.sound);
      })

  -- The answers of the resolver are these addresses: one to 32 public ones, at the port of HTTPS.
  pub record AreResolved (endpoints : List Endpoint) : Type 0 where
    pub answers : List String
    pub addresses : List Address
    pub answered : facts.answers ≡ ok answers
    pub complete : AllFound answers addresses
    pub sound : All (λ a. Any (λ t. lib.ip_address t ≡ some a) answers) addresses
    pub shown : endpoints ≡ map (λ a. (lib.show a, pos 443)) addresses
    pub some_address : no_addresses addresses ≡ false
    pub few : length addresses ≤ 32
    pub public : any (is_private lib) addresses ≡ false

  resolve_endpoints-AreResolved : Ensures AreResolved (resolve_endpoints lib facts.answers)
  unfolding resolve_endpoints
  resolve_endpoints-AreResolved = Ensures-bind _ _ λ answers r. Ensures-bind _ _ λ addresses c.
      Ensures-refuse _ _ _ λ fine. Ensures-ok _ (
        sound answers addresses r ((collect-IsCollected answers).holds addresses c)
          (three (no_addresses addresses) (ltb 32 (length addresses)) _ fine))
    where
      three : (a b c : Bool) → (a || (b || c)) ≡ false → (a ≡ false) × (b ≡ false) × (c ≡ false)
      three a b c h = ground arith

      within : (n : ℕ) → ltb 32 n ≡ false → n ≤ 32
      within n h = ground arith

      sound :
          (answers : List String) (xs : List Address)
          → facts.answers ≡ ok answers
          → IsCollected answers xs
          → (no_addresses xs ≡ false)
            × (ltb 32 (length xs) ≡ false)
            × (any (is_private lib) xs ≡ false)
          → AreResolved (map (λ a. (lib.show a, pos 443)) xs)
      sound answers xs r c (s, f, p) = record {
        answers = answers;
        addresses = xs;
        answered = r;
        complete = c.complete;
        sound = c.sound;
        shown = refl;
        some_address = s;
        few = within (length xs) f;
        public = p;
      }

  -- The policy of before, with the endpoints of the license of before replaced by those that were
  -- resolved, and nothing else.
  pub record IsRenewed (before after : PolicyFile) : Type 0 where
    pub endpoints : List Endpoint
    pub resolved : AreResolved endpoints
    pub licensed :
        after.vendor_license ≡ some (record { hostname = license_host; endpoints = endpoints })
    pub valid : validate lib after.policy ≡ ok tt
    pub same_chain : after.policy.chain ≡ before.policy.chain
    pub same_uids : after.policy.uids ≡ before.policy.uids
    pub opened :
        (f : Endpoint → Bool)
        → any f after.policy.tcp_endpoints ≡ (
            any f (
              select
                (λ e. not (is_old (previous_endpoints before.vendor_license) e))
                before.policy.tcp_endpoints)
            || any f endpoints)

  updated_opens :
      (f : Endpoint → Bool) (prior old endpoints : List Endpoint)
      → any f (updated_endpoints prior old endpoints)
        ≡ (any f (select (λ e. not (is_old old e)) prior) || any f endpoints)
  unfolding updated_endpoints
  updated_opens f prior old endpoints =
      any-sorted_set f _ ∙ any-append f (select (λ e. not (is_old old e)) prior) endpoints

  new_file-IsRenewed : (file : PolicyFile) → Ensures (IsRenewed file) (new_file lib facts file)
  unfolding new_file
  new_file-IsRenewed file = Ensures-bind _ _ λ _ _. Ensures-refuse _ _ _ λ _.
      Ensures-bind _ _ λ endpoints e. Ensures-refuse _ _ _ λ _. Ensures-bind _ _ λ _ valid.
        Ensures-ok _ (record {
          endpoints = endpoints;
          resolved = resolve_endpoints-AreResolved.holds endpoints e;
          licensed = refl;
          valid = valid;
          same_chain = refl;
          same_uids = refl;
          opened = λ f.
              updated_opens f file.policy.tcp_endpoints (previous_endpoints file.vendor_license)
                endpoints;
        })

  module _ (runner : Trace → Command → Result Completed) (str_int : ℤ → String) where
    -- The policy was applied without an exception.
    pub record IsApplied (policy : EgressPolicy) : Type 0 where
      pub before : Trace
      pub applied : (apply_policy runner lib str_int policy true facts.root before).0 ≡ ok tt

    activate_policy-IsApplied :
        (file : PolicyFile) (policy : EgressPolicy)
        → Triple
            (λ s. s.file ≡ file)
            (activate_policy runner lib str_int facts policy)
            (λ _ s. (s.file ≡ file) × IsApplied policy)
            (λ _ s. s.file ≡ file)
    unfolding activate_policy
    activate_policy-IsApplied file policy = record {
      run = λ s h.
          settled s h (apply_policy runner lib str_int policy true facts.root s.commands).0 refl;
    }
      where
        settled :
            (s : Firewall)
            → s.file ≡ file
            → (r : Result (Unit {0}))
            → (apply_policy runner lib str_int policy true facts.root s.commands).0 ≡ r
            → Settles
                (λ _ t. (t.file ≡ file) × IsApplied policy)
                (λ _ t. t.file ≡ file)
                r
                (record s {
                  commands = (apply_policy runner lib str_int policy true facts.root s.commands).1;
                })
        settled s h (ok u) e = (h, record { before = s.commands; applied = e })
        settled s h (err x) e = h

    abbrev pub IsEnabled : Firewall → Option PolicyFile → Firewall → Type 0
    IsEnabled s none t = t ≡ s
    IsEnabled s (some file) t = (t.file ≡ file) × IsRenewed s.file file × IsApplied file.policy

    -- A call that does not execute changes nothing. One that returns has applied and written the
    -- policy of before in which the endpoints of the license are those that were resolved: the
    -- addresses of all answers and of no others, one to 32 public ones, at port 443. One that raises leaves the file of the policy as it was.
    pub enable-IsEnabled :
        (execute : Bool) (s : Firewall)
        → Settles
            (IsEnabled s)
            (λ _ t. t.file ≡ s.file)
            (enable runner lib str_int facts execute s).0
            (enable runner lib str_int facts execute s).1
    enable-IsEnabled execute s = whole.run s refl
      where
        installed :
            (file : PolicyFile)
            → Triple
                (λ t. t.file ≡ s.file)
                (install runner lib str_int facts file)
                (λ _ t. (t.file ≡ file) × IsApplied file.policy)
                (λ _ t. t.file ≡ s.file)
        installed file =
            unfold install in
            Triple-bind _ _ (λ _ t. (t.file ≡ s.file) × IsApplied file.policy)
              (activate_policy-IsApplied s.file file.policy)
              λ _.
                Triple-bind _ _ (λ _ t. (t.file ≡ s.file) × IsApplied file.policy)
                  (Triple-lift facts.replaced (λ t _ _ h. h) (λ t _ _ h. h.0))
                  λ _. Triple-modify _ (λ t h. (refl, h.1))

        reinstated :
            (prior : PolicyFile) (e : Error) (Q : Unit {0} → Firewall → Type 0)
            → Triple
                (λ t. t.file ≡ s.file)
                (reinstate runner lib str_int facts prior e)
                Q
                (λ _ t. t.file ≡ s.file)
        reinstated prior e Q =
            unfold reinstate in
            Triple-bind _ _ (λ _ t. t.file ≡ s.file)
              (Triple-weaken _ (λ t h. h) (λ _ t h. h.0) (λ _ t h. h)
                (activate_policy-IsApplied s.file prior.policy))
              λ _. Triple-throw e (λ t h. h)

        whole :
            Triple
              (λ t. t ≡ s)
              (enable runner lib str_int facts execute)
              (λ o t. IsEnabled s o t)
              (λ _ t. t.file ≡ s.file)
        whole =
            unfold enable in
            Triple-if execute _ _
              (λ _.
                Triple-bind _ _ (λ _ t. t ≡ s)
                  (Triple-lift _ (λ t _ _ h. h) (λ t _ _ h. ap (λ u. u.file) h))
                  λ _.
                    Triple-bind _ _ (λ a t. (t ≡ s) × (t ≡ a)) Triple-get
                      λ a.
                        Triple-bind _ _ (λ file t. (t.file ≡ s.file) × IsRenewed s.file file)
                          (Triple-lift _
                            (λ t file e h. (ap (λ u. u.file) h.0, renewed a t file h e))
                            (λ t _ _ h. ap (λ u. u.file) h.0))
                          λ file.
                            Triple-bind _ _
                              (λ _ t.
                                (t.file ≡ file) × IsRenewed s.file file × IsApplied file.policy)
                              (Triple-assume _ (λ t h. h.1)
                                λ new.
                                  Triple-catch _ _ (λ _ t. t.file ≡ s.file)
                                    (Triple-weaken _ (λ t h. h.0) (λ _ t h. (h.0, new, h.1))
                                      (λ _ t h. h) (installed file))
                                    λ e. reinstated a.file e _)
                              λ _. Triple-pure (some file) (λ t h. h))
              (λ _. Triple-pure none (λ t h. h))
          where
            renewed :
                (a t : Firewall) (file : PolicyFile)
                → (t ≡ s) × (t ≡ a)
                → new_file lib facts a.file ≡ ok file
                → IsRenewed s.file file
            renewed a t file (h, k) e =
                (new_file-IsRenewed s.file).holds file
                  (ap (λ u. new_file lib facts u.file) (sym h ∙ k) ∙ e)
