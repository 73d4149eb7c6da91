-- ===== src/Discovery/Identify/Verified.antt =====
-- What a verified TV (src/cmnd_linux/discovery.py) is.
use linux_cmnd.Prelude.{
  ℕ, ◌≡◌, ◌⊎◌, inl, inr, ◌==◌, ==_iff, ◌&&◌, refl, String, Bool, true, false, not, ◌||◌, Option,
  none, some, List, [], ◌∷◌, arith, one_of, str_eq,
}
use linux_cmnd.Result.{Error, ok}
use linux_cmnd.Json.Access.{or_value}
use linux_cmnd.Result.Chain.{Ensures, Ensures-ok, Ensures-bind, Ensures-refuse}
use linux_cmnd.Json.{Json, null, str, obj, end, lookup, Fields, ℤ}
use linux_cmnd.Config.Types.{Address, IpLibrary, Config}
use linux_cmnd.Protocol.Requests.{discovery_request}
use linux_cmnd.Protocol.Requests.Export.{parsed_address-some}
use linux_cmnd.Protocol.Send.{Transport}
use linux_cmnd.Protocol.Send.Answer.{IsAnswer, send-IsAnswer}
use linux_cmnd.Discovery.Targets.{Network}
use linux_cmnd.Discovery.Targets.Permitted.{IsTargetList, scan_targets-IsTargetList}
use linux_cmnd.Discovery.Identify.{Tv, object_or, text_of, identify, verify_identity, is_unique_id}

module _ (lib : IpLibrary) (to_str : Json → String) (now : String) where
  -- The value is the object of the answer, or it is empty where the answer has none.
  abbrev pub IsObject : Option Json → Fields → Type 0
  IsObject o fields = (o ≡ some (obj fields)) ⊎ ((o ≡ none) × (fields ≡ end))

  -- The text of the answer, which is empty where the answer has none.
  abbrev pub IsText : Option Json → String → Type 0
  IsText o s = (o ≡ some (str s)) ⊎ ((o ≡ none) × (s ≡ ""))

  object_or-IsObject :
      (bad : Error) (o : Option Json) (fields : Fields)
      → object_or bad o ≡ ok fields
      → IsObject o fields
  object_or-IsObject bad none fields h = inr (refl, ground arith)
  object_or-IsObject bad (some (obj f)) fields h = inl (ground arith)
  object_or-IsObject bad (some null) fields h = cc
  object_or-IsObject bad (some _) fields h = cc

  text_of-IsText : (bad : Error) (o : Option Json) (s : String) → text_of bad o ≡ ok s → IsText o s
  text_of-IsText bad none s h = inr (refl, ground arith)
  text_of-IsText bad (some (str t)) s h = inl (ground arith)
  text_of-IsText bad (some null) s h = cc
  text_of-IsText bad (some _) s h = cc

  -- The TV is the one of the response: it has a stable identity, and claims the address that was
  -- asked, or none.
  pub record IsIdentified (target : String) (response : Fields) (tv : Tv) : Type 0 where
    pub details : Fields
    pub discovery : Fields
    pub listening : Fields
    pub in_details : IsObject (lookup "CommandDetails" response) details
    pub in_discovery : IsObject (lookup "TVDiscoveryParameters" details) discovery
    pub in_listening : IsObject (lookup "WebListeningServiceParameters" details) listening
    pub same_identity : IsText (lookup "TVUniqueID" listening) tv.identity
    pub same_serial : IsText (lookup "TVSerialNumber" discovery) tv.serial
    pub same_mac : IsText (lookup "TVMACAddress" discovery) tv.mac
    pub same_room : IsText (lookup "TVRoomID" discovery) tv.room_id
    pub address : Address
    pub claimed : Address
    pub claims :
        lib.ip_address (to_str (or_value (str target) (lookup "TVIPAddress" discovery)))
        ≡ some claimed
    pub same_version : claimed.version ≡ address.version
    pub same_value : claimed.value ≡ address.value
    pub literal : lib.ip_address target ≡ some address
    pub shown : tv.ip ≡ lib.show address
    pub unique_id : is_unique_id tv.identity ≡ true
    pub has_serial : str_eq tv.serial "" ≡ false

  identified : (a b c : Bool) → (a || b || not c) ≡ false → (b ≡ false) × (c ≡ true)
  identified a b c h = ground arith

  both : (a b : Bool) → not (a && b) ≡ false → (a ≡ true) × (b ≡ true)
  both a b h = ground arith

  identify-IsIdentified :
      (target : String) (response : Fields)
      → Ensures (IsIdentified target response) (identify lib to_str now target response)
  unfolding identify
  identify-IsIdentified target response = Ensures-bind _ _ λ details d.
      Ensures-bind _ _ λ discovery p. Ensures-bind _ _ λ listening l.
        Ensures-bind _ _ λ unique_id u. Ensures-bind _ _ λ serial s. Ensures-bind _ _ λ mac m.
          Ensures-refuse _ _ _ λ stable. Ensures-bind _ _ λ claimed c. Ensures-bind _ _ λ queried q.
            Ensures-refuse _ _ _ λ same. Ensures-bind _ _ λ room r.
              let equal =
                both (claimed.version == queried.version) (claimed.value == queried.value) same in
              let parts =
                identified (str_eq unique_id "") (str_eq serial "") (is_unique_id unique_id)
                  stable in
              Ensures-ok _ (record {
                details = details;
                discovery = discovery;
                listening = listening;
                in_details = object_or-IsObject _ _ details d;
                in_discovery = object_or-IsObject _ _ discovery p;
                in_listening = object_or-IsObject _ _ listening l;
                same_identity = text_of-IsText _ _ unique_id u;
                same_serial = text_of-IsText _ _ serial s;
                same_mac = text_of-IsText _ _ mac m;
                same_room = text_of-IsText _ _ room r;
                address = queried;
                claimed = claimed;
                claims = parsed_address-some _ claimed c;
                same_version = (==_iff _ _).0 equal.0;
                same_value = (==_iff _ _).0 equal.1;
                literal = parsed_address-some _ queried q;
                shown = refl;
                unique_id = parts.1;
                has_serial = parts.0;
              })

  module _ (net : Transport) (ip_network : String → Option Network) (config : Config) where
    pub record IsVerified (fresh : ℤ) (target expected : String) (port : ℕ) (tv : Tv) : Type 0 where
      pub texts : List String
      pub response : Fields
      pub permitted : IsTargetList lib ip_network config (target ∷ []) 1 texts
      pub answered : IsAnswer lib net target (discovery_request fresh none) port response
      pub identity : IsIdentified target response tv
      pub expected_one : one_of expected (tv.identity ∷ tv.serial ∷ tv.mac ∷ []) ≡ true

    not-eq_false : (b : Bool) → not b ≡ false → b ≡ true
    not-eq_false b h = ground arith

    -- A verified TV is a permitted target and answered the discovery request at its literal address.
    -- Its identity, serial number, MAC and room are those of the answer, and the first two are not
    -- empty; the address that the answer claims, if any, is the one that was asked; and its identity,
    -- serial number or MAC is the expected one.
    pub verify_identity-IsVerified :
        (fresh : ℤ) (target expected : String) (port : ℕ)
        → Ensures
            (IsVerified fresh target expected port)
            (verify_identity lib to_str now net ip_network config fresh target expected port)
    unfolding verify_identity
    verify_identity-IsVerified fresh target expected port = Ensures-bind _ _ λ texts t.
        Ensures-refuse _ _ _ λ _. Ensures-bind _ _ λ response r. Ensures-bind _ _ λ tv i.
          Ensures-refuse _ _ _ λ same. Ensures-ok _ (record {
            texts = texts;
            response = response;
            permitted =
                (scan_targets-IsTargetList lib ip_network config (target ∷ []) 1).holds texts t;
            answered =
                (send-IsAnswer lib net target (discovery_request fresh none) port).holds response r;
            identity = (identify-IsIdentified target response).holds tv i;
            expected_one = not-eq_false _ same;
          })
