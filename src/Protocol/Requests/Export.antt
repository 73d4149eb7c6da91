-- ===== src/Protocol/Requests/Export.antt =====
-- What the export request of src/cmnd_linux/protocol.py asks of a TV.
use linux_cmnd.Prelude.{
  ◌≡◌, refl, String, Bool, true, false, not, ◌&&◌, ◌||◌, Option, none, some, List, [], ◌∷◌, arith,
  one_of, all, All, str_eq, eq_iff, &&-eq_true,
}
use linux_cmnd.Result.{Result, ok}
use linux_cmnd.Result.Chain.{Ensures, Ensures-ok, Ensures-bind, Ensures-refuse}
use linux_cmnd.Json.{ℤ, lookup}
use linux_cmnd.Config.Types.{Address, IpLibrary}
use linux_cmnd.Simulator.Url.{SplitUrl, is_given}
use linux_cmnd.Config.PackageUrl.{given}
use linux_cmnd.Protocol.Requests.{
  Message, cookie_or, clone_info_request, clone_export_request, is_tv_identity, are_items,
  is_receive_url, is_receive_path, all_distinct, export_items, export_details, address_of,
  parsed_address,
}

-- The request of a clone session that only reads.
pub record IsInfo (version : String) (fresh : ℤ) (correlation : Option ℤ) (m : Message)
    : Type 0 where
  pub known_version : one_of version ("1.0" ∷ "3.0" ∷ "5.0" ∷ []) ≡ true
  pub versioned : m.version ≡ version
  pub correlated : m.cookie ≡ cookie_or fresh correlation
  pub function : m.fun ≡ "IPCloneService"

clone_info_request-IsInfo :
    (fresh : ℤ) (version : String) (correlation : Option ℤ)
    → Ensures (IsInfo version fresh correlation) (clone_info_request fresh version correlation)
unfolding clone_info_request
clone_info_request-IsInfo fresh version correlation = Ensures-refuse _ _ _ λ known.
    Ensures-ok _ (record {
      known_version = ground arith;
      versioned = refl;
      correlated = refl;
      function = refl;
    })

seven :
    (a g b c d e f : Bool)
    → (a && g && not b && not c && d && e && f) ≡ true
    → (a ≡ true) × (b ≡ false) × (c ≡ false) × (d ≡ true) × (e ≡ true) × (f ≡ true)
seven a g b c d e f h = ground arith

all-All : {A : Type 0} (p : A → Bool) (xs : List A) → all p xs ≡ true → All (λ x. p x ≡ true) xs
all-All p [] h = tt
all-All p (x ∷ xs) h = let both = &&-eq_true (p x) (all p xs) h in (both.0, all-All p xs both.1)

are_items_parts :
    (items : List String)
    → are_items items ≡ true
    → (items ≡ [] → ⊥) × (all_distinct items ≡ true) × All (λ i. one_of i export_items ≡ true) items
are_items_parts [] h = absurd (cc h)
are_items_parts (i ∷ rest) h =
    let both =
      &&-eq_true (all_distinct (i ∷ rest)) (all (λ j. one_of j export_items) (i ∷ rest))
        (ground arith) in
    (λ e. cc e, both.0, all-All (λ j. one_of j export_items) (i ∷ rest) both.1)

three : (a b c : Bool) → not (a && b && c) ≡ false → (a ≡ true) × (b ≡ true) × (c ≡ true)
three a b c h = ground arith

pub parsed_address-some : (o : Option Address) (a : Address) → parsed_address o ≡ ok a → o ≡ some a
parsed_address-some none a h = cc
parsed_address-some (some b) a h = ground arith

module _ (lib : IpLibrary) (urlsplit : String → Result SplitUrl) (fresh : ℤ) where
  -- A request that exports the items of a TV to the URL, and that sends no item to it.
  pub record IsExport (identity : String) (items : List String) (url version : String)
      (correlation : Option ℤ) (m : Message) : Type 0 where
    pub parsed : SplitUrl
    pub address : Address
    pub info : IsInfo version fresh correlation m
    pub change : m.cmd_type ≡ "Change"
    pub details : m.details ≡ some (export_details identity items url)
    pub no_clone : lookup "IPCloneParameters" (export_details identity items url) ≡ none
    pub identified : is_tv_identity identity ≡ true
    pub some_item : items ≡ [] → ⊥
    pub distinct : all_distinct items ≡ true
    pub known_items : All (λ i. one_of i export_items ≡ true) items
    pub split : urlsplit url ≡ ok parsed
    pub scheme : parsed.scheme ≡ "http"
    pub username : is_given parsed.username ≡ false
    pub password : is_given parsed.password ≡ false
    pub query : parsed.query ≡ ""
    pub fragment : parsed.fragment ≡ ""
    pub path : is_receive_path parsed.path ≡ true
    pub literal : address_of lib parsed.hostname ≡ some address
    pub unicast : (lib.is_unspecified address || lib.is_multicast address) ≡ false

  -- An export request that is built names a well-formed identity and one or more known items
  -- without repetition. Its URL is one of http at a literal unicast address, without credentials,
  -- query and fragment, whose path is the private one of a receiver. It has a known version and the
  -- cookie of the caller, and no parameters of a clone to the TV.
  pub clone_export_request-IsExport :
      (identity : String) (items : List String) (url version : String) (correlation : Option ℤ)
      → Ensures
          (IsExport identity items url version correlation)
          (clone_export_request lib urlsplit fresh identity items url version correlation)
  unfolding clone_export_request lookup
  clone_export_request-IsExport identity items url version correlation =
      Ensures-bind _ _ λ parsed s. Ensures-refuse _ _ _ λ valid. Ensures-bind _ _ λ port _.
        Ensures-refuse _ _ _ λ _. Ensures-bind _ _ λ address a. Ensures-refuse _ _ _ λ unicast.
          Ensures-bind _ _ λ message made.
            let parts =
              three (is_tv_identity identity) (are_items items) (is_receive_url parsed) valid in
            let items_parts = are_items_parts items parts.1 in
            let url_parts =
              seven (str_eq parsed.scheme "http") (given parsed.hostname) (is_given parsed.username)
                (is_given parsed.password) (str_eq parsed.query "") (str_eq parsed.fragment "")
                (is_receive_path parsed.path) parts.2 in
            let info = (clone_info_request-IsInfo fresh version correlation).holds message made in
            Ensures-ok _ (record {
              parsed = parsed;
              address = address;
              info = record {
                known_version = info.known_version;
                versioned = info.versioned;
                correlated = info.correlated;
                function = info.function;
              };
              change = refl;
              details = refl;
              no_clone = refl;
              identified = parts.0;
              some_item = items_parts.0;
              distinct = items_parts.1;
              known_items = items_parts.2;
              split = s;
              scheme = (eq_iff _ _).0 url_parts.0;
              username = url_parts.1;
              password = url_parts.2;
              query = (eq_iff _ _).0 url_parts.3;
              fragment = (eq_iff _ _).0 url_parts.4;
              path = url_parts.5;
              literal = parsed_address-some _ address a;
              unicast = unicast;
            })
