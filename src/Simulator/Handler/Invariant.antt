-- ===== src/Simulator/Handler/Invariant.antt =====
-- What every request to the simulator (src/cmnd_linux/simulator.py) leaves of its state.
use linux_cmnd.Prelude.{
  ℕ, ◌≤◌, ◌≡◌, refl, ◌∙◌, String, Bool, true, false, Option, none, some, List, [], ◌∷◌, arith, All,
  one_of, str_eq, length, drop, ◌-◌, suc, zero, Bool-cases, inl, inr,
}
use linux_cmnd.Result.{Error, Result, ok, err}
use linux_cmnd.Result.Chain.{
  Ensures, Ensures-ok, Ensures-bind, Ensures-refuse, Ensures-err, Ensures-if,
}
use linux_cmnd.Json.{Json, null, bool, int, float, Fields, end, field, lookup, ℤ, str, arr, obj}
use linux_cmnd.Simulator.Url.{UrlLibrary}
use linux_cmnd.Simulator.State.{TvState, put, keep_last}
use linux_cmnd.Simulator.Handler.{
  Branch, member, discover, change_power, power_service, switches, update_services, enabler_service,
  request_applications, listed_applications, indexed_text, activate_application,
  application_control, available, clone_service, dispatch, log_request, do_post, finish,
  with_function, with_request, details_of, valid_length, unsupported,
}

abbrev pub is_power : String → Bool
is_power p = one_of p ("On" ∷ "Standby" ∷ [])

abbrev pub is_switch : String → Bool
is_switch v = one_of v ("On" ∷ "Off" ∷ [])

-- A TV is on or in standby, runs an application that it has, each of its services is on or off,
-- and it remembers at most fifty requests.
pub record IsTv (s : TvState) : Type 0 where
  pub powered : is_power s.power ≡ true
  pub running : one_of s.active_application s.available_applications ≡ true
  pub switched : All (λ (k, v). is_switch v ≡ true) s.enabled_services
  pub bounded : length s.requests ≤ 50

-- What a branch leaves alone.
pub record Stays (s t : TvState) : Type 0 where
  pub identity : t.identity ≡ s.identity
  pub serial : t.serial ≡ s.serial
  pub callback_origin : t.callback_origin ≡ s.callback_origin
  pub room_id : t.room_id ≡ s.room_id
  pub applications : t.available_applications ≡ s.available_applications

pub record Good (s : TvState) (r : TvState × Fields) : Type 0 where
  pub tv : IsTv r.0
  pub stays : Stays s r.0

same : (s : TvState) → Stays s s
same s = record {
  identity = refl;
  serial = refl;
  callback_origin = refl;
  room_id = refl;
  applications = refl;
}

member-one_of :
    (bad : Error) (texts : List String) (v : Option Json) (s : String)
    → member bad texts v ≡ ok s
    → one_of s texts ≡ true
member-one_of bad texts v s h = ground arith

available-one_of :
    (texts : List String) (v : Option Json) (s : String)
    → available texts v ≡ ok s
    → one_of s texts ≡ true
available-one_of texts v s h = ground arith

abbrev Switched : List (String × String) → Type 0
Switched = All (λ (k, v). is_switch v ≡ true)

put-Switched :
    (k v : String) (services : List (String × String))
    → is_switch v ≡ true
    → Switched services
    → Switched (put k v services)
unfolding put
put-Switched k v [] h a = (h, tt)
put-Switched k v ((l, w) ∷ rest) h a =
    let later = put-Switched k v rest h a.1 in
    elim (Bool-cases (str_eq l k)) [ inl e ↦ rw e (h, a.1) | inr e ↦ rw e (a.0, later) ]

update_services-Switched :
    (services values : List (String × String))
    → Switched services
    → Switched values
    → Switched (update_services services values)
unfolding update_services
update_services-Switched services [] a h = a
update_services-Switched services ((k, v) ∷ rest) a h =
    update_services-Switched (put k v services) rest (put-Switched k v services h.0 a) h.1

switches-Switched : (parameters : Fields) → Ensures Switched (switches parameters)
unfolding switches
switches-Switched end = Ensures-ok [] tt
switches-Switched (field k v rest) =
    let others = switches-Switched rest in
    Ensures-bind _ _ λ value m. Ensures-bind _ _ λ values found.
      Ensures-ok _
        (member-one_of unsupported ("On" ∷ "Off" ∷ []) (some v) value m, others.holds values found)

module _ (s : TvState) (i : IsTv s) where
  discover-Good :
      (address : String) (type : Option Json) → Ensures (Good s) (discover address s type)
  unfolding discover
  discover-Good address type =
      Ensures-refuse _ _ _ λ _. Ensures-ok _ (record { tv = i; stays = same s })

  on :
      (count : ℕ) (power : String)
      → is_power power ≡ true
      → Good s (record s { reboot_count = count; power = power }, end)
  on count power h = record {
    tv = record { powered = h; running = i.running; switched = i.switched; bounded = i.bounded };
    stays = unchanged;
  }
    where
      unchanged : Stays s (record s { reboot_count = count; power = power })
      unchanged = record {
        identity = refl;
        serial = refl;
        callback_origin = refl;
        room_id = refl;
        applications = refl;
      }

  change_power-Good : (details : Json) → Ensures (λ t. Good s (t, end)) (change_power s details)
  unfolding change_power
  change_power-Good details = Ensures-bind _ _ λ fields _.
      Ensures-if _ _ _ (Ensures-ok _ (on (suc s.reboot_count) "On" refl)) (
        Ensures-bind _ _ λ power p. Ensures-ok _ (
          on s.reboot_count power
            (member-one_of _ ("On" ∷ "Standby" ∷ []) (lookup "ToPowerState" fields) power p)))

  power_service-Good :
      (type : Option Json) (details : Json) → Ensures (Good s) (power_service s type details)
  unfolding power_service
  power_service-Good type details =
      Ensures-if _ _ _ (Ensures-ok _ (record { tv = i; stays = same s })) (
        Ensures-if _ _ _
          (Ensures-bind _ _ λ t c.
            let good = (change_power-Good details).holds t c in
            Ensures-ok _ (record { tv = good.tv; stays = good.stays }))
          (Ensures-err _))

  enabler_service-Good :
      (type : Option Json) (details : Json) → Ensures (Good s) (enabler_service s type details)
  unfolding enabler_service
  enabler_service-Good type details = Ensures-refuse _ _ _ λ _. Ensures-bind _ _ λ fields _.
      Ensures-bind _ _ λ parameters _. Ensures-refuse _ _ _ λ _. Ensures-bind _ _ λ values v.
        Ensures-ok _ (record {
          tv = record {
            powered = i.powered;
            running = i.running;
            switched =
                update_services-Switched s.enabled_services values i.switched
                  ((switches-Switched parameters).holds values v);
            bounded = i.bounded;
          };
          stays = record {
            identity = refl;
            serial = refl;
            callback_origin = refl;
            room_id = refl;
            applications = refl;
          };
        })

  activate_application-Good : (details : Json) → Ensures (Good s) (activate_application s details)
  unfolding activate_application
  activate_application-Good details = Ensures-bind _ _ λ fields _. Ensures-refuse _ _ _ λ _.
      Ensures-bind _ _ λ name n. Ensures-ok _ (record {
        tv = record {
          powered = i.powered;
          running = available-one_of s.available_applications _ name n;
          switched = i.switched;
          bounded = i.bounded;
        };
        stays = record {
          identity = refl;
          serial = refl;
          callback_origin = refl;
          room_id = refl;
          applications = refl;
        };
      })

  listed-Good :
      (request : Option Json) (empty : Bool)
      → Ensures (Good s) (listed_applications s request empty)
  listed-Good (some request) empty =
      Ensures-if _ _ _ (Ensures-ok _ (record { tv = i; stays = same s })) (Ensures-err _)
  listed-Good none true = Ensures-ok _ (record { tv = i; stays = same s })
  listed-Good none false = Ensures-err _

  indexed-Good : (b : Bool) → Ensures (Good s) (indexed_text b)
  indexed-Good true = Ensures-err _
  indexed-Good false = Ensures-err _

  request_applications-Good : (details : Json) → Ensures (Good s) (request_applications s details)
  request_applications-Good (obj fields) = listed-Good _ _
  request_applications-Good (arr items) = indexed-Good _
  request_applications-Good (str t) = indexed-Good _
  request_applications-Good null = Ensures-err _
  request_applications-Good (bool b) = Ensures-err _
  request_applications-Good (int z) = Ensures-err _
  request_applications-Good (float z k) = Ensures-err _

  application_control-Good :
      (type : Option Json) (details : Json) → Ensures (Good s) (application_control s type details)
  unfolding application_control
  application_control-Good type details =
      Ensures-if _ _ _ (request_applications-Good details)
        (Ensures-if _ _ _ (activate_application-Good details) (Ensures-err _))

  module _ (lib : UrlLibrary) (to_str : Json → String) where
    clone_service-Good :
        (type : Option Json) (details : Json)
        → Ensures (Good s) (clone_service lib to_str s type details)
    unfolding clone_service
    clone_service-Good type details = Ensures-refuse _ _ _ λ _. Ensures-bind _ _ λ parameters _.
        Ensures-bind _ _ λ raw _. Ensures-bind _ _ λ listed _. Ensures-bind _ _ λ items _.
          Ensures-ok _ (record {
            tv = record {
              powered = i.powered;
              running = i.running;
              switched = i.switched;
              bounded = i.bounded;
            };
            stays = record {
              identity = refl;
              serial = refl;
              callback_origin = refl;
              room_id = refl;
              applications = refl;
            };
          })

    dispatch-Good :
        (address : String) (function : Json) (type : Option Json) (details : Json)
        → Ensures (Good s) (dispatch lib to_str address s function type details)
    unfolding dispatch
    dispatch-Good address function type details = Ensures-if _ _ _ (discover-Good address type) (
        Ensures-if _ _ _ (power_service-Good type details) (
          Ensures-if _ _ _ (enabler_service-Good type details) (
            Ensures-if _ _ _ (application_control-Good type details)
              (Ensures-if _ _ _ (clone_service-Good type details) (Ensures-err _)))))

length-drop : {A : Type 0} (n : ℕ) (xs : List A) → length (drop n xs) ≡ length xs - n
length-drop zero xs = omega arith
length-drop (suc n) [] = omega arith
length-drop (suc n) (x ∷ xs) = omega (arith, length-drop n xs)

pub keep_last_bound : {A : Type 0} (n : ℕ) (xs : List A) → length (keep_last n xs) ≤ n
unfolding keep_last
keep_last_bound n xs = omega (arith, length-drop (length xs - n) xs)

logged-IsTv :
    (function : Json) (type : Option Json) (s : TvState)
    → IsTv s
    → IsTv (log_request function type s)
logged-IsTv function type s i = record {
  powered = i.powered;
  running = i.running;
  switched = i.switched;
  bounded = keep_last_bound 50 _;
}

logged-Stays :
    (function : Json) (type : Option Json) (s : TvState) → Stays s (log_request function type s)
logged-Stays function type s = record {
  identity = refl;
  serial = refl;
  callback_origin = refl;
  room_id = refl;
  applications = refl;
}

-- The state after a request.
pub record Kept (s t : TvState) : Type 0 where
  pub tv : IsTv t
  pub stays : Stays s t

Stays-trans : (s t u : TvState) → Stays s t → Stays t u → Stays s u
Stays-trans s t u h k = record {
  identity = k.identity ∙ h.identity;
  serial = k.serial ∙ h.serial;
  callback_origin = k.callback_origin ∙ h.callback_origin;
  room_id = k.room_id ∙ h.room_id;
  applications = k.applications ∙ h.applications;
}

module _ (lib : UrlLibrary) (to_str : Json → String) (address : String) where
  finish-Kept :
      (s t : TvState) (request : Fields) (function : Json) (r : Branch)
      → IsTv t
      → Stays s t
      → ((x : TvState × Fields) → r ≡ ok x → Good t x)
      → Kept s (finish t request function r).1
  finish-Kept s t request function (err e) i k good = record { tv = i; stays = k }
  finish-Kept s t request function (ok x) i k good = record {
    tv = (good x refl).tv;
    stays = Stays-trans s t x.0 k (good x refl).stays;
  }

  with_request-Kept :
      (s : TvState) (request : Fields) (function : Option Json)
      → IsTv s
      → Kept s (with_function lib to_str address s request function).1
  with_request-Kept s request none i = record { tv = i; stays = same s }
  with_request-Kept s request (some function) i =
      let type = lookup "CmdType" request in
      let t = log_request function type s in
      let tv = logged-IsTv function type s i in
      finish-Kept s t request function _ tv (logged-Stays function type s)
        (dispatch-Good t tv lib to_str address function type
          (details_of (lookup "CommandDetails" request))).holds

  body-Kept :
      (s : TvState) (body : Result Json)
      → IsTv s
      → Kept s (with_request lib to_str address s body).1
  body-Kept s (err e) i = record { tv = i; stays = same s }
  body-Kept s (ok (obj request)) i = with_request-Kept s request (lookup "Fun" request) i
  body-Kept s (ok null) i = record { tv = i; stays = same s }
  body-Kept s (ok (bool b)) i = record { tv = i; stays = same s }
  body-Kept s (ok (int z)) i = record { tv = i; stays = same s }
  body-Kept s (ok (float z k)) i = record { tv = i; stays = same s }
  body-Kept s (ok (str t)) i = record { tv = i; stays = same s }
  body-Kept s (ok (arr items)) i = record { tv = i; stays = same s }

  -- Every request, one that is refused included, leaves a TV that is on or in standby, runs an
  -- application that it has, has each service on or off and remembers at most fifty requests; and
  -- it leaves the identity, the serial number, the origin, the room and the applications alone.
  pub do_post-Kept :
      (wixp : Bool) (size : Result ℤ) (body : Result Json) (s : TvState)
      → IsTv s
      → Kept s (do_post lib to_str address wixp size body s).1
  unfolding do_post
  do_post-Kept false size body s i = record { tv = i; stays = same s }
  do_post-Kept true size body s i = elim (Bool-cases (valid_length size)) [
    | inl good ↦ rw good (body-Kept s body i)
    | inr bad ↦ rw bad (record { tv = i; stays = same s })
  ]
